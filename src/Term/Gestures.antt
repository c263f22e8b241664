-- ===== src/Term/Gestures.antt =====
-- rata_shell/src/term.rs: what a host does with a terminal: scrolling, the selection, and vi mode.
pub mod Picked
use scshell.Base.{
  ℕ, ◌+◌, ◌-◌, Bool, List, [], ◌∷◌, ◌++◌, Option, none, some, ◌==◌, if◌then◌else◌, as_u16, Bytes, ℤ,
  pos, sub_ℕ,
}
use scshell.Term.{
  Point, Scroll, delta, top, bottom, SelectionType, simple, block_wise, semantic, lines_wise,
  ViMotion, up, down, left, right, first, last, first_occupied, high, middle, low, word_left,
  word_right, word_left_end, word_right_end, semantic_left, semantic_right, semantic_left_end,
  semantic_right_end, bracket, paragraph_up, paragraph_down, Emulator, TermHost,
}

abbrev motions : List ViMotion
motions =
    up ∷ down ∷ left ∷ right ∷ first ∷ last ∷ first_occupied ∷ high ∷ middle ∷ low ∷ word_left
    ∷ word_right ∷ word_left_end ∷ word_right_end ∷ semantic_left ∷ semantic_right
    ∷ semantic_left_end ∷ semantic_right_end ∷ bracket ∷ paragraph_up ∷ paragraph_down ∷ []

abbrev nth_motion : List ViMotion → ℕ → Option ViMotion
nth_motion [] kind = none
nth_motion (m ∷ ms) kind = if kind == 0 then some m else nth_motion ms (kind - 1)

-- The `match` on the kind, whose arms are numbered from 0 on; any other kind returns.
unfoldable pub motion_of : ℕ → Option ViMotion
motion_of kind = nth_motion motions kind

-- The `match` on the kind of a selection.
unfoldable pub selection_type : ℕ → SelectionType
selection_type kind =
    if kind == 1
    then block_wise
    else if kind == 2
    then semantic
    else if kind == 3
    then lines_wise
    else simple

module _ {E : Type 0} (em : Emulator E) where
  abbrev pub cols : TermHost E → ℕ
  cols t = as_u16 t.size.cols

  abbrev pub rows : TermHost E → ℕ
  rows t = as_u16 t.size.lines

  abbrev pub alt_active : TermHost E → Bool
  alt_active t = (em.view t.term).mode.alt_screen

  unfoldable pub scroll_display : TermHost E → ℤ → TermHost E
  scroll_display t lines = record t { term = em.scroll_display t.term (delta lines) }

  unfoldable pub scroll_to_top : TermHost E → TermHost E
  scroll_to_top t = record t { term = em.scroll_display t.term top }

  unfoldable pub scroll_to_bottom : TermHost E → TermHost E
  scroll_to_bottom t = record t { term = em.scroll_display t.term bottom }

  abbrev pub display_offset : TermHost E → ℕ
  display_offset t = (em.view t.term).display_offset

  abbrev pub history_size : TermHost E → ℕ
  history_size t = (em.view t.term).history_size

  unfoldable pub clear_history : TermHost E → TermHost E
  clear_history t = record t { term = em.clear_saved t.term }

  -- `ESC c`, past the scanner.
  unfoldable pub reset_state : TermHost E → TermHost E
  reset_state t =
      let (term, events) = em.advance t.term (0x1b ∷ b'c' ∷ []) in
      record t { term = term; queue = t.queue ++ events }

  unfoldable pub toggle_vi_mode : TermHost E → TermHost E
  toggle_vi_mode t = record t { term = em.toggle_vi_mode t.term }

  abbrev pub vi_mode_active : TermHost E → Bool
  vi_mode_active t = (em.view t.term).mode.vi

  -- `vi_motion` behind its `match`.
  unfoldable pub follow : TermHost E → Option ViMotion → TermHost E
  follow t none = t
  follow t (some m) = record t { term = em.vi_motion t.term m }

  unfoldable pub vi_motion : TermHost E → ℕ → TermHost E
  unfolding follow
  vi_motion t kind = follow t (motion_of kind)

  -- The cell of the grid at a cell of the viewport.
  unfoldable pub grid_point : TermHost E → ℕ → ℕ → Point
  grid_point t col row = record { line = sub_ℕ row (em.view t.term).display_offset; column = col }

  -- The selection begins on the left side of the cell.
  unfoldable pub selection_start : TermHost E → ℕ → ℕ → ℕ → TermHost E
  unfolding grid_point selection_type
  selection_start t col row kind = record t {
    term = em.new_selection t.term (selection_type kind) (grid_point t col row);
  }

  -- It ends on the right side of the cell.
  unfoldable pub selection_extend : TermHost E → ℕ → ℕ → TermHost E
  unfolding grid_point
  selection_extend t col row =
      if (em.view t.term).selecting
      then record t { term = em.update_selection t.term (grid_point t col row) }
      else t

  unfoldable pub selection_clear : TermHost E → TermHost E
  selection_clear t = record t { term = em.clear_selection t.term }

  unfoldable pub selection_to_string : TermHost E → Option Bytes
  selection_to_string t = em.selection_to_string t.term
