-- ===== src/Term.antt =====
-- rata_shell/src/term.rs: `TermHost`, the emulator with what the host keeps beside it. The emulator
-- is alacritty_terminal's `Term`, and stands for itself by what it answers.
pub mod Alacritty
pub mod Cells
pub mod Links
pub mod Cursor
pub mod Render
pub mod Screen
pub mod Play
pub mod Modes
pub mod Clicks
pub mod Search
pub mod Gestures
use scshell.Base.{
  ℕ, zero, suc, ◌+◌, ◌-◌, ◌*◌, ◌^◌, Bool, true, false, not, ◌&&◌, ◌||◌, List, [], ◌∷◌, ◌++◌, Option,
  none, some, ltb, leb, ◌==◌, if◌then◌else◌, max, as_u16, Bytes, ◌>>=◌, ℤ, pos, negsuc, sub_ℕ, ◌+ℤ◌,
  ltb_ℤ,
}
use scshell.Base.Bits.{set_flags}
use scshell.Cell.{HostCell, AtCell, convert_cell}
use scshell.Uri.{hash_uri}
use scshell.Osc7.{Osc7, scan, initial}
pub use Alacritty.*

-- `hyperlinks`: the URI of each id.
abbrev pub Links : Type 0
Links = List (ℕ × Bytes)

unfoldable pub get : Links → ℕ → Option Bytes
get [] id = none
get ((i, uri) ∷ links) id = if i == id then some uri else get links id

-- `entry(id).or_insert_with(|| uri.clone())`
unfoldable pub or_insert : Links → ℕ → Bytes → Links
or_insert links id uri = elim (get links id) [ some old ↦ links | none ↦ (id, uri) ∷ links ]

pub record TermHost (E : Type 0) : Type 0 where
  pub term : E
  pub size : Size
  pub queue : List Event
  pub current_title : Bytes
  pub osc7 : Osc7
  pub hyperlinks : Links
  pub search_pattern : Bytes
  pub search_origin : Option Point

pub record SnapshotMeta : Type 0 where
  pub cols : ℕ
  pub rows : ℕ
  pub cursor_x : ℕ
  pub cursor_y : ℕ
  pub cursor_visible : Bool
  pub alt_active : Bool
  pub app_cursor_keys : Bool
  pub cursor_style : ℕ

-- The inner loop of a snapshot: the cells of one line, from column `col` on, `n` of them.
unfoldable pub line_cells : ℕ → ℕ → (ℕ → AtCell) → List AtCell
line_cells zero col line = []
line_cells (suc n) col line = line col ∷ line_cells n (col + 1) line

-- The outer loop, from `line_idx` on: line `line_idx` of the viewport is line `line_idx - off` of the
-- grid.
unfoldable pub grid_cells : ℕ → ℕ → ℕ → View → List AtCell
grid_cells zero line_idx cols v = []
grid_cells (suc n) line_idx cols v =
    line_cells cols 0 (v.at (sub_ℕ line_idx v.display_offset)) ++ grid_cells n (line_idx + 1) cols v

-- One round of the second pass: a cell with a link gets its id, and the URI is kept under it.
unfoldable pub link_cell : Links → Option Bytes → HostCell → Links × HostCell
link_cell links none cell = (links, cell)
link_cell links (some uri) cell =
    let id = hash_uri uri in (or_insert links id uri, record cell { hyperlink_id = id })

-- Both passes on the cells in their order.
unfoldable pub link_cells : Links → List AtCell → Links × List HostCell
link_cells links [] = (links, [])
link_cells links (c ∷ cs) =
    let (links, cell) = link_cell links c.hyperlink (convert_cell c) in
    let (links, cells) = link_cells links cs in (links, cell ∷ cells)

-- `x.clamp(0, n - 1)`, which panics where n is 0.
unfoldable pub clamp_below : ℕ → ℤ → Option ℕ
clamp_below zero x = none
clamp_below (suc n) (negsuc k) = some 0
clamp_below (suc n) (pos k) = some (if ltb n k then n else k)

unfoldable pub cursor_style : CursorShape → Bool → ℕ
cursor_style underline true = 3
cursor_style underline false = 4
cursor_style beam true = 5
cursor_style beam false = 6
cursor_style hidden _ = 0
cursor_style _ blinking = if blinking then 1 else 2

abbrev pub is_hidden : CursorShape → Bool
is_hidden hidden = true
is_hidden _ = false

-- `cursor_line_vp >= 0 && cursor_line_vp < rows`
abbrev pub in_view : ℕ → ℤ → Bool
in_view rows line_vp = not (ltb_ℤ line_vp (pos 0)) && ltb_ℤ line_vp (pos rows)

unfoldable pub cursor_meta : Size → View → Option SnapshotMeta
unfolding clamp_below
cursor_meta size v = do
  x ← clamp_below size.cols (pos v.cursor_column)
  let line_vp = v.cursor_line +ℤ pos v.display_offset
  y ← clamp_below size.lines line_vp
  some (record {
    cols = as_u16 size.cols;
    rows = as_u16 size.lines;
    cursor_x = as_u16 x;
    cursor_y = as_u16 y;
    cursor_visible = v.mode.show_cursor && not (is_hidden v.shape) && in_view size.lines line_vp;
    alt_active = v.mode.alt_screen;
    app_cursor_keys = v.mode.app_cursor;
    cursor_style = cursor_style v.shape v.blinking;
  })

-- The `if` statements of `mode_flags`, in their order.
abbrev pub mode_list : Mode → List (Bool × ℕ)
mode_list m =
    (m.alt_screen, 2 ^ 0)
    ∷ (m.app_cursor, 2 ^ 1)
    ∷ (m.app_keypad, 2 ^ 2)
    ∷ (m.bracketed_paste, 2 ^ 3)
    ∷ (m.mouse_report_click, 2 ^ 4)
    ∷ (m.mouse_drag, 2 ^ 5)
    ∷ (m.mouse_motion, 2 ^ 6)
    ∷ (m.sgr_mouse, 2 ^ 7)
    ∷ (m.utf8_mouse, 2 ^ 8)
    ∷ []

unfoldable pub mode_word : Mode → ℕ
mode_word m = set_flags 0 (mode_list m)

-- The title after an event.
unfoldable pub title_after : Bytes → Event → Bytes
title_after old (title t) = t
title_after old reset_title = []
title_after old _ = old

unfoldable pub titles_after : Bytes → List Event → Bytes
titles_after old [] = old
titles_after old (ev ∷ evs) = titles_after (title_after old ev) evs

module _ {E : Type 0} (em : Emulator E) where
  unfoldable pub new : ℕ → ℕ → ℕ → TermHost E
  new cols rows scrollback =
      let size = size_new cols rows in
      record {
        term = em.create scrollback size;
        size = size;
        queue = [];
        current_title = [];
        osc7 = initial;
        hyperlinks = [];
        search_pattern = [];
        search_origin = none;
      }

  unfoldable pub resize : TermHost E → ℕ → ℕ → TermHost E
  resize t cols rows =
      let size = size_new cols rows in record t { size = size; term = em.resize t.term size }

  -- The scanner reads every byte before the emulator does; the listener queues the events.
  unfoldable pub advance : TermHost E → Bytes → TermHost E
  advance t bytes =
      let (term, events) = em.advance t.term bytes in
      record t { osc7 = scan t.osc7 bytes; term = term; queue = t.queue ++ events }

  unfoldable pub drain_events : TermHost E → TermHost E × List Event
  drain_events t =
      (record t { queue = []; current_title = titles_after t.current_title t.queue }, t.queue)

  unfoldable pub mode_flags : TermHost E → ℕ
  mode_flags t = mode_word (em.view t.term).mode

  -- The cells of the viewport, the links that they add, and the rest of the frame; `none` is a panic.
  unfoldable pub snapshot : TermHost E → Option (TermHost E × List HostCell × SnapshotMeta)
  snapshot t =
      let v = em.view t.term in
      let (links, cells) = link_cells t.hyperlinks (grid_cells t.size.lines 0 t.size.cols v) in
      do meta ← cursor_meta t.size v; some (record t { hyperlinks = links }, cells, meta)

-- `Session::hyperlink_uri`: no URI is the empty one.
unfoldable pub hyperlink_uri : {E : Type 0} → TermHost E → ℕ → Bytes
hyperlink_uri t id =
    if id == 0 then [] else elim (get t.hyperlinks id) [ some uri ↦ uri | none ↦ [] ]
