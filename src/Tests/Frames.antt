-- ===== src/Tests/Frames.antt =====
-- The rectangles of a frame.
use scshell.Base.{ℕ, List, [], ◌∷◌, some, none, map, ◌≡◌, refl, arith, true}
use scshell.Cell.{HostCell, AtCell, convert_cell}
use scshell.Cell.Attrs.{HasFlags, convert_cell-HasFlags}
use scshell.Color.{named, black, red}
use scshell.Base.{false}
use scshell.Backend.{
  Rect, HostBackend, new, next_frame, dirty_rects, changed_rows, coalesce, coalesce_loop, add_rect,
  sort_by_y, touches, grow, slice, cells_eq, all_eq, cell_eq,
}
use scshell.Backend.Rows.{cells_eq_iff}
use scshell.Backend.Dirty.{IsValid, Drawn, IsDirty, next_frame-Drawn, next_frame-IsDirty}

abbrev cell : ℕ → HostCell
cell c = record { ch = c; fg = 1; bg = 2; attrs = 0; width = 1; hyperlink_id = 0 }

-- Two columns and five rows; rows 1, 2 and 4 are drawn anew.
abbrev before : List HostCell
before = map cell (1 ∷ 1 ∷ 2 ∷ 2 ∷ 3 ∷ 3 ∷ 4 ∷ 4 ∷ 5 ∷ 5 ∷ [])

abbrev after : List HostCell
after = map cell (1 ∷ 1 ∷ 2 ∷ 9 ∷ 9 ∷ 3 ∷ 4 ∷ 4 ∷ 9 ∷ 9 ∷ [])

abbrev drawn : HostBackend
drawn = record { prev = some before; prev_cols = 2; prev_rows = 5 }

changed :
    dirty_rects drawn 2 5 after
    ≡ some (record { x = 0; y = 1; w = 2; h = 2 } ∷ record { x = 0; y = 4; w = 2; h = 1 } ∷ [])
unfolding dirty_rects changed_rows coalesce coalesce_loop add_rect sort_by_y touches grow slice
    cells_eq all_eq cell_eq
changed = refl

first_frame : dirty_rects new 2 5 after ≡ some (record { x = 0; y = 0; w = 2; h = 5 } ∷ [])
unfolding dirty_rects
first_frame = refl

some-eq : {A : Type 0} (a b : A) → some a ≡ some b → a ≡ b
some-eq a b h = cc

drawn-IsValid : IsValid drawn
drawn-IsValid = record { whole = λ prev p. rw (← some-eq before prev p) refl }

next_frame-Drawn_example : Drawn drawn 2 5 after
next_frame-Drawn_example = next_frame-Drawn drawn 2 5 after drawn-IsValid (omega arith) refl

next_frame-IsDirty_example :
    (rects : List Rect) × (next_frame drawn 2 5 after
      ≡ some (rects, record { prev = some after; prev_cols = 2; prev_rows = 5 }))
    × IsDirty 2 5 after before rects
next_frame-IsDirty_example =
    next_frame-IsDirty drawn 2 5 after before drawn-IsValid (omega arith) refl refl refl

new_link_is_equal : cells_eq (cell 1 ∷ []) (record (cell 1) { hyperlink_id = 7 } ∷ []) ≡ true
new_link_is_equal = (cells_eq_iff (cell 1 ∷ []) (record (cell 1) { hyperlink_id = 7 } ∷ [])).1 refl

abbrev bold_link : AtCell
bold_link = record {
  c = b'x';
  flags = record {
    bold = true;
    dim = false;
    italic = false;
    any_underline = true;
    inverse = false;
    hidden = false;
    strikeout = true;
    wide_char = false;
    wide_char_spacer = false;
  };
  fg = named red;
  bg = named black;
  hyperlink = none;
}

convert_cell-HasFlags_example : HasFlags (convert_cell bold_link).attrs bold_link.flags
convert_cell-HasFlags_example = convert_cell-HasFlags bold_link
