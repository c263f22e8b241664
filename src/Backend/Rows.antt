-- ===== src/Backend/Rows.antt =====
-- The rows of a frame, and when the backend takes two for equal.
use scshell.Base.{
  ℕ, zero, suc, ◌+◌, ◌-◌, ◌*◌, ◌≤◌, ◌<◌, ◌^◌, Bool, true, false, not, List, [], ◌∷◌, map, some, ◌≡◌,
  ◌↔◌, refl, arith, if◌then◌else◌, length, take, drop, as_u16,
}
use scshell.Cell.{HostCell}
use scshell.Backend.{Rect, changed_rows, slice, cell_eq, all_eq, cells_eq}

-- Row `y` of a frame that is `cols` wide.
abbrev pub row {ℓ} : {A : Type ℓ} → ℕ → List A → ℕ → List A
row cols cells y = take cols (drop (y * cols) cells)

-- What is drawn of a cell.
pub record Face : Type 0 where
  pub ch : ℕ
  pub fg : ℕ
  pub bg : ℕ
  pub attrs : ℕ
  pub width : ℕ

abbrev pub face : HostCell → Face
face c = record { ch = c.ch; fg = c.fg; bg = c.bg; attrs = c.attrs; width = c.width }

cell_eq_iff : (a b : HostCell) → (cell_eq a b ≡ true) ↔ (face a ≡ face b)
unfolding cell_eq
cell_eq_iff a b = ground arith

cons_iff :
    (a b : HostCell) (as' bs : List HostCell)
    → (face a ≡ face b)
    → (map face as' ≡ map face bs)
    → map face (a ∷ as') ≡ map face (b ∷ bs)
cons_iff a b as' bs p q = cc

-- Two rows count as equal exactly when every cell of the one is drawn as that of the other.
pub cells_eq_iff :
    (as' bs : List HostCell) → (cells_eq as' bs ≡ true) ↔ (map face as' ≡ map face bs)
unfolding cells_eq all_eq
cells_eq_iff [] [] = ground arith
cells_eq_iff [] (b ∷ bs) = ground arith
cells_eq_iff (a ∷ as') [] = ground arith
cells_eq_iff (a ∷ as') (b ∷ bs) = ground (arith, cells_eq_iff as' bs, cell_eq_iff a b)

row_fits : (cols y rows : ℕ) → y < rows → y * cols + cols ≤ cols * rows
row_fits cols y rows h = grind arith

-- A row inside the frame is sliced with no panic.
slice-row :
    (cols y rows : ℕ) (cells : List HostCell)
    → length cells ≡ cols * rows
    → y < rows
    → slice cells (y * cols) (y * cols + cols) ≡ some (row cols cells y)
unfolding slice
slice-row cols y rows cells e h =
    let width : y * cols + cols - y * cols ≡ cols = omega arith in
    rw width (ground (arith, row_fits cols y rows h))

-- The two frames are drawn differently in row `y`.
unfoldable pub row_changed : ℕ → List HostCell → List HostCell → ℕ → Bool
row_changed cols cells_now prev y = not (cells_eq (row cols cells_now y) (row cols prev y))

-- One rectangle for each changed row.
unfoldable pub changed_list : ℕ → ℕ → ℕ → List HostCell → List HostCell → List Rect
changed_list zero y cols cells_now prev = []
changed_list (suc n) y cols cells_now prev =
    if row_changed cols cells_now prev y
    then record { x = 0; y = y; w = cols; h = 1 } ∷ changed_list n (y + 1) cols cells_now prev
    else changed_list n (y + 1) cols cells_now prev

module _ (cols rows : ℕ) (cells_now prev : List HostCell) where
  -- On two frames of the same size the loop does not panic, and lists the changed rows.
  pub changed_rows_total :
      length cells_now ≡ cols * rows
      → length prev ≡ cols * rows
      → rows < 2 ^ 16
      → (n y : ℕ) → y + n ≡ rows
      → changed_rows n y cols cells_now prev ≡ some (changed_list n y cols cells_now prev)
  unfolding changed_rows changed_list row_changed
  changed_rows_total ln lp small zero y e = refl
  changed_rows_total ln lp small (suc n) y e =
      let word : as_u16 y ≡ y = omega arith in
      rw (
        slice-row cols y rows cells_now ln (omega arith),
        slice-row cols y rows prev lp (omega arith),
        changed_rows_total ln lp small n (y + 1) (omega arith),
        word,
      )

-- A row that is not changed is drawn as before, and only such a row.
pub unchanged_iff :
    (cols : ℕ) (cells_now prev : List HostCell) (y : ℕ)
    → (row_changed cols cells_now prev y ≡ false)
      ↔ (map face (row cols cells_now y) ≡ map face (row cols prev y))
unfolding row_changed
unchanged_iff cols cells_now prev y =
    ground (arith, cells_eq_iff (row cols cells_now y) (row cols prev y))
