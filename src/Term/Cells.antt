-- ===== src/Term/Cells.antt =====
-- Which cells a snapshot reads of the grid, and how they are drawn.
use scshell.Base.{
  ℕ, zero, suc, ◌+◌, ◌*◌, ◌<◌, List, [], ◌∷◌, ◌++◌, map, Option, none, some, Bytes, ◌≡◌, refl, sym,
  ap, ◌∙◌, arith, length, take, drop, length-append, sub_ℕ,
}
use scshell.Cell.{HostCell, AtCell, convert_cell}
use scshell.Backend.Rows.{row, Face, face}
use scshell.Term.{View, Links, line_cells, grid_cells, link_cell, link_cells}

-- How a cell of the emulator is drawn.
abbrev pub drawn : AtCell → Face
drawn c = face (convert_cell c)

-- Line `y` of the viewport, `cols` wide.
abbrev pub viewport_line : View → ℕ → ℕ → List AtCell
viewport_line v cols y = line_cells cols 0 (v.at (sub_ℕ y v.display_offset))

length-line_cells : (n col : ℕ) (line : ℕ → AtCell) → length (line_cells n col line) ≡ n
unfolding line_cells
length-line_cells zero col line = refl
length-line_cells (suc n) col line = omega (arith, length-line_cells n (col + 1) line)

pub length-grid_cells : (n l cols : ℕ) (v : View) → length (grid_cells n l cols v) ≡ cols * n
unfolding grid_cells
length-grid_cells zero l cols v = omega arith
length-grid_cells (suc n) l cols v =
    let one = viewport_line v cols l in
    let rest = grid_cells n (l + 1) cols v in
    grind (
      arith,
      length-append one rest,
      length-line_cells cols 0 (v.at (sub_ℕ l v.display_offset)),
      length-grid_cells n (l + 1) cols v,
    )

module _ {ℓ} {A : Type ℓ} where
  take-append : (xs ys : List A) → take (length xs) (xs ++ ys) ≡ xs
  take-append [] ys = refl
  take-append (x ∷ xs) ys = ap (◌∷◌ x) (take-append xs ys)

  drop-append : (xs ys : List A) (n k : ℕ) → k ≡ length xs + n → drop k (xs ++ ys) ≡ drop n ys
  drop-append [] ys n k e = ap (λ i. drop i ys) (omega arith)
  drop-append (x ∷ xs) ys n zero e = absurd (omega arith)
  drop-append (x ∷ xs) ys n (suc k) e = drop-append xs ys n k (omega arith)

module _ {ℓ κ} {A : Type ℓ} {B : Type κ} (f : A → B) where
  map-take : (n : ℕ) (xs : List A) → map f (take n xs) ≡ take n (map f xs)
  map-take zero xs = refl
  map-take (suc n) [] = refl
  map-take (suc n) (x ∷ xs) = ap (◌∷◌ (f x)) (map-take n xs)

  map-drop : (n : ℕ) (xs : List A) → map f (drop n xs) ≡ drop n (map f xs)
  map-drop zero xs = refl
  map-drop (suc n) [] = refl
  map-drop (suc n) (x ∷ xs) = map-drop n xs

-- Row `y` of the cells is line `l + y` of the viewport.
row-grid_cells :
    (n l cols : ℕ) (v : View) (y : ℕ)
    → y < n
    → row cols (grid_cells n l cols v) y ≡ viewport_line v cols (l + y)
unfolding grid_cells
row-grid_cells zero l cols v y h = absurd (omega arith)
row-grid_cells (suc n) l cols v zero h =
    let whole = take-append (viewport_line v cols l) (grid_cells n (l + 1) cols v) in
    let wide = length-line_cells cols 0 (v.at (sub_ℕ l v.display_offset)) in
    let none_yet : 0 * cols ≡ 0 = omega arith in
    let here : l + 0 ≡ l = omega arith in rw (none_yet, here) (rw wide at whole)
row-grid_cells (suc n) l cols v (suc y) h =
    let one = viewport_line v cols l in
    let wide = length-line_cells cols 0 (v.at (sub_ℕ l v.display_offset)) in
    let next : l + 1 + y ≡ l + suc y = omega arith in
    ap (take cols) (
      drop-append one (grid_cells n (l + 1) cols v) (y * cols) (suc y * cols)
        (rw wide (omega arith)))
    ∙ row-grid_cells n (l + 1) cols v y (omega arith)
    ∙ ap (viewport_line v cols) next

-- The links change nothing of how a cell is drawn.
face-link_cell :
    (links : Links) (o : Option Bytes) (cell : HostCell)
    → face (link_cell links o cell).1 ≡ face cell
unfolding link_cell
face-link_cell links none cell = refl
face-link_cell links (some uri) cell = refl

faces-link_cells :
    (links : Links) (cs : List AtCell) → map face (link_cells links cs).1 ≡ map drawn cs
unfolding link_cells
faces-link_cells links [] = refl
faces-link_cells links (c ∷ cs) = rw (
  face-link_cell links c.hyperlink (convert_cell c),
  faces-link_cells (link_cell links c.hyperlink (convert_cell c)).0 cs,
)

-- The rows of a frame are the lines of the viewport.
pub rows_drawn :
    (links : Links) (lines cols : ℕ) (v : View) (y : ℕ)
    → y < lines
    → map face (row cols (link_cells links (grid_cells lines 0 cols v)).1 y)
      ≡ map drawn (viewport_line v cols y)
rows_drawn links lines cols v y h =
    let read = grid_cells lines 0 cols v in
    let linked = (link_cells links read).1 in
    map-take face cols (drop (y * cols) linked)
    ∙ ap (take cols) (map-drop face (y * cols) linked)
    ∙ ap (λ fs. take cols (drop (y * cols) fs)) (faces-link_cells links read)
    ∙ ap (take cols) (sym (map-drop drawn (y * cols) read))
    ∙ sym (map-take drawn cols (drop (y * cols) read))
    ∙ ap (map drawn) (row-grid_cells lines 0 cols v y h)
    ∙ ap (λ i. map drawn (viewport_line v cols i)) (omega arith)

pub length-link_cells :
    (links : Links) (cs : List AtCell) → length (link_cells links cs).1 ≡ length cs
unfolding link_cells
length-link_cells links [] = refl
length-link_cells links (c ∷ cs) =
    ap suc (length-link_cells (link_cell links c.hyperlink (convert_cell c)).0 cs)
