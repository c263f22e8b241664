-- ===== src/Backend.antt =====
-- rata_shell/src/render/backend.rs: the rows that changed since the last frame, as rectangles.
-- `none` is a panic of a slice out of range; a `u16` sum wraps.
pub mod Rows
pub mod Coalesce
pub mod Dirty
use scshell.Base.{
  ℕ, zero, suc, ◌+◌, ◌-◌, ◌*◌, ◌^◌, Bool, true, false, not, ◌&&◌, List, [], ◌∷◌, ◌++◌, Option, none,
  some, ◌>>=◌, leb, ◌==◌, if◌then◌else◌, length, take, drop, as_u16,
}
use scshell.Cell.{HostCell}

-- `RectU16`
pub record Rect : Type 0 where
  pub x : ℕ
  pub y : ℕ
  pub w : ℕ
  pub h : ℕ

-- `prev`, `prev_cols` and `prev_rows`; `cell_buf` is scratch space, filled before each use.
pub record HostBackend : Type 0 where
  pub prev : Option (List HostCell)
  pub prev_cols : ℕ
  pub prev_rows : ℕ

abbrev pub new : HostBackend
new = record { prev = none; prev_cols = 0; prev_rows = 0 }

-- `&v[a..b]`
unfoldable pub slice {ℓ} : {A : Type ℓ} → List A → ℕ → ℕ → Option (List A)
slice v a b = if leb a b && leb b (length v) then some (take (b - a) (drop a v)) else none

unfoldable pub cell_eq : HostCell → HostCell → Bool
cell_eq x y =
    x.ch == y.ch && x.fg == y.fg && x.bg == y.bg && x.attrs == y.attrs && x.width == y.width

-- `zip` and `all`
unfoldable pub all_eq : List HostCell → List HostCell → Bool
all_eq [] bs = true
all_eq (a ∷ as') [] = true
all_eq (a ∷ as') (b ∷ bs) = cell_eq a b && all_eq as' bs

unfoldable pub cells_eq : List HostCell → List HostCell → Bool
cells_eq as' bs = if not (length as' == length bs) then false else all_eq as' bs

-- The loop over the rows from `y` on, `n` of them.
unfoldable pub changed_rows : ℕ → ℕ → ℕ → List HostCell → List HostCell → Option (List Rect)
changed_rows zero y cols cells_now prev = some []
changed_rows (suc n) y cols cells_now prev = do
  new_slice ← slice cells_now (y * cols) (y * cols + cols)
  old_slice ← slice prev (y * cols) (y * cols + cols)
  rest ← changed_rows n (y + 1) cols cells_now prev
  some (
      if not (cells_eq new_slice old_slice)
      then record { x = 0; y = as_u16 y; w = cols; h = 1 } ∷ rest
      else rest)

-- `sort_by_key(|r| r.y)`, which is stable.
insert : Rect → List Rect → List Rect
insert r [] = r ∷ []
insert r (s ∷ ss) = if leb r.y s.y then r ∷ s ∷ ss else s ∷ insert r ss

unfoldable pub sort_by_y : List Rect → List Rect
unfolding insert
sort_by_y [] = []
sort_by_y (r ∷ rs) = insert r (sort_by_y rs)

-- `r` goes right below `last`.
unfoldable pub touches : Rect → Rect → Bool
touches last r = last.x == r.x && last.w == r.w && as_u16 (last.y + last.h) == r.y

unfoldable pub grow : Rect → Rect → Rect
grow last r = record last { h = as_u16 (last.h + r.h) }

-- One round of the loop: `r` extends the last rectangle of `out`, or is pushed.
unfoldable pub add_rect : List Rect → Rect → List Rect
add_rect [] r = r ∷ []
add_rect (last ∷ []) r = if touches last r then grow last r ∷ [] else last ∷ r ∷ []
add_rect (o ∷ p ∷ out) r = o ∷ add_rect (p ∷ out) r

unfoldable pub coalesce_loop : List Rect → List Rect → List Rect
coalesce_loop out [] = out
coalesce_loop out (r ∷ rs) = coalesce_loop (add_rect out r) rs

unfoldable pub coalesce : List Rect → List Rect
coalesce rects = coalesce_loop [] (sort_by_y rects)

-- `dirty`, given the frame before.
unfoldable pub dirty_rects : HostBackend → ℕ → ℕ → List HostCell → Option (List Rect)
dirty_rects b cols rows cells_now = elim b.prev [
  | none ↦ some (record { x = 0; y = 0; w = cols; h = rows } ∷ [])
  | some prev ↦
      if not (b.prev_cols == cols && b.prev_rows == rows)
      then some (record { x = 0; y = 0; w = cols; h = rows } ∷ [])
      else (do rects ← changed_rows rows 0 cols cells_now prev; some (coalesce rects))
]

-- The frame and the backend after it.
unfoldable pub next_frame : HostBackend → ℕ → ℕ → List HostCell → Option (List Rect × HostBackend)
next_frame b cols rows cells_now = do
  dirty ← dirty_rects b cols rows cells_now
  some (dirty, record { prev = some cells_now; prev_cols = cols; prev_rows = rows })
