-- ===== src/Backend/Coalesce.antt =====
-- `coalesce` joins rectangles that lie one below the other, and covers the same rows.
use scshell.Base.{
  sym, ℕ, ◌+◌, ◌≤◌, ◌<◌, ◌^◌, Bool, true, false, ◌&&◌, ◌||◌, List, [], ◌∷◌, ◌++◌, ◌≡◌, refl, ap,
  arith, leb, ltb, if◌then◌else◌, as_u16, ◌∙◌, Bool-cases, inl, inr,
}
use mathlib.Core.List.{append_assoc}
use scshell.Backend.{insert, Rect, sort_by_y, touches, grow, add_rect, coalesce_loop}

-- Row `y` lies in a rectangle, in one of a list.
abbrev pub in_rect : Rect → ℕ → Bool
in_rect r y = leb r.y y && ltb y (r.y + r.h)

unfoldable pub covers : List Rect → ℕ → Bool
covers [] y = false
covers (r ∷ rs) y = in_rect r y || covers rs y

-- Whole rows of a frame from row `low` on, each rectangle above the next with at least `gap` rows
-- between the two.
abbrev pub IsStack : ℕ → ℕ → ℕ → ℕ → List Rect → Type 0
IsStack gap cols rows low [] = Unit
IsStack gap cols rows low (r ∷ rs) =
    (r.x ≡ 0)
    × (r.w ≡ cols)
    × (0 < r.h)
    × (low ≤ r.y)
    × (r.y + r.h ≤ rows)
    × IsStack gap cols rows (gap + (r.y + r.h)) rs

insert-stack :
    (cols rows : ℕ) (r : Rect) (ss : List Rect)
    → IsStack 0 cols rows (0 + (r.y + r.h)) ss
    → insert r ss ≡ r ∷ ss
unfolding sort_by_y
insert-stack cols rows r [] k = refl
insert-stack cols rows r (s ∷ ss) k = ground arith

pub sort_by_y-stack :
    (cols rows low : ℕ) (rs : List Rect) → IsStack 0 cols rows low rs → sort_by_y rs ≡ rs
unfolding sort_by_y
sort_by_y-stack cols rows low [] h = refl
sort_by_y-stack cols rows low (r ∷ rs) h =
    rw (sort_by_y-stack cols rows (0 + (r.y + r.h)) rs h.5) (insert-stack cols rows r rs h.5)

-- The loop as a recursion: `last` grows as long as the next rectangle touches it.
unfoldable pub runs : Rect → List Rect → List Rect
runs last [] = last ∷ []
runs last (r ∷ rs) =
    let joined = runs (grow last r) rs in
    let apart = last ∷ runs r rs in if touches last r then joined else apart

add_rect-append :
    (done : List Rect) (last r : Rect)
    → add_rect (done ++ last ∷ []) r
      ≡ done ++ (if touches last r then grow last r ∷ [] else last ∷ r ∷ [])
unfolding add_rect
add_rect-append [] last r = refl
add_rect-append (d ∷ []) last r = refl
add_rect-append (d ∷ e ∷ done) last r = ap (◌∷◌ d) (add_rect-append (e ∷ done) last r)

pub coalesce_loop-runs :
    (done : List Rect) (last : Rect) (rs : List Rect)
    → coalesce_loop (done ++ last ∷ []) rs ≡ done ++ runs last rs
unfolding coalesce_loop runs
coalesce_loop-runs done last [] = refl
coalesce_loop-runs done last (r ∷ rs) = elim (Bool-cases (touches last r)) [
  | inl t ↦ rw (add_rect-append done last r, t) (coalesce_loop-runs done (grow last r) rs)
  | inr f ↦
      rw (add_rect-append done last r, f)
        (ap (λ (out : List Rect). coalesce_loop out rs)
            (sym (append_assoc done (last ∷ []) (r ∷ [])))
          ∙ coalesce_loop-runs (done ++ last ∷ []) r rs
          ∙ append_assoc done (last ∷ []) (runs r rs))
]

or_assoc : (a b c : Bool) → ((a || b) || c) ≡ (a || (b || c))
or_assoc a b c = ground arith

module _ (cols rows : ℕ) (small : rows < 2 ^ 16) where
  touching :
      (low : ℕ) (last r : Rect) (rs : List Rect)
      → IsStack 0 cols rows low (last ∷ r ∷ rs)
      → touches last r ≡ true
      → (last.y + last.h ≡ r.y) × (as_u16 (last.h + r.h) ≡ last.h + r.h)
  unfolding touches
  touching low last r rs h t = ground arith

  grow-IsStack :
      (low : ℕ) (last r : Rect) (rs : List Rect)
      → IsStack 0 cols rows low (last ∷ r ∷ rs)
      → touches last r ≡ true
      → IsStack 0 cols rows low (grow last r ∷ rs)
  unfolding touches grow
  grow-IsStack low last r rs h t =
      let (below, tall) = touching low last r rs h t in
      let bottom : 0 + (r.y + r.h) ≡ 0 + (last.y + as_u16 (last.h + r.h)) = omega arith in
      (h.0, h.1, omega arith, h.3, omega arith, rw bottom at h.5.5)

  apart :
      (low : ℕ) (last r : Rect) (rs : List Rect)
      → IsStack 0 cols rows low (last ∷ r ∷ rs)
      → touches last r ≡ false
      → last.y + last.h < r.y
  unfolding touches
  apart low last r rs h f = ground arith

  grow-in_rect :
      (low y : ℕ) (last r : Rect) (rs : List Rect)
      → IsStack 0 cols rows low (last ∷ r ∷ rs)
      → touches last r ≡ true
      → in_rect (grow last r) y ≡ (in_rect last y || in_rect r y)
  unfolding grow
  grow-in_rect low y last r rs h t = let (below, tall) = touching low last r rs h t in ground arith

  pub runs-IsStack :
      (low low' : ℕ) (last : Rect) (rs : List Rect)
      → IsStack 0 cols rows low (last ∷ rs)
      → low' ≤ last.y
      → IsStack 1 cols rows low' (runs last rs)
  unfolding runs grow
  runs-IsStack low low' last [] h le = ground arith
  runs-IsStack low low' last (r ∷ rs) h le = elim (Bool-cases (touches last r)) [
    | inl t ↦ rw t (runs-IsStack low low' (grow last r) rs (grow-IsStack low last r rs h t) le)
    | inr f ↦ rw f (
      h.0,
      h.1,
      h.2,
      le,
      h.4,
      runs-IsStack (0 + (last.y + last.h)) (1 + (last.y + last.h)) r rs h.5
          (omega (arith, apart low last r rs h f)),
    )
  ]

  joined :
      (low y : ℕ) (last r : Rect) (rs : List Rect)
      → IsStack 0 cols rows low (last ∷ r ∷ rs)
      → touches last r ≡ true
      → covers (grow last r ∷ rs) y ≡ covers (last ∷ r ∷ rs) y
  unfolding covers
  joined low y last r rs h t =
      rw (grow-in_rect low y last r rs h t) (or_assoc (in_rect last y) (in_rect r y) (covers rs y))

  pub runs-covers :
      (low y : ℕ) (last : Rect) (rs : List Rect)
      → IsStack 0 cols rows low (last ∷ rs)
      → covers (runs last rs) y ≡ covers (last ∷ rs) y
  unfolding runs covers
  runs-covers low y last [] h = refl
  runs-covers low y last (r ∷ rs) h = elim (Bool-cases (touches last r)) [
    | inl t ↦ rw t (
        runs-covers low y (grow last r) rs (grow-IsStack low last r rs h t)
        ∙ joined low y last r rs h t)
    | inr f ↦
        rw f
          (ap (λ (b : Bool). in_rect last y || b) (runs-covers (0 + (last.y + last.h)) y r rs h.5))
  ]
