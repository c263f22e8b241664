-- ===== src/Backend/Dirty.antt =====
-- What `next_frame` reports: exactly the rows that changed, so that a host which repaints them has
-- the new frame on its screen.
use scshell.Base.{
  ℕ, zero, suc, ◌+◌, ◌*◌, ◌≤◌, ◌<◌, ◌^◌, true, false, ◌&&◌, List, [], ◌∷◌, map, none, some, ◌≡◌,
  ◌↔◌, refl, ap, sym, ◌∙◌, arith, leb, ltb, ◌==◌, if◌then◌else◌, length, Bool-cases, inl, inr,
  Option-cases,
}
use scshell.Cell.{HostCell}
use scshell.Backend.{
  sort_by_y, Rect, HostBackend, coalesce, coalesce_loop, add_rect, dirty_rects, next_frame,
}
use scshell.Backend.Rows.{
  row, Face, face, row_changed, changed_list, changed_rows_total, unchanged_iff,
}
use scshell.Backend.Coalesce.{
  covers, IsStack, sort_by_y-stack, runs, coalesce_loop-runs, runs-IsStack, runs-covers,
}

coalesce-nil : coalesce [] ≡ []
unfolding coalesce sort_by_y coalesce_loop
coalesce-nil = refl

coalesce-runs :
    (cols rows low : ℕ) (r : Rect) (rs : List Rect)
    → IsStack 0 cols rows low (r ∷ rs)
    → coalesce (r ∷ rs) ≡ runs r rs
unfolding coalesce coalesce_loop add_rect
coalesce-runs cols rows low r rs h =
    ap (coalesce_loop []) (sort_by_y-stack cols rows low (r ∷ rs) h) ∙ coalesce_loop-runs [] r rs

module _ (cols rows : ℕ) (small : rows < 2 ^ 16) where
  -- Joining what lies together keeps the covered rows, and leaves a row between any two rectangles.
  pub coalesce_lem :
      (low : ℕ) (rs : List Rect)
      → IsStack 0 cols rows low rs
      → IsStack 1 cols rows low (coalesce rs) × ((y : ℕ) → covers (coalesce rs) y ≡ covers rs y)
  coalesce_lem low [] h = rw coalesce-nil (tt, λ y. refl)
  coalesce_lem low (r ∷ rs) h = rw (coalesce-runs cols rows low r rs h) (
    runs-IsStack cols rows small low low r rs h h.3,
    λ y. runs-covers cols rows small low y r rs h,
  )

module _ (cols rows : ℕ) (cells_now prev : List HostCell) where
  lower-IsStack :
      (low low' : ℕ) (rs : List Rect)
      → IsStack 0 cols rows low rs
      → low' ≤ low
      → IsStack 0 cols rows low' rs
  lower-IsStack low low' [] h le = tt
  lower-IsStack low low' (r ∷ rs) h le = (h.0, h.1, h.2, omega arith, h.4, h.5)

  changed_list-IsStack :
      (n y : ℕ) → y + n ≡ rows → IsStack 0 cols rows y (changed_list n y cols cells_now prev)
  unfolding changed_list
  changed_list-IsStack zero y e = tt
  changed_list-IsStack (suc n) y e =
      let rest = changed_list-IsStack n (y + 1) (omega arith) in
      elim (Bool-cases (row_changed cols cells_now prev y)) [
        | inl t ↦ rw t (
          refl,
          refl,
          omega arith,
          omega arith,
          omega arith,
          lower-IsStack (y + 1) (0 + (y + 1)) _ rest (omega arith),
        )
        | inr f ↦ rw f (lower-IsStack (y + 1) y _ rest (omega arith))
      ]

  changed_list-covers :
      (n y z : ℕ)
      → covers (changed_list n y cols cells_now prev) z
        ≡ ((leb y z && ltb z (y + n)) && row_changed cols cells_now prev z)
  unfolding changed_list covers
  changed_list-covers zero y z = ground arith
  changed_list-covers (suc n) y z = ground (arith, changed_list-covers n (y + 1) z)

  -- The rectangles of a frame of the size of the last one: a row is left out where each of its cells has
  -- the character, the colors, the attributes and the width of before, and nowhere else.
  pub record IsDirty (rects : List Rect) : Type 0 where
    pub stack : IsStack 1 cols rows 0 rects
    pub exact :
        (y : ℕ)
        → y < rows
        → (covers rects y ≡ false) ↔ (map face (row cols cells_now y) ≡ map face (row cols prev y))

  pub coalesce-IsDirty :
      rows < 2 ^ 16 → IsDirty (coalesce (changed_list rows 0 cols cells_now prev))
  coalesce-IsDirty small =
      let both = coalesce_lem cols rows small 0 _ (changed_list-IsStack rows 0 (omega arith)) in
      record {
        stack = both.0;
        exact = λ y h.
            let same = both.1 y ∙ changed_list-covers rows 0 y in
            let inside : (leb 0 y && ltb y (0 + rows)) ≡ true = ground arith in
            let (there, back) = unchanged_iff cols cells_now prev y in
            (λ f. there (sym (rw inside at same) ∙ f), λ e. rw inside at same ∙ back e);
      }

-- A backend that has drawn a frame holds all its cells.
pub record IsValid (b : HostBackend) : Type 0 where
  pub whole : (prev : List HostCell) → b.prev ≡ some prev → length prev ≡ b.prev_cols * b.prev_rows

-- A screen of the host: how each row is drawn.
abbrev pub Screen : Type 0
Screen = ℕ → List Face

-- The screen shows the last frame that the backend has reported.
pub record Shows (b : HostBackend) (screen : Screen) : Type 0 where
  pub rows_shown :
      (prev : List HostCell)
      → b.prev ≡ some prev
      → (y : ℕ) → y < b.prev_rows
      → screen y ≡ map face (row b.prev_cols prev y)

-- The host draws the rows of the rectangles anew, and leaves every other row.
abbrev pub repaint : List Rect → ℕ → List HostCell → Screen → Screen
repaint rects cols cells_now screen y =
    if covers rects y then map face (row cols cells_now y) else screen y

-- The frame after `b`, for a screen that shows the frame before.
pub record Drawn (b : HostBackend) (cols rows : ℕ) (cells_now : List HostCell) : Type 0 where
  pub rects : List Rect
  pub after : HostBackend
  pub made : next_frame b cols rows cells_now ≡ some (rects, after)
  pub valid : IsValid after
  pub shows : (screen : Screen) → Shows b screen → Shows after (repaint rects cols cells_now screen)

abbrev pub whole_frame : ℕ → ℕ → List Rect
whole_frame cols rows = record { x = 0; y = 0; w = cols; h = rows } ∷ []

abbrev frame_kept : ℕ → ℕ → List HostCell → HostBackend
frame_kept cols rows cells_now = record {
  prev = some cells_now;
  prev_cols = cols;
  prev_rows = rows;
}

some-eq {ℓ} : {A : Type ℓ} (a b : A) → some a ≡ some b → a ≡ b
some-eq a b h = cc

module _ (cols rows : ℕ) (cells_now : List HostCell) where
  frame_kept-IsValid : length cells_now ≡ cols * rows → IsValid (frame_kept cols rows cells_now)
  frame_kept-IsValid e = record { whole = λ prev p. rw (some-eq cells_now prev p) at e }

  -- Where each row is covered or unchanged, the repainted screen shows the new frame.
  repaint-Shows :
      (rects : List Rect) (screen : Screen)
      → ((y : ℕ) → y < rows → covers rects y ≡ false → screen y ≡ map face (row cols cells_now y))
      → Shows (frame_kept cols rows cells_now) (repaint rects cols cells_now screen)
  repaint-Shows rects screen kept = record {
    rows_shown = λ prev p y h. elim (Bool-cases (covers rects y)) [
      | inl t ↦
          rw t (ap (λ (c : List HostCell). map face (row cols c y)) (some-eq cells_now prev p))
      | inr f ↦ rw f (
          kept y h f
          ∙ ap (λ (c : List HostCell). map face (row cols c y)) (some-eq cells_now prev p))
    ];
  }

  whole_frame-covers : (y : ℕ) → y < rows → covers (whole_frame cols rows) y ≡ true
  unfolding covers
  whole_frame-covers y h = ground arith

  fresh :
      (b : HostBackend)
      → dirty_rects b cols rows cells_now ≡ some (whole_frame cols rows)
      → length cells_now ≡ cols * rows
      → Drawn b cols rows cells_now
  unfolding next_frame
  fresh b d e = record {
    rects = whole_frame cols rows;
    after = frame_kept cols rows cells_now;
    made = rw d;
    valid = frame_kept-IsValid e;
    shows = λ screen s.
        repaint-Shows (whole_frame cols rows) screen (λ y h f. cc (whole_frame-covers y h));
  }

  no_frame :
      (b : HostBackend)
      → b.prev ≡ none
      → dirty_rects b cols rows cells_now ≡ some (whole_frame cols rows)
  unfolding dirty_rects
  no_frame b p = rw (p, dirty_rects)

  resized :
      (b : HostBackend) (prev : List HostCell)
      → b.prev ≡ some prev
      → (b.prev_cols == cols && b.prev_rows == rows) ≡ false
      → dirty_rects b cols rows cells_now ≡ some (whole_frame cols rows)
  unfolding dirty_rects
  resized b prev p other = rw (p, dirty_rects, other)

  dirty_rects_same :
      (b : HostBackend) (prev : List HostCell)
      → rows < 2 ^ 16
      → length cells_now ≡ cols * rows
      → length prev ≡ cols * rows
      → b.prev ≡ some prev
      → (b.prev_cols == cols && b.prev_rows == rows) ≡ true
      → dirty_rects b cols rows cells_now
        ≡ some (coalesce (changed_list rows 0 cols cells_now prev))
  unfolding dirty_rects
  dirty_rects_same b prev small ln lp p same = rw (
    p,
    dirty_rects,
    same,
    changed_rows_total cols rows cells_now prev ln lp small rows 0 (omega arith),
  )

  same_size :
      (b : HostBackend) (prev : List HostCell)
      → rows < 2 ^ 16
      → IsValid b
      → length cells_now ≡ cols * rows
      → b.prev ≡ some prev
      → (b.prev_cols == cols && b.prev_rows == rows) ≡ true
      → Drawn b cols rows cells_now
  unfolding next_frame
  same_size b prev small v e p same =
      let cols_same : b.prev_cols ≡ cols = ground arith in
      let rows_same : b.prev_rows ≡ rows = ground arith in
      let lp : length prev ≡ cols * rows = rw (← cols_same, ← rows_same) (v.whole prev p) in
      let rects = coalesce (changed_list rows 0 cols cells_now prev) in
      let dirty = coalesce-IsDirty cols rows cells_now prev small in
      record {
        rects = rects;
        after = frame_kept cols rows cells_now;
        made = rw (dirty_rects_same b prev small e lp p same);
        valid = frame_kept-IsValid e;
        shows = λ screen s. repaint-Shows rects screen (λ y h f.
            rw (cols_same) at (s.rows_shown prev p y (rw rows_same h))
            ∙ sym ((dirty.exact y h).0 f));
      }

-- From a valid backend, a frame of fewer than 2^16 rows with `cols * rows` cells is made with no
-- panic and leaves the backend valid; a host that repaints the rows of its rectangles, from a
-- screen that shows the frame before, shows the new frame.
pub next_frame-Drawn :
    (b : HostBackend) (cols rows : ℕ) (cells_now : List HostCell)
    → IsValid b
    → rows < 2 ^ 16
    → length cells_now ≡ cols * rows
    → Drawn b cols rows cells_now
next_frame-Drawn b cols rows cells_now v small e = elim (Option-cases b.prev) [
  | inl n ↦ fresh cols rows cells_now b (no_frame cols rows cells_now b n) e
  | inr (prev, p) ↦ elim (Bool-cases (b.prev_cols == cols && b.prev_rows == rows)) [
    | inl same ↦ same_size cols rows cells_now b prev small v e p same
    | inr other ↦ fresh cols rows cells_now b (resized cols rows cells_now b prev p other) e
  ]
]

-- From a valid backend, between two frames of one size, with fewer than 2^16 rows and `cols * rows`
-- cells, the rectangles leave out exactly the rows whose cells all keep character, colors, attributes and
-- width, in order from the top,
-- each as wide as the frame, with a row left out between any two of them.
pub next_frame-IsDirty :
    (b : HostBackend) (cols rows : ℕ) (cells_now prev : List HostCell)
    → IsValid b
    → rows < 2 ^ 16
    → length cells_now ≡ cols * rows
    → b.prev ≡ some prev
    → (b.prev_cols == cols && b.prev_rows == rows) ≡ true
    → (rects : List Rect) × (next_frame b cols rows cells_now
        ≡ some (rects, record { prev = some cells_now; prev_cols = cols; prev_rows = rows }))
      × IsDirty cols rows cells_now prev rects
unfolding next_frame
next_frame-IsDirty b cols rows cells_now prev v small e p same =
    let cols_same : b.prev_cols ≡ cols = ground arith in
    let rows_same : b.prev_rows ≡ rows = ground arith in
    let lp : length prev ≡ cols * rows = rw (← cols_same, ← rows_same) (v.whole prev p) in
    (
      coalesce (changed_list rows 0 cols cells_now prev),
      rw (dirty_rects_same cols rows cells_now b prev small e lp p same),
      coalesce-IsDirty cols rows cells_now prev small,
    )
