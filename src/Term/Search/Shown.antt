-- ===== src/Term/Search/Shown.antt =====
-- What a search has shown.
use scshell.Base.{
  ◌+◌, ◌≤◌, ◌<◌, Bool, true, not, ◌&&◌, ◌||◌, none, some, Option-cases, Bool-cases, inl, inr, ◌≡◌,
  refl, ap, subst, ◌∙◌, arith, as_u16, Bytes, ℤ, pos, pos_part, neg_part, ◌+ℤ◌, ◌-ℤ◌, ltb_ℤ,
}
use scshell.Term.{Size, Point, delta, View, Emulator, TermHost}
use scshell.Term.Cursor.{IsSized}
use scshell.Term.Search.{
  same_text, is_empty, Match, no_match, match_len, with_pattern, find, reveal, show_match,
  search_next,
}
use scshell.Term.Search.Offsets.{
  clamp_to, target, target-IsRow, IsRow, IsRow-test, IsRow-eq-pos, same_line,
}

-- As alacritty documents `Scroll::Delta`: the offset moves by the lines, and stays within the history.
pub record ScrollLaw {E : Type 0} (em : Emulator E) : Type 0 where
  pub scrolled :
      (e : E) (d : ℤ)
      → (em.view (em.scroll_display e (delta d))).display_offset
        ≡ clamp_to (em.view e).history_size (pos (em.view e).display_offset +ℤ d)
  pub within : (e : E) → (em.view e).display_offset ≤ (em.view e).history_size

-- A match inside the grid: its lines are of the history or of the screen, and it ends behind its start.
pub record InGrid (size : Size) (v : View) (start last : Point) : Type 0 where
  pub above : neg_part start.line ≤ v.history_size
  pub below : pos_part start.line < size.lines
  pub start_column : start.column < size.cols
  pub last_column : last.column < size.cols
  pub ordered : start.line ≡ last.line → start.column ≤ last.column

match_len-fits :
    (size : Size) (start last : Point)
    → start.column < size.cols
    → last.column < size.cols
    → (start.line ≡ last.line → start.column ≤ last.column)
    → (1 ≤ match_len size start last) × (start.column + match_len size start last ≤ size.cols)
unfolding match_len
match_len-fits size start last hs hl ordered =
    elim (Bool-cases (not (ltb_ℤ last.line start.line) && not (ltb_ℤ start.line last.line))) [
      | inl e ↦
          let le = ordered (same_line start.line last.line e) in rw e (omega arith, omega arith)
      | inr e ↦ rw e (omega arith, omega arith)
    ]

module _ {E : Type 0} (em : Emulator E) (law : ScrollLaw em) where
  offset-reveal :
      (t : TermHost E) (line : ℤ)
      → (em.view (reveal em t line)).display_offset
        ≡ target (em.view t.term).display_offset (em.view t.term).history_size t.size.lines line
  unfolding reveal
  offset-reveal t line =
      let off = (em.view t.term).display_offset in
      elim (Bool-cases (ltb_ℤ line (pos 0 -ℤ pos off))) [
        | inl a ↦ rw a (law.scrolled t.term _)
        | inr a ↦ elim (Bool-cases (ltb_ℤ (pos t.size.lines -ℤ pos 1 -ℤ pos off) line)) [
          | inl b ↦ rw (a, b) (law.scrolled t.term _)
          | inr b ↦ rw (a, b) refl
        ]
      ]

  -- What the caller is told of a match, and what is kept of it.
  pub record IsShown (size : Size) (start last : Point) (r : TermHost E × Match) : Type 0 where
    pub kept : r.0.search_origin ≡ some start
    pub column : r.1.col ≡ start.column
    pub line : pos r.1.row ≡ start.line +ℤ pos (em.view r.0.term).display_offset
    pub row_inside : r.1.row < size.lines
    pub len_positive : 1 ≤ r.1.len
    pub len_inside : r.1.col + r.1.len ≤ size.cols

  pub show_match-IsShown :
      (t : TermHost E) (start last : Point)
      → IsSized t.size
      → InGrid t.size (em.view t.term) start last
      → IsShown t.size start last (show_match em t start last)
  unfolding show_match
  show_match-IsShown t start last s g =
      let v = em.view t.term in
      let at_target =
        target-IsRow v.display_offset v.history_size t.size.lines start.line (law.within t.term)
          g.above g.below in
      let fits = match_len-fits t.size start last g.start_column g.last_column g.ordered in
      let term = reveal em t start.line in
      let x = start.line +ℤ pos (em.view term).display_offset in
      let row : IsRow t.size.lines x = rw (offset-reveal t start.line) at_target in
      let eq : pos (pos_part x) ≡ x = IsRow-eq-pos t.size.lines x row in
      let word : as_u16 (pos_part x) ≡ pos_part x = omega (arith, row.inside, s.lines_high) in
      let col : as_u16 start.column ≡ start.column = omega (arith, g.start_column, s.cols_high) in
      let len : as_u16 (match_len t.size start last) ≡ match_len t.size start last =
        omega (arith, fits.1, s.cols_high) in
      rw (IsRow-test t.size.lines x row) (record {
        kept = refl;
        column = col;
        line = ap pos word ∙ eq;
        row_inside = omega (arith, word, row.inside);
        len_positive = omega (arith, len, fits.0);
        len_inside = omega (arith, col, len, fits.1);
      })

  -- What a search answers.
  pub data Answer (t : TermHost E) (pattern : Bytes) (forward : Bool) (r : TermHost E × Match)
      : Type 0 where
    rejected :
        (is_empty pattern || not (em.regex_compiles pattern)) ≡ true
        → r ≡ (t, no_match)
        → Answer t pattern forward r
    missed :
        find em (with_pattern em t pattern) pattern forward ≡ none
        → r ≡ (record (with_pattern em t pattern) { search_origin = none }, no_match)
        → Answer t pattern forward r
    shown :
        (start last : Point)
        → find em (with_pattern em t pattern) pattern forward ≡ some (start, last)
        → IsShown t.size start last r
        → Answer t pattern forward r

  -- The matches that alacritty finds are inside the grid.
  abbrev pub InsideLaw : TermHost E → Type 0
  InsideLaw t =
      (pattern : Bytes) (forward : Bool) (start last : Point)
      → find em t pattern forward ≡ some (start, last)
      → InGrid t.size (em.view t.term) start last

  with_pattern-size : (t : TermHost E) (pattern : Bytes) → (with_pattern em t pattern).size ≡ t.size
  unfolding with_pattern
  with_pattern-size t pattern = elim (Bool-cases (same_text t.search_pattern pattern)) [
    | inl e ↦ rw e refl
    | inr e ↦ rw e refl
  ]

  -- A search is rejected, misses, or shows a match: then the viewport has been scrolled so that the row that
  -- is told is the row of the match's first line, the columns lie inside the terminal, the length is
  -- positive, and the match is kept as the search cursor. A match that alacritty finds inside the grid
  -- is never given up.
  pub search_next-Answer :
      (t : TermHost E) (pattern : Bytes) (forward : Bool)
      → IsSized t.size
      → InsideLaw (with_pattern em t pattern)
      → Answer t pattern forward (search_next em t pattern forward)
  unfolding search_next
  search_next-Answer t pattern forward s inside =
      elim (Bool-cases (is_empty pattern || not (em.regex_compiles pattern))) [
        | inl e ↦ rejected e (rw e refl)
        | inr e ↦
            let u = with_pattern em t pattern in
            let size : u.size ≡ t.size = with_pattern-size t pattern in
            elim (Option-cases (find em u pattern forward)) [
              | inl n ↦ missed n (rw (e, n) refl)
              | inr ((start, last), f) ↦
                  let g = inside pattern forward start last f in
                  let told = show_match-IsShown u start last (rw size s) g in
                  shown start last f (
                    rw (e, f)
                      (subst (λ z. IsShown z start last (show_match em u start last)) size told))
            ]
      ]
