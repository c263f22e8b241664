-- ===== src/Term/Search/Again.antt =====
-- The next search of a pattern.
use scshell.Base.{
  [], ◌∷◌, ◌-◌, Bool, true, false, not, ◌||◌, some, Bool-cases, inl, inr, ◌≡◌, refl, arith,
  if◌then◌else◌, Bytes, pos, ◌+ℤ◌, ◌-ℤ◌, ltb_ℤ, sub_ℕ,
}
use scshell.Term.{Point, Emulator, TermHost}
use scshell.Term.Search.{
  same_text, is_empty, with_pattern, origin, find, reveal, show_match, search_next,
}

same_text_self : (s : Bytes) → same_text s s ≡ true
unfolding same_text
same_text_self [] = refl
same_text_self (c ∷ s) = ground (arith, same_text_self s)

module _ {E : Type 0} (em : Emulator E) where
  with_pattern_same :
      (t : TermHost E) (pattern : Bytes)
      → same_text t.search_pattern pattern ≡ true
      → with_pattern em t pattern ≡ t
  unfolding with_pattern
  with_pattern_same t pattern h = rw h refl

  same_text-with_pattern :
      (t : TermHost E) (pattern : Bytes)
      → same_text (with_pattern em t pattern).search_pattern pattern ≡ true
  unfolding with_pattern
  same_text-with_pattern t pattern = elim (Bool-cases (same_text t.search_pattern pattern)) [
    | inl e ↦ rw e e
    | inr e ↦ rw e (same_text_self pattern)
  ]

  -- What a shown match leaves for the next search.
  record IsNext (start : Point) (pattern : Bytes) (t : TermHost E) : Type 0 where
    kept : t.search_origin ≡ some start
    named : same_text t.search_pattern pattern ≡ true

  show_match-IsNext :
      (t : TermHost E) (start last : Point) (pattern : Bytes)
      → same_text t.search_pattern pattern ≡ true
      → IsNext start pattern (show_match em t start last).0
  unfolding show_match
  show_match-IsNext t start last pattern h =
      let row = start.line +ℤ pos (em.view (reveal em t start.line)).display_offset in
      elim (Bool-cases (ltb_ℤ row (pos 0) || not (ltb_ℤ row (pos t.size.lines)))) [
        | inl e ↦ rw e (record { kept = refl; named = h })
        | inr e ↦ rw e (record { kept = refl; named = h })
      ]

  find-IsNext :
      (t : TermHost E) (start : Point) (pattern : Bytes) (again : Bool)
      → IsNext start pattern t
      → find em (with_pattern em t pattern) pattern again ≡ (
          if again
          then em.regex_search_right t.term pattern
              (em.point_add t.term start)
              (record { line = pos t.size.lines -ℤ pos 1; column = t.size.cols - 1 })
          else em.regex_search_left t.term pattern
              (em.point_sub t.term start)
              (record { line = sub_ℕ 0 (em.view t.term).history_size; column = 0 }))
  unfolding find origin
  find-IsNext t start pattern true n = rw (with_pattern_same t pattern n.named, n.kept) refl
  find-IsNext t start pattern false n = rw (with_pattern_same t pattern n.named, n.kept) refl

  search_next-IsNext :
      (t : TermHost E) (pattern : Bytes) (forward : Bool) (start last : Point)
      → (is_empty pattern || not (em.regex_compiles pattern)) ≡ false
      → find em (with_pattern em t pattern) pattern forward ≡ some (start, last)
      → IsNext start pattern (show_match em (with_pattern em t pattern) start last).0
      → IsNext start pattern (search_next em t pattern forward).0
  unfolding search_next
  search_next-IsNext t pattern forward start last e f n = rw (e, f) n

  -- Behind a match the next search of the same pattern, in either direction, begins one cell beside that
  -- match, and reaches to the last cell of the screen or the first one of the history.
  pub search_next_again :
      (t : TermHost E) (pattern : Bytes) (forward again : Bool) (start last : Point)
      → (is_empty pattern || not (em.regex_compiles pattern)) ≡ false
      → find em (with_pattern em t pattern) pattern forward ≡ some (start, last)
      → let t' = (search_next em t pattern forward).0 in
        find em (with_pattern em t' pattern) pattern again ≡ (
          if again
          then em.regex_search_right t'.term pattern
              (em.point_add t'.term start)
              (record { line = pos t'.size.lines -ℤ pos 1; column = t'.size.cols - 1 })
          else em.regex_search_left t'.term pattern
              (em.point_sub t'.term start)
              (record { line = sub_ℕ 0 (em.view t'.term).history_size; column = 0 }))
  search_next_again t pattern forward again start last e f =
      let u = with_pattern em t pattern in
      let shown = show_match-IsNext u start last pattern (same_text-with_pattern t pattern) in
      find-IsNext (search_next em t pattern forward).0 start pattern again
        (search_next-IsNext t pattern forward start last e f shown)
