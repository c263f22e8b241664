-- ===== src/Term/Search/Rest.antt =====
-- What a search leaves as it was.
use scshell.Base.{Bool, not, ◌||◌, Bool-cases, Option-cases, inl, inr, ◌≡◌, arith, refl, ◌∙◌, Bytes}
use scshell.Term.{Point, Emulator, TermHost}
use scshell.Term.Search.{is_empty, with_pattern, find, show_match, search_next}

module _ {E : Type 0} (em : Emulator E) where
  abbrev IsRest : TermHost E → TermHost E → Type 0
  IsRest u t = (u.size ≡ t.size) × (u.hyperlinks ≡ t.hyperlinks) × (u.queue ≡ t.queue)

  with_pattern-kept : (pattern : Bytes) (t : TermHost E) → IsRest (with_pattern em t pattern) t
  unfolding with_pattern
  with_pattern-kept pattern t = (ground arith, ground arith, ground arith)

  show_match-kept : (start last : Point) (t : TermHost E) → IsRest (show_match em t start last).0 t
  unfolding show_match
  show_match-kept start last t = (ground arith, ground arith, ground arith)

  pub search_next-kept :
      (pattern : Bytes) (forward : Bool) (t : TermHost E)
      → IsRest (search_next em t pattern forward).0 t
  unfolding search_next
  search_next-kept pattern forward t =
      let u = with_pattern em t pattern in
      let (size, links, queue) = with_pattern-kept pattern t in
      elim (Bool-cases (is_empty pattern || not (em.regex_compiles pattern))) [
        | inl e ↦ rw e (refl, refl, refl)
        | inr e ↦ elim (Option-cases (find em u pattern forward)) [
          | inl n ↦ rw (e, n) (size, links, queue)
          | inr ((start, last), f) ↦
              let kept = show_match-kept start last u in
              rw (e, f) (kept.0 ∙ size, kept.1 ∙ links, kept.2 ∙ queue)
        ]
      ]
