-- ===== src/Term/Gestures/Picked.antt =====
-- Which cell of the grid a host picks with a cell of its screen.
use scshell.Base.{ℕ, ◌≡◌, ap, arith, ℤ, pos, negsuc, sub_ℕ, ◌+ℤ◌}
use scshell.Term.{Point, Emulator, TermHost}
use scshell.Term.Gestures.{grid_point, selection_type, selection_start}
use scshell.Term.Search.{Match}
use scshell.Term.Search.Shown.{ScrollLaw, IsShown}

row_line : (r o : ℕ) (l : ℤ) → pos r ≡ l +ℤ pos o → sub_ℕ r o ≡ l
row_line r o (pos k) h = ground arith
row_line r o (negsuc k) h = ground arith

point_at :
    (p : Point) (l : ℤ) (c : ℕ) → l ≡ p.line → c ≡ p.column → record { line = l; column = c } ≡ p
point_at p l c h k = λ i. record { line = h i; column = k i }

module _ {E : Type 0} (em : Emulator E) (law : ScrollLaw em) where
  -- The cell that a search has told is the first cell of the match: a selection that is started there
  -- starts at the match.
  pub selection_start-IsShown :
      (t : TermHost E) (start last : Point) (kind : ℕ) (r : TermHost E × Match)
      → IsShown em law t.size start last r
      → selection_start em r.0 r.1.col r.1.row kind
        ≡ record r.0 { term = em.new_selection r.0.term (selection_type kind) start }
  unfolding selection_start grid_point
  selection_start-IsShown t start last kind r s =
      let line = row_line r.1.row (em.view r.0.term).display_offset start.line s.line in
      ap (λ p. record r.0 { term = em.new_selection r.0.term (selection_type kind) p })
        (point_at start _ r.1.col line s.column)
