-- ===== src/Osc7/Invariant.antt =====
-- What holds of the scanner after any bytes.
use scshell.Base.{zero, ℕ, suc, ◌≤◌, [], ◌∷◌, ◌≡◌, ◌≢◌, refl, arith, Bytes, length, length-append}
use scshell.Osc7.{Osc7, scan_osc7, scan, scan_in}

pub record IsValid (t : Osc7) : Type 0 where
  pub known : t.state ≤ 4
  pub small : length t.buf ≤ 4096
  pub clean : t.state ≢ 4 → t.buf ≡ []

scan_in-IsValid : (m : ℕ) (t : Osc7) (b : ℕ) → t.state ≡ m → IsValid t → IsValid (scan_in m t b)
unfolding scan_osc7
scan_in-IsValid zero t b e v = ground arith
scan_in-IsValid (suc zero) t b e v = ground arith
scan_in-IsValid (suc (suc zero)) t b e v = ground arith
scan_in-IsValid (suc (suc (suc zero))) t b e v = ground arith
scan_in-IsValid (suc (suc (suc (suc zero)))) t b e v = ground (arith, length-append t.buf (b ∷ []))
scan_in-IsValid (suc (suc (suc (suc (suc n))))) t b e v = ground arith

-- Every byte keeps it.
pub scan_osc7-IsValid : (t : Osc7) (b : ℕ) → IsValid t → IsValid (scan_osc7 t b)
unfolding scan_osc7
scan_osc7-IsValid t b v = scan_in-IsValid t.state t b refl v

-- Every sequence of bytes keeps a valid scanner valid: the state is one of the five, and the buffer
-- holds 4096 bytes at most, and none outside a url.
pub scan-IsValid : (t : Osc7) (bs : Bytes) → IsValid t → IsValid (scan t bs)
unfolding scan
scan-IsValid t [] v = v
scan-IsValid t (b ∷ bs) v = scan-IsValid (scan_osc7 t b) bs (scan_osc7-IsValid t b v)
