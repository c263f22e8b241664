-- ===== src/Decimal/Padded.antt =====
-- `{:02}` and `{:03}`: decimal digits behind zeros.
use scshell.Base.{
  ℕ, zero, suc, ◌+◌, ◌-◌, ◌/◌, ◌%◌, ◌^◌, ◌≤◌, ◌<◌, [], ◌∷◌, ◌++◌, ◌≡◌, refl, sym, ap, ◌∙◌, arith,
  dec_lt, Bytes, length, length-append, append_assoc,
}
use scshell.Decimal.{digits_of, decimal}

abbrev zeros : ℕ → Bytes
zeros zero = []
zeros (suc n) = b'0' ∷ zeros n

unfoldable pub padded : (width : ℕ) → ℕ → Bytes
padded width n = zeros (width - length (decimal n)) ++ decimal n

-- The last `width` digits of `n`.
abbrev pub last_digits : (width : ℕ) → ℕ → Bytes
last_digits zero n = []
last_digits (suc width) n = last_digits width (n / 10) ++ (b'0' + n % 10) ∷ []

digits_of-small : (fuel n : ℕ) → n < 10 → digits_of (suc fuel) n ≡ (b'0' + n) ∷ []
unfolding digits_of
digits_of-small fuel n lt = ground (arith, lt)

digits_of-large :
    (fuel n : ℕ) → 10 ≤ n → digits_of (suc fuel) n ≡ digits_of fuel (n / 10) ++ (b'0' + n % 10) ∷ []
unfolding digits_of
digits_of-large fuel n le = ground (arith, le)

-- More fuel than needed changes nothing.
digits_of-fuel : (k fuel n : ℕ) → n < k → n < fuel → digits_of k n ≡ digits_of fuel n
digits_of-fuel zero fuel n h g = absurd (omega arith)
digits_of-fuel (suc k) zero n h g = absurd (omega arith)
digits_of-fuel (suc k) (suc fuel) n h g = elim (dec_lt n 10) [
  | yes small ↦ digits_of-small k n small ∙ sym (digits_of-small fuel n small)
  | no large ↦
      let ten : 10 ≤ n = omega arith in
      let rest = digits_of-fuel k fuel (n / 10) (omega arith) (omega arith) in
      rw (digits_of-large k n ten, digits_of-large fuel n ten, rest) refl
]

decimal-large : (n : ℕ) → 10 ≤ n → decimal n ≡ decimal (n / 10) ++ (b'0' + n % 10) ∷ []
unfolding decimal
decimal-large n ten =
    rw
      (
        digits_of-large n n ten,
        digits_of-fuel n (suc (n / 10)) (n / 10) (omega arith) (omega arith),
      )
      refl

decimal-small : (n : ℕ) → n < 10 → decimal n ≡ (b'0' + n) ∷ []
unfolding decimal
decimal-small n lt = digits_of-small n n lt

zeros-last : (width : ℕ) → zeros width ++ b'0' ∷ [] ≡ b'0' ∷ zeros width
zeros-last zero = refl
zeros-last (suc width) = ap (λ l. b'0' ∷ l) (zeros-last width)

zeros-last_digits : (width : ℕ) → last_digits width 0 ≡ zeros width
zeros-last_digits zero = refl
zeros-last_digits (suc width) = rw (zeros-last_digits width) (zeros-last width)

-- A number of at most `width` digits, for a width of at least 1, is printed as its last `width` digits.
pub padded-last_digits :
    (width n : ℕ) → n < 10 ^ suc width → padded (suc width) n ≡ last_digits (suc width) n
unfolding padded
padded-last_digits zero n lt =
    let same : n % 10 ≡ n = omega arith in rw (decimal-small n lt, same) refl
padded-last_digits (suc width) n lt = elim (dec_lt n 10) [
  | yes small ↦
      let first : n / 10 ≡ 0 = omega arith in
      let same : n % 10 ≡ n = omega arith in
      let len : suc (suc width) - 1 ≡ suc width = omega arith in
      rw (decimal-small n small, first, same, zeros-last_digits (suc width), len) refl
  | no large ↦
      let more = padded-last_digits width (n / 10) (omega arith) in
      let digit = (b'0' + n % 10) ∷ [] in
      let len : suc (suc width) - length (decimal n) ≡ suc width - length (decimal (n / 10)) =
        rw (decimal-large n (omega arith), length-append (decimal (n / 10)) digit) (omega arith) in
      rw (len, decimal-large n (omega arith))
        (sym (append_assoc (zeros (suc width - length (decimal (n / 10)))) (decimal (n / 10)) digit)
          ∙ ap (λ l. l ++ digit) more)
]
