-- ===== src/Decimal/Laws.antt =====
-- The digits stand for the number: the fuel of `decimal` is enough.
use scshell.Base.{
  ℕ, zero, suc, ◌+◌, ◌-◌, ◌*◌, ◌/◌, ◌%◌, ◌≤◌, ◌<◌, [], ◌∷◌, ◌++◌, ◌≡◌, refl, arith, ltb, Bytes, All,
  All-append, Bool-cases, inl, inr,
}
use scshell.Decimal.{digits_of, decimal}

abbrev pub IsDigit : ℕ → Type 0
IsDigit c = (b'0' ≤ c) × (c ≤ b'9')

-- The number that digits spell behind `n`.
abbrev pub value : ℕ → Bytes → ℕ
value n [] = n
value n (c ∷ cs) = value (n * 10 + (c - b'0')) cs

value-append : (n : ℕ) (xs ys : Bytes) → value n (xs ++ ys) ≡ value (value n xs) ys
value-append n [] ys = refl
value-append n (x ∷ xs) ys = value-append (n * 10 + (x - b'0')) xs ys

digits_of-value : (fuel n : ℕ) → n < fuel → value 0 (digits_of fuel n) ≡ n
unfolding digits_of
digits_of-value zero n h = absurd (omega arith)
digits_of-value (suc fuel) n h = elim (Bool-cases (ltb n 10)) [
  | inl small ↦ rw small (omega arith)
  | inr large ↦
      rw (large, value-append 0 (digits_of fuel (n / 10)) ((b'0' + n % 10) ∷ []))
        (omega (arith, digits_of-value fuel (n / 10) (ground arith)))
]

digits_of-IsDigit : (fuel n : ℕ) → All IsDigit (digits_of fuel n)
unfolding digits_of
digits_of-IsDigit zero n = tt
digits_of-IsDigit (suc fuel) n = elim (Bool-cases (ltb n 10)) [
  | inl small ↦ rw small (ground arith)
  | inr large ↦ rw large (
      All-append IsDigit (digits_of fuel (n / 10)) _ (digits_of-IsDigit fuel (n / 10))
        (omega arith))
]

-- The digits of `n` are decimal digits that spell `n`, for every `n`.
pub value-decimal : (n : ℕ) → All IsDigit (decimal n) × (value 0 (decimal n) ≡ n)
unfolding decimal
value-decimal n = (digits_of-IsDigit (suc n) n, digits_of-value (suc n) n (omega arith))
