-- ===== src/Decimal.antt =====
-- `{}` of an unsigned integer: its decimal digits.
pub mod Laws
pub mod Padded
use scshell.Base.{ℕ, zero, suc, ◌+◌, ◌/◌, ◌%◌, ◌<◌, [], ◌∷◌, ◌++◌, ltb, if◌then◌else◌, Bytes}

-- One digit for each unit of fuel; `n + 1` is enough, since `n / 10 < n`.
digits_of : ℕ → ℕ → Bytes
digits_of zero n = []
digits_of (suc fuel) n =
    let more = digits_of fuel (n / 10) ++ (b'0' + n % 10) ∷ [] in
    if ltb n 10 then (b'0' + n) ∷ [] else more

unfoldable pub decimal : ℕ → Bytes
unfolding digits_of
decimal n = digits_of (suc n) n
