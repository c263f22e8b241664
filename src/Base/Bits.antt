-- ===== src/Base/Bits.antt =====
-- Laws of `|` and `&` at variables: bits that do not overlap add up, and a mask of one bit reads
-- that bit.
use Prim.Native.Nat.{
  ℕ, zero, suc, ◌+◌, ◌*◌, ◌/◌, ◌%◌, ◌^◌, ◌≤◌, ◌<◌, min, max, bit_and, bit_or, digits,
  bit_and-bitwise, bit_or-bitwise,
}
use mathlib.Core.Path.{◌≡◌, refl, ap}
use mathlib.Core.List.{List, [], ◌∷◌}
use mathlib.Core.Bool.{Bool, true, false}
use scshell.Base.Tests.{if◌then◌else◌}
use native.Mathlib.Nat.{pow-suc}
use native.Mathlib.Omega.{arith}

-- The count of digits given to `digits` does not matter once it is enough.
digits_enough :
    (z : ℕ → ℕ) (f : ℕ → ℕ → ℕ) (n m a b : ℕ) → a ≤ n → a ≤ m → digits z f n a b ≡ digits z f m a b
digits_enough z f zero zero a b p q = refl
digits_enough z f zero (suc m) zero b p q = refl
digits_enough z f zero (suc m) (suc a) b p q = absurd (omega arith)
digits_enough z f (suc n) zero zero b p q = refl
digits_enough z f (suc n) zero (suc a) b p q = absurd (omega arith)
digits_enough z f (suc n) (suc m) zero b p q = refl
digits_enough z f (suc n) (suc m) (suc a) b p q =
    rw (digits_enough z f n m (suc a / 2) (b / 2) (omega arith) (omega arith))

zero-bit_or : (b : ℕ) → bit_or 0 b ≡ b
zero-bit_or b = bit_or-bitwise 0 b

zero-bit_and : (b : ℕ) → bit_and 0 b ≡ 0
zero-bit_and b = bit_and-bitwise 0 b

-- The lowest digit, and the rest.
bit_or_halves : (a b : ℕ) → bit_or a b ≡ bit_or (a / 2) (b / 2) * 2 + max (a % 2) (b % 2)
bit_or_halves zero b = omega (arith, zero-bit_or b, zero-bit_or (b / 2))
bit_or_halves (suc a) b = omega (
  arith,
  bit_or-bitwise (suc a) b,
  bit_or-bitwise (suc a / 2) (b / 2),
  digits_enough (λ c. c) max a (suc a / 2) (suc a / 2) (b / 2) (omega arith) (omega arith),
)

bit_and_halves : (a b : ℕ) → bit_and a b ≡ bit_and (a / 2) (b / 2) * 2 + min (a % 2) (b % 2)
bit_and_halves zero b = omega (arith, zero-bit_and b, zero-bit_and (b / 2))
bit_and_halves (suc a) b = omega (
  arith,
  bit_and-bitwise (suc a) b,
  bit_and-bitwise (suc a / 2) (b / 2),
  digits_enough (λ c. 0) min a (suc a / 2) (suc a / 2) (b / 2) (omega arith) (omega arith),
)

bit_or-zero_below : (n a : ℕ) → a ≤ n → bit_or a 0 ≡ a
bit_or-zero_below n zero h = zero-bit_or 0
bit_or-zero_below zero (suc a) h = absurd (omega arith)
bit_or-zero_below (suc n) (suc a) h =
    omega (arith, bit_or_halves (suc a) 0, bit_or-zero_below n (suc a / 2) (omega arith))

bit_and-zero_below : (n a : ℕ) → a ≤ n → bit_and a 0 ≡ 0
bit_and-zero_below n zero h = zero-bit_and 0
bit_and-zero_below zero (suc a) h = absurd (omega arith)
bit_and-zero_below (suc n) (suc a) h =
    omega (arith, bit_and_halves (suc a) 0, bit_and-zero_below n (suc a / 2) (omega arith))

pub bit_and-zero : (a : ℕ) → bit_and a 0 ≡ 0
bit_and-zero a = bit_and-zero_below a a (omega arith)

bit_or_double : (y b : ℕ) {x : ℕ} → x ≡ y * 2 → bit_or y (b / 2) ≡ y + b / 2 → bit_or x b ≡ x + b
bit_or_double y b {x} e h =
    let half : x / 2 ≡ y = omega arith in
    let split : bit_or x b ≡ bit_or y (b / 2) * 2 + max (x % 2) (b % 2) =
      rw half at (bit_or_halves x b) in
    omega arith

-- `(a << k) | b` is `(a << k) + b` where `b` has at most `k` bits.
pub bit_or-eq-add : (k a b : ℕ) → b < 2 ^ k → bit_or (a * 2 ^ k) b ≡ a * 2 ^ k + b
bit_or-eq-add zero a b h =
    let none_left : b ≡ 0 = omega arith in
    let same : a * 1 ≡ a = omega arith in
    rw (none_left, same) (omega (arith, bit_or-zero_below a a (omega arith)))
bit_or-eq-add (suc k) a b h =
    bit_or_double (a * 2 ^ k) b (omega (arith, pow-suc 2 k, ap (λ (t : ℕ). a * t) (pow-suc 2 k)))
      (bit_or-eq-add k a (b / 2) (omega (arith, pow-suc 2 k)))

max_halves : (y b : ℕ) {x : ℕ} → x ≡ y * 2 → bit_or (b / 2) y ≡ b / 2 + y → bit_or b x ≡ b + x
max_halves y b {x} e h =
    let half : x / 2 ≡ y = omega arith in
    let split : bit_or b x ≡ bit_or (b / 2) y * 2 + max (b % 2) (x % 2) =
      rw half at (bit_or_halves b x) in
    omega arith

-- The same with the operands the other way round.
pub low-bit_or : (k a b : ℕ) → b < 2 ^ k → bit_or b (a * 2 ^ k) ≡ b + a * 2 ^ k
low-bit_or zero a b h =
    let none_left : b ≡ 0 = omega arith in rw none_left (omega (arith, zero-bit_or (a * 1)))
low-bit_or (suc k) a b h =
    max_halves (a * 2 ^ k) b (omega (arith, pow-suc 2 k, ap (λ (t : ℕ). a * t) (pow-suc 2 k)))
      (low-bit_or k a (b / 2) (omega (arith, pow-suc 2 k)))

-- `if b { f |= mask }`
set_flag : ℕ → Bool → ℕ → ℕ
set_flag f b mask = if b then bit_or f mask else f

abbrev pub bit_of : Bool → ℕ
bit_of true = 1
bit_of false = 0

-- A flag above all bits of `f` adds its value.
set_flag-eq-add :
    (k f : ℕ) (b : Bool) {mask : ℕ}
    → f < 2 ^ k
    → mask ≡ 2 ^ k
    → set_flag f b mask ≡ f + bit_of b * mask
unfolding set_flag
set_flag-eq-add k f false h e = omega arith
set_flag-eq-add k f true {mask} h e =
    let one : mask ≡ 1 * 2 ^ k = omega arith in rw one (omega (arith, low-bit_or k 1 f h))

pub bit_of-le : (b : Bool) → bit_of b ≤ 1
bit_of-le true = omega arith
bit_of-le false = omega arith

-- One such statement after another, each with its condition and its mask.
unfoldable pub set_flags : ℕ → List (Bool × ℕ) → ℕ
unfolding set_flag
set_flags f [] = f
set_flags f ((b, mask) ∷ rest) = set_flags (set_flag f b mask) rest

abbrev pub sum_flags : List (Bool × ℕ) → ℕ
sum_flags [] = 0
sum_flags ((b, mask) ∷ rest) = bit_of b * mask + sum_flags rest

-- The masks are ascending powers of two, from `low` on.
abbrev pub IsAscending : ℕ → List (Bool × ℕ) → Type 0
IsAscending low [] = Unit
IsAscending low ((b, mask) ∷ rest) =
    (low ≤ mask) × ((k : ℕ) × (mask ≡ 2 ^ k)) × IsAscending (2 * mask) rest

pub set_flags-eq-sum_flags :
    (low f : ℕ) (fs : List (Bool × ℕ))
    → f < low
    → IsAscending low fs
    → set_flags f fs ≡ f + sum_flags fs
unfolding set_flags
set_flags-eq-sum_flags low f [] h a = omega arith
set_flags-eq-sum_flags low f ((b, mask) ∷ rest) h (le, (k, e), a) =
    let added = set_flag-eq-add k f b (omega arith) e in
    let small : bit_of b * mask ≤ mask = grind (arith, bit_of-le b) in
    omega (arith, set_flags-eq-sum_flags (2 * mask) (set_flag f b mask) rest (omega arith) a)

-- Masks of one bit.
pub bit_and-one : (x : ℕ) → bit_and x 1 ≡ x % 2
bit_and-one x = omega (arith, bit_and_halves x 1, bit_and-zero (x / 2))

pub bit_and_two : (x : ℕ) → bit_and x 2 ≡ 2 * (x / 2 % 2)
bit_and_two x = omega (arith, bit_and_halves x 2, bit_and-one (x / 2))

pub bit_and_four : (x : ℕ) → bit_and x 4 ≡ 4 * (x / 4 % 2)
bit_and_four x = omega (arith, bit_and_halves x 4, bit_and_two (x / 2))
