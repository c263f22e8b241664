-- ===== src/Session/Family.antt =====
-- A value for each thread, and sums over the first threads.
use scshell.Base.{
  true, false, ℕ, zero, suc, ◌+◌, ◌≤◌, ◌<◌, ◌≡◌, refl, arith, ◌==◌, if◌then◌else◌, dec_lt,
}

abbrev pub update {ℓ} : {A : Type ℓ} → (ℕ → A) → ℕ → A → ℕ → A
update f i a j = if i == j then a else f j

-- The test of an `update`, where it hits and where it misses.
pub hit : {i j : ℕ} → i ≡ j → (i == j) ≡ true
hit e = ground arith

pub miss : {i j : ℕ} → (i ≡ j → ⊥) → (i == j) ≡ false
miss ne = ground arith

module _ {ℓ} {A : Type ℓ} (weight : A → ℕ) where
  pub sum_below : ℕ → (ℕ → A) → ℕ
  sum_below zero f = 0
  sum_below (suc n) f = weight (f n) + sum_below n f

  pub sum_below-suc : (n : ℕ) (f : ℕ → A) → sum_below (suc n) f ≡ weight (f n) + sum_below n f
  unfolding sum_below
  sum_below-suc n f = refl

  -- The value of a thread that is not counted changes nothing.
  pub sum_below-update_above :
      (n : ℕ) (f : ℕ → A) (i : ℕ) (a : A) → n ≤ i → sum_below n (update f i a) ≡ sum_below n f
  unfolding sum_below
  sum_below-update_above zero f i a h = refl
  sum_below-update_above (suc n) f i a h = ground (arith, sum_below-update_above n f i a)

  pub sum_below-update :
      (n : ℕ) (f : ℕ → A) (i : ℕ) (a : A)
      → i < n
      → sum_below n (update f i a) + weight (f i) ≡ sum_below n f + weight a
  unfolding sum_below
  sum_below-update zero f i a h = absurd (omega arith)
  sum_below-update (suc n) f i a h = elim (dec_lt i n) [
    | yes below ↦ ground (arith, sum_below-update n f i a below)
    | no last ↦ ground (arith, sum_below-update_above n f i a)
  ]

  pub sum_below-zero : (n : ℕ) (f : ℕ → A) → ((i : ℕ) → weight (f i) ≡ 0) → sum_below n f ≡ 0
  unfolding sum_below
  sum_below-zero zero f h = refl
  sum_below-zero (suc n) f h = omega (arith, h n, sum_below-zero n f h)
