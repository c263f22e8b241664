-- ===== src/Term/Search/Offsets.antt =====
-- The arithmetic of the scroll that brings a line into the viewport.
use scshell.Base.{
  ℕ, suc, ◌+◌, ◌-◌, ◌≤◌, ◌<◌, true, false, not, ◌&&◌, ◌||◌, Bool-cases, inl, inr, ◌≡◌, refl, arith,
  if◌then◌else◌, min, ℤ, pos, negsuc, pos_part, neg_part, ◌+ℤ◌, ◌-ℤ◌, ltb_ℤ,
}

-- `x` between 0 and `n`.
abbrev pub clamp_to : ℕ → ℤ → ℕ
clamp_to n (pos k) = min k n
clamp_to n (negsuc k) = 0

-- The display offset behind the scroll, by the law.
abbrev pub target : (off history lines : ℕ) → ℤ → ℕ
target off history lines line =
    if ltb_ℤ line (pos 0 -ℤ pos off)
    then clamp_to history (pos off +ℤ (pos 0 -ℤ pos off -ℤ line))
    else if ltb_ℤ (pos lines -ℤ pos 1 -ℤ pos off) line
    then clamp_to history (pos off +ℤ (pos lines -ℤ pos 1 -ℤ pos off -ℤ line))
    else off

-- A row of the viewport.
pub record IsRow (lines : ℕ) (x : ℤ) : Type 0 where
  pub nonneg : neg_part x ≡ 0
  pub inside : pos_part x < lines

not_above : (off k : ℕ) → ltb_ℤ (pos k) (pos 0 -ℤ pos off) ≡ false
not_above off k = ground arith

is_below :
    (off lines k : ℕ) → ltb_ℤ (pos lines -ℤ pos 1 -ℤ pos off) (pos k) ≡ true → lines ≤ off + k
is_below off lines k b = ground arith

is_shown :
    (off lines k : ℕ)
    → ltb_ℤ (pos lines -ℤ pos 1 -ℤ pos off) (pos k) ≡ false
    → k < lines
    → k + off < lines
is_shown off lines k b h = ground arith

scroll_down :
    (off history lines k : ℕ)
    → off ≤ history
    → k < lines
    → lines ≤ off + k
    → clamp_to history (pos off +ℤ (pos lines -ℤ pos 1 -ℤ pos off -ℤ pos k)) ≡ lines - 1 - k
scroll_down off history lines k h below under =
    let moved : pos off +ℤ (pos lines -ℤ pos 1 -ℤ pos off -ℤ pos k) ≡ pos (lines - 1 - k) =
      ground arith in
    rw moved (omega arith)

IsRow-pos : (off lines k : ℕ) → k + off < lines → IsRow lines (pos k +ℤ pos off)
IsRow-pos off lines k h = record { nonneg = ground arith; inside = ground arith }

IsRow-neg : (off lines k : ℕ) → k < off → off ≤ lines + k → IsRow lines (negsuc k +ℤ pos off)
IsRow-neg off lines k h g = record { nonneg = ground arith; inside = ground arith }

is_above : (off k : ℕ) → ltb_ℤ (negsuc k) (pos 0 -ℤ pos off) ≡ true → off ≤ k
is_above off k a = ground arith

is_not_above : (off k : ℕ) → ltb_ℤ (negsuc k) (pos 0 -ℤ pos off) ≡ false → k < off
is_not_above off k a = ground arith

is_passed :
    (off lines k : ℕ)
    → 0 < lines
    → ltb_ℤ (pos lines -ℤ pos 1 -ℤ pos off) (negsuc k) ≡ true
    → lines + k < off
is_passed off lines k some_line b = ground arith

is_not_passed :
    (off lines k : ℕ)
    → 0 < lines
    → ltb_ℤ (pos lines -ℤ pos 1 -ℤ pos off) (negsuc k) ≡ false
    → off ≤ lines + k
is_not_passed off lines k some_line b = ground arith

scroll_up :
    (off history k : ℕ)
    → suc k ≤ history
    → off ≤ k
    → clamp_to history (pos off +ℤ (pos 0 -ℤ pos off -ℤ negsuc k)) ≡ suc k
scroll_up off history k above under =
    let moved : pos off +ℤ (pos 0 -ℤ pos off -ℤ negsuc k) ≡ pos (suc k) = ground arith in
    rw moved (omega arith)

scroll_back :
    (off history lines k : ℕ)
    → off ≤ history
    → 0 < lines
    → lines + k < off
    → clamp_to history (pos off +ℤ (pos lines -ℤ pos 1 -ℤ pos off -ℤ negsuc k)) ≡ lines + k
scroll_back off history lines k h some_line passed =
    let moved : pos off +ℤ (pos lines -ℤ pos 1 -ℤ pos off -ℤ negsuc k) ≡ pos (lines + k) =
      ground arith in
    rw moved (omega arith)

pub IsRow-test :
    (lines : ℕ) (x : ℤ) → IsRow lines x → (ltb_ℤ x (pos 0) || not (ltb_ℤ x (pos lines))) ≡ false
IsRow-test lines (pos k) r = let h : k < lines = r.inside in ground arith
IsRow-test lines (negsuc k) r = let h : suc k ≡ 0 = r.nonneg in absurd (omega arith)

pub IsRow-eq-pos : (lines : ℕ) (x : ℤ) → IsRow lines x → pos (pos_part x) ≡ x
IsRow-eq-pos lines (pos k) r = refl
IsRow-eq-pos lines (negsuc k) r = let h : suc k ≡ 0 = r.nonneg in absurd (omega arith)

pub same_line : (a b : ℤ) → (not (ltb_ℤ b a) && not (ltb_ℤ a b)) ≡ true → a ≡ b
same_line (pos a) (pos b) h = ground arith
same_line (pos a) (negsuc b) h = ground arith
same_line (negsuc a) (pos b) h = ground arith
same_line (negsuc a) (negsuc b) h = ground arith

pub target-IsRow :
    (off history lines : ℕ) (line : ℤ)
    → off ≤ history
    → neg_part line ≤ history
    → pos_part line < lines
    → IsRow lines (line +ℤ pos (target off history lines line))
target-IsRow off history lines (pos k) h above below =
    let down : ltb_ℤ (pos k) (pos 0 -ℤ pos off) ≡ false = not_above off k in
    elim (Bool-cases (ltb_ℤ (pos lines -ℤ pos 1 -ℤ pos off) (pos k))) [
      | inl b ↦
          rw (down, b, scroll_down off history lines k h below (is_below off lines k b))
            (record { nonneg = ground arith; inside = ground arith })
      | inr b ↦ rw (down, b) (IsRow-pos off lines k (is_shown off lines k b below))
    ]
target-IsRow off history lines (negsuc k) h above below =
    elim (Bool-cases (ltb_ℤ (negsuc k) (pos 0 -ℤ pos off))) [
      | inl a ↦
          rw (a, scroll_up off history k above (is_above off k a))
            (IsRow-neg (suc k) lines k (omega arith) (omega arith))
      | inr a ↦ elim (Bool-cases (ltb_ℤ (pos lines -ℤ pos 1 -ℤ pos off) (negsuc k))) [
        | inl b ↦
            rw (a, b, scroll_back off history lines k h below (is_passed off lines k below b))
              (IsRow-neg (lines + k) lines k (omega arith) (omega arith))
        | inr b ↦
            rw (a, b)
              (IsRow-neg off lines k (is_not_above off k a) (is_not_passed off lines k below b))
      ]
    ]
