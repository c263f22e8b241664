-- ===== src/Cell/Attrs.antt =====
-- The attribute word of a cell holds each flag in its own bit.
use scshell.Base.{ℕ, ◌+◌, ◌/◌, ◌%◌, ◌^◌, ◌<◌, ◌≡◌, refl, arith}
use scshell.Base.Bits.{bit_of, bit_of-le, sum_flags, set_flags-eq-sum_flags}
use scshell.Cell.{AtFlags, AtCell, convert_cell, attrs_of, flag_list}

-- Bit `k` of a word.
abbrev pub bit_at : ℕ → ℕ → ℕ
bit_at k w = w / 2 ^ k % 2

attrs_of-sum : (f : AtFlags) → attrs_of f ≡ 0 + sum_flags (flag_list f)
unfolding attrs_of
attrs_of-sum f = set_flags-eq-sum_flags 1 0 (flag_list f) (omega arith) (
  omega arith,
  (0, refl),
  (
    omega arith,
    (1, refl),
    (
      omega arith,
      (2, refl),
      (
        omega arith,
        (3, refl),
        (omega arith, (5, refl), (omega arith, (6, refl), (omega arith, (7, refl), tt))),
      ),
    ),
  ),
)

pub record HasFlags (w : ℕ) (f : AtFlags) : Type 0 where
  pub bold : bit_at 0 w ≡ bit_of f.bold
  pub dim : bit_at 1 w ≡ bit_of f.dim
  pub italic : bit_at 2 w ≡ bit_of f.italic
  pub underline : bit_at 3 w ≡ bit_of f.any_underline
  pub blink : bit_at 4 w ≡ 0
  pub reverse : bit_at 5 w ≡ bit_of f.inverse
  pub hidden : bit_at 6 w ≡ bit_of f.hidden
  pub strike : bit_at 7 w ≡ bit_of f.strikeout
  pub no_more : w < 256

-- Each flag of a cell is read back from its own bit of the attribute word, and the word has no other
-- bit: neither the bit of `ATTR_BLINK`, which no cell sets, nor one above the low byte.
pub convert_cell-HasFlags : (c : AtCell) → HasFlags (convert_cell c).attrs c.flags
unfolding convert_cell
convert_cell-HasFlags c = omega (
  arith,
  attrs_of-sum c.flags,
  bit_of-le c.flags.bold,
  bit_of-le c.flags.dim,
  bit_of-le c.flags.italic,
  bit_of-le c.flags.any_underline,
  bit_of-le c.flags.inverse,
  bit_of-le c.flags.hidden,
  bit_of-le c.flags.strikeout,
)
