-- ===== src/Keymap/Keys.antt =====
-- What a key sends can be read back, over all keys and all modifiers.
use scshell.Base.{
  All, ◌↔◌, dec_lt, ℕ, ◌+◌, ◌*◌, ◌/◌, ◌%◌, ◌≤◌, ◌<◌, Bool, true, false, not, ◌&&◌, ◌||◌, [], ◌∷◌,
  leb, ltb, ◌==◌, if◌then◌else◌, Bytes, Option, none, some, ◌≡◌, refl, arith, checks, of_checks, ap,
  length,
}
use scshell.Base.Bits.{bit_and-one, bit_and_two, bit_and_four}
use scshell.Decimal.{decimal}
use scshell.Keymap.{
  modparam, csi_arrow, csi_tilde, f_key, encode, has, mod_shift, mod_ctrl, mod_alt,
}
use scshell.Keymap.Parse.{parse_key}

-- The cursor keys, the editing keys and the function keys.
abbrev pub is_special : ℕ → Bool
is_special vk =
    (leb 0x21 vk && leb vk 0x28) || vk == 0x2d || vk == 0x2e || (leb 0x70 vk && leb vk 0x7b)

-- `encode` looks at three bits of the modifiers.
has_low :
    (mods : ℕ)
    → (has mods mod_shift ≡ has (mods % 8) mod_shift)
      × (has mods mod_ctrl ≡ has (mods % 8) mod_ctrl)
      × (has mods mod_alt ≡ has (mods % 8) mod_alt)
has_low mods = (
  ap (λ (x : ℕ). not (x == 0)) (omega (arith, bit_and-one mods, bit_and-one (mods % 8))),
  ap (λ (x : ℕ). not (x == 0)) (omega (arith, bit_and_two mods, bit_and_two (mods % 8))),
  ap (λ (x : ℕ). not (x == 0)) (omega (arith, bit_and_four mods, bit_and_four (mods % 8))),
)

-- The modifier parameter is one more than the bits of shift, alt and ctrl, in this order.
pub modparam_bits :
    (mods : ℕ) → modparam mods ≡ 1 + mods % 2 + 2 * (mods / 4 % 2) + 4 * (mods / 2 % 2)
unfolding modparam
modparam_bits mods = ground (arith, bit_and-one mods, bit_and_two mods, bit_and_four mods)

modparam_low : (mods : ℕ) → modparam mods ≡ modparam (mods % 8)
modparam_low mods = omega (arith, modparam_bits mods, modparam_bits (mods % 8))

encode_low : (vk mods : ℕ) (app : Bool) → encode vk mods app ≡ encode vk (mods % 8) app
unfolding encode
encode_low vk mods app = let (s, c, a) = has_low mods in rw (modparam_low mods, s, c, a)

is_key : Option (ℕ × ℕ) → ℕ → ℕ → Bool
is_key none vk m = false
is_key (some (k, n)) vk m = k == vk && n == m

of_is_key : (o : Option (ℕ × ℕ)) (vk m : ℕ) → is_key o vk m ≡ true → o ≡ some (vk, m)
unfolding is_key
of_is_key none vk m h = cc
of_is_key (some (k, n)) vk m h = ground arith

-- Every special key, with each combination of modifiers.
read_back : Bool → ℕ → ℕ → Bool
read_back app vk mods =
    if is_special vk then is_key (parse_key (encode vk mods app)) vk (modparam mods) else true

read_back_table : (app : Bool) → checks 256 (λ vk. checks 8 (read_back app vk)) ≡ true
unfolding checks read_back is_key parse_key encode csi_arrow csi_tilde f_key modparam decimal
read_back_table true = refl
read_back_table false = refl

-- A check of every key below 256 and every combination of modifiers is a fact about all of both.
table_at :
    (p : ℕ → ℕ → Bool)
    → checks 256 (λ vk. checks 8 (p vk)) ≡ true
    → (vk mods : ℕ) → vk < 256
    → p vk (mods % 8) ≡ true
table_at p table vk mods h =
    of_checks 8 (p vk) (of_checks 256 (λ k. checks 8 (p k)) table vk h) (mods % 8) (omega arith)

special-lt : (vk : ℕ) → is_special vk ≡ true → vk < 256
special-lt vk h = ground arith

chosen :
    (app : Bool) (vk mods : ℕ)
    → is_special vk ≡ true
    → read_back app vk mods ≡ true
    → is_key (parse_key (encode vk mods app)) vk (modparam mods) ≡ true
unfolding read_back
chosen app vk mods h t = rw h at t

-- Whatever modifiers are held, and in both cursor modes, the sequence of a special key names that key
-- and the number 1, with 1 more for shift (bit 0 of the modifiers), 2 more for alt (bit 2) and 4 more for
-- ctrl (bit 1).
pub parse_key-encode :
    (vk mods : ℕ) (app : Bool)
    → is_special vk ≡ true
    → parse_key (encode vk mods app)
      ≡ some (vk, 1 + mods % 2 + 2 * (mods / 4 % 2) + 4 * (mods / 2 % 2))
parse_key-encode vk mods app h =
    rw (encode_low vk mods app, ← modparam_bits mods, modparam_low mods)
      (of_is_key _ vk (modparam (mods % 8)) (
        chosen app vk (mods % 8) h
          (table_at (read_back app) (read_back_table app) vk mods (special-lt vk h))))

-- Two special keys that send the same bytes, perhaps in different cursor modes, are the same key with
-- the same of shift, alt and ctrl.
pub encode_injective :
    (vk vk' mods mods' : ℕ) (app app' : Bool)
    → is_special vk ≡ true
    → is_special vk' ≡ true
    → encode vk mods app ≡ encode vk' mods' app'
    → (vk ≡ vk') × (mods % 8 ≡ mods' % 8)
encode_injective vk vk' mods mods' app app' h h' e =
    let left = parse_key-encode vk mods app h in
    let right = parse_key-encode vk' mods' app' h' in
    let key : vk ≡ vk' = cc (left, right, ap parse_key e) in
    let held : 1 + mods % 2 + 2 * (mods / 4 % 2) + 4 * (mods / 2 % 2)
        ≡ 1 + mods' % 2 + 2 * (mods' / 4 % 2) + 4 * (mods' / 2 % 2) =
      cc (left, right, ap parse_key e) in
    (key, omega arith)

-- The keys that `encode` knows.
abbrev pub is_known : ℕ → ℕ → Bool
is_known vk mods =
    is_special vk
    || vk == 0x08
    || vk == 0x09
    || vk == 0x0d
    || vk == 0x1b
    || (has mods mod_ctrl && (leb 0x41 vk && leb vk 0x5a))

all_ascii : Bytes → Bool
all_ascii [] = true
all_ascii (c ∷ cs) = ltb c 128 && all_ascii cs

is_empty : Bytes → Bool
is_empty [] = true
is_empty (c ∷ cs) = false

-- `true` of both or of neither
same : Bool → Bool → Bool
same true b = b
same false b = not b

output_fits : Bool → ℕ → ℕ → Bool
output_fits app vk mods =
    let out = encode vk mods app in
    leb (length out) 7 && (all_ascii out && same (is_empty out) (not (is_known vk mods)))

output_table : (app : Bool) → checks 256 (λ vk. checks 8 (output_fits app vk)) ≡ true
unfolding checks output_fits same is_empty all_ascii encode csi_arrow csi_tilde f_key modparam
    decimal
output_table true = refl
output_table false = refl

encode-unknown : (vk mods : ℕ) (app : Bool) → 256 ≤ vk → encode vk mods app ≡ []
unfolding encode
encode-unknown vk mods app h = ground arith

is_known_low : (vk mods : ℕ) → is_known vk mods ≡ is_known vk (mods % 8)
is_known_low vk mods = let (s, c, a) = has_low mods in rw c

is_known-lt : (vk mods : ℕ) → 256 ≤ vk → is_known vk mods ≡ false
is_known-lt vk mods h = ground arith

pub record IsOutput (out : Bytes) (known : Bool) : Type 0 where
  pub short : length out ≤ 7
  pub ascii : All (λ c. c < 128) out
  pub empty_iff : (out ≡ []) ↔ (known ≡ false)

all_ascii-All : (out : Bytes) → all_ascii out ≡ true → All (λ c. c < 128) out
unfolding all_ascii
all_ascii-All [] h = tt
all_ascii-All (c ∷ cs) h = ground (arith, all_ascii-All cs)

IsOutput-of :
    (out : Bytes) (known : Bool)
    → (leb (length out) 7 && (all_ascii out && same (is_empty out) (not known))) ≡ true
    → IsOutput out known
unfolding same is_empty
IsOutput-of [] known h = record { short = omega arith; ascii = tt; empty_iff = ground arith }
IsOutput-of (c ∷ cs) known h = record {
  short = ground arith;
  ascii = all_ascii-All (c ∷ cs) (ground arith);
  empty_iff = ground arith;
}

-- What any key sends: at most 7 bytes, all ASCII, and none at all exactly for an unknown key.
pub encode-IsOutput : (vk mods : ℕ) (app : Bool) → IsOutput (encode vk mods app) (is_known vk mods)
unfolding output_fits all_ascii same is_empty
encode-IsOutput vk mods app = elim (dec_lt vk 256) [
  | yes below ↦
      rw (encode_low vk mods app, is_known_low vk mods)
        (IsOutput-of _ _ (table_at (output_fits app) (output_table app) vk mods below))
  | no above ↦
      rw (encode-unknown vk mods app (omega arith), is_known-lt vk mods (omega arith))
        (IsOutput-of [] false refl)
]
