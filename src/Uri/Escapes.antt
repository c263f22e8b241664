-- ===== src/Uri/Escapes.antt =====
-- What the percent decoder reads back.
use scshell.Base.Bits.{bit_or-eq-add}
use scshell.Base.{
  as_u32, bit_xor, ◌*◌, ◌^◌, ◌<◌, Bool-cases, inl, inr, ◌∙◌, ℕ, ◌+◌, ◌-◌, ◌*◌, ◌/◌, ◌%◌, ◌^◌, ◌≤◌,
  ◌<◌, Bool, true, ◌&&◌, ◌||◌, [], ◌∷◌, some, ◌≡◌, ◌≢◌, refl, ap, ltb, leb, ◌==◌, if◌then◌else◌,
  arith, Bytes, IsByte, All, length,
}
use scshell.Utf8.{is_utf8, from_utf8_lossy-eq_self}
use scshell.Uri.{hash_loop, hash_uri, to_digit_16, hex_pair, escape, percent_loop, percent_decode}

-- The encoder of RFC 3986: unreserved bytes and `/` and `:` stay, and every other is `%XX`.
abbrev hex_digit : ℕ → ℕ
hex_digit n = if ltb n 10 then b'0' + n else b'A' + (n - 10)

abbrev is_plain : ℕ → Bool
is_plain c =
    (leb b'a' c && leb c b'z')
    || (leb b'A' c && leb c b'Z')
    || (leb b'0' c && leb c b'9')
    || c == b'-'
    || c == b'.'
    || c == b'_'
    || c == b'~'
    || c == b'/'
    || c == b':'

unfoldable pub percent_encode : Bytes → Bytes
percent_encode [] = []
percent_encode (c ∷ cs) =
    if is_plain c
    then c ∷ percent_encode cs
    else b'%' ∷ hex_digit (c / 16) ∷ hex_digit (c % 16) ∷ percent_encode cs

to_digit_16-hex_digit : (n : ℕ) → n < 16 → to_digit_16 (hex_digit n) ≡ some n
unfolding to_digit_16
to_digit_16-hex_digit n h = ground arith

hex_pair_encoded : (c : ℕ) → c < 256 → hex_pair (hex_digit (c / 16)) (hex_digit (c % 16)) ≡ some c
unfolding hex_pair
hex_pair_encoded c h =
    rw (to_digit_16-hex_digit (c / 16) (omega arith), to_digit_16-hex_digit (c % 16) (omega arith))
      (ap some (omega (arith, bit_or-eq-add 4 (c / 16) (c % 16) (omega arith))))

-- No escape starts at a byte other than `%`.
percent_loop-cons : (c : ℕ) (cs : Bytes) → c ≢ b'%' → percent_loop (c ∷ cs) ≡ c ∷ percent_loop cs
unfolding percent_loop escape
percent_loop-cons c [] h = refl
percent_loop-cons c (d ∷ []) h = refl
percent_loop-cons c (hi ∷ lo ∷ rest) h = ground arith

percent_loop_escaped :
    (c : ℕ) (rest : Bytes)
    → c < 256
    → percent_loop (b'%' ∷ hex_digit (c / 16) ∷ hex_digit (c % 16) ∷ rest) ≡ c ∷ percent_loop rest
unfolding percent_loop escape
percent_loop_escaped c rest h = rw (hex_pair_encoded c h, percent_loop)

plain-ne-percent : (c : ℕ) → is_plain c ≡ true → c ≢ b'%'
plain-ne-percent c h = ground arith

percent_loop-percent_encode : (s : Bytes) → All IsByte s → percent_loop (percent_encode s) ≡ s
unfolding percent_encode
percent_loop-percent_encode [] h = unfold percent_loop in refl
percent_loop-percent_encode (c ∷ cs) (hc, hs) = elim (Bool-cases (is_plain c)) [
  | inl plain ↦ rw plain (
      percent_loop-cons c (percent_encode cs) (plain-ne-percent c plain)
      ∙ ap (◌∷◌ c) (percent_loop-percent_encode cs hs))
  | inr special ↦ rw special (
      percent_loop_escaped c (percent_encode cs) hc
      ∙ ap (◌∷◌ c) (percent_loop-percent_encode cs hs))
]

-- Decoding gives back every text that was encoded, whatever bytes it holds: for each UTF-8 text `s`,
-- `percent_decode (percent_encode s)` is `s`.
pub percent_decode-percent_encode :
    (s : Bytes) → All IsByte s → is_utf8 s ≡ true → percent_decode (percent_encode s) ≡ s
unfolding percent_decode
percent_decode-percent_encode s h u =
    rw (percent_loop-percent_encode s h) (from_utf8_lossy-eq_self s u)

-- Text without `%` is its own decoding.
percent_loop_plain : (s : Bytes) → All (λ c. c ≢ b'%') s → percent_loop s ≡ s
percent_loop_plain [] h = unfold percent_loop in refl
percent_loop_plain (c ∷ cs) (hc, hs) =
    percent_loop-cons c cs hc ∙ ap (◌∷◌ c) (percent_loop_plain cs hs)

-- The decoder never lengthens what it reads.
length-percent_loop-le : (s : Bytes) → length (percent_loop s) ≤ length s
unfolding percent_loop
length-percent_loop-le [] = omega arith
length-percent_loop-le (c ∷ []) = omega arith
length-percent_loop-le (c ∷ d ∷ []) = omega (arith, length-percent_loop-le (d ∷ []))
length-percent_loop-le (c ∷ hi ∷ lo ∷ rest) =
    ground (arith, length-percent_loop-le rest, length-percent_loop-le (hi ∷ lo ∷ rest))

hash_loop-lt : (h : ℕ) (uri : Bytes) → h < 2 ^ 32 → hash_loop h uri < 2 ^ 32
unfolding hash_uri
hash_loop-lt h [] lt = lt
hash_loop-lt h (b ∷ bs) lt = hash_loop-lt (as_u32 (bit_xor h b * 0x0100_0193)) bs (omega arith)

-- The id of a link is a `u32`, and never 0, which stands for "no link".
pub hash_uri_range : (uri : Bytes) → (0 < hash_uri uri) × (hash_uri uri < 2 ^ 32)
unfolding hash_uri
hash_uri_range uri = ground (arith, hash_loop-lt 0x811c_9dc5 uri)
