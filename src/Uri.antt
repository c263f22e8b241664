-- ===== src/Uri.antt =====
-- rata_shell/src/term.rs: `hash_uri`, the id of a hyperlink, and `percent_decode`.
pub mod Escapes
use scshell.Base.{
  ℕ, ◌+◌, ◌-◌, ◌*◌, ◌%◌, ◌^◌, Bool, true, false, ◌&&◌, ◌||◌, List, [], ◌∷◌, ◌++◌, Option, none,
  some, ◌≡◌, refl, ltb, leb, ◌==◌, if◌then◌else◌, arith, Bytes, ◌>>=◌, bit_or, bit_xor, as_u32,
}
use scshell.Utf8.{from_utf8_lossy}

-- The loop over the bytes: FNV-1a with `wrapping_mul`.
hash_loop : ℕ → Bytes → ℕ
hash_loop h [] = h
hash_loop h (b ∷ bs) = hash_loop (as_u32 (bit_xor h b * 0x0100_0193)) bs

-- 0 stands for "no link".
unfoldable pub hash_uri : Bytes → ℕ
unfolding hash_loop
hash_uri uri = let h = hash_loop 0x811c_9dc5 uri in if h == 0 then 1 else h

-- `(b as char).to_digit(16)`
unfoldable pub to_digit_16 : ℕ → Option ℕ
to_digit_16 b =
    if leb b'0' b && leb b b'9'
    then some (b - b'0')
    else if leb b'a' b && leb b b'f'
    then some (b - b'a' + 10)
    else if leb b'A' b && leb b b'F'
    then some (b - b'A' + 10)
    else none

-- `((h << 4) | l) as u8`, if both are digits
unfoldable pub hex_pair : ℕ → ℕ → Option ℕ
hex_pair hi lo = do h ← to_digit_16 hi; l ← to_digit_16 lo; some (bit_or (h * 2 ^ 4) l % 2 ^ 8)

-- The byte for which `c` and the two after it stand.
unfoldable pub escape : ℕ → ℕ → ℕ → Option ℕ
escape c hi lo = if c == b'%' then hex_pair hi lo else none

-- The `while` loop, on the bytes from index `i`. A sequence needs two bytes behind the `%`.
unfoldable pub percent_loop : Bytes → Bytes
percent_loop [] = []
percent_loop (c ∷ []) = c ∷ []
percent_loop (c ∷ d ∷ []) = c ∷ percent_loop (d ∷ [])
percent_loop (c ∷ hi ∷ lo ∷ rest) = elim (escape c hi lo) [
  | some b ↦ b ∷ percent_loop rest
  | none ↦ c ∷ percent_loop (hi ∷ lo ∷ rest)
]

unfoldable pub percent_decode : Bytes → Bytes
percent_decode s = from_utf8_lossy (percent_loop s)
