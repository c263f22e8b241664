-- ===== src/Utf8.antt =====
-- `String::from_utf8_lossy` of the Rust standard library, byte by byte: what is not UTF-8 becomes
-- U+FFFD, once for each longest prefix of a well-formed sequence.
use scshell.Base.{
  and_parts, ℕ, ◌-◌, ◌<◌, Bool, true, false, not, ◌&&◌, ◌||◌, [], ◌∷◌, ◌++◌, ◌≡◌, refl, ap, ltb,
  leb, ◌==◌, if◌then◌else◌, arith, Bytes, All, sym, ◌∙◌,
}
use mathlib.Core.List.{append_assoc, append-nil}

-- Between characters, or with `need` bytes to come, the next of them from `lo` to `hi`.
pub data Utf8State : Type 0 where
  ready : Utf8State
  inside : (need lo hi : ℕ) (seen : Bytes) → Utf8State

-- U+FFFD
abbrev pub replacement : Bytes
replacement = 0xef ∷ 0xbf ∷ 0xbd ∷ []

abbrev within : ℕ → ℕ → ℕ → Bool
within lo hi b = leb lo b && leb b hi

lead : ℕ → Utf8State × Bytes
lead b =
    if ltb b 0x80
    then (ready, b ∷ [])
    else if within 0xc2 0xdf b
    then (inside 1 0x80 0xbf (b ∷ []), [])
    else if b == 0xe0
    then (inside 2 0xa0 0xbf (b ∷ []), [])
    else if b == 0xed
    then (inside 2 0x80 0x9f (b ∷ []), [])
    else if within 0xe1 0xef b
    then (inside 2 0x80 0xbf (b ∷ []), [])
    else if b == 0xf0
    then (inside 3 0x90 0xbf (b ∷ []), [])
    else if within 0xf1 0xf3 b
    then (inside 3 0x80 0xbf (b ∷ []), [])
    else if b == 0xf4
    then (inside 3 0x80 0x8f (b ∷ []), [])
    else (ready, replacement)

next : Utf8State → ℕ → Utf8State × Bytes
next ready b = lead b
next (inside need lo hi seen) b =
    if not (within lo hi b)
    then ((lead b).0, replacement ++ (lead b).1)
    else if need == 1
    then (ready, seen ++ b ∷ [])
    else (inside (need - 1) 0x80 0xbf (seen ++ b ∷ []), [])

lossy_from : Utf8State → Bytes → Bytes
lossy_from ready [] = []
lossy_from (inside _ _ _ _) [] = replacement
lossy_from s (b ∷ bs) = (next s b).1 ++ lossy_from (next s b).0 bs

unfoldable pub from_utf8_lossy : Bytes → Bytes
unfolding lossy_from next lead
from_utf8_lossy = lossy_from ready

-- No byte is replaced.
accepts : Utf8State → ℕ → Bool
accepts ready b = ltb b 0x80 || within 0xc2 0xf4 b
accepts (inside need lo hi seen) b = within lo hi b

utf8_from : Utf8State → Bytes → Bool
utf8_from ready [] = true
utf8_from (inside _ _ _ _) [] = false
utf8_from s (b ∷ bs) = accepts s b && utf8_from (next s b).0 bs

-- The bytes are UTF-8.
unfoldable pub is_utf8 : Bytes → Bool
unfolding utf8_from accepts next lead
is_utf8 = utf8_from ready

abbrev seen_of : Utf8State → Bytes
seen_of ready = []
seen_of (inside _ _ _ seen) = seen

next_keeps :
    (s : Utf8State) (b : ℕ)
    → accepts s b ≡ true
    → (next s b).1 ++ seen_of (next s b).0 ≡ seen_of s ++ b ∷ []
unfolding next lead accepts
next_keeps ready b h = ground arith
next_keeps (inside need lo hi seen) b h = ground (arith, append-nil (seen ++ b ∷ []))

next_then :
    (s : Utf8State) (b : ℕ) (bs rest : Bytes)
    → accepts s b ≡ true
    → rest ≡ seen_of (next s b).0 ++ bs
    → (next s b).1 ++ rest ≡ seen_of s ++ b ∷ bs
next_then s b bs rest h e = rw e (
    sym (append_assoc (next s b).1 (seen_of (next s b).0) bs)
    ∙ ap (λ (t : Bytes). t ++ bs) (next_keeps s b h)
    ∙ append_assoc (seen_of s) (b ∷ []) bs)

lossy_from-utf8 :
    (s : Utf8State) (bs : Bytes) → utf8_from s bs ≡ true → lossy_from s bs ≡ seen_of s ++ bs
unfolding lossy_from utf8_from
lossy_from-utf8 ready [] h = refl
lossy_from-utf8 (inside _ _ _ _) [] h = cc
lossy_from-utf8 ready (b ∷ bs) h =
    let (ha, hr) = and_parts _ _ h in
    next_then ready b bs _ ha (lossy_from-utf8 (next ready b).0 bs hr)
lossy_from-utf8 (inside need lo hi seen) (b ∷ bs) h =
    let (ha, hr) = and_parts _ _ h in
    next_then (inside need lo hi seen) b bs _ ha
      (lossy_from-utf8 (next (inside need lo hi seen) b).0 bs hr)

-- Well-formed text is left as it is.
pub from_utf8_lossy-eq_self : (bs : Bytes) → is_utf8 bs ≡ true → from_utf8_lossy bs ≡ bs
unfolding from_utf8_lossy is_utf8
from_utf8_lossy-eq_self bs h = lossy_from-utf8 ready bs h

pub is_utf8_ascii : (bs : Bytes) → All (λ b. b < 0x80) bs → is_utf8 bs ≡ true
unfolding is_utf8
is_utf8_ascii [] h = refl
is_utf8_ascii (b ∷ bs) (hb, hs) = ground (arith, is_utf8_ascii bs hs)
