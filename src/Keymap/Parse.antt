-- ===== src/Keymap/Parse.antt =====
-- A reader of xterm key sequences, independent of the encoder: the cursor keys by their letters, the
-- other keys by their numbers, and the modifier parameter, which is 1 where it is left out.
use scshell.Base.{
  ℕ, ◌+◌, ◌-◌, ◌*◌, ◌&&◌, ◌||◌, List, [], ◌∷◌, ◌++◌, leb, ◌==◌, if◌then◌else◌, Bytes, Option, none,
  some, ◌>>=◌,
}

-- `ESC [ number ; number … final`, or `ESC O final`.
record Sequence : Type 0 where
  params : List ℕ
  current : ℕ
  final : Option ℕ

step : Sequence → ℕ → Sequence
step s c =
    if leb b'0' c && leb c b'9'
    then record s { current = s.current * 10 + (c - b'0') }
    else if c == b';'
    then record s { params = s.params ++ s.current ∷ []; current = 0 }
    else record s { params = s.params ++ s.current ∷ []; final = some c }

read : Sequence → Bytes → Sequence
read s [] = s
read s (c ∷ cs) = read (step s c) cs

abbrev empty_sequence : Sequence
empty_sequence = record { params = []; current = 0; final = none }

sequence : Bytes → Option Sequence
sequence (e ∷ c ∷ cs) =
    if e == 0x1b && (c == b'[' || c == b'O') then some (read empty_sequence cs) else none
sequence _ = none

-- The Win32 key of a letter and of a number, 0 for none.
letter_key : ℕ → ℕ
letter_key c =
    if c == b'A'
    then 0x26
    else if c == b'B'
    then 0x28
    else if c == b'C'
    then 0x27
    else if c == b'D'
    then 0x25
    else if c == b'H'
    then 0x24
    else if c == b'F'
    then 0x23
    else 0

number_key : ℕ → ℕ
number_key n =
    if n == 2
    then 0x2d
    else if n == 3
    then 0x2e
    else if n == 5
    then 0x21
    else if n == 6
    then 0x22
    else if leb 11 n && leb n 15
    then 0x70 + (n - 11)
    else if leb 17 n && leb n 21
    then 0x75 + (n - 17)
    else if leb 23 n && leb n 24
    then 0x7a + (n - 23)
    else 0

modifier : List ℕ → ℕ
modifier (a ∷ m ∷ _) = m
modifier _ = 1

first : List ℕ → ℕ
first [] = 0
first (a ∷ _) = a

-- The key and its modifier parameter.
unfoldable pub parse_key : Bytes → Option (ℕ × ℕ)
unfolding sequence read step letter_key number_key modifier first
parse_key bytes = do
  s ← sequence bytes
  c ← s.final
  some (if c == b'~' then number_key (first s.params) else letter_key c, modifier s.params)
