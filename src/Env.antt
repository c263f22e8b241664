-- ===== src/Env.antt =====
-- rata_shell/src/session.rs: the environment block of the child. A string is
-- the list of its `char`s here.
pub mod Upsert
pub mod Block
use scshell.Base.{
  ℕ, ◌+◌, ◌-◌, ◌*◌, ◌/◌, ◌%◌, Bool, true, false, ◌&&◌, List, [], ◌∷◌, ◌++◌, map, leb, ltb, ◌==◌,
  if◌then◌else◌,
}

abbrev pub Str : Type 0
Str = List ℕ

-- `char::to_ascii_lowercase`
unfoldable pub lower : ℕ → ℕ
lower c = if leb b'A' c && leb c b'Z' then c + 32 else c

-- `eq_ignore_ascii_case`
unfoldable pub same_key : Str → Str → Bool
same_key [] [] = true
same_key [] (d ∷ ds) = false
same_key (c ∷ cs) [] = false
same_key (c ∷ cs) (d ∷ ds) = lower c == lower d && same_key cs ds

-- The first entry with the key gets the value; without one, it is pushed.
unfoldable pub upsert : List (Str × Str) → Str → Str → List (Str × Str)
upsert [] key value = (key, value) ∷ []
upsert ((k, v) ∷ entries) key value =
    let rest = upsert entries key value in
    if same_key k key then (k, value) ∷ entries else (k, v) ∷ rest

-- `encode_utf16` of a `char`
unfoldable pub encode_char : ℕ → List ℕ
encode_char c =
    if ltb c 0x1_0000
    then c ∷ []
    else (0xd800 + (c - 0x1_0000) / 0x400) ∷ (0xdc00 + (c - 0x1_0000) % 0x400) ∷ []

unfoldable pub encode_utf16 : Str → List ℕ
encode_utf16 [] = []
encode_utf16 (c ∷ cs) = encode_char c ++ encode_utf16 cs

-- `format!("{}={}", k, v)`
abbrev pub line : Str × Str → Str
line (k, v) = k ++ b'=' ∷ v

-- The loop over the entries, with the last `push(0)` behind it.
unfoldable pub block : List (Str × Str) → List ℕ
block [] = 0 ∷ []
block (e ∷ es) = encode_utf16 (line e) ++ 0 ∷ block es

abbrev pub term_key : Str
term_key = b'T' ∷ b'E' ∷ b'R' ∷ b'M' ∷ []

abbrev pub term_value : Str
term_value =
    b'x' ∷ b't' ∷ b'e' ∷ b'r' ∷ b'm' ∷ b'-' ∷ b'2' ∷ b'5' ∷ b'6' ∷ b'c' ∷ b'o' ∷ b'l' ∷ b'o' ∷ b'r'
    ∷ []

abbrev pub colorterm_key : Str
colorterm_key = b'C' ∷ b'O' ∷ b'L' ∷ b'O' ∷ b'R' ∷ b'T' ∷ b'E' ∷ b'R' ∷ b'M' ∷ []

abbrev pub colorterm_value : Str
colorterm_value = b't' ∷ b'r' ∷ b'u' ∷ b'e' ∷ b'c' ∷ b'o' ∷ b'l' ∷ b'o' ∷ b'r' ∷ []

-- The entries that `default_env_with_terminfo` writes, from those of the process.
abbrev pub child_entries : List (Str × Str) → List (Str × Str)
child_entries vars = upsert (upsert vars term_key term_value) colorterm_key colorterm_value

-- `default_env_with_terminfo`
unfoldable pub default_env_with_terminfo : List (Str × Str) → List ℕ
default_env_with_terminfo vars = block (child_entries vars)
