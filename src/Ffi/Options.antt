-- ===== src/Ffi/Options.antt =====
-- rata_shell/src/ffi.rs: what the host passes in to a new session.
use scshell.Base.{
  ℕ, zero, suc, ◌+◌, ◌-◌, ◌*◌, Bool, false, not, ◌&&◌, ◌||◌, List, [], ◌∷◌, ◌++◌, Option, none,
  some, ltb, ◌==◌, if◌then◌else◌, max, Bytes, codes,
}
use scshell.Utf8.{from_utf8_lossy}
use scshell.Env.{Str, encode_utf16}
use scshell.Session.Calls.{SpawnOptions}

-- `read_utf8`, of a pointer that is null or has the bytes behind it.
unfoldable pub read_utf8 : Option Bytes → Option Bytes
unfolding from_utf8_lossy
read_utf8 none = none
read_utf8 (some []) = none
read_utf8 (some (b ∷ bytes)) = some (from_utf8_lossy (b ∷ bytes))

unfoldable pub contains : ℕ → Bytes → Bool
contains c [] = false
contains c (b ∷ bs) = b == c || contains c bs

abbrev pub starts_with : ℕ → Bytes → Bool
starts_with c [] = false
starts_with c (b ∷ bs) = b == c

unfoldable pub quote_path : Bytes → Bytes
unfolding contains
quote_path p = if contains b' ' p && not (starts_with b'"' p) then b'"' ∷ (p ++ b'"' ∷ []) else p

-- The `char`s of UTF-8 text: `need` bytes are to come, and `acc` has the bits so far.
unfoldable pub chars_from : (need acc : ℕ) → Bytes → Str
chars_from need acc [] = []
chars_from zero acc (b ∷ bs) =
    let one = chars_from 0 0 bs in
    let two = chars_from 1 (b - 0xc0) bs in
    let three = chars_from 2 (b - 0xe0) bs in
    let four = chars_from 3 (b - 0xf0) bs in
    if ltb b 0x80 then b ∷ one else if ltb b 0xe0 then two else if ltb b 0xf0 then three else four
chars_from (suc n) acc (b ∷ bs) =
    let value = acc * 64 + (b - 0x80) in
    let last = chars_from 0 0 bs in
    let more = chars_from n value bs in if n == 0 then value ∷ last else more

abbrev pub chars : Bytes → Str
chars = chars_from 0 0

-- `split('\0')`
unfoldable pub split_nul : Str → List Str
split_nul [] = [] ∷ []
split_nul (c ∷ cs) =
    let rest = split_nul cs in
    if c == 0
    then [] ∷ rest
    else elim rest [ [] ↦ (c ∷ []) ∷ [] | piece ∷ pieces ↦ (c ∷ piece) ∷ pieces ]

-- The loop over the entries, with the last `push(0)` behind it.
unfoldable pub push_entries : List Str → List ℕ
push_entries [] = 0 ∷ []
push_entries ([] ∷ entries) = push_entries entries
push_entries ((c ∷ cs) ∷ entries) = encode_utf16 (c ∷ cs) ++ 0 ∷ push_entries entries

unfoldable pub env_block_to_utf16 : Bytes → List ℕ
unfolding from_utf8_lossy chars_from split_nul push_entries
env_block_to_utf16 bytes = push_entries (split_nul (chars (from_utf8_lossy bytes)))

-- Each text is a pointer with the bytes behind it, `none` being null.
pub record RataSpawnOptions : Type 0 where
  pub shell_path : Option Bytes
  pub shell_args : Option Bytes
  pub cwd : Option Bytes
  pub env : Option Bytes
  pub cols : ℕ
  pub rows : ℕ
  pub scrollback : ℕ

abbrev default_shell : Bytes
default_shell = codes "C:\\Windows\\System32\\cmd.exe"

unfoldable pub shell_path : Option Bytes → Bytes
shell_path none = default_shell
shell_path (some []) = default_shell
shell_path (some (c ∷ s)) = c ∷ s

unfoldable pub command_line : Bytes → Option Bytes → Bytes
unfolding quote_path
command_line path none = quote_path path
command_line path (some []) = quote_path path
command_line path (some (c ∷ args)) = quote_path path ++ b' ' ∷ c ∷ args

-- `filter(|s| !s.is_empty())`
unfoldable pub not_empty : Option Bytes → Option Bytes
not_empty none = none
not_empty (some []) = none
not_empty (some (c ∷ s)) = some (c ∷ s)

unfoldable pub env_block : Option Bytes → Option (List ℕ)
unfolding env_block_to_utf16
env_block none = none
env_block (some []) = none
env_block (some (b ∷ bytes)) = some (env_block_to_utf16 (b ∷ bytes))

-- The options of the session that `rata_session_create` makes.
unfoldable pub spawn_options : RataSpawnOptions → SpawnOptions
unfolding read_utf8 shell_path command_line not_empty env_block
spawn_options opts = record {
  cmdline = command_line (shell_path (read_utf8 opts.shell_path)) (read_utf8 opts.shell_args);
  cwd = not_empty (read_utf8 opts.cwd);
  env_block = env_block opts.env;
  cols = max opts.cols 1;
  rows = max opts.rows 1;
  scrollback = if opts.scrollback == 0 then 10000 else opts.scrollback;
}
