-- ===== src/Osc7.antt =====
-- rata_shell/src/term.rs: the scanner of `TermHost` that picks the shell's working directory out of
-- the byte stream, `ESC ] 7 ; <url> (BEL | ESC \)`.
pub mod Invariant
pub mod Reports
pub mod Paths
pub mod Origin
use scshell.Base.{
  ℕ, zero, suc, ◌+◌, Bool, true, false, ◌&&◌, ◌||◌, List, [], ◌∷◌, ◌++◌, Option, none, some, ◌≡◌,
  refl, ltb, leb, ◌==◌, if◌then◌else◌, arith, Bytes, length, drop,
}
use scshell.Utf8.{from_utf8_lossy}
use scshell.Uri.{percent_decode}

-- The fields of `TermHost` that the scanner keeps: `osc7_state`, `osc7_buf` and `current_cwd`.
pub record Osc7 : Type 0 where
  pub state : ℕ
  pub buf : Bytes
  pub cwd : Bytes

-- `url.strip_prefix(p)`
strip_prefix : Bytes → Bytes → Option Bytes
strip_prefix [] s = some s
strip_prefix (p ∷ ps) [] = none
strip_prefix (p ∷ ps) (c ∷ cs) = if p == c then strip_prefix ps cs else none

-- `&rest[idx..]` for the first `/`, if there is one
from_slash : Bytes → Option Bytes
from_slash [] = none
from_slash (c ∷ cs) = if c == b'/' then some (c ∷ cs) else from_slash cs

-- `file://`
abbrev file_scheme : Bytes
file_scheme = b'f' ∷ b'i' ∷ b'l' ∷ b'e' ∷ b':' ∷ b'/' ∷ b'/' ∷ []

or_else : Option Bytes → Bytes → Bytes
or_else none d = d
or_else (some s) d = s

url_path : Bytes → Bytes
url_path url = elim (strip_prefix file_scheme url) [
  | some rest ↦ or_else (from_slash rest) rest
  | none ↦ url
]

-- `/C:/foo` becomes `C:/foo`
pub drive_path : Bytes → Bytes
drive_path (a ∷ b ∷ c ∷ rest) = if a == b'/' && c == b':' then b ∷ c ∷ rest else a ∷ b ∷ c ∷ rest
drive_path s = s

-- What `handle_osc7_url` stores in `current_cwd`.
unfoldable pub cwd_of_url : Bytes → Bytes
unfolding url_path strip_prefix from_slash or_else drive_path
cwd_of_url url = drive_path (percent_decode (url_path url))

pub handle_osc7_url : Osc7 → Bytes → Osc7
handle_osc7_url t url = record t { cwd = cwd_of_url url }

-- Arm 4: inside the url.
scan_url : Osc7 → ℕ → Osc7
scan_url t b =
    if b == 0x07 || b == 0x1b
    then handle_osc7_url (record t { buf = []; state = if b == 0x1b then 1 else 0 })
        (from_utf8_lossy t.buf)
    else let t' = record t { buf = t.buf ++ b ∷ [] } in
      if ltb 4096 (length t'.buf) then record t' { buf = []; state = 0 } else t'

-- The arms of the `match` on the state; the last one is the catch-all.
scan_in : ℕ → Osc7 → ℕ → Osc7
scan_in zero t b = if b == 0x1b then record t { state = 1 } else t
scan_in (suc zero) t b = record t { state = if b == b']' then 2 else if b == 0x1b then 1 else 0 }
scan_in (suc (suc zero)) t b = record t { state = if b == b'7' then 3 else 0 }
scan_in (suc (suc (suc zero))) t b =
    if b == b';' then record t { state = 4; buf = [] } else record t { state = 0 }
scan_in (suc (suc (suc (suc zero)))) t b = scan_url t b
scan_in (suc (suc (suc (suc (suc _))))) t b = record t { state = 0 }

unfoldable pub scan_osc7 : Osc7 → ℕ → Osc7
unfolding scan_in scan_url handle_osc7_url
scan_osc7 t b = scan_in t.state t b

-- The loop over the bytes at the head of `advance`.
unfoldable pub scan : Osc7 → Bytes → Osc7
scan t [] = t
scan t (b ∷ bs) = scan (scan_osc7 t b) bs

-- As `TermHost::new` sets the fields.
abbrev pub initial : Osc7
initial = record { state = 0; buf = []; cwd = [] }
