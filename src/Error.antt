-- ===== src/Error.antt =====
-- rata_shell/src/error.rs: the errors, their codes and texts, and the last error that the host may read.
pub mod Last
use scshell.Base.{
  ℕ, zero, suc, ◌+◌, ◌-◌, ◌/◌, ◌%◌, ◌^◌, Bool, true, false, List, [], ◌∷◌, ◌++◌, ℤ, pos, negsuc,
  codes, ltb, ◌==◌, if◌then◌else◌, Bytes,
}

-- The payloads are the texts that `Display` prints of them.
pub data RataError : Type 0 where
  invalid : RataError
  arg state os io : Bytes → RataError

abbrev pub rata_ok : ℤ
rata_ok = pos 0

abbrev pub rata_err_invalid : ℤ
rata_err_invalid = negsuc 0

abbrev pub rata_err_arg : ℤ
rata_err_arg = negsuc 1

abbrev pub rata_err_state : ℤ
rata_err_state = negsuc 2

abbrev pub rata_err_os : ℤ
rata_err_os = negsuc 3

abbrev pub rata_err_io : ℤ
rata_err_io = negsuc 4

abbrev pub rata_err_panic : ℤ
rata_err_panic = negsuc 98

-- `RataError::code`
abbrev pub code : RataError → ℤ
code invalid = rata_err_invalid
code (arg s) = rata_err_arg
code (state s) = rata_err_state
code (os s) = rata_err_os
code (io s) = rata_err_io

-- `Display for RataError`
unfoldable pub display : RataError → Bytes
display invalid = codes "invalid handle or null pointer"
display (arg s) = codes "invalid argument: " ++ s
display (state s) = codes "invalid state: " ++ s
display (os s) = codes "os error: " ++ s
display (io s) = codes "io error: " ++ s

-- A digit of `{:X}`.
abbrev upper_digit : ℕ → ℕ
upper_digit d = if ltb d 10 then b'0' + d else b'A' + (d - 10)

-- The last `width` digits; a 32-bit word has no more than 8.
unfoldable pub upper_hex : ℕ → ℕ → Bytes
upper_hex zero n = []
upper_hex (suc width) n = upper_hex width (n / 16) ++ upper_digit (n % 16) ∷ []

-- `From<windows::core::Error>`: the HRESULT as a 32-bit word, and the message of Windows.
unfoldable pub from_windows : ℕ → Bytes → RataError
unfolding upper_hex
from_windows hresult message =
    os (codes "HRESULT 0x" ++ (upper_hex 8 hresult ++ (codes ": " ++ message)))

-- `LAST_ERR` of each thread, and `GLOBAL_ERR`.
pub record LastErrors : Type 0 where
  pub last_err : ℕ → Bytes
  pub global_err : Bytes

abbrev pub no_errors : LastErrors
no_errors = record { last_err = λ t. []; global_err = [] }

-- `set_last_error` on thread `t`.
unfoldable pub set_last_error : ℕ → Bytes → LastErrors → LastErrors
set_last_error t s e = record { last_err = λ u. if u == t then s else e.last_err u; global_err = s }

abbrev or_global : Bytes → Bytes → Bytes
or_global [] g = g
or_global (c ∷ s) g = c ∷ s

-- `last_error_copy` on thread `t`.
unfoldable pub last_error_copy : ℕ → LastErrors → Bytes
last_error_copy t e = or_global (e.last_err t) e.global_err

-- `store`: the code, and the text kept.
unfoldable pub store : ℕ → RataError → LastErrors → ℤ × LastErrors
store t err e = (code err, set_last_error t (display err) e)
