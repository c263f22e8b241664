-- ===== src/Log.antt =====
-- rata_shell/src/log.rs and rata_shell/src/ffi.rs: the log file, from `rata_init` on. What Windows answers is a
-- parameter.
pub mod Stamp
pub mod Installed
use scshell.Base.{
  ℕ, zero, suc, ◌+◌, ◌-◌, ◌*◌, ◌/◌, ◌%◌, ◌<◌, bit_and, Bool, true, false, not, ◌&&◌, ◌||◌, List, [],
  ◌∷◌, ◌++◌, Option, none, some, Bytes, codes, ltb, leb, ◌==◌, if◌then◌else◌,
}
use scshell.Decimal.{decimal}
use scshell.Decimal.Padded.{padded}

-- `SystemTime::now()` since 1970, `none` before.
pub record Clock : Type 0 where
  pub secs : ℕ
  pub millis : ℕ

abbrev pub or_default : Option Clock → Clock
or_default none = record { secs = 0; millis = 0 }
or_default (some t) = t

-- `format!("{:02}:{:02}:{:02}.{:03}", hh, mm, ss, millis)`
unfoldable pub chrono_ish : Option Clock → Bytes
chrono_ish now =
    let t = or_default now in
    padded 2 ((t.secs / 3600) % 24)
    ++ codes ":"
    ++ padded 2 ((t.secs / 60) % 60)
    ++ codes ":"
    ++ padded 2 (t.secs % 60)
    ++ codes "."
    ++ padded 3 t.millis

-- What Windows answers during a call: the time, the directory of the DLL, the environment, the process, and
-- whether a path opens for appending.
pub record World : Type 0 where
  pub now : Option Clock
  pub dll_dir : Option Bytes
  pub var_os : Bytes → Option Bytes
  pub pid : ℕ
  pub opens : Bytes → Bool

-- `sink`: the path of `SINK`. `tried`: `LOG_FILE` is set. `written`: each text that a file gets appended.
pub record Log : Type 0 where
  pub sink : Option Bytes
  pub tried : Bool
  pub written : List (Bytes × Bytes)

abbrev pub no_log : Log
no_log = record { sink = none; tried = false; written = [] }

-- `install`; the writes go to the file behind it.
abbrev pub install : Bytes → Log → Log
install path l = record l { sink = some path }

abbrev pub append : Bytes → Bytes → Log → Log
append path text l = record l { written = l.written ++ (path, text) ∷ [] }

-- `writeln!(s.file, "[{}] {}", now, args)`
abbrev pub line : Option Clock → Bytes → Bytes
line now args = codes "[" ++ chrono_ish now ++ codes "] " ++ args ++ codes "\n"

unfoldable pub rlog : World → Bytes → Log → Log
rlog w args l = elim l.sink [ none ↦ l | some path ↦ append path (line w.now args) l ]

abbrev is_sep : ℕ → Bool
is_sep c = (c == b'\\') || (c == b'/')

-- `C:`, which takes no separator.
abbrev is_letter : ℕ → Bool
is_letter c = (leb b'a' c && leb c b'z') || (leb b'A' c && leb c b'Z')

abbrev is_drive : Bytes → Bool
is_drive (c ∷ d ∷ []) = is_letter c && (d == b':')
is_drive _ = false

abbrev ends_in_sep : Bytes → Bool
ends_in_sep [] = true
ends_in_sep (c ∷ []) = is_sep c
ends_in_sep (c ∷ d ∷ rest) = ends_in_sep (d ∷ rest)

-- `dir.join(name)` of a plain name.
unfoldable pub join : Bytes → Bytes → Bytes
join dir name = if ends_in_sep dir || is_drive dir then dir ++ name else dir ++ codes "\\" ++ name

abbrev pub log_name : Bytes
log_name = codes "rata_shell.log"

-- `candidates.push(…)` where there is a directory.
abbrev pub candidate : Option Bytes → List Bytes
candidate none = []
candidate (some dir) = join dir log_name ∷ []

unfoldable pub candidates : World → List Bytes
candidates w =
    candidate w.dll_dir
    ++ candidate (w.var_os (codes "TEMP"))
    ++ candidate (w.var_os (codes "TMP"))
    ++ candidate (w.var_os (codes "USERPROFILE"))
    ++ codes "C:\\rata_shell.log" ∷ []

-- The first line of a session. `env!("CARGO_PKG_VERSION")` is 0.1.0.
abbrev pub session_start : World → Bytes → Bytes
session_start w path =
    codes "==== rata_shell "
    ++ codes "0.1.0"
    ++ codes " session start (pid="
    ++ decimal w.pid
    ++ codes ") path="
    ++ path
    ++ codes " ====\n"

-- `for path in candidates`
unfoldable pub try_open : World → List Bytes → Log → Log
try_open w [] l = l
try_open w (path ∷ rest) l =
    let later = try_open w rest l in
    if w.opens path then install path (append path (session_start w path) l) else later

unfoldable pub init_logging : World → Log → Log
unfolding try_open candidates
init_logging w l = try_open w (candidates w) l

-- `{:x}`, with one digit for each unit of fuel; `n + 1` is enough.
abbrev lower_digit : ℕ → ℕ
lower_digit d = if ltb d 10 then b'0' + d else b'a' + (d - 10)

lower_hex_of : ℕ → ℕ → Bytes
lower_hex_of zero n = []
lower_hex_of (suc fuel) n =
    let more = lower_hex_of fuel (n / 16) ++ lower_digit (n % 16) ∷ [] in
    if ltb n 16 then lower_digit n ∷ [] else more

unfoldable pub lower_hex : ℕ → Bytes
unfolding lower_hex_of
lower_hex n = lower_hex_of (suc n) n

abbrev pub rata_init_log_file : ℕ
rata_init_log_file = 1

abbrev pub wants_file : ℕ → Bool
wants_file flags = not (bit_and flags rata_init_log_file == 0)

-- `LOG_FILE.get_or_init(…)`
abbrev pub get_or_init : World → Log → Log
get_or_init w l = if l.tried then l else record (init_logging w l) { tried = true }

-- The text of the line that `rata_init` logs.
abbrev pub init_args : ℕ → Bytes
init_args flags = codes "rata_init flags=0x" ++ lower_hex flags

-- `rata_init`, which always returns `RATA_OK`.
unfoldable pub rata_init : World → ℕ → Log → Log
unfolding rlog init_logging
rata_init w flags l =
    let l' = if wants_file flags then get_or_init w l else l in rlog w (init_args flags) l'

-- What the process does with the log.
pub data LogCall : Type 0 where
  init : (flags : ℕ) → LogCall
  logs : (args : Bytes) → LogCall

unfoldable pub log_call : World → LogCall → Log → Log
unfolding rata_init rlog
log_call w (init flags) l = rata_init w flags l
log_call w (logs args) l = rlog w args l

unfoldable pub log_calls : List (World × LogCall) → Log → Log
unfolding log_call
log_calls [] l = l
log_calls ((w, c) ∷ rest) l = log_calls rest (log_call w c l)
