-- ===== src/Tests/Log.antt =====
-- A process that logs before and behind `rata_init`, where the first directory cannot be written.
use scshell.Base.{
  Bool, true, false, List, [], ◌∷◌, ◌++◌, Option, none, some, ◌≡◌, refl, ap, ap, arith, Bytes,
  codes, length,
}
use scshell.Log.{Clock, World, chrono_ish, join, LogCall, init, logs, log_calls, no_log}
use scshell.Decimal
use scshell.Decimal.Padded
use scshell.Log.Stamp.{read_stamp, read_stamp-chrono_ish}
use scshell.Log.Installed.{first_open, places, expected, log_calls-written}

-- 1970-01-02 01:02:03.045
abbrev now : Option Clock
now = some (record { secs = 90123; millis = 45 })

-- The directory of the DLL is longer than that of `TEMP`, and does not open.
abbrev only_short : Bytes → Bool
only_short (a ∷ b ∷ c ∷ d ∷ e ∷ f ∷ g ∷ h ∷ i ∷ j ∷ k ∷ l ∷ m ∷ n ∷ o ∷ p ∷ q ∷ r ∷ s ∷ t ∷ rest) =
    false
only_short _ = true

abbrev vars : Bytes → Option Bytes
vars (a ∷ b ∷ c ∷ d ∷ []) = some (codes "C:\\T")
vars _ = none

abbrev world : World
world = record {
  now = now;
  dll_dir = some (codes "C:\\Program Files\\host");
  var_os = vars;
  pid = 12;
  opens = only_short;
}

stamp : chrono_ish now ≡ codes "01:02:03.045"
unfolding chrono_ish scshell.Decimal.Padded.padded scshell.Decimal.decimal
stamp = refl

-- `TEMP` is the first that opens.
in_temp : first_open world.opens (places world) ≡ some (codes "C:\\T\\rata_shell.log")
unfolding places join
in_temp = refl

join_drive : join (codes "C:") (codes "x") ≡ codes "C:x"
unfolding join
join_drive = refl

read_stamp-chrono_ish_example :
    (length (chrono_ish now) ≡ 12) × (read_stamp (chrono_ish now) ≡ some (3723, 45))
read_stamp-chrono_ish_example = read_stamp-chrono_ish now (omega arith)

-- A line and an `rata_init` without a file, before.
abbrev before : List (World × LogCall)
before = (world, logs (codes "early")) ∷ (world, init 2) ∷ []

abbrev behind : List (World × LogCall)
behind = (world, logs (codes "hello")) ∷ (world, init 3) ∷ []

log_calls-written_example :
    (log_calls (before ++ (world, init 3) ∷ behind) no_log).written
    ≡ expected (first_open world.opens (places world)) world 3 behind
log_calls-written_example = log_calls-written before world 3 behind (tt, (refl, tt)) refl

in_one_file :
    expected (first_open world.opens (places world)) world 3 behind
    ≡ expected (some (codes "C:\\T\\rata_shell.log")) world 3 behind
in_one_file = ap (λ path. expected path world 3 behind) in_temp
