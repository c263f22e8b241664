-- ===== src/Log/Installed.antt =====
-- Which file the lines go to.
use scshell.Base.{
  ℕ, Bool, true, false, Bool-cases, inl, inr, List, [], ◌∷◌, ◌++◌, map, Option, none, some, ◌≡◌,
  refl, sym, ap, ◌∙◌, Bytes, codes, All, append_nil, append_assoc, if◌then◌else◌,
}
use scshell.Log.{
  World, candidate, join, Log, no_log, append, line, rlog, candidates, session_start, try_open,
  init_logging, wants_file, init_args, rata_init, LogCall, init, logs, log_call, log_calls,
}

-- The first path that opens.
abbrev pub first_open : (Bytes → Bool) → List Bytes → Option Bytes
first_open opens [] = none
first_open opens (path ∷ rest) = if opens path then some path else first_open opens rest

-- The line of a call.
abbrev pub line_of : World × LogCall → Bytes
line_of (w, init flags) = line w.now (init_args flags)
line_of (w, logs args) = line w.now args

abbrev pub at : Bytes → Bytes → Bytes × Bytes
at path text = (path, text)

-- A call that opens no file.
abbrev pub IsPlain : World × LogCall → Type 0
IsPlain (w, init flags) = wants_file flags ≡ false
IsPlain (w, logs args) = Unit {0}

-- The texts that a log is to have after the first call that asks for a file, and the calls behind it.
abbrev pub expected : Option Bytes → World → ℕ → List (World × LogCall) → List (Bytes × Bytes)
expected none w flags rest = []
expected (some path) w flags rest =
    map (at path) (session_start w path ∷ line_of (w, init flags) ∷ map line_of rest)

-- The directories that are set.
somes : List (Option Bytes) → List Bytes
somes [] = []
somes (none ∷ rest) = somes rest
somes (some dir ∷ rest) = dir ∷ somes rest

-- Where a log is looked for: `rata_shell.log` in the directory of the DLL and in those that TEMP, TMP and
-- USERPROFILE name, where they are set, and behind them at the root of C.
unfoldable pub places : World → List Bytes
unfolding somes
places w =
    map (λ dir. join dir (codes "rata_shell.log"))
      (somes (
        w.dll_dir
        ∷ w.var_os (codes "TEMP")
        ∷ w.var_os (codes "TMP")
        ∷ w.var_os (codes "USERPROFILE")
        ∷ []))
    ++ codes "C:\\rata_shell.log" ∷ []

candidate-somes :
    (dir : Option Bytes) (dirs : List (Option Bytes)) (last : List Bytes)
    → candidate dir ++ (map (λ d. join d (codes "rata_shell.log")) (somes dirs) ++ last)
      ≡ map (λ d. join d (codes "rata_shell.log")) (somes (dir ∷ dirs)) ++ last
unfolding somes
candidate-somes none dirs last = refl
candidate-somes (some dir) dirs last = refl

candidates-places : (w : World) → candidates w ≡ places w
unfolding candidates places somes
candidates-places w =
    let last : List Bytes = codes "C:\\rata_shell.log" ∷ [] in
    let dll = candidate w.dll_dir in
    let temp = w.var_os (codes "TEMP") in
    let tmp = w.var_os (codes "TMP") in
    let profile = w.var_os (codes "USERPROFILE") in
    append_assoc (dll ++ candidate temp ++ candidate tmp) (candidate profile) last
    ∙ append_assoc (dll ++ candidate temp) (candidate tmp) (candidate profile ++ last)
    ∙ append_assoc dll (candidate temp) (candidate tmp ++ (candidate profile ++ last))
    ∙ ap (λ (l : List Bytes). dll ++ (candidate temp ++ (candidate tmp ++ l)))
        (candidate-somes profile [] last)
    ∙ ap (λ (l : List Bytes). dll ++ (candidate temp ++ l))
        (candidate-somes tmp (profile ∷ []) last)
    ∙ ap (λ (l : List Bytes). dll ++ l) (candidate-somes temp (tmp ∷ profile ∷ []) last)
    ∙ candidate-somes w.dll_dir (temp ∷ tmp ∷ profile ∷ []) last

opened : World → Option Bytes → Log → Log
opened w none l = l
opened w (some path) l = record l {
  sink = some path;
  written = l.written ++ (path, session_start w path) ∷ [];
}

try_open-first_open :
    (w : World) (paths : List Bytes) (l : Log)
    → try_open w paths l ≡ opened w (first_open w.opens paths) l
unfolding try_open opened
try_open-first_open w [] l = refl
try_open-first_open w (path ∷ rest) l = elim (Bool-cases (w.opens path)) [
  | inl yes_opens ↦ rw yes_opens refl
  | inr no_opens ↦ rw no_opens (try_open-first_open w rest l)
]

-- Before a file is asked for, nothing happens.
plain_call : (x : World × LogCall) → IsPlain x → log_call x.0 x.1 no_log ≡ no_log
unfolding log_call rata_init rlog
plain_call (w, init flags) plain = rw plain refl
plain_call (w, logs args) plain = refl

before_file :
    (calls rest : List (World × LogCall))
    → All IsPlain calls
    → log_calls (calls ++ rest) no_log ≡ log_calls rest no_log
unfolding log_calls
before_file [] rest plain = refl
before_file (x ∷ calls) rest (plain, more) =
    ap (log_calls (calls ++ rest)) (plain_call x plain) ∙ before_file calls rest more

-- With a file, each call is one line.
call_with_file :
    (path : Bytes) (x : World × LogCall) (l : Log)
    → l.sink ≡ some path
    → l.tried ≡ true
    → log_call x.0 x.1 l ≡ append path (line_of x) l
unfolding log_call rata_init rlog
call_with_file path (w, init flags) l e tried = elim (Bool-cases (wants_file flags)) [
  | inl wanted ↦ rw (wanted, tried, e) refl
  | inr plain ↦ rw (plain, e) refl
]
call_with_file path (w, logs args) l e tried = rw e refl

log_calls-file :
    (path : Bytes) (calls : List (World × LogCall)) (l : Log)
    → l.sink ≡ some path
    → l.tried ≡ true
    → (log_calls calls l).written ≡ l.written ++ map (at path) (map line_of calls)
unfolding log_calls
log_calls-file path [] l e tried = sym (append_nil l.written)
log_calls-file path (x ∷ calls) l e tried =
    ap (λ m. (log_calls calls m).written) (call_with_file path x l e tried)
    ∙ log_calls-file path calls (append path (line_of x) l) e tried
    ∙ append_assoc l.written (at path (line_of x) ∷ []) _

-- Once no path has opened, no call writes.
call_with_no_file :
    (x : World × LogCall) (l : Log) → l.sink ≡ none → l.tried ≡ true → log_call x.0 x.1 l ≡ l
unfolding log_call rata_init rlog
call_with_no_file (w, init flags) l e tried = elim (Bool-cases (wants_file flags)) [
  | inl wanted ↦ rw (wanted, tried, e) refl
  | inr plain ↦ rw (plain, e) refl
]
call_with_no_file (w, logs args) l e tried = rw e refl

log_calls-no_file :
    (calls : List (World × LogCall)) (l : Log)
    → l.sink ≡ none
    → l.tried ≡ true
    → (log_calls calls l).written ≡ l.written
unfolding log_calls
log_calls-no_file [] l e tried = refl
log_calls-no_file (x ∷ calls) l e tried =
    ap (λ m. (log_calls calls m).written) (call_with_no_file x l e tried)
    ∙ log_calls-no_file calls l e tried

-- The first call that asks for a file, and those behind it.
file_call :
    (w : World) (flags : ℕ) (path : Option Bytes)
    → wants_file flags ≡ true
    → first_open w.opens (candidates w) ≡ path
    → log_call w (init flags) no_log
      ≡ rlog w (init_args flags) (record (opened w path no_log) { tried = true })
unfolding log_call rata_init init_logging
file_call w flags path wanted e = rw (wanted, try_open-first_open w (candidates w) no_log, e) refl

from_file_call :
    (w : World) (flags : ℕ) (rest : List (World × LogCall)) (path : Option Bytes)
    → wants_file flags ≡ true
    → first_open w.opens (candidates w) ≡ path
    → (log_calls ((w, init flags) ∷ rest) no_log).written ≡ expected path w flags rest
unfolding log_calls rlog opened
from_file_call w flags rest none wanted e =
    ap (λ m. (log_calls rest m).written) (file_call w flags none wanted e)
    ∙ log_calls-no_file rest _ refl refl
from_file_call w flags rest (some path) wanted e =
    ap (λ m. (log_calls rest m).written) (file_call w flags (some path) wanted e)
    ∙ log_calls-file path rest _ refl refl

-- Calls before the first one that asks for a log file are not written. From that one on, the file is
-- `rata_shell.log` in the first of these places where it opens then, for good: the directory of the DLL,
-- those that TEMP, TMP and USERPROFILE name, each where it is set, and the root of C. The file gets the
-- line of the session start once, then one line for each call, in order. Where it opens in none of them,
-- no later call writes anything.
pub log_calls-written :
    (before : List (World × LogCall)) (w : World) (flags : ℕ) (rest : List (World × LogCall))
    → All IsPlain before
    → wants_file flags ≡ true
    → (log_calls (before ++ (w, init flags) ∷ rest) no_log).written
      ≡ expected (first_open w.opens (places w)) w flags rest
log_calls-written before w flags rest plain wanted =
    ap (λ l. l.written) (before_file before ((w, init flags) ∷ rest) plain)
    ∙ from_file_call w flags rest (first_open w.opens (places w)) wanted
        (ap (first_open w.opens) (candidates-places w))
