-- ===== src/Session/Calls/State.antt =====
-- rata_shell/src/session.rs: the fields of `Session`, what its methods call, and what needs no terminal.
use scshell.Base.{
  ℕ, Bool, true, false, ◌&&◌, List, [], ◌∷◌, ◌++◌, Option, none, some, if◌then◌else◌, Bytes, ℤ, pos,
}
use scshell.Error.{RataError}
use scshell.Backend.{HostBackend}
use scshell.Term.{TermHost, Event, title, clipboard_store, pty_write, reset_title, bell, other}
use scshell.Term.Render.{RenderSnapshot}

pub record SpawnOptions : Type 0 where
  pub cmdline : Bytes
  pub cwd : Option Bytes
  pub env_block : Option (List ℕ)
  pub cols : ℕ
  pub rows : ℕ
  pub scrollback : ℕ

-- Which callbacks are set.
pub record Callbacks : Type 0 where
  pub on_render : Bool
  pub on_exit : Bool
  pub on_bell : Bool
  pub on_title : Bool
  pub on_clipboard : Bool

-- `Callbacks::default`
abbrev pub no_callbacks : Callbacks
no_callbacks = record {
  on_render = false;
  on_exit = false;
  on_bell = false;
  on_title = false;
  on_clipboard = false;
}

-- `SESSION_MAGIC`
abbrev pub session_magic : ℕ
session_magic = 0x5241_5441

-- `pty` has the id of the child, and `writer` the messages that its channel has been sent.
pub record Session (E : Type 0) : Type 0 where
  pub magic : ℕ
  pub pty : Option ℕ
  pub writer : Option (List Bytes)
  pub term : TermHost E
  pub backend : HostBackend
  pub callbacks : Callbacks
  pub alive : Bool
  pub exit_code : ℤ
  pub options : SpawnOptions

-- The calls of the host, and those of Windows.
pub data Effect : Type 0 where
  on_render : RenderSnapshot → Effect
  on_title on_clipboard : Bytes → Effect
  on_bell : Effect
  resize_console : (size : ℕ × ℕ) → Effect
  terminate_process : (code : ℕ) → Effect
  on_exit : (code : ℤ) → Effect
  spawn_child : SpawnOptions → (env : List ℕ) → Effect

pub data Reply (A : Type 0) : Type 0 where
  ok : A → Reply A
  err : RataError → Reply A

-- A method: the reply, the session after it, and what was called on the way.
abbrev pub Action : Type 0 → Type 0 → Type 0
Action E A = Session E → Option (Reply A × Session E × List Effect)

-- `dispatch` of the pump's loop over the drained events: the callbacks, and the answers of the terminal for
-- the writer.
unfoldable pub dispatch_event : Callbacks → Event → List Effect × List Bytes
dispatch_event cbs (title t) = (if cbs.on_title then on_title t ∷ [] else [], [])
dispatch_event cbs reset_title = (if cbs.on_title then on_title [] ∷ [] else [], [])
dispatch_event cbs bell = (if cbs.on_bell then on_bell ∷ [] else [], [])
dispatch_event cbs (clipboard_store text) =
    (if cbs.on_clipboard then on_clipboard text ∷ [] else [], [])
dispatch_event cbs (pty_write text) = ([], text ∷ [])
dispatch_event cbs other = ([], [])

unfoldable pub dispatch_events : Callbacks → List Event → List Effect × List Bytes
dispatch_events cbs [] = ([], [])
dispatch_events cbs (ev ∷ events) =
    let (calls, answers) = dispatch_event cbs ev in
    let (more_calls, more_answers) = dispatch_events cbs events in
    (calls ++ more_calls, answers ++ more_answers)

-- `wtx.send`, for each of the answers; the pump has a sender of the writer.
abbrev pub send : Option (List Bytes) → List Bytes → Option (List Bytes)
send none texts = none
send (some sent) texts = some (sent ++ texts)

-- `unwrap_or(0)`
abbrev pub or_pos_zero : Option ℤ → ℤ
or_pos_zero none = pos 0
or_pos_zero (some c) = c

-- `alive.swap(false)`, and `on_exit` where it was up.
abbrev pub told_exit : {E : Type 0} → Option ℤ → Session E → List Effect
told_exit code s = if s.alive && s.callbacks.on_exit then on_exit (or_pos_zero code) ∷ [] else []

-- `start` behind `PtyHost::spawn`.
unfoldable pub started :
    {E : Type 0}
    → Session E
    → (spawned : Reply ℕ) → (reader writer : Option RataError) → Reply (Unit {0}) × Session E
started s (err e) reader writer = (err e, s)
started s (ok pid) (some e) writer = (err e, s)
started s (ok pid) none (some e) = (err e, s)
started s (ok pid) none none = (ok tt, record s { alive = true; pty = some pid; writer = some [] })

-- `Drop for Session` calls `terminate` with the callbacks cleared; what it does with the threads is not
-- told here.
unfoldable pub drop_session : {E : Type 0} → Session E → List Effect
drop_session s = elim s.pty [ some pid ↦ terminate_process 1 ∷ [] | none ↦ [] ]
