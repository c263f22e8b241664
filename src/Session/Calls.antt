-- ===== src/Session/Calls.antt =====
-- rata_shell/src/session.rs: the methods of `Session` that a host calls, one at a time. A panic is `none`.
-- The pump runs between two calls.
pub mod State
pub mod Kept
pub mod Requests
pub mod Frames
pub mod Methods
pub mod Shown
use scshell.Base.{
  ℕ, ◌+◌, Bool, true, false, not, ◌&&◌, List, [], ◌∷◌, ◌++◌, Option, none, some, ◌==◌,
  if◌then◌else◌, Bytes, ◌>>=◌, codes, ℤ, pos,
}
use scshell.Env.{Str, default_env_with_terminfo}
use scshell.Error.{RataError, state}
use scshell.Backend.{HostBackend}
use scshell.Backend as Backend
use scshell.Pty.{coord}
use scshell.Keymap.{encode}
use scshell.Term.{
  Emulator, TermHost, Event, title, clipboard_store, pty_write, reset_title, bell, other, snapshot,
}
use scshell.Term as Term
use scshell.Term.Gestures as Gestures
use scshell.Term.Search.{Match}
use scshell.Term.Search as Search
use scshell.Term.Render.{RenderSnapshot}
use scshell.Term.Render as Render
pub use State.*
unfoldable pub use State.{dispatch_event, dispatch_events, started, drop_session}

module _ {E : Type 0} (em : Emulator E) where
  -- `Session::new`
  unfoldable pub new : SpawnOptions → Session E
  new options = record {
    magic = session_magic;
    pty = none;
    writer = none;
    term = Term.new em options.cols options.rows options.scrollback;
    backend = Backend.new;
    callbacks = no_callbacks;
    alive = false;
    exit_code = pos 0;
    options = options;
  }

  -- The clipboard callback is kept.
  abbrev pub set_callbacks : Callbacks → Session E → Session E
  set_callbacks cbs s = record s {
    callbacks = record cbs { on_clipboard = s.callbacks.on_clipboard };
  }

  abbrev pub set_clipboard_callback : Bool → Session E → Session E
  set_clipboard_callback cb s = record s { callbacks = record s.callbacks { on_clipboard = cb } }

  -- A change of the terminal alone, and a reply that changes nothing.
  abbrev modify : (TermHost E → TermHost E) → Action E (Unit {0})
  modify f s = some (ok tt, record s { term = f s.term }, [])

  abbrev gets : {A : Type 0} → (Session E → A) → Action E A
  gets f s = some (ok (f s), s, [])

  unfoldable pub request_render : Action E (Unit {0})
  request_render s = do
    (backend, term, snap) ← Render.render em s.backend s.term
    some (
      ok tt,
      record s { backend = backend; term = term },
      if s.callbacks.on_render then on_render snap ∷ [] else [],
    )

  -- A change of the terminal, and a frame.
  abbrev pub change_render : (TermHost E → TermHost E) → Action E (Unit {0})
  change_render f s = request_render (record s { term = f s.term })

  unfoldable pub advance_all : TermHost E → List Bytes → TermHost E
  advance_all t [] = t
  advance_all t (buf ∷ chunks) = advance_all (Term.advance em t buf) chunks

  -- The chunks that a round of the pump has taken from the channel, and the events that they bring.
  unfoldable pub take_in : List Bytes → Session E → Session E × List Effect
  unfolding dispatch_events advance_all
  take_in chunks s =
      let (term, events) = Term.drain_events em (advance_all s.term chunks) in
      let (calls, answers) = dispatch_events s.callbacks events in
      (record s { term = term; writer = send s.writer answers }, calls)

  -- A round of the pump.
  unfoldable pub pump_round : List Bytes → Action E (Unit {0})
  pump_round chunks s = do
    (reply, after, frame) ← request_render (take_in chunks s).0
    some (reply, after, (take_in chunks s).1 ++ frame)

  -- The block under `if saw_eof`, with no watcher at work; `code` is that of the child.
  unfoldable pub pump_end : Option ℤ → Action E (Unit {0})
  pump_end code s = do
    (reply, s, frame) ← request_render s
    some
        (reply, record s { exit_code = or_pos_zero code; alive = false }, frame ++ told_exit code s)

  -- The environment block of the child: that of the caller, or the default one.
  abbrev pub child_env : List (Str × Str) → Session E → List ℕ
  child_env vars s = elim s.options.env_block [ some b ↦ b | none ↦ default_env_with_terminfo vars ]

  -- `vars` is the environment of the process. The answers are those of `PtyHost::spawn`, which gives the
  -- id of the child, and of the spawns of the reader and the writer.
  unfoldable pub start :
      List (Str × Str)
      → (spawned : Reply ℕ) → (reader writer : Option RataError) → Action E (Unit {0})
  start vars spawned reader writer s =
      let asked = spawn_child s.options (child_env vars s) ∷ [] in
      if s.alive
      then some (err (state (codes "already running")), s, [])
      else let (reply, after) = started s spawned reader writer in some (reply, after, asked)

  -- `answer` is that of `ResizePseudoConsole`.
  unfoldable pub resize : (answer : Option RataError) → ℕ → ℕ → Action E (Unit {0})
  resize answer cols rows s =
      let s' = record s { term = Term.resize em s.term cols rows } in
      elim s.pty [
        | none ↦ some (ok tt, s', [])
        | some pid ↦ some (
          elim answer [ none ↦ ok tt | some e ↦ err e ],
          s',
          resize_console (coord cols rows) ∷ [],
        )
      ]

  unfoldable pub send_bytes : Bytes → Action E (Unit {0})
  send_bytes [] s = some (ok tt, s, [])
  send_bytes (b ∷ bytes) s = elim s.writer [
    | some sent ↦ some (ok tt, record s { writer = some (sent ++ (b ∷ bytes) ∷ []) }, [])
    | none ↦ some (err (state (codes "not started")), s, [])
  ]

  -- The cursor key mode is read from a snapshot, which keeps the links that it meets.
  unfoldable pub send_key : ℕ → ℕ → Action E (Unit {0})
  unfolding send_bytes
  send_key vk mods s = do
    (term, cells, meta) ← snapshot em s.term
    send_bytes (encode vk mods meta.app_cursor_keys) (record s { term = term })

  unfoldable pub terminate : Action E (Unit {0})
  terminate s = some (ok tt, s, elim s.pty [ some pid ↦ terminate_process 1 ∷ [] | none ↦ [] ])

  abbrev pub cols_rows : Session E → ℕ × ℕ
  cols_rows s = (Gestures.cols em s.term, Gestures.rows em s.term)

  abbrev pub scroll : ℤ → Action E (Unit {0})
  scroll lines = change_render (λ t. Gestures.scroll_display em t lines)

  abbrev pub scroll_to_top : Action E (Unit {0})
  scroll_to_top = change_render (Gestures.scroll_to_top em)

  abbrev pub scroll_to_bottom : Action E (Unit {0})
  scroll_to_bottom = change_render (Gestures.scroll_to_bottom em)

  abbrev pub scroll_info : Session E → ℕ × ℕ
  scroll_info s = (Gestures.display_offset em s.term, Gestures.history_size em s.term)

  abbrev pub clear_history : Action E (Unit {0})
  clear_history = change_render (Gestures.clear_history em)

  abbrev pub reset_state : Action E (Unit {0})
  reset_state = change_render (Gestures.reset_state em)

  abbrev pub child_pid : Session E → ℕ
  child_pid s = elim s.pty [ some pid ↦ pid | none ↦ 0 ]

  abbrev pub selection_start : ℕ → ℕ → ℕ → Action E (Unit {0})
  selection_start col row kind = change_render (λ t. Gestures.selection_start em t col row kind)

  abbrev pub selection_extend : ℕ → ℕ → Action E (Unit {0})
  selection_extend col row = change_render (λ t. Gestures.selection_extend em t col row)

  abbrev pub selection_clear : Action E (Unit {0})
  selection_clear = change_render (Gestures.selection_clear em)

  abbrev pub toggle_vi_mode : Action E (Unit {0})
  toggle_vi_mode = change_render (Gestures.toggle_vi_mode em)

  abbrev pub vi_motion : ℕ → Action E (Unit {0})
  vi_motion kind = change_render (λ t. Gestures.vi_motion em t kind)

  -- No frame is made.
  abbrev pub search_next : Bytes → Bool → Action E Match
  search_next pattern forward s =
      let (term, m) = Search.search_next em s.term pattern forward in
      some (ok m, record s { term = term }, [])
