-- ===== src/Session/Calls/Requests.antt =====
-- The requests of a host, in any order, with the rounds of the pump between them.
use scshell.Base.{ℕ, ◌<◌, ◌^◌, Bool, true, List, [], ◌∷◌, ◌++◌, Option, some, ◌≡◌, Bytes, ◌>>=◌, ℤ}
use scshell.Env.{Str}
use scshell.Error.{RataError}
use scshell.Term.{Emulator}
use scshell.Session.Calls.{
  SpawnOptions, Callbacks, Session, Effect, Reply, ok, err, Action, dispatch_events, send,
}
use scshell.Session.Calls as Calls

-- The requests that change the terminal and make a frame.
pub data Gesture : Type 0 where
  scroll : (lines : ℤ) → Gesture
  scroll_to_top scroll_to_bottom clear_history reset_state selection_clear toggle_vi_mode : Gesture
  selection_start : (col row kind : ℕ) → Gesture
  selection_extend : (col row : ℕ) → Gesture
  vi_motion : (kind : ℕ) → Gesture

-- The other ones; the last two are the pump's.
pub data Request : Type 0 where
  gesture : Gesture → Request
  request_render terminate : Request
  set_callbacks : Callbacks → Request
  set_clipboard_callback : Bool → Request
  start : List (Str × Str) → (spawned : Reply ℕ) → (reader writer : Option RataError) → Request
  resize : (answer : Option RataError) → (cols rows : ℕ) → Request
  send_bytes : Bytes → Request
  send_key : (vk mods : ℕ) → Request
  search_next : Bytes → Bool → Request
  pump_round : List Bytes → Request
  pump_end : Option ℤ → Request

-- The sizes are `u16`, and with `hooked` the host goes on to ask for its frames.
abbrev pub IsAllowed : (hooked : Bool) → Request → Type 0
IsAllowed hooked (set_callbacks cbs) = hooked ≡ true → cbs.on_render ≡ true
IsAllowed hooked (resize answer cols rows) = (cols < 2 ^ 16) × (rows < 2 ^ 16)
IsAllowed hooked _ = Unit

-- The requests that make a frame.
abbrev pub IsDrawing : Request → Type 0
IsDrawing (gesture g) = Unit
IsDrawing request_render = Unit
IsDrawing (pump_round chunks) = Unit
IsDrawing (pump_end code) = Unit
IsDrawing _ = ⊥

module _ {E : Type 0} (em : Emulator E) where
  abbrev pub perform_gesture : Gesture → Action E (Unit {0})
  perform_gesture (scroll lines) = Calls.scroll em lines
  perform_gesture scroll_to_top = Calls.scroll_to_top em
  perform_gesture scroll_to_bottom = Calls.scroll_to_bottom em
  perform_gesture clear_history = Calls.clear_history em
  perform_gesture reset_state = Calls.reset_state em
  perform_gesture selection_clear = Calls.selection_clear em
  perform_gesture toggle_vi_mode = Calls.toggle_vi_mode em
  perform_gesture (selection_start col row kind) = Calls.selection_start em col row kind
  perform_gesture (selection_extend col row) = Calls.selection_extend em col row
  perform_gesture (vi_motion kind) = Calls.vi_motion em kind

  -- A match is told by its own function.
  abbrev forget : {A : Type 0} → Action E A → Action E (Unit {0})
  forget act s = do
    (reply, s, effects) ← act s
    some (elim reply [ ok a ↦ ok tt | err e ↦ err e ], s, effects)

  -- What a method that only sets fields does.
  abbrev sets : (Session E → Session E) → Action E (Unit {0})
  sets f s = some (ok tt, f s, [])

  abbrev pub perform : Request → Action E (Unit {0})
  perform (gesture g) = perform_gesture g
  perform request_render = Calls.request_render em
  perform terminate = Calls.terminate em
  perform (set_callbacks cbs) = sets (Calls.set_callbacks em cbs)
  perform (set_clipboard_callback cb) = sets (Calls.set_clipboard_callback em cb)
  perform (start vars spawned reader writer) = Calls.start em vars spawned reader writer
  perform (resize answer cols rows) = Calls.resize em answer cols rows
  perform (send_bytes bytes) = Calls.send_bytes em bytes
  perform (send_key vk mods) = Calls.send_key em vk mods
  perform (search_next pattern forward) = forget (Calls.search_next em pattern forward)
  perform (pump_round chunks) = Calls.pump_round em chunks
  perform (pump_end code) = Calls.pump_end em code

  -- The requests in their order, with all effects.
  unfoldable pub run : List Request → Session E → Option (Session E × List Effect)
  run [] s = some (s, [])
  run (r ∷ rs) s = do
    (reply, s, effects) ← perform r s
    (s, more) ← run rs s
    some (s, effects ++ more)
