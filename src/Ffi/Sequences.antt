-- ===== src/Ffi/Sequences.antt =====
-- A host that calls the exported functions in any order, on any thread.
use scshell.Base.{ℕ, Bool, List, [], ◌∷◌, ◌++◌, Option, none, some, if◌then◌else◌, Bytes, ℤ}
use scshell.Error.{rata_ok}
use scshell.Term.{Emulator}
use scshell.Session.Calls.{Session, Effect, Action}
use scshell.Session.Calls as Calls
use scshell.Session.Calls.Requests.{
  Gesture, scroll, scroll_to_top, scroll_to_bottom, clear_history, reset_state, selection_clear,
  toggle_vi_mode, selection_start, selection_extend, vi_motion, Request, gesture, request_render,
  terminate, set_callbacks, set_clipboard_callback, start, resize, send_bytes, send_key,
  search_next, pump_round, pump_end,
}
use scshell.Ffi.Options.{RataSpawnOptions}
use scshell.Ffi.Memory.{
  Process, Handle, Outcome, fault, panicked, returned, on_block, rata_session_destroy,
  rata_session_create,
}
use scshell.Ffi.Exports.{
  SearchOut, rata_session_set_callbacks, rata_session_set_clipboard_callback, rata_session_start,
  rata_session_resize, rata_session_send_text, rata_session_send_key, rata_session_request_render,
  rata_session_terminate, rata_session_scroll, rata_session_scroll_to_top,
  rata_session_scroll_to_bottom, rata_session_clear_history, rata_session_reset,
  rata_session_selection_start, rata_session_selection_extend, rata_session_selection_clear,
  rata_session_toggle_vi_mode, rata_session_vi_motion, rata_session_search_next,
}

-- A request goes to the session behind a handle; the rounds of its pump are among them. `place` is the answer
-- of the allocator.
pub data Call : Type 0 where
  create : Option RataSpawnOptions → (to_handle : Bool) → (place : ℕ) → Call
  destroy : Handle → Call
  invoke : Handle → Request → Call

module _ {E : Type 0} where
  -- The pump works on its own session; `Drop` waits for it.
  abbrev pub pump_on : ℕ → Option (Session E) → Action E (Unit {0}) → ℕ → Process E → Outcome E ℤ
  pump_on i none act t p = returned rata_ok p []
  pump_on i (some s) act t p = on_block t act i s p

  abbrev pub pump_at : Handle → Action E (Unit {0}) → ℕ → Process E → Outcome E ℤ
  pump_at none act t p = returned rata_ok p []
  pump_at (some i) act t p = pump_on i (p.blocks i) act t p

  -- The code that a call with out pointers gives.
  abbrev pub code_of : {A : Type 0} → (A → ℤ) → Outcome E A → Outcome E ℤ
  code_of code fault = fault
  code_of code panicked = panicked
  code_of code (returned a p effects) = returned (code a) p effects

module _ {E : Type 0} (em : Emulator E) where
  abbrev pub invoke_gesture : ℕ → Handle → Gesture → Process E → Outcome E ℤ
  invoke_gesture t h (scroll lines) = rata_session_scroll em t h lines
  invoke_gesture t h scroll_to_top = rata_session_scroll_to_top em t h
  invoke_gesture t h scroll_to_bottom = rata_session_scroll_to_bottom em t h
  invoke_gesture t h clear_history = rata_session_clear_history em t h
  invoke_gesture t h reset_state = rata_session_reset em t h
  invoke_gesture t h selection_clear = rata_session_selection_clear em t h
  invoke_gesture t h toggle_vi_mode = rata_session_toggle_vi_mode em t h
  invoke_gesture t h (selection_start col row kind) =
      rata_session_selection_start em t h col row kind
  invoke_gesture t h (selection_extend col row) = rata_session_selection_extend em t h col row
  invoke_gesture t h (vi_motion kind) = rata_session_vi_motion em t h kind

  -- A search with no out pointer.
  abbrev pub invoke_search : ℕ → Handle → Bytes → Bool → Process E → Outcome E ℤ
  invoke_search t h pattern forward p =
      code_of (λ (out : SearchOut). out.0)
        (rata_session_search_next em t h (some pattern) (if forward then 1 else 0) none none none p)

  abbrev pub invoke_request : ℕ → Handle → Request → Process E → Outcome E ℤ
  invoke_request t h (gesture g) = invoke_gesture t h g
  invoke_request t h request_render = rata_session_request_render em t h
  invoke_request t h terminate = rata_session_terminate em t h
  invoke_request t h (set_callbacks cbs) = rata_session_set_callbacks em t h cbs
  invoke_request t h (set_clipboard_callback cb) = rata_session_set_clipboard_callback em t h cb
  invoke_request t h (start vars spawned reader writer) =
      rata_session_start em t h vars spawned reader writer
  invoke_request t h (resize answer cols rows) = rata_session_resize em t h answer cols rows
  invoke_request t h (send_bytes bytes) = rata_session_send_text em t h (some bytes)
  invoke_request t h (send_key vk mods) = rata_session_send_key em t h vk mods
  invoke_request t h (search_next pattern forward) = invoke_search t h pattern forward
  invoke_request t h (pump_round chunks) = pump_at h (Calls.pump_round em chunks) t
  invoke_request t h (pump_end code) = pump_at h (Calls.pump_end em code) t

  unfoldable pub call : ℕ → Call → Process E → Outcome E ℤ
  call t (create opts to_handle place) p =
      code_of (λ (out : ℤ × Handle). out.0) (rata_session_create em t opts to_handle place p)
  call t (destroy h) p = rata_session_destroy t h p
  call t (invoke h r) p = invoke_request t h r p

  -- The calls in their order, each with its thread: their codes.
  unfoldable pub run_calls : List (ℕ × Call) → Process E → Outcome E (List ℤ)
  run_calls [] p = returned [] p []
  run_calls ((t, c) ∷ calls) p = elim (call t c p) [
    | fault ↦ fault
    | panicked ↦ panicked
    | returned code p effects ↦ elim (run_calls calls p) [
      | fault ↦ fault
      | panicked ↦ panicked
      | returned codes p more ↦ returned (code ∷ codes) p (effects ++ more)
    ]
  ]
