-- ===== src/Ffi/Plain.antt =====
-- Which export a request is, and that most of them are the method on the session behind the handle.
use scshell.Base.{ℕ, Bool, [], ◌∷◌, ◌≡◌, refl, Bytes}
use scshell.Term.{Emulator}
use scshell.Session.Calls as Calls
use scshell.Session.Calls.Requests.{
  Gesture, scroll, scroll_to_top, scroll_to_bottom, clear_history, reset_state, selection_clear,
  toggle_vi_mode, selection_start, selection_extend, vi_motion, Request, gesture, request_render,
  terminate, set_callbacks, set_clipboard_callback, start, resize, send_bytes, send_key,
  search_next, pump_round, pump_end, perform, perform_gesture,
}
use scshell.Ffi.Memory.{Process, Handle, with_session}
use scshell.Ffi.Sequences.{invoke_gesture, invoke_request, pump_at}

-- Neither a search, which may have nothing to look for, nor the pump.
abbrev pub IsPlain : Request → Type 0
IsPlain (search_next pattern forward) = ⊥
IsPlain (pump_round chunks) = ⊥
IsPlain (pump_end code) = ⊥
IsPlain _ = Unit

module _ {E : Type 0} (em : Emulator E) where
  invoke_gesture-plain :
      (t : ℕ) (h : Handle) (g : Gesture) (p : Process E)
      → invoke_gesture em t h g p ≡ with_session t h (perform_gesture em g) p
  invoke_gesture-plain t h (scroll lines) p = refl
  invoke_gesture-plain t h scroll_to_top p = refl
  invoke_gesture-plain t h scroll_to_bottom p = refl
  invoke_gesture-plain t h clear_history p = refl
  invoke_gesture-plain t h reset_state p = refl
  invoke_gesture-plain t h selection_clear p = refl
  invoke_gesture-plain t h toggle_vi_mode p = refl
  invoke_gesture-plain t h (selection_start col row kind) p = refl
  invoke_gesture-plain t h (selection_extend col row) p = refl
  invoke_gesture-plain t h (vi_motion kind) p = refl

  -- The export of a plain request is the method, behind the check of the handle.
  pub invoke_request-plain :
      (t : ℕ) (h : Handle) (r : Request) (p : Process E)
      → IsPlain r
      → invoke_request em t h r p ≡ with_session t h (perform em r) p
  unfolding Calls.send_bytes
  invoke_request-plain t h (gesture g) p k = invoke_gesture-plain t h g p
  invoke_request-plain t h request_render p k = refl
  invoke_request-plain t h terminate p k = refl
  invoke_request-plain t h (set_callbacks cbs) p k = refl
  invoke_request-plain t h (set_clipboard_callback cb) p k = refl
  invoke_request-plain t h (start vars spawned reader wrote) p k = refl
  invoke_request-plain t h (resize answer cols rows) p k = refl
  invoke_request-plain t h (send_bytes []) p k = refl
  invoke_request-plain t h (send_bytes (b ∷ bytes)) p k = refl
  invoke_request-plain t h (send_key vk mods) p k = refl
  invoke_request-plain t h (search_next pattern forward) p k = absurd k
  invoke_request-plain t h (pump_round chunks) p k = absurd k
  invoke_request-plain t h (pump_end code) p k = absurd k

  -- A request is plain, a search, or a round of the pump.
  pub data RequestKind (r : Request) : Type 0 where
    is_plain : IsPlain r → RequestKind r
    is_search : (pattern : Bytes) (forward : Bool) → r ≡ search_next pattern forward → RequestKind r
    is_pump :
        ((t : ℕ) (h : Handle) (p : Process E)
          → invoke_request em t h r p ≡ pump_at h (perform em r) t p)
        → RequestKind r

  pub request_kind : (r : Request) → RequestKind r
  request_kind (gesture g) = is_plain tt
  request_kind request_render = is_plain tt
  request_kind terminate = is_plain tt
  request_kind (set_callbacks cbs) = is_plain tt
  request_kind (set_clipboard_callback cb) = is_plain tt
  request_kind (start vars spawned reader wrote) = is_plain tt
  request_kind (resize answer cols rows) = is_plain tt
  request_kind (send_bytes bytes) = is_plain tt
  request_kind (send_key vk mods) = is_plain tt
  request_kind (search_next pattern forward) = is_search pattern forward refl
  request_kind (pump_round chunks) = is_pump (λ t h p. refl)
  request_kind (pump_end code) = is_pump (λ t h p. refl)
