-- ===== src/Ffi/Exports.antt =====
-- rata_shell/src/ffi.rs: the exported functions, each called on thread `t`. An out pointer is `none` where
-- it is null, and else has what stands behind it.
use scshell.Base.{
  ℕ, Bool, not, List, [], ◌∷◌, Option, none, some, ◌==◌, if◌then◌else◌, as_u32, Bytes, ℤ, pos,
}
use scshell.Env.{Str}
use scshell.Error.{RataError, store, rata_ok, last_error_copy}
use scshell.Term.{Emulator, mode_flags}
use scshell.Term.Gestures.{selection_to_string, vi_mode_active}
use scshell.Term.Search.{Match, no_match}
use scshell.Term.Search as Search
use scshell.Session.Calls.{Callbacks, Session, Reply, ok, err, Action}
use scshell.Session.Calls as Calls
use scshell.Session.Family.{update}
use scshell.Ffi.{copy_out}
use scshell.Ffi.Options.{read_utf8}
use scshell.Ffi.Memory.{
  Process, Handle, Outcome, fault, returned, wild, refused, found, session_from, with_session,
  query,
}

-- `if !out.is_null() { *out = value; }`
abbrev pub write_out : Option ℕ → ℕ → Option ℕ
write_out none value = none
write_out (some old) value = some value

-- `rata_last_error_message`
unfoldable pub rata_last_error_message :
    {E : Type 0} → ℕ → Process E → Option Bytes → ℕ → Option (ℕ × Option Bytes)
unfolding copy_out
rata_last_error_message t p buf cap = copy_out (last_error_copy t p.errors) buf cap

-- The code, and the three out pointers.
abbrev pub SearchOut : Type 0
SearchOut = ℤ × Option ℕ × Option ℕ × Option ℕ

module _ {E : Type 0} (em : Emulator E) where
  -- A method that has only a new state.
  abbrev pub method : (Session E → Session E) → Action E (Unit {0})
  method f s = some (ok tt, f s, [])

  abbrev pub rata_session_set_callbacks : ℕ → Handle → Callbacks → Process E → Outcome E ℤ
  rata_session_set_callbacks t h cbs = with_session t h (method (Calls.set_callbacks em cbs))

  abbrev pub rata_session_set_clipboard_callback : ℕ → Handle → Bool → Process E → Outcome E ℤ
  rata_session_set_clipboard_callback t h cb =
      with_session t h (method (Calls.set_clipboard_callback em cb))

  abbrev pub rata_session_start :
      ℕ
      → Handle
      → List (Str × Str)
      → Reply ℕ
      → (reader writer : Option RataError) → Process E
      → Outcome E ℤ
  rata_session_start t h vars spawned reader writer =
      with_session t h (Calls.start em vars spawned reader writer)

  abbrev pub rata_session_resize :
      ℕ → Handle → (answer : Option RataError) → (cols rows : ℕ) → Process E → Outcome E ℤ
  rata_session_resize t h answer cols rows = with_session t h (Calls.resize em answer cols rows)

  -- Null, or no byte, is nothing to send.
  abbrev pub send_text : Option Bytes → Action E (Unit {0})
  send_text none s = some (ok tt, s, [])
  send_text (some []) s = some (ok tt, s, [])
  send_text (some (b ∷ bytes)) s = Calls.send_bytes em (b ∷ bytes) s

  abbrev pub rata_session_send_text : ℕ → Handle → Option Bytes → Process E → Outcome E ℤ
  rata_session_send_text t h utf8 = with_session t h (send_text utf8)

  abbrev pub rata_session_send_key : ℕ → Handle → (vk mods : ℕ) → Process E → Outcome E ℤ
  rata_session_send_key t h vk mods = with_session t h (Calls.send_key em vk mods)

  abbrev pub rata_session_request_render : ℕ → Handle → Process E → Outcome E ℤ
  rata_session_request_render t h = with_session t h (Calls.request_render em)

  abbrev pub rata_session_terminate : ℕ → Handle → Process E → Outcome E ℤ
  rata_session_terminate t h = with_session t h (Calls.terminate em)

  abbrev pub rata_session_scroll : ℕ → Handle → ℤ → Process E → Outcome E ℤ
  rata_session_scroll t h lines = with_session t h (Calls.scroll em lines)

  abbrev pub rata_session_scroll_to_top : ℕ → Handle → Process E → Outcome E ℤ
  rata_session_scroll_to_top t h = with_session t h (Calls.scroll_to_top em)

  abbrev pub rata_session_scroll_to_bottom : ℕ → Handle → Process E → Outcome E ℤ
  rata_session_scroll_to_bottom t h = with_session t h (Calls.scroll_to_bottom em)

  abbrev pub rata_session_clear_history : ℕ → Handle → Process E → Outcome E ℤ
  rata_session_clear_history t h = with_session t h (Calls.clear_history em)

  abbrev pub rata_session_reset : ℕ → Handle → Process E → Outcome E ℤ
  rata_session_reset t h = with_session t h (Calls.reset_state em)

  abbrev pub rata_session_selection_start :
      ℕ → Handle → (col row kind : ℕ) → Process E → Outcome E ℤ
  rata_session_selection_start t h col row kind =
      with_session t h (Calls.selection_start em col row kind)

  abbrev pub rata_session_selection_extend : ℕ → Handle → (col row : ℕ) → Process E → Outcome E ℤ
  rata_session_selection_extend t h col row = with_session t h (Calls.selection_extend em col row)

  abbrev pub rata_session_selection_clear : ℕ → Handle → Process E → Outcome E ℤ
  rata_session_selection_clear t h = with_session t h (Calls.selection_clear em)

  abbrev pub rata_session_toggle_vi_mode : ℕ → Handle → Process E → Outcome E ℤ
  rata_session_toggle_vi_mode t h = with_session t h (Calls.toggle_vi_mode em)

  abbrev pub rata_session_vi_motion : ℕ → Handle → (kind : ℕ) → Process E → Outcome E ℤ
  rata_session_vi_motion t h kind = with_session t h (Calls.vi_motion em kind)

  abbrev pub write_match : (col row len : Option ℕ) → Match → SearchOut
  write_match col row len m =
      (rata_ok, write_out col m.col, write_out row m.row, write_out len m.len)

  -- `rata_session_search_next` behind the test of the pattern; on an error nothing is written.
  unfoldable pub search_session :
      ℕ → Handle → Bytes → Bool → (col row len : Option ℕ) → Process E → Outcome E SearchOut
  search_session t h pattern forward col row len p = elim (session_from p h) [
    | wild ↦ fault
    | refused e ↦
        let (code, errors) = store t e p.errors in
        returned (code, col, row, len) (record p { errors = errors }) []
    | found i s ↦
        let (term, m) = Search.search_next em s.term pattern forward in
        returned (write_match col row len m)
          (record p { blocks = update p.blocks i (some (record s { term = term })) }) []
  ]

  -- An empty pattern is answered before the handle is looked at.
  abbrev pub search_pattern :
      Option Bytes → ℕ → Handle → Bool → (col row len : Option ℕ) → Process E → Outcome E SearchOut
  search_pattern none t h forward col row len p = returned (write_match col row len no_match) p []
  search_pattern (some []) t h forward col row len p =
      returned (write_match col row len no_match) p []
  search_pattern (some (c ∷ s)) t h forward col row len p =
      search_session t h (c ∷ s) forward col row len p

  abbrev pub rata_session_search_next :
      ℕ
      → Handle
      → Option Bytes
      → (forward : ℕ) → (col row len : Option ℕ) → Process E
      → Outcome E SearchOut
  rata_session_search_next t h pattern forward =
      search_pattern (read_utf8 pattern) t h (not (forward == 0))

  abbrev pub rata_session_is_alive : Handle → Process E → Outcome E ℕ
  rata_session_is_alive h = query h 0 (λ s. if s.alive then 1 else 0)

  abbrev pub rata_session_get_exit_code : Handle → Process E → Outcome E ℤ
  rata_session_get_exit_code h = query h (pos 0) (λ s. s.exit_code)

  abbrev pub rata_session_get_child_pid : Handle → Process E → Outcome E ℕ
  rata_session_get_child_pid h = query h 0 (Calls.child_pid em)

  abbrev pub rata_session_get_mode_flags : Handle → Process E → Outcome E ℕ
  rata_session_get_mode_flags h = query h 0 (λ s. mode_flags em s.term)

  abbrev pub rata_session_vi_mode_active : Handle → Process E → Outcome E ℕ
  rata_session_vi_mode_active h = query h 0 (λ s. if vi_mode_active em s.term then 1 else 0)

  -- `rata_session_get_size`: the code, and both out pointers.
  unfoldable pub rata_session_get_size :
      ℕ → Handle → (cols rows : Option ℕ) → Process E → Outcome E (ℤ × Option ℕ × Option ℕ)
  rata_session_get_size t h cols rows p = elim (session_from p h) [
    | wild ↦ fault
    | refused e ↦
        let (code, errors) = store t e p.errors in
        returned (code, cols, rows) (record p { errors = errors }) []
    | found i s ↦
        let (c, r) = Calls.cols_rows em s in
        returned (rata_ok, write_out cols c, write_out rows r) p []
  ]

  -- `rata_session_get_scroll_info`, likewise.
  unfoldable pub rata_session_get_scroll_info :
      ℕ → Handle → (offset max : Option ℕ) → Process E → Outcome E (ℤ × Option ℕ × Option ℕ)
  rata_session_get_scroll_info t h offset max p = elim (session_from p h) [
    | wild ↦ fault
    | refused e ↦
        let (code, errors) = store t e p.errors in
        returned (code, offset, max) (record p { errors = errors }) []
    | found i s ↦
        let (off, most) = Calls.scroll_info em s in
        returned (rata_ok, write_out offset (as_u32 off), write_out max (as_u32 most)) p []
  ]

  -- `rata_session_selection_get_text`; no selection is no text, and the buffer is left.
  unfoldable pub selection_get_text : Session E → Option Bytes → ℕ → Option (ℕ × Option Bytes)
  unfolding copy_out
  selection_get_text s buf cap = elim (selection_to_string em s.term) [
    | some text ↦ copy_out text buf cap
    | none ↦ some (0, buf)
  ]
