-- ===== src/Io/Posted.antt =====
-- What the requests of a host and the rounds of the pump are to post to the writer, told from the requests.
use scshell.Base.{
  ℕ, Option-cases, inl, inr, List, [], ◌∷◌, ◌++◌, Option, none, some, if◌then◌else◌, ◌+ℤ◌, pos, ◌≡◌,
  refl, sym, ap, ◌∙◌, Bytes, append_nil, append_assoc, bind-some,
}
use scshell.Cell.{HostCell}
use scshell.Keymap.{encode}
use scshell.Error.{RataError}
use scshell.Term.{
  Emulator, TermHost, Event, title, clipboard_store, pty_write, reset_title, bell, other,
  SnapshotMeta, Size, View, clamp_below, cursor_meta, snapshot,
}
use scshell.Term as Term
use scshell.Term.Render.{render}
use scshell.Session.Calls.{
  Callbacks, Session, Effect, Reply, ok, err, Action, dispatch_event, dispatch_events,
}
use scshell.Session.Calls as Calls
use scshell.Session.Calls.Requests.{
  Gesture, scroll, scroll_to_top, scroll_to_bottom, clear_history, reset_state, selection_clear,
  toggle_vi_mode, selection_start, selection_extend, vi_motion, Request, start, send_bytes,
  send_key, pump_round, perform_gesture, perform,
}

-- No message is empty.
abbrev pub unless_empty : Bytes → List Bytes
unless_empty [] = []
unless_empty (b ∷ bytes) = (b ∷ bytes) ∷ []

-- The answers among the events of the terminal.
unfoldable pub answers_of : List Event → List Bytes
answers_of [] = []
answers_of (pty_write text ∷ events) = text ∷ answers_of events
answers_of (title t ∷ events) = answers_of events
answers_of (reset_title ∷ events) = answers_of events
answers_of (bell ∷ events) = answers_of events
answers_of (clipboard_store t ∷ events) = answers_of events
answers_of (other ∷ events) = answers_of events

-- Behind what was posted before, where there is a writer.
abbrev pub behind : Option (List Bytes) → List Bytes → Option (List Bytes)
behind none more = none
behind (some before) more = some (before ++ more)

pub behind-nil : (q : Option (List Bytes)) → q ≡ behind q []
behind-nil none = refl
behind-nil (some before) = ap some (sym (append_nil before))

module _ {E : Type 0} (em : Emulator E) where
  -- The events of the emulator alone, on these chunks.
  unfoldable pub events_of : E → List Bytes → List Event
  events_of e [] = []
  events_of e (c ∷ chunks) = (em.advance e c).1 ++ events_of (em.advance e c).0 chunks

  -- What a request, made of `s`, posts: the bytes of `send_bytes`, the sequence of a key in the cursor mode of
  -- the terminal, and in a round of the pump the answers that are queued and those to its chunks.
  abbrev pub posted : Session E → Request → List Bytes
  posted s (send_bytes bytes) = unless_empty bytes
  posted s (send_key vk mods) = unless_empty (encode vk mods (em.view s.term.term).mode.app_cursor)
  posted s (pump_round chunks) = answers_of (s.term.queue ++ events_of s.term.term chunks)
  posted s _ = []

  -- What the writer of the session has been sent, behind that; a start that succeeds makes a new writer.
  abbrev pub channel : Session E → Request → Option (List Bytes) → Option (List Bytes)
  channel s (start vars (ok pid) none none) q = if s.alive then q else some []
  channel s r q = behind q (posted s r)

  -- The requests in their order.
  unfoldable pub wire : List Request → Session E → Option (List Bytes) → Option (List Bytes)
  wire [] s q = q
  wire (r ∷ rs) s q = elim (perform em r s) [
    | none ↦ none
    | some (reply, t, es) ↦ wire rs t (channel s r q)
  ]

  -- A method leaves what was sent.
  abbrev pub KeepsWriter : Action E (Unit {0}) → Type 0
  KeepsWriter act =
      (s t : Session E) (reply : Reply (Unit {0})) (es : List Effect)
      → act s ≡ some (reply, t, es)
      → t.writer ≡ s.writer

  pub request_render-KeepsWriter : KeepsWriter (Calls.request_render em)
  unfolding Calls.request_render
  request_render-KeepsWriter s t reply es e =
      let ((b, u, snap), f, g) = bind-some (render em s.backend s.term) _ _ e in
      let same : record s { backend = b; term = u } ≡ t = cc in
      ap (λ (x : Session E). x.writer) (sym same)

  change_render-KeepsWriter : (f : TermHost E → TermHost E) → KeepsWriter (Calls.change_render em f)
  change_render-KeepsWriter f s t reply es e =
      request_render-KeepsWriter (record s { term = f s.term }) t reply es e

  pub gesture-KeepsWriter : (g : Gesture) → KeepsWriter (perform_gesture em g)
  gesture-KeepsWriter (scroll lines) = change_render-KeepsWriter _
  gesture-KeepsWriter scroll_to_top = change_render-KeepsWriter _
  gesture-KeepsWriter scroll_to_bottom = change_render-KeepsWriter _
  gesture-KeepsWriter clear_history = change_render-KeepsWriter _
  gesture-KeepsWriter reset_state = change_render-KeepsWriter _
  gesture-KeepsWriter selection_clear = change_render-KeepsWriter _
  gesture-KeepsWriter toggle_vi_mode = change_render-KeepsWriter _
  gesture-KeepsWriter (selection_start col row kind) = change_render-KeepsWriter _
  gesture-KeepsWriter (selection_extend col row) = change_render-KeepsWriter _
  gesture-KeepsWriter (vi_motion kind) = change_render-KeepsWriter _

  pub resize-KeepsWriter :
      (answer : Option RataError) (cols rows : ℕ) → KeepsWriter (Calls.resize em answer cols rows)
  unfolding Calls.resize
  resize-KeepsWriter answer cols rows s t reply es e =
      let after = record s { term = Term.resize em s.term cols rows } in
      let sent : Session E → Option (List Bytes) = λ x. x.writer in
      elim (Option-cases s.pty) [
        | inl n ↦ let f = rw n at e in let same : after ≡ t = cc in ap sent (sym same)
        | inr (pid, p) ↦ let f = rw p at e in let same : after ≡ t = cc in ap sent (sym same)
      ]

  answers-dispatch_events :
      (cbs : Callbacks) (events : List Event) → (dispatch_events cbs events).1 ≡ answers_of events
  unfolding dispatch_events dispatch_event answers_of
  answers-dispatch_events cbs [] = refl
  answers-dispatch_events cbs (title t ∷ events) = answers-dispatch_events cbs events
  answers-dispatch_events cbs (reset_title ∷ events) = answers-dispatch_events cbs events
  answers-dispatch_events cbs (bell ∷ events) = answers-dispatch_events cbs events
  answers-dispatch_events cbs (clipboard_store t ∷ events) = answers-dispatch_events cbs events
  answers-dispatch_events cbs (pty_write t ∷ events) =
      ap (◌∷◌ t) (answers-dispatch_events cbs events)
  answers-dispatch_events cbs (other ∷ events) = answers-dispatch_events cbs events

  advance_all-events :
      (chunks : List Bytes) (t : TermHost E)
      → (Calls.advance_all em t chunks).queue ≡ t.queue ++ events_of t.term chunks
  unfolding Calls.advance_all Term.advance events_of
  advance_all-events [] t = sym (append_nil t.queue)
  advance_all-events (c ∷ chunks) t =
      advance_all-events chunks (Term.advance em t c)
      ∙ append_assoc t.queue (em.advance t.term c).1 (events_of (em.advance t.term c).0 chunks)

  send-behind : (q : Option (List Bytes)) (texts : List Bytes) → Calls.send q texts ≡ behind q texts
  send-behind none texts = refl
  send-behind (some sent) texts = refl

  pub take_in-posted :
      (chunks : List Bytes) (s : Session E)
      → (Calls.take_in em chunks s).0.writer ≡ behind s.writer (posted s (pump_round chunks))
  unfolding Calls.take_in Term.drain_events
  take_in-posted chunks s =
      send-behind s.writer _
      ∙ ap (behind s.writer) (answers-dispatch_events s.callbacks _)
      ∙ ap (λ events. behind s.writer (answers_of events)) (advance_all-events chunks s.term)

  pub send_bytes-posted :
      (bytes : Bytes) (s t : Session E) (reply : Reply (Unit {0})) (es : List Effect)
      → Calls.send_bytes em bytes s ≡ some (reply, t, es)
      → t.writer ≡ behind s.writer (unless_empty bytes)
  unfolding Calls.send_bytes
  send_bytes-posted [] s t reply es e =
      let same : s ≡ t = cc in ap (λ (x : Session E). x.writer) (sym same) ∙ behind-nil s.writer
  send_bytes-posted (b ∷ bytes) s t reply es e = elim (Option-cases s.writer) [
    | inl n ↦
        let f = rw n at e in
        let same : s ≡ t = cc in
        ap (λ (x : Session E). x.writer) (sym same)
        ∙ n
        ∙ sym (ap (λ q. behind q (unless_empty (b ∷ bytes))) n)
    | inr (sent, w) ↦
        let f = rw w at e in
        let same : record s { writer = some (sent ++ (b ∷ bytes) ∷ []) } ≡ t = cc in
        ap (λ (x : Session E). x.writer) (sym same)
        ∙ sym (ap (λ q. behind q (unless_empty (b ∷ bytes))) w)
  ]

  cursor_meta-mode :
      (size : Size) (v : View) (m : SnapshotMeta)
      → cursor_meta size v ≡ some m
      → m.app_cursor_keys ≡ v.mode.app_cursor
  unfolding cursor_meta
  cursor_meta-mode size v m e =
      let (x, f, g) = bind-some (clamp_below size.cols (pos v.cursor_column)) _ _ e in
      let (y, h, k) =
        bind-some (clamp_below size.lines (v.cursor_line +ℤ pos v.display_offset)) _ _ g in
      cc

  snapshot-mode :
      (t t' : TermHost E) (cells : List HostCell) (meta : SnapshotMeta)
      → snapshot em t ≡ some (t', cells, meta)
      → (meta.app_cursor_keys ≡ (em.view t.term).mode.app_cursor) × (t'.term ≡ t.term)
  unfolding snapshot
  snapshot-mode t t' cells meta e =
      let (m, f, g) = bind-some (cursor_meta t.size (em.view t.term)) _ _ e in
      let same : m ≡ meta = cc in
      let kept : record t { hyperlinks = t'.hyperlinks } ≡ t' = cc in
      (
        ap (λ (x : SnapshotMeta). x.app_cursor_keys) (sym same)
            ∙ cursor_meta-mode t.size (em.view t.term) m f,
        ap (λ (x : TermHost E). x.term) (sym kept),
      )

  pub send_key-posted :
      (vk mods : ℕ) (s t : Session E) (reply : Reply (Unit {0})) (es : List Effect)
      → Calls.send_key em vk mods s ≡ some (reply, t, es)
      → t.writer ≡ behind s.writer (posted s (send_key vk mods))
  unfolding Calls.send_key
  send_key-posted vk mods s t reply es e =
      let ((u, cells, meta), f, g) = bind-some (snapshot em s.term) _ _ e in
      send_bytes-posted (encode vk mods meta.app_cursor_keys) (record s { term = u }) t reply es g
      ∙ ap (λ mode. behind s.writer (unless_empty (encode vk mods mode)))
          (snapshot-mode s.term u cells meta f).0
