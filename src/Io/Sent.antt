-- ===== src/Io/Sent.antt =====
-- What the methods of a session and the pump send to the writer.
use scshell.Base.{
  ℕ, false, Bool-cases, Option-cases, inl, inr, List, [], ◌∷◌, ◌++◌, Option, none, some, ◌≡◌, refl,
  sym, ap, subst, ◌∙◌, Bytes, All, All-append, ℤ, bind-some,
}
use scshell.Cell.{HostCell}
use scshell.Backend.{HostBackend, next_frame}
use scshell.Keymap.{encode}
use scshell.Term.{Emulator, TermHost, Event, ViMotion, SnapshotMeta, cursor_meta, snapshot}
use scshell.Term as Term
use scshell.Term.Gestures as Gestures
use scshell.Term.Render.{RenderSnapshot, render}
use scshell.Session.Calls.{
  Callbacks, SpawnOptions, Session, Effect, Reply, ok, err, Action, dispatch_events,
}
use scshell.Session.Calls as Calls
use scshell.Session.Calls.Requests.{
  Gesture, scroll, scroll_to_top, scroll_to_bottom, clear_history, reset_state, selection_clear,
  toggle_vi_mode, selection_start, selection_extend, vi_motion, perform_gesture,
}
use scshell.Io.Delivered.{IsChunk}
use scshell.Io.Written.{IsAnswer, AnswerLaw, dispatch_events-answers}

module _ {E : Type 0} (em : Emulator E) where
  -- Neither an answer nor a message is empty.
  pub record IsTidy (s : Session E) : Type 0 where
    pub queued : All IsAnswer s.term.queue
    pub sent : (messages : List Bytes) → s.writer ≡ some messages → All IsChunk messages

  snapshot-queue :
      (t t' : TermHost E) (cells : List HostCell) (meta : SnapshotMeta)
      → snapshot em t ≡ some (t', cells, meta)
      → t'.queue ≡ t.queue
  unfolding snapshot
  snapshot-queue t t' cells meta e =
      let (m, f, g) = bind-some (cursor_meta t.size (em.view t.term)) _ _ e in cc

  render-queue :
      (b b' : HostBackend) (t t' : TermHost E) (snap : RenderSnapshot)
      → render em b t ≡ some (b', t', snap)
      → t'.queue ≡ t.queue
  unfolding render
  render-queue b b' t t' snap e =
      let ((u, cells, meta), f, g) = bind-some (snapshot em t) _ _ e in
      let ((dirty, c), h, k) = bind-some (next_frame b meta.cols meta.rows cells) _ _ g in
      let same : u ≡ t' = cc in
      ap (λ (x : TermHost E). x.queue) (sym same) ∙ snapshot-queue t u cells meta f

  -- After a method the session is still tidy.
  abbrev pub KeepsTidy : {A : Type 0} → Action E A → Type 0
  KeepsTidy {A} act =
      (s t : Session E) (reply : Reply A) (es : List Effect)
      → IsTidy s
      → act s ≡ some (reply, t, es)
      → IsTidy t

  -- Another terminal with answers of its own.
  pub IsTidy-term :
      (s : Session E) (t : TermHost E)
      → All IsAnswer t.queue
      → IsTidy s
      → IsTidy (record s { term = t })
  IsTidy-term s t q v = record { queued = q; sent = v.sent }

  pub request_render-KeepsTidy : KeepsTidy (Calls.request_render em)
  unfolding Calls.request_render
  request_render-KeepsTidy s t reply es v e =
      let ((b, u, snap), f, g) = bind-some (render em s.backend s.term) _ _ e in
      let same : record s { backend = b; term = u } ≡ t = cc in
      let q = render-queue s.backend b s.term u snap f in
      subst IsTidy same (record { queued = rw q v.queued; sent = v.sent })

  pub change_render-KeepsTidy :
      (f : TermHost E → TermHost E)
      → ((u : TermHost E) → All IsAnswer u.queue → All IsAnswer (f u).queue)
      → KeepsTidy (Calls.change_render em f)
  change_render-KeepsTidy f q s t reply es v e =
      request_render-KeepsTidy (record s { term = f s.term }) t reply es
        (IsTidy-term s (f s.term) (q s.term v.queued) v) e

  follow-queue : (m : Option ViMotion) (u : TermHost E) → (Gestures.follow em u m).queue ≡ u.queue
  unfolding Gestures.follow
  follow-queue none u = refl
  follow-queue (some m) u = refl

  module _ (law : AnswerLaw em) where
    pub gesture-KeepsTidy : (g : Gesture) → KeepsTidy (perform_gesture em g)
    unfolding Gestures.scroll_display Gestures.scroll_to_top Gestures.scroll_to_bottom
        Gestures.clear_history Gestures.reset_state Gestures.selection_clear Gestures.toggle_vi_mode
        Gestures.selection_start Gestures.selection_extend Gestures.vi_motion
    gesture-KeepsTidy (scroll lines) = change_render-KeepsTidy _ (λ u q. q)
    gesture-KeepsTidy scroll_to_top = change_render-KeepsTidy _ (λ u q. q)
    gesture-KeepsTidy scroll_to_bottom = change_render-KeepsTidy _ (λ u q. q)
    gesture-KeepsTidy clear_history = change_render-KeepsTidy _ (λ u q. q)
    gesture-KeepsTidy reset_state =
        change_render-KeepsTidy _
          (λ u q. All-append IsAnswer u.queue _ q (law.answers u.term (0x1b ∷ b'c' ∷ [])))
    gesture-KeepsTidy selection_clear = change_render-KeepsTidy _ (λ u q. q)
    gesture-KeepsTidy toggle_vi_mode = change_render-KeepsTidy _ (λ u q. q)
    gesture-KeepsTidy (selection_start col row kind) = change_render-KeepsTidy _ (λ u q. q)
    gesture-KeepsTidy (selection_extend col row) =
        change_render-KeepsTidy _
          (λ u q. elim (Bool-cases (em.view u.term).selecting) [ inl e ↦ rw e q | inr e ↦ rw e q ])
    gesture-KeepsTidy (vi_motion kind) =
        change_render-KeepsTidy _ (λ u q. rw (follow-queue (Gestures.motion_of kind) u) q)

    advance_all-queue :
        (chunks : List Bytes) (u : TermHost E)
        → All IsAnswer u.queue
        → All IsAnswer (Calls.advance_all em u chunks).queue
    unfolding Calls.advance_all Term.advance
    advance_all-queue [] u q = q
    advance_all-queue (buf ∷ chunks) u q =
        advance_all-queue chunks (Term.advance em u buf)
          (All-append IsAnswer u.queue _ q (law.answers u.term buf))

    pub send-tidy :
        (sent : Option (List Bytes)) (texts : List Bytes)
        → ((messages : List Bytes) → sent ≡ some messages → All IsChunk messages)
        → All IsChunk texts
        → (messages : List Bytes) → Calls.send sent texts ≡ some messages
        → All IsChunk messages
    send-tidy none texts h k messages e = cc
    send-tidy (some sent) texts h k messages e =
        let same : sent ++ texts ≡ messages = cc in
        subst (All IsChunk) same (All-append IsChunk sent texts (h sent refl) k)

    take_in-IsTidy :
        (chunks : List Bytes) (s : Session E) → IsTidy s → IsTidy (Calls.take_in em chunks s).0
    unfolding Calls.take_in Term.drain_events
    take_in-IsTidy chunks s v = record {
      queued = tt;
      sent =
          send-tidy s.writer _ v.sent
            (dispatch_events-answers s.callbacks _ (advance_all-queue chunks s.term v.queued));
    }

    pub pump_round-KeepsTidy : (chunks : List Bytes) → KeepsTidy (Calls.pump_round em chunks)
    unfolding Calls.pump_round
    pump_round-KeepsTidy chunks s t reply es v e =
        let first = (Calls.take_in em chunks s).0 in
        let ((r, u, frame), f, g) = bind-some (Calls.request_render em first) _ _ e in
        let same : u ≡ t = cc in
        subst IsTidy same (request_render-KeepsTidy first u r frame (take_in-IsTidy chunks s v) f)

    pub pump_end-KeepsTidy : (code : Option ℤ) → KeepsTidy (Calls.pump_end em code)
    unfolding Calls.pump_end
    pump_end-KeepsTidy code s t reply es v e =
        let ((r, u, frame), f, g) = bind-some (Calls.request_render em s) _ _ e in
        let kept = request_render-KeepsTidy s u r frame v f in
        let same : record u { exit_code = Calls.or_pos_zero code; alive = false } ≡ t = cc in
        subst IsTidy same (record { queued = kept.queued; sent = kept.sent })

    pub send_bytes-KeepsTidy : (bytes : Bytes) → KeepsTidy (Calls.send_bytes em bytes)
    unfolding Calls.send_bytes
    send_bytes-KeepsTidy [] s t reply es v e = let same : s ≡ t = cc in subst IsTidy same v
    send_bytes-KeepsTidy (b ∷ bytes) s t reply es v e = elim (Option-cases s.writer) [
      | inl n ↦ let f = rw n at e in let same : s ≡ t = cc in subst IsTidy same v
      | inr (sent, w) ↦
          let f = rw w at e in
          let same : record s { writer = some (sent ++ (b ∷ bytes) ∷ []) } ≡ t = cc in
          subst IsTidy same (record {
            queued = v.queued;
            sent = send-tidy (some sent) ((b ∷ bytes) ∷ []) (λ m p. v.sent m (w ∙ p)) (tt, tt);
          })
    ]

    pub send_key-KeepsTidy : (vk mods : ℕ) → KeepsTidy (Calls.send_key em vk mods)
    unfolding Calls.send_key
    send_key-KeepsTidy vk mods s t reply es v e =
        let ((u, cells, meta), f, g) = bind-some (snapshot em s.term) _ _ e in
        let q = snapshot-queue s.term u cells meta f in
        send_bytes-KeepsTidy (encode vk mods meta.app_cursor_keys) (record s { term = u }) t reply
          es (IsTidy-term s u (rw q v.queued) v) g
