-- ===== src/Io/Wire.antt =====
-- What a run of requests has sent to the writer is what the requests were to post.
use scshell.Base.{
  ℕ, true, false, Bool-cases, inl, inr, List, [], ◌∷◌, Option, none, some, ◌≡◌, refl, sym, ap, ◌∙◌,
  Bytes, ℤ, bind-some,
}
use scshell.Env.{Str}
use scshell.Error.{RataError}
use scshell.Term.{Emulator}
use scshell.Term.Search as Search
use scshell.Session.Calls.{
  Callbacks, Session, Effect, Reply, ok, err, Action, dispatch_event, dispatch_events,
}
use scshell.Session.Calls as Calls
use scshell.Session.Calls.Requests.{
  Request, gesture, request_render, terminate, set_callbacks, set_clipboard_callback, start, resize,
  send_bytes, send_key, search_next, pump_round, pump_end, perform, run,
}
use scshell.Io.Posted.{
  behind, behind-nil, posted, channel, wire, KeepsWriter, request_render-KeepsWriter,
  gesture-KeepsWriter, resize-KeepsWriter, take_in-posted, send_bytes-posted, send_key-posted,
}

module _ {E : Type 0} (em : Emulator E) where
  started-channel :
      (vars : List (Str × Str)) (spawned : Reply ℕ) (reader wrote : Option RataError)
      (s : Session E)
      → s.alive ≡ false
      → (Calls.started s spawned reader wrote).1.writer
        ≡ channel em s (start vars spawned reader wrote) s.writer
  unfolding Calls.started
  started-channel vars (err e) reader wrote s a = behind-nil s.writer
  started-channel vars (ok pid) (some e) wrote s a = behind-nil s.writer
  started-channel vars (ok pid) none (some e) s a = behind-nil s.writer
  started-channel vars (ok pid) none none s a = rw a refl

  alive-channel :
      (vars : List (Str × Str)) (spawned : Reply ℕ) (reader wrote : Option RataError)
      (s : Session E)
      → s.alive ≡ true
      → s.writer ≡ channel em s (start vars spawned reader wrote) s.writer
  alive-channel vars (err e) reader wrote s a = behind-nil s.writer
  alive-channel vars (ok pid) (some e) wrote s a = behind-nil s.writer
  alive-channel vars (ok pid) none (some e) s a = behind-nil s.writer
  alive-channel vars (ok pid) none none s a = rw a refl

  start-channel :
      (vars : List (Str × Str)) (spawned : Reply ℕ) (reader wrote : Option RataError)
      (s t : Session E) (reply : Reply (Unit {0})) (es : List Effect)
      → Calls.start em vars spawned reader wrote s ≡ some (reply, t, es)
      → t.writer ≡ channel em s (start vars spawned reader wrote) s.writer
  unfolding Calls.start
  start-channel vars spawned reader wrote s t reply es e =
      let sent : Session E → Option (List Bytes) = λ x. x.writer in
      elim (Bool-cases s.alive) [
        | inl a ↦
            let f = rw a at e in
            let same : s ≡ t = cc in
            ap sent (sym same) ∙ alive-channel vars spawned reader wrote s a
        | inr a ↦
            let f = rw a at e in
            let same : (Calls.started s spawned reader wrote).1 ≡ t = cc in
            ap sent (sym same) ∙ started-channel vars spawned reader wrote s a
      ]

  pump_round-posted :
      (chunks : List Bytes) (s t : Session E) (reply : Reply (Unit {0})) (es : List Effect)
      → Calls.pump_round em chunks s ≡ some (reply, t, es)
      → t.writer ≡ behind s.writer (posted em s (pump_round chunks))
  unfolding Calls.pump_round
  pump_round-posted chunks s t reply es e =
      let first = (Calls.take_in em chunks s).0 in
      let ((r, u, frame), f, g) = bind-some (Calls.request_render em first) _ _ e in
      let same : u ≡ t = cc in
      ap (λ (x : Session E). x.writer) (sym same)
      ∙ request_render-KeepsWriter em first u r frame f
      ∙ take_in-posted em chunks s

  pump_end-KeepsWriter : (code : Option ℤ) → KeepsWriter em (Calls.pump_end em code)
  unfolding Calls.pump_end
  pump_end-KeepsWriter code s t reply es e =
      let ((r, u, frame), f, g) = bind-some (Calls.request_render em s) _ _ e in
      let same : record u { exit_code = Calls.or_pos_zero code; alive = false } ≡ t = cc in
      ap (λ (x : Session E). x.writer) (sym same) ∙ request_render-KeepsWriter em s u r frame f

  terminate-KeepsWriter : KeepsWriter em (Calls.terminate em)
  unfolding Calls.terminate
  terminate-KeepsWriter s t reply es e =
      let same : s ≡ t = cc in ap (λ (x : Session E). x.writer) (sym same)

  perform-channel :
      (r : Request) (s t : Session E) (reply : Reply (Unit {0})) (es : List Effect)
      → perform em r s ≡ some (reply, t, es)
      → t.writer ≡ channel em s r s.writer
  perform-channel (gesture g) s t reply es e =
      gesture-KeepsWriter em g s t reply es e ∙ behind-nil s.writer
  perform-channel request_render s t reply es e =
      request_render-KeepsWriter em s t reply es e ∙ behind-nil s.writer
  perform-channel terminate s t reply es e =
      terminate-KeepsWriter s t reply es e ∙ behind-nil s.writer
  perform-channel (set_callbacks cbs) s t reply es e =
      let same : Calls.set_callbacks em cbs s ≡ t = cc in
      ap (λ (x : Session E). x.writer) (sym same) ∙ behind-nil s.writer
  perform-channel (set_clipboard_callback cb) s t reply es e =
      let same : Calls.set_clipboard_callback em cb s ≡ t = cc in
      ap (λ (x : Session E). x.writer) (sym same) ∙ behind-nil s.writer
  perform-channel (start vars spawned reader wrote) s t reply es e =
      start-channel vars spawned reader wrote s t reply es e
  perform-channel (resize answer cols rows) s t reply es e =
      resize-KeepsWriter em answer cols rows s t reply es e ∙ behind-nil s.writer
  perform-channel (send_bytes bytes) s t reply es e = send_bytes-posted em bytes s t reply es e
  perform-channel (send_key vk mods) s t reply es e = send_key-posted em vk mods s t reply es e
  perform-channel (search_next pattern forward) s t reply es e =
      let same : record s { term = (Search.search_next em s.term pattern forward).0 } ≡ t = cc in
      ap (λ (x : Session E). x.writer) (sym same) ∙ behind-nil s.writer
  perform-channel (pump_round chunks) s t reply es e = pump_round-posted chunks s t reply es e
  perform-channel (pump_end code) s t reply es e =
      pump_end-KeepsWriter code s t reply es e ∙ behind-nil s.writer

  wire-next :
      (r : Request) (rs : List Request) (s u : Session E) (reply : Reply (Unit {0}))
      (first : List Effect) (q : Option (List Bytes))
      → perform em r s ≡ some (reply, u, first)
      → wire em rs u (channel em s r q) ≡ wire em (r ∷ rs) s q
  unfolding wire
  wire-next r rs s u reply first q f = rw (wire, f) refl

  -- What the writer has been sent is what the requests were to post.
  pub run-wire :
      (rs : List Request) (s t : Session E) (es : List Effect)
      → run em rs s ≡ some (t, es)
      → t.writer ≡ wire em rs s s.writer
  unfolding run wire
  run-wire [] s t es e = let same : s ≡ t = cc in ap (λ (x : Session E). x.writer) (sym same)
  run-wire (r ∷ rs) s t es e =
      let ((reply, u, first), f, g) = bind-some (perform em r s) _ _ e in
      let ((w, more), h, k) = bind-some (run em rs u) _ _ g in
      let same : w ≡ t = cc in
      ap (λ (x : Session E). x.writer) (sym same)
      ∙ run-wire rs u w more h
      ∙ ap (wire em rs u) (perform-channel r s u reply first f)
      ∙ wire-next r rs s u reply first s.writer f
