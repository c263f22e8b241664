-- ===== src/Listener/Terminal.antt =====
-- rata_shell/src/term.rs: the events of a terminal, from its emulator to the callers of `drain_events`.
use scshell.Base.{List, [], ◌∷◌, ◌++◌, Bytes, ◌≡◌, refl, sym, ap, ◌∙◌, append_nil, append_assoc}
use scshell.Listener.Delivered.{update_here}
use scshell.Listener.{Sinks, HostListener, send_event}
use scshell.Term.{Emulator, TermHost, Event, advance, drain_events}
use scshell.Term.Gestures.{reset_state}

-- The calls that send or drain events.
pub data EventCall : Type 0 where
  feeds : Bytes → EventCall
  resets drains_events : EventCall

module _ {E : Type 0} (em : Emulator E) where
  -- The drained events, and the terminal after the calls.
  unfoldable pub run_events : List EventCall → TermHost E → List Event × TermHost E
  run_events [] t = ([], t)
  run_events (feeds bytes ∷ calls) t = run_events calls (advance em t bytes)
  run_events (resets ∷ calls) t = run_events calls (reset_state em t)
  run_events (drains_events ∷ calls) t =
      let (t', events) = drain_events em t in
      let (more, last) = run_events calls t' in (events ++ more, last)

  -- What the emulator alone sends for the same bytes.
  unfoldable pub emitted : List EventCall → E → List Event
  emitted [] e = []
  emitted (feeds bytes ∷ calls) e =
      let (e', events) = em.advance e bytes in events ++ emitted calls e'
  emitted (resets ∷ calls) e =
      let (e', events) = em.advance e (0x1b ∷ b'c' ∷ []) in events ++ emitted calls e'
  emitted (drains_events ∷ calls) e = emitted calls e

  -- In every sequence of outputs, resets and drains: the events that the drains have handed out, and then
  -- those that are still queued, are those that were queued at first, and then all that the emulator has
  -- sent, each once and in order.
  pub run_events-emitted :
      (calls : List EventCall) (t : TermHost E)
      → (run_events calls t).0 ++ (run_events calls t).1.queue ≡ t.queue ++ emitted calls t.term
  unfolding run_events emitted advance reset_state drain_events
  run_events-emitted [] t = sym (append_nil t.queue)
  run_events-emitted (feeds bytes ∷ calls) t =
      run_events-emitted calls (advance em t bytes) ∙ append_assoc t.queue _ _
  run_events-emitted (resets ∷ calls) t =
      run_events-emitted calls (reset_state em t) ∙ append_assoc t.queue _ _
  run_events-emitted (drains_events ∷ calls) t =
      append_assoc t.queue _ _
      ∙ ap (λ l. t.queue ++ l) (run_events-emitted calls (drain_events em t).0)

-- The emulator sends its events one by one, and the queue of the terminal is its sink: this is what
-- `advance` and `reset_state` append.
pub send_events : {A : Type 0} → HostListener → List A → Sinks A → Sinks A
unfolding send_event
send_events listener [] sinks = sinks
send_events listener (e ∷ events) sinks = send_events listener events (send_event listener e sinks)

send_events-queue :
    {A : Type 0} (listener : HostListener) (events : List A) (sinks : Sinks A)
    → send_events listener events sinks listener.sink ≡ sinks listener.sink ++ events
unfolding send_events send_event
send_events-queue listener [] sinks = sym (append_nil (sinks listener.sink))
send_events-queue listener (e ∷ events) sinks =
    send_events-queue listener events (send_event listener e sinks)
    ∙ ap (λ q. q ++ events) (update_here listener.sink sinks listener.sink _ refl)
    ∙ append_assoc (sinks listener.sink) (e ∷ []) events

pub advance-send_events :
    {E : Type 0} (em : Emulator E) (t : TermHost E) (bytes : Bytes) (listener : HostListener)
    (sinks : Sinks Event)
    → sinks listener.sink ≡ t.queue
    → (advance em t bytes).queue
      ≡ send_events listener (em.advance t.term bytes).1 sinks listener.sink
unfolding advance
advance-send_events em t bytes listener sinks shared =
    ap (λ q. q ++ (em.advance t.term bytes).1) (sym shared)
    ∙ sym (send_events-queue listener (em.advance t.term bytes).1 sinks)
