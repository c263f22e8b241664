-- ===== src/Tests/Listener.antt =====
-- Two terminals whose events are sent and drained by turns.
use scshell.Base.{ℕ, List, [], ◌∷◌, ◌++◌, ◌≡◌, refl}
use scshell.Listener.{Sinks, creates, drains, sends, SinkOp, listener_new, run_sinks}
use scshell.Listener.Delivered.{from_sink, each_event_once}

abbrev no_events : Sinks ℕ
no_events _ = []

abbrev by_turns : List (SinkOp ℕ)
by_turns =
    sends (listener_new 1) 10
    ∷ creates 2
    ∷ sends (listener_new 2) 20
    ∷ drains 1
    ∷ sends (listener_new 1) 11
    ∷ sends (listener_new 1) 12
    ∷ drains 2
    ∷ []

drained_once : (run_sinks by_turns no_events).0 ≡ (1, 10) ∷ (2, 20) ∷ []
unfolding run_sinks scshell.Listener.send_event scshell.Listener.drain scshell.Listener.new_sink
drained_once = refl

each_event_once_example :
    from_sink 1 (run_sinks by_turns no_events).0 ++ (run_sinks by_turns no_events).1 1
    ≡ 10 ∷ 11 ∷ 12 ∷ []
each_event_once_example =
    each_event_once 1 by_turns no_events (tt, (λ e. cc, (tt, (tt, (tt, (tt, (tt, tt)))))))
