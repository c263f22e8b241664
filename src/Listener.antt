-- ===== src/Listener.antt =====
-- rata_shell/src/listener.rs: the queue between the emulator, which sends events under the lock of the terminal,
-- and the pump, which drains them. A terminal and the listener of its emulator share one sink.
pub mod Delivered
pub mod Terminal
use scshell.Base.{ℕ, List, [], ◌∷◌, ◌++◌, map}
use scshell.Session.Family.{update}

-- The sinks of the process, by the address behind their `Arc`.
abbrev pub Sinks : Type 0 → Type 0
Sinks A = ℕ → List A

-- `EventSink::new`
unfoldable pub new_sink : {A : Type 0} → (address : ℕ) → Sinks A → Sinks A
new_sink address sinks = update sinks address []

-- `EventSink::drain`: what was queued, and the queue that stays.
unfoldable pub drain : {A : Type 0} → (address : ℕ) → Sinks A → List A × Sinks A
drain address sinks = (sinks address, update sinks address [])

-- `HostListener`; a clone has the same sink.
pub record HostListener : Type 0 where
  pub sink : ℕ

abbrev pub listener_new : ℕ → HostListener
listener_new address = record { sink = address }

unfoldable pub send_event : {A : Type 0} → HostListener → A → Sinks A → Sinks A
send_event listener event sinks = update sinks listener.sink (sinks listener.sink ++ event ∷ [])

-- What the threads do with the sinks, one at a time under the lock of each queue.
pub data SinkOp (A : Type 0) : Type 0 where
  creates drains : (address : ℕ) → SinkOp A
  sends : HostListener → (event : A) → SinkOp A

-- The sinks after a sequence, and each drained event with the sink that it was in.
unfoldable pub run_sinks : {A : Type 0} → List (SinkOp A) → Sinks A → List (ℕ × A) × Sinks A
unfolding new_sink drain send_event
run_sinks [] sinks = ([], sinks)
run_sinks (creates i ∷ ops) sinks = run_sinks ops (new_sink i sinks)
run_sinks (sends listener event ∷ ops) sinks = run_sinks ops (send_event listener event sinks)
run_sinks (drains i ∷ ops) sinks =
    let (events, after) = drain i sinks in
    let (more, last) = run_sinks ops after in (map (λ e. (i, e)) events ++ more, last)
