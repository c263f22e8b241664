-- ===== src/Tests/Shutdown.antt =====
-- Four drops of a session: one from a thread of the host, one in a callback on the watcher, one that finds
-- the channel full, and one whose reader has more to send than there is room for.
use scshell.Base.{◌≤◌, ◌≡◌, ◌≢◌, ◌⊎◌, inl, inr, true, false, [], ◌∷◌, refl, arith}
use scshell.Session.Pump.{bytes}
use scshell.Session.Shutdown.{
  told_writer, ended, Setting, Caller, outside, on_watcher, begun, killed, freed, reading, working,
  calling, Shutdown, lowers, terminates, nudges, tells_writer, joins_writer, releases, joins_pump,
  joins_watcher, reads, sends, takes_bytes, takes_eof, stops_writing, DropRun, at_once, longer,
  nudge, after_send, IsCalled, to_send,
}
use scshell.Session.Shutdown.Work.{work}
use scshell.Session.Shutdown.Progress.{CanStep}
use scshell.Session.Shutdown.Returns.{drop_returns}
use scshell.Session.Shutdown.Backlog.{backlog_hangs}
use scshell.Session.Shutdown.Hangs.{drop_in_callback_hangs, full_channel_hangs}

abbrev setting : Caller → Setting
setting caller = record { capacity = 4; ends_itself = false; answers = 1; caller = caller }

-- One buffer is still in the pipe.
abbrev at_work : Shutdown
at_work = record {
  dropper = begun;
  alive = true;
  child_runs = true;
  kept = true;
  output = (65 ∷ []) ∷ [];
  reader = reading;
  channel = [];
  pump = working;
  watcher = working;
  inputs = [];
  writing = true;
}

abbrev exit_told : Shutdown
exit_told = record at_work { alive = false; child_runs = false; watcher = calling }

abbrev flooded : Shutdown
flooded = record at_work {
  dropper = killed;
  alive = false;
  child_runs = false;
  output = [];
  channel = bytes (65 ∷ []) ∷ bytes (66 ∷ []) ∷ bytes (67 ∷ []) ∷ bytes (68 ∷ []) ∷ [];
}

at_work-IsCalled : IsCalled (setting outside) at_work
at_work-IsCalled = record {
  at_start = refl;
  by_pump = (λ h. cc, λ h. cc);
  by_watcher = (λ h. cc, λ h. cc);
}

exit_told-IsCalled : IsCalled (setting on_watcher) exit_told
exit_told-IsCalled = record {
  at_start = refl;
  by_pump = (λ h. cc, λ h. cc);
  by_watcher = (λ h. refl, λ h. refl);
}

-- The drop goes as far as the join of the pump, which still has to draw the buffer.
abbrev up_to_joins : (t : Shutdown) × DropRun (setting outside) at_work 8 t
unfolding nudge
up_to_joins = (
  _,
  longer
      (longer
        (longer
          (longer
            (longer
              (longer (longer (longer at_once (lowers refl)) (terminates refl))
                (reads _ _ refl refl))
              (sends _ refl (omega arith)))
            (nudges refl))
          (tells_writer refl))
        (stops_writing _ refl refl))
      (joins_writer refl refl),
)

-- The pump is over, the output is read, and the watcher waits for the reader: no step is left.
abbrev in_deadlock : (t : Shutdown) × DropRun (setting on_watcher) exit_told 13 t
unfolding nudge after_send
in_deadlock =
    let reader_waits = longer (longer at_once (reads _ _ refl refl)) (sends _ refl (omega arith)) in
    let nudged_pump =
      longer (longer (longer reader_waits (lowers refl)) (terminates refl)) (nudges refl) in
    let pump_over =
      longer (longer nudged_pump (takes_bytes _ _ [] refl refl (omega arith)))
        (takes_eof _ refl refl) in
    let no_writer =
      longer (longer (longer pump_over (tells_writer refl)) (stops_writing _ refl refl))
        (joins_writer refl refl) in
    (
      _,
      longer (longer (longer no_writer (releases refl)) (joins_pump refl (inl refl)))
          (joins_watcher refl (inr refl)),
    )

abbrev overrun : (t : Shutdown) × DropRun (setting outside) (nudge (setting outside) flooded) 1 t
unfolding nudge
overrun = (_, longer at_once (tells_writer refl))

drop_returns_example :
    (8 ≤ work 1 at_work)
    × ((up_to_joins.0.dropper ≡ freed) ⊎ CanStep (setting outside) up_to_joins.0)
unfolding nudge to_send
drop_returns_example =
    drop_returns (setting outside) at_work-IsCalled (omega arith) (inl refl) up_to_joins.1

drop_in_callback_hangs_example : (13 ≤ work 1 exit_told) × (in_deadlock.0.dropper ≢ freed)
unfolding nudge to_send
drop_in_callback_hangs_example =
    drop_in_callback_hangs (setting on_watcher) exit_told-IsCalled (λ h. cc) refl refl in_deadlock.1

full_channel_hangs_example :
    (1 ≤ work 1 (nudge (setting outside) flooded)) × (overrun.0.dropper ≢ freed)
unfolding nudge to_send
full_channel_hangs_example =
    full_channel_hangs (setting outside) flooded refl refl (omega arith) refl refl refl overrun.1

-- The pump has taken the `Eof` of the drop, and five buffers are still in the pipe.
abbrev behind : Shutdown
behind = record at_work {
  dropper = told_writer;
  alive = false;
  child_runs = false;
  pump = ended;
  output = (65 ∷ []) ∷ (66 ∷ []) ∷ (67 ∷ []) ∷ (68 ∷ []) ∷ (69 ∷ []) ∷ [];
}

abbrev one_read : (t : Shutdown) × DropRun (setting outside) behind 1 t
one_read = (_, longer at_once (reads _ _ refl refl))

backlog_hangs_example : (1 ≤ work 1 behind) × (one_read.0.dropper ≢ freed)
unfolding to_send
backlog_hangs_example =
    backlog_hangs (setting outside) behind (λ h. cc) refl (omega arith) (omega arith) one_read.1
