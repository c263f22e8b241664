-- ===== src/Session/Shutdown/Hangs.antt =====
-- A drop that waits for ever.
use scshell.Base.{ℕ, ◌≤◌, true, false, List, ◌≡◌, ◌≢◌, refl, length, arith}
use scshell.Session.Pump.{Message, eof}
use scshell.Session.Shutdown.{
  Setting, Caller, outside, on_pump, on_watcher, killed, freed, working, Shutdown, DropRun,
  try_send, nudge, IsCalled, Caller,
}
use scshell.Session.Shutdown.Work.{work, run-work}
use scshell.Session.Shutdown.Room.{has_eof}
use scshell.Session.Shutdown.Work.{work, run-work}
use scshell.Session.Shutdown.Stuck.{
  still_reads, Keeper, pump_calls, watcher_calls, pump_waits, run-IsStuck,
}

caller-Keeper :
    (c : Setting) (s : Shutdown) (caller : Caller)
    → c.caller ≡ caller
    → caller ≢ outside
    → IsCalled c s
    → Keeper s.dropper s.channel s.pump s.watcher
caller-Keeper c s outside e inside called = absurd (inside refl)
caller-Keeper c s on_pump e inside called = pump_calls (called.by_pump.1 e)
caller-Keeper c s on_watcher e inside called = watcher_calls (called.by_watcher.1 e)

-- Where the console does not close its end of the pipe by itself, a session that the host drops in a
-- callback, on the pump or on the watcher, while the reader has not met the end of the output: in every
-- interleaving, `drop` waits for ever.
pub drop_in_callback_hangs :
    (c : Setting) {s t : Shutdown} {n : ℕ}
    → IsCalled c s
    → c.caller ≢ outside
    → c.ends_itself ≡ false
    → still_reads s.reader ≡ true
    → DropRun c s n t
    → (n ≤ work c.answers s) × (t.dropper ≢ freed)
drop_in_callback_hangs c {s} called inside open_end reader_on r = (
  omega (arith, run-work c r),
  (run-IsStuck c open_end r (record {
    reads_on = reader_on;
    keeper = caller-Keeper c s c.caller refl inside called;
    not_freed = λ h. cc (h, called.at_start);
  })).not_freed,
)

lost_nudge :
    (n : ℕ) (q : List Message)
    → n ≤ length q
    → has_eof q ≡ false
    → has_eof (try_send n eof q) ≡ false
unfolding try_send
lost_nudge n q full none_yet = ground (arith, full, none_yet)

-- Where the console does not close its end of the pipe by itself, a drop that finds the channel of the
-- reader full of buffers, with the pump at work and the reader not at the end of the output: the `Eof` for
-- the pump is lost, and in every interleaving `drop` waits for ever.
pub full_channel_hangs :
    (c : Setting) (s : Shutdown) {t : Shutdown} {n : ℕ}
    → s.dropper ≡ killed
    → s.pump ≡ working
    → c.capacity ≤ length s.channel
    → has_eof s.channel ≡ false
    → still_reads s.reader ≡ true
    → c.ends_itself ≡ false
    → DropRun c (nudge c s) n t
    → (n ≤ work c.answers (nudge c s)) × (t.dropper ≢ freed)
unfolding nudge
full_channel_hangs c s e at_work full none_yet reader_on open_end r = (
  omega (arith, run-work c r),
  (run-IsStuck c open_end r (record {
    reads_on = reader_on;
    keeper = pump_waits at_work (lost_nudge c.capacity s.channel full none_yet) (omega arith);
    not_freed = λ h. cc;
  })).not_freed,
)
