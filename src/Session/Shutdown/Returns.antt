-- ===== src/Session/Shutdown/Returns.antt =====
-- A drop that comes to its end.
use scshell.Base.{ℕ, ◌+◌, ◌≤◌, ◌≡◌, ◌⊎◌, refl, ap, length, arith}
use scshell.Session.Shutdown.Work.{dropper_work}
use scshell.Session.Shutdown.{Setting, freed, Shutdown, DropRun, at_once, longer, IsCalled, to_send}
use scshell.Session.Shutdown.Work.{work, run-work}
use scshell.Session.Shutdown.Room.{to_nudge}
use scshell.Session.Shutdown.Progress.{CanEnd, CanStep, Inv, step-Inv, progress}

start-Inv :
    (c : Setting) {s : Shutdown}
    → IsCalled c s
    → length s.channel + to_send s.reader s.output + 1 ≤ c.capacity
    → CanEnd c s
    → Inv c s
start-Inv c {s} called fits end = record {
  order = record {
    low = λ h. absurd (omega (arith, h, ap dropper_work called.at_start));
    dead = λ h. absurd (omega (arith, h, ap dropper_work called.at_start));
    told = λ h w. absurd (omega (arith, h, ap dropper_work called.at_start));
    taken = λ h. absurd (omega (arith, h, ap dropper_work called.at_start));
  };
  threads_inv = record {
    pump_calls = called.by_pump.0;
    watcher_calls = called.by_watcher.0;
    pump_rests = λ h e. cc (called.by_pump.1 h, e);
    watcher_rests = λ h e. cc (called.by_watcher.1 h, e);
    pump_over = λ h. absurd (omega (arith, h, ap dropper_work called.at_start));
    watcher_over = λ h. absurd (omega (arith, h, ap dropper_work called.at_start));
  };
  messages_inv = record {
    room = omega (arith, fits, ap to_nudge called.at_start);
    woken = λ h w. absurd (omega (arith, h, ap dropper_work called.at_start));
  };
  can_end = end;
}

run-Inv : (c : Setting) {s : Shutdown} {n : ℕ} {t : Shutdown} → DropRun c s n t → Inv c s → Inv c t
run-Inv c at_once k = k
run-Inv c (longer r st) k = step-Inv c st (run-Inv c r k)

-- A drop of a session that was started once, in every interleaving of its threads, where the channel of the
-- reader has room for what the reader has still to send and for one message more, and where a thread of the
-- host drops, or the console closes its end of the pipe with the child, or the reader is over already: no
-- run takes more than `work` steps, and each is at the end of `drop` or can go on.
pub drop_returns :
    (c : Setting) {s t : Shutdown} {n : ℕ}
    → IsCalled c s
    → length s.channel + to_send s.reader s.output + 1 ≤ c.capacity
    → CanEnd c s
    → DropRun c s n t
    → (n ≤ work c.answers s) × ((t.dropper ≡ freed) ⊎ CanStep c t)
drop_returns c {s} {t} called fits end r = (
  omega (arith, run-work c r),
  progress c t t.dropper (run-Inv c r (start-Inv c called fits end)) refl,
)
