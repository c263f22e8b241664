-- ===== src/Tests/Threads.antt =====
-- A session in which the child ends, the watcher tells the host, and the session is dropped.
use scshell.Base.{ℕ, ◌≤◌, true, false, [], ◌∷◌, none, ◌≡◌, refl, arith, length}
use scshell.Session.{
  State, idle, check, publish, start_pump, start_watcher, keeps_pump, child_ends, sees_eof,
  takes_code, polls, finds_exit, stores, wins, loses, fetches, calls, returns, lowers, clears,
  joins_pump, joins_watcher, was_ended, is_current, Reach, begin, later,
}
use scshell.Session.Pending.{pending}
use scshell.Session.Invariant.{on_exit_once}
use scshell.Session.Exact.{every_exit_reported}
use scshell.Session.Codes.{IsHonest, AllHonest, on_exit_code}
use scshell.Session.Drops.{Steps, here, next, no_call_after_drop}
use scshell.Session.Restart.{restart_told_twice}

-- The watcher is in the callback, and the pump has lost the race.
abbrev in_call : (s : State) × Reach true true s
in_call = (
  _,
  later
      (later
        (later
          (later
            (later
              (later
                (later
                  (later
                    (later
                      (later
                        (later
                          (later
                            (later
                              (later (later (later begin (check refl refl)) (publish 0 refl))
                                (start_pump 0 refl))
                              (start_watcher 0 refl))
                            (keeps_pump 0 refl))
                          (polls 1 refl refl))
                        (child_ends 0 3 refl))
                      (finds_exit 1 3 refl refl))
                    (stores 1 3 refl))
                  (wins 1 3 refl refl))
                (fetches 1 3 refl refl))
              (calls 1 3 refl))
            (sees_eof 0 refl))
          (takes_code 0 refl))
        (stores 0 3 refl))
      (loses 0 3 refl refl),
)

no_start : (g : ℕ) → in_call.0.starter g ≡ idle
no_start g = ground arith

abbrev told : (s : State) × Reach true true s
told = (_, later in_call.1 (returns 1 refl))

-- The host drops the session inside the callback.
abbrev dropped : (s : State) × Reach true true s
dropped = (
  _,
  later
      (later (later (later in_call.1 (lowers no_start refl)) (clears refl))
        (joins_pump refl was_ended))
      (joins_watcher refl is_current),
)

abbrev callback_returns : (s : State) × Steps true dropped.0 s
callback_returns = (_, next here (returns 1 refl))

told_log : told.0.log ≡ (0, 3) ∷ []
told_log = refl

on_exit_once_example : length told.0.log ≤ 1
on_exit_once_example = on_exit_once told.1 (omega arith)

none_pending : (t : ℕ) → pending (told.0.pc t) ≡ 0
none_pending t = ground arith

every_exit_reported_example : (g c : ℕ) × (told.0.log ≡ (g, c) ∷ []) × IsHonest (told.0.child g) c
every_exit_reported_example = every_exit_reported told.1 refl refl refl none_pending

on_exit_code_example : AllHonest told.0.child told.0.log
on_exit_code_example = on_exit_code told.1

no_call_after_drop_example : callback_returns.0.log ≡ dropped.0.log
no_call_after_drop_example = no_call_after_drop dropped.1 refl (omega arith) callback_returns.1

restart_told_twice_example :
    (s : State) × Reach true true s
    × (s.starts ≡ 2)
    × (s.child 1 ≡ none)
    × (s.alive ≡ false)
    × (s.log ≡ (0, 3) ∷ (0, 3) ∷ [])
restart_told_twice_example = restart_told_twice 3
