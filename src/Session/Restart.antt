-- ===== src/Session/Restart.antt =====
-- A session that is started again while the pump of the first start still waits for the end of the
-- output. Every thread shares one `alive`, so the old pump wins it from the new start.
use scshell.Base.{ℕ, true, false, [], ◌∷◌, none, ◌≡◌, refl}
use scshell.Session.{
  State, check, publish, start_pump, start_watcher, keeps_pump, child_ends, sees_eof, takes_code,
  polls, finds_exit, stores, wins, fetches, calls, returns, Reach, begin, later,
}

-- The first start: its child ends with `c`, and its watcher tells the host.
watched : (c : ℕ) → (s : State) × Reach true true s
watched c = (
  _,
  later
      (later
        (later
          (later
            (later
              (later
                (later
                  (later
                    (later
                      (later
                        (later (later (later begin (check refl refl)) (publish 0 refl))
                          (start_pump 0 refl))
                        (start_watcher 0 refl))
                      (keeps_pump 0 refl))
                    (polls 1 refl refl))
                  (child_ends 0 c refl))
                (finds_exit 1 c refl refl))
              (stores 1 c refl))
            (wins 1 c refl refl))
          (fetches 1 c refl refl))
        (calls 1 c refl))
      (returns 1 refl),
)

-- The second start, and then the end of the output of the first child.
restarted : (c : ℕ) → (s : State) × Reach true true s
unfolding watched
restarted c = (
  _,
  later
      (later
        (later
          (later
            (later
              (later
                (later
                  (later
                    (later (later (later (watched c).1 (check refl refl)) (publish 1 refl))
                      (start_pump 1 refl))
                    (start_watcher 1 refl))
                  (keeps_pump 1 refl))
                (sees_eof 0 refl))
              (takes_code 0 refl))
            (stores 0 c refl))
          (wins 0 c refl refl))
        (fetches 0 c refl refl))
      (calls 0 c refl),
)

-- For every exit code of the first child there is a run, with one restart and no drop, in which the
-- second child still runs, and yet `alive` is lowered and the host has been told of the end of the
-- first child twice, once for each of the two starts.
pub restart_told_twice :
    (c : ℕ)
    → (s : State) × Reach true true s
      × (s.starts ≡ 2)
      × (s.child 1 ≡ none)
      × (s.alive ≡ false)
      × (s.log ≡ (0, c) ∷ (0, c) ∷ [])
unfolding restarted watched
restart_told_twice c = ((restarted c).0, (restarted c).1, refl, refl, refl, refl)
