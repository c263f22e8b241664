-- ===== src/Session.antt =====
-- rata_shell/src/session.rs: who tells the host that the shell has ended. The threads of a session
-- as interleaved steps on what they share: `alive`, `exit_code`, the `on_exit` callback and the
-- children. The frames that the pump draws touch none of these.
pub mod Family
pub mod Pending
pub mod Invariant
pub mod Exact
pub mod Codes
pub mod Single
pub mod Quieted
pub mod Drops
pub mod Shutdown
pub mod Race
pub mod Restart
pub mod Pump
pub mod Calls
use scshell.Base.{
  ℕ, zero, suc, ◌+◌, ◌-◌, ◌*◌, ◌/◌, ◌≤◌, ◌<◌, Bool, true, false, List, [], ◌∷◌, ◌++◌, Option, none,
  some, ◌≡◌, ◌⊎◌,
}
use scshell.Session.Family.{update}

-- Where a thread stands. A pump waits in `receiving`, calls the host for a frame, a title, a bell or the
-- clipboard in `in_frame`, and takes the code at the end of the output; a watcher looks at `alive` in `top`,
-- polls the child, and naps. Both then store the code, race for `alive`, fetch the callback and call it.
pub data Pc : Type 0 where
  absent receiving in_frame at_eof top polling napping in_callback ended : Pc
  got stored won fetched : (code : ℕ) → Pc

-- A call of `start`: not begun or over, behind the test of `alive`, behind `alive.store(true)`, behind the
-- spawn of the pump, behind that of the watcher.
pub data Starter : Type 0 where
  idle checked published pump_up watcher_up : Starter

-- `drop`: not begun, `alive` lowered, callbacks cleared, pump joined, watcher joined.
pub data Dropping : Type 0 where
  not_begun lowered cleared pump_joined freed : Dropping

-- `entered` counts the calls of `start` that got past the test of `alive`; any number of host threads may be
-- in one, and `starter g` is where call g stands. Thread 2 g is its pump, and thread 2 g + 1 its watcher.
-- `starts` counts those that have stored `alive`, and `latest` is the last one of them. `pump` and `watcher`
-- are the threads whose handles the session keeps. `child g` is the exit code of child g, `none` while it
-- runs. `log` has each call of `on_exit`: the start whose thread made it, and the code.
pub record State : Type 0 where
  pub alive : Bool
  pub exit_code : ℕ
  pub on_exit : Bool
  pub entered : ℕ
  pub starts : ℕ
  pub latest : ℕ
  pub starter : ℕ → Starter
  pub pump : Option ℕ
  pub watcher : Option ℕ
  pub dropping : Dropping
  pub pc : ℕ → Pc
  pub child : ℕ → Option ℕ
  pub log : List (ℕ × ℕ)

abbrev pub or_zero : Option ℕ → ℕ
or_zero none = 0
or_zero (some c) = c

-- A thread that `drop` waits for no longer: it is over, was never started, or is in the callback of the
-- host, be it `on_exit` or another one, that drops the session.
pub data IsJoined : Pc → Type 0 where
  was_absent : IsJoined absent
  was_ended : IsJoined ended
  is_current : IsJoined in_callback
  is_current_frame : IsJoined in_frame

-- `if let Some(j) = handle.take()`
abbrev pub HandleJoined : (ℕ → Pc) → Option ℕ → Type 0
HandleJoined pc none = Unit
HandleJoined pc (some t) = IsJoined (pc t)

-- One step. With `hooked` the host never takes its callback away.
pub data Step (hooked : Bool) (s : State) : State → Type 0 where
  -- start
  check :
      s.dropping ≡ not_begun
      → s.alive ≡ false
      → Step hooked s
          (record s { entered = s.entered + 1; starter = update s.starter s.entered checked })
  spawn_fails :
      (g : ℕ)
      → s.starter g ≡ checked
      → Step hooked s (record s { starter = update s.starter g idle })
  publish :
      (g : ℕ)
      → s.starter g ≡ checked
      → Step hooked s (record s {
        starter = update s.starter g published;
        alive = true;
        starts = s.starts + 1;
        latest = g;
      })
  start_pump :
      (g : ℕ)
      → s.starter g ≡ published
      → Step hooked s
          (record s { starter = update s.starter g pump_up; pc = update s.pc (2 * g) receiving })
  start_watcher :
      (g : ℕ)
      → s.starter g ≡ pump_up
      → Step hooked s (record s {
        starter = update s.starter g watcher_up;
        pc = update s.pc (2 * g + 1) top;
        watcher = some (2 * g + 1);
      })
  keeps_pump :
      (g : ℕ)
      → s.starter g ≡ watcher_up
      → Step hooked s (record s { starter = update s.starter g idle; pump = some (2 * g) })
  -- the child of start g ends
  child_ends :
      (g c : ℕ) → s.child g ≡ none → Step hooked s (record s { child = update s.child g (some c) })
  -- the pump, which calls the host once more behind the end of the output
  calls_frame :
      (t : ℕ) → s.pc t ≡ receiving → Step hooked s (record s { pc = update s.pc t in_frame })
  frame_done :
      (t : ℕ) → s.pc t ≡ in_frame → Step hooked s (record s { pc = update s.pc t receiving })
  last_frame_done :
      (t : ℕ) → s.pc t ≡ in_frame → Step hooked s (record s { pc = update s.pc t at_eof })
  sees_eof : (t : ℕ) → s.pc t ≡ receiving → Step hooked s (record s { pc = update s.pc t at_eof })
  disconnected :
      (t : ℕ) → s.pc t ≡ receiving → Step hooked s (record s { pc = update s.pc t ended })
  takes_code :
      (t : ℕ)
      → s.pc t ≡ at_eof
      → Step hooked s (record s { pc = update s.pc t (got (or_zero (s.child (t / 2)))) })
  -- the watcher
  finds_dead :
      (t : ℕ)
      → s.pc t ≡ top
      → s.alive ≡ false
      → Step hooked s (record s { pc = update s.pc t ended })
  polls :
      (t : ℕ)
      → s.pc t ≡ top
      → s.alive ≡ true
      → Step hooked s (record s { pc = update s.pc t polling })
  finds_exit :
      (t c : ℕ)
      → s.pc t ≡ polling
      → s.child (t / 2) ≡ some c
      → Step hooked s (record s { pc = update s.pc t (got c) })
  finds_none : (t : ℕ) → s.pc t ≡ polling → Step hooked s (record s { pc = update s.pc t napping })
  wakes : (t : ℕ) → s.pc t ≡ napping → Step hooked s (record s { pc = update s.pc t top })
  quits :
      (t : ℕ)
      → s.pc t ≡ napping
      → s.alive ≡ false
      → Step hooked s (record s { pc = update s.pc t ended })
  -- both
  stores :
      (t c : ℕ)
      → s.pc t ≡ got c
      → Step hooked s (record s { pc = update s.pc t (stored c); exit_code = c })
  wins :
      (t c : ℕ)
      → s.pc t ≡ stored c
      → s.alive ≡ true
      → Step hooked s (record s { pc = update s.pc t (won c); alive = false })
  loses :
      (t c : ℕ)
      → s.pc t ≡ stored c
      → s.alive ≡ false
      → Step hooked s (record s { pc = update s.pc t ended })
  fetches :
      (t c : ℕ)
      → s.pc t ≡ won c
      → s.on_exit ≡ true
      → Step hooked s (record s { pc = update s.pc t (fetched c) })
  finds_no_callback :
      (t c : ℕ)
      → s.pc t ≡ won c
      → s.on_exit ≡ false
      → Step hooked s (record s { pc = update s.pc t ended })
  calls :
      (t c : ℕ)
      → s.pc t ≡ fetched c
      → Step hooked s (record s { pc = update s.pc t in_callback; log = s.log ++ (t / 2, c) ∷ [] })
  returns : (t : ℕ) → s.pc t ≡ in_callback → Step hooked s (record s { pc = update s.pc t ended })
  -- the host
  sets_callbacks :
      (on : Bool)
      → s.dropping ≡ not_begun
      → (hooked ≡ false) ⊎ (on ≡ true)
      → Step hooked s (record s { on_exit = on })
  -- drop
  lowers :
      ((g : ℕ) → s.starter g ≡ idle)
      → s.dropping ≡ not_begun
      → Step hooked s (record s { dropping = lowered; alive = false })
  clears : s.dropping ≡ lowered → Step hooked s (record s { dropping = cleared; on_exit = false })
  joins_pump :
      s.dropping ≡ cleared
      → HandleJoined s.pc s.pump
      → Step hooked s (record s { dropping = pump_joined })
  joins_watcher :
      s.dropping ≡ pump_joined
      → HandleJoined s.pc s.watcher
      → Step hooked s (record s { dropping = freed })

-- `Session::new`, with the callback set or not.
abbrev pub new : Bool → State
new on = record {
  alive = false;
  exit_code = 0;
  on_exit = on;
  entered = 0;
  starts = 0;
  latest = 0;
  starter = λ _. idle;
  pump = none;
  watcher = none;
  dropping = not_begun;
  pc = λ _. absent;
  child = λ _. none;
  log = [];
}

pub data Reach (hooked on : Bool) : State → Type 0 where
  begin : Reach hooked on (new on)
  later : {s t : State} → Reach hooked on s → Step hooked s t → Reach hooked on t
