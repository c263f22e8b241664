-- ===== src/Session/Quieted.antt =====
-- What a drop has cut off: behind the clearing of the callbacks no thread fetches `on_exit`, and a thread that was
-- joined holds none, also where the host drops the session in a callback of the pump, which then outlives it.
use scshell.Base.{
  ℕ, ◌+◌, ◌*◌, Bool, true, false, Option, none, some, ◌≡◌, ◌≢◌, refl, ap, sym, ◌∙◌, arith,
  ℕ_discrete,
}
use scshell.Session.Family.{hit, miss, update}
use scshell.Session.{
  Pc, receiving, in_frame, at_eof, top, polling, napping, in_callback, ended, got, stored, won,
  fetched, Starter, idle, Dropping, not_begun, cleared, pump_joined, freed, State, Step, start_pump,
  start_watcher, keeps_pump, calls_frame, frame_done, last_frame_done, sees_eof, takes_code,
  disconnected, finds_dead, polls, finds_exit, finds_none, wakes, quits, stores, wins, loses,
  fetches, finds_no_callback, calls, returns, sets_callbacks, lowers, clears, joins_pump,
  joins_watcher, Reach, begin, IsJoined, HandleJoined, was_absent, was_ended, is_current,
  is_current_frame, later,
}
use scshell.Session.Pending.{Inv}
use scshell.Session.Invariant.{Reach-Inv}

abbrev pub in_cleared : Dropping → Bool
in_cleared cleared = true
in_cleared pump_joined = true
in_cleared freed = true
in_cleared _ = false

abbrev pub in_pump_joined : Dropping → Bool
in_pump_joined pump_joined = true
in_pump_joined freed = true
in_pump_joined _ = false

-- A thread that holds the callback and is about to call it.
abbrev pub calling : Pc → Bool
calling (fetched c) = true
calling _ = false

abbrev pub handle_calling : (ℕ → Pc) → Option ℕ → Bool
handle_calling pc none = false
handle_calling pc (some t) = calling (pc t)

pub record Quieted (s : State) : Type 0 where
  pub cut : in_cleared s.dropping ≡ true → s.on_exit ≡ false
  pub pump_done : in_pump_joined s.dropping ≡ true → handle_calling s.pc s.pump ≡ false
  pub watcher_done : s.dropping ≡ freed → handle_calling s.pc s.watcher ≡ false

IsJoined-calling : {p : Pc} → IsJoined p → calling p ≡ false
IsJoined-calling was_absent = refl
IsJoined-calling was_ended = refl
IsJoined-calling is_current = refl
IsJoined-calling is_current_frame = refl

HandleJoined-calling :
    (pc : ℕ → Pc) (h : Option ℕ) → HandleJoined pc h → handle_calling pc h ≡ false
HandleJoined-calling pc none j = refl
HandleJoined-calling pc (some t) j = IsJoined-calling j

calling-update :
    (pc : ℕ → Pc) (h : Option ℕ) (t : ℕ) (p' : Pc)
    → calling p' ≡ false
    → handle_calling pc h ≡ false
    → handle_calling (update pc t p') h ≡ false
calling-update pc none t p' quiet k = refl
calling-update pc (some j) t p' quiet k = elim (ℕ_discrete t j) [
  | yes same ↦ rw (hit same) quiet
  | no other ↦ rw (miss other) k
]

joined_cleared : (d : Dropping) → in_pump_joined d ≡ true → in_cleared d ≡ true
joined_cleared d h = ground arith

pub begun : {d : Dropping} → in_cleared d ≡ true → d ≢ not_begun
begun {d} h e = cc (ap in_cleared e)

-- Nothing starts behind a drop.
pub no_start :
    {s : State} (inv : Inv s) (g : ℕ) {p : Starter}
    → s.starter g ≡ p
    → p ≢ idle
    → in_cleared s.dropping ≡ true
    → ⊥
no_start inv g e ne h = ne (sym e ∙ inv.alone (begun h) g)

module _ {s : State} (k : Quieted s) where
  moves : (t : ℕ) (p' : Pc) → calling p' ≡ false → Quieted (record s { pc = update s.pc t p' })
  moves t p' quiet = record {
    cut = k.cut;
    pump_done = λ h. calling-update s.pc s.pump t p' quiet (k.pump_done h);
    watcher_done = λ h. calling-update s.pc s.watcher t p' quiet (k.watcher_done h);
  }

Step-Quieted : {hooked : Bool} {s s' : State} → Step hooked s s' → Inv s → Quieted s → Quieted s'
Step-Quieted (start_pump g e) inv k =
    let moved = moves k (2 * g) receiving refl in
    record { cut = moved.cut; pump_done = moved.pump_done; watcher_done = moved.watcher_done }
Step-Quieted (start_watcher g e) inv k = record {
  cut = k.cut;
  pump_done = (moves k (2 * g + 1) top refl).pump_done;
  watcher_done = λ h. absurd (no_start inv g e (λ c. cc) (ap in_cleared h));
}
Step-Quieted {s} (keeps_pump g e) inv k = record {
  cut = k.cut;
  pump_done = λ h. absurd (no_start inv g e (λ c. cc) (joined_cleared s.dropping h));
  watcher_done = k.watcher_done;
}
Step-Quieted (calls_frame t e) inv k = moves k t in_frame refl
Step-Quieted (frame_done t e) inv k = moves k t receiving refl
Step-Quieted (last_frame_done t e) inv k = moves k t at_eof refl
Step-Quieted (sees_eof t e) inv k = moves k t at_eof refl
Step-Quieted (disconnected t e) inv k = moves k t ended refl
Step-Quieted (takes_code t e) inv k = moves k t _ refl
Step-Quieted (finds_dead t e a) inv k = moves k t ended refl
Step-Quieted (polls t e a) inv k = moves k t polling refl
Step-Quieted (finds_exit t c e d) inv k = moves k t (got c) refl
Step-Quieted (finds_none t e) inv k = moves k t napping refl
Step-Quieted (wakes t e) inv k = moves k t top refl
Step-Quieted (quits t e a) inv k = moves k t ended refl
Step-Quieted (stores t c e) inv k =
    let moved = moves k t (stored c) refl in
    record { cut = moved.cut; pump_done = moved.pump_done; watcher_done = moved.watcher_done }
Step-Quieted (wins t c e a) inv k =
    let moved = moves k t (won c) refl in
    record { cut = moved.cut; pump_done = moved.pump_done; watcher_done = moved.watcher_done }
Step-Quieted (loses t c e a) inv k = moves k t ended refl
Step-Quieted {s} (fetches t c e on) inv k = record {
  cut = k.cut;
  pump_done = λ h. cc (k.cut (joined_cleared s.dropping h), on);
  watcher_done = λ h. cc (k.cut (ap in_cleared h), on);
}
Step-Quieted (finds_no_callback t c e off) inv k = moves k t ended refl
Step-Quieted (calls t c e) inv k =
    let moved = moves k t in_callback refl in
    record { cut = moved.cut; pump_done = moved.pump_done; watcher_done = moved.watcher_done }
Step-Quieted (returns t e) inv k = moves k t ended refl
Step-Quieted (sets_callbacks on d h) inv k = record {
  cut = λ c. absurd (begun c d);
  pump_done = k.pump_done;
  watcher_done = k.watcher_done;
}
Step-Quieted (lowers e d) inv k = record {
  cut = λ h. cc;
  pump_done = λ h. cc;
  watcher_done = λ h. cc;
}
Step-Quieted (clears d) inv k = record {
  cut = λ h. refl;
  pump_done = λ h. cc;
  watcher_done = λ h. cc;
}
Step-Quieted {s} (joins_pump d j) inv k = record {
  cut = λ h. k.cut (ap in_cleared d);
  pump_done = λ h. HandleJoined-calling s.pc s.pump j;
  watcher_done = λ h. cc;
}
Step-Quieted {s} (joins_watcher d j) inv k = record {
  cut = λ h. k.cut (ap in_cleared d);
  pump_done = λ h. k.pump_done (ap in_pump_joined d);
  watcher_done = λ h. HandleJoined-calling s.pc s.watcher j;
}
Step-Quieted _ inv k = record {
  cut = k.cut;
  pump_done = k.pump_done;
  watcher_done = k.watcher_done;
}

pub Reach-Quieted : {hooked on : Bool} {s : State} → Reach hooked on s → Quieted s
Reach-Quieted begin = record { cut = λ h. cc; pump_done = λ h. cc; watcher_done = λ h. cc }
Reach-Quieted (later r st) = Step-Quieted st (Reach-Inv r) (Reach-Quieted r)
