-- ===== src/Session/Shutdown/Order.antt =====
-- How far a drop is: what it has done to the session, and whom it has joined.
use scshell.Base.{
  ◌≤◌, ◌<◌, Bool, true, false, List, [], ◌∷◌, ◌++◌, ◌≡◌, ◌≢◌, ◌⊎◌, inl, inr, refl, sym, ap, ◌∙◌,
  Bytes, arith,
}
use scshell.Session.Shutdown.Work.{dropper_work}
use scshell.Session.Shutdown.{
  Setting, Caller, on_pump, on_watcher, Dropper, lowered, killed, nudged, told_writer, writer_gone,
  released, pump_joined, watcher_joined, freed, Worker, working, calling, ended, Shutdown, DropStep,
  lowers, terminates, nudges, tells_writer, joins_writer, releases, joins_pump, joins_watcher,
  joins_reader, takes_bytes, takes_eof, quits, writes, stops_writing, nudge,
}

abbrev pub has_sentinel : List Bytes → Bool
has_sentinel [] = false
has_sentinel ([] ∷ rest) = true
has_sentinel ((b ∷ buf) ∷ rest) = has_sentinel rest

-- What `drop` has done so far.
pub record Order (s : Shutdown) : Type 0 where
  pub low : dropper_work s.dropper ≤ 10 → s.alive ≡ false
  pub dead : dropper_work s.dropper ≤ 9 → s.child_runs ≡ false
  pub told : dropper_work s.dropper ≤ 5 → s.writing ≡ true → has_sentinel s.inputs ≡ true
  pub taken : dropper_work s.dropper ≤ 3 → s.kept ≡ false

has_sentinel-append : (q r : List Bytes) → has_sentinel q ≡ true → has_sentinel (q ++ r) ≡ true
has_sentinel-append [] r h = cc
has_sentinel-append ([] ∷ q) r h = refl
has_sentinel-append ((b ∷ buf) ∷ q) r h = has_sentinel-append q r h

has_sentinel-last : (q : List Bytes) → has_sentinel (q ++ [] ∷ []) ≡ true
has_sentinel-last [] = refl
has_sentinel-last ([] ∷ q) = refl
has_sentinel-last ((b ∷ buf) ∷ q) = has_sentinel-last q

-- Behind the drop of `pty` nothing of this changes any more.
settled :
    {s : Shutdown}
    → Order s
    → (d : Dropper) → dropper_work s.dropper ≤ 3
    → Order (record s { dropper = d })
settled k d le = record {
  low = λ h. k.low (omega (arith, le));
  dead = λ h. k.dead (omega (arith, le));
  told = λ h. k.told (omega (arith, le));
  taken = λ h. k.taken le;
}

pub step-Order : (c : Setting) {s t : Shutdown} → DropStep c s t → Order s → Order t
unfolding nudge
step-Order c (lowers e) k = record {
  low = λ h. refl;
  dead = λ h. absurd (omega (arith, h));
  told = λ h w. absurd (omega (arith, h));
  taken = λ h. absurd (omega (arith, h));
}
step-Order c (terminates e) k = record {
  low = λ h. k.low (omega (arith, ap dropper_work e));
  dead = λ h. refl;
  told = λ h w. absurd (omega (arith, h));
  taken = λ h. absurd (omega (arith, h));
}
step-Order c (nudges e) k = record {
  low = λ h. k.low (omega (arith, ap dropper_work e));
  dead = λ h. k.dead (omega (arith, ap dropper_work e));
  told = λ h w. absurd (omega (arith, h));
  taken = λ h. absurd (omega (arith, h));
}
step-Order c {s} (tells_writer e) k = record {
  low = λ h. k.low (omega (arith, ap dropper_work e));
  dead = λ h. k.dead (omega (arith, ap dropper_work e));
  told = λ h w. has_sentinel-last s.inputs;
  taken = λ h. absurd (omega (arith, h));
}
step-Order c (joins_writer e w) k = record {
  low = λ h. k.low (omega (arith, ap dropper_work e));
  dead = λ h. k.dead (omega (arith, ap dropper_work e));
  told = λ h v. cc (v, w);
  taken = λ h. absurd (omega (arith, h));
}
step-Order c (releases e) k = record {
  low = λ h. k.low (omega (arith, ap dropper_work e));
  dead = λ h. k.dead (omega (arith, ap dropper_work e));
  told = λ h. k.told (omega (arith, ap dropper_work e));
  taken = λ h. refl;
}
step-Order c (joins_pump e w) k = settled k pump_joined (omega (arith, ap dropper_work e))
step-Order c (joins_watcher e w) k = settled k watcher_joined (omega (arith, ap dropper_work e))
step-Order c (joins_reader e w) k = settled k freed (omega (arith, ap dropper_work e))
step-Order c {s} (takes_bytes b rest answers e f le) k = record {
  low = k.low;
  dead = k.dead;
  told = λ h w. has_sentinel-append s.inputs answers (k.told h w);
  taken = k.taken;
}
step-Order c (writes b buf rest e f) k = record {
  low = k.low;
  dead = k.dead;
  told = λ h w. sym (ap has_sentinel f) ∙ k.told h w;
  taken = k.taken;
}
step-Order c (stops_writing rest e f) k = record {
  low = k.low;
  dead = k.dead;
  told = λ h w. cc;
  taken = k.taken;
}
step-Order c _ k = record { low = k.low; dead = k.dead; told = k.told; taken = k.taken }

-- Which thread is in the callback that drops, and which threads are joined.
pub record Threads (caller : Caller) (d : Dropper) (pump watcher : Worker) : Type 0 where
  pub pump_calls : pump ≡ calling → caller ≡ on_pump
  pub watcher_calls : watcher ≡ calling → caller ≡ on_watcher
  pub pump_rests : caller ≡ on_pump → pump ≢ working
  pub watcher_rests : caller ≡ on_watcher → watcher ≢ working
  pub pump_over : dropper_work d ≤ 2 → pump ≢ working
  pub watcher_over : dropper_work d ≤ 1 → watcher ≢ working

module _ {caller : Caller} {d : Dropper} {pump watcher : Worker}
    (k : Threads caller d pump watcher) where
  -- A step of `drop` from `d` to `e`, with what it has joined.
  goes_on :
      (e : Dropper)
      → (dropper_work e ≤ 2 → pump ≢ working)
      → (dropper_work e ≤ 1 → watcher ≢ working)
      → Threads caller e pump watcher
  goes_on e pump_over watcher_over = record {
    pump_calls = k.pump_calls;
    watcher_calls = k.watcher_calls;
    pump_rests = k.pump_rests;
    watcher_rests = k.watcher_rests;
    pump_over = pump_over;
    watcher_over = watcher_over;
  }

  before_joins : (e : Dropper) → 2 < dropper_work e → Threads caller e pump watcher
  before_joins e lt =
      goes_on e (λ h. absurd (omega (arith, lt, h))) (λ h. absurd (omega (arith, lt, h)))

  pump_ends : Threads caller d ended watcher
  pump_ends = record {
    pump_calls = λ h. cc;
    watcher_calls = k.watcher_calls;
    pump_rests = λ h e. cc;
    watcher_rests = k.watcher_rests;
    pump_over = λ h e. cc;
    watcher_over = k.watcher_over;
  }

  watcher_ends : Threads caller d pump ended
  watcher_ends = record {
    pump_calls = k.pump_calls;
    watcher_calls = λ h. cc;
    pump_rests = k.pump_rests;
    watcher_rests = λ h e. cc;
    pump_over = k.pump_over;
    watcher_over = λ h e. cc;
  }

-- A thread that `join` does not wait for is not at work.
not_working : {w : Worker} {A : Type 0} → (w ≡ ended) ⊎ A → (A → w ≢ working) → w ≢ working
not_working (inl over) rests e = cc (over, e)
not_working (inr here) rests e = rests here e

abbrev pub ThreadsOf : Setting → Shutdown → Type 0
ThreadsOf c s = Threads c.caller s.dropper s.pump s.watcher

pub step-Threads : (c : Setting) {s t : Shutdown} → DropStep c s t → ThreadsOf c s → ThreadsOf c t
unfolding nudge
step-Threads c (lowers e) k = before_joins k lowered (omega arith)
step-Threads c (terminates e) k = before_joins k killed (omega arith)
step-Threads c (nudges e) k = before_joins k nudged (omega arith)
step-Threads c (tells_writer e) k = before_joins k told_writer (omega arith)
step-Threads c (joins_writer e w) k = before_joins k writer_gone (omega arith)
step-Threads c (releases e) k = before_joins k released (omega arith)
step-Threads c (joins_pump e w) k =
    goes_on k pump_joined (λ h. not_working w k.pump_rests) (λ h. absurd (omega (arith, h)))
step-Threads c (joins_watcher e w) k =
    goes_on k watcher_joined (λ h. k.pump_over (omega (arith, ap dropper_work e)))
      (λ h. not_working w k.watcher_rests)
step-Threads c (joins_reader e w) k =
    goes_on k freed (λ h. k.pump_over (omega (arith, ap dropper_work e)))
      (λ h. k.watcher_over (omega (arith, ap dropper_work e)))
step-Threads c (takes_eof rest e f) k = pump_ends k
step-Threads c (quits e f) k = watcher_ends k
step-Threads c _ k = k
