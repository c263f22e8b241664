-- ===== src/Session/Single.antt =====
-- A session that was started once at most has the handles of all its threads.
use scshell.Base.{
  ℕ, ◌+◌, ◌*◌, ◌/◌, ◌≤◌, Bool, true, false, Option, some, ◌≡◌, ◌≢◌, ◌⊎◌, inl, inr, refl, ap, sym,
  ◌∙◌, arith, ℕ_discrete,
}
use scshell.Session.Family.{hit, miss, update}
use scshell.Session.{
  Pc, absent, receiving, in_frame, at_eof, top, polling, napping, in_callback, ended, got, stored,
  won, fetched, Starter, State, Step, check, spawn_fails, publish, start_pump, start_watcher,
  keeps_pump, child_ends, calls_frame, frame_done, last_frame_done, sees_eof, takes_code,
  disconnected, finds_dead, polls, finds_exit, finds_none, wakes, quits, stores, wins, loses,
  fetches, finds_no_callback, calls, returns, sets_callbacks, lowers, clears, joins_pump,
  joins_watcher, Reach, begin, later,
}
use scshell.Session.Pending.{launching, Inv}
use scshell.Session.Invariant.{Reach-Inv}

-- With one start at most, every thread and every call of `start` behind the store is of the latest start.
pub record Single (s : State) : Type 0 where
  pub none_yet : s.starts ≡ 0 → (t : ℕ) → s.pc t ≡ absent
  pub no_launch : s.starts ≡ 0 → (g : ℕ) → launching (s.starter g) ≡ false
  pub owner : s.starts ≤ 1 → (t : ℕ) → s.pc t ≢ absent → t / 2 ≡ s.latest
  pub launcher : s.starts ≤ 1 → (g : ℕ) → launching (s.starter g) ≡ true → g ≡ s.latest
  pub pump_kept :
      s.starts ≤ 1
      → s.pc (2 * s.latest) ≢ absent
      → (launching (s.starter s.latest) ≡ true) ⊎ (s.pump ≡ some (2 * s.latest))
  pub watcher_kept :
      s.starts ≤ 1 → s.pc (2 * s.latest + 1) ≢ absent → s.watcher ≡ some (2 * s.latest + 1)

-- A step of a thread starts no other.
was_there :
    (pc : ℕ → Pc) (t j : ℕ) (p' : Pc) → pc t ≢ absent → update pc t p' j ≢ absent → pc j ≢ absent
was_there pc t j p' ne h e = elim (ℕ_discrete t j) [
  | yes same ↦ ne (ap pc same ∙ e)
  | no other ↦ h (rw (miss other) e)
]

module _ {s : State} (k : Single s) where
  thread-Single :
      (t : ℕ) (p p' : Pc) → s.pc t ≡ p → p ≢ absent → Single (record s { pc = update s.pc t p' })
  thread-Single t p p' e ne =
      let there : s.pc t ≢ absent = λ h. ne (sym e ∙ h) in
      record {
        none_yet = λ z. absurd (there (k.none_yet z t));
        no_launch = k.no_launch;
        owner = λ one j h. k.owner one j (was_there s.pc t j p' there h);
        launcher = k.launcher;
        pump_kept = λ one h. k.pump_kept one (was_there s.pc t (2 * s.latest) p' there h);
        watcher_kept = λ one h. k.watcher_kept one (was_there s.pc t (2 * s.latest + 1) p' there h);
      }

-- What `Single` is about.
abbrev Slots : Type 0
Slots = ℕ × ℕ × (ℕ → Starter) × Option ℕ × Option ℕ × (ℕ → Pc)

abbrev slots : State → Slots
slots s = (s.starts, s.latest, s.starter, s.pump, s.watcher, s.pc)

slots-Single : {s s' : State} → Single s → slots s ≡ slots s' → Single s'
slots-Single {s} {s'} k e =
    let starts : s.starts ≡ s'.starts = ap (λ (x : Slots). x.0) e in
    let latest : s.latest ≡ s'.latest = ap (λ (x : Slots). x.1) e in
    let starter : s.starter ≡ s'.starter = ap (λ (x : Slots). x.2) e in
    let pump : s.pump ≡ s'.pump = ap (λ (x : Slots). x.3) e in
    let watcher : s.watcher ≡ s'.watcher = ap (λ (x : Slots). x.4) e in
    let pc : s.pc ≡ s'.pc = ap (λ (x : Slots). x.5) e in
    record {
      none_yet = rw (← starts, ← pc) k.none_yet;
      no_launch = rw (← starts, ← starter) k.no_launch;
      owner = rw (← starts, ← pc, ← latest) k.owner;
      launcher = rw (← starts, ← starter, ← latest) k.launcher;
      pump_kept = rw (← starts, ← starter, ← latest, ← pc, ← pump) k.pump_kept;
      watcher_kept = rw (← starts, ← latest, ← pc, ← watcher) k.watcher_kept;
    }

Step-Single : {hooked : Bool} {s s' : State} → Step hooked s s' → Inv s → Single s → Single s'
Step-Single {s} (check d a) inv k = record {
  none_yet = k.none_yet;
  no_launch = λ z g. elim (ℕ_discrete s.entered g) [
    | yes same ↦ rw (hit same) refl
    | no other ↦ rw (miss other) (k.no_launch z g)
  ];
  owner = k.owner;
  launcher = λ one g h. elim (ℕ_discrete s.entered g) [
    | yes same ↦ let no : false ≡ true = rw (hit same) at h in cc
    | no other ↦ k.launcher one g (rw (miss other) at h)
  ];
  pump_kept = λ one h. elim (k.pump_kept one h) [
    | inl up ↦ elim (ℕ_discrete s.entered s.latest) [
      | yes same ↦
          let below = inv.known s.latest (λ i. cc (ap launching i)) in absurd (omega (arith, below))
      | no other ↦ inl (rw (miss other) up)
    ]
    | inr kept ↦ inr kept
  ];
  watcher_kept = k.watcher_kept;
}
Step-Single {s} (spawn_fails g e) inv k = record {
  none_yet = k.none_yet;
  no_launch = λ z j. elim (ℕ_discrete g j) [
    | yes same ↦ rw (hit same) refl
    | no other ↦ rw (miss other) (k.no_launch z j)
  ];
  owner = k.owner;
  launcher = λ one j h. elim (ℕ_discrete g j) [
    | yes same ↦ let no : false ≡ true = rw (hit same) at h in cc
    | no other ↦ k.launcher one j (rw (miss other) at h)
  ];
  pump_kept = λ one h. elim (k.pump_kept one h) [
    | inl up ↦ elim (ℕ_discrete g s.latest) [
      | yes same ↦
          let no : false ≡ true =
            sym (ap launching e) ∙ ap (λ i. launching (s.starter i)) same ∙ up in
          cc
      | no other ↦ inl (rw (miss other) up)
    ]
    | inr kept ↦ inr kept
  ];
  watcher_kept = k.watcher_kept;
}
Step-Single {s} (publish g e) inv k = record {
  none_yet = λ z. absurd (omega (arith, z));
  no_launch = λ z. absurd (omega (arith, z));
  owner = λ one t h. absurd (h (k.none_yet (omega (arith, one)) t));
  launcher = λ one j h. elim (ℕ_discrete g j) [
    | yes same ↦ sym same
    | no other ↦ let up = rw (miss other) at h in cc (k.no_launch (omega (arith, one)) j)
  ];
  pump_kept = λ one h. absurd (h (k.none_yet (omega (arith, one)) _));
  watcher_kept = λ one h. absurd (h (k.none_yet (omega (arith, one)) _));
}
Step-Single {s} (start_pump g e) inv k = record {
  none_yet = λ z. cc (k.no_launch z g, ap launching e);
  no_launch = λ z. cc (k.no_launch z g, ap launching e);
  owner = λ one t h. elim (ℕ_discrete (2 * g) t) [
    | yes same ↦ let mine = k.launcher one g (ap launching e) in omega (arith, same, mine)
    | no other ↦ k.owner one t (λ a. h (rw (miss other) a))
  ];
  launcher = λ one j h. elim (ℕ_discrete g j) [
    | yes same ↦ sym same ∙ k.launcher one g (ap launching e)
    | no other ↦ k.launcher one j (rw (miss other) at h)
  ];
  pump_kept = λ one h. inl (rw (hit (k.launcher one g (ap launching e))) refl);
  watcher_kept = λ one h. k.watcher_kept one (λ a. h (ground (arith, a)));
}
Step-Single {s} (start_watcher g e) inv k = record {
  none_yet = λ z. cc (k.no_launch z g, ap launching e);
  no_launch = λ z. cc (k.no_launch z g, ap launching e);
  owner = λ one t h. elim (ℕ_discrete (2 * g + 1) t) [
    | yes same ↦ let mine = k.launcher one g (ap launching e) in omega (arith, same, mine)
    | no other ↦ k.owner one t (λ a. h (rw (miss other) a))
  ];
  launcher = λ one j h. elim (ℕ_discrete g j) [
    | yes same ↦ sym same ∙ k.launcher one g (ap launching e)
    | no other ↦ k.launcher one j (rw (miss other) at h)
  ];
  pump_kept = λ one h. inl (rw (hit (k.launcher one g (ap launching e))) refl);
  watcher_kept = λ one h. ap (λ l. some (2 * l + 1)) (k.launcher one g (ap launching e));
}
Step-Single {s} (keeps_pump g e) inv k = record {
  none_yet = k.none_yet;
  no_launch = λ z. cc (k.no_launch z g, ap launching e);
  owner = k.owner;
  launcher = λ one j h. elim (ℕ_discrete g j) [
    | yes same ↦ sym same ∙ k.launcher one g (ap launching e)
    | no other ↦ k.launcher one j (rw (miss other) at h)
  ];
  pump_kept = λ one h. inr (ap (λ l. some (2 * l)) (k.launcher one g (ap launching e)));
  watcher_kept = k.watcher_kept;
}
Step-Single (calls_frame t e) inv k = thread-Single k t receiving in_frame e (λ h. cc)
Step-Single (frame_done t e) inv k = thread-Single k t in_frame receiving e (λ h. cc)
Step-Single (last_frame_done t e) inv k = thread-Single k t in_frame at_eof e (λ h. cc)
Step-Single (sees_eof t e) inv k = thread-Single k t receiving at_eof e (λ h. cc)
Step-Single (disconnected t e) inv k = thread-Single k t receiving ended e (λ h. cc)
Step-Single (takes_code t e) inv k = thread-Single k t at_eof _ e (λ h. cc)
Step-Single (finds_dead t e a) inv k = thread-Single k t top ended e (λ h. cc)
Step-Single (polls t e a) inv k = thread-Single k t top polling e (λ h. cc)
Step-Single (finds_exit t c e d) inv k = thread-Single k t polling (got c) e (λ h. cc)
Step-Single (finds_none t e) inv k = thread-Single k t polling napping e (λ h. cc)
Step-Single (wakes t e) inv k = thread-Single k t napping top e (λ h. cc)
Step-Single (quits t e a) inv k = thread-Single k t napping ended e (λ h. cc)
Step-Single (stores t c e) inv k =
    slots-Single (thread-Single k t (got c) (stored c) e (λ h. cc)) refl
Step-Single (loses t c e a) inv k = thread-Single k t (stored c) ended e (λ h. cc)
Step-Single (wins t c e a) inv k =
    slots-Single (thread-Single k t (stored c) (won c) e (λ h. cc)) refl
Step-Single (fetches t c e on) inv k = thread-Single k t (won c) (fetched c) e (λ h. cc)
Step-Single (finds_no_callback t c e off) inv k = thread-Single k t (won c) ended e (λ h. cc)
Step-Single (calls t c e) inv k =
    slots-Single (thread-Single k t (fetched c) in_callback e (λ h. cc)) refl
Step-Single (returns t e) inv k = thread-Single k t in_callback ended e (λ h. cc)
Step-Single (child_ends g c e) inv k = slots-Single k refl
Step-Single (sets_callbacks on d h) inv k = slots-Single k refl
Step-Single (lowers e d) inv k = slots-Single k refl
Step-Single (clears d) inv k = slots-Single k refl
Step-Single (joins_pump d j) inv k = slots-Single k refl
Step-Single (joins_watcher d j) inv k = slots-Single k refl

pub Reach-Single : {hooked on : Bool} {s : State} → Reach hooked on s → Single s
Reach-Single begin = record {
  none_yet = λ z t. refl;
  no_launch = λ z g. refl;
  owner = λ one t h. absurd (h refl);
  launcher = λ one g h. cc;
  pump_kept = λ one h. absurd (h refl);
  watcher_kept = λ one h. absurd (h refl);
}
Reach-Single (later r st) = Step-Single st (Reach-Inv r) (Reach-Single r)
