-- ===== src/Session/Pending.antt =====
-- The right to call `on_exit`, and how many threads have it.
use scshell.Base.{
  ℕ, suc, ◌+◌, ◌*◌, ◌≤◌, ◌<◌, Bool, true, false, ◌≡◌, ◌≢◌, ap, sym, ◌∙◌, arith, length, dec_lt,
  ℕ_discrete,
}
use scshell.Base.Bits.{bit_of}
use scshell.Session.Family.{hit, miss, update, sum_below, sum_below-suc, sum_below-update}
use scshell.Session.{
  Pc, absent, won, fetched, Starter, idle, checked, published, pump_up, watcher_up, not_begun,
  State,
}

-- A thread that has won and has not called yet.
abbrev pub pending : Pc → ℕ
pending (won c) = 1
pending (fetched c) = 1
pending _ = 0

abbrev pub owed : State → ℕ
owed s = sum_below pending (2 * s.entered) s.pc

-- In `start`, behind the store of `alive`.
abbrev pub launching : Starter → Bool
launching published = true
launching pump_up = true
launching watcher_up = true
launching _ = false

-- In `start`, before the spawn of the pump, and before that of the watcher.
abbrev pub no_pump : Starter → Bool
no_pump checked = true
no_pump published = true
no_pump _ = false

abbrev pub no_watcher : Starter → Bool
no_watcher checked = true
no_watcher published = true
no_watcher pump_up = true
no_watcher _ = false

pub record Inv (s : State) : Type 0 where
  pub counted : bit_of s.alive + owed s + length s.log ≤ s.starts
  pub beyond : (t : ℕ) → 2 * s.entered ≤ t → s.pc t ≡ absent
  pub known : (g : ℕ) → s.starter g ≢ idle → g < s.entered
  pub alone : s.dropping ≢ not_begun → (g : ℕ) → s.starter g ≡ idle
  pub watcher_slot : (g : ℕ) → no_watcher (s.starter g) ≡ true → s.pc (2 * g + 1) ≡ absent
  pub pump_slot : (g : ℕ) → no_pump (s.starter g) ≡ true → s.pc (2 * g) ≡ absent

pub owed-check :
    (s : State)
    → ((t : ℕ) → 2 * s.entered ≤ t → s.pc t ≡ absent)
    → sum_below pending (2 * (s.entered + 1)) s.pc ≡ owed s
owed-check s beyond =
    let two : 2 * (s.entered + 1) ≡ suc (suc (2 * s.entered)) = omega arith in
    rw two (
      omega (
        arith,
        sum_below-suc pending (suc (2 * s.entered)) s.pc,
        sum_below-suc pending (2 * s.entered) s.pc,
        ap pending (beyond (2 * s.entered) (omega arith)),
        ap pending (beyond (suc (2 * s.entered)) (omega arith)),
      ))

module _ {s : State} (inv : Inv s) where
  -- A thread that has been started is counted.
  pub below : (t : ℕ) {p : Pc} → s.pc t ≡ p → p ≢ absent → t < 2 * s.entered
  below t e ne = elim (dec_lt t (2 * s.entered)) [
    | yes lt ↦ lt
    | no ge ↦ absurd (ne (sym e ∙ inv.beyond t (omega arith)))
  ]

  -- What a step of thread `t` from `p` to `p'` does to the count.
  pub moved :
      (t : ℕ) (p p' : Pc)
      → s.pc t ≡ p
      → t < 2 * s.entered
      → sum_below pending (2 * s.entered) (update s.pc t p') + pending p ≡ owed s + pending p'
  moved t p p' e lt =
      omega (arith, sum_below-update pending (2 * s.entered) s.pc t p' lt, ap pending e)

  pub beyond_update :
      (t : ℕ) (p' : Pc)
      → t < 2 * s.entered
      → (j : ℕ) → 2 * s.entered ≤ j
      → update s.pc t p' j ≡ absent
  beyond_update t p' lt j ge = ground (arith, inv.beyond j)

  -- A slot that is free stays free.
  pub slot_kept :
      (t j : ℕ) {p : Pc} (p' : Pc)
      → s.pc t ≡ p
      → p ≢ absent
      → s.pc j ≡ absent
      → update s.pc t p' j ≡ absent
  slot_kept t j {p} p' e ne free = elim (ℕ_discrete t j) [
    | yes same ↦ absurd (ne (sym e ∙ ap s.pc same ∙ free))
    | no other ↦ ground arith
  ]

  -- A step of thread `t` that leaves the shared fields alone.
  pub thread_step :
      (t : ℕ) (p p' : Pc)
      → s.pc t ≡ p
      → p ≢ absent
      → pending p' ≤ pending p
      → Inv (record s { pc = update s.pc t p' })
  thread_step t p p' e ne le = record {
    counted = omega (arith, inv.counted, moved t p p' e (below t e ne));
    beyond = beyond_update t p' (below t e ne);
    known = inv.known;
    alone = inv.alone;
    watcher_slot = λ g h. slot_kept t (2 * g + 1) p' e ne (inv.watcher_slot g h);
    pump_slot = λ g h. slot_kept t (2 * g) p' e ne (inv.pump_slot g h);
  }

  -- A step of call `g` of `start` from `p` to `p'` that leaves the threads alone.
  pub starter_step :
      (g : ℕ) (p p' : Starter)
      → s.starter g ≡ p
      → p ≢ idle
      → (no_pump p' ≡ true → no_pump p ≡ true)
      → (no_watcher p' ≡ true → no_watcher p ≡ true)
      → (no_idle : s.dropping ≢ not_begun → ⊥) → Inv (record s { starter = update s.starter g p' })
  starter_step g p p' e ne pumps watchers undropped = record {
    counted = inv.counted;
    beyond = inv.beyond;
    known = λ j h. elim (ℕ_discrete g j) [
      | yes same ↦ let k = inv.known g (λ c. ne (sym e ∙ c)) in omega (arith, same, k)
      | no other ↦ inv.known j (rw (miss other) at h)
    ];
    alone = λ h. absurd (undropped h);
    watcher_slot = λ j h. elim (ℕ_discrete g j) [
      | yes same ↦
          rw (← same) (inv.watcher_slot g (ap no_watcher e ∙ watchers (rw (hit same) at h)))
      | no other ↦ inv.watcher_slot j (rw (miss other) at h)
    ];
    pump_slot = λ j h. elim (ℕ_discrete g j) [
      | yes same ↦ rw (← same) (inv.pump_slot g (ap no_pump e ∙ pumps (rw (hit same) at h)))
      | no other ↦ inv.pump_slot j (rw (miss other) at h)
    ];
  }
