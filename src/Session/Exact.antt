-- ===== src/Session/Exact.antt =====
-- While a session that was started once lives, its exit is not lost: it is still running, or somebody is about
-- to call `on_exit`, or has called it.
use scshell.Base.{
  ◌<◌, List, ℕ, ◌+◌, ◌*◌, ◌/◌, ◌≤◌, true, false, [], ◌∷◌, ◌≡◌, ◌≢◌, refl, ap, arith, length,
  length-append,
}
use scshell.Base.Bits.{bit_of}
use scshell.Session.Family.{update, sum_below-zero}
use scshell.Session.{
  Pc, absent, receiving, at_eof, top, polling, napping, in_callback, ended, got, stored, won,
  fetched, not_begun, State, Step, check, spawn_fails, publish, start_pump, start_watcher,
  child_ends, sees_eof, takes_code, disconnected, finds_dead, polls, finds_exit, finds_none, wakes,
  quits, stores, wins, loses, fetches, finds_no_callback, calls, returns, sets_callbacks, lowers,
  clears, joins_pump, joins_watcher, new, Reach, begin, later, or_zero, keeps_pump, calls_frame,
  frame_done, last_frame_done, in_frame,
}
use scshell.Session.Pending.{pending, owed, no_pump, no_watcher, Inv, owed-check, below, moved}
use scshell.Session.Invariant.{Reach-Inv}
use scshell.Session.Codes.{IsHonest, on_exit_code}

record Full (s : State) : Type 0 where
  installed : s.dropping ≡ not_begun → s.on_exit ≡ true
  paid : s.dropping ≡ not_begun → s.starts ≤ 1 → s.starts ≤ bit_of s.alive + owed s + length s.log

module _ {s : State} (inv : Inv s) (full : Full s) where
  quiet_step :
      (t : ℕ) (p p' : Pc)
      → s.pc t ≡ p
      → p ≢ absent
      → pending p ≤ pending p'
      → Full (record s { pc = update s.pc t p' })
  quiet_step t p p' e ne le = record {
    installed = full.installed;
    paid = λ d k. omega (arith, k, full.paid d k, moved inv t p p' e (below inv t e ne));
  }

Step-Full : {s s' : State} → Step true s s' → Inv s → Full s → Full s'
Step-Full {s} (check d a) inv f = record {
  installed = f.installed;
  paid = λ d k. omega (arith, f.paid d k, owed-check s inv.beyond);
}
Step-Full (spawn_fails g e) inv f = record { installed = f.installed; paid = f.paid }
Step-Full {s} (publish g e) inv f = record {
  installed = f.installed;
  paid = λ d k. omega (arith, k);
}
Step-Full {s} (start_pump g e) inv f =
    let there : g < s.entered = inv.known g (λ c. cc) in
    record {
      installed = f.installed;
      paid = λ d k. omega (
        arith,
        f.paid d k,
        moved inv (2 * g) absent receiving (inv.pump_slot g (ap no_pump e)) (omega arith),
      );
    }
Step-Full {s} (start_watcher g e) inv f =
    let there : g < s.entered = inv.known g (λ c. cc) in
    record {
      installed = f.installed;
      paid = λ d k. omega (
        arith,
        f.paid d k,
        moved inv (2 * g + 1) absent top (inv.watcher_slot g (ap no_watcher e)) (omega arith),
      );
    }
Step-Full (keeps_pump g e) inv f = record { installed = f.installed; paid = f.paid }
Step-Full (calls_frame t e) inv f = quiet_step inv f t receiving in_frame e (λ h. cc) (omega arith)
Step-Full (frame_done t e) inv f = quiet_step inv f t in_frame receiving e (λ h. cc) (omega arith)
Step-Full (last_frame_done t e) inv f = quiet_step inv f t in_frame at_eof e (λ h. cc) (omega arith)
Step-Full (child_ends g c e) inv f = record { installed = f.installed; paid = f.paid }
Step-Full (sees_eof t e) inv f = quiet_step inv f t receiving at_eof e (λ h. cc) (omega arith)
Step-Full (disconnected t e) inv f = quiet_step inv f t receiving ended e (λ h. cc) (omega arith)
Step-Full {s} (takes_code t e) inv f =
    quiet_step inv f t at_eof (got (or_zero (s.child (t / 2)))) e (λ h. cc) (omega arith)
Step-Full (finds_dead t e a) inv f = quiet_step inv f t top ended e (λ h. cc) (omega arith)
Step-Full (polls t e a) inv f = quiet_step inv f t top polling e (λ h. cc) (omega arith)
Step-Full (finds_exit t c e d) inv f = quiet_step inv f t polling (got c) e (λ h. cc) (omega arith)
Step-Full (finds_none t e) inv f = quiet_step inv f t polling napping e (λ h. cc) (omega arith)
Step-Full (wakes t e) inv f = quiet_step inv f t napping top e (λ h. cc) (omega arith)
Step-Full (quits t e a) inv f = quiet_step inv f t napping ended e (λ h. cc) (omega arith)
Step-Full (stores t c e) inv f =
    let quiet = quiet_step inv f t (got c) (stored c) e (λ h. cc) (omega arith) in
    record { installed = quiet.installed; paid = quiet.paid }
Step-Full {s} (wins t c e a) inv f = record {
  installed = f.installed;
  paid = λ d k.
      omega (
        arith,
        f.paid d k,
        moved inv t (stored c) (won c) e (below inv t e (λ h. cc)),
        ap bit_of a,
      );
}
Step-Full (loses t c e a) inv f = quiet_step inv f t (stored c) ended e (λ h. cc) (omega arith)
Step-Full (fetches t c e on) inv f =
    quiet_step inv f t (won c) (fetched c) e (λ h. cc) (omega arith)
Step-Full (finds_no_callback t c e off) inv f = record {
  installed = f.installed;
  paid = λ d k. cc (f.installed d, off);
}
Step-Full {s} (calls t c e) inv f = record {
  installed = f.installed;
  paid = λ d k. omega (
    arith,
    f.paid d k,
    moved inv t (fetched c) in_callback e (below inv t e (λ h. cc)),
    length-append s.log ((t / 2, c) ∷ []),
  );
}
Step-Full (returns t e) inv f = quiet_step inv f t in_callback ended e (λ h. cc) (omega arith)
Step-Full (sets_callbacks on d k) inv f = record { installed = λ _. ground arith; paid = f.paid }
Step-Full (lowers e d) inv f = record { installed = λ h. cc; paid = λ h k. cc }
Step-Full (clears d) inv f = record { installed = λ h. cc; paid = λ h k. cc }
Step-Full (joins_pump d j) inv f = record { installed = λ h. cc; paid = λ h k. cc }
Step-Full (joins_watcher d j) inv f = record { installed = λ h. cc; paid = λ h k. cc }

new-Full : Full (new true)
new-Full = record { installed = λ d. refl; paid = λ d k. omega arith }

Reach-Full : {s : State} → Reach true true s → Full s
Reach-Full begin = new-Full
Reach-Full (later r st) = Step-Full st (Reach-Inv r) (Reach-Full r)

one_entry : (log : List (ℕ × ℕ)) → length log ≡ 1 → (g c : ℕ) × (log ≡ (g, c) ∷ [])
one_entry [] e = absurd (omega arith)
one_entry ((g, c) ∷ []) e = (g, c, refl)
one_entry (x ∷ y ∷ log) e = absurd (omega arith)

-- Of a session that is not dropped, in which `start` has lifted `alive` once and the host keeps its callback:
-- when `alive` is lowered again and no thread is on its way to the callback, `on_exit` has been called
-- exactly once, with the code that the child of that thread has ended with, or 0.
pub every_exit_reported :
    {s : State}
    → Reach true true s
    → s.dropping ≡ not_begun
    → s.starts ≡ 1
    → s.alive ≡ false
    → ((t : ℕ) → pending (s.pc t) ≡ 0)
    → (g c : ℕ) × (s.log ≡ (g, c) ∷ []) × IsHonest (s.child g) c
every_exit_reported {s} r d once a none_left =
    let calls : length s.log ≡ 1 = omega (
      arith,
      once,
      (Reach-Inv r).counted,
      (Reach-Full r).paid d (omega (arith, once)),
      ap bit_of a,
      sum_below-zero pending (2 * s.entered) s.pc none_left,
    ) in
    let (g, c, e) = one_entry s.log calls in (g, c, e, (rw e at (on_exit_code r)).0)
