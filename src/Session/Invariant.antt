-- ===== src/Session/Invariant.antt =====
-- How often `on_exit` is called: the right to call it is won from `alive`, once for each start.
use scshell.Base.{
  ℕ_discrete, true, false, ◌≡◌, ◌+◌, ◌*◌, ◌<◌, ◌/◌, ◌≤◌, Bool, [], ◌∷◌, refl, ap, arith, length,
  length-append,
}
use scshell.Base.Bits.{bit_of}
use scshell.Session.Family.{hit, miss, sum_below-zero}
use scshell.Session.{
  absent, receiving, at_eof, top, polling, napping, in_callback, ended, got, stored, won, fetched,
  State, Step, check, spawn_fails, publish, start_pump, start_watcher, child_ends, sees_eof,
  takes_code, disconnected, finds_dead, polls, finds_exit, finds_none, wakes, quits, stores, wins,
  loses, fetches, finds_no_callback, calls, returns, sets_callbacks, lowers, clears, joins_pump,
  joins_watcher, new, Reach, begin, later, or_zero, idle, checked, published, pump_up, watcher_up,
  keeps_pump, calls_frame, frame_done, last_frame_done, in_frame,
}
use scshell.Session.Pending.{
  no_pump, no_watcher, starter_step, pending, Inv, owed-check, below, moved, beyond_update,
  slot_kept, thread_step,
}

bit_of_small : (b : Bool) → bit_of b ≤ 1
bit_of_small b = ground arith

pub Step-Inv : {hooked : Bool} {s s' : State} → Step hooked s s' → Inv s → Inv s'
Step-Inv {s} (check d a) inv = record {
  counted = omega (arith, inv.counted, owed-check s inv.beyond);
  beyond = λ t h. inv.beyond t (omega arith);
  known = λ g h. elim (ℕ_discrete s.entered g) [
    | yes same ↦ omega arith
    | no other ↦ let k = inv.known g (rw (miss other) at h) in omega arith
  ];
  alone = λ h. absurd (h d);
  watcher_slot = λ g h. elim (ℕ_discrete s.entered g) [
    | yes same ↦ inv.beyond _ (omega arith)
    | no other ↦ inv.watcher_slot g (rw (miss other) at h)
  ];
  pump_slot = λ g h. elim (ℕ_discrete s.entered g) [
    | yes same ↦ inv.beyond _ (omega arith)
    | no other ↦ inv.pump_slot g (rw (miss other) at h)
  ];
}
Step-Inv {s} (spawn_fails g e) inv =
    starter_step inv g checked idle e (λ c. cc) (λ c. cc) (λ c. cc) (λ h. cc (inv.alone h g))
Step-Inv {s} (publish g e) inv =
    let moves =
      starter_step inv g checked published e (λ c. cc) (λ c. refl) (λ c. refl)
        (λ h. cc (inv.alone h g)) in
    record {
      counted = omega (arith, inv.counted, bit_of_small s.alive);
      beyond = moves.beyond;
      known = moves.known;
      alone = moves.alone;
      watcher_slot = moves.watcher_slot;
      pump_slot = moves.pump_slot;
    }
Step-Inv {s} (start_pump g e) inv =
    let moves =
      starter_step inv g published pump_up e (λ c. cc) (λ c. cc) (λ c. refl)
        (λ h. cc (inv.alone h g)) in
    let there : g < s.entered = inv.known g (λ c. cc) in
    record {
      counted = omega (
        arith,
        inv.counted,
        moved inv (2 * g) absent receiving (inv.pump_slot g (ap no_pump e)) (omega arith),
      );
      beyond = beyond_update inv (2 * g) receiving (omega arith);
      known = moves.known;
      alone = moves.alone;
      watcher_slot = λ j h. ground (arith, moves.watcher_slot j h);
      pump_slot = λ j h. elim (ℕ_discrete g j) [
        | yes same ↦ let k : false ≡ true = rw (hit same) at h in cc
        | no other ↦ ground (arith, moves.pump_slot j h)
      ];
    }
Step-Inv {s} (start_watcher g e) inv =
    let moves =
      starter_step inv g pump_up watcher_up e (λ c. cc) (λ c. cc) (λ c. cc)
        (λ h. cc (inv.alone h g)) in
    let there : g < s.entered = inv.known g (λ c. cc) in
    record {
      counted = omega (
        arith,
        inv.counted,
        moved inv (2 * g + 1) absent top (inv.watcher_slot g (ap no_watcher e)) (omega arith),
      );
      beyond = beyond_update inv (2 * g + 1) top (omega arith);
      known = moves.known;
      alone = moves.alone;
      watcher_slot = λ j h. elim (ℕ_discrete g j) [
        | yes same ↦ let k : false ≡ true = rw (hit same) at h in cc
        | no other ↦ ground (arith, moves.watcher_slot j h)
      ];
      pump_slot = λ j h. ground (arith, moves.pump_slot j h);
    }
Step-Inv {s} (keeps_pump g e) inv =
    let moves =
      starter_step inv g watcher_up idle e (λ c. cc) (λ c. cc) (λ c. cc)
        (λ h. cc (inv.alone h g)) in
    record {
      counted = moves.counted;
      beyond = moves.beyond;
      known = moves.known;
      alone = moves.alone;
      watcher_slot = moves.watcher_slot;
      pump_slot = moves.pump_slot;
    }
Step-Inv (calls_frame t e) inv = thread_step inv t receiving in_frame e (λ h. cc) (omega arith)
Step-Inv (frame_done t e) inv = thread_step inv t in_frame receiving e (λ h. cc) (omega arith)
Step-Inv (last_frame_done t e) inv = thread_step inv t in_frame at_eof e (λ h. cc) (omega arith)
Step-Inv (child_ends g c e) inv = record {
  counted = inv.counted;
  beyond = inv.beyond;
  known = inv.known;
  alone = inv.alone;
  watcher_slot = inv.watcher_slot;
  pump_slot = inv.pump_slot;
}
Step-Inv (sees_eof t e) inv = thread_step inv t receiving at_eof e (λ h. cc) (omega arith)
Step-Inv (disconnected t e) inv = thread_step inv t receiving ended e (λ h. cc) (omega arith)
Step-Inv {s} (takes_code t e) inv =
    thread_step inv t at_eof (got (or_zero (s.child (t / 2)))) e (λ h. cc) (omega arith)
Step-Inv (finds_dead t e a) inv = thread_step inv t top ended e (λ h. cc) (omega arith)
Step-Inv (polls t e a) inv = thread_step inv t top polling e (λ h. cc) (omega arith)
Step-Inv (finds_exit t c e d) inv = thread_step inv t polling (got c) e (λ h. cc) (omega arith)
Step-Inv (finds_none t e) inv = thread_step inv t polling napping e (λ h. cc) (omega arith)
Step-Inv (wakes t e) inv = thread_step inv t napping top e (λ h. cc) (omega arith)
Step-Inv (quits t e a) inv = thread_step inv t napping ended e (λ h. cc) (omega arith)
Step-Inv (stores t c e) inv =
    let moves = thread_step inv t (got c) (stored c) e (λ h. cc) (omega arith) in
    record {
      counted = moves.counted;
      beyond = moves.beyond;
      known = moves.known;
      alone = moves.alone;
      watcher_slot = moves.watcher_slot;
      pump_slot = moves.pump_slot;
    }
Step-Inv {s} (wins t c e a) inv = record {
  counted =
      omega (
        arith,
        inv.counted,
        moved inv t (stored c) (won c) e (below inv t e (λ h. cc)),
        ap bit_of a,
      );
  beyond = beyond_update inv t (won c) (below inv t e (λ h. cc));
  known = inv.known;
  alone = inv.alone;
  watcher_slot = λ g h. slot_kept inv t (2 * g + 1) (won c) e (λ k. cc) (inv.watcher_slot g h);
  pump_slot = λ g h. slot_kept inv t (2 * g) (won c) e (λ k. cc) (inv.pump_slot g h);
}
Step-Inv (loses t c e a) inv = thread_step inv t (stored c) ended e (λ h. cc) (omega arith)
Step-Inv (fetches t c e on) inv = thread_step inv t (won c) (fetched c) e (λ h. cc) (omega arith)
Step-Inv (finds_no_callback t c e off) inv =
    thread_step inv t (won c) ended e (λ h. cc) (omega arith)
Step-Inv {s} (calls t c e) inv = record {
  counted = omega (
    arith,
    inv.counted,
    moved inv t (fetched c) in_callback e (below inv t e (λ h. cc)),
    length-append s.log ((t / 2, c) ∷ []),
  );
  beyond = beyond_update inv t in_callback (below inv t e (λ h. cc));
  known = inv.known;
  alone = inv.alone;
  watcher_slot = λ g h. slot_kept inv t (2 * g + 1) in_callback e (λ k. cc) (inv.watcher_slot g h);
  pump_slot = λ g h. slot_kept inv t (2 * g) in_callback e (λ k. cc) (inv.pump_slot g h);
}
Step-Inv (returns t e) inv = thread_step inv t in_callback ended e (λ h. cc) (omega arith)
Step-Inv (sets_callbacks on d k) inv = record {
  counted = inv.counted;
  beyond = inv.beyond;
  known = inv.known;
  alone = inv.alone;
  watcher_slot = inv.watcher_slot;
  pump_slot = inv.pump_slot;
}
Step-Inv (lowers e d) inv = record {
  counted = omega (arith, inv.counted);
  beyond = inv.beyond;
  known = inv.known;
  alone = λ _. e;
  watcher_slot = inv.watcher_slot;
  pump_slot = inv.pump_slot;
}
Step-Inv (clears d) inv = record {
  counted = inv.counted;
  beyond = inv.beyond;
  known = inv.known;
  alone = λ _. inv.alone (λ h. cc);
  watcher_slot = inv.watcher_slot;
  pump_slot = inv.pump_slot;
}
Step-Inv (joins_pump d j) inv = record {
  counted = inv.counted;
  beyond = inv.beyond;
  known = inv.known;
  alone = λ _. inv.alone (λ h. cc);
  watcher_slot = inv.watcher_slot;
  pump_slot = inv.pump_slot;
}
Step-Inv (joins_watcher d j) inv = record {
  counted = inv.counted;
  beyond = inv.beyond;
  known = inv.known;
  alone = λ _. inv.alone (λ h. cc);
  watcher_slot = inv.watcher_slot;
  pump_slot = inv.pump_slot;
}

new-Inv : (on : Bool) → Inv (new on)
new-Inv on = record {
  counted = omega (arith, sum_below-zero pending 0 (λ _. absent) (λ t. refl));
  beyond = λ t h. refl;
  known = λ g h. absurd (h refl);
  alone = λ h g. refl;
  watcher_slot = λ g h. refl;
  pump_slot = λ g h. refl;
}

pub Reach-Inv : {hooked on : Bool} {s : State} → Reach hooked on s → Inv s
Reach-Inv {on} begin = new-Inv on
Reach-Inv (later r st) = Step-Inv st (Reach-Inv r)

-- In every interleaving of a session in which `start` has lifted `alive` once at most, `on_exit` is called at
-- most once, by whichever threads.
pub on_exit_once :
    {hooked on : Bool} {s : State} → Reach hooked on s → s.starts ≤ 1 → length s.log ≤ 1
on_exit_once r once = omega (arith, once, (Reach-Inv r).counted)
