-- ===== src/Session/Drops.antt =====
-- After the drop: no thread of the session calls `on_exit` any more, also where the host drops the session in a
-- callback of the pump, which then outlives the drop.
use scshell.Base.{ℕ, ◌+◌, ◌*◌, ◌≤◌, Bool, List, ◌≡◌, inl, inr, refl, ap, arith, ℕ_discrete}
use scshell.Session.{
  fetched, freed, State, Step, publish, calls, lowers, clears, joins_pump, joins_watcher, Reach,
  later,
}
use scshell.Session.Pending.{launching, Inv}
use scshell.Session.Invariant.{Reach-Inv}
use scshell.Session.Single.{Single, Reach-Single}
use scshell.Session.Quieted.{in_cleared, in_pump_joined, Quieted, begun, no_start, Reach-Quieted}

-- Any steps.
pub data Steps (hooked : Bool) (s : State) : State → Type 0 where
  here : Steps hooked s s
  next : {t u : State} → Steps hooked s t → Step hooked t u → Steps hooked s u

-- Freed, after one start at most, with the log as it was.
record Silent (log : List (ℕ × ℕ)) (s : State) : Type 0 where
  freed_yet : s.dropping ≡ freed
  few : s.starts ≤ 1
  same : s.log ≡ log

no_caller :
    {s : State}
    → Inv s
    → Single s
    → Quieted s
    → s.dropping ≡ freed
    → s.starts ≤ 1
    → (t c : ℕ) → s.pc t ≡ fetched c
    → ⊥
no_caller {s} inv one k d few t c e =
    let mine = one.owner few t (λ a. cc) in
    elim (ℕ_discrete t (2 * s.latest)) [
      | yes is_pump ↦
          let at_pump : s.pc (2 * s.latest) ≡ fetched c = rw is_pump at e in
          elim (one.pump_kept few (λ a. cc)) [
            | inl up ↦
                let asleep = inv.alone (begun (ap in_cleared d)) s.latest in
                cc (ap launching asleep)
            | inr kept ↦ let quiet = rw (kept, at_pump) at (k.pump_done (ap in_pump_joined d)) in cc
          ]
      | no other ↦
          let is_watcher : t ≡ 2 * s.latest + 1 = omega (arith, mine, other) in
          let at_watcher : s.pc (2 * s.latest + 1) ≡ fetched c = rw is_watcher at e in
          let quiet = rw (one.watcher_kept few (λ a. cc), at_watcher) at (k.watcher_done d) in cc
    ]

Step-Silent :
    {hooked : Bool} {log : List (ℕ × ℕ)} {s s' : State}
    → Step hooked s s'
    → Inv s
    → Single s
    → Quieted s
    → Silent log s
    → Silent log s'
Step-Silent (publish g e) inv one k q =
    absurd (no_start inv g e (λ c. cc) (ap in_cleared q.freed_yet))
Step-Silent (calls t c e) inv one k q = absurd (no_caller inv one k q.freed_yet q.few t c e)
Step-Silent (lowers e d) inv one k q = cc (d, q.freed_yet)
Step-Silent (clears d) inv one k q = cc (d, q.freed_yet)
Step-Silent (joins_pump d j) inv one k q = cc (d, q.freed_yet)
Step-Silent (joins_watcher d j) inv one k q = cc (d, q.freed_yet)
Step-Silent _ inv one k q = record { freed_yet = q.freed_yet; few = q.few; same = q.same }

Steps-Reach :
    {hooked on : Bool} {s s' : State} → Reach hooked on s → Steps hooked s s' → Reach hooked on s'
Steps-Reach r here = r
Steps-Reach r (next ss st) = later (Steps-Reach r ss) st

Steps-Silent :
    {hooked on : Bool} {s s' : State}
    → Reach hooked on s
    → Silent s.log s
    → Steps hooked s s'
    → Silent s.log s'
Steps-Silent r q here = q
Steps-Silent r q (next ss st) =
    let r' = Steps-Reach r ss in
    Step-Silent st (Reach-Inv r') (Reach-Single r') (Reach-Quieted r') (Steps-Silent r q ss)

-- Once `drop` has let go of the pump and the watcher of a session in which `start` has lifted `alive` once at
-- most, no later step of any thread calls `on_exit`. This holds also where the drop runs inside a callback of
-- the pump or the watcher, for a frame, a title, a bell, the clipboard or the exit, and does not wait for that
-- thread.
pub no_call_after_drop :
    {hooked on : Bool} {s s' : State}
    → Reach hooked on s
    → s.dropping ≡ freed
    → s.starts ≤ 1
    → Steps hooked s s'
    → s'.log ≡ s.log
no_call_after_drop r d few ss =
    (Steps-Silent r (record { freed_yet = d; few = few; same = refl }) ss).same
