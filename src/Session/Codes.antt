-- ===== src/Session/Codes.antt =====
-- Which code the host is told: that of the child of the same start, or 0 where the end of the output
-- came first.
use mathlib.Core.Path.{subst}
use scshell.Base.{
  ◌+◌, ◌*◌, ℕ, ◌/◌, Bool, true, false, List, [], ◌∷◌, ◌++◌, Option, none, some, ◌≡◌, ◌⊎◌, inl, inr,
  refl, arith, ◌==◌, ℕ_discrete,
}
use scshell.Session.Family.{update}
use scshell.Session.{
  Pc, receiving, at_eof, top, polling, napping, in_callback, ended, got, stored, won, fetched,
  State, Step, check, spawn_fails, publish, start_pump, start_watcher, child_ends, sees_eof,
  takes_code, disconnected, finds_dead, polls, finds_exit, finds_none, wakes, quits, stores, wins,
  loses, fetches, finds_no_callback, calls, returns, sets_callbacks, lowers, clears, joins_pump,
  joins_watcher, Reach, begin, later, or_zero, keeps_pump, calls_frame, frame_done, last_frame_done,
  in_frame,
}

-- A code that a thread of start `g` may carry, given what `g`'s child has returned.
abbrev pub IsHonest : Option ℕ → ℕ → Type 0
IsHonest o c = (o ≡ some c) ⊎ (c ≡ 0)

abbrev Carries : Option ℕ → Pc → Type 0
Carries o (got c) = IsHonest o c
Carries o (stored c) = IsHonest o c
Carries o (won c) = IsHonest o c
Carries o (fetched c) = IsHonest o c
Carries o _ = Unit

abbrev pub AllHonest : (ℕ → Option ℕ) → List (ℕ × ℕ) → Type 0
AllHonest child [] = Unit
AllHonest child ((g, c) ∷ log) = IsHonest (child g) c × AllHonest child log

record Codes (s : State) : Type 0 where
  carried : (t : ℕ) → Carries (s.child (t / 2)) (s.pc t)
  logged : AllHonest s.child s.log

AllHonest-append :
    (child : ℕ → Option ℕ) (log : List (ℕ × ℕ)) (g c : ℕ)
    → AllHonest child log
    → IsHonest (child g) c
    → AllHonest child (log ++ (g, c) ∷ [])
AllHonest-append child [] g c h k = (k, tt)
AllHonest-append child ((g', c') ∷ log) g c h k = (h.0, AllHonest-append child log g c h.1 k)

-- A child that ends makes no code dishonest.
IsHonest-update :
    (child : ℕ → Option ℕ) (g c : ℕ)
    → child g ≡ none
    → (g' c' : ℕ) → IsHonest (child g') c'
    → IsHonest (update child g (some c) g') c'
IsHonest-update child g c e g' c' (inl h) = inl (ground arith)
IsHonest-update child g c e g' c' (inr z) = inr z

AllHonest-update :
    (child : ℕ → Option ℕ) (g c : ℕ)
    → child g ≡ none
    → (log : List (ℕ × ℕ)) → AllHonest child log
    → AllHonest (update child g (some c)) log
AllHonest-update child g c e [] h = tt
AllHonest-update child g c e ((g', c') ∷ log) h =
    (IsHonest-update child g c e g' c' h.0, AllHonest-update child g c e log h.1)

Carries-update :
    (child : ℕ → Option ℕ) (g c : ℕ)
    → child g ≡ none
    → (g' : ℕ) (p : Pc) → Carries (child g') p
    → Carries (update child g (some c) g') p
Carries-update child g c e g' (got c') h = IsHonest-update child g c e g' c' h
Carries-update child g c e g' (stored c') h = IsHonest-update child g c e g' c' h
Carries-update child g c e g' (won c') h = IsHonest-update child g c e g' c' h
Carries-update child g c e g' (fetched c') h = IsHonest-update child g c e g' c' h
Carries-update child g c e g' _ h = tt

IsHonest-or_zero : (o : Option ℕ) → IsHonest o (or_zero o)
IsHonest-or_zero none = inr refl
IsHonest-or_zero (some c) = inl refl

module _ {s : State} (codes : Codes s) where
  -- Thread `t` goes on with a code that its child allows.
  thread_codes :
      (t : ℕ) (p' : Pc)
      → Carries (s.child (t / 2)) p'
      → (j : ℕ) → Carries (s.child (j / 2)) (update s.pc t p' j)
  thread_codes t p' h j = elim (ℕ_discrete t j) [
    | yes e ↦
        let hit : (t == j) ≡ true = ground arith in
        rw hit (subst (λ (k : ℕ). Carries (s.child (k / 2)) p') e h)
    | no ne ↦ let miss : (t == j) ≡ false = ground arith in rw miss (codes.carried j)
  ]

  move :
      (t : ℕ) (p' : Pc) → Carries (s.child (t / 2)) p' → Codes (record s { pc = update s.pc t p' })
  move t p' h = record { carried = thread_codes t p' h; logged = codes.logged }

  carried_by : (t : ℕ) {p : Pc} → s.pc t ≡ p → Carries (s.child (t / 2)) p
  carried_by t e = rw e at (codes.carried t)

Step-Codes : {hooked : Bool} {s s' : State} → Step hooked s s' → Codes s → Codes s'
Step-Codes (check d a) k = record { carried = k.carried; logged = k.logged }
Step-Codes (spawn_fails g e) k = record { carried = k.carried; logged = k.logged }
Step-Codes (publish g e) k = record { carried = k.carried; logged = k.logged }
Step-Codes (start_pump g e) k = record {
  carried = thread_codes k (2 * g) receiving tt;
  logged = k.logged;
}
Step-Codes (start_watcher g e) k = record {
  carried = thread_codes k (2 * g + 1) top tt;
  logged = k.logged;
}
Step-Codes (keeps_pump g e) k = record { carried = k.carried; logged = k.logged }
Step-Codes (calls_frame t e) k = move k t in_frame tt
Step-Codes (frame_done t e) k = move k t receiving tt
Step-Codes (last_frame_done t e) k = move k t at_eof tt
Step-Codes {s} (child_ends g c e) k = record {
  carried = λ t. Carries-update s.child g c e (t / 2) (s.pc t) (k.carried t);
  logged = AllHonest-update s.child g c e s.log k.logged;
}
Step-Codes (sees_eof t e) k = move k t at_eof tt
Step-Codes (disconnected t e) k = move k t ended tt
Step-Codes {s} (takes_code t e) k = move k t _ (IsHonest-or_zero (s.child (t / 2)))
Step-Codes (finds_dead t e a) k = move k t ended tt
Step-Codes (polls t e a) k = move k t polling tt
Step-Codes (finds_exit t c e d) k = move k t (got c) (inl d)
Step-Codes (finds_none t e) k = move k t napping tt
Step-Codes (wakes t e) k = move k t top tt
Step-Codes (quits t e a) k = move k t ended tt
Step-Codes (stores t c e) k = record {
  carried = thread_codes k t (stored c) (carried_by k t e);
  logged = k.logged;
}
Step-Codes (wins t c e a) k = record {
  carried = thread_codes k t (won c) (carried_by k t e);
  logged = k.logged;
}
Step-Codes (loses t c e a) k = move k t ended tt
Step-Codes (fetches t c e on) k = move k t (fetched c) (carried_by k t e)
Step-Codes (finds_no_callback t c e off) k = move k t ended tt
Step-Codes {s} (calls t c e) k = record {
  carried = thread_codes k t in_callback tt;
  logged = AllHonest-append s.child s.log (t / 2) c k.logged (carried_by k t e);
}
Step-Codes (returns t e) k = move k t ended tt
Step-Codes (sets_callbacks on d h) k = record { carried = k.carried; logged = k.logged }
Step-Codes (lowers e d) k = record { carried = k.carried; logged = k.logged }
Step-Codes (clears d) k = record { carried = k.carried; logged = k.logged }
Step-Codes (joins_pump d j) k = record { carried = k.carried; logged = k.logged }
Step-Codes (joins_watcher d j) k = record { carried = k.carried; logged = k.logged }

Reach-Codes : {hooked on : Bool} {s : State} → Reach hooked on s → Codes s
Reach-Codes begin = record { carried = λ t. tt; logged = tt }
Reach-Codes (later r st) = Step-Codes st (Reach-Codes r)

-- Each call of `on_exit` by a thread of start g has the code with which child g has ended, or 0.
pub on_exit_code : {hooked on : Bool} {s : State} → Reach hooked on s → AllHonest s.child s.log
on_exit_code r = (Reach-Codes r).logged
