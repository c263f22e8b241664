-- ===== src/Ffi/Blocks.antt =====
-- The sessions behind the handles of a host.
use scshell.Base.{
  ℕ, Bool, true, false, [], Option, none, some, Option-cases, ◌≡◌, refl, sym, ap, ◌∙◌, ℕ_discrete,
  inl, inr,
}
use scshell.Error.{invalid}
use scshell.Backend.Dirty.{Screen}
use scshell.Term.{Emulator}
use scshell.Session.Family.{hit, miss, update}
use scshell.Session.Calls.{Session, session_magic}
use scshell.Session.Calls.Kept.{IsServed}
use scshell.Ffi.Memory.{Process, Handle, refused, found, checked, session_from}

abbrev pub blank : Screen
blank y = []

-- Which handles are those of sessions that are not destroyed yet.
abbrev pub Live : Type 0
Live = ℕ → Bool

-- Null, or the handle of such a session.
abbrev pub IsLive : Live → Handle → Type 0
IsLive live none = Unit
IsLive live (some i) = live i ≡ true

abbrev pub held {ℓ} : {A : Type ℓ} → Option A → Bool
held none = false
held (some a) = true

module _ {E : Type 0} (em : Emulator E) where
  -- A session on which no method panics, with its mark.
  pub record IsSession (s : Session E) : Type 0 where
    pub served : IsServed em false s blank
    pub marked : s.magic ≡ session_magic

  -- The memory of the process has a session at each live handle, and nowhere else.
  pub record IsWhole (live : Live) (p : Process E) : Type 0 where
    pub holds : (i : ℕ) → held (p.blocks i) ≡ live i
    pub sessions : (i : ℕ) (s : Session E) → p.blocks i ≡ some s → IsSession s

  pub forget_screen :
      (s : Session E) (screen : Screen) → IsServed em false s screen → IsServed em false s blank
  forget_screen s screen v = record {
    valid = v.valid;
    sound = v.sound;
    shows = λ h. cc;
    asked = λ h. cc;
  }

  -- What a handle leads to.
  pub data Leads (p : Process E) (h : Handle) : Type 0 where
    to_none : session_from p h ≡ refused invalid → h ≡ none → Leads p h
    to_live :
        (i : ℕ) (s : Session E)
        → h ≡ some i
        → p.blocks i ≡ some s
        → IsSession s
        → session_from p h ≡ found i s
        → Leads p h

  pub session_from-Leads :
      (live : Live) (p : Process E) (h : Handle) → IsWhole live p → IsLive live h → Leads p h
  unfolding session_from checked
  session_from-Leads live p none w g = to_none refl refl
  session_from-Leads live p (some i) w g = elim (Option-cases (p.blocks i)) [
    | inl e ↦ let empty = rw e at (w.holds i) in cc
    | inr (s, e) ↦ let k = w.sessions i s e in to_live i s refl e k (rw (e, k.marked) refl)
  ]

  -- The memory with something else at one address.
  pub put-IsWhole :
      (live live' : Live) (p : Process E) (i : ℕ) (o : Option (Session E))
      → IsWhole live p
      → ((s : Session E) → o ≡ some s → IsSession s)
      → ((j : ℕ) → update live i (held o) j ≡ live' j)
      → IsWhole live' (record p { blocks = update p.blocks i o })
  put-IsWhole live live' p i o w k same = record {
    holds = λ j. elim (ℕ_discrete i j) [
      | yes at ↦ rw (hit at) (sym (rw (hit at) at (sym (same j))))
      | no other ↦ rw (miss other) (w.holds j ∙ (rw (miss other) at (same j)))
    ];
    sessions = λ j s e. elim (ℕ_discrete i j) [
      | yes at ↦ k s (rw (hit at) at e)
      | no other ↦ w.sessions j s (rw (miss other) at e)
    ];
  }

  -- A session in the place of one.
  pub live_stays : (live : Live) (i : ℕ) → live i ≡ true → (j : ℕ) → update live i true j ≡ live j
  live_stays live i h j = elim (ℕ_discrete i j) [
    | yes at ↦ rw (hit at) (sym h ∙ ap live at)
    | no other ↦ rw (miss other) refl
  ]
