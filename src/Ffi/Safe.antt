-- ===== src/Ffi/Safe.antt =====
-- Each call of a host on a live handle returns, and leaves the memory as it should be.
use scshell.Base.{ℕ, false, true, List, [], Option, some, ◌≡◌, refl, sym, subst, ◌∙◌, ℤ}
use scshell.Error.{RataError, invalid, store, rata_ok}
use scshell.Term.{Emulator}
use scshell.Session.Family.{update}
use scshell.Session.Calls.{Session, Effect, Reply, ok, err, Action}
use scshell.Session.Calls.Kept.{IsServed, Served}
use scshell.Ffi.Memory.{
  Process, Handle, Outcome, returned, fail, reply_code, on_result, on_block, with_session,
}
use scshell.Ffi.Blocks.{
  blank, Live, IsLive, IsSession, IsWhole, forget_screen, session_from-Leads, to_none, to_live,
  put-IsWhole, live_stays,
}

module _ {E : Type 0} (em : Emulator E) where
  -- A call returns, and behind it the sessions are those at the handles in `live`.
  pub record Returns (act : Process E → Outcome E ℤ) (live : Live) (p : Process E) : Type 0 where
    pub code : ℤ
    pub after : Process E
    pub effects : List Effect
    pub made : act p ≡ returned code after effects
    pub whole : IsWhole em live after

  -- A method that panics on no session.
  abbrev pub IsSafe : Action E (Unit {0}) → Type 0
  IsSafe act = (s : Session E) → IsServed em false s blank → Served em false act s blank

  -- Only the errors of the threads are others.
  same_blocks :
      (live : Live) (p q : Process E)
      → q ≡ record p { errors = q.errors }
      → IsWhole em live p
      → IsWhole em live q
  same_blocks live p q e w =
      subst (IsWhole em live) (sym e) (record { holds = w.holds; sessions = w.sessions })

  pub fail-Returns :
      (live : Live) (t : ℕ) (e : RataError) (p : Process E)
      → IsWhole em live p
      → Returns (fail t e) live p
  unfolding fail store
  fail-Returns live t e p w = record {
    code = (store t e p.errors).0;
    after = record p { errors = (store t e p.errors).1 };
    effects = [];
    made = refl;
    whole = record { holds = w.holds; sessions = w.sessions };
  }

  -- Nothing is done.
  pub idle-Returns :
      (live : Live) (act : Process E → Outcome E ℤ) (p : Process E)
      → act p ≡ returned rata_ok p []
      → IsWhole em live p
      → Returns act live p
  idle-Returns live act p e w = record {
    code = rata_ok;
    after = p;
    effects = [];
    made = e;
    whole = w;
  }

  -- The reply of a method.
  pub reply_code-Returns :
      (live : Live) (act : Process E → Outcome E ℤ) (t : ℕ) (reply : Reply (Unit {0}))
      (p q : Process E) (effects : List Effect)
      → act p ≡ reply_code t reply q effects
      → IsWhole em live q
      → Returns act live p
  unfolding reply_code
  reply_code-Returns live act t (ok u) p q effects e w = record {
    code = rata_ok;
    after = q;
    effects = effects;
    made = e;
    whole = w;
  }
  reply_code-Returns live act t (err x) p q effects e w = record {
    code = (store t x q.errors).0;
    after = record q { errors = (store t x q.errors).1 };
    effects = effects;
    made = e;
    whole = record { holds = w.holds; sessions = w.sessions };
  }

  -- A session in the place of the one that was there.
  pub put-Returns :
      (live : Live) (act : Process E → Outcome E ℤ) (p : Process E) (i : ℕ) (new : Session E)
      → IsWhole em live p
      → live i ≡ true
      → IsSession em new
      → (t : ℕ) (reply : Reply (Unit {0})) (effects : List Effect)
      → act p ≡ reply_code t reply (record p { blocks = update p.blocks i (some new) }) effects
      → Returns act live p
  put-Returns live act p i new w h k t reply effects made =
      reply_code-Returns live act t reply p (record p { blocks = update p.blocks i (some new) })
        effects made
        (put-IsWhole em live live p i (some new) w
          (λ s e. let same : new ≡ s = cc in subst (IsSession em) same k) (live_stays em live i h))

  pub Served-IsSession :
      (act : Action E (Unit {0})) (s : Session E)
      → IsSession em s
      → (d : Served em false act s blank) → IsSession em d.after
  Served-IsSession act s k d = record {
    served = forget_screen em d.after _ d.served;
    marked = d.same_magic ∙ k.marked;
  }

  on_result-some :
      (t i : ℕ) (p : Process E) (o : Option (Reply (Unit {0}) × Session E × List Effect))
      (reply : Reply (Unit {0})) (s : Session E) (effects : List Effect)
      → o ≡ some (reply, s, effects)
      → on_result t i p o
        ≡ reply_code t reply (record p { blocks = update p.blocks i (some s) }) effects
  unfolding on_result
  on_result-some t i p o reply s effects e = rw e refl

  -- What is live is where the memory has a session.
  pub live_at :
      (live : Live) (p : Process E) (i : ℕ) (s : Session E)
      → IsWhole em live p
      → p.blocks i ≡ some s
      → live i ≡ true
  live_at live p i s w e = sym (rw e at (w.holds i))

  pub on_block-Returns :
      (live : Live) (act : Action E (Unit {0})) (t i : ℕ) (s : Session E) (p : Process E)
      → IsSafe act
      → IsWhole em live p
      → p.blocks i ≡ some s
      → IsSession em s
      → Returns (on_block t act i s) live p
  unfolding on_block
  on_block-Returns live act t i s p safe w e k =
      let done = safe s k.served in
      put-Returns live (on_block t act i s) p i done.after w (live_at live p i s w e)
        (Served-IsSession act s k done) t done.reply done.effects
        (on_result-some t i p (act s) done.reply done.after done.effects done.made)

  -- A call that does the same on this process.
  pub Returns-eq :
      (live : Live) (act other : Process E → Outcome E ℤ) (p : Process E)
      → act p ≡ other p
      → Returns other live p
      → Returns act live p
  Returns-eq live act other p e r = record {
    code = r.code;
    after = r.after;
    effects = r.effects;
    made = e ∙ r.made;
    whole = r.whole;
  }

  pub with_session-Returns :
      (live : Live) (act : Action E (Unit {0})) (t : ℕ) (h : Handle) (p : Process E)
      → IsSafe act
      → IsWhole em live p
      → IsLive live h
      → Returns (with_session t h act) live p
  unfolding with_session
  with_session-Returns live act t h p safe w g = elim (session_from-Leads em live p h w g) [
    | to_none e null ↦
        Returns-eq live (with_session t h act) (fail t invalid) p (rw (with_session, e) refl)
          (fail-Returns live t invalid p w)
    | to_live i s e at k found_it ↦
        Returns-eq live (with_session t h act) (on_block t act i s) p
          (rw (with_session, found_it) refl) (on_block-Returns live act t i s p safe w at k)
  ]
