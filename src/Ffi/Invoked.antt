-- ===== src/Ffi/Invoked.antt =====
-- What the calls of a host come to, one at a time and in a row.
use scshell.Base.{
  ℕ, ◌<◌, ◌^◌, Bool, true, false, Option-cases, [], ◌∷◌, Option, none, some, ◌≡◌, arith, refl,
  subst, sym, inl, inr, Bytes, codes, ℤ,
}
use scshell.Error.{invalid, arg, rata_ok}
use scshell.Term.{Emulator}
use scshell.Session.Calls.{
  Callbacks, Session, Effect, Reply, ok, err, Action, session_magic, drop_session,
}
use scshell.Session.Calls as Calls
use scshell.Session.Calls.Requests.{Request, search_next, perform, IsAllowed}
use scshell.Session.Calls.Shown.{perform-Served, new-IsServed}
use scshell.Term.Search as Search
use scshell.Ffi.Options.{read_utf8, RataSpawnOptions, spawn_options}
use scshell.Ffi.Memory.{
  Process, Handle, Outcome, Found, checked, session_from, fail, reply_code, on_block, with_session,
  rata_session_destroy, rata_session_create,
}
use scshell.Ffi.Blocks.{
  Live, IsLive, IsSession, IsWhole, blank, session_from-Leads, to_none, to_live, put-IsWhole,
}
use scshell.Ffi.Plain.{request_kind, is_plain, is_search, is_pump, invoke_request-plain}
use scshell.Ffi.Safe.{
  Returns, IsSafe, fail-Returns, on_block-Returns, Returns-eq, put-Returns, with_session-Returns,
  idle-Returns, Served-IsSession, live_at,
}
use scshell.Session.Family.{update}
use scshell.Ffi.Exports.{search_session, search_pattern, SearchOut}
use scshell.Ffi.Sequences.{
  Call, create, destroy, invoke, pump_at, code_of, invoke_search, invoke_request, call,
}

-- The sizes are `u16`.
abbrev pub AreWords : Option RataSpawnOptions → Type 0
AreWords none = Unit
AreWords (some opts) = (opts.cols < 2 ^ 16) × (opts.rows < 2 ^ 16)

-- Handles are null or live, sizes are `u16`, and the allocator puts a session where no other one is.
abbrev pub IsSane : Live → Call → Type 0
IsSane live (create opts to_handle place) = AreWords opts × (live place ≡ false)
IsSane live (destroy h) = IsLive live h
IsSane live (invoke h r) = IsLive live h × IsAllowed false r

-- Which handles are live behind a call.
abbrev pub after_call : Live → Call → Live
after_call live (create (some opts) true place) = update live place true
after_call live (destroy (some i)) = update live i false
after_call live _ = live

module _ {E : Type 0} (em : Emulator E) where
  pub perform-IsSafe : (r : Request) → IsAllowed false r → IsSafe em (perform em r)
  perform-IsSafe r a s v = perform-Served em false r s blank a v

  pump_at-Returns :
      (live : Live) (act : Action E (Unit {0})) (t : ℕ) (h : Handle) (p : Process E)
      → IsSafe em act
      → IsWhole em live p
      → Returns em (pump_at h act t) live p
  pump_at-Returns live act t none p safe w = idle-Returns em live (pump_at none act t) p refl w
  pump_at-Returns live act t (some i) p safe w = elim (Option-cases (p.blocks i)) [
    | inl e ↦ idle-Returns em live (pump_at (some i) act t) p (rw e refl) w
    | inr (s, e) ↦
        Returns-eq em live (pump_at (some i) act t) (on_block t act i s) p (rw e refl)
          (on_block-Returns em live act t i s p safe w e (w.sessions i s e))
  ]

  -- A session that has searched.
  searched-IsSession :
      (pattern : Bytes) (forward : Bool) (s : Session E)
      → IsSession em s
      → IsSession em (record s { term = (Search.search_next em s.term pattern forward).0 })
  searched-IsSession pattern forward s k =
      let done = perform-IsSafe (search_next pattern forward) tt s k.served in
      let same : done.after ≡ record s { term = (Search.search_next em s.term pattern forward).0 } =
        cc done.made in
      subst (IsSession em) same (Served-IsSession em _ s k done)

  -- The code of a search whose pattern was read.
  abbrev code_of_search : Option Bytes → ℕ → Handle → Bool → Process E → Outcome E ℤ
  code_of_search pattern t h forward p =
      code_of (λ (out : SearchOut). out.0) (search_pattern em pattern t h forward none none none p)

  code_of_search-Returns :
      (live : Live) (pattern : Option Bytes) (t : ℕ) (h : Handle) (forward : Bool) (p : Process E)
      → IsWhole em live p
      → IsLive live h
      → Returns em (code_of_search pattern t h forward) live p
  unfolding search_session fail reply_code
  code_of_search-Returns live none t h forward p w g = idle-Returns em live _ p refl w
  code_of_search-Returns live (some []) t h forward p w g = idle-Returns em live _ p refl w
  code_of_search-Returns live (some (c ∷ s)) t h forward p w g =
      elim (session_from-Leads em live p h w g) [
        | to_none e null ↦
            Returns-eq em live (code_of_search (some (c ∷ s)) t h forward) (fail t invalid) p
              (rw (search_session, e) refl) (fail-Returns em live t invalid p w)
        | to_live i b e at k found_it ↦
            put-Returns em live (code_of_search (some (c ∷ s)) t h forward) p i _ w
              (live_at em live p i b w at) (searched-IsSession (c ∷ s) forward b k) t (ok tt) []
              (rw (search_session, found_it) refl)
      ]

  invoke_search-Returns :
      (live : Live) (t : ℕ) (h : Handle) (pattern : Bytes) (forward : Bool) (p : Process E)
      → IsWhole em live p
      → IsLive live h
      → Returns em (invoke_search em t h pattern forward) live p
  invoke_search-Returns live t h pattern forward p w g =
      code_of_search-Returns live (read_utf8 (some pattern)) t h _ p w g

  invoke_request-Returns :
      (live : Live) (t : ℕ) (h : Handle) (r : Request) (p : Process E)
      → IsAllowed false r
      → IsWhole em live p
      → IsLive live h
      → Returns em (invoke_request em t h r) live p
  invoke_request-Returns live t h r p a w g = elim (request_kind em r) [
    | is_plain plain ↦
        Returns-eq em live (invoke_request em t h r) (with_session t h (perform em r)) p
          (invoke_request-plain em t h r p plain)
          (with_session-Returns em live (perform em r) t h p (perform-IsSafe r a) w g)
    | is_search pattern forward e ↦
        subst (λ q. Returns em (invoke_request em t h q) live p) (sym e)
          (invoke_search-Returns live t h pattern forward p w g)
    | is_pump e ↦
        Returns-eq em live (invoke_request em t h r) (pump_at h (perform em r) t) p (e t h p)
          (pump_at-Returns live (perform em r) t h p (perform-IsSafe r a) w)
  ]

  checked_found :
      (p : Process E) (i : ℕ) {r : Found E}
      → session_from p (some i) ≡ r
      → checked i (p.blocks i) ≡ r
  unfolding session_from
  checked_found p i e = e

  destroy-Returns :
      (live : Live) (t : ℕ) (h : Handle) (p : Process E)
      → IsWhole em live p
      → IsLive live h
      → Returns em (rata_session_destroy t h) (after_call live (destroy h)) p
  unfolding rata_session_destroy drop_session
  destroy-Returns live t none p w g = idle-Returns em live _ p refl w
  destroy-Returns live t (some i) p w g = elim (session_from-Leads em live p (some i) w g) [
    | to_none e null ↦ cc
    | to_live j s e at k found_it ↦ record {
      code = rata_ok;
      after = record p { blocks = update p.blocks i none };
      effects = drop_session (record s { magic = 0 });
      made =
          let same : i ≡ j = cc in rw (rata_session_destroy, checked_found p i found_it, same) refl;
      whole = put-IsWhole em live (update live i false) p i none w (λ x h. cc) (λ j. refl);
    }
  ]

  new-IsSession :
      (opts : RataSpawnOptions)
      → AreWords (some opts)
      → IsSession em (Calls.new em (spawn_options opts))
  unfolding Calls.new spawn_options
  new-IsSession opts (cols, rows) = record {
    served =
        new-IsServed em false (spawn_options opts) Calls.no_callbacks blank (omega arith)
          (omega arith) (λ h. cc);
    marked = refl;
  }

  create-Returns :
      (live : Live) (t : ℕ) (opts : Option RataSpawnOptions) (to_handle : Bool) (place : ℕ)
      (p : Process E)
      → AreWords opts
      → IsWhole em live p
      → Returns em
          (call em t (create opts to_handle place))
          (after_call live (create opts to_handle place))
          p
  unfolding call rata_session_create fail
  create-Returns live t none to_handle place p a w =
      Returns-eq em live _ (fail t (arg (codes "null pointer"))) p refl
        (fail-Returns em live t _ p w)
  create-Returns live t (some opts) false place p a w =
      Returns-eq em live _ (fail t (arg (codes "null pointer"))) p refl
        (fail-Returns em live t _ p w)
  create-Returns live t (some opts) true place p a w = record {
    code = rata_ok;
    after = record p { blocks = update p.blocks place (some (Calls.new em (spawn_options opts))) };
    effects = [];
    made = refl;
    whole =
        put-IsWhole em live (update live place true) p place _ w
          (λ s e.
            let same : Calls.new em (spawn_options opts) ≡ s = cc in
            subst (IsSession em) same (new-IsSession opts a))
          (λ j. refl);
  }

  pub call-Returns :
      (live : Live) (t : ℕ) (c : Call) (p : Process E)
      → IsSane live c
      → IsWhole em live p
      → Returns em (call em t c) (after_call live c) p
  unfolding call
  call-Returns live t (create opts to_handle place) p (a, free) w =
      create-Returns live t opts to_handle place p a w
  call-Returns live t (destroy h) p g w = destroy-Returns live t h p w g
  call-Returns live t (invoke h r) p (g, a) w = invoke_request-Returns live t h r p a w g
