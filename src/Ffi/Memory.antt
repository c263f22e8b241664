-- ===== src/Ffi/Memory.antt =====
-- rata_shell/src/ffi.rs: handles, and what they point to. What stands in memory that was freed is not known, so
-- to read it is an access that is not allowed, and its address may be given out again.
use scshell.Base.{ℕ, Bool, true, false, List, [], Option, none, some, ◌==◌, if◌then◌else◌, codes, ℤ}
use scshell.Error.{RataError, invalid, arg, LastErrors, store, rata_ok}
use scshell.Term.{Emulator}
use scshell.Session.Calls.{Session, Effect, Reply, ok, err, Action, session_magic, drop_session}
use scshell.Session.Calls as Calls
use scshell.Session.Family.{update}
use scshell.Ffi.Options.{RataSpawnOptions, spawn_options}

-- What the calls of a host share: the `Box<Session>` at each address, where there is one, and the errors.
pub record Process (E : Type 0) : Type 0 where
  pub blocks : ℕ → Option (Session E)
  pub errors : LastErrors

-- `RataSession`: null, or an address.
abbrev pub Handle : Type 0
Handle = Option ℕ

-- What a call does: an access that is not allowed, a panic, which `guard` turns into `RATA_ERR_PANIC`, or a
-- return with what was called on the way.
pub data Outcome (E A : Type 0) : Type 0 where
  fault panicked : Outcome E A
  returned : A → Process E → List Effect → Outcome E A

pub data Found (E : Type 0) : Type 0 where
  wild : Found E
  refused : RataError → Found E
  found : ℕ → Session E → Found E

module _ {E : Type 0} where
  -- The magic of the session that a handle points to; where there is none, the read is not allowed.
  unfoldable pub checked : ℕ → Option (Session E) → Found E
  checked i none = wild
  checked i (some s) = if s.magic == session_magic then found i s else refused invalid

  unfoldable pub session_from : Process E → Handle → Found E
  unfolding checked
  session_from p none = refused invalid
  session_from p (some i) = checked i (p.blocks i)

  -- `return store(&e)` on thread `t`.
  unfoldable pub fail : ℕ → RataError → Process E → Outcome E ℤ
  fail t e p =
      let (code, errors) = store t e p.errors in returned code (record p { errors = errors }) []

  -- `Ok(()) => RATA_OK, Err(e) => store(&e)`
  unfoldable pub reply_code : ℕ → Reply (Unit {0}) → Process E → List Effect → Outcome E ℤ
  reply_code t (ok u) p effects = returned rata_ok p effects
  reply_code t (err e) p effects =
      let (code, errors) = store t e p.errors in
      returned code (record p { errors = errors }) effects

  -- What a method on the session at an address comes to.
  unfoldable pub on_result :
      ℕ → ℕ → Process E → Option (Reply (Unit {0}) × Session E × List Effect) → Outcome E ℤ
  unfolding reply_code
  on_result t i p none = panicked
  on_result t i p (some (reply, s, effects)) =
      reply_code t reply (record p { blocks = update p.blocks i (some s) }) effects

  -- A method on the session at an address.
  unfoldable pub on_block : ℕ → Action E (Unit {0}) → ℕ → Session E → Process E → Outcome E ℤ
  on_block t act i s p = on_result t i p (act s)

  -- `guard(|| match session_from(handle) { Ok(s) => …, Err(e) => store(&e) })`
  unfoldable pub with_session : ℕ → Handle → Action E (Unit {0}) → Process E → Outcome E ℤ
  with_session t h act p = elim (session_from p h) [
    | wild ↦ fault
    | refused e ↦ fail t e p
    | found i s ↦ on_block t act i s p
  ]

  -- `guard_with(default, || match session_from(handle) { Ok(s) => …, Err(_) => default })`
  unfoldable pub query : {A : Type 0} → Handle → A → (Session E → A) → Process E → Outcome E A
  query h default f p = elim (session_from p h) [
    | wild ↦ fault
    | refused e ↦ returned default p []
    | found i s ↦ returned (f s) p []
  ]

  -- `rata_session_destroy`: the magic is cleared, and `Box::from_raw` drops the session and frees it.
  unfoldable pub rata_session_destroy : ℕ → Handle → Process E → Outcome E ℤ
  rata_session_destroy t none p = returned rata_ok p []
  rata_session_destroy t (some i) p = elim (checked i (p.blocks i)) [
    | wild ↦ fault
    | refused e ↦ fail t e p
    | found i s ↦
        let s = record s { magic = 0 } in
        returned rata_ok (record p { blocks = update p.blocks i none }) (drop_session s)
  ]

module _ {E : Type 0} (em : Emulator E) where
  -- `rata_session_create`: the code, and what `out_handle` gets. `to_handle` tells that it is not null, and
  -- `place` is where the allocator puts the session.
  unfoldable pub rata_session_create :
      ℕ
      → (opts : Option RataSpawnOptions) → (to_handle : Bool) → (place : ℕ) → Process E
      → Outcome E (ℤ × Handle)
  rata_session_create t none to_handle place p =
      let (code, errors) = store t (arg (codes "null pointer")) p.errors in
      returned (code, none) (record p { errors = errors }) []
  rata_session_create t (some opts) false place p =
      let (code, errors) = store t (arg (codes "null pointer")) p.errors in
      returned (code, none) (record p { errors = errors }) []
  rata_session_create t (some opts) true place p =
      returned (rata_ok, some place)
        (record p { blocks = update p.blocks place (some (Calls.new em (spawn_options opts))) }) []
