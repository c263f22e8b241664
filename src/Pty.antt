-- ===== src/Pty.antt =====
-- rata_shell/src/pty/conpty.rs and rata_shell/src/pty/job.rs: a pseudo console with its child, and
-- every handle that is opened and closed on the way. What Windows answers is a parameter.
pub mod Handles
pub mod Spawn
pub mod Owners
use scshell.Base.{
  ℕ, zero, suc, ◌^◌, ◌%◌, Bool, true, false, not, ◌||◌, Option, none, some, ltb, ◌==◌,
  if◌then◌else◌, max, as_u16,
}
pub use Handles.{
  Resource, in_read, in_write, out_read, out_write, console, attr_list, job, process, thread, Held,
  none_held,
}
unfoldable pub use Handles.{acquire, release, kill, launch}

-- The answer of each call that can fail: `none` is success, `some e` an HRESULT. `attr_size` is the
-- size that the first `InitializeProcThreadAttributeList` asks for.
pub record Os : Type 0 where
  pub pipe_in : Option ℕ
  pub pipe_out : Option ℕ
  pub pseudo_console : Option ℕ
  pub attr_size : ℕ
  pub init_list : Option ℕ
  pub update_list : Option ℕ
  pub create_job : Option ℕ
  pub limit_job : Option ℕ
  pub create_process : Option ℕ
  pub assign_job : Option ℕ

-- What of `PtyHost` is not a handle of `Held`: the length of `attr_buf`.
pub record PtyHost : Type 0 where
  pub attr_len : ℕ

pub data Outcome (A : Type 0) : Type 0 where
  ok : A → Outcome A
  os_error : ℕ → Outcome A

-- A piece of the function: the handles before, the outcome and the handles after.
abbrev pub Step : Type 0 → Type 0
Step A = Held → Outcome A × Held

infixl 5 ◌>>=◌ ◌>>◌
abbrev pub ◌>>=◌ : {A B : Type 0} → Step A → (A → Step B) → Step B
◌>>=◌ m f h = let (o, h') = m h in elim o [ ok a ↦ f a h' | os_error e ↦ (os_error e, h') ]

abbrev pub ◌>>◌ : {B : Type 0} → Step (Unit {0}) → Step B → Step B
m >> k = m >>= λ _. k

-- A call that cannot fail, and the end of the function.
abbrev pub effect : (Held → Held) → Step (Unit {0})
effect f h = (ok tt, f h)

abbrev pub return : {A : Type 0} → A → Step A
return a h = (ok a, h)

-- A call that does `f` where it succeeds.
unfoldable pub call : Option ℕ → (Held → Held) → Step (Unit {0})
call none f h = (ok tt, f h)
call (some e) f h = (os_error e, h)

-- `if let Err(e) = … { cleanup; return Err(e) }`
unfoldable pub or_undo : Step (Unit {0}) → (Held → Held) → Step (Unit {0})
or_undo m cleanup h =
    let (o, h') = m h in elim o [ ok u ↦ (ok u, h') | os_error e ↦ (os_error e, cleanup h') ]

-- `JobHandle::create`. The handle is still raw when the limit is set, so nothing closes it then.
unfoldable pub create_job : Os → Step (Unit {0})
unfolding call
create_job os = do call os.create_job (acquire job); call os.limit_job (λ h. h)

-- `JobHandle::assign` and `Drop for JobHandle`.
abbrev pub assign : Os → Step (Unit {0})
assign os = call os.assign_job (λ h. record h { child_in_job = true })

abbrev pub drop_job : Held → Held
drop_job h = release job h

unfoldable pub undo_console : Held → Held
undo_console h = release out_read (release in_write (release console h))

-- What runs behind `JobHandle::create`: the job is a local value, and every return drops it.
unfoldable pub start_child : Os → Step (Unit {0})
unfolding call or_undo undo_console
start_child os = do
  or_undo (call os.create_process launch) (λ h. drop_job (undo_console (release attr_list h)))
  or_undo (assign os)
      (λ h. drop_job (undo_console (release attr_list (release process (release thread (kill h))))))

-- `PtyHost::spawn`
unfoldable pub spawn : Os → Step PtyHost
unfolding call or_undo undo_console create_job start_child
spawn os = do
  call os.pipe_in (λ h. acquire in_write (acquire in_read h))
  call os.pipe_out (λ h. acquire out_write (acquire out_read h))
  call os.pseudo_console (acquire console)
  effect (release in_read)
  effect (release out_write)
  or_undo (call os.init_list (acquire attr_list)) undo_console
  or_undo (call os.update_list (λ h. h)) (λ h. undo_console (release attr_list h))
  create_job os
  start_child os
  return (record { attr_len = os.attr_size })

-- `Drop for PtyHost`, then the drops of its fields `input_write`, `output_read` and `_job`. The
-- handles of the process are valid in every `PtyHost` that `spawn` returns.
unfoldable pub drop_host : PtyHost → Held → Held
drop_host host h =
    let h = release console h in
    let h = release thread (release process h) in
    let h = if not (host.attr_len == 0) then release attr_list h else h in
    drop_job (release out_read (release in_write h))

-- `COORD` of a size: a `u16` of at least 1, read as the bits of an `i16`.
unfoldable pub coord : ℕ → ℕ → ℕ × ℕ
coord cols rows = (as_u16 (max cols 1), as_u16 (max rows 1))

-- `try_exit_code`: whether the process handle is signaled, and the answer of `GetExitCodeProcess`.
unfoldable pub try_exit_code : Bool → Option ℕ → Option ℕ
try_exit_code signaled code = if not signaled then none else code

-- `PtyHost::resize`: the size that `ResizePseudoConsole` is asked for, with its answer.
unfoldable pub resize : Option ℕ → ℕ → ℕ → (ℕ × ℕ) × Outcome (Unit {0})
unfolding coord
resize none cols rows = (coord cols rows, ok tt)
resize (some e) cols rows = (coord cols rows, os_error e)

-- `PtyHost::terminate`
abbrev pub terminate : Held → Held
terminate h = kill h
