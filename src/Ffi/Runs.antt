-- ===== src/Ffi/Runs.antt =====
-- Calls in a row.
use scshell.Base.{ℕ, false, List, [], ◌∷◌, none, ◌≡◌, ℤ, length}
use scshell.Error.{no_errors}
use scshell.Term.{Emulator}
use scshell.Session.Calls.{Effect}
use scshell.Ffi.Memory.{Process, returned}
use scshell.Ffi.Blocks.{Live, IsWhole}
use scshell.Ffi.Sequences.{Call, run_calls}
use scshell.Ffi.Invoked.{IsSane, after_call}

-- Each call is sane at its place.
abbrev pub AreSane : Live → List (ℕ × Call) → Type 0
AreSane live [] = Unit
AreSane live ((t, c) ∷ calls) = IsSane live c × AreSane (after_call live c) calls

-- Which handles are live behind all of them.
abbrev pub after_calls : Live → List (ℕ × Call) → Live
after_calls live [] = live
after_calls live ((t, c) ∷ calls) = after_calls (after_call live c) calls

-- Before the first call.
abbrev pub no_process : {E : Type 0} → Process E
no_process = record { blocks = λ i. none; errors = no_errors }

abbrev pub none_live : Live
none_live i = false

module _ {E : Type 0} (em : Emulator E) where
  -- A run of calls from a process that is whole.
  record AllReturn (calls : List (ℕ × Call)) (live : Live) (p : Process E) : Type 0 where
    codes_given : List ℤ
    after : Process E
    effects : List Effect
    made : run_calls em calls p ≡ returned codes_given after effects
    one_each : length codes_given ≡ length calls
    whole : IsWhole em (after_calls live calls) after
