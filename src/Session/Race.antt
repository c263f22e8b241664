-- ===== src/Session/Race.antt =====
-- rata_shell/src/session.rs: frames that several threads make. `request_render` and the pump read the terminal
-- under its lock and that of the backend, and call `on_render` once both are released.
pub mod InOrder
pub mod Overtaken
use scshell.Base.{ℕ, Bool, true, false, List, [], ◌∷◌, ◌++◌, Option, some, ◌≡◌, ◌≢◌, ◌⊎◌, All}
use scshell.Backend.{HostBackend}
use scshell.Backend as Backend
use scshell.Backend.Dirty.{Screen, repaint}
use scshell.Term.{Emulator, TermHost}
use scshell.Term.Render.{RenderSnapshot, render}
use scshell.Term.Screen.{IsSound}

-- A frame that is made, and that its thread has not handed over yet.
pub record OnItsWay : Type 0 where
  pub thread : ℕ
  pub snap : RenderSnapshot

-- `waiting` has the oldest frame first. `drawn` is lowered by every change of the terminal and raised by
-- every frame.
pub record Frames (E : Type 0) : Type 0 where
  pub backend : HostBackend
  pub term : TermHost E
  pub waiting : List OnItsWay
  pub screen : Screen
  pub drawn : Bool

-- A host that repaints the rows of the rectangles.
abbrev pub hand_over : OnItsWay → Screen → Screen
hand_over x screen = repaint x.snap.dirty x.snap.meta.cols x.snap.cells screen

-- One step of a thread. With `in_order` no frame overtakes another.
pub data FrameStep {E : Type 0} (em : Emulator E) (in_order : Bool) (s : Frames E)
    : Frames E → Type 0 where
  -- under the lock of the terminal: output, a resize, a scroll and the like
  changes :
      (t : TermHost E)
      → IsSound em t
      → FrameStep em in_order s (record s { term = t; drawn = false })
  -- under both locks
  makes :
      (thread : ℕ) (b : HostBackend) (t : TermHost E) (snap : RenderSnapshot)
      → All (λ x. x.thread ≢ thread) s.waiting
      → render em s.backend s.term ≡ some (b, t, snap)
      → FrameStep em in_order s (record s {
        backend = b;
        term = t;
        waiting = s.waiting ++ record { thread = thread; snap = snap } ∷ [];
        drawn = true;
      })
  -- behind them
  calls :
      (before : List OnItsWay) (x : OnItsWay) (rest : List OnItsWay)
      → s.waiting ≡ before ++ x ∷ rest
      → (in_order ≡ false) ⊎ (before ≡ [])
      → FrameStep em in_order s
          (record s { waiting = before ++ rest; screen = hand_over x s.screen })

pub data FrameRun {E : Type 0} (em : Emulator E) (in_order : Bool) (s : Frames E)
    : Frames E → Type 0 where
  at_first : FrameRun em in_order s s
  later :
      {t u : Frames E}
      → FrameRun em in_order s t
      → FrameStep em in_order t u
      → FrameRun em in_order s u

-- No frame yet.
abbrev pub no_frame : {E : Type 0} → TermHost E → Screen → Frames E
no_frame t screen = record {
  backend = Backend.new;
  term = t;
  waiting = [];
  screen = screen;
  drawn = false;
}
