-- ===== src/Ffi/Events/Painted.antt =====
-- The screen of a host that paints from the structures of C.
use scshell.Base.{
  ℕ, ◌+◌, ◌<◌, ◌^◌, true, List, [], ◌∷◌, ◌++◌, Option, none, some, ◌>>=◌, ◌≡◌, refl, ap, ◌∙◌, All,
}
use scshell.Backend.Dirty.{Screen, repaint}
use scshell.Term.{Emulator}
use scshell.Term.Render.{RenderSnapshot}
use scshell.Term.Screen.{Displays}
use scshell.Session.Calls.{
  SpawnOptions, Callbacks, Session, Effect, on_render, on_title, on_clipboard, on_bell, on_exit,
  resize_console, terminate_process, spawn_child,
}
use scshell.Session.Calls.Kept.{draw}
use scshell.Session.Calls.Shown.{run-Displays}
use scshell.Session.Calls as Calls
use scshell.Session.Calls.Requests.{Request, set_callbacks, run, IsAllowed, IsDrawing}
use scshell.Ffi.Events.{RataRenderEvent, Heap, render_cb}
use scshell.Ffi.Events.Read.{read_event, render_cb-read}

-- Repaint the rows of the rectangles from what the structure leads to; `none` is a host that has read
-- outside of a buffer.
abbrev pub paint_event : Heap → RataRenderEvent → Option Screen → Option Screen
paint_event heap ev none = none
paint_event heap ev (some screen) = do
  snap ← read_event heap ev
  some (repaint snap.dirty snap.meta.cols snap.cells screen)

-- The callbacks that a session makes from its call `k` on, with the screen of the host; each frame goes
-- through `render_cb`, and that of call `k` has its arrays at `at k`.
unfoldable pub paint_all : (at : ℕ → ℕ × ℕ) → ℕ → List Effect → Heap → Option Screen → Option Screen
paint_all at k [] heap screen = screen
paint_all at k (on_render snap ∷ es) heap screen =
    let (painted, after) = render_cb paint_event (at k).0 (at k).1 snap heap screen in
    paint_all at (k + 1) es after painted
paint_all at k (on_title t ∷ es) heap screen = paint_all at (k + 1) es heap screen
paint_all at k (on_clipboard t ∷ es) heap screen = paint_all at (k + 1) es heap screen
paint_all at k (on_bell ∷ es) heap screen = paint_all at (k + 1) es heap screen
paint_all at k (resize_console size ∷ es) heap screen = paint_all at (k + 1) es heap screen
paint_all at k (terminate_process c ∷ es) heap screen = paint_all at (k + 1) es heap screen
paint_all at k (on_exit c ∷ es) heap screen = paint_all at (k + 1) es heap screen
paint_all at k (spawn_child options env ∷ es) heap screen = paint_all at (k + 1) es heap screen

-- The allocator gives out free memory only.
pub record AreFree (at : ℕ → ℕ × ℕ) (heap : Heap) : Type 0 where
  pub for_rects : (k : ℕ) → heap.rects (at k).0 ≡ none
  pub for_cells : (k : ℕ) → heap.cells (at k).1 ≡ none

painted_frame :
    (p q : ℕ) (snap : RenderSnapshot) (heap : Heap) (screen : Screen)
    → heap.rects p ≡ none
    → heap.cells q ≡ none
    → (render_cb paint_event p q snap heap (some screen)).0
      ≡ some (repaint snap.dirty snap.meta.cols snap.cells screen)
unfolding render_cb
painted_frame p q snap heap screen a b =
    ap
      (λ (o : Option RenderSnapshot).
        o >>= λ frame. some (repaint frame.dirty frame.meta.cols frame.cells screen))
      (render_cb-read (λ h ev host. host) tt p q snap heap a b).0

-- A frame leaves the memory as it was.
AreFree-render_cb :
    (at : ℕ → ℕ × ℕ) (k : ℕ) (snap : RenderSnapshot) (heap : Heap) (screen : Option Screen)
    → AreFree at heap
    → AreFree at (render_cb paint_event (at k).0 (at k).1 snap heap screen).1
AreFree-render_cb at k snap heap screen v =
    let same =
      (render_cb-read paint_event screen (at k).0 (at k).1 snap heap (v.for_rects k)
        (v.for_cells k)).1 in
    record {
      for_rects = λ j. (same (at j).0).0 ∙ v.for_rects j;
      for_cells = λ j. (same (at j).1).1 ∙ v.for_cells j;
    }

paint_all-draw :
    (at : ℕ → ℕ × ℕ) (k : ℕ) (es : List Effect) (heap : Heap) (screen : Screen)
    → AreFree at heap
    → paint_all at k es heap (some screen) ≡ some (draw es screen)
unfolding paint_all draw
paint_all-draw at k [] heap screen v = refl
paint_all-draw at k (on_render snap ∷ es) heap screen v =
    ap (paint_all at (k + 1) es _)
      (painted_frame (at k).0 (at k).1 snap heap screen (v.for_rects k) (v.for_cells k))
    ∙ paint_all-draw at (k + 1) es _ _ (AreFree-render_cb at k snap heap (some screen) v)
paint_all-draw at k (on_title t ∷ es) heap screen v = paint_all-draw at (k + 1) es heap screen v
paint_all-draw at k (on_clipboard t ∷ es) heap screen v = paint_all-draw at (k + 1) es heap screen v
paint_all-draw at k (on_bell ∷ es) heap screen v = paint_all-draw at (k + 1) es heap screen v
paint_all-draw at k (resize_console z ∷ es) heap screen v =
    paint_all-draw at (k + 1) es heap screen v
paint_all-draw at k (terminate_process c ∷ es) heap screen v =
    paint_all-draw at (k + 1) es heap screen v
paint_all-draw at k (on_exit c ∷ es) heap screen v = paint_all-draw at (k + 1) es heap screen v
paint_all-draw at k (spawn_child o env ∷ es) heap screen v =
    paint_all-draw at (k + 1) es heap screen v

module _ {E : Type 0} (em : Emulator E) where
  -- As in `run-Displays`, for a host that has nothing but the structures of C: whatever it has called on a
  -- new session, with its `on_render` set first and never unset, and all sizes `u16`, and
  -- wherever in free memory the arrays are put, it reads inside of the arrays only, and after a request that makes a frame its screen
  -- shows every line of the viewport.
  pub run-painted :
      (options : SpawnOptions) (cbs : Callbacks) (rs : List Request) (r : Request) (screen : Screen)
      (at : ℕ → ℕ × ℕ) (heap : Heap)
      → options.cols < 2 ^ 16
      → options.rows < 2 ^ 16
      → cbs.on_render ≡ true
      → All (IsAllowed true) rs
      → IsDrawing r
      → AreFree at heap
      → (s : Session E) × (es : List Effect) × (after : Screen) × (run em
            (set_callbacks cbs ∷ (rs ++ r ∷ []))
            (Calls.new em options)
          ≡ some (s, es))
        × (paint_all at 0 es heap (some screen) ≡ some after)
        × Displays em s.term after
  run-painted options cbs rs r screen at heap hc hr on allowed drawing v =
      let (s, es, made, shown) = run-Displays em options cbs rs r screen hc hr on allowed drawing in
      (s, es, draw es screen, made, paint_all-draw at 0 es heap screen v, shown)
