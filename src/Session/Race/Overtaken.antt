-- ===== src/Session/Race/Overtaken.antt =====
-- A frame that overtakes an older one.
use scshell.Base.{ℕ, ◌<◌, true, false, [], ◌∷◌, map, ◌≡◌, ◌≢◌, refl, sym, ◌∙◌, inl}
use scshell.Backend as Backend
use scshell.Backend.Dirty.{IsValid, Shows, Screen}
use scshell.Term.{Emulator, TermHost}
use scshell.Term.Cells.{drawn, viewport_line}
use scshell.Term.Screen.{IsSound, Displays, Displays-kept, render-Rendered}
use scshell.Session.Race.{
  OnItsWay, Frames, hand_over, changes, makes, calls, FrameRun, at_first, later, no_frame,
}

new-IsValid : IsValid Backend.new
new-IsValid = record { whole = λ prev p. cc }

new-Shows : (screen : Screen) → Shows Backend.new screen
new-Shows screen = record { rows_shown = λ prev p. cc }

-- What was drawn last shows the terminal as it was before the frame.
shown_before :
    {E : Type 0} (em : Emulator E) (t u : TermHost E) (screen : Screen)
    → u ≡ record t { hyperlinks = u.hyperlinks }
    → Displays em u screen
    → (y : ℕ) → y < t.size.lines
    → screen y ≡ map drawn (viewport_line (em.view t.term) t.size.cols y)
shown_before em t u screen e d y h = (Displays-kept em u t screen (rw e refl) d).lines_shown y h

-- Two threads draw a terminal, thread `a` before a change and thread `b` behind it, and one of the lines that
-- both have is not the same in the two viewports. Then there is a run in which both frames are made by
-- `render` and handed over, the newer one first, no frame is on its way behind that and the terminal was
-- not changed since its last frame, and yet the screen of a host that repaints the rows of the rectangles
-- does not show it.
pub late_frame_hides :
    {E : Type 0} (em : Emulator E) (t changed : TermHost E) (screen : Screen) (a b y : ℕ)
    → IsSound em t
    → IsSound em changed
    → a ≢ b
    → y < t.size.lines
    → y < changed.size.lines
    → map drawn (viewport_line (em.view t.term) t.size.cols y)
      ≢ map drawn (viewport_line (em.view changed.term) changed.size.cols y)
    → (u : Frames E) × FrameRun em false (no_frame t screen) u
      × (u.waiting ≡ [])
      × (u.drawn ≡ true)
      × (u.term ≡ record changed { hyperlinks = u.term.hyperlinks })
      × (Displays em u.term u.screen → ⊥)
late_frame_hides em t changed screen a b y sound sound' ne inside inside' stale =
    let first = render-Rendered em Backend.new t new-IsValid sound in
    let second = render-Rendered em first.b_after changed first.valid sound' in
    let older : OnItsWay = record { thread = a; snap = first.snap } in
    let newer : OnItsWay = record { thread = b; snap = second.snap } in
    let between = hand_over newer screen in
    let shows_old = first.displays between (new-Shows between) in
    (
      _,
      later
          (later
            (later
              (later (later at_first (makes a first.b_after first.t_after first.snap tt first.made))
                (changes changed sound'))
              (makes b second.b_after second.t_after second.snap (ne, tt) second.made))
            (calls (older ∷ []) newer [] refl (inl refl)))
          (calls [] older [] refl (inl refl)),
      refl,
      refl,
      second.rest_kept,
      λ shown. stale (
          sym (shown_before em t first.t_after _ first.rest_kept shows_old y inside)
          ∙ shown_before em changed second.t_after _ second.rest_kept shown y inside'),
    )
