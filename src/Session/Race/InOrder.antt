-- ===== src/Session/Race/InOrder.antt =====
-- Frames that are handed over in the order in which they were made.
use scshell.Base.{true, List, [], ◌∷◌, ◌++◌, some, ◌≡◌, refl, sym, ap, ◌∙◌, subst, inl, inr}
use scshell.Backend.{HostBackend}
use scshell.Backend.Dirty.{Screen, IsValid, Shows}
use scshell.Term.{Emulator, TermHost}
use scshell.Term.Render.{RenderSnapshot, render}
use scshell.Term.Screen.{IsSound, Displays, render-Rendered}
use scshell.Session.Race.{
  OnItsWay, Frames, hand_over, FrameStep, changes, makes, calls, FrameRun, at_first, later,
  no_frame,
}

-- The screen once every waiting frame is handed over.
abbrev hand_all : List OnItsWay → Screen → Screen
hand_all [] screen = screen
hand_all (x ∷ rest) screen = hand_all rest (hand_over x screen)

hand_all-last :
    (xs : List OnItsWay) (x : OnItsWay) (screen : Screen)
    → hand_all (xs ++ x ∷ []) screen ≡ hand_over x (hand_all xs screen)
hand_all-last [] x screen = refl
hand_all-last (y ∷ xs) x screen = hand_all-last xs x (hand_over y screen)

some_eq : {A : Type 0} (a b : A) → some a ≡ some b → a ≡ b
some_eq a b e = cc

module _ {E : Type 0} (em : Emulator E) where
  record IsKept (s : Frames E) : Type 0 where
    valid : IsValid s.backend
    sound : IsSound em s.term
    shows : Shows s.backend (hand_all s.waiting s.screen)
    displays : s.drawn ≡ true → Displays em s.term (hand_all s.waiting s.screen)

  -- What `render-Rendered` says of a frame that was made.
  record IsMade (b : HostBackend) (t : TermHost E) (snap : RenderSnapshot) (screen : Screen)
      : Type 0 where
    valid : IsValid b
    sound : IsSound em t
    shows : Shows b (hand_over (record { thread = 0; snap = snap }) screen)
    displays : Displays em t (hand_over (record { thread = 0; snap = snap }) screen)

  render-IsMade :
      (b : HostBackend) (t : TermHost E) (b' : HostBackend) (t' : TermHost E)
      (snap : RenderSnapshot) (screen : Screen)
      → IsValid b
      → IsSound em t
      → Shows b screen
      → render em b t ≡ some (b', t', snap)
      → IsMade b' t' snap screen
  render-IsMade b t b' t' snap screen v s sh e =
      let made = render-Rendered em b t v s in
      let same : (made.b_after, made.t_after, made.snap) ≡ (b', t', snap) =
        some_eq _ _ (sym made.made ∙ e) in
      subst (λ (x : HostBackend × TermHost E × RenderSnapshot). IsMade x.0 x.1 x.2 screen) same
        (record {
          valid = made.valid;
          sound = made.sound;
          shows = made.shows screen sh;
          displays = made.displays screen sh;
        })

  step-IsKept : {s t : Frames E} → FrameStep em true s t → IsKept s → IsKept t
  step-IsKept (changes t sound) k = record {
    valid = k.valid;
    sound = sound;
    shows = k.shows;
    displays = λ h. cc;
  }
  step-IsKept {s} (makes thread b t snap free e) k =
      let x : OnItsWay = record { thread = thread; snap = snap } in
      let made =
        render-IsMade s.backend s.term b t snap (hand_all s.waiting s.screen) k.valid k.sound
          k.shows e in
      record {
        valid = made.valid;
        sound = made.sound;
        shows = rw (hand_all-last s.waiting x s.screen) made.shows;
        displays = λ h. rw (hand_all-last s.waiting x s.screen) made.displays;
      }
  step-IsKept {s} (calls before x rest e (inl no_order)) k = cc
  step-IsKept {s} (calls before x rest e (inr first)) k =
      let oldest : s.waiting ≡ x ∷ rest = e ∙ ap (λ l. l ++ x ∷ rest) first in
      let same : hand_all (before ++ rest) (hand_over x s.screen) ≡ hand_all s.waiting s.screen =
        ap (λ l. hand_all (l ++ rest) (hand_over x s.screen)) first
        ∙ sym (ap (λ l. hand_all l s.screen) oldest) in
      record {
        valid = k.valid;
        sound = k.sound;
        shows = rw same k.shows;
        displays = λ h. rw same (k.displays h);
      }

  run-IsKept : {s t : Frames E} → FrameRun em true s t → IsKept s → IsKept t
  run-IsKept at_first k = k
  run-IsKept (later r st) k = step-IsKept st (run-IsKept r k)

  -- Threads that change a terminal and draw it, in every interleaving in which each frame is handed over
  -- before every frame that was made behind it: once no frame is on its way and the terminal was not
  -- changed since the last one, the screen of a host that repaints the rows of the rectangles shows every line
  -- of the viewport.
  pub frames_in_order :
      (t : TermHost E) (screen : Screen) {s : Frames E}
      → IsSound em t
      → FrameRun em true (no_frame t screen) s
      → s.waiting ≡ []
      → s.drawn ≡ true
      → Displays em s.term s.screen
  frames_in_order t screen {s} sound r none_left drawn =
      let kept = run-IsKept r (record {
        valid = record { whole = λ prev p. cc };
        sound = sound;
        shows = record { rows_shown = λ prev p. cc };
        displays = λ h. cc;
      }) in
      rw none_left at (kept.displays drawn)
