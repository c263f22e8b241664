-- ===== src/Session/Calls/Kept.antt =====
-- A session that a host calls in any order, with the rounds of the pump between the calls, and the
-- screen of that host.
use scshell.Base.{
  Bool, true, Bool-cases, inl, inr, List, [], ◌∷◌, ◌++◌, some, if◌then◌else◌, ◌≡◌, refl, ap, ◌∙◌,
}
use scshell.Backend.Dirty.{IsValid, Screen, Shows, repaint}
use scshell.Term.{Emulator, Event, title, clipboard_store, pty_write, reset_title, bell, other}
use scshell.Term.Screen.{Displays, IsSound, render-Rendered}
use scshell.Session.Calls.{
  SpawnOptions, Callbacks, Session, Effect, on_render, on_title, on_clipboard, on_bell,
  resize_console, terminate_process, on_exit, spawn_child, Reply, ok, err, Action, dispatch_event,
  dispatch_events, send,
}
use scshell.Session.Calls as Calls

-- The host draws each frame that it is sent.
unfoldable pub draw : List Effect → Screen → Screen
draw [] screen = screen
draw (on_render snap ∷ es) screen = draw es (repaint snap.dirty snap.meta.cols snap.cells screen)
draw (on_title t ∷ es) screen = draw es screen
draw (on_clipboard t ∷ es) screen = draw es screen
draw (on_bell ∷ es) screen = draw es screen
draw (resize_console size ∷ es) screen = draw es screen
draw (terminate_process c ∷ es) screen = draw es screen
draw (on_exit c ∷ es) screen = draw es screen
draw (spawn_child options env ∷ es) screen = draw es screen

pub draw-append :
    (xs ys : List Effect) (screen : Screen) → draw (xs ++ ys) screen ≡ draw ys (draw xs screen)
unfolding draw
draw-append [] ys screen = refl
draw-append (on_render snap ∷ xs) ys screen = draw-append xs ys _
draw-append (on_title t ∷ xs) ys screen = draw-append xs ys screen
draw-append (on_clipboard t ∷ xs) ys screen = draw-append xs ys screen
draw-append (on_bell ∷ xs) ys screen = draw-append xs ys screen
draw-append (resize_console size ∷ xs) ys screen = draw-append xs ys screen
draw-append (terminate_process c ∷ xs) ys screen = draw-append xs ys screen
draw-append (on_exit c ∷ xs) ys screen = draw-append xs ys screen
draw-append (spawn_child options env ∷ xs) ys screen = draw-append xs ys screen

-- The callbacks for an event draw nothing.
draw-dispatch_event :
    (cbs : Callbacks) (ev : Event) (screen : Screen)
    → draw (dispatch_event cbs ev).0 screen ≡ screen
unfolding draw dispatch_event
draw-dispatch_event cbs (title t) screen = elim (Bool-cases cbs.on_title) [
  | inl e ↦ rw e refl
  | inr e ↦ rw e refl
]
draw-dispatch_event cbs reset_title screen = elim (Bool-cases cbs.on_title) [
  | inl e ↦ rw e refl
  | inr e ↦ rw e refl
]
draw-dispatch_event cbs bell screen = elim (Bool-cases cbs.on_bell) [
  | inl e ↦ rw e refl
  | inr e ↦ rw e refl
]
draw-dispatch_event cbs (clipboard_store t) screen = elim (Bool-cases cbs.on_clipboard) [
  | inl e ↦ rw e refl
  | inr e ↦ rw e refl
]
draw-dispatch_event cbs (pty_write t) screen = refl
draw-dispatch_event cbs other screen = refl

pub draw-dispatch_events :
    (cbs : Callbacks) (events : List Event) (screen : Screen)
    → draw (dispatch_events cbs events).0 screen ≡ screen
unfolding draw dispatch_events
draw-dispatch_events cbs [] screen = refl
draw-dispatch_events cbs (ev ∷ events) screen =
    draw-append (dispatch_event cbs ev).0 (dispatch_events cbs events).0 screen
    ∙ ap (draw (dispatch_events cbs events).0) (draw-dispatch_event cbs ev screen)
    ∙ draw-dispatch_events cbs events screen

module _ {E : Type 0} (em : Emulator E) (hooked : Bool) where
  -- A session, and the screen that its host has drawn; with `hooked` the host always asks for its frames.
  pub record IsServed (s : Session E) (screen : Screen) : Type 0 where
    pub valid : IsValid s.backend
    pub sound : IsSound em s.term
    pub shows : hooked ≡ true → Shows s.backend screen
    pub asked : hooked ≡ true → s.callbacks.on_render ≡ true

  -- A method returns, and the session stays as it should.
  pub record Served {A : Type 0} (act : Action E A) (s : Session E) (screen : Screen) : Type 0 where
    pub reply : Reply A
    pub after : Session E
    pub effects : List Effect
    pub made : act s ≡ some (reply, after, effects)
    pub served : IsServed after (draw effects screen)
    pub same_magic : after.magic ≡ s.magic

  -- It also makes a frame, after which the screen of such a host shows every line of the viewport.
  pub record Drawn {A : Type 0} (act : Action E A) (s : Session E) (screen : Screen) : Type 0 where
    pub kept : Served act s screen
    pub displays : hooked ≡ true → Displays em kept.after.term (draw kept.effects screen)

  pub request_render-Drawn :
      (s : Session E) (screen : Screen)
      → IsServed s screen
      → Drawn (Calls.request_render em) s screen
  unfolding Calls.request_render draw
  request_render-Drawn s screen v =
      let made = render-Rendered em s.backend s.term v.valid v.sound in
      record {
        kept = record {
          reply = ok tt;
          after = record s { backend = made.b_after; term = made.t_after };
          effects = if s.callbacks.on_render then on_render made.snap ∷ [] else [];
          made = rw made.made refl;
          served = record {
            valid = made.valid;
            sound = made.sound;
            shows = λ h. rw (v.asked h) (made.shows screen (v.shows h));
            asked = v.asked;
          };
          same_magic = refl;
        };
        displays = λ h. rw (v.asked h) (made.displays screen (v.shows h));
      }
