-- ===== src/Session/Calls/Frames.antt =====
-- The requests that make a frame leave the session as it should be, and the screen up to date.
use scshell.Base.{
  ℕ, Bool, false, Bool-cases, inl, inr, List, [], ◌∷◌, ◌++◌, Option, none, some, ◌&&◌, ◌≡◌, refl,
  ap, ◌∙◌, Bytes, ℤ,
}
use scshell.Backend.Dirty.{Screen}
use scshell.Term.{Emulator, TermHost, ViMotion, snapshot}
use scshell.Term as Term
use scshell.Term.Gestures as Gestures
use scshell.Session.Calls.{
  SpawnOptions, Callbacks, Session, Effect, Reply, ok, err, Action, dispatch_events, send,
}
use scshell.Session.Calls as Calls
use scshell.Session.Calls.Kept.{
  draw, draw-append, draw-dispatch_events, IsServed, Drawn, request_render-Drawn,
}
use scshell.Session.Calls.Requests.{
  Gesture, scroll, scroll_to_top, scroll_to_bottom, clear_history, reset_state, selection_clear,
  toggle_vi_mode, selection_start, selection_extend, vi_motion, perform_gesture,
}

pub draw-told_exit :
    {E : Type 0} (code : Option ℤ) (s : Session E) (screen : Screen)
    → draw (Calls.told_exit code s) screen ≡ screen
unfolding draw
draw-told_exit code s screen = elim (Bool-cases (s.alive && s.callbacks.on_exit)) [
  | inl e ↦ rw e refl
  | inr e ↦ rw e refl
]

module _ {E : Type 0} (em : Emulator E) where
  -- A change of the terminal that leaves its size and its links.
  abbrev pub Keeps : (TermHost E → TermHost E) → TermHost E → Type 0
  Keeps f t = ((f t).size ≡ t.size) × ((f t).hyperlinks ≡ t.hyperlinks)

  module _ (hooked : Bool) where
    pub Keeps-IsServed :
        (t : TermHost E) (s : Session E) (screen : Screen)
        → t.size ≡ s.term.size
        → t.hyperlinks ≡ s.term.hyperlinks
        → IsServed em hooked s screen
        → IsServed em hooked (record s { term = t }) screen
    Keeps-IsServed t s screen e f v = record {
      valid = v.valid;
      sound = record { sized = rw e v.sound.sized; hashed = rw f v.sound.hashed };
      shows = v.shows;
      asked = v.asked;
    }

    follow-Keeps : (m : Option ViMotion) (t : TermHost E) → Keeps (λ u. Gestures.follow em u m) t
    unfolding Gestures.follow
    follow-Keeps none t = (refl, refl)
    follow-Keeps (some m) t = (refl, refl)

    selection_extend-Keeps :
        (col row : ℕ) (t : TermHost E) → Keeps (λ u. Gestures.selection_extend em u col row) t
    unfolding Gestures.selection_extend
    selection_extend-Keeps col row t = elim (Bool-cases (em.view t.term).selecting) [
      | inl e ↦ rw e (refl, refl)
      | inr e ↦ rw e (refl, refl)
    ]

    change_render-Drawn :
        (f : TermHost E → TermHost E) (s : Session E) (screen : Screen)
        → Keeps f s.term
        → IsServed em hooked s screen
        → Drawn em hooked (Calls.change_render em f) s screen
    change_render-Drawn f s screen (e, g) v =
        let done =
          request_render-Drawn em hooked (record s { term = f s.term }) screen
            (Keeps-IsServed (f s.term) s screen e g v) in
        record {
          kept = record {
            reply = done.kept.reply;
            after = done.kept.after;
            effects = done.kept.effects;
            made = done.kept.made;
            served = done.kept.served;
            same_magic = done.kept.same_magic;
          };
          displays = done.displays;
        }

    pub gesture-Drawn :
        (g : Gesture) (s : Session E) (screen : Screen)
        → IsServed em hooked s screen
        → Drawn em hooked (perform_gesture em g) s screen
    unfolding Gestures.scroll_display Gestures.scroll_to_top Gestures.scroll_to_bottom
        Gestures.clear_history Gestures.reset_state Gestures.selection_clear Gestures.toggle_vi_mode
        Gestures.selection_start Gestures.vi_motion
    gesture-Drawn (scroll lines) s screen v = change_render-Drawn _ s screen (refl, refl) v
    gesture-Drawn scroll_to_top s screen v = change_render-Drawn _ s screen (refl, refl) v
    gesture-Drawn scroll_to_bottom s screen v = change_render-Drawn _ s screen (refl, refl) v
    gesture-Drawn clear_history s screen v = change_render-Drawn _ s screen (refl, refl) v
    gesture-Drawn reset_state s screen v = change_render-Drawn _ s screen (refl, refl) v
    gesture-Drawn selection_clear s screen v = change_render-Drawn _ s screen (refl, refl) v
    gesture-Drawn toggle_vi_mode s screen v = change_render-Drawn _ s screen (refl, refl) v
    gesture-Drawn (selection_start col row kind) s screen v =
        change_render-Drawn _ s screen (refl, refl) v
    gesture-Drawn (selection_extend col row) s screen v =
        change_render-Drawn _ s screen (selection_extend-Keeps col row s.term) v
    gesture-Drawn (vi_motion kind) s screen v =
        change_render-Drawn _ s screen (follow-Keeps (Gestures.motion_of kind) s.term) v

    advance_all-Keeps :
        (chunks : List Bytes) (t : TermHost E) → Keeps (λ u. Calls.advance_all em u chunks) t
    unfolding Calls.advance_all Term.advance
    advance_all-Keeps [] t = (refl, refl)
    advance_all-Keeps (buf ∷ chunks) t =
        let (size, links) = advance_all-Keeps chunks (Term.advance em t buf) in (size, links)

    take_in-magic :
        (chunks : List Bytes) (s : Session E) → (Calls.take_in em chunks s).0.magic ≡ s.magic
    unfolding Calls.take_in
    take_in-magic chunks s = refl

    pub take_in-IsServed :
        (chunks : List Bytes) (s : Session E) (screen : Screen)
        → IsServed em hooked s screen
        → IsServed em hooked (Calls.take_in em chunks s).0 screen
    unfolding Calls.take_in Term.drain_events
    take_in-IsServed chunks s screen v =
        let (size, links) = advance_all-Keeps chunks s.term in
        record {
          valid = v.valid;
          sound = record { sized = rw size v.sound.sized; hashed = rw links v.sound.hashed };
          shows = v.shows;
          asked = v.asked;
        }

    pub draw-take_in :
        (chunks : List Bytes) (s : Session E) (screen : Screen)
        → draw (Calls.take_in em chunks s).1 screen ≡ screen
    unfolding Calls.take_in
    draw-take_in chunks s screen =
        draw-dispatch_events s.callbacks
          (Term.drain_events em (Calls.advance_all em s.term chunks)).1 screen

    pub pump_round-Drawn :
        (chunks : List Bytes) (s : Session E) (screen : Screen)
        → IsServed em hooked s screen
        → Drawn em hooked (Calls.pump_round em chunks) s screen
    unfolding Calls.pump_round
    pump_round-Drawn chunks s screen v =
        let done =
          request_render-Drawn em hooked (Calls.take_in em chunks s).0 screen
            (take_in-IsServed chunks s screen v) in
        let calls = (Calls.take_in em chunks s).1 in
        let same : draw (calls ++ done.kept.effects) screen ≡ draw done.kept.effects screen =
          draw-append calls done.kept.effects screen
          ∙ ap (draw done.kept.effects) (draw-take_in chunks s screen) in
        record {
          kept = record {
            reply = done.kept.reply;
            after = done.kept.after;
            effects = calls ++ done.kept.effects;
            made = rw done.kept.made refl;
            served = rw same done.kept.served;
            same_magic = done.kept.same_magic ∙ take_in-magic chunks s;
          };
          displays = λ h. rw same (done.displays h);
        }

    pub pump_end-Drawn :
        (code : Option ℤ) (s : Session E) (screen : Screen)
        → IsServed em hooked s screen
        → Drawn em hooked (Calls.pump_end em code) s screen
    unfolding Calls.pump_end
    pump_end-Drawn code s screen v =
        let done = request_render-Drawn em hooked s screen v in
        let told = Calls.told_exit code done.kept.after in
        let same : draw (done.kept.effects ++ told) screen ≡ draw done.kept.effects screen =
          draw-append done.kept.effects told screen ∙ draw-told_exit code done.kept.after _ in
        record {
          kept = record {
            reply = done.kept.reply;
            after = record done.kept.after { exit_code = Calls.or_pos_zero code; alive = false };
            effects = done.kept.effects ++ told;
            made = rw done.kept.made refl;
            served = rw same (record {
              valid = done.kept.served.valid;
              sound = record {
                sized = done.kept.served.sound.sized;
                hashed = done.kept.served.sound.hashed;
              };
              shows = done.kept.served.shows;
              asked = done.kept.served.asked;
            });
            same_magic = done.kept.same_magic;
          };
          displays = λ h. rw same (record { lines_shown = (done.displays h).lines_shown });
        }
