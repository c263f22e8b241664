-- ===== src/Io/Acts.antt =====
-- What the pump does with the output of the shell, act by act, on a session.
use scshell.Base.{
  Bool, arith, if◌then◌else◌, true, false, List, [], ◌∷◌, ◌++◌, Option, some, ◌>>=◌, ◌≡◌, refl, sym,
  ap, ◌∙◌, Bytes, bind-some, ℤ,
}
use scshell.Backend.Dirty.{Screen}
use scshell.Backend.{HostBackend, next_frame}
use scshell.Cell.{HostCell}
use scshell.Term.{Emulator, Event, TermHost, SnapshotMeta, snapshot, cursor_meta}
use scshell.Term as Term
use scshell.Term.Render.{RenderSnapshot, render}
use scshell.Session.Pump.{Act, feed, dispatch, take_code, pump}
use scshell.Session.Pump as Pump
use scshell.Session.Pump.Delivery.{fed, codes}
use scshell.Session.Calls.{
  Session, Effect, Callbacks, Reply, told_exit, or_pos_zero, on_render, on_title, on_clipboard,
  on_bell, on_exit, resize_console, terminate_process, spawn_child, dispatch_event, dispatch_events,
}
use scshell.Session.Calls as Calls
use scshell.Session.Calls.Kept.{draw, IsServed, request_render-Drawn}
use scshell.Session.Calls.Frames.{take_in-IsServed, draw-take_in, draw-told_exit}

-- The codes that `on_exit` is called with.
abbrev pub exits : List Effect → List ℤ
exits [] = []
exits (on_exit c ∷ es) = c ∷ exits es
exits (on_render snap ∷ es) = exits es
exits (on_title t ∷ es) = exits es
exits (on_clipboard t ∷ es) = exits es
exits (on_bell ∷ es) = exits es
exits (resize_console size ∷ es) = exits es
exits (terminate_process c ∷ es) = exits es
exits (spawn_child options env ∷ es) = exits es

pub exits-append : (xs ys : List Effect) → exits (xs ++ ys) ≡ exits xs ++ exits ys
exits-append [] ys = refl
exits-append (on_exit c ∷ xs) ys = ap (λ l. c ∷ l) (exits-append xs ys)
exits-append (on_render snap ∷ xs) ys = exits-append xs ys
exits-append (on_title t ∷ xs) ys = exits-append xs ys
exits-append (on_clipboard t ∷ xs) ys = exits-append xs ys
exits-append (on_bell ∷ xs) ys = exits-append xs ys
exits-append (resize_console size ∷ xs) ys = exits-append xs ys
exits-append (terminate_process c ∷ xs) ys = exits-append xs ys
exits-append (spawn_child options env ∷ xs) ys = exits-append xs ys

frame-exits :
    (on : Bool) (snap : RenderSnapshot) → exits (if on then on_render snap ∷ [] else []) ≡ []
frame-exits true snap = refl
frame-exits false snap = refl

-- An event is at most one callback, and never `on_exit`.
exits-dispatch_event : (cbs : Callbacks) (ev : Event) → exits (dispatch_event cbs ev).0 ≡ []
unfolding dispatch_event
exits-dispatch_event cbs ev = ground arith

exits-dispatch_events :
    (cbs : Callbacks) (events : List Event) → exits (dispatch_events cbs events).0 ≡ []
unfolding dispatch_events
exits-dispatch_events cbs [] = refl
exits-dispatch_events cbs (ev ∷ events) =
    exits-append (dispatch_event cbs ev).0 (dispatch_events cbs events).0
    ∙ ap (λ l. l ++ exits (dispatch_events cbs events).0) (exits-dispatch_event cbs ev)
    ∙ exits-dispatch_events cbs events

-- The host is not told of an exit, and whether it is to be told stays as it was.
pub record IsQuiet {E : Type 0} (s t : Session E) (es : List Effect) : Type 0 where
  pub no_exit : exits es ≡ []
  pub same_alive : t.alive ≡ s.alive
  pub same_callbacks : t.callbacks ≡ s.callbacks

module _ {E : Type 0} (em : Emulator E) where
  -- The emulator alone, on the same chunks.
  abbrev pub after_chunks : E → List Bytes → E
  after_chunks e [] = e
  after_chunks e (c ∷ chunks) = after_chunks (em.advance e c).0 chunks

  -- A frame leaves the emulator as it is.
  snapshot-term :
      (t t' : TermHost E) (cells : List HostCell) (meta : SnapshotMeta)
      → snapshot em t ≡ some (t', cells, meta)
      → t'.term ≡ t.term
  unfolding snapshot
  snapshot-term t t' cells meta e =
      let (m, f, g) = bind-some (cursor_meta t.size (em.view t.term)) _ _ e in cc

  render-term :
      (b b' : HostBackend) (t t' : TermHost E) (snap : RenderSnapshot)
      → render em b t ≡ some (b', t', snap)
      → t'.term ≡ t.term
  unfolding render
  render-term b b' t t' snap e =
      let ((u, cells, meta), f, g) = bind-some (snapshot em t) _ _ e in
      let ((dirty, c), h, k) = bind-some (next_frame b meta.cols meta.rows cells) _ _ g in
      let same : u ≡ t' = cc in
      ap (λ (x : TermHost E). x.term) (sym same) ∙ snapshot-term t u cells meta f

  pub request_render-term :
      (s t : Session E) (reply : Reply (Unit {0})) (es : List Effect)
      → Calls.request_render em s ≡ some (reply, t, es)
      → (t.term.term ≡ s.term.term) × IsQuiet s t es
  unfolding Calls.request_render
  request_render-term s t reply es e =
      let ((b, u, snap), f, g) = bind-some (render em s.backend s.term) _ _ e in
      let same : record s { backend = b; term = u } ≡ t = cc in
      let calls : (if s.callbacks.on_render then on_render snap ∷ [] else []) ≡ es = cc in
      (
        ap (λ (x : Session E). x.term.term) (sym same) ∙ render-term s.backend b s.term u snap f,
        record {
          no_exit = ap exits (sym calls) ∙ frame-exits s.callbacks.on_render snap;
          same_alive = ap (λ (x : Session E). x.alive) (sym same);
          same_callbacks = ap (λ (x : Session E). x.callbacks) (sym same);
        },
      )

  take_in-term :
      (s : Session E)
      → ((Calls.take_in em [] s).0.term.term ≡ s.term.term)
        × IsQuiet s (Calls.take_in em [] s).0 (Calls.take_in em [] s).1
  unfolding Calls.take_in Calls.advance_all Term.drain_events
  take_in-term s = (
    refl,
    record {
      no_exit = exits-dispatch_events s.callbacks s.term.queue;
      same_alive = refl;
      same_callbacks = refl;
    },
  )

  pub after_chunks-append :
      (e : E) (xs ys : List Bytes) → after_chunks e (xs ++ ys) ≡ after_chunks (after_chunks e xs) ys
  after_chunks-append e [] ys = refl
  after_chunks-append e (x ∷ xs) ys = after_chunks-append (em.advance e x).0 xs ys

module _ {E : Type 0} (em : Emulator E) (code : Option ℤ) where
  -- An act of the pump on its session; `code` is what `try_exit_code` says at the end of the output.
  unfoldable pub act_on : Act → Session E → Option (Session E × List Effect)
  act_on (feed buf) s = some (record s { term = Term.advance em s.term buf }, [])
  act_on dispatch s = some (Calls.take_in em [] s)
  act_on Pump.draw s = do (reply, s, frame) ← Calls.request_render em s; some (s, frame)
  act_on take_code s =
      some (record s { exit_code = or_pos_zero code; alive = false }, told_exit code s)

  unfoldable pub run_acts : List Act → Session E → Option (Session E × List Effect)
  unfolding act_on
  run_acts [] s = some (s, [])
  run_acts (a ∷ acts) s = do (s, es) ← act_on a s; (s, more) ← run_acts acts s; some (s, es ++ more)

  -- An act returns, and keeps what the next one needs.
  pub record IsDone (a : Act) (s : Session E) (screen : Screen) : Type 0 where
    pub after : Session E
    pub effects : List Effect
    pub made : act_on a s ≡ some (after, effects)
    pub served : IsServed em true after (draw effects screen)
    pub emulator : after.term.term ≡ after_chunks em s.term.term (fed (a ∷ []))
    pub quiet : codes (a ∷ []) ≡ 0 → IsQuiet s after effects

  pub act_on-IsDone :
      (a : Act) (s : Session E) (screen : Screen) → IsServed em true s screen → IsDone a s screen
  unfolding act_on draw fed codes Term.advance
  act_on-IsDone (feed buf) s screen v = record {
    after = record s { term = Term.advance em s.term buf };
    effects = [];
    made = refl;
    served = record {
      valid = v.valid;
      sound = record { sized = v.sound.sized; hashed = v.sound.hashed };
      shows = v.shows;
      asked = v.asked;
    };
    emulator = refl;
    quiet = λ h. record { no_exit = refl; same_alive = refl; same_callbacks = refl };
  }
  act_on-IsDone dispatch s screen v = record {
    after = (Calls.take_in em [] s).0;
    effects = (Calls.take_in em [] s).1;
    made = refl;
    served = rw (draw-take_in em true [] s screen) (take_in-IsServed em true [] s screen v);
    emulator = (take_in-term em s).0;
    quiet = λ h. (take_in-term em s).1;
  }
  act_on-IsDone Pump.draw s screen v =
      let done = request_render-Drawn em true s screen v in
      let kept =
        request_render-term em s done.kept.after done.kept.reply done.kept.effects done.kept.made in
      record {
        after = done.kept.after;
        effects = done.kept.effects;
        made = rw done.kept.made refl;
        served = done.kept.served;
        emulator = kept.0;
        quiet = λ h. kept.1;
      }
  act_on-IsDone take_code s screen v = record {
    after = record s { exit_code = or_pos_zero code; alive = false };
    effects = told_exit code s;
    made = refl;
    served =
        rw (draw-told_exit code s screen)
          (record { valid = v.valid; sound = v.sound; shows = v.shows; asked = v.asked });
    emulator = refl;
    quiet = λ h. absurd (omega (arith, h));
  }
