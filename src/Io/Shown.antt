-- ===== src/Io/Shown.antt =====
-- From the pipe to the screen of the host: what the pump does with the output of the shell, on a session.
use scshell.Base.{
  ℕ, ◌<◌, Bool-cases, inl, inr, ◌&&◌, arith, if◌then◌else◌, true, false, List, [], ◌∷◌, ◌++◌,
  Option, some, ◌≡◌, refl, sym, ap, ◌∙◌, Bytes, length, All, ℤ, append_nil,
}
use scshell.Backend.Dirty.{Screen}
use scshell.Term.{Emulator}
use scshell.Term.Screen.{Displays}
use scshell.Session.Pump.{Act, feed, dispatch, take_code, pump}
use scshell.Session.Pump as Pump
use scshell.Session.Pump.Delivery.{fed, fed-append, codes, codes-append}
use scshell.Session.Calls.{Session, Effect, told_exit, or_pos_zero}
use scshell.Session.Calls.Kept.{draw, draw-append, IsServed, request_render-Drawn}
use scshell.Session.Calls.Frames.{draw-told_exit}
use scshell.Io.{Round, reader}
use scshell.Io.Delivered.{IsChunk, IsLast, reads, pump-reader}
use scshell.Io.Acts.{
  exits, exits-append, IsQuiet, after_chunks, after_chunks-append, request_render-term, act_on,
  run_acts, act_on-IsDone,
}

module _ {E : Type 0} (em : Emulator E) (code : Option ℤ) where
  -- Acts that end with the last frame and the code.
  record IsEnded (front : List Act) (s : Session E) (screen : Screen) : Type 0 where
    after : Session E
    effects : List Effect
    made : run_acts em code (front ++ Pump.draw ∷ take_code ∷ []) s ≡ some (after, effects)
    displays : Displays em after.term (draw effects screen)
    emulator : after.term.term ≡ after_chunks em s.term.term (fed front)
    over : (after.alive ≡ false) × (after.exit_code ≡ or_pos_zero code)
    told : codes front ≡ 0 → exits effects ≡ exits (told_exit code s)

  exits-told_exit :
      (s : Session E)
      → exits (told_exit code s)
        ≡ (if s.alive && s.callbacks.on_exit then or_pos_zero code ∷ [] else [])
  exits-told_exit s = elim (Bool-cases (s.alive && s.callbacks.on_exit)) [
    | inl e ↦ rw e refl
    | inr e ↦ rw e refl
  ]

  told_exit-IsQuiet :
      (s t : Session E) (es : List Effect)
      → IsQuiet s t es
      → exits (told_exit code t) ≡ exits (told_exit code s)
  told_exit-IsQuiet s t es q = rw (q.same_alive, q.same_callbacks) refl

  last_acts : (s : Session E) (screen : Screen) → IsServed em true s screen → IsEnded [] s screen
  unfolding run_acts act_on draw fed
  last_acts s screen v =
      let done = request_render-Drawn em true s screen v in
      let kept =
        request_render-term em s done.kept.after done.kept.reply done.kept.effects done.kept.made in
      let told = told_exit code done.kept.after in
      let same : draw (done.kept.effects ++ (told ++ [])) screen ≡ draw done.kept.effects screen =
        draw-append done.kept.effects (told ++ []) screen
        ∙ ap (λ l. draw l (draw done.kept.effects screen)) (append_nil told)
        ∙ draw-told_exit code done.kept.after _ in
      record {
        after = record done.kept.after { exit_code = or_pos_zero code; alive = false };
        effects = done.kept.effects ++ (told ++ []);
        made = rw done.kept.made refl;
        displays = rw same (done.displays refl);
        emulator = kept.0;
        over = (refl, refl);
        told = λ h.
            exits-append done.kept.effects (told ++ [])
            ∙ ap (λ l. l ++ exits (told ++ [])) kept.1.no_exit
            ∙ ap exits (append_nil told)
            ∙ told_exit-IsQuiet s done.kept.after done.kept.effects kept.1;
      }

  acts-IsEnded :
      (front : List Act) (s : Session E) (screen : Screen)
      → IsServed em true s screen
      → IsEnded front s screen
  unfolding run_acts
  acts-IsEnded [] s screen v = last_acts s screen v
  acts-IsEnded (a ∷ front) s screen v =
      let first = act_on-IsDone em code a s screen v in
      let rest = acts-IsEnded front first.after (draw first.effects screen) first.served in
      record {
        after = rest.after;
        effects = first.effects ++ rest.effects;
        made = rw (first.made, rest.made) refl;
        displays = rw (draw-append first.effects rest.effects screen) rest.displays;
        emulator =
            rest.emulator
            ∙ ap (λ e. after_chunks em e (fed front)) first.emulator
            ∙ sym (after_chunks-append em s.term.term (fed (a ∷ [])) (fed front))
            ∙ ap (after_chunks em s.term.term) (sym (fed-append (a ∷ []) front));
        over = rest.over;
        told = λ h.
            let quiet = first.quiet (omega (arith, h, codes-append (a ∷ []) front)) in
            exits-append first.effects rest.effects
            ∙ ap (λ l. l ++ exits rest.effects) quiet.no_exit
            ∙ rest.told (omega (arith, h, codes-append (a ∷ []) front))
            ∙ told_exit-IsQuiet s first.after first.effects quiet;
      }

  -- From the pipe to the screen, for a session as its methods keep it, whose host asks for the frames and has
  -- drawn each one so far: whatever chunks `ReadFile` gives, none of them empty, before it fails or reads
  -- nothing, and however many messages each drain of the channel finds, the pump ends with no panic, the
  -- emulator has then read those chunks, one after the other and nothing else, the screen of the host shows
  -- every line of its viewport, and the session has the code of the child and is not alive. The host is told
  -- of that code once, at the end, where the session was alive and the host asks for it, and not at all
  -- otherwise. One round of the pump more than there are chunks is fuel enough.
  pub output-Displays :
      (s : Session E) (screen : Screen) (fuel : ℕ) (available : ℕ → ℕ) (chunks : List Bytes)
      (last : Option Bytes) (others : List Round)
      → IsServed em true s screen
      → All IsChunk chunks
      → IsLast last
      → length chunks < fuel
      → (t : Session E) × (es : List Effect) × (run_acts em code
            (pump fuel available (reader (reads chunks last others)))
            s
          ≡ some (t, es))
        × (t.term.term ≡ after_chunks em s.term.term chunks)
        × Displays em t.term (draw es screen)
        × (t.alive ≡ false)
        × (t.exit_code ≡ or_pos_zero code)
        × (exits es ≡ (if s.alive && s.callbacks.on_exit then or_pos_zero code ∷ [] else []))
  output-Displays s screen fuel available chunks last others v h k enough =
      let acts = pump-reader fuel available chunks last others h k enough in
      let end = acts-IsEnded acts.front s screen v in
      (
        end.after,
        end.effects,
        ap (λ l. run_acts em code l s) acts.split ∙ end.made,
        end.emulator ∙ ap (after_chunks em s.term.term) acts.all_fed,
        end.displays,
        end.over.0,
        end.over.1,
        end.told acts.once ∙ exits-told_exit s,
      )
