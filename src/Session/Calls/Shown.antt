-- ===== src/Session/Calls/Shown.antt =====
-- What the screen of a host shows after the requests.
use scshell.Base.{◌<◌, ◌^◌, Bool, true, List, [], ◌∷◌, ◌++◌, some, ◌≡◌, refl, All}
use scshell.Backend.Dirty.{Screen}
use scshell.Term.{Emulator}
use scshell.Term.Screen.{Displays}
use scshell.Term.Play.{new-IsSound}
use scshell.Session.Calls.{SpawnOptions, Callbacks, Session, Effect, Reply, ok, err, Action}
use scshell.Session.Calls as Calls
use scshell.Session.Calls.Kept.{draw, draw-append, IsServed, Served, Drawn, request_render-Drawn}
use scshell.Session.Calls.Requests.{
  Request, gesture, request_render, terminate, set_callbacks, set_clipboard_callback, start, resize,
  send_bytes, send_key, search_next, pump_round, pump_end, IsAllowed, IsDrawing, perform, run,
}
use scshell.Session.Calls.Frames.{gesture-Drawn, pump_round-Drawn, pump_end-Drawn}
use scshell.Session.Calls.Methods.{
  send_bytes-Served, send_key-Served, resize-Served, start-Served, search_next-Served, quiet-Served,
  terminate-Served,
}

module _ {E : Type 0} (em : Emulator E) (hooked : Bool) where
  pub perform-Served :
      (r : Request) (s : Session E) (screen : Screen)
      → IsAllowed hooked r
      → IsServed em hooked s screen
      → Served em hooked (perform em r) s screen
  unfolding draw
  perform-Served (gesture g) s screen a v = (gesture-Drawn em hooked g s screen v).kept
  perform-Served request_render s screen a v = (request_render-Drawn em hooked s screen v).kept
  perform-Served terminate s screen a v = terminate-Served em hooked s screen v
  perform-Served (set_callbacks cbs) s screen a v = record {
    reply = ok tt;
    after = Calls.set_callbacks em cbs s;
    effects = [];
    made = refl;
    served = record { valid = v.valid; sound = v.sound; shows = v.shows; asked = a };
    same_magic = refl;
  }
  perform-Served (set_clipboard_callback cb) s screen a v =
      quiet-Served em hooked s _ screen (refl, refl, refl) refl v [] refl _ refl
  perform-Served (start vars spawned reader writer) s screen a v =
      start-Served em hooked vars spawned reader writer s screen v
  perform-Served (resize answer cols rows) s screen a v =
      resize-Served em hooked answer cols rows s screen a.0 a.1 v
  perform-Served (send_bytes bytes) s screen a v = send_bytes-Served em hooked bytes s screen v
  perform-Served (send_key vk mods) s screen a v = send_key-Served em hooked vk mods s screen v
  perform-Served (search_next pattern forward) s screen a v =
      search_next-Served em hooked pattern forward s screen v
  perform-Served (pump_round chunks) s screen a v =
      (pump_round-Drawn em hooked chunks s screen v).kept
  perform-Served (pump_end code) s screen a v = (pump_end-Drawn em hooked code s screen v).kept

  perform-Drawn :
      (r : Request) (s : Session E) (screen : Screen)
      → IsDrawing r
      → IsServed em hooked s screen
      → Drawn em hooked (perform em r) s screen
  perform-Drawn (gesture g) s screen d v = gesture-Drawn em hooked g s screen v
  perform-Drawn request_render s screen d v = request_render-Drawn em hooked s screen v
  perform-Drawn (pump_round chunks) s screen d v = pump_round-Drawn em hooked chunks s screen v
  perform-Drawn (pump_end code) s screen d v = pump_end-Drawn em hooked code s screen v
  perform-Drawn terminate s screen d v = absurd d
  perform-Drawn (set_callbacks cbs) s screen d v = absurd d
  perform-Drawn (set_clipboard_callback cb) s screen d v = absurd d
  perform-Drawn (start vars spawned reader writer) s screen d v = absurd d
  perform-Drawn (resize answer cols rows) s screen d v = absurd d
  perform-Drawn (send_bytes bytes) s screen d v = absurd d
  perform-Drawn (send_key vk mods) s screen d v = absurd d
  perform-Drawn (search_next pattern forward) s screen d v = absurd d

  -- A run of requests, the last of which makes a frame.
  record Displayed (rs : List Request) (s : Session E) (screen : Screen) : Type 0 where
    after : Session E
    effects : List Effect
    made : run em rs s ≡ some (after, effects)
    displays : hooked ≡ true → Displays em after.term (draw effects screen)

  run-Displayed :
      (rs : List Request) (r : Request) (s : Session E) (screen : Screen)
      → All (IsAllowed hooked) rs
      → IsDrawing r
      → IsServed em hooked s screen
      → Displayed (rs ++ r ∷ []) s screen
  unfolding run draw
  run-Displayed [] r s screen allowed drawing v =
      let last = perform-Drawn r s screen drawing v in
      record {
        after = last.kept.after;
        effects = last.kept.effects ++ [];
        made = rw last.kept.made refl;
        displays = λ h. rw (draw-append last.kept.effects [] screen) (last.displays h);
      }
  run-Displayed (q ∷ rs) r s screen (a, allowed) drawing v =
      let first = perform-Served q s screen a v in
      let rest =
        run-Displayed rs r first.after (draw first.effects screen) allowed drawing first.served in
      record {
        after = rest.after;
        effects = first.effects ++ rest.effects;
        made = rw (first.made, rest.made) refl;
        displays = λ h. rw (draw-append first.effects rest.effects screen) (rest.displays h);
      }

  pub new-IsServed :
      (options : SpawnOptions) (cbs : Callbacks) (screen : Screen)
      → options.cols < 2 ^ 16
      → options.rows < 2 ^ 16
      → (hooked ≡ true → cbs.on_render ≡ true)
      → IsServed em hooked (Calls.set_callbacks em cbs (Calls.new em options)) screen
  unfolding Calls.new
  new-IsServed options cbs screen hc hr on = record {
    valid = record { whole = λ prev p. cc };
    sound = new-IsSound em options.cols options.rows options.scrollback hc hr;
    shows = λ h. record { rows_shown = λ prev p. cc };
    asked = on;
  }

module _ {E : Type 0} (em : Emulator E) where
  -- Once a new session has its `on_render` set, its host may call the methods in any order, with the pump
  -- at work between them, all sizes being `u16` and `on_render` never being unset: nothing panics, and
  -- after each request that makes a frame, the last one here, a host that draws each frame as it comes,
  -- from whatever screen, shows every line of the viewport.
  pub run-Displays :
      (options : SpawnOptions) (cbs : Callbacks) (rs : List Request) (r : Request) (screen : Screen)
      → options.cols < 2 ^ 16
      → options.rows < 2 ^ 16
      → cbs.on_render ≡ true
      → All (IsAllowed true) rs
      → IsDrawing r
      → (s : Session E) × (es : List Effect) × (run em
            (set_callbacks cbs ∷ (rs ++ r ∷ []))
            (Calls.new em options)
          ≡ some (s, es))
        × Displays em s.term (draw es screen)
  unfolding run
  run-Displays options cbs rs r screen hc hr on allowed drawing =
      let first = Calls.set_callbacks em cbs (Calls.new em options) in
      let shown =
        run-Displayed em true rs r first screen allowed drawing
          (new-IsServed em true options cbs screen hc hr (λ h. on)) in
      (shown.after, shown.effects, rw shown.made refl, shown.displays refl)
