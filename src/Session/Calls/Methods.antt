-- ===== src/Session/Calls/Methods.antt =====
-- The methods that make no frame leave the session as it should be.
use scshell.Base.{
  ℕ, ◌<◌, ◌^◌, Bool, Bool-cases, Option-cases, inl, inr, List, [], ◌∷◌, ◌++◌, Option, none, some,
  ◌≡◌, refl, ap, ◌∙◌, Bytes,
}
use scshell.Env.{Str}
use scshell.Error.{RataError}
use scshell.Backend.Dirty.{Screen}
use scshell.Keymap.{encode}
use scshell.Term.{Emulator, TermHost, Point, snapshot}
use scshell.Term as Term
use scshell.Term.Cursor.{size_new-IsSized}
use scshell.Term.Render.{snapshot-IsFrame}
use scshell.Term.Search as Search
use scshell.Term.Search.Rest.{search_next-kept}
use scshell.Session.Calls.{SpawnOptions, Callbacks, Session, Effect, Reply, ok, err, Action}
use scshell.Session.Calls as Calls
use scshell.Session.Calls.Kept.{draw, IsServed, Served}
use scshell.Session.Calls.Requests.{search_next, perform}
use scshell.Session.Calls.Frames.{Keeps-IsServed}

module _ {E : Type 0} (em : Emulator E) (hooked : Bool) where
  -- What a session does that changes neither its terminal, its frames nor its callbacks.
  abbrev IsQuiet : Session E → Session E → Type 0
  IsQuiet s t =
      (t.backend ≡ s.backend) × (t.term ≡ s.term) × (t.callbacks.on_render ≡ s.callbacks.on_render)

  IsQuiet-IsServed :
      (s t : Session E) (screen : Screen)
      → IsQuiet s t
      → IsServed em hooked s screen
      → IsServed em hooked t screen
  IsQuiet-IsServed s t screen (b, h, c) v = record {
    valid = rw b v.valid;
    sound = rw h v.sound;
    shows = λ h. rw b (v.shows h);
    asked = λ h. c ∙ v.asked h;
  }

  started-IsQuiet :
      (s : Session E) (spawned : Reply ℕ) (reader writer : Option RataError)
      → IsQuiet s (Calls.started s spawned reader writer).1
  unfolding Calls.started
  started-IsQuiet s (err e) reader writer = (refl, refl, refl)
  started-IsQuiet s (ok pid) (some e) writer = (refl, refl, refl)
  started-IsQuiet s (ok pid) none (some e) = (refl, refl, refl)
  started-IsQuiet s (ok pid) none none = (refl, refl, refl)

  started-magic :
      (s : Session E) (spawned : Reply ℕ) (reader writer : Option RataError)
      → (Calls.started s spawned reader writer).1.magic ≡ s.magic
  unfolding Calls.started
  started-magic s (err e) reader writer = refl
  started-magic s (ok pid) (some e) writer = refl
  started-magic s (ok pid) none (some e) = refl
  started-magic s (ok pid) none none = refl

  pub send_bytes-Served :
      (bytes : Bytes) (s : Session E) (screen : Screen)
      → IsServed em hooked s screen
      → Served em hooked (Calls.send_bytes em bytes) s screen
  unfolding Calls.send_bytes draw
  send_bytes-Served [] s screen v = record {
    reply = ok tt;
    after = s;
    effects = [];
    made = refl;
    served = v;
    same_magic = refl;
  }
  send_bytes-Served (b ∷ bytes) s screen v = elim (Option-cases s.writer) [
    | inl e ↦ record {
      reply = err (Calls.state (Calls.codes "not started"));
      after = s;
      effects = [];
      made = rw e refl;
      served = v;
      same_magic = refl;
    }
    | inr (sent, e) ↦ record {
      reply = ok tt;
      after = record s { writer = some (sent ++ (b ∷ bytes) ∷ []) };
      effects = [];
      made = rw e refl;
      served = IsQuiet-IsServed s _ screen (refl, refl, refl) v;
      same_magic = refl;
    }
  ]

  pub send_key-Served :
      (vk mods : ℕ) (s : Session E) (screen : Screen)
      → IsServed em hooked s screen
      → Served em hooked (Calls.send_key em vk mods) s screen
  unfolding Calls.send_key
  send_key-Served vk mods s screen v =
      let shot = snapshot-IsFrame em s.term v.sound.sized v.sound.hashed in
      let sent =
        send_bytes-Served (encode vk mods shot.meta.app_cursor_keys)
          (record s { term = shot.after }) screen
          (record {
            valid = v.valid;
            sound = record {
              sized = rw (ap (λ (u : TermHost E). u.size) shot.rest_kept) v.sound.sized;
              hashed = shot.linked.hashed;
            };
            shows = v.shows;
            asked = v.asked;
          }) in
      record {
        reply = sent.reply;
        after = sent.after;
        effects = sent.effects;
        made = rw shot.made sent.made;
        served = sent.served;
        same_magic = sent.same_magic;
      }

  pub resize-Served :
      (answer : Option RataError) (cols rows : ℕ) (s : Session E) (screen : Screen)
      → cols < 2 ^ 16
      → rows < 2 ^ 16
      → IsServed em hooked s screen
      → Served em hooked (Calls.resize em answer cols rows) s screen
  unfolding Calls.resize Term.resize draw
  resize-Served answer cols rows s screen hc hr v =
      let after = record s { term = Term.resize em s.term cols rows } in
      let served : IsServed em hooked after screen = record {
        valid = v.valid;
        sound = record { sized = size_new-IsSized cols rows hc hr; hashed = v.sound.hashed };
        shows = v.shows;
        asked = v.asked;
      } in
      elim (Option-cases s.pty) [
        | inl e ↦ record {
          reply = ok tt;
          after = after;
          effects = [];
          made = rw e refl;
          served = served;
          same_magic = refl;
        }
        | inr (pid, e) ↦ record {
          reply = elim answer [ none ↦ ok tt | some e ↦ err e ];
          after = after;
          effects = Calls.resize_console (Calls.coord cols rows) ∷ [];
          made = rw e refl;
          served = served;
          same_magic = refl;
        }
      ]

  pub start-Served :
      (vars : List (Str × Str)) (spawned : Reply ℕ) (reader writer : Option RataError)
      (s : Session E) (screen : Screen)
      → IsServed em hooked s screen
      → Served em hooked (Calls.start em vars spawned reader writer) s screen
  unfolding Calls.start draw
  start-Served vars spawned reader writer s screen v = elim (Bool-cases s.alive) [
    | inl e ↦ record {
      reply = err (Calls.state (Calls.codes "already running"));
      after = s;
      effects = [];
      made = rw e refl;
      served = v;
      same_magic = refl;
    }
    | inr e ↦ record {
      reply = (Calls.started s spawned reader writer).0;
      after = (Calls.started s spawned reader writer).1;
      effects = Calls.spawn_child s.options (Calls.child_env em vars s) ∷ [];
      made = rw e refl;
      served = IsQuiet-IsServed s _ screen (started-IsQuiet s spawned reader writer) v;
      same_magic = started-magic s spawned reader writer;
    }
  ]

  pub search_next-Served :
      (pattern : Bytes) (forward : Bool) (s : Session E) (screen : Screen)
      → IsServed em hooked s screen
      → Served em hooked (perform em (search_next pattern forward)) s screen
  unfolding draw
  search_next-Served pattern forward s screen v =
      let (size, links, queue) = search_next-kept em pattern forward s.term in
      record {
        reply = ok tt;
        after = record s { term = (Search.search_next em s.term pattern forward).0 };
        effects = [];
        made = refl;
        served = Keeps-IsServed em hooked _ s screen size links v;
        same_magic = refl;
      }

  -- The requests that make no frame.
  pub quiet-Served :
      (s t : Session E) (screen : Screen)
      → IsQuiet s t
      → t.magic ≡ s.magic
      → IsServed em hooked s screen
      → (es : List Effect) → draw es screen ≡ screen
      → (act : Action E (Unit {0})) → act s ≡ some (ok tt, t, es)
      → Served em hooked act s screen
  quiet-Served s t screen q m v es e act made = record {
    reply = ok tt;
    after = t;
    effects = es;
    made = made;
    served = rw e (IsQuiet-IsServed s t screen q v);
    same_magic = m;
  }

  pub terminate-Served :
      (s : Session E) (screen : Screen)
      → IsServed em hooked s screen
      → Served em hooked (Calls.terminate em) s screen
  unfolding Calls.terminate draw
  terminate-Served s screen v = elim (Option-cases s.pty) [
    | inl e ↦
        quiet-Served s s screen (refl, refl, refl) refl v [] refl (Calls.terminate em) (rw e refl)
    | inr (pid, e) ↦
        quiet-Served s s screen (refl, refl, refl) refl v (Calls.terminate_process 1 ∷ []) refl
          (Calls.terminate em) (rw e refl)
  ]
