-- ===== src/Term/Play.antt =====
-- A terminal and the screen of its host, from the start on: output, new sizes and frames in any order.
use scshell.Base.{
  ℕ, ◌<◌, ◌^◌, List, [], ◌∷◌, ◌++◌, Option, some, Option-cases, inl, inr, ◌≡◌, refl, ◌∙◌, All,
  Bytes, ◌>>=◌,
}
use scshell.Backend.{HostBackend}
use scshell.Backend.Dirty.{IsValid, Screen, Shows, repaint}
use scshell.Term.{Emulator, TermHost, get, new, resize, advance, drain_events}
use scshell.Term.Cursor.{size_new-IsSized}
use scshell.Term.Render.{render}
use scshell.Term.Screen.{Displays, IsSound, render-Rendered}
use scshell.Backend as Backend

-- What happens to a terminal: the pump feeds it output and drains its events, the host resizes it, and
-- a frame is made and drawn.
pub data Happening : Type 0 where
  output : Bytes → Happening
  resized : (cols rows : ℕ) → Happening
  frame : Happening

-- The sizes are `u16`.
abbrev pub IsWord : Happening → Type 0
IsWord (resized cols rows) = (cols < 2 ^ 16) × (rows < 2 ^ 16)
IsWord _ = Unit

module _ {E : Type 0} (em : Emulator E) where
  pub record World : Type 0 where
    pub backend : HostBackend
    pub term : TermHost E
    pub screen : Screen

  abbrev pub happen : Happening → World → Option World
  happen (output bytes) w = some (record w { term = (drain_events em (advance em w.term bytes)).0 })
  happen (resized cols rows) w = some (record w { term = resize em w.term cols rows })
  happen frame w = do
    (backend, term, snap) ← render em w.backend w.term
    some (record {
      backend = backend;
      term = term;
      screen = repaint snap.dirty snap.meta.cols snap.cells w.screen;
    })

  unfoldable pub play : World → List Happening → Option World
  play w [] = some w
  play w (h ∷ hs) = do w ← happen h w; play w hs

  abbrev pub start : ℕ → ℕ → ℕ → Screen → World
  start cols rows scrollback screen = record {
    backend = Backend.new;
    term = new em cols rows scrollback;
    screen = screen;
  }

  record IsGood (w : World) : Type 0 where
    valid : IsValid w.backend
    sound : IsSound em w.term
    shows : Shows w.backend w.screen

  pub new-IsSound :
      (cols rows scrollback : ℕ)
      → cols < 2 ^ 16
      → rows < 2 ^ 16
      → IsSound em (new em cols rows scrollback)
  unfolding new get
  new-IsSound cols rows scrollback hc hr = record {
    sized = size_new-IsSized cols rows hc hr;
    hashed = record { hashed = λ id uri h. cc };
  }

  start-IsGood :
      (cols rows scrollback : ℕ) (screen : Screen)
      → cols < 2 ^ 16
      → rows < 2 ^ 16
      → IsGood (start cols rows scrollback screen)
  start-IsGood cols rows scrollback screen hc hr = record {
    valid = record { whole = λ prev p. cc };
    sound = new-IsSound cols rows scrollback hc hr;
    shows = record { rows_shown = λ prev p. cc };
  }

  happen-IsGood :
      (h : Happening) (w : World)
      → IsWord h
      → IsGood w
      → (w' : World) × (happen h w ≡ some w') × IsGood w'
  unfolding advance resize drain_events
  happen-IsGood (output bytes) w k g = (
    _,
    refl,
    record {
      valid = g.valid;
      sound = record { sized = g.sound.sized; hashed = g.sound.hashed };
      shows = g.shows;
    },
  )
  happen-IsGood (resized cols rows) w k g = (
    _,
    refl,
    record {
      valid = g.valid;
      sound = record { sized = size_new-IsSized cols rows k.0 k.1; hashed = g.sound.hashed };
      shows = g.shows;
    },
  )
  happen-IsGood frame w k g =
      let made = render-Rendered em w.backend w.term g.valid g.sound in
      (
        _,
        rw made.made,
        record { valid = made.valid; sound = made.sound; shows = made.shows w.screen g.shows },
      )

  play-append :
      (w : World) (hs js : List Happening) → play w (hs ++ js) ≡ (play w hs >>= λ v. play v js)
  unfolding play
  play-append w [] js = refl
  play-append w (h ∷ hs) js = elim (Option-cases (happen h w)) [
    | inl e ↦ rw e
    | inr (v, e) ↦ rw e (play-append v hs js)
  ]

  play-IsGood :
      (w : World) (hs : List Happening)
      → All IsWord hs
      → IsGood w
      → (w' : World) × (play w hs ≡ some w') × IsGood w'
  unfolding play
  play-IsGood w [] k g = (w, refl, g)
  play-IsGood w (h ∷ hs) (k, ks) g =
      let (v, e, good) = happen-IsGood h w k g in rw e (play-IsGood v hs ks good)

  -- Whatever output, sizes and frames a new terminal has seen, all sizes being `u16`, and whatever
  -- its screen showed at first, nothing panics, and after one more frame the screen shows every
  -- line of the viewport.
  pub play-Displays :
      (cols rows scrollback : ℕ) (screen : Screen) (hs : List Happening)
      → cols < 2 ^ 16
      → rows < 2 ^ 16
      → All IsWord hs
      → (w : World) × (play (start cols rows scrollback screen) (hs ++ frame ∷ []) ≡ some w)
        × Displays em w.term w.screen
  unfolding play
  play-Displays cols rows scrollback screen hs hc hr ks =
      let first = start cols rows scrollback screen in
      let (v, e, good) = play-IsGood first hs ks (start-IsGood cols rows scrollback screen hc hr) in
      let made = render-Rendered em v.backend v.term good.valid good.sound in
      let last = play-append first hs (frame ∷ []) in
      (
        record {
          backend = made.b_after;
          term = made.t_after;
          screen = repaint made.snap.dirty made.snap.meta.cols made.snap.cells v.screen;
        },
        last ∙ rw (e, made.made),
        made.displays v.screen good.shows,
      )
