-- ===== src/Tests/Calls.antt =====
-- A session that is started, fed, typed into, searched and scrolled.
use scshell.Base.{ℕ, true, false, pos, List, [], ◌∷◌, ◌++◌, some, none, ◌≡◌, refl, arith, codes}
use scshell.Backend.Dirty.{Screen}
use scshell.Session.Calls.{SpawnOptions, Callbacks, no_callbacks, Session, Effect, ok, new}
use scshell.Session.Calls as Calls
use scshell.Session.Calls.Kept.{draw, IsServed}
use scshell.Session.Calls.Requests.{
  Request, gesture, scroll_to_top, set_callbacks, start, send_bytes, send_key, search_next, resize,
  pump_round, run,
}
use scshell.Session.Calls.Shown.{run-Displays, new-IsServed}
use scshell.Term.Screen.{Displays}
use scshell.Term as Term
use scshell.Term.Search as Search
use scshell.Session.Pump.{pump}
use scshell.Io.{Round, reader}
use scshell.Io.Delivered.{reads, failed}
use scshell.Io.Posted.{answers_of, events_of, wire}
use scshell.Io.Acts.{exits, run_acts, after_chunks}
use scshell.Io.Shown.{output-Displays}
use scshell.Tests.Pager.{pager}

abbrev pub options : SpawnOptions
options = record {
  cmdline = codes "cmd.exe";
  cwd = none;
  env_block = none;
  cols = 4;
  rows = 2;
  scrollback = 100;
}

abbrev pub drawing : Callbacks
drawing = record no_callbacks { on_render = true }

abbrev blank : Screen
blank y = []

abbrev pub requests : List Request
requests =
    start [] (ok 7) none none
    ∷ send_bytes (codes "dir")
    ∷ pump_round (codes "out" ∷ [])
    ∷ send_key 0x26 0
    ∷ search_next (codes "a") true
    ∷ resize none 5 3
    ∷ []

run-Displays_example :
    (s : Session ℕ) × (es : List Effect) × (run pager
        (set_callbacks drawing ∷ (requests ++ gesture scroll_to_top ∷ []))
        (new pager options)
      ≡ some (s, es))
    × Displays pager s.term (draw es blank)
run-Displays_example =
    run-Displays pager options drawing requests (gesture scroll_to_top) blank (omega arith)
      (omega arith) refl (tt, (tt, (tt, (tt, (tt, ((omega arith, omega arith), tt)))))) tt

-- The text of the host, an answer of the terminal, and the arrow key in the mode of the toy terminal.
three_posted :
    wire pager
      (set_callbacks drawing ∷ (requests ++ gesture scroll_to_top ∷ []))
      (new pager options)
      none
    ≡ some (codes "dir" ∷ codes "ok" ∷ (0x1b ∷ b'O' ∷ b'A' ∷ []) ∷ [])
unfolding wire answers_of events_of new Calls.start Calls.started Calls.send_bytes Calls.send_key
    Calls.pump_round Calls.take_in Calls.request_render Calls.resize scshell.Term.Render.render
    Term.snapshot Term.cursor_meta Term.drain_events Term.advance Term.new
    scshell.Backend.next_frame scshell.Backend.dirty_rects scshell.Keymap.encode
    scshell.Keymap.csi_arrow scshell.Keymap.modparam scshell.Term.Gestures.scroll_to_top Term.resize
three_posted = refl

-- A search moves the viewport, and the host gets no frame of it.
search_tells_nothing :
    (s : Session ℕ) × (Calls.search_next pager (codes "a") true (new pager options)
      ≡ some (ok (record { col = 1; row = 0; len = 2 }), s, []))
    × (s.term.term ≡ 4)
unfolding new Search.search_next Search.with_pattern Search.same_text Search.find Search.show_match
    Search.match_len Search.reveal Search.origin Term.new
search_tells_nothing = (_, refl, refl)

abbrev watching : Callbacks
watching = record drawing { on_exit = true }

-- A session whose shell runs.
abbrev first : Session ℕ
first = record (Calls.set_callbacks pager watching (new pager options)) { alive = true }

first-IsServed : IsServed pager true first blank
first-IsServed =
    let fresh =
      new-IsServed pager true options watching blank (omega arith) (omega arith) (λ h. refl) in
    record { valid = fresh.valid; sound = fresh.sound; shows = fresh.shows; asked = fresh.asked }

abbrev three_reads : List Round
three_reads = reads (codes "dir" ∷ codes "out" ∷ []) none []

output-Displays_example :
    (t : Session ℕ) × (es : List Effect) × (run_acts pager
        (some (pos 3))
        (pump 3 (λ round. 1) (reader three_reads))
        first
      ≡ some (t, es))
    × (t.term.term ≡ after_chunks pager first.term.term (codes "dir" ∷ codes "out" ∷ []))
    × Displays pager t.term (draw es blank)
    × (t.alive ≡ false)
    × (t.exit_code ≡ pos 3)
    × (exits es ≡ pos 3 ∷ [])
output-Displays_example =
    output-Displays pager (some (pos 3)) first blank 3 (λ round. 1) (codes "dir" ∷ codes "out" ∷ [])
      none [] first-IsServed (tt, (tt, tt)) failed (omega arith)
