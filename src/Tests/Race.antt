-- ===== src/Tests/Race.antt =====
-- Two threads draw a terminal: in order, and with the older of two frames handed over last.
use scshell.Base.{ℕ, true, false, [], ◌∷◌, ◌≡◌, ◌≢◌, refl, arith, inr, map, ap, List}
use scshell.Cell.{convert_cell}
use scshell.Backend as Backend
use scshell.Backend.Rows.{Face}
use scshell.Backend.Dirty.{Screen, IsValid}
use scshell.Term.{TermHost, new, line_cells}
use scshell.Term.Cells.{drawn, viewport_line}
use scshell.Term.Play.{new-IsSound}
use scshell.Term.Screen.{IsSound, Displays, Rendered, render-Rendered}
use scshell.Session.Race.{Frames, FrameRun, changes, makes, calls, at_first, later, no_frame}
use scshell.Session.Race.InOrder.{frames_in_order}
use scshell.Session.Race.Overtaken.{late_frame_hides}
use scshell.Tests.Terminal.{toy}

abbrev blank : Screen
blank y = []

-- A terminal of 4 columns and 2 lines.
abbrev small : TermHost (List ℕ)
small = new toy 4 2 100

small-IsSound : IsSound toy small
small-IsSound = new-IsSound toy 4 2 100 (omega arith) (omega arith)

no_frame-IsValid : IsValid Backend.new
no_frame-IsValid = record { whole = λ prev p. cc }

first : Rendered toy Backend.new small
first = render-Rendered toy Backend.new small no_frame-IsValid small-IsSound

-- The terminal is reset to what it was, drawn, and the frame is handed over.
abbrev once_drawn : (s : Frames (List ℕ)) × FrameRun toy true (no_frame small blank) s
once_drawn = (
  _,
  later
      (later (later at_first (changes small small-IsSound))
        (makes 1 first.b_after first.t_after first.snap tt first.made))
      (calls [] (record { thread = 1; snap = first.snap }) [] refl (inr refl)),
)

frames_in_order_example : Displays toy once_drawn.0.term once_drawn.0.screen
frames_in_order_example = frames_in_order toy small blank small-IsSound once_drawn.1 refl refl

-- The terminal behind an output of one `X`.
abbrev changed : TermHost (List ℕ)
changed = record small { term = b'X' ∷ [] }

changed-IsSound : IsSound toy changed
changed-IsSound = record { sized = small-IsSound.sized; hashed = small-IsSound.hashed }

abbrev first_char : List Face → ℕ
first_char [] = 0
first_char (f ∷ rest) = f.ch

-- The viewport is scrolled back by one line.
line_differs :
    map drawn (viewport_line (toy.view small.term) small.size.cols 1)
    ≢ map drawn (viewport_line (toy.view changed.term) changed.size.cols 1)
unfolding new line_cells convert_cell
line_differs e = let same : b' ' ≡ b'X' = ap first_char e in omega (arith, same)

late_frame_hides_example :
    (u : Frames (List ℕ)) × FrameRun toy false (no_frame small blank) u
    × (u.waiting ≡ [])
    × (u.drawn ≡ true)
    × (u.term ≡ record changed { hyperlinks = u.term.hyperlinks })
    × (Displays toy u.term u.screen → ⊥)
unfolding new
late_frame_hides_example =
    late_frame_hides toy small changed blank 1 2 1 small-IsSound changed-IsSound (omega arith)
      (omega arith) (omega arith) line_differs
