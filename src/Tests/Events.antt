-- ===== src/Tests/Events.antt =====
-- A frame of two cells through the structures of C, and a session whose host paints from them.
use scshell.Base.{ℕ, ◌+◌, ◌*◌, true, false, List, [], ◌∷◌, ◌++◌, some, none, ◌≡◌, refl, arith}
use scshell.Cell.{HostCell}
use scshell.Backend.Dirty.{Screen}
use scshell.Term.Render.{RenderSnapshot}
use scshell.Term.Screen.{Displays}
use scshell.Session.Calls.{Session, Effect, new}
use scshell.Session.Calls.Requests.{gesture, scroll_to_top, set_callbacks, run}
use scshell.Ffi.Events.{RataRenderEvent, Heap, render_cb}
use scshell.Ffi.Events.Read.{read_event, without_app_cursor, render_cb-read}
use scshell.Ffi.Events.Painted.{paint_all, AreFree, run-painted}
use scshell.Tests.Pager.{pager}
use scshell.Tests.Calls.{options, drawing, requests}

abbrev empty_heap : Heap
empty_heap = record { rects = λ p. none; cells = λ p. none }

abbrev cell : ℕ → HostCell
cell c = record { ch = c; fg = 1; bg = 2; attrs = 0; width = 1; hyperlink_id = 0 }

abbrev two_cells : RenderSnapshot
two_cells = record {
  meta = record {
    cols = 2;
    rows = 1;
    cursor_x = 1;
    cursor_y = 0;
    cursor_visible = true;
    alt_active = false;
    app_cursor_keys = true;
    cursor_style = 0;
  };
  cells = cell b'h' ∷ cell b'i' ∷ [];
  dirty = record { x = 0; y = 0; w = 2; h = 1 } ∷ [];
  mode_flags = 2;
}

-- A host that counts its callbacks.
abbrev count : Heap → RataRenderEvent → ℕ → ℕ
count heap ev n = n + 1

render_cb-read_example :
    ((render_cb (λ h ev host. read_event h ev) 16 32 two_cells empty_heap none).0
      ≡ some (without_app_cursor two_cells))
    × ((i : ℕ)
        → ((render_cb count 16 32 two_cells empty_heap 0).1.rects i ≡ none)
          × ((render_cb count 16 32 two_cells empty_heap 0).1.cells i ≡ none))
render_cb-read_example = render_cb-read count 0 16 32 two_cells empty_heap refl refl

abbrev in_turn : ℕ → ℕ × ℕ
in_turn k = (16 * k, 16 * k + 8)

empty_heap-AreFree : AreFree in_turn empty_heap
empty_heap-AreFree = record { for_rects = λ k. refl; for_cells = λ k. refl }

abbrev blank : Screen
blank y = []

run-painted_example :
    (s : Session ℕ) × (es : List Effect) × (after : Screen) × (run pager
        (set_callbacks drawing ∷ (requests ++ gesture scroll_to_top ∷ []))
        (new pager options)
      ≡ some (s, es))
    × (paint_all in_turn 0 es empty_heap (some blank) ≡ some after)
    × Displays pager s.term after
run-painted_example =
    run-painted pager options drawing requests (gesture scroll_to_top) blank in_turn empty_heap
      (omega arith) (omega arith) refl
      (tt, (tt, (tt, (tt, (tt, ((omega arith, omega arith), tt)))))) tt empty_heap-AreFree
