-- ===== src/Term/Screen.antt =====
-- The screen of a host that repaints what each frame reports.
use scshell.Base.{ℕ, ◌*◌, ◌<◌, List, Option-cases, inl, inr, ◌≡◌, refl, ap, ◌∙◌, map, some, length}
use scshell.Cell.{HostCell}
use scshell.Backend.{Rect, HostBackend, next_frame, dirty_rects}
use scshell.Backend.Rows.{row, face}
use scshell.Backend.Dirty.{IsValid, Screen, Shows, repaint, next_frame-Drawn}
use scshell.Term.{Emulator, TermHost, mode_flags}
use scshell.Term.Cells.{drawn, viewport_line}
use scshell.Term.Cursor.{IsSized}
use scshell.Term.Links.{IsHashed}
use scshell.Term.Render.{RenderSnapshot, render, snapshot-IsFrame}

next_frame_kept :
    (b : HostBackend) (cols rows : ℕ) (cells : List HostCell) (rects : List Rect)
    (after : HostBackend)
    → next_frame b cols rows cells ≡ some (rects, after)
    → after ≡ record { prev = some cells; prev_cols = cols; prev_rows = rows }
unfolding next_frame
next_frame_kept b cols rows cells rects after e =
    elim (Option-cases (dirty_rects b cols rows cells)) [ inl n ↦ cc | inr (dirty, d) ↦ cc ]

shown_rows :
    (after : HostBackend) (cols rows : ℕ) (cells : List HostCell) (screen : Screen)
    → after ≡ record { prev = some cells; prev_cols = cols; prev_rows = rows }
    → Shows after screen
    → (y : ℕ) → y < rows
    → screen y ≡ map face (row cols cells y)
shown_rows after cols rows cells screen e s y h = (rw e at s).rows_shown cells refl y h

module _ {E : Type 0} (em : Emulator E) where
  -- The screen shows every line of the viewport.
  pub record Displays (t : TermHost E) (screen : Screen) : Type 0 where
    pub lines_shown :
        (y : ℕ)
        → y < t.size.lines
        → screen y ≡ map drawn (viewport_line (em.view t.term) t.size.cols y)

  pub Displays-kept :
      (t u : TermHost E) (screen : Screen)
      → u ≡ record t { hyperlinks = u.hyperlinks }
      → Displays t screen
      → Displays u screen
  Displays-kept t u screen e d =
      let size : u.size ≡ t.size = ap (λ (x : TermHost E). x.size) e in
      let term : u.term ≡ t.term = ap (λ (x : TermHost E). x.term) e in
      record { lines_shown = λ y h. rw (term, size) (d.lines_shown y (rw size at h)) }

  -- A terminal whose size and links are as the operations keep them.
  pub record IsSound (t : TermHost E) : Type 0 where
    pub sized : IsSized t.size
    pub hashed : IsHashed t.hyperlinks

  -- One frame, drawn on a screen that shows the frame before.
  pub record Rendered (b : HostBackend) (t : TermHost E) : Type 0 where
    pub b_after : HostBackend
    pub t_after : TermHost E
    pub snap : RenderSnapshot
    pub made : render em b t ≡ some (b_after, t_after, snap)
    pub valid : IsValid b_after
    pub sound : IsSound t_after
    pub rest_kept : t_after ≡ record t { hyperlinks = t_after.hyperlinks }
    pub shows :
        (screen : Screen)
        → Shows b screen
        → Shows b_after (repaint snap.dirty snap.meta.cols snap.cells screen)
    pub displays :
        (screen : Screen)
        → Shows b screen
        → Displays t_after (repaint snap.dirty snap.meta.cols snap.cells screen)

  -- End to end: a frame is made with no panic, and a host that repaints the rows of its rectangles, from
  -- a screen that shows the frame before, shows every line of the viewport, scrolled back or not.
  pub render-Rendered : (b : HostBackend) (t : TermHost E) → IsValid b → IsSound t → Rendered b t
  unfolding render
  render-Rendered b t v s =
      let shot = snapshot-IsFrame em t s.sized s.hashed in
      let cols : shot.meta.cols ≡ t.size.cols = shot.placed.cols in
      let rows : shot.meta.rows ≡ t.size.lines = shot.placed.rows in
      let whole : length shot.cells ≡ shot.meta.cols * shot.meta.rows =
        rw (cols, rows) shot.whole in
      let frame =
        next_frame-Drawn b shot.meta.cols shot.meta.rows shot.cells v (rw rows (s.sized.lines_high))
          whole in
      let kept =
        next_frame_kept b shot.meta.cols shot.meta.rows shot.cells frame.rects frame.after
          frame.made in
      record {
        b_after = frame.after;
        t_after = shot.after;
        snap = record {
          meta = shot.meta;
          cells = shot.cells;
          dirty = frame.rects;
          mode_flags = mode_flags em shot.after;
        };
        made = rw (shot.made, frame.made);
        valid = frame.valid;
        sound = record {
          sized = rw (ap (λ (u : TermHost E). u.size) shot.rest_kept) s.sized;
          hashed = shot.linked.hashed;
        };
        rest_kept = shot.rest_kept;
        shows = λ screen p. frame.shows screen p;
        displays = λ screen p. Displays-kept t shot.after _ shot.rest_kept (record {
          lines_shown = λ y h.
              shown_rows frame.after shot.meta.cols shot.meta.rows shot.cells _ kept
                (frame.shows screen p) y (rw rows h)
              ∙ ap (λ k. map face (row k shot.cells y)) cols
              ∙ shot.lines_drawn y h;
        });
      }
