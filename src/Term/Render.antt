-- ===== src/Term/Render.antt =====
-- rata_shell/src/render/backend.rs: `HostBackend::snapshot` on a terminal, and the host that draws what
-- it reports.
use scshell.Base.{ℕ, ◌*◌, ◌<◌, List, ◌≡◌, refl, ◌∙◌, map, some, Option, length, ◌>>=◌}
use scshell.Cell.{HostCell}
use scshell.Backend.{Rect, HostBackend, next_frame}
use scshell.Backend.Rows.{row, face}
use scshell.Term.{Emulator, TermHost, SnapshotMeta, snapshot, mode_flags, link_cells, grid_cells}
use scshell.Term.Cells.{drawn, viewport_line, rows_drawn, length-grid_cells, length-link_cells}
use scshell.Term.Cursor.{IsSized, IsPlaced, cursor_meta-IsPlaced}
use scshell.Term.Links.{IsHashed, IsLinked, link_cells-IsLinked}

-- `RenderSnapshot`, with the size, the cursor and `alt_active` in its `meta`.
pub record RenderSnapshot : Type 0 where
  pub meta : SnapshotMeta
  pub cells : List HostCell
  pub dirty : List Rect
  pub mode_flags : ℕ

-- What a snapshot of a terminal holds: every line of the viewport, the links, and the cursor.
pub record IsFrame {E : Type 0} (em : Emulator E) (t : TermHost E) : Type 0 where
  pub after : TermHost E
  pub cells : List HostCell
  pub meta : SnapshotMeta
  pub made : snapshot em t ≡ some (after, cells, meta)
  pub rest_kept : after ≡ record t { hyperlinks = after.hyperlinks }
  pub whole : length cells ≡ t.size.cols * t.size.lines
  pub lines_drawn :
      (y : ℕ)
      → y < t.size.lines
      → map face (row t.size.cols cells y)
        ≡ map drawn (viewport_line (em.view t.term) t.size.cols y)
  pub linked :
      IsLinked t.hyperlinks after.hyperlinks
        (grid_cells t.size.lines 0 t.size.cols (em.view t.term))
        cells
  pub placed : IsPlaced t.size (em.view t.term) meta

module _ {E : Type 0} (em : Emulator E) where
  unfoldable pub render :
      HostBackend → TermHost E → Option (HostBackend × TermHost E × RenderSnapshot)
  render b t = do
    (t, cells, meta) ← snapshot em t
    (dirty, b) ← next_frame b meta.cols meta.rows cells
    some (b, t, record { meta = meta; cells = cells; dirty = dirty; mode_flags = mode_flags em t })

  -- With two columns and a line at least, sizes that fit in `u16`, and each URI kept under its own
  -- hash, a snapshot never panics and changes nothing of the terminal but the links. It reads line
  -- `y - display_offset` of the grid for each row `y`; each cell has the id of its link, under
  -- which a URI with that hash is kept, and no earlier URI is lost; the cursor is inside the frame,
  -- and where it is visible it stands on its own line.
  pub snapshot-IsFrame : (t : TermHost E) → IsSized t.size → IsHashed t.hyperlinks → IsFrame em t
  unfolding snapshot
  snapshot-IsFrame t s v =
      let view = em.view t.term in
      let read = grid_cells t.size.lines 0 t.size.cols view in
      let (meta, e, placed) = cursor_meta-IsPlaced t.size view s in
      record {
        after = record t { hyperlinks = (link_cells t.hyperlinks read).0 };
        cells = (link_cells t.hyperlinks read).1;
        meta = meta;
        made = rw e;
        rest_kept = refl;
        whole =
            length-link_cells t.hyperlinks read ∙ length-grid_cells t.size.lines 0 t.size.cols view;
        lines_drawn = λ y h. rows_drawn t.hyperlinks t.size.lines t.size.cols view y h;
        linked = link_cells-IsLinked t.hyperlinks read v;
        placed = placed;
      }
