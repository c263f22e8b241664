-- ===== src/Ffi/Events.antt =====
-- rata_shell/src/ffi.rs: a frame as a structure of C, which the host reads through pointers during its callback.
-- Where the allocator puts the two arrays is a parameter.
pub mod Read
pub mod Painted
use scshell.Base.{
  Bytes, ℤ, ℕ, Bool, true, false, not, List, [], ◌∷◌, map, Option, none, some, ◌>>=◌, length, take,
  leb, ◌==◌, if◌then◌else◌,
}
use scshell.Base.Bits.{bit_of}
use scshell.Cell.{HostCell}
use scshell.Backend.{Rect}
use scshell.Session.Family.{update}
use scshell.Term.Render.{RenderSnapshot}

pub record RataRect : Type 0 where
  pub x : ℕ
  pub y : ℕ
  pub w : ℕ
  pub h : ℕ

-- The field `_pad` is `pad`.
pub record RataCellC : Type 0 where
  pub ch : ℕ
  pub fg : ℕ
  pub bg : ℕ
  pub attrs : ℕ
  pub width : ℕ
  pub pad : ℕ
  pub hyperlink_id : ℕ

pub record RataRenderEvent : Type 0 where
  pub cols : ℕ
  pub rows : ℕ
  pub cursor_x : ℕ
  pub cursor_y : ℕ
  pub cursor_visible : ℕ
  pub cursor_style : ℕ
  pub alt_active : ℕ
  pub pad : ℕ
  pub dirty_rects : ℕ
  pub dirty_count : ℕ
  pub cells : ℕ
  pub cells_len : ℕ
  pub mode_flags : ℕ
  pub pad2 : ℕ

unfoldable pub cell_to_c : HostCell → RataCellC
cell_to_c c = record {
  ch = c.ch;
  fg = c.fg;
  bg = c.bg;
  attrs = c.attrs;
  width = c.width;
  pad = 0;
  hyperlink_id = c.hyperlink_id;
}

abbrev pub rect_to_c : Rect → RataRect
rect_to_c r = record { x = r.x; y = r.y; w = r.w; h = r.h }

-- The buffers of the two kinds of `Vec`, by their addresses.
pub record Heap : Type 0 where
  pub rects : ℕ → Option (List RataRect)
  pub cells : ℕ → Option (List RataCellC)

-- A `Vec` of no element has no buffer, and its pointer leads nowhere.
unfoldable pub buffer : {A : Type 0} → ℕ → List A → (ℕ → Option (List A)) → ℕ → Option (List A)
buffer p [] at = at
buffer p (x ∷ xs) at = update at p (some (x ∷ xs))

-- The drop of a `Vec`.
unfoldable pub free : {A : Type 0} → ℕ → List A → (ℕ → Option (List A)) → ℕ → Option (List A)
free p [] at = at
free p (x ∷ xs) at = update at p none

-- The structure that the callback gets, with the arrays at `p` and `q`.
unfoldable pub render_event : (p q : ℕ) → RenderSnapshot → RataRenderEvent
render_event p q snap = record {
  cols = snap.meta.cols;
  rows = snap.meta.rows;
  cursor_x = snap.meta.cursor_x;
  cursor_y = snap.meta.cursor_y;
  cursor_visible = bit_of snap.meta.cursor_visible;
  cursor_style = snap.meta.cursor_style;
  alt_active = bit_of snap.meta.alt_active;
  pad = 0;
  dirty_rects = p;
  dirty_count = length snap.dirty;
  cells = q;
  cells_len = length snap.cells;
  mode_flags = snap.mode_flags;
  pad2 = 0;
}

-- `render_cb`: the call of the host, on a state `H` of its own, between the allocation of the arrays and
-- their drops.
unfoldable pub render_cb :
    {H : Type 0}
    → (Heap → RataRenderEvent → H → H)
    → (p q : ℕ) → RenderSnapshot
    → Heap
    → H
    → H × Heap
unfolding cell_to_c buffer free render_event
render_cb cb p q snap heap host =
    let rects = map rect_to_c snap.dirty in
    let cells = map cell_to_c snap.cells in
    let during : Heap = record {
      rects = buffer p rects heap.rects;
      cells = buffer q cells heap.cells;
    } in
    (
      cb during (render_event p q snap) host,
      record { rects = free p rects during.rects; cells = free q cells during.cells },
    )

-- `title_cb`, and the callback of the clipboard: the host gets a pointer to the bytes and their number, and
-- the text is at `p` until the callback returns. `exit_cb` and `bell_cb` have nothing to point to.
unfoldable pub text_cb :
    {H : Type 0}
    → ((ℕ → Option Bytes) → (p len : ℕ) → H → H)
    → (p : ℕ) → Bytes
    → (ℕ → Option Bytes)
    → H
    → H
unfolding buffer
text_cb cb p text at host = cb (buffer p text at) p (length text) host

abbrev pub exit_cb : {H : Type 0} → (ℤ → H → H) → ℤ → H → H
exit_cb cb code host = cb code host

abbrev pub bell_cb : {H : Type 0} → (H → H) → H → H
bell_cb cb host = cb host

-- What a host does to read `count` elements from `p` on: none is a read outside of a buffer.
unfoldable pub read_array : {A : Type 0} → (ℕ → Option (List A)) → (p count : ℕ) → Option (List A)
read_array at p count =
    if count == 0
    then some []
    else do xs ← at p; if leb count (length xs) then some (take count xs) else none
