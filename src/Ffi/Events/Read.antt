-- ===== src/Ffi/Events/Read.antt =====
-- What a host gets from the structure: the frame, and nothing is left behind.
use scshell.Base.{
  Bytes, ℕ, suc, Bool, true, false, not, List, [], ◌∷◌, map, Option, none, some, ◌>>=◌, ◌≡◌, refl,
  sym, ap, ◌∙◌, arith, length, take, leb, ◌==◌, ℕ_discrete,
}
use scshell.Base.Bits.{bit_of}
use scshell.Cell.{HostCell}
use scshell.Backend.{Rect}
use scshell.Session.Family.{update}
use scshell.Term.Render.{RenderSnapshot}
use scshell.Ffi.Events.{
  text_cb, RataRect, RataCellC, RataRenderEvent, cell_to_c, rect_to_c, Heap, buffer, free,
  render_event, render_cb, read_array,
}

abbrev pub cell_of : RataCellC → HostCell
cell_of c = record {
  ch = c.ch;
  fg = c.fg;
  bg = c.bg;
  attrs = c.attrs;
  width = c.width;
  hyperlink_id = c.hyperlink_id;
}

abbrev pub rect_of : RataRect → Rect
rect_of r = record { x = r.x; y = r.y; w = r.w; h = r.h }

-- A host that takes the frame over, as in the Delphi control. The structure has no `app_cursor_keys`.
unfoldable pub read_event : Heap → RataRenderEvent → Option RenderSnapshot
unfolding read_array
read_event heap ev = do
  rects ← read_array heap.rects ev.dirty_rects ev.dirty_count
  cells ← read_array heap.cells ev.cells ev.cells_len
  some (record {
    meta = record {
      cols = ev.cols;
      rows = ev.rows;
      cursor_x = ev.cursor_x;
      cursor_y = ev.cursor_y;
      cursor_visible = not (ev.cursor_visible == 0);
      alt_active = not (ev.alt_active == 0);
      app_cursor_keys = false;
      cursor_style = ev.cursor_style;
    };
    cells = map cell_of cells;
    dirty = map rect_of rects;
    mode_flags = ev.mode_flags;
  })

abbrev pub without_app_cursor : RenderSnapshot → RenderSnapshot
without_app_cursor snap = record snap { meta = record snap.meta { app_cursor_keys = false } }

cells_back : (cells : List HostCell) → map cell_of (map cell_to_c cells) ≡ cells
unfolding cell_to_c
cells_back [] = refl
cells_back (c ∷ cells) = ap (λ l. c ∷ l) (cells_back cells)

rects_back : (rects : List Rect) → map rect_of (map rect_to_c rects) ≡ rects
rects_back [] = refl
rects_back (r ∷ rects) = ap (λ l. r ∷ l) (rects_back rects)

bit_back : (b : Bool) → not (bit_of b == 0) ≡ b
bit_back true = refl
bit_back false = refl

take_all : {A : Type 0} (xs : List A) → take (length xs) xs ≡ xs
take_all [] = refl
take_all (x ∷ xs) = ap (λ l. x ∷ l) (take_all xs)

length-map : {A B : Type 0} (f : A → B) (xs : List A) → length (map f xs) ≡ length xs
length-map f [] = refl
length-map f (x ∷ xs) = ap suc (length-map f xs)

-- The array that a `Vec` has put there is read whole.
read_whole :
    {A : Type 0} (at : ℕ → Option (List A)) (p : ℕ) (x : A) (xs : List A)
    → at p ≡ some (x ∷ xs)
    → read_array at p (suc (length xs)) ≡ some (x ∷ xs)
unfolding read_array
read_whole at p x xs e =
    let enough : leb (suc (length xs)) (suc (length xs)) ≡ true = ground arith in
    let some_left : (suc (length xs) == 0) ≡ false = ground arith in
    rw (some_left, e) (rw enough (ap (λ l. some (x ∷ l)) (take_all xs)))

put_there : {A : Type 0} (at : ℕ → A) (p : ℕ) (a : A) → update at p a p ≡ a
put_there at p a = ground arith

read_array-buffer :
    {A B : Type 0} (f : A → B) (p : ℕ) (xs : List A) (at : ℕ → Option (List B))
    → read_array (buffer p (map f xs) at) p (length xs) ≡ some (map f xs)
unfolding read_array buffer
read_array-buffer f p [] at = refl
read_array-buffer f p (x ∷ xs) at =
    ap (λ n. read_array (update at p (some (f x ∷ map f xs))) p (suc n)) (sym (length-map f xs))
    ∙ read_whole (update at p (some (f x ∷ map f xs))) p (f x) (map f xs) (put_there at p _)

free-buffer :
    {A : Type 0} (p : ℕ) (xs : List A) (at : ℕ → Option (List A))
    → at p ≡ none
    → (i : ℕ) → free p xs (buffer p xs at) i ≡ at i
unfolding free buffer
free-buffer p [] at e i = refl
free-buffer p (x ∷ xs) at e i = elim (ℕ_discrete p i) [
  | yes same ↦ let hit : (p == i) ≡ true = ground arith in rw hit (sym e ∙ ap at same)
  | no other ↦ let miss : (p == i) ≡ false = ground arith in rw miss refl
]

-- During the callback a host that reads the two arrays through the pointers, and no further than their
-- counts, gets the frame as it was made, but for `app_cursor_keys`; and where the allocator has put the
-- arrays into free memory, the memory is after the callback what it was before, whatever the host does.
pub render_cb-read :
    {H : Type 0} (cb : Heap → RataRenderEvent → H → H) (host : H) (p q : ℕ) (snap : RenderSnapshot)
    (heap : Heap)
    → heap.rects p ≡ none
    → heap.cells q ≡ none
    → ((render_cb (λ h ev host. read_event h ev) p q snap heap none).0
        ≡ some (without_app_cursor snap))
      × ((i : ℕ)
          → ((render_cb cb p q snap heap host).1.rects i ≡ heap.rects i)
            × ((render_cb cb p q snap heap host).1.cells i ≡ heap.cells i))
unfolding render_cb render_event read_event
render_cb-read cb host p q snap heap free_rects free_cells = (
  rw
      (
        read_array-buffer rect_to_c p snap.dirty heap.rects,
        read_array-buffer cell_to_c q snap.cells heap.cells,
      )
      (rw
        (
          cells_back snap.cells,
          rects_back snap.dirty,
          bit_back snap.meta.cursor_visible,
          bit_back snap.meta.alt_active,
        )
        refl),
  λ i. (
    free-buffer p (map rect_to_c snap.dirty) heap.rects free_rects i,
    free-buffer q (map cell_to_c snap.cells) heap.cells free_cells i,
  ),
)

-- A host that reads a title or a text of the clipboard through its pointer gets the text.
text_cb-read :
    (p : ℕ) (text : Bytes) (at : ℕ → Option Bytes)
    → text_cb (λ memory q len host. read_array memory q len) p text at none ≡ some text
unfolding text_cb buffer read_array
text_cb-read p [] at = refl
text_cb-read p (b ∷ text) at =
    read_whole (update at p (some (b ∷ text))) p b text (put_there at p (some (b ∷ text)))
