-- ===== src/Term/Cursor.antt =====
-- The size of a terminal, and the cursor of a frame.
use scshell.Base.{
  ℕ, zero, suc, ◌≤◌, ◌<◌, ◌^◌, Bool, true, not, ◌&&◌, some, ◌≡◌, refl, sym, ap, ◌∙◌, arith, ltb,
  as_u16, if◌then◌else◌, ℤ, pos, negsuc, ◌+ℤ◌,
}
use scshell.Term.{
  Size, size_new, View, is_hidden, in_view, cursor_style, cursor_meta, clamp_below, SnapshotMeta,
}

-- A terminal has two columns and a line at least, and its size fits in two `u16`.
pub record IsSized (size : Size) : Type 0 where
  pub cols_low : 2 ≤ size.cols
  pub cols_high : size.cols < 2 ^ 16
  pub lines_low : 1 ≤ size.lines
  pub lines_high : size.lines < 2 ^ 16

pub size_new-IsSized :
    (cols lines : ℕ) → cols < 2 ^ 16 → lines < 2 ^ 16 → IsSized (size_new cols lines)
size_new-IsSized cols lines hc hl = record {
  cols_low = omega arith;
  cols_high = omega arith;
  lines_low = omega arith;
  lines_high = omega arith;
}

-- The cursor is inside the frame, and where it is visible it stands on its own line.
pub record IsPlaced (size : Size) (v : View) (m : SnapshotMeta) : Type 0 where
  pub cols : m.cols ≡ size.cols
  pub rows : m.rows ≡ size.lines
  pub x_inside : m.cursor_x < size.cols
  pub y_inside : m.cursor_y < size.lines
  pub x_exact : v.cursor_column < size.cols → m.cursor_x ≡ v.cursor_column
  pub y_exact : m.cursor_visible ≡ true → pos m.cursor_y ≡ v.cursor_line +ℤ pos v.display_offset

record Clamped (n : ℕ) (x : ℤ) : Type 0 where
  index : ℕ
  made : clamp_below n x ≡ some index
  inside : index < n
  exact : (k : ℕ) → x ≡ pos k → k < n → index ≡ k

clamp_below-Clamped : (n : ℕ) (x : ℤ) → 1 ≤ n → Clamped n x
unfolding clamp_below
clamp_below-Clamped zero x h = absurd (omega arith)
clamp_below-Clamped (suc n) (negsuc k) h = record {
  index = 0;
  made = refl;
  inside = omega arith;
  exact = λ j e lt. cc;
}
clamp_below-Clamped (suc n) (pos k) h = record {
  index = if ltb n k then n else k;
  made = refl;
  inside = ground arith;
  exact = λ j e lt. ground arith;
}

in_view-pos : (n : ℕ) (x : ℤ) → in_view n x ≡ true → (k : ℕ) × (x ≡ pos k) × (k < n)
in_view-pos n (pos k) h = (k, refl, ground arith)
in_view-pos n (negsuc k) h = absurd (ground arith)

visible-in_view :
    (n : ℕ) (x : ℤ) (shown unhidden : Bool)
    → (shown && unhidden && in_view n x) ≡ true
    → in_view n x ≡ true
visible-in_view n x shown unhidden h = ground arith

pub cursor_meta-IsPlaced :
    (size : Size) (v : View)
    → IsSized size
    → (m : SnapshotMeta) × (cursor_meta size v ≡ some m) × IsPlaced size v m
unfolding cursor_meta
cursor_meta-IsPlaced size v s =
    let line_vp = v.cursor_line +ℤ pos v.display_offset in
    let x = clamp_below-Clamped size.cols (pos v.cursor_column) (omega (arith, s.cols_low)) in
    let y = clamp_below-Clamped size.lines line_vp s.lines_low in
    let word_x : as_u16 x.index ≡ x.index = omega (arith, x.inside, s.cols_high) in
    let word_y : as_u16 y.index ≡ y.index = omega (arith, y.inside, s.lines_high) in
    (
      record {
        cols = as_u16 size.cols;
        rows = as_u16 size.lines;
        cursor_x = as_u16 x.index;
        cursor_y = as_u16 y.index;
        cursor_visible =
            v.mode.show_cursor && not (is_hidden v.shape) && in_view size.lines line_vp;
        alt_active = v.mode.alt_screen;
        app_cursor_keys = v.mode.app_cursor;
        cursor_style = cursor_style v.shape v.blinking;
      },
      rw (x.made, y.made),
      record {
        cols = omega (arith, s.cols_high);
        rows = omega (arith, s.lines_high);
        x_inside = omega (arith, word_x, x.inside);
        y_inside = omega (arith, word_y, y.inside);
        x_exact = λ h. word_x ∙ x.exact v.cursor_column refl h;
        y_exact = λ h.
            let (k, e, lt) =
              in_view-pos size.lines line_vp (
                visible-in_view size.lines line_vp v.mode.show_cursor (not (is_hidden v.shape))
                  h) in
            ap pos (word_y ∙ y.exact k e lt) ∙ sym e;
      },
    )
