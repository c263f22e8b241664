-- ===== src/Term/Modes.antt =====
-- The mode word of a terminal, and the links that its host looks up.
use scshell.Base.{ℕ, ◌+◌, ◌<◌, ◌≡◌, refl, arith}
use scshell.Base.Bits.{bit_of, bit_of-le, sum_flags, set_flags-eq-sum_flags}
use scshell.Cell.Attrs.{bit_at}
use scshell.Term.{Mode, mode_word, mode_list, Emulator, TermHost, mode_flags}

-- Each mode in the bit that the source documents.
pub record HasModes (w : ℕ) (m : Mode) : Type 0 where
  pub alt_screen : bit_at 0 w ≡ bit_of m.alt_screen
  pub app_cursor : bit_at 1 w ≡ bit_of m.app_cursor
  pub app_keypad : bit_at 2 w ≡ bit_of m.app_keypad
  pub bracketed_paste : bit_at 3 w ≡ bit_of m.bracketed_paste
  pub mouse_report_click : bit_at 4 w ≡ bit_of m.mouse_report_click
  pub mouse_drag : bit_at 5 w ≡ bit_of m.mouse_drag
  pub mouse_motion : bit_at 6 w ≡ bit_of m.mouse_motion
  pub sgr_mouse : bit_at 7 w ≡ bit_of m.sgr_mouse
  pub utf8_mouse : bit_at 8 w ≡ bit_of m.utf8_mouse
  pub no_more : w < 512

mode_word-sum : (m : Mode) → mode_word m ≡ 0 + sum_flags (mode_list m)
unfolding mode_word
mode_word-sum m = set_flags-eq-sum_flags 1 0 (mode_list m) (omega arith) (
  omega arith,
  (0, refl),
  (
    omega arith,
    (1, refl),
    (
      omega arith,
      (2, refl),
      (
        omega arith,
        (3, refl),
        (
          omega arith,
          (4, refl),
          (
            omega arith,
            (5, refl),
            (omega arith, (6, refl), (omega arith, (7, refl), (omega arith, (8, refl), tt))),
          ),
        ),
      ),
    ),
  ),
)

-- Each mode of the terminal is read back from its own bit of the mode word, and the word has no other
-- bit.
pub mode_flags-HasModes :
    {E : Type 0} (em : Emulator E) (t : TermHost E)
    → HasModes (mode_flags em t) (em.view t.term).mode
unfolding mode_flags
mode_flags-HasModes em t =
    let m = (em.view t.term).mode in
    omega (
      arith,
      mode_word-sum m,
      bit_of-le m.alt_screen,
      bit_of-le m.app_cursor,
      bit_of-le m.app_keypad,
      bit_of-le m.bracketed_paste,
      bit_of-le m.mouse_report_click,
      bit_of-le m.mouse_drag,
      bit_of-le m.mouse_motion,
      bit_of-le m.sgr_mouse,
      bit_of-le m.utf8_mouse,
    )
