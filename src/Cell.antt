-- ===== src/Cell.antt =====
-- rata_shell/src/term.rs: a cell of the host, and its conversion from a cell of the terminal.
pub mod Attrs
use scshell.Base.{List, [], ◌∷◌, ℕ, Bool, true, false, Option, none, some, if◌then◌else◌, Bytes}
use scshell.Base.Bits.{set_flags}
use scshell.Color.{AtColor, convert_color}

pub record HostCell : Type 0 where
  pub ch : ℕ
  pub fg : ℕ
  pub bg : ℕ
  pub attrs : ℕ
  pub width : ℕ
  pub hyperlink_id : ℕ

-- What the source asks of alacritty's cell flags: `contains`, and `intersects` for the underlines.
pub record AtFlags : Type 0 where
  pub bold : Bool
  pub dim : Bool
  pub italic : Bool
  pub any_underline : Bool
  pub inverse : Bool
  pub hidden : Bool
  pub strikeout : Bool
  pub wide_char : Bool
  pub wide_char_spacer : Bool

-- alacritty's cell, with the URI of its hyperlink.
pub record AtCell : Type 0 where
  pub c : ℕ
  pub flags : AtFlags
  pub fg : AtColor
  pub bg : AtColor
  pub hyperlink : Option Bytes

abbrev pub attr_bold : ℕ
attr_bold = 0x0001

abbrev pub attr_dim : ℕ
attr_dim = 0x0002

abbrev pub attr_italic : ℕ
attr_italic = 0x0004

abbrev pub attr_underline : ℕ
attr_underline = 0x0008

abbrev pub attr_reverse : ℕ
attr_reverse = 0x0020

abbrev pub attr_hidden : ℕ
attr_hidden = 0x0040

abbrev pub attr_strike : ℕ
attr_strike = 0x0080

-- The `if` statements on the flags, in their order.
abbrev flag_list : AtFlags → List (Bool × ℕ)
flag_list f =
    (f.bold, attr_bold)
    ∷ (f.dim, attr_dim)
    ∷ (f.italic, attr_italic)
    ∷ (f.any_underline, attr_underline)
    ∷ (f.inverse, attr_reverse)
    ∷ (f.hidden, attr_hidden)
    ∷ (f.strikeout, attr_strike)
    ∷ []

unfoldable pub attrs_of : AtFlags → ℕ
attrs_of f = set_flags 0 (flag_list f)

width_of : AtFlags → ℕ
width_of f = if f.wide_char then 2 else if f.wide_char_spacer then 0 else 1

unfoldable pub convert_cell : AtCell → HostCell
unfolding width_of
convert_cell c = record {
  ch = c.c;
  fg = convert_color c.fg true;
  bg = convert_color c.bg false;
  attrs = attrs_of c.flags;
  width = width_of c.flags;
  hyperlink_id = 0;
}
