-- ===== src/Color.antt =====
-- rata_shell/src/term.rs: terminal colors as the 32-bit words of the host. A word is `0xRRGGBB`,
-- with `default_flag` for a color that the host replaces by its own.
pub mod Channels
pub mod Palette
use scshell.Base.{
  ℕ, zero, suc, ◌+◌, ◌-◌, ◌*◌, ◌/◌, ◌%◌, ◌^◌, Bool, true, false, List, [], ◌∷◌, ltb, ◌==◌,
  if◌then◌else◌, bit_or,
}

abbrev pub default_flag : ℕ
default_flag = 0x8000_0000

-- `x << k` of a `u32`
abbrev pub shl32 : ℕ → ℕ → ℕ
shl32 x k = x * 2 ^ k % 2 ^ 32

-- alacritty's `NamedColor`
pub data NamedColor : Type 0 where
  black red green yellow blue magenta cyan white : NamedColor
  bright_black bright_red bright_green bright_yellow : NamedColor
  bright_blue bright_magenta bright_cyan bright_white : NamedColor
  foreground background cursor : NamedColor
  dim_black dim_red dim_green dim_yellow dim_blue dim_magenta dim_cyan dim_white : NamedColor
  bright_foreground dim_foreground : NamedColor

-- alacritty's `Rgb` and `Color`; the parts are `u8`.
pub record Rgb : Type 0 where
  pub r : ℕ
  pub g : ℕ
  pub b : ℕ

pub data AtColor : Type 0 where
  spec : Rgb → AtColor
  indexed : ℕ → AtColor
  named : NamedColor → AtColor

unfoldable pub named_color : NamedColor → Bool → ℕ
named_color foreground is_fg = bit_or default_flag 0xcccccc
named_color bright_foreground is_fg = bit_or default_flag 0xcccccc
named_color dim_foreground is_fg = bit_or default_flag 0xcccccc
named_color background is_fg = bit_or default_flag 0x000000
named_color cursor is_fg = bit_or default_flag (if is_fg then 0xcccccc else 0x000000)
named_color black is_fg = 0x000000
named_color dim_black is_fg = 0x000000
named_color red is_fg = 0xcd0000
named_color dim_red is_fg = 0xcd0000
named_color green is_fg = 0x00cd00
named_color dim_green is_fg = 0x00cd00
named_color yellow is_fg = 0xcdcd00
named_color dim_yellow is_fg = 0xcdcd00
named_color blue is_fg = 0x0000ee
named_color dim_blue is_fg = 0x0000ee
named_color magenta is_fg = 0xcd00cd
named_color dim_magenta is_fg = 0xcd00cd
named_color cyan is_fg = 0x00cdcd
named_color dim_cyan is_fg = 0x00cdcd
named_color white is_fg = 0xe5e5e5
named_color dim_white is_fg = 0xe5e5e5
named_color bright_black is_fg = 0x7f7f7f
named_color bright_red is_fg = 0xff0000
named_color bright_green is_fg = 0x00ff00
named_color bright_yellow is_fg = 0xffff00
named_color bright_blue is_fg = 0x5c5cff
named_color bright_magenta is_fg = 0xff00ff
named_color bright_cyan is_fg = 0x00ffff
named_color bright_white is_fg = 0xffffff

abbrev pub table : List ℕ
table =
    0x000000 ∷ 0xcd0000 ∷ 0x00cd00 ∷ 0xcdcd00 ∷ 0x0000ee ∷ 0xcd00cd ∷ 0x00cdcd ∷ 0xe5e5e5 ∷ 0x7f7f7f
    ∷ 0xff0000 ∷ 0x00ff00 ∷ 0xffff00 ∷ 0x5c5cff ∷ 0xff00ff ∷ 0x00ffff ∷ 0xffffff ∷ []

-- `table[i]`; the index is below 16 where it is called.
abbrev table_at : List ℕ → ℕ → ℕ
table_at [] i = 0
table_at (x ∷ xs) zero = x
table_at (x ∷ xs) (suc i) = table_at xs i

-- The step of the color cube.
unfoldable pub cube_level : ℕ → ℕ
cube_level v = if v == 0 then 0 else 55 + v * 40

unfoldable pub pack : ℕ → ℕ → ℕ → ℕ
pack r g b = bit_or (bit_or (shl32 r 16) (shl32 g 8)) b

unfoldable pub xterm256 : ℕ → ℕ
xterm256 idx =
    if ltb idx 16
    then table_at table idx
    else if ltb idx 232
    then (let i = idx - 16 in
        pack (cube_level (i / 36 % 6)) (cube_level (i / 6 % 6)) (cube_level (i % 6)))
    else (let v = 8 + (idx - 232) * 10 in pack v v v)

unfoldable pub convert_color : AtColor → Bool → ℕ
convert_color (spec rgb) is_fg = pack rgb.r rgb.g rgb.b
convert_color (indexed i) is_fg = xterm256 i
convert_color (named n) is_fg = named_color n is_fg
