-- ===== src/Color/Palette.antt =====
-- The sixteen named colors against the table, and the flag of the default colors.
use scshell.Base.{
  checks, of_checks, ==_iff, ◌==◌, ℕ, zero, suc, ◌^◌, ◌<◌, Bool, true, false, ◌≡◌, refl, arith, leb,
  ltb,
}
use scshell.Color.{
  NamedColor, black, red, green, yellow, blue, magenta, cyan, white, bright_black, bright_red,
  bright_green, bright_yellow, bright_blue, bright_magenta, bright_cyan, bright_white, foreground,
  background, cursor, bright_foreground, dim_foreground, AtColor, spec, indexed, named, xterm256,
  convert_color, named_color, default_flag, cube_level, pack,
}
use scshell.Color.Channels.{convert_color_spec}

abbrev bright : ℕ → NamedColor
bright zero = bright_black
bright (suc zero) = bright_red
bright (suc (suc zero)) = bright_green
bright (suc (suc (suc zero))) = bright_yellow
bright (suc (suc (suc (suc zero)))) = bright_blue
bright (suc (suc (suc (suc (suc zero))))) = bright_magenta
bright (suc (suc (suc (suc (suc (suc zero)))))) = bright_cyan
bright _ = bright_white

-- alacritty numbers the named colors in this order.
abbrev pub ansi : ℕ → NamedColor
ansi zero = black
ansi (suc zero) = red
ansi (suc (suc zero)) = green
ansi (suc (suc (suc zero))) = yellow
ansi (suc (suc (suc (suc zero)))) = blue
ansi (suc (suc (suc (suc (suc zero))))) = magenta
ansi (suc (suc (suc (suc (suc (suc zero)))))) = cyan
ansi (suc (suc (suc (suc (suc (suc (suc zero))))))) = white
ansi (suc (suc (suc (suc (suc (suc (suc (suc n)))))))) = bright n

named_table : (is_fg : Bool) → checks 16 (λ i. xterm256 i == named_color (ansi i) is_fg) ≡ true
unfolding checks xterm256 named_color
named_table true = refl
named_table false = refl

-- The first sixteen indexed colors are the named ones.
pub xterm256-named_color : (i : ℕ) (is_fg : Bool) → i < 16 → xterm256 i ≡ named_color (ansi i) is_fg
xterm256-named_color i is_fg h = (==_iff _ _).0 (of_checks 16 _ (named_table is_fg) i h)

-- A color that stands for the host's own.
abbrev pub is_default : NamedColor → Bool
is_default foreground = true
is_default bright_foreground = true
is_default dim_foreground = true
is_default background = true
is_default cursor = true
is_default _ = false

abbrev pub is_default_color : AtColor → Bool
is_default_color (named n) = is_default n
is_default_color _ = false

-- The parts of a color are bytes.
abbrev pub IsColor : AtColor → Type 0
IsColor (spec rgb) = (rgb.r < 256) × (rgb.g < 256) × (rgb.b < 256)
IsColor (indexed i) = i < 256
IsColor (named n) = Unit

named_color_flag :
    (n : NamedColor) (is_fg : Bool) → leb default_flag (named_color n is_fg) ≡ is_default n
unfolding named_color
named_color_flag cursor true = refl
named_color_flag cursor false = refl
named_color_flag _ is_fg = refl

no_flag : (w : ℕ) → w < 2 ^ 24 → leb default_flag w ≡ false
no_flag w h = ground arith

indexed_table : checks 256 (λ i. ltb (xterm256 i) (2 ^ 24)) ≡ true
unfolding checks xterm256 pack cube_level
indexed_table = refl

xterm256-lt : (i : ℕ) → i < 256 → xterm256 i < 2 ^ 24
xterm256-lt i h =
    let below : ltb (xterm256 i) (2 ^ 24) ≡ true = of_checks 256 _ indexed_table i h in ground arith

-- Of the colors whose channels and index are bytes, the host sees the flag on the five default ones
-- and on no other.
pub convert_color_flag :
    (c : AtColor) (is_fg : Bool)
    → IsColor c
    → leb default_flag (convert_color c is_fg) ≡ is_default_color c
unfolding convert_color
convert_color_flag (spec rgb) is_fg (hr, hg, hb) =
    no_flag (convert_color (spec rgb) is_fg) (convert_color_spec rgb is_fg hr hg hb).no_flag
convert_color_flag (indexed i) is_fg h = no_flag _ (xterm256-lt i h)
convert_color_flag (named n) is_fg h = named_color_flag n is_fg
