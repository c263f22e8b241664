-- ===== src/Color/Channels.antt =====
-- The three channels of a converted color.
use scshell.Base.{ℕ, ◌+◌, ◌-◌, ◌*◌, ◌/◌, ◌%◌, ◌^◌, ◌≤◌, ◌<◌, Bool, ◌≡◌, arith}
use scshell.Base.Bits.{bit_or-eq-add}
use scshell.Color.{Rgb, spec, xterm256, convert_color, pack, cube_level}

pub red_of : ℕ → ℕ
red_of w = w / 2 ^ 16 % 256

pub green_of : ℕ → ℕ
green_of w = w / 2 ^ 8 % 256

pub blue_of : ℕ → ℕ
blue_of w = w % 256

pack-eq-add : (r g b : ℕ) → r < 256 → g < 256 → b < 256 → pack r g b ≡ r * 65536 + g * 256 + b
unfolding pack
pack-eq-add r g b hr hg hb =
    let high : r * 65536 % 4294967296 ≡ r * 2 ^ 16 = omega arith in
    let mid : g * 256 % 4294967296 ≡ g * 256 = omega arith in
    let both : r * 65536 + g * 256 ≡ (r * 256 + g) * 2 ^ 8 = omega arith in
    rw
      (
        high,
        mid,
        bit_or-eq-add 16 r (g * 256) (omega arith),
        both,
        bit_or-eq-add 8 (r * 256 + g) b hb,
      )
      (omega arith)

-- A word that holds the three channels and nothing else.
pub record HasChannels (w r g b : ℕ) : Type 0 where
  pub red : red_of w ≡ r
  pub green : green_of w ≡ g
  pub blue : blue_of w ≡ b
  pub no_flag : w < 2 ^ 24

pub pack-HasChannels : (r g b : ℕ) → r < 256 → g < 256 → b < 256 → HasChannels (pack r g b) r g b
unfolding red_of green_of blue_of
pack-HasChannels r g b hr hg hb = rw (pack-eq-add r g b hr hg hb) (omega arith)

-- A direct color of three bytes reaches the host with its own three channels, as foreground and as
-- background.
pub convert_color_spec :
    (rgb : Rgb) (is_fg : Bool)
    → rgb.r < 256
    → rgb.g < 256
    → rgb.b < 256
    → HasChannels (convert_color (spec rgb) is_fg) rgb.r rgb.g rgb.b
unfolding convert_color
convert_color_spec rgb is_fg hr hg hb = pack-HasChannels rgb.r rgb.g rgb.b hr hg hb

pub cube_level-lt : (v : ℕ) → v < 6 → cube_level v < 256
unfolding cube_level
cube_level-lt v h = ground arith

in_cube :
    (i : ℕ)
    → 16 ≤ i
    → i < 232
    → xterm256 i
      ≡ pack
          (cube_level ((i - 16) / 36 % 6))
          (cube_level ((i - 16) / 6 % 6))
          (cube_level ((i - 16) % 6))
unfolding xterm256
in_cube i lo hi = ground arith

-- Color 16 + 36 r + 6 g + b of the cube, for r, g and b below 6, has the levels of r, g and b.
pub xterm256_cube :
    (r g b : ℕ)
    → r < 6
    → g < 6
    → b < 6
    → HasChannels (xterm256 (16 + 36 * r + 6 * g + b)) (cube_level r) (cube_level g) (cube_level b)
xterm256_cube r g b hr hg hb =
    let i : ℕ = 16 + 36 * r + 6 * g + b in
    let at_r : (i - 16) / 36 % 6 ≡ r = omega arith in
    let at_g : (i - 16) / 6 % 6 ≡ g = omega arith in
    let at_b : (i - 16) % 6 ≡ b = omega arith in
    rw (in_cube i (omega arith) (omega arith), at_r, at_g, at_b)
      (pack-HasChannels _ _ _ (cube_level-lt r hr) (cube_level-lt g hg) (cube_level-lt b hb))
