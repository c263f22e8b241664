-- ===== src/Tests/Colors.antt =====
-- The colors.
use scshell.Base.{◌≡◌, refl}
use scshell.Color.{xterm256, cube_level, pack}

orange : xterm256 208 ≡ 0xff8700
unfolding xterm256 pack cube_level
orange = refl
