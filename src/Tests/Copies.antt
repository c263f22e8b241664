-- ===== src/Tests/Copies.antt =====
-- Text copied out to a host.
use scshell.Base.{[], ◌∷◌, refl, arith, Bytes}
use scshell.Ffi.Copies.{Copied, copy_out-Copied}

-- `shell`
abbrev text : Bytes
text = b's' ∷ b'h' ∷ b'e' ∷ b'l' ∷ b'l' ∷ []

abbrev short : Bytes
short = 9 ∷ 9 ∷ 9 ∷ []

abbrev long : Bytes
long = 9 ∷ 9 ∷ 9 ∷ 9 ∷ 9 ∷ 9 ∷ []

copy_out-Copied_example : Copied text 3 short
copy_out-Copied_example = copy_out-Copied text 3 short refl (omega arith)
