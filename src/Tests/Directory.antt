-- ===== src/Tests/Directory.antt =====
-- A reported directory in the buffer of the host.
use scshell.Base.{[], ◌∷◌, refl, arith, Bytes, inr}
use scshell.Utf8.{is_utf8}
use scshell.Uri.Escapes.{percent_encode}
use scshell.Osc7.Reports.{report}
use scshell.Osc7.Paths.{file_url, named_path}
use scshell.Tests.Terminal.{toy}
use scshell.Term.{new, advance}
use scshell.Ffi.Directory.{IsHanded, advance-IsHanded}

-- `pc` and `c:`
abbrev host : Bytes
host = b'p' ∷ b'c' ∷ []

abbrev path : Bytes
path = b'c' ∷ b':' ∷ b'/' ∷ b' ' ∷ []

advance-IsHanded_example :
    IsHanded
      (advance toy (new toy 80 25 100) (report (file_url host (b'/' ∷ path)) 0x1b))
      (named_path path)
unfolding is_utf8 percent_encode new
advance-IsHanded_example =
    advance-IsHanded toy (new toy 80 25 100) host path 0x1b (omega arith) (omega arith)
      (omega arith) refl (omega arith) (inr refl)
