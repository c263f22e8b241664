-- ===== src/Tests/Keys.antt =====
-- The keys.
use scshell.Base.{true, false, [], ◌∷◌, some, ◌≡◌, refl}
use scshell.Keymap.{modparam, encode, csi_arrow, csi_tilde, f_key}
use scshell.Decimal.{decimal}
use scshell.Keymap.Parse.{parse_key}
use scshell.Keymap.Keys.{is_known, IsOutput, parse_key-encode, encode-IsOutput}
use scshell.Base.{codes}

-- Up with ctrl, up in application mode, F12 with shift, ctrl-C.
sequences :
    (encode 0x26 2 false ≡ 0x1b ∷ codes "[1;5A")
    × (encode 0x26 0 true ≡ 0x1b ∷ codes "OA")
    × (encode 0x7b 1 false ≡ 0x1b ∷ codes "[24;2~")
    × (encode 0x43 2 false ≡ 3 ∷ [])
unfolding encode modparam csi_arrow csi_tilde f_key decimal
sequences = (refl, refl, refl, refl)

parse_key-encode_example : parse_key (encode 0x26 3 true) ≡ some (0x26, 6)
parse_key-encode_example = parse_key-encode 0x26 3 true refl

encode-IsOutput_example : IsOutput (encode 0x43 2 false) (is_known 0x43 2)
encode-IsOutput_example = encode-IsOutput 0x43 2 false
