-- ===== src/Tests/Errors.antt =====
-- Two threads that fail.
use scshell.Base.{[], ◌∷◌, ◌≡◌, refl, codes, arith}
use scshell.Error.{state, io, display, no_errors, last_error_copy, from_windows, os}
use scshell.Error.Last.{stores, last_error_copy-stores}

last_error_copy-stores_example :
    (last_error_copy 1
        (stores ((2, io (codes "b")) ∷ (1, state (codes "a")) ∷ (2, io (codes "c")) ∷ []) no_errors)
      ≡ display (state (codes "a")))
    × (last_error_copy 1 (stores ((3, io (codes "d")) ∷ (2, state (codes "a")) ∷ []) no_errors)
        ≡ display (state (codes "a")))
last_error_copy-stores_example =
    last_error_copy-stores 1 2 (state (codes "a")) ((2, io (codes "b")) ∷ [])
      ((2, io (codes "c")) ∷ []) ((3, io (codes "d")) ∷ []) (omega arith, tt) (omega arith, tt)

access_denied : from_windows 0x8007_0005 (codes "no") ≡ os (codes "HRESULT 0x80070005: no")
unfolding from_windows
access_denied = refl
