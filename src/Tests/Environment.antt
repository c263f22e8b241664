-- ===== src/Tests/Environment.antt =====
-- The environment of the child.
use scshell.Base.{List, [], ◌∷◌, arith}
use scshell.Env.{Str}
use scshell.Env.Block.{IsChildEnv, default_env-IsChildEnv}

-- `Term=dumb` and `A=b`
abbrev vars : List (Str × Str)
vars =
    (b'T' ∷ b'e' ∷ b'r' ∷ b'm' ∷ [], b'd' ∷ b'u' ∷ b'm' ∷ b'b' ∷ []) ∷ (b'A' ∷ [], b'b' ∷ []) ∷ []

default_env-IsChildEnv_example : IsChildEnv vars
default_env-IsChildEnv_example = default_env-IsChildEnv vars (ground arith)
