-- ===== src/Ffi.antt =====
-- rata_shell/src/ffi.rs: how text is copied out to the host. A buffer is the memory behind a pointer;
-- to write past its end is `none`.
pub mod Copies
pub mod Directory
pub mod Options
pub mod Environment
pub mod Memory
pub mod Exports
pub mod Events
pub mod Blocks
pub mod Sequences
pub mod Plain
pub mod Safe
pub mod Invoked
pub mod Runs
use scshell.Term.{TermHost, hyperlink_uri}
use scshell.Base.{
  ℕ, suc, ◌+◌, ◌-◌, Bool, true, false, ◌&&◌, List, [], ◌∷◌, ◌++◌, Option, none, some, ltb, leb,
  ◌==◌, if◌then◌else◌, min, length, take, drop, Bytes, ◌>>=◌,
}

-- `copy_nonoverlapping` of the first `n` bytes of the text to the start of the buffer.
unfoldable pub copy_to : Bytes → ℕ → Bytes → Option Bytes
copy_to text n mem =
    if leb n (length text) && leb n (length mem) then some (take n text ++ drop n mem) else none

-- `*buf.add(n) = b`
unfoldable pub write_at : ℕ → ℕ → Bytes → Option Bytes
write_at n b mem = if ltb n (length mem) then some (take n mem ++ b ∷ drop (suc n) mem) else none

-- A null pointer is `none`. The number that the host gets, and the buffer after the call.
unfoldable pub copy_out : Bytes → Option Bytes → ℕ → Option (ℕ × Option Bytes)
unfolding copy_to write_at
copy_out bytes none cap = some (length bytes, none)
copy_out bytes (some mem) cap =
    if cap == 0
    then some (length bytes, some mem)
    else let n = min (length bytes) (cap - 1) in
      (do mem ← copy_to bytes n mem; mem ← write_at n 0 mem; some (n, some mem))

-- The functions that hand out text. A handle that fails the check is `none`.
module _ {E : Type 0} where
  -- `rata_session_get_title`
  unfoldable pub get_title : Option (TermHost E) → Option Bytes → ℕ → Option (ℕ × Option Bytes)
  get_title none buf cap = some (0, buf)
  get_title (some s) buf cap = copy_out s.current_title buf cap

  -- `rata_session_get_hyperlink`
  unfoldable pub get_hyperlink :
      Option (TermHost E) → ℕ → Option Bytes → ℕ → Option (ℕ × Option Bytes)
  get_hyperlink none id buf cap = some (0, buf)
  get_hyperlink (some s) id buf cap = copy_out (hyperlink_uri s id) buf cap

  -- `rata_session_get_cwd`
  unfoldable pub get_cwd : Option (TermHost E) → Option Bytes → ℕ → Option (ℕ × Option Bytes)
  get_cwd none buf cap = some (0, buf)
  get_cwd (some s) buf cap = copy_out s.osc7.cwd buf cap
