-- ===== src/Base.antt =====
-- What every module shares: the libraries' names, the tests, the lists and the bit laws.
mod Tests
mod Lists
mod Int
mod Text
pub mod Bits
pub use Tests.*
unfoldable pub use Tests.{checks}
pub use Lists.*
pub use Int.*
pub use Text.{codes}
pub use Prim.Native.Nat.{ℕ, zero, suc, ◌+◌, ◌-◌, ◌*◌, ◌/◌, ◌%◌, ◌^◌, ◌≤◌, ◌<◌, min, max}
pub use Prim.Native.Nat.{bit_and, bit_or, bit_xor}
pub use mathlib.Core.Path.{◌≡◌, refl, sym, ap, subst, ◌∙◌}
pub use mathlib.Core.Logic.{◌≢◌, ◌↔◌, ◌⊎◌, inl, inr}
pub use mathlib.Core.Bool.{Bool, true, false, not, ◌&&◌, ◌||◌}
pub use mathlib.Core.Option.{Option, none, some}
pub use mathlib.Core.List.{List, [], ◌∷◌, ◌++◌, map}
pub use native.Mathlib.Omega.{arith}
unfoldable pub use native.Mathlib.Decide.{dec_lt, ℕ_discrete}

-- `Vec<u8>`, `&[u8]`, and the UTF-8 bytes of a `String` or `&str`.
abbrev pub Bytes : Type 0
Bytes = List ℕ

-- Each element is a `u8`.
abbrev pub IsByte : ℕ → Type 0
IsByte b = b < 256

-- `x as u16` and `x as u32`
abbrev pub as_u16 : ℕ → ℕ
as_u16 x = x % 2 ^ 16

abbrev pub as_u32 : ℕ → ℕ
as_u32 x = x % 2 ^ 32
