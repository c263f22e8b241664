-- ===== src/Keymap.antt =====
-- rata_shell/src/keymap.rs: the bytes that a key sends to the shell.
pub mod Parse
pub mod Keys
use scshell.Base.{
  ℕ, zero, suc, ◌+◌, ◌-◌, ◌*◌, ◌^◌, ◌%◌, Bool, true, false, not, ◌&&◌, List, [], ◌∷◌, ◌++◌, leb,
  ◌==◌, if◌then◌else◌, bit_and, Bytes,
}
use scshell.Base.Bits.{bit_of}
use scshell.Decimal.{decimal}

abbrev pub mod_shift : ℕ
mod_shift = 0x01

abbrev pub mod_ctrl : ℕ
mod_ctrl = 0x02

abbrev pub mod_alt : ℕ
mod_alt = 0x04

abbrev pub vk_back : ℕ
vk_back = 0x08

abbrev pub vk_tab : ℕ
vk_tab = 0x09

abbrev pub vk_return : ℕ
vk_return = 0x0d

abbrev pub vk_escape : ℕ
vk_escape = 0x1b

abbrev pub vk_prior : ℕ
vk_prior = 0x21

abbrev pub vk_next : ℕ
vk_next = 0x22

abbrev pub vk_end : ℕ
vk_end = 0x23

abbrev pub vk_home : ℕ
vk_home = 0x24

abbrev pub vk_left : ℕ
vk_left = 0x25

abbrev pub vk_up : ℕ
vk_up = 0x26

abbrev pub vk_right : ℕ
vk_right = 0x27

abbrev pub vk_down : ℕ
vk_down = 0x28

abbrev pub vk_insert : ℕ
vk_insert = 0x2d

abbrev pub vk_delete : ℕ
vk_delete = 0x2e

abbrev pub vk_f1 : ℕ
vk_f1 = 0x70

abbrev pub vk_f12 : ℕ
vk_f12 = 0x7b

-- `mods & mask != 0`
abbrev pub has : ℕ → ℕ → Bool
has mods mask = not (bit_and mods mask == 0)

-- The sums of a `u8`, which stay below 9.
unfoldable pub modparam : ℕ → ℕ
modparam mods =
    let s = bit_of (has mods mod_shift) in
    let a = bit_of (has mods mod_alt) in let c = bit_of (has mods mod_ctrl) in 1 + s + a * 2 + c * 4

-- The closure `csi_arrow`.
unfoldable pub csi_arrow : Bool → ℕ → Bool → ℕ → Bytes
csi_arrow with_mods mp app_cursor_keys letter =
    if with_mods
    then 0x1b ∷ b'[' ∷ b'1' ∷ b';' ∷ (decimal mp ++ letter ∷ [])
    else if app_cursor_keys
    then 0x1b ∷ b'O' ∷ letter ∷ []
    else 0x1b ∷ b'[' ∷ letter ∷ []

-- The closure `csi_tilde`, and the function `f_key`, which writes the same bytes.
unfoldable pub csi_tilde : Bool → ℕ → ℕ → Bytes
csi_tilde with_mods mp code =
    if with_mods
    then 0x1b ∷ b'[' ∷ (decimal code ++ (b';' ∷ (decimal mp ++ b'~' ∷ [])))
    else 0x1b ∷ b'[' ∷ (decimal code ++ b'~' ∷ [])

unfoldable pub f_key : ℕ → Bool → ℕ → Bytes
f_key code with_mods mp =
    if with_mods
    then 0x1b ∷ b'[' ∷ (decimal code ++ (b';' ∷ (decimal mp ++ b'~' ∷ [])))
    else 0x1b ∷ b'[' ∷ (decimal code ++ b'~' ∷ [])

abbrev pub f_codes : List ℕ
f_codes = 11 ∷ 12 ∷ 13 ∷ 14 ∷ 15 ∷ 17 ∷ 18 ∷ 19 ∷ 20 ∷ 21 ∷ 23 ∷ 24 ∷ []

-- `codes[i]`; the index is below 12 where it is called.
abbrev pub code_at : List ℕ → ℕ → ℕ
code_at [] i = 0
code_at (x ∷ xs) zero = x
code_at (x ∷ xs) (suc i) = code_at xs i

unfoldable pub encode : ℕ → ℕ → Bool → Bytes
encode vk mods app_cursor_keys =
    let mp = modparam mods in
    let with_mods = not (mp == 1) in
    if vk == vk_back
    then (if has mods mod_alt then 0x1b ∷ 0x7f ∷ [] else 0x7f ∷ [])
    else if vk == vk_tab
    then (if has mods mod_shift then 0x1b ∷ b'[' ∷ b'Z' ∷ [] else b'\t' ∷ [])
    else if vk == vk_return
    then b'\r' ∷ []
    else if vk == vk_escape
    then 0x1b ∷ []
    else if vk == vk_up
    then csi_arrow with_mods mp app_cursor_keys b'A'
    else if vk == vk_down
    then csi_arrow with_mods mp app_cursor_keys b'B'
    else if vk == vk_right
    then csi_arrow with_mods mp app_cursor_keys b'C'
    else if vk == vk_left
    then csi_arrow with_mods mp app_cursor_keys b'D'
    else if vk == vk_home
    then csi_arrow with_mods mp app_cursor_keys b'H'
    else if vk == vk_end
    then csi_arrow with_mods mp app_cursor_keys b'F'
    else if vk == vk_insert
    then csi_tilde with_mods mp 2
    else if vk == vk_delete
    then csi_tilde with_mods mp 3
    else if vk == vk_prior
    then csi_tilde with_mods mp 5
    else if vk == vk_next
    then csi_tilde with_mods mp 6
    else if vk == vk_f1
    then f_key 11 with_mods mp
    else if leb vk_f1 vk && leb vk vk_f12
    then f_key (code_at f_codes (vk - vk_f1)) with_mods mp
    else if has mods mod_ctrl && (leb b'A' vk && leb vk b'Z')
    then ((vk - b'A' + 1) % 2 ^ 8) ∷ []
    else []
