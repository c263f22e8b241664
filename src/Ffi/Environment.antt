-- ===== src/Ffi/Environment.antt =====
-- rata_shell/src/ffi.rs: the environment block that the host passes in, as the child reads it.
use scshell.Base.{
  ℕ, zero, suc, ◌==◌, true, false, List, [], ◌∷◌, ◌++◌, map, ◌≡◌, refl, ap, ◌∙◌, arith, All, Bytes,
}
use scshell.Utf8.{is_utf8, from_utf8_lossy-eq_self}
use scshell.Env.{Str, encode_utf16}
use scshell.Env.Block.{
  NoNul, read_from, encode_utf16-HasFirst, encode_utf16-NoNul, read_from-HasFirst,
}
use scshell.Ffi.Options.{chars, split_nul, push_entries, env_block_to_utf16}

-- An entry has a `char`, and no NUL.
abbrev pub IsText : Str → Type 0
IsText [] = ⊥
IsText (c ∷ cs) = NoNul (c ∷ cs)

-- The entries, a NUL behind each of them, and `n` NULs more.
unfoldable pub joined : List Str → ℕ → Str
joined [] zero = []
joined [] (suc n) = 0 ∷ joined [] n
joined (e ∷ es) n = e ++ 0 ∷ joined es n

split_nul-append : (e rest : Str) → NoNul e → split_nul (e ++ 0 ∷ rest) ≡ e ∷ split_nul rest
unfolding split_nul
split_nul-append [] rest h = refl
split_nul-append (c ∷ cs) rest (hc, hs) =
    let other : (c == 0) ≡ false = ground arith in rw (other, split_nul-append cs rest hs) refl

read_from-joined :
    (es : List Str) (n : ℕ)
    → All IsText es
    → read_from [] (push_entries (split_nul (joined es n))) ≡ map encode_utf16 es
unfolding joined split_nul push_entries read_from
read_from-joined [] zero h = refl
read_from-joined [] (suc n) h = read_from-joined [] n tt
read_from-joined ([] ∷ es) n (h, hs) = absurd h
read_from-joined ((c ∷ cs) ∷ es) n (h, hs) =
    ap (λ pieces. read_from [] (push_entries pieces)) (split_nul-append (c ∷ cs) (joined es n) h)
    ∙ read_from-HasFirst (encode_utf16 (c ∷ cs)) (push_entries (split_nul (joined es n)))
        (encode_utf16-HasFirst c cs) (encode_utf16-NoNul (c ∷ cs) h)
    ∙ ap (◌∷◌ (encode_utf16 (c ∷ cs))) (read_from-joined es n hs)

-- A UTF-8 block whose `char`s are entries, each not empty and with a NUL behind it, and any number of NULs
-- more, is read back by the child as those entries in UTF-16, one by one and no more.
pub env_block-joined :
    (bytes : Bytes) (es : List Str) (n : ℕ)
    → is_utf8 bytes ≡ true
    → All IsText es
    → chars bytes ≡ joined es n
    → read_from [] (env_block_to_utf16 bytes) ≡ map encode_utf16 es
unfolding env_block_to_utf16
env_block-joined bytes es n u h e =
    ap (λ b. read_from [] (push_entries (split_nul (chars b)))) (from_utf8_lossy-eq_self bytes u)
    ∙ ap (λ s. read_from [] (push_entries (split_nul s))) e
    ∙ read_from-joined es n h
