-- ===== src/Env/Block.antt =====
-- The environment block read back, as the child reads it.
use scshell.Base.{
  ℕ, ◌+◌, ◌-◌, ◌/◌, ◌%◌, ◌==◌, ltb, true, false, Bool-cases, inl, inr, List, [], ◌∷◌, ◌++◌, map,
  some, ◌≡◌, ◌≢◌, refl, sym, ap, ◌∙◌, arith, All, All-append,
}
use scshell.Env.{
  Str, lower, same_key, upsert, line, encode_char, encode_utf16, block, child_entries, term_key,
  term_value, colorterm_key, colorterm_value, default_env_with_terminfo,
}
use scshell.Env.Upsert.{value_of, value_of-upsert, value_of-upsert_other}

-- Strings of units, each ended by a 0, up to an empty one; `cur` is what is read of the present one.
unfoldable pub read_from : List ℕ → List ℕ → List (List ℕ)
read_from cur [] = []
read_from cur (u ∷ us) = elim (u == 0) [
  | true ↦ elim cur [ [] ↦ [] | c ∷ cs ↦ (c ∷ cs) ∷ read_from [] us ]
  | false ↦ read_from (cur ++ u ∷ []) us
]

append_assoc {ℓ} : {A : Type ℓ} (xs ys zs : List A) → (xs ++ ys) ++ zs ≡ xs ++ (ys ++ zs)
append_assoc [] ys zs = refl
append_assoc (x ∷ xs) ys zs = ap (◌∷◌ x) (append_assoc xs ys zs)

append_nil {ℓ} : {A : Type ℓ} (xs : List A) → xs ++ [] ≡ xs
append_nil [] = refl
append_nil (x ∷ xs) = ap (◌∷◌ x) (append_nil xs)

-- Without a NUL.
abbrev pub NoNul : List ℕ → Type 0
NoNul s = All (λ c. c ≢ 0) s

read_from-unit :
    (cur : List ℕ) (x : ℕ) (us : List ℕ)
    → x ≢ 0
    → read_from cur (x ∷ us) ≡ read_from (cur ++ x ∷ []) us
unfolding read_from
read_from-unit cur x us h = let e : (x == 0) ≡ false = ground arith in rw (read_from, e)

read_from-string :
    (c : ℕ) (cur xs rest : List ℕ)
    → NoNul xs
    → read_from (c ∷ cur) (xs ++ 0 ∷ rest) ≡ (c ∷ cur ++ xs) ∷ read_from [] rest
unfolding read_from
read_from-string c cur [] rest h = ap (λ s. (c ∷ s) ∷ read_from [] rest) (sym (append_nil cur))
read_from-string c cur (x ∷ xs) rest (hx, hs) =
    read_from-unit (c ∷ cur) x (xs ++ 0 ∷ rest) hx
    ∙ read_from-string c (cur ++ x ∷ []) xs rest hs
    ∙ ap (λ s. (c ∷ s) ∷ read_from [] rest) (append_assoc cur (x ∷ []) xs)

read_from-first :
    (x : ℕ) (xs rest : List ℕ)
    → NoNul (x ∷ xs)
    → read_from [] (x ∷ xs ++ 0 ∷ rest) ≡ (x ∷ xs) ∷ read_from [] rest
read_from-first x xs rest (hx, hs) =
    read_from-unit [] x (xs ++ 0 ∷ rest) hx ∙ read_from-string x [] xs rest hs

encode_char-NoNul : (c : ℕ) → c ≢ 0 → NoNul (encode_char c)
unfolding encode_char
encode_char-NoNul c h = ground arith

pub encode_utf16-NoNul : (s : Str) → NoNul s → NoNul (encode_utf16 s)
unfolding encode_utf16
encode_utf16-NoNul [] h = tt
encode_utf16-NoNul (c ∷ cs) (hc, hs) =
    All-append (λ (u : ℕ). u ≢ 0) (encode_char c) (encode_utf16 cs) (encode_char-NoNul c hc)
      (encode_utf16-NoNul cs hs)

-- A text with a first `char` has a first unit.
pub record HasFirst (units : List ℕ) : Type 0 where
  first : ℕ
  others : List ℕ
  split : units ≡ first ∷ others

pub encode_utf16-HasFirst : (c : ℕ) (cs : Str) → HasFirst (encode_utf16 (c ∷ cs))
unfolding encode_utf16 encode_char
encode_utf16-HasFirst c cs = elim (Bool-cases (ltb c 0x1_0000)) [
  | inl e ↦ record { first = c; others = encode_utf16 cs; split = rw e }
  | inr e ↦ record {
    first = 0xd800 + (c - 0x1_0000) / 0x400;
    others = (0xdc00 + (c - 0x1_0000) % 0x400) ∷ encode_utf16 cs;
    split = rw e refl;
  }
]

line-HasFirst : (e : Str × Str) → HasFirst (encode_utf16 (line e))
line-HasFirst ([], v) = encode_utf16-HasFirst b'=' v
line-HasFirst (c ∷ k, v) = encode_utf16-HasFirst c (k ++ b'=' ∷ v)

pub read_from-HasFirst :
    (units rest : List ℕ)
    → HasFirst units
    → NoNul units
    → read_from [] (units ++ 0 ∷ rest) ≡ units ∷ read_from [] rest
read_from-HasFirst units rest f h =
    rw f.split (read_from-first f.first f.others rest (rw f.split at h))

read_from-block :
    (es : List (Str × Str))
    → All (λ (e : Str × Str). NoNul (line e)) es
    → read_from [] (block es) ≡ map (λ (e : Str × Str). encode_utf16 (line e)) es
unfolding block read_from
read_from-block [] h = refl
read_from-block (e ∷ es) (he, hs) =
    read_from-HasFirst (encode_utf16 (line e)) (block es) (line-HasFirst e)
      (encode_utf16-NoNul (line e) he)
    ∙ ap (◌∷◌ (encode_utf16 (line e))) (read_from-block es hs)

-- An entry of the process holds no NUL.
abbrev pub IsEntry : Str × Str → Type 0
IsEntry e = NoNul (line e)

line-NoNul : (k v v' : Str) → NoNul (line (k, v)) → NoNul v' → NoNul (line (k, v'))
line-NoNul [] v v' h h' = (h.0, h')
line-NoNul (c ∷ k) v v' h h' = (h.0, line-NoNul k v v' h.1 h')

upsert-IsEntry :
    (es : List (Str × Str)) (key value : Str)
    → IsEntry (key, value)
    → NoNul value
    → All IsEntry es
    → All IsEntry (upsert es key value)
unfolding upsert
upsert-IsEntry [] key value h hv hs = (h, tt)
upsert-IsEntry ((k, v) ∷ es) key value h hv (he, hs) = elim (Bool-cases (same_key k key)) [
  | inl e ↦ rw e (line-NoNul k v value he hv, hs)
  | inr e ↦ rw e (he, upsert-IsEntry es key value h hv hs)
]

-- What the child finds in its environment.
pub record IsChildEnv (vars : List (Str × Str)) : Type 0 where
  pub read :
      read_from [] (default_env_with_terminfo vars)
      ≡ map (λ (e : Str × Str). encode_utf16 (line e)) (child_entries vars)
  pub term : value_of (child_entries vars) term_key ≡ some term_value
  pub colorterm : value_of (child_entries vars) colorterm_key ≡ some colorterm_value
  pub others :
      (key : Str)
      → same_key term_key key ≡ false
      → same_key colorterm_key key ≡ false
      → value_of (child_entries vars) key ≡ value_of vars key

-- For every environment of the process whose entries hold no NUL: the block that the child gets is read
-- back as the entries, in UTF-16, one by one and no more; TERM and COLORTERM have the values of the
-- source, in whatever case the process spelled them, and every other key has its value of before.
pub default_env-IsChildEnv : (vars : List (Str × Str)) → All IsEntry vars → IsChildEnv vars
unfolding default_env_with_terminfo same_key lower
default_env-IsChildEnv vars h =
    let with_term = upsert vars term_key term_value in
    record {
      read = read_from-block (child_entries vars) (
          upsert-IsEntry with_term colorterm_key colorterm_value (ground arith) (ground arith)
            (upsert-IsEntry vars term_key term_value (ground arith) (ground arith) h));
      term =
          value_of-upsert_other with_term colorterm_key colorterm_value term_key refl
          ∙ value_of-upsert vars term_key term_value;
      colorterm = value_of-upsert with_term colorterm_key colorterm_value;
      others = λ key a b.
          value_of-upsert_other with_term colorterm_key colorterm_value key b
          ∙ value_of-upsert_other vars term_key term_value key a;
    }
