-- ===== src/Env/Upsert.antt =====
-- What an environment says of each key after an upsert.
use scshell.Base.{
  true, false, Bool-cases, inl, inr, List, [], ◌∷◌, Option, none, some, ◌≡◌, refl, arith,
  if◌then◌else◌,
}
use scshell.Env.{Str, same_key, upsert}

-- The value of the first entry with the key, as Windows looks it up.
abbrev pub value_of : List (Str × Str) → Str → Option Str
value_of [] key = none
value_of ((k, v) ∷ entries) key = if same_key k key then some v else value_of entries key

same_key_self : (s : Str) → same_key s s ≡ true
unfolding same_key
same_key_self [] = refl
same_key_self (c ∷ cs) = ground (arith, same_key_self cs)

-- Two keys that are the same key are told apart from others alike.
same_key_trans : (a b c : Str) → same_key a b ≡ true → same_key a c ≡ same_key b c
unfolding same_key
same_key_trans [] [] c h = refl
same_key_trans [] (b ∷ bs) c h = ground arith
same_key_trans (a ∷ as') [] c h = ground arith
same_key_trans (a ∷ as') (b ∷ bs) [] h = refl
same_key_trans (a ∷ as') (b ∷ bs) (c ∷ cs) h = ground (arith, same_key_trans as' bs cs)

pub value_of-upsert :
    (entries : List (Str × Str)) (key value : Str)
    → value_of (upsert entries key value) key ≡ some value
unfolding upsert
value_of-upsert [] key value = rw (same_key_self key)
value_of-upsert ((k, v) ∷ entries) key value = elim (Bool-cases (same_key k key)) [
  | inl e ↦ rw (e, e)
  | inr e ↦ rw (e, e) (value_of-upsert entries key value)
]

pub value_of-upsert_other :
    (entries : List (Str × Str)) (key value other : Str)
    → same_key key other ≡ false
    → value_of (upsert entries key value) other ≡ value_of entries other
unfolding upsert
value_of-upsert_other [] key value other h = rw h
value_of-upsert_other ((k, v) ∷ entries) key value other h = elim (Bool-cases (same_key k key)) [
  | inl e ↦ rw (e, same_key_trans k key other e, h)
  | inr e ↦ rw (e, value_of-upsert_other entries key value other h)
]
