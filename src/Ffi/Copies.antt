-- ===== src/Ffi/Copies.antt =====
-- What the host finds in its buffer.
use scshell.Base.{
  ℕ, zero, suc, ◌+◌, ◌-◌, ◌≤◌, ◌<◌, false, List, [], ◌∷◌, ◌++◌, none, some, ◌≡◌, ◌≢◌, refl, ap, ◌∙◌,
  arith, ◌==◌, min, length, length-append, take, drop, Bytes,
}
use scshell.Ffi.{copy_out, copy_to, write_at}

module _ {ℓ} {A : Type ℓ} where
  length-take : (n : ℕ) (xs : List A) → n ≤ length xs → length (take n xs) ≡ n
  length-take zero xs h = refl
  length-take (suc n) [] h = absurd (omega arith)
  length-take (suc n) (x ∷ xs) h = omega (arith, length-take n xs (omega arith))

  length-drop : (n : ℕ) (xs : List A) → n ≤ length xs → length (drop n xs) + n ≡ length xs
  length-drop zero xs h = omega arith
  length-drop (suc n) [] h = absurd (omega arith)
  length-drop (suc n) (x ∷ xs) h = omega (arith, length-drop n xs (omega arith))

  take-prefix : (n : ℕ) (xs ys : List A) → n ≡ length xs → take n (xs ++ ys) ≡ xs
  take-prefix zero [] ys h = refl
  take-prefix zero (x ∷ xs) ys h = absurd (omega arith)
  take-prefix (suc n) [] ys h = absurd (omega arith)
  take-prefix (suc n) (x ∷ xs) ys h = ap (◌∷◌ x) (take-prefix n xs ys (omega arith))

  take_all : (xs : List A) → take (length xs) xs ≡ xs
  take_all [] = refl
  take_all (x ∷ xs) = ap (◌∷◌ x) (take_all xs)

copy_to_lem :
    (text : Bytes) (n : ℕ) (mem : Bytes)
    → n ≤ length text
    → n ≤ length mem
    → copy_to text n mem ≡ some (take n text ++ drop n mem)
unfolding copy_to
copy_to_lem text n mem h k = ground arith

write_at_lem :
    (n b : ℕ) (mem : Bytes)
    → n < length mem
    → write_at n b mem ≡ some (take n mem ++ b ∷ drop (suc n) mem)
unfolding write_at
write_at_lem n b mem h = ground arith

-- A call with a buffer of `cap` bytes: a prefix of the text and a NUL behind it, inside the buffer.
pub record Copied (bytes : Bytes) (cap : ℕ) (mem : Bytes) : Type 0 where
  pub tail : Bytes
  pub made :
      copy_out bytes (some mem) cap
      ≡ some (
        min (length bytes) (cap - 1),
        some (take (min (length bytes) (cap - 1)) bytes ++ 0 ∷ tail),
      )
  pub fits : min (length bytes) (cap - 1) + 1 + length tail ≡ cap

-- A call with a buffer of `cap` bytes, `cap` positive, writes inside the buffer only: the text, or as
-- much of it as leaves room for a NUL, then the NUL. The value that it returns is the number of bytes of the
-- text that it has copied, which is less than the length of the text where the buffer is too short.
pub copy_out-Copied :
    (bytes : Bytes) (cap : ℕ) (mem : Bytes) → length mem ≡ cap → cap ≢ 0 → Copied bytes cap mem
unfolding copy_out
copy_out-Copied bytes cap mem e nonzero =
    let n : ℕ = min (length bytes) (cap - 1) in
    let n_text : n ≤ length bytes = omega arith in
    let front : length (take n bytes) ≡ n = length-take n bytes n_text in
    let rest : length (drop n mem) + n ≡ length mem = length-drop n mem (omega arith) in
    let copied : Bytes = take n bytes ++ drop n mem in
    let whole : length copied ≡ cap =
      omega (arith, length-append (take n bytes) (drop n mem), front, rest) in
    let some_cap : (cap == 0) ≡ false = ground arith in
    record {
      tail = drop (suc n) copied;
      made = rw (
        some_cap,
        copy_to_lem bytes n mem n_text (omega arith),
        write_at_lem n 0 copied (omega arith),
        take-prefix n (take n bytes) (drop n mem) (omega arith),
      );
      fits = omega (arith, length-drop (suc n) copied (omega arith), whole);
    }

empty_tail : (s : Bytes) → length s ≡ 0 → s ≡ []
empty_tail [] h = refl
empty_tail (c ∷ s) h = absurd (omega arith)

copy_out_null : (bytes : Bytes) (cap : ℕ) → copy_out bytes none cap ≡ some (length bytes, none)
unfolding copy_out
copy_out_null bytes cap = refl

-- The two calls of a host: asked with no buffer, the function gives the length of the text, and a
-- buffer of one byte more then gets the whole text and the NUL.
pub copy_out_whole :
    (bytes mem : Bytes)
    → length mem ≡ length bytes + 1
    → (copy_out bytes none 0 ≡ some (length bytes, none))
      × (copy_out bytes (some mem) (length bytes + 1) ≡ some (length bytes, some (bytes ++ 0 ∷ [])))
copy_out_whole bytes mem e =
    let c = copy_out-Copied bytes (length bytes + 1) mem e (omega arith) in
    let n : min (length bytes) (length bytes + 1 - 1) ≡ length bytes = omega arith in
    let last : length c.tail ≡ 0 = omega (arith, c.fits) in
    (
      copy_out_null bytes 0,
      c.made
          ∙ ap (λ (r : Bytes). some (min (length bytes) (length bytes + 1 - 1), some r))
              (ap (λ k. take k bytes ++ 0 ∷ c.tail) n
                ∙ ap (λ s. s ++ 0 ∷ c.tail) (take_all bytes)
                ∙ ap (λ s. bytes ++ 0 ∷ s) (empty_tail c.tail last))
          ∙ ap (λ k. some (k, some (bytes ++ 0 ∷ []))) n,
    )
