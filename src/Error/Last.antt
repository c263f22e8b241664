-- ===== src/Error/Last.antt =====
-- What a thread reads of the errors that the threads have stored.
use scshell.Base.{
  ℕ, ◌==◌, Bool-cases, inl, inr, List, [], ◌∷◌, ◌++◌, ◌≡◌, ◌≢◌, refl, arith, All, ap, ◌∙◌,
}
use scshell.Error.{
  RataError, invalid, arg, state, os, io, display, LastErrors, no_errors, set_last_error,
  last_error_copy, store,
}

-- A run of failing calls: the thread of each, and its error.
unfoldable pub stores : List (ℕ × RataError) → LastErrors → LastErrors
stores [] e = e
stores ((t, err) ∷ calls) e = stores calls (store t err e).1

-- The stores of threads other than `t`.
abbrev pub IsForeign : ℕ → List (ℕ × RataError) → Type 0
IsForeign t calls = All (λ (c : ℕ × RataError). t ≢ c.0) calls

stores-append :
    (xs ys : List (ℕ × RataError)) (e : LastErrors) → stores (xs ++ ys) e ≡ stores ys (stores xs e)
unfolding stores
stores-append [] ys e = refl
stores-append ((t, err) ∷ xs) ys e = stores-append xs ys (store t err e).1

-- The stores of other threads leave what thread `t` has.
last_err-stores :
    (t : ℕ) (calls : List (ℕ × RataError)) (e : LastErrors)
    → IsForeign t calls
    → (stores calls e).last_err t ≡ e.last_err t
unfolding stores store set_last_error
last_err-stores t [] e h = refl
last_err-stores t ((u, err) ∷ calls) e (h, hs) =
    last_err-stores t calls (store u err e).1 hs ∙ ground arith

shown_own :
    (t : ℕ) (e : LastErrors) (err : RataError)
    → e.last_err t ≡ display err
    → last_error_copy t e ≡ display err
unfolding last_error_copy display
shown_own t e invalid h = rw h
shown_own t e (arg s) h = rw h
shown_own t e (state s) h = rw h
shown_own t e (os s) h = rw h
shown_own t e (io s) h = rw h

store_own : (t : ℕ) (err : RataError) (e : LastErrors) → (store t err e).1.last_err t ≡ display err
unfolding store set_last_error
store_own t err e = ground arith

store_global :
    (t u : ℕ) (err : RataError) (e : LastErrors)
    → e.last_err t ≡ []
    → last_error_copy t (store u err e).1 ≡ display err
unfolding store set_last_error last_error_copy
store_global t u err e h = elim (Bool-cases (t == u)) [
  | inl same ↦ shown_own t (store u err e).1 err (ground arith)
  | inr other ↦ ground arith
]

-- A thread reads its own last error, however many other threads have failed before and since; a thread
-- that has stored none reads the last one of all.
pub last_error_copy-stores :
    (t u : ℕ) (err : RataError) (before later quiet : List (ℕ × RataError))
    → IsForeign t later
    → IsForeign t quiet
    → (last_error_copy t (stores (before ++ (t, err) ∷ later) no_errors) ≡ display err)
      × (last_error_copy t (stores (quiet ++ (u, err) ∷ []) no_errors) ≡ display err)
unfolding stores
last_error_copy-stores t u err before later quiet h k =
    let now = stores before no_errors in
    let calm = stores quiet no_errors in
    (
      ap (last_error_copy t) (stores-append before ((t, err) ∷ later) no_errors)
          ∙ shown_own t (stores later (store t err now).1) err
              (last_err-stores t later (store t err now).1 h ∙ store_own t err now),
      ap (last_error_copy t) (stores-append quiet ((u, err) ∷ []) no_errors)
          ∙ store_global t u err calm (last_err-stores t quiet no_errors k),
    )

-- What is stored is what the thread reads next.
pub last_error_copy-store :
    (t : ℕ) (err : RataError) (e : LastErrors) → last_error_copy t (store t err e).1 ≡ display err
last_error_copy-store t err e = shown_own t (store t err e).1 err (store_own t err e)
