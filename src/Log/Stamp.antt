-- ===== src/Log/Stamp.antt =====
-- The time at the start of a line.
use scshell.Base.{
  ℕ, ◌+◌, ◌*◌, ◌/◌, ◌%◌, ◌<◌, ◌&&◌, [], ◌∷◌, Option, none, some, ◌≡◌, refl, arith, Bytes, ◌==◌,
  if◌then◌else◌, length,
}
use scshell.Decimal.Laws.{value}
use scshell.Decimal.Padded.{last_digits, padded-last_digits}
use scshell.Log.{Clock, or_default, chrono_ish}

-- The time of day in seconds, and the milliseconds, as a reader of the log takes them from
-- `HH:MM:SS.mmm`.
unfoldable pub read_stamp : Bytes → Option (ℕ × ℕ)
read_stamp (h ∷ i ∷ c ∷ m ∷ n ∷ d ∷ s ∷ t ∷ p ∷ x ∷ y ∷ z ∷ []) =
    let hours = value 0 (h ∷ i ∷ []) in
    let minutes = value 0 (m ∷ n ∷ []) in
    let seconds = value 0 (s ∷ t ∷ []) in
    if (c == b':') && ((d == b':') && (p == b'.'))
    then some ((hours * 60 + minutes) * 60 + seconds, value 0 (x ∷ y ∷ z ∷ []))
    else none
read_stamp _ = none

two-value : (n : ℕ) → n < 100 → value 0 (last_digits 2 n) ≡ n
two-value n lt = omega (arith, lt)

three-value : (n : ℕ) → n < 1000 → value 0 (last_digits 3 n) ≡ n
three-value n lt = omega (arith, lt)

time_of_day : (secs : ℕ) → (secs / 3600 % 24 * 60 + secs / 60 % 60) * 60 + secs % 60 ≡ secs % 86400
time_of_day secs = omega arith

-- The stamp of every time has twelve characters, and tells the time of day and the milliseconds.
pub read_stamp-chrono_ish :
    (now : Option Clock)
    → (or_default now).millis < 1000
    → (length (chrono_ish now) ≡ 12)
      × (read_stamp (chrono_ish now)
          ≡ some ((or_default now).secs % 86400, (or_default now).millis))
unfolding chrono_ish read_stamp
read_stamp-chrono_ish now lt =
    let t = or_default now in
    let hours = padded-last_digits 1 ((t.secs / 3600) % 24) (omega arith) in
    let minutes = padded-last_digits 1 ((t.secs / 60) % 60) (omega arith) in
    let seconds = padded-last_digits 1 (t.secs % 60) (omega arith) in
    let millis = padded-last_digits 2 t.millis (omega (arith, lt)) in
    let h = two-value ((t.secs / 3600) % 24) (omega arith) in
    let m = two-value ((t.secs / 60) % 60) (omega arith) in
    let s = two-value (t.secs % 60) (omega arith) in
    let ms = three-value t.millis (omega (arith, lt)) in
    rw (hours, minutes, seconds, millis) (refl, rw (h, m, s, ms, time_of_day t.secs) refl)
