-- ===== src/Session/Shutdown/Backlog.antt =====
-- A drop whose reader has more to send than there is room for.
use scshell.Base.{
  ℕ, ◌+◌, ◌≤◌, ◌<◌, List, [], ◌∷◌, ◌≡◌, ◌≢◌, refl, ap, ◌∙◌, arith, length, length-append,
}
use scshell.Session.Pump.{Message, eof}
use scshell.Session.Shutdown.Work.{work, run-work}
use scshell.Session.Shutdown.Room.{sent_to_send}
use scshell.Session.Shutdown.{
  Setting, freed, ended, Shutdown, DropStep, lowers, terminates, nudges, tells_writer, joins_writer,
  releases, joins_pump, joins_watcher, joins_reader, reads, read_fails, sends, takes_bytes,
  takes_eof, quits, writes, stops_writing, DropRun, at_once, longer, try_send, nudge, to_send,
}

record IsBehind (c : Setting) (s : Shutdown) : Type 0 where
  over : s.pump ≡ ended
  fits : length s.channel ≤ c.capacity
  behind : c.capacity < length s.channel + to_send s.reader s.output
  not_freed : s.dropper ≢ freed

try_send-length :
    (n : ℕ) (m : Message) (q : List Message)
    → length q ≤ n
    → (length q ≤ length (try_send n m q)) × (length (try_send n m q) ≤ n)
unfolding try_send
try_send-length n m q le =
    (ground (arith, le, length-append q (m ∷ [])), ground (arith, le, length-append q (m ∷ [])))

nudge-IsBehind : (c : Setting) (s : Shutdown) → IsBehind c s → IsBehind c (nudge c s)
unfolding nudge
nudge-IsBehind c s k =
    let grown = try_send-length c.capacity eof s.channel k.fits in
    record {
      over = k.over;
      fits = grown.1;
      behind = omega (arith, grown.0, k.behind);
      not_freed = λ h. cc;
    }

-- A step of `drop` before the last.
goes_on :
    {c : Setting} {s t : Shutdown}
    → IsBehind c s
    → t.pump ≡ s.pump
    → t.channel ≡ s.channel
    → t.reader ≡ s.reader
    → t.output ≡ s.output
    → t.dropper ≢ freed
    → IsBehind c t
goes_on k e f g h ne = record {
  over = e ∙ k.over;
  fits = rw f k.fits;
  behind = rw (f, g, h) k.behind;
  not_freed = ne;
}

step-IsBehind : (c : Setting) {s t : Shutdown} → DropStep c s t → IsBehind c s → IsBehind c t
unfolding to_send
step-IsBehind c (lowers e) k = goes_on k refl refl refl refl (λ h. cc)
step-IsBehind c (terminates e) k = goes_on k refl refl refl refl (λ h. cc)
step-IsBehind c {s} (nudges e) k = nudge-IsBehind c s k
step-IsBehind c (tells_writer e) k = goes_on k refl refl refl refl (λ h. cc)
step-IsBehind c (joins_writer e w) k = goes_on k refl refl refl refl (λ h. cc)
step-IsBehind c (releases e) k = goes_on k refl refl refl refl (λ h. cc)
step-IsBehind c (joins_pump e w) k = goes_on k refl refl refl refl (λ h. cc)
step-IsBehind c (joins_watcher e w) k = goes_on k refl refl refl refl (λ h. cc)
step-IsBehind c {s} (joins_reader e w) k =
    absurd (omega (arith, k.behind, k.fits, ap (λ r. to_send r s.output) w))
step-IsBehind c (reads b rest e f) k = record {
  over = k.over;
  fits = k.fits;
  behind = omega (arith, (rw (e, f) at k.behind));
  not_freed = k.not_freed;
}
step-IsBehind c (read_fails e f w) k = record {
  over = k.over;
  fits = k.fits;
  behind = omega (arith, (rw (e, f) at k.behind));
  not_freed = k.not_freed;
}
step-IsBehind c {s} (sends m e lt) k = record {
  over = k.over;
  fits = omega (arith, lt, length-append s.channel (m ∷ []));
  behind = omega (
    arith,
    k.behind,
    length-append s.channel (m ∷ []),
    sent_to_send m s.output,
    ap (λ r. to_send r s.output) e,
  );
  not_freed = k.not_freed;
}
step-IsBehind c (takes_bytes b rest answers e f le) k = cc (e, k.over)
step-IsBehind c (takes_eof rest e f) k = cc (e, k.over)
step-IsBehind c (quits e f) k = goes_on k refl refl refl refl k.not_freed
step-IsBehind c (writes b buf rest e f) k = goes_on k refl refl refl refl k.not_freed
step-IsBehind c (stops_writing rest e f) k = goes_on k refl refl refl refl k.not_freed

run-IsBehind :
    (c : Setting) {s : Shutdown} {n : ℕ} {t : Shutdown}
    → DropRun c s n t
    → IsBehind c s
    → IsBehind c t
run-IsBehind c at_once k = k
run-IsBehind c (longer r st) k = step-IsBehind c st (run-IsBehind c r k)

-- A drop that has not returned, with the pump over, and a reader that has still to send more messages than
-- its channel has room for: in every interleaving, whoever drops and whether the console closes its end of
-- the pipe by itself or not, `drop` waits for ever.
pub backlog_hangs :
    (c : Setting) (s : Shutdown) {t : Shutdown} {n : ℕ}
    → s.dropper ≢ freed
    → s.pump ≡ ended
    → length s.channel ≤ c.capacity
    → c.capacity < length s.channel + to_send s.reader s.output
    → DropRun c s n t
    → (n ≤ work c.answers s) × (t.dropper ≢ freed)
backlog_hangs c s ne over fits behind r = (
  omega (arith, run-work c r),
  (run-IsBehind c r
      (record { over = over; fits = fits; behind = behind; not_freed = ne })).not_freed,
)
