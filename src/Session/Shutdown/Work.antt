-- ===== src/Session/Shutdown/Work.antt =====
-- How many steps a drop takes at most.
use scshell.Base.{ℕ, ◌+◌, ◌≤◌, List, [], ◌∷◌, ◌++◌, ◌≡◌, ap, Bytes, length, length-append, arith}
use scshell.Base.Bits.{bit_of}
use scshell.Session.Pump.{Message, bytes, eof}
use scshell.Session.Shutdown.{
  Setting, Dropper, begun, lowered, killed, nudged, told_writer, writer_gone, released, pump_joined,
  watcher_joined, freed, Reader, reading, reader_ended, sending, holds, Shutdown, DropStep, lowers,
  terminates, nudges, tells_writer, joins_writer, releases, joins_pump, joins_watcher, joins_reader,
  reads, read_fails, sends, takes_bytes, takes_eof, quits, writes, stops_writing, DropRun, at_once,
  longer, try_send, after_send, nudge,
}

-- The steps of `drop` that are left, with a message and a sentinel for the others.
abbrev pub dropper_work : Dropper → ℕ
dropper_work begun = 11
dropper_work lowered = 10
dropper_work killed = 9
dropper_work nudged = 7
dropper_work told_writer = 5
dropper_work writer_gone = 4
dropper_work released = 3
dropper_work pump_joined = 2
dropper_work watcher_joined = 1
dropper_work freed = 0

-- A message makes the pump and, with its answers, the writer work.
abbrev pub message_work : ℕ → Message → ℕ
message_work answers (bytes b) = answers + 1
message_work answers eof = 1

abbrev pub channel_work : ℕ → List Message → ℕ
channel_work answers [] = 0
channel_work answers (m ∷ rest) = message_work answers m + channel_work answers rest

abbrev pub reader_work : ℕ → Reader → ℕ
reader_work answers reading = 3
reader_work answers (sending (bytes b)) = answers + 5
reader_work answers (sending eof) = 2
reader_work answers reader_ended = 0

abbrev pub output_work : ℕ → List Bytes → ℕ
output_work answers [] = 0
output_work answers (b ∷ rest) = answers + 3 + output_work answers rest

unfoldable pub work : ℕ → Shutdown → ℕ
work answers s =
    dropper_work s.dropper
    + output_work answers s.output
    + reader_work answers s.reader
    + channel_work answers s.channel
    + (bit_of (holds s.pump) + bit_of (holds s.watcher))
    + (length s.inputs + bit_of s.writing)

channel_work-append :
    (a : ℕ) (q r : List Message) → channel_work a (q ++ r) ≡ channel_work a q + channel_work a r
channel_work-append a [] r = omega arith
channel_work-append a (m ∷ q) r = omega (arith, channel_work-append a q r)

try_send-work :
    (a n : ℕ) (q : List Message) → channel_work a (try_send n eof q) ≤ channel_work a q + 1
unfolding try_send
try_send-work a n q = ground (arith, channel_work-append a q (eof ∷ []))

-- A sent message is less work for the reader, by one more than what it is for the pump.
sent_work :
    (a : ℕ) (m : Message)
    → message_work a m + reader_work a (after_send m) + 1 ≤ reader_work a (sending m)
unfolding after_send
sent_work a (bytes b) = omega arith
sent_work a eof = omega arith

pub step-work :
    (c : Setting) {s t : Shutdown} → DropStep c s t → work c.answers t + 1 ≤ work c.answers s
unfolding work nudge
step-work c (lowers e) = omega (arith, ap dropper_work e)
step-work c (terminates e) = omega (arith, ap dropper_work e)
step-work c {s} (nudges e) =
    omega (arith, ap dropper_work e, try_send-work c.answers c.capacity s.channel)
step-work c {s} (tells_writer e) =
    omega (arith, ap dropper_work e, length-append s.inputs ([] ∷ []))
step-work c (joins_writer e w) = omega (arith, ap dropper_work e)
step-work c {s} (releases e) = omega (arith, ap dropper_work e)
step-work c (joins_pump e w) = omega (arith, ap dropper_work e)
step-work c (joins_watcher e w) = omega (arith, ap dropper_work e)
step-work c (joins_reader e w) = omega (arith, ap dropper_work e)
step-work c (reads b rest e f) =
    omega (arith, ap (reader_work c.answers) e, ap (output_work c.answers) f)
step-work c (read_fails e f w) = omega (arith, ap (reader_work c.answers) e)
step-work c {s} (sends m e w) = omega (
  arith,
  ap (reader_work c.answers) e,
  sent_work c.answers m,
  channel_work-append c.answers s.channel (m ∷ []),
)
step-work c {s} (takes_bytes b rest answers e f le) =
    omega (arith, ap (channel_work c.answers) f, length-append s.inputs answers, le)
step-work c (takes_eof rest e f) =
    omega (arith, ap (channel_work c.answers) f, ap (λ p. bit_of (holds p)) e)
step-work c (quits e f) = omega (arith, ap (λ p. bit_of (holds p)) e)
step-work c (writes b buf rest e f) = omega (arith, ap length f)
step-work c (stops_writing rest e f) = omega (arith, ap length f, ap bit_of e)

-- No run of a drop is longer than the work that is left.
pub run-work :
    (c : Setting) {s : Shutdown} {n : ℕ} {t : Shutdown}
    → DropRun c s n t
    → n + work c.answers t ≤ work c.answers s
run-work c at_once = omega arith
run-work c (longer r st) = omega (arith, run-work c r, step-work c st)
