-- ===== src/Session/Shutdown.antt =====
-- rata_shell/src/session.rs and rata_shell/src/io.rs: `drop` of a session that was started once, with
-- every call that can wait: the two channels, the read of the pipe, and the joins of the four threads.
pub mod Work
pub mod Order
pub mod Room
pub mod Progress
pub mod Returns
pub mod Stuck
pub mod Hangs
pub mod Backlog
use scshell.Base.{
  ℕ, ◌+◌, ◌≤◌, ◌<◌, Bool, true, false, List, [], ◌∷◌, ◌++◌, ◌≡◌, ◌↔◌, ◌⊎◌, Bytes, length, ltb,
  if◌then◌else◌,
}
use scshell.Base.Bits.{bit_of}
use scshell.Session.Pump.{Message, bytes, eof}
use scshell.Io.{drop_writer}

-- The thread that drops the session: one of the host's, or the pump or the watcher in a callback.
pub data Caller : Type 0 where
  outside on_pump on_watcher : Caller

-- `capacity`: of the channel of the reader. `ends_itself`: whether the console closes its end of the pipe
-- once the child is dead, which it does not always do. `answers`: how many answers of the terminal to one
-- buffer go to the writer at most.
pub record Setting : Type 0 where
  pub capacity : ℕ
  pub ends_itself : Bool
  pub answers : ℕ
  pub caller : Caller

-- Where `drop` stands: behind ①, behind ②, behind `try_send`, in and behind the drop of the writer,
-- behind that of `pty`, behind the joins of the pump and the watcher, behind that of the reader.
pub data Dropper : Type 0 where
  begun lowered killed nudged told_writer writer_gone released pump_joined watcher_joined freed :
      Dropper

pub data Reader : Type 0 where
  reading reader_ended : Reader
  sending : Message → Reader

-- A thread with its `Arc<PtyHost>`, which goes when it ends. `calling` is in the callback that drops.
pub data Worker : Type 0 where
  working calling ended : Worker

-- The receiver that `self.reader` keeps is there until its thread is joined, so no send to it fails.
-- `output`: what `ReadFile` still gives. `channel`, `inputs`: the channels of the reader and the writer.
-- `writing`: the writer is not over. `kept`: `self.pty` is there.
pub record Shutdown : Type 0 where
  pub dropper : Dropper
  pub alive : Bool
  pub child_runs : Bool
  pub kept : Bool
  pub output : List Bytes
  pub reader : Reader
  pub channel : List Message
  pub pump : Worker
  pub watcher : Worker
  pub inputs : List Bytes
  pub writing : Bool

abbrev pub holds : Worker → Bool
holds ended = false
holds _ = true

-- `Arc::strong_count` of the `PtyHost`
unfoldable pub owners : Shutdown → ℕ
owners s = bit_of s.kept + bit_of (holds s.pump) + bit_of (holds s.watcher)

-- The read of an empty pipe fails: the last owner has closed the console, or it has closed its end.
abbrev pub IsClosed : Setting → Shutdown → Type 0
IsClosed c s = (owners s ≡ 0) ⊎ ((c.ends_itself ≡ true) × (s.child_runs ≡ false))

-- Where the reader goes once its message is sent.
unfoldable pub after_send : Message → Reader
after_send (bytes b) = reading
after_send eof = reader_ended

-- `let _ = reader.tx.try_send(Eof)`
unfoldable pub try_send : (capacity : ℕ) → Message → List Message → List Message
try_send capacity m channel = if ltb (length channel) capacity then channel ++ m ∷ [] else channel

unfoldable pub nudge : Setting → Shutdown → Shutdown
unfolding try_send
nudge c s = record s { dropper = nudged; channel = try_send c.capacity eof s.channel }

-- One step. A step that is not there while its guard fails is a thread that waits.
pub data DropStep (c : Setting) (s : Shutdown) : Shutdown → Type 0 where
  -- drop
  lowers : s.dropper ≡ begun → DropStep c s (record s { dropper = lowered; alive = false })
  terminates :
      s.dropper ≡ lowered → DropStep c s (record s { dropper = killed; child_runs = false })
  nudges : s.dropper ≡ killed → DropStep c s (nudge c s)
  tells_writer :
      s.dropper ≡ nudged
      → DropStep c s (record s { dropper = told_writer; inputs = drop_writer s.inputs })
  joins_writer :
      s.dropper ≡ told_writer
      → s.writing ≡ false
      → DropStep c s (record s { dropper = writer_gone })
  releases : s.dropper ≡ writer_gone → DropStep c s (record s { dropper = released; kept = false })
  joins_pump :
      s.dropper ≡ released
      → (s.pump ≡ ended) ⊎ (c.caller ≡ on_pump)
      → DropStep c s (record s { dropper = pump_joined })
  joins_watcher :
      s.dropper ≡ pump_joined
      → (s.watcher ≡ ended) ⊎ (c.caller ≡ on_watcher)
      → DropStep c s (record s { dropper = watcher_joined })
  joins_reader :
      s.dropper ≡ watcher_joined
      → s.reader ≡ reader_ended
      → DropStep c s (record s { dropper = freed })
  -- the reader
  reads :
      (b : Bytes) (rest : List Bytes)
      → s.reader ≡ reading
      → s.output ≡ b ∷ rest
      → DropStep c s (record s { reader = sending (bytes b); output = rest })
  read_fails :
      s.reader ≡ reading
      → s.output ≡ []
      → IsClosed c s
      → DropStep c s (record s { reader = sending eof })
  sends :
      (m : Message)
      → s.reader ≡ sending m
      → length s.channel < c.capacity
      → DropStep c s (record s { reader = after_send m; channel = s.channel ++ m ∷ [] })
  -- the pump; its answers go nowhere once the writer is over
  takes_bytes :
      (b : Bytes) (rest : List Message) (answers : List Bytes)
      → s.pump ≡ working
      → s.channel ≡ bytes b ∷ rest
      → length answers ≤ c.answers
      → DropStep c s (record s { channel = rest; inputs = s.inputs ++ answers })
  takes_eof :
      (rest : List Message)
      → s.pump ≡ working
      → s.channel ≡ eof ∷ rest
      → DropStep c s (record s { channel = rest; pump = ended })
  -- the watcher
  quits : s.watcher ≡ working → s.alive ≡ false → DropStep c s (record s { watcher = ended })
  -- the writer
  writes :
      (b : ℕ) (buf : Bytes) (rest : List Bytes)
      → s.writing ≡ true
      → s.inputs ≡ (b ∷ buf) ∷ rest
      → DropStep c s (record s { inputs = rest })
  stops_writing :
      (rest : List Bytes)
      → s.writing ≡ true
      → s.inputs ≡ [] ∷ rest
      → DropStep c s (record s { inputs = rest; writing = false })

-- `n` steps.
pub data DropRun (c : Setting) (s : Shutdown) : ℕ → Shutdown → Type 0 where
  at_once : DropRun c s 0 s
  longer : {n : ℕ} {t u : Shutdown} → DropRun c s n t → DropStep c t u → DropRun c s (n + 1) u

-- A session when `drop` is called on it: the thread of the caller is in its callback, and no other is.
pub record IsCalled (c : Setting) (s : Shutdown) : Type 0 where
  pub at_start : s.dropper ≡ begun
  pub by_pump : (s.pump ≡ calling) ↔ (c.caller ≡ on_pump)
  pub by_watcher : (s.watcher ≡ calling) ↔ (c.caller ≡ on_watcher)

-- The messages that the reader has still to send, its last one included.
unfoldable pub to_send : Reader → List Bytes → ℕ
to_send reading output = length output + 1
to_send (sending (bytes b)) output = length output + 2
to_send (sending eof) output = 1
to_send reader_ended output = 0
