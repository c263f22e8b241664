-- ===== src/Session/Shutdown/Stuck.antt =====
-- What keeps a drop from its end.
use scshell.Base.{
  ℕ, ◌≤◌, Bool, true, false, List, [], ◌∷◌, ◌++◌, ◌≡◌, ◌≢◌, inl, inr, refl, sym, ap, ◌∙◌, Bytes,
  arith,
}
use scshell.Base.Bits.{bit_of}
use scshell.Session.Pump.{Message, bytes, eof}
use scshell.Session.Shutdown.Work.{dropper_work}
use scshell.Session.Shutdown.{
  Setting, Dropper, lowered, killed, nudged, told_writer, writer_gone, released, pump_joined,
  watcher_joined, freed, Reader, reading, sending, Worker, working, calling, ended, Shutdown,
  DropStep, lowers, terminates, nudges, tells_writer, joins_writer, releases, joins_pump,
  joins_watcher, joins_reader, reads, read_fails, sends, takes_bytes, takes_eof, quits, DropRun,
  at_once, longer, after_send, nudge, owners, holds,
}
use scshell.Session.Shutdown.Room.{has_eof}

-- A reader that has not met the end of the output.
abbrev pub still_reads : Reader → Bool
still_reads reading = true
still_reads (sending (bytes b)) = true
still_reads _ = false

-- Who keeps the console open for ever: a thread that cannot leave its callback before `drop` returns, or a
-- pump with no `Eof` to come.
pub data Keeper (d : Dropper) (q : List Message) (pump watcher : Worker) : Type 0 where
  pump_calls : pump ≡ calling → Keeper d q pump watcher
  watcher_calls : watcher ≡ calling → Keeper d q pump watcher
  pump_waits : pump ≡ working → has_eof q ≡ false → dropper_work d ≤ 7 → Keeper d q pump watcher

pub record IsStuck (s : Shutdown) : Type 0 where
  pub reads_on : still_reads s.reader ≡ true
  pub keeper : Keeper s.dropper s.channel s.pump s.watcher
  pub not_freed : s.dropper ≢ freed

owned : (s : Shutdown) → Keeper s.dropper s.channel s.pump s.watcher → owners s ≢ 0
unfolding owners
owned s (pump_calls e) h = let o : bit_of (holds s.pump) ≡ 1 = rw e refl in omega (arith, h, o)
owned s (watcher_calls e) h =
    let o : bit_of (holds s.watcher) ≡ 1 = rw e refl in omega (arith, h, o)
owned s (pump_waits e f le) h = let o : bit_of (holds s.pump) ≡ 1 = rw e refl in omega (arith, h, o)

later_on :
    {d : Dropper} {q : List Message} {pump watcher : Worker}
    → Keeper d q pump watcher
    → (e : Dropper) → dropper_work e ≤ dropper_work d
    → Keeper e q pump watcher
later_on (pump_calls e) d le = pump_calls e
later_on (watcher_calls e) d le = watcher_calls e
later_on (pump_waits e f lt) d le = pump_waits e f (omega (arith, lt, le))

has_eof-bytes :
    (q : List Message) (b : Bytes) → has_eof q ≡ false → has_eof (q ++ bytes b ∷ []) ≡ false
has_eof-bytes [] b h = refl
has_eof-bytes (bytes a ∷ q) b h = has_eof-bytes q b h
has_eof-bytes (eof ∷ q) b h = cc

-- The channel gets bytes, or loses them.
gets_bytes :
    {d : Dropper} {q : List Message} {pump watcher : Worker} (b : Bytes)
    → Keeper d q pump watcher
    → Keeper d (q ++ bytes b ∷ []) pump watcher
gets_bytes b (pump_calls e) = pump_calls e
gets_bytes b (watcher_calls e) = watcher_calls e
gets_bytes {q} b (pump_waits e f le) = pump_waits e (has_eof-bytes q b f) le

loses_bytes :
    {d : Dropper} {q rest : List Message} {pump watcher : Worker} {b : Bytes}
    → q ≡ bytes b ∷ rest
    → Keeper d q pump watcher
    → Keeper d rest pump watcher
loses_bytes g (pump_calls e) = pump_calls e
loses_bytes g (watcher_calls e) = watcher_calls e
loses_bytes g (pump_waits e f le) = pump_waits e (sym (ap has_eof g) ∙ f) le

nudge-Keeper :
    {d : Dropper} {q : List Message} {pump watcher : Worker}
    → d ≡ killed
    → Keeper d q pump watcher
    → (r : List Message) → Keeper nudged r pump watcher
nudge-Keeper e (pump_calls f) q = pump_calls f
nudge-Keeper e (watcher_calls f) q = watcher_calls f
nudge-Keeper e (pump_waits f g le) q = absurd (omega (arith, le, ap dropper_work e))

eof-Keeper :
    {d : Dropper} {q rest : List Message} {pump watcher : Worker}
    → pump ≡ working
    → q ≡ eof ∷ rest
    → Keeper d q pump watcher
    → Keeper d rest ended watcher
eof-Keeper e g (pump_calls f) = cc (e, f)
eof-Keeper e g (watcher_calls f) = watcher_calls f
eof-Keeper e g (pump_waits f h le) = cc (ap has_eof g, h)

quit-Keeper :
    {d : Dropper} {q : List Message} {pump watcher : Worker}
    → watcher ≡ working
    → Keeper d q pump watcher
    → Keeper d q pump ended
quit-Keeper e (pump_calls f) = pump_calls f
quit-Keeper e (watcher_calls f) = cc (e, f)
quit-Keeper e (pump_waits f h le) = pump_waits f h le

-- A step of `drop` before the last.
moves_on :
    {s : Shutdown}
    → IsStuck s
    → {p : Dropper} → s.dropper ≡ p
    → (d : Dropper) → dropper_work d ≤ dropper_work p
    → Keeper d s.channel s.pump s.watcher
moves_on k e d le = later_on k.keeper d (omega (arith, ap dropper_work e, le))

send-IsStuck :
    (c : Setting) (s : Shutdown) (m : Message)
    → s.reader ≡ sending m
    → IsStuck s
    → IsStuck (record s { reader = after_send m; channel = s.channel ++ m ∷ [] })
unfolding after_send
send-IsStuck c s (bytes b) e k = record {
  reads_on = refl;
  keeper = gets_bytes b k.keeper;
  not_freed = k.not_freed;
}
send-IsStuck c s eof e k = cc (ap still_reads e, k.reads_on)

step-IsStuck :
    (c : Setting) {s t : Shutdown} → c.ends_itself ≡ false → DropStep c s t → IsStuck s → IsStuck t
unfolding nudge
step-IsStuck c open_end (lowers e) k = record {
  reads_on = k.reads_on;
  keeper = moves_on k e lowered (omega arith);
  not_freed = λ h. cc;
}
step-IsStuck c open_end (terminates e) k = record {
  reads_on = k.reads_on;
  keeper = moves_on k e killed (omega arith);
  not_freed = λ h. cc;
}
step-IsStuck c open_end (nudges e) k = record {
  reads_on = k.reads_on;
  keeper = nudge-Keeper e k.keeper _;
  not_freed = λ h. cc;
}
step-IsStuck c open_end (tells_writer e) k = record {
  reads_on = k.reads_on;
  keeper = moves_on k e told_writer (omega arith);
  not_freed = λ h. cc;
}
step-IsStuck c open_end (joins_writer e w) k = record {
  reads_on = k.reads_on;
  keeper = moves_on k e writer_gone (omega arith);
  not_freed = λ h. cc;
}
step-IsStuck c open_end (releases e) k = record {
  reads_on = k.reads_on;
  keeper = moves_on k e released (omega arith);
  not_freed = λ h. cc;
}
step-IsStuck c open_end (joins_pump e w) k = record {
  reads_on = k.reads_on;
  keeper = moves_on k e pump_joined (omega arith);
  not_freed = λ h. cc;
}
step-IsStuck c open_end (joins_watcher e w) k = record {
  reads_on = k.reads_on;
  keeper = moves_on k e watcher_joined (omega arith);
  not_freed = λ h. cc;
}
step-IsStuck c open_end (joins_reader e w) k = cc (ap still_reads w, k.reads_on)
step-IsStuck c open_end (reads b rest e f) k = record {
  reads_on = refl;
  keeper = k.keeper;
  not_freed = k.not_freed;
}
step-IsStuck c {s} open_end (read_fails e f (inl none_left)) k = absurd (owned s k.keeper none_left)
step-IsStuck c open_end (read_fails e f (inr (itself, dead))) k = cc (open_end, itself)
step-IsStuck c {s} open_end (sends m e w) k = send-IsStuck c s m e k
step-IsStuck c open_end (takes_bytes b rest answers e f le) k = record {
  reads_on = k.reads_on;
  keeper = loses_bytes f k.keeper;
  not_freed = k.not_freed;
}
step-IsStuck c open_end (takes_eof rest e f) k = record {
  reads_on = k.reads_on;
  keeper = eof-Keeper e f k.keeper;
  not_freed = k.not_freed;
}
step-IsStuck c open_end (quits e f) k = record {
  reads_on = k.reads_on;
  keeper = quit-Keeper e k.keeper;
  not_freed = k.not_freed;
}
step-IsStuck c open_end _ k = record {
  reads_on = k.reads_on;
  keeper = k.keeper;
  not_freed = k.not_freed;
}

pub run-IsStuck :
    (c : Setting) {s : Shutdown} {n : ℕ} {t : Shutdown}
    → c.ends_itself ≡ false
    → DropRun c s n t
    → IsStuck s
    → IsStuck t
run-IsStuck c open_end at_once k = k
run-IsStuck c open_end (longer r st) k = step-IsStuck c open_end st (run-IsStuck c open_end r k)
