-- ===== src/Session/Shutdown/Progress.antt =====
-- Why a drop that is not over can go on.
use scshell.Base.{
  ◌<◌, Bool, true, false, List, [], ◌∷◌, ◌≡◌, ◌⊎◌, inl, inr, refl, ap, Bytes, length, arith,
}
use scshell.Session.Pump.{Message, bytes, eof}
use scshell.Session.Shutdown.Work.{dropper_work}
use scshell.Session.Shutdown.{
  Setting, outside, Dropper, begun, lowered, killed, nudged, told_writer, writer_gone, released,
  pump_joined, watcher_joined, freed, Reader, reading, reader_ended, sending, Worker, working,
  calling, ended, Shutdown, DropStep, lowers, terminates, nudges, tells_writer, joins_writer,
  releases, joins_pump, joins_watcher, joins_reader, reads, read_fails, sends, takes_bytes,
  takes_eof, quits, writes, stops_writing, nudge, to_send, owners,
}
use scshell.Session.Shutdown.Order.{Order, ThreadsOf, step-Order, step-Threads, has_sentinel}
use scshell.Session.Shutdown.Room.{MessagesOf, step-Messages, has_eof, sent_to_send}

-- The console gets closed before the reader is joined, or the reader needs no end of the pipe.
abbrev pub CanEnd : Setting → Shutdown → Type 0
CanEnd c s = (c.caller ≡ outside) ⊎ ((c.ends_itself ≡ true) ⊎ (s.reader ≡ reader_ended))

pub record Inv (c : Setting) (s : Shutdown) : Type 0 where
  pub order : Order s
  pub threads_inv : ThreadsOf c s
  pub messages_inv : MessagesOf c s
  pub can_end : CanEnd c s

step-CanEnd : (c : Setting) {s t : Shutdown} → DropStep c s t → CanEnd c s → CanEnd c t
unfolding nudge
step-CanEnd c st (inl out) = inl out
step-CanEnd c st (inr (inl itself)) = inr (inl itself)
step-CanEnd c (reads b rest e f) (inr (inr over)) = cc (e, over)
step-CanEnd c (read_fails e f w) (inr (inr over)) = cc (e, over)
step-CanEnd c (sends m e w) (inr (inr over)) = cc (e, over)
step-CanEnd c _ (inr (inr over)) = inr (inr over)

pub step-Inv : (c : Setting) {s t : Shutdown} → DropStep c s t → Inv c s → Inv c t
step-Inv c st k = record {
  order = step-Order c st k.order;
  threads_inv = step-Threads c st k.threads_inv;
  messages_inv = step-Messages c st k.messages_inv;
  can_end = step-CanEnd c st k.can_end;
}

abbrev pub CanStep : Setting → Shutdown → Type 0
CanStep c s = (t : Shutdown) × DropStep c s t

worker_cases : (w : Worker) → (w ≡ ended) ⊎ ((w ≡ calling) ⊎ (w ≡ working))
worker_cases working = inr (inr refl)
worker_cases calling = inr (inl refl)
worker_cases ended = inl refl

-- A pump at work has an `Eof` to come to.
pump_steps :
    (c : Setting) (s : Shutdown) (q : List Message)
    → s.pump ≡ working
    → s.channel ≡ q
    → has_eof q ≡ true
    → CanStep c s
pump_steps c s [] e f h = cc
pump_steps c s (bytes b ∷ rest) e f h = (_, takes_bytes b rest [] e f (omega arith))
pump_steps c s (eof ∷ rest) e f h = (_, takes_eof rest e f)

writer_steps :
    (c : Setting) (s : Shutdown) (q : List Bytes)
    → s.writing ≡ true
    → s.inputs ≡ q
    → has_sentinel q ≡ true
    → CanStep c s
writer_steps c s [] e f h = cc
writer_steps c s ([] ∷ rest) e f h = (_, stops_writing rest e f)
writer_steps c s ((b ∷ buf) ∷ rest) e f h = (_, writes b buf rest e f)

joins : (c : Setting) (s : Shutdown) → Inv c s → s.dropper ≡ released → CanStep c s
joins c s k e = elim (worker_cases s.pump) [
  | inl over ↦ (_, joins_pump e (inl over))
  | inr (inl call) ↦ (_, joins_pump e (inr (k.threads_inv.pump_calls call)))
  | inr (inr at_work) ↦
      pump_steps c s s.channel at_work refl
        (k.messages_inv.woken (omega (arith, ap dropper_work e)) at_work)
]

joins_next : (c : Setting) (s : Shutdown) → Inv c s → s.dropper ≡ pump_joined → CanStep c s
joins_next c s k e = elim (worker_cases s.watcher) [
  | inl over ↦ (_, joins_watcher e (inl over))
  | inr (inl call) ↦ (_, joins_watcher e (inr (k.threads_inv.watcher_calls call)))
  | inr (inr at_work) ↦ (_, quits at_work (k.order.low (omega (arith, ap dropper_work e))))
]

-- Once both are joined and the caller is neither, nobody owns the console.
closes :
    (c : Setting) (s : Shutdown)
    → Inv c s
    → s.dropper ≡ watcher_joined
    → c.caller ≡ outside
    → owners s ≡ 0
unfolding owners
closes c s k e out = elim (worker_cases s.pump) [
  | inl over ↦ elim (worker_cases s.watcher) [
    | inl gone ↦
        let taken : s.kept ≡ false = k.order.taken (omega (arith, ap dropper_work e)) in
        rw (taken, over, gone) refl
    | inr (inl call) ↦ cc (out, k.threads_inv.watcher_calls call)
    | inr (inr at_work) ↦
        absurd (k.threads_inv.watcher_over (omega (arith, ap dropper_work e)) at_work)
  ]
  | inr (inl call) ↦ cc (out, k.threads_inv.pump_calls call)
  | inr (inr at_work) ↦ absurd (k.threads_inv.pump_over (omega (arith, ap dropper_work e)) at_work)
]

sends_next :
    (c : Setting) (s : Shutdown) (m : Message) → Inv c s → s.reader ≡ sending m → CanStep c s
sends_next c s m k e =
    let fits : length s.channel < c.capacity =
      omega (arith, k.messages_inv.room, sent_to_send m s.output, ap (λ r. to_send r s.output) e) in
    (_, sends m e fits)

reads_next :
    (c : Setting) (s : Shutdown) (output : List Bytes)
    → Inv c s
    → s.dropper ≡ watcher_joined
    → s.reader ≡ reading
    → s.output ≡ output
    → CanStep c s
reads_next c s (b ∷ rest) k e f g = (_, reads b rest f g)
reads_next c s [] k e f g = elim k.can_end [
  | inl out ↦ (_, read_fails f g (inl (closes c s k e out)))
  | inr (inl itself) ↦
      (_, read_fails f g (inr (itself, k.order.dead (omega (arith, ap dropper_work e)))))
  | inr (inr over) ↦ cc (f, over)
]

last_join :
    (c : Setting) (s : Shutdown) (r : Reader)
    → Inv c s
    → s.dropper ≡ watcher_joined
    → s.reader ≡ r
    → CanStep c s
last_join c s reader_ended k e f = (_, joins_reader e f)
last_join c s (sending m) k e f = sends_next c s m k f
last_join c s reading k e f = reads_next c s s.output k e f refl

writer_next :
    (c : Setting) (s : Shutdown) (writing : Bool)
    → Inv c s
    → s.dropper ≡ told_writer
    → s.writing ≡ writing
    → CanStep c s
writer_next c s false k e f = (_, joins_writer e f)
writer_next c s true k e f =
    writer_steps c s s.inputs f refl (k.order.told (omega (arith, ap dropper_work e)) f)

pub progress :
    (c : Setting) (s : Shutdown) (d : Dropper)
    → Inv c s
    → s.dropper ≡ d
    → (s.dropper ≡ freed) ⊎ CanStep c s
progress c s begun k e = inr (_, lowers e)
progress c s lowered k e = inr (_, terminates e)
progress c s killed k e = inr (_, nudges e)
progress c s nudged k e = inr (_, tells_writer e)
progress c s told_writer k e = inr (writer_next c s s.writing k e refl)
progress c s writer_gone k e = inr (_, releases e)
progress c s released k e = inr (joins c s k e)
progress c s pump_joined k e = inr (joins_next c s k e)
progress c s watcher_joined k e = inr (last_join c s s.reader k e refl)
progress c s freed k e = inl e
