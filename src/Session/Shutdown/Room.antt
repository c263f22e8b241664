-- ===== src/Session/Shutdown/Room.antt =====
-- What holds while a session is dropped whose remaining output fits into the channel.
use scshell.Base.{
  ℕ, ◌+◌, ◌≤◌, ◌<◌, Bool, true, false, List, [], ◌∷◌, ◌++◌, ◌≡◌, refl, sym, ap, ◌∙◌, Bytes, length,
  length-append, arith,
}
use scshell.Session.Pump.{Message, bytes, eof}
use scshell.Session.Shutdown.Work.{dropper_work}
use scshell.Session.Shutdown.{
  Setting, Dropper, begun, lowered, killed, told_writer, writer_gone, released, pump_joined,
  watcher_joined, freed, sending, Worker, working, Shutdown, DropStep, lowers, terminates, nudges,
  tells_writer, joins_writer, releases, joins_pump, joins_watcher, joins_reader, reads, read_fails,
  sends, takes_bytes, takes_eof, try_send, after_send, nudge, to_send,
}

abbrev pub has_eof : List Message → Bool
has_eof [] = false
has_eof (bytes b ∷ rest) = has_eof rest
has_eof (eof ∷ rest) = true

-- The `Eof` that `drop` has still to send.
abbrev pub to_nudge : Dropper → ℕ
to_nudge begun = 1
to_nudge lowered = 1
to_nudge killed = 1
to_nudge _ = 0

-- The channel has room for every message that is still to come, and once `drop` has sent its `Eof`, there
-- is one for the pump.
pub record Messages (capacity : ℕ) (d : Dropper) (to_come : ℕ) (channel : List Message)
    (pump : Worker) : Type 0 where
  pub room : length channel + to_come + to_nudge d ≤ capacity
  pub woken : dropper_work d ≤ 7 → pump ≡ working → has_eof channel ≡ true

abbrev pub MessagesOf : Setting → Shutdown → Type 0
MessagesOf c s = Messages c.capacity s.dropper (to_send s.reader s.output) s.channel s.pump

has_eof-append : (q r : List Message) → has_eof q ≡ true → has_eof (q ++ r) ≡ true
has_eof-append [] r h = cc
has_eof-append (bytes b ∷ q) r h = has_eof-append q r h
has_eof-append (eof ∷ q) r h = refl

has_eof-last : (q : List Message) → has_eof (q ++ eof ∷ []) ≡ true
has_eof-last [] = refl
has_eof-last (bytes b ∷ q) = has_eof-last q
has_eof-last (eof ∷ q) = refl

try_send-room :
    (n : ℕ) (m : Message) (q : List Message) → length q < n → try_send n m q ≡ q ++ m ∷ []
unfolding try_send
try_send-room n m q lt = ground (arith, lt)

-- A step of `drop` that sends the pump nothing.
passes :
    {n r : ℕ} {d : Dropper} {q : List Message} {pump : Worker}
    → Messages n d r q pump
    → (e : Dropper) → to_nudge e ≤ to_nudge d
    → (dropper_work e ≤ 7 → dropper_work d ≤ 7)
    → Messages n e r q pump
passes k e le late = record { room = omega (arith, k.room, le); woken = λ h. k.woken (late h) }

-- A step of the reader that sends nothing.
fetches :
    {n r : ℕ} {d : Dropper} {q : List Message} {pump : Worker}
    → Messages n d r q pump
    → (r' : ℕ) → r' ≤ r
    → Messages n d r' q pump
fetches k r' le = record { room = omega (arith, k.room, le); woken = k.woken }

pub sent_to_send :
    (m : Message) (output : List Bytes)
    → to_send (after_send m) output + 1 ≡ to_send (sending m) output
unfolding after_send to_send
sent_to_send (bytes b) output = omega arith
sent_to_send eof output = omega arith

pub step-Messages :
    (c : Setting) {s t : Shutdown} → DropStep c s t → MessagesOf c s → MessagesOf c t
unfolding nudge to_send
step-Messages c (lowers e) k =
    passes k lowered (omega (arith, ap to_nudge e)) (λ h. absurd (omega (arith, h)))
step-Messages c (terminates e) k =
    passes k killed (omega (arith, ap to_nudge e)) (λ h. absurd (omega (arith, h)))
step-Messages c {s} (nudges e) k =
    let fits : length s.channel < c.capacity = omega (arith, k.room, ap to_nudge e) in
    let same = try_send-room c.capacity eof s.channel fits in
    record {
      room = rw same (omega (arith, k.room, ap to_nudge e, length-append s.channel (eof ∷ [])));
      woken = λ h w. rw same (has_eof-last s.channel);
    }
step-Messages c (tells_writer e) k =
    passes k told_writer (omega (arith, ap to_nudge e)) (λ h. omega (arith, ap dropper_work e))
step-Messages c (joins_writer e w) k =
    passes k writer_gone (omega (arith, ap to_nudge e)) (λ h. omega (arith, ap dropper_work e))
step-Messages c (releases e) k =
    passes k released (omega (arith, ap to_nudge e)) (λ h. omega (arith, ap dropper_work e))
step-Messages c (joins_pump e w) k =
    passes k pump_joined (omega (arith, ap to_nudge e)) (λ h. omega (arith, ap dropper_work e))
step-Messages c (joins_watcher e w) k =
    passes k watcher_joined (omega (arith, ap to_nudge e)) (λ h. omega (arith, ap dropper_work e))
step-Messages c (joins_reader e w) k =
    passes k freed (omega (arith, ap to_nudge e)) (λ h. omega (arith, ap dropper_work e))
step-Messages c (reads b rest e f) k = fetches k _ (rw (e, f) (omega arith))
step-Messages c (read_fails e f w) k = fetches k _ (rw (e, f) (omega arith))
step-Messages c {s} (sends m e w) k = record {
  room = omega (
    arith,
    k.room,
    sent_to_send m s.output,
    ap (λ r. to_send r s.output) e,
    length-append s.channel (m ∷ []),
  );
  woken = λ h w. has_eof-append s.channel (m ∷ []) (k.woken h w);
}
step-Messages c (takes_bytes b rest answers e f le) k = record {
  room = omega (arith, k.room, ap length f);
  woken = λ h w. sym (ap has_eof f) ∙ k.woken h w;
}
step-Messages c (takes_eof rest e f) k = record {
  room = omega (arith, k.room, ap length f);
  woken = λ h w. cc;
}
step-Messages c _ k = k
