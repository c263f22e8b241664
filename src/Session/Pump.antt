-- ===== src/Session/Pump.antt =====
-- rata_shell/src/session.rs: the loop of the pump over the messages of the reader. How many messages
-- the drain of a round finds in the channel is a parameter.
pub mod Delivery
use scshell.Base.{ℕ, zero, suc, Bool, true, false, List, [], ◌∷◌, ◌++◌, Bytes}

-- `IoEvent`
pub data Message : Type 0 where
  bytes : Bytes → Message
  eof : Message

-- What the pump does: `t.advance(&buf)`, the loop over `drain_events`, a frame, and the block under `if
-- saw_eof` behind its last frame.
pub data Act : Type 0 where
  feed : Bytes → Act
  dispatch draw take_code : Act

-- The inner loop on `try_recv`: the calls, `saw_eof`, and what stays in the channel.
unfoldable pub drain : ℕ → List Message → List Act × Bool × List Message
drain zero q = ([], false, q)
drain (suc n) [] = ([], false, [])
drain (suc n) (bytes more ∷ q) =
    let (acts, saw_eof, rest) = drain n q in (feed more ∷ acts, saw_eof, rest)
drain (suc n) (eof ∷ q) = ([], true, q)

-- A round that has received a buffer, once the channel is drained; `next` is the round after it.
abbrev pub finish_round :
    Bytes → List Act × Bool × List Message → (List Message → List Act) → List Act
finish_round buf (acts, saw_eof, rest) next =
    feed buf
    ∷ (acts ++ dispatch ∷ draw ∷ elim saw_eof [ true ↦ draw ∷ take_code ∷ [] | false ↦ next rest ])

-- The outer loop on `recv`, for `fuel` rounds at most; with an empty queue the channel is cut.
unfoldable pub pump : (fuel : ℕ) → (available : ℕ → ℕ) → List Message → List Act
pump zero available q = []
pump (suc n) available [] = []
pump (suc n) available (bytes buf ∷ q) =
    finish_round buf (drain (available n) q) (λ rest. pump n available rest)
pump (suc n) available (eof ∷ q) = draw ∷ take_code ∷ []
