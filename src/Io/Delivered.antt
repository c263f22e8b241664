-- ===== src/Io/Delivered.antt =====
-- From the pipe to the terminal: the reader, the channel and the pump.
use scshell.Base.{
  ℕ, ◌<◌, true, List, [], ◌∷◌, Option, none, some, ◌≡◌, refl, ap, Bytes, length, All,
}
use scshell.Session.Pump.{bytes, pump}
use scshell.Session.Pump.Delivery.{Delivered, channel, pump-Delivered}
use scshell.Io.{Round, send, reader}

-- Not the end of the output.
abbrev pub IsChunk : Bytes → Type 0
IsChunk [] = ⊥
IsChunk (b ∷ buf) = Unit

-- A read that `ReadFile` ends the output with.
pub data IsLast : Option Bytes → Type 0 where
  failed : IsLast none
  nothing_read : IsLast (some [])

-- What `ReadFile` gives while the pump receives.
abbrev pub reads : List Bytes → Option Bytes → List Round → List Round
reads [] last others = record { read = last; has_receiver = true } ∷ others
reads (c ∷ chunks) last others =
    record { read = some c; has_receiver = true } ∷ reads chunks last others

reader-reads :
    (chunks : List Bytes) (last : Option Bytes) (others : List Round)
    → All IsChunk chunks
    → IsLast last
    → reader (reads chunks last others) ≡ channel chunks []
unfolding reader send
reader-reads [] none others h k = refl
reader-reads [] (some []) others h k = refl
reader-reads [] (some (b ∷ buf)) others h k = elim k [ ]
reader-reads ([] ∷ chunks) last others (h, hs) k = absurd h
reader-reads ((b ∷ buf) ∷ chunks) last others (h, hs) k =
    ap (◌∷◌ (bytes (b ∷ buf))) (reader-reads chunks last others hs k)

-- Whatever chunks `ReadFile` gives, none of them empty, before it fails or reads nothing, and however many
-- messages each drain of the channel finds: the terminal is fed those chunks in order and once, and then
-- the end is handled, once; one round of the pump more than there are chunks is fuel enough.
pub pump-reader :
    (fuel : ℕ) (available : ℕ → ℕ) (chunks : List Bytes) (last : Option Bytes) (others : List Round)
    → All IsChunk chunks
    → IsLast last
    → length chunks < fuel
    → Delivered chunks (pump fuel available (reader (reads chunks last others)))
pump-reader fuel available chunks last others h k enough =
    rw (reader-reads chunks last others h k) (pump-Delivered fuel available chunks [] enough)
