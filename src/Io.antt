-- ===== src/Io.antt =====
-- rata_shell/src/io.rs: the loops of the two threads on the pipes of the pseudo console. What Windows and
-- the channels answer is a parameter.
pub mod Delivered
pub mod Written
pub mod Sent
pub mod Posted
pub mod Wire
pub mod Pipe
pub mod Acts
pub mod Shown
use scshell.Base.{Bool, true, false, List, [], ◌∷◌, ◌++◌, Option, none, some, Bytes, if◌then◌else◌}
use scshell.Session.Pump.{Message, bytes, eof}

-- One round of the reader: what `ReadFile` gives, `none` being a failure, and whether the channel still
-- has a receiver.
pub record Round : Type 0 where
  pub read : Option Bytes
  pub has_receiver : Bool

-- `send`: the messages that get into the channel, and those that follow.
unfoldable pub send : Bool → Message → List Message → List Message
send true m rest = m ∷ rest
send false m rest = []

-- The reader: a failure, or a read of no byte, is the end of the output.
unfoldable pub reader : List Round → List Message
reader [] = []
reader (r ∷ rounds) =
    let more = reader rounds in
    elim r.read [
      | none ↦ send r.has_receiver eof []
      | some [] ↦ send r.has_receiver eof []
      | some (b ∷ buf) ↦ send r.has_receiver (bytes (b ∷ buf)) more
    ]

-- The writer: the buffers that go to `WriteFile`. An empty buffer ends it.
unfoldable pub writer : List Bytes → List Bytes
writer [] = []
writer ([] ∷ messages) = []
writer ((b ∷ buf) ∷ messages) = (b ∷ buf) ∷ writer messages

-- `Drop for WriterThread`: the sentinel behind what the channel has.
abbrev pub drop_writer : List Bytes → List Bytes
drop_writer messages = messages ++ [] ∷ []
