-- ===== src/Io/Written.antt =====
-- From the host to the pipe: the methods of a session, the channel and the writer.
use scshell.Base.{List, [], ◌∷◌, ◌≡◌, refl, ap, Bytes, All}
use scshell.Term.{Emulator, Event, title, clipboard_store, pty_write, reset_title, bell, other}
use scshell.Session.Calls.{Callbacks, dispatch_event, dispatch_events}
use scshell.Io.{writer, drop_writer}
use scshell.Io.Delivered.{IsChunk}

-- An answer of the terminal is not empty.
abbrev pub IsAnswer : Event → Type 0
IsAnswer (pty_write text) = IsChunk text
IsAnswer _ = Unit

-- The answers that alacritty sends are escape sequences.
pub record AnswerLaw {E : Type 0} (em : Emulator E) : Type 0 where
  pub answers : (e : E) (bytes : Bytes) → All IsAnswer (em.advance e bytes).1

-- The writer gives `WriteFile` all that was sent before the sentinel.
pub writer-drop_writer :
    (messages : List Bytes) → All IsChunk messages → writer (drop_writer messages) ≡ messages
unfolding writer
writer-drop_writer [] h = refl
writer-drop_writer ([] ∷ messages) (h, hs) = absurd h
writer-drop_writer ((b ∷ buf) ∷ messages) (h, hs) =
    ap (◌∷◌ (b ∷ buf)) (writer-drop_writer messages hs)

pub dispatch_events-answers :
    (cbs : Callbacks) (events : List Event)
    → All IsAnswer events
    → All IsChunk (dispatch_events cbs events).1
unfolding dispatch_events dispatch_event
dispatch_events-answers cbs [] h = tt
dispatch_events-answers cbs (title t ∷ events) (h, hs) = dispatch_events-answers cbs events hs
dispatch_events-answers cbs (reset_title ∷ events) (h, hs) = dispatch_events-answers cbs events hs
dispatch_events-answers cbs (bell ∷ events) (h, hs) = dispatch_events-answers cbs events hs
dispatch_events-answers cbs (clipboard_store t ∷ events) (h, hs) =
    dispatch_events-answers cbs events hs
dispatch_events-answers cbs (pty_write t ∷ events) (h, hs) =
    (h, dispatch_events-answers cbs events hs)
dispatch_events-answers cbs (other ∷ events) (h, hs) = dispatch_events-answers cbs events hs
