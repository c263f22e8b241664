-- ===== src/Io/Pipe.antt =====
-- A session from its start to the drop of its writer.
use scshell.Term.{TermHost, Event, ViMotion, SnapshotMeta, cursor_meta, snapshot}
use scshell.Term as Term
use scshell.Term.Search as Search
use scshell.Session.Calls.{Session, Action, dispatch_events}
use scshell.Session.Calls as Calls
