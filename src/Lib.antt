-- ===== src/Lib.antt =====
-- SCShell: a terminal for Windows programs. A session starts a shell behind a pseudo console, feeds
-- its output to a terminal emulator (alacritty_terminal), and tells a host through callbacks which
-- rows of the screen to paint anew and when the shell has ended. This library is about the Rust
-- crate, rata_shell.
--
-- The parts, and the files that model them (paths from the root of the repository):
--   Osc7, Uri, Utf8   rata_shell/src/term.rs. `TermHost::advance` reads every byte of the output with
--     `scan_osc7` (`scan_osc7`, arm by arm in `scan_in`), which picks the working directory out of
--     the reports of the shell; `handle_osc7_url` is `cwd_of_url`, and `percent_decode` and `hash_uri`
--     keep their names. A string is the list of its bytes. Utf8 models `String::from_utf8_lossy`.
--   Color, Cell   rata_shell/src/term.rs. `convert_cell`, `convert_color`, `named_color` and `xterm256`
--     keep their names. Cells and colors of alacritty_terminal are data of these files.
--   Backend   rata_shell/src/render/backend.rs. `HostBackend::snapshot` is `next_frame`, with the size
--     and the cells that `TermHost::snapshot` has read as arguments; `coalesce` and `cells_eq` keep
--     their names. `sort_by_key` is a stable insertion sort. A slice out of range is `none`.
--   Term   rata_shell/src/term.rs. `TermHost` with `new`, `resize`, `advance`, `drain_events`, `mode_flags`
--     and `snapshot` under their names, over an `Emulator`, which stands for alacritty_terminal: a state
--     with the calls that the source makes, and the `View` that it reads (Term/Alacritty). The queue of the
--     listener is a field of `TermHost`. `render` is `HostBackend::snapshot` on a terminal. Term/Play has
--     sequences of output, sizes and frames. Term/Search is `search_next`, in the steps `with_pattern`,
--     `find` and `show_match`; Term/Gestures has scrolling, the selection and vi mode.
--   Keymap, Decimal   rata_shell/src/keymap.rs. `encode`, `modparam` and `f_key` keep their names;
--     Decimal prints the numbers of `format!`.
--   Pty   rata_shell/src/pty/conpty.rs and rata_shell/src/pty/job.rs. `PtyHost::spawn` is `spawn`, in
--     a small monad: a set of open handles, and an error that ends the function. `Os` has the answer
--     of each call to Windows. Pty/Owners has the copies of the pipe handles that the threads own.
--   Session   rata_shell/src/session.rs. `start`, the pump, the watcher and `drop` are the steps of
--     `Step` on what the threads share; a run is a sequence of such steps, in any order, with any number
--     of host threads in `start`.
--     Session/Pump has the message loop of the pump. Session/Calls has the methods of `Session` that a
--     host calls, under their names, as functions on a session: the reply, the session behind it, and
--     the callbacks and calls of Windows on the way. `pump_round` and `pump_end` are what the pump does
--     between two calls. Session/Calls/Requests runs them in any order.
--   Env   rata_shell/src/session.rs. `default_env_with_terminfo` and `upsert` keep their names; a string
--     is the list of its `char`s here, and the variables of the process are an argument.
--   Error   rata_shell/src/error.rs. Every function under its name; the last errors are a value.
--     Session/Shutdown is `drop` once more, with everything that can wait: `DropStep` has a step of each
--     thread, which is not there while the thread is blocked. Session/Race has the frames of several threads,
--     each made under the locks and handed to the host behind them.
--   Listener   rata_shell/src/listener.rs. The sinks of the terminals by their addresses; `EventSink::new`,
--     `drain` and `send_event` are functions on them. Listener/Terminal has the queue of a terminal.
--   Log   rata_shell/src/log.rs, and `rata_init` and `init_logging` of rata_shell/src/ffi.rs under their names.
--     A log is the path of the open file and what was written; `World` has the answers of Windows.
--   Io   rata_shell/src/io.rs. The loops of the two threads, `reader` and `writer`, as functions of what
--     `ReadFile` and the channels give. Io/Posted tells from the requests what the writer is to be sent.
--     Io/Acts runs what the pump then does on a
--     session.
--   Ffi   rata_shell/src/ffi.rs. `copy_out` is the copying that `rata_last_error_message` and the functions
--     for text share; `rata_session_get_cwd` is `get_cwd`, and so on. A buffer is a list of bytes.
--     Ffi/Options is what `rata_session_create` makes of its options. Ffi/Memory has handles, the sessions
--     that they point to, `session_from`, create and destroy; Ffi/Exports the other functions under their
--     names; Ffi/Sequences calls them in any order, on any threads. Ffi/Events has the structures of C that a
--     frame is copied into, with the memory that they point to.
--   Base   The tests, lists and bits that the parts share. Tests   The witnesses and other examples.
-- The reader hands output to the pump, which feeds the terminal and draws frames by Cell, Color and Backend;
-- the methods of a session change the terminal, send what Keymap encodes to the writer and draw frames; the
-- exports find the session behind a handle and call its methods. A session spawns and drops the handles
-- of Pty.
--
-- Bounds: machine words are natural numbers with their wrap-around written out. `y * cols + cols` of a
-- frame is a `usize`, which holds any product of two `u16`. Every loop is by recursion on its list or on
-- its number of rows; only the loop of the pump has fuel, for which one round more than there are chunks
-- is enough.
--
-- The lines of the grid are `i32` in the source; a display offset is far below 2 ^ 31.
--
-- Assumed: the scroll of alacritty stays within the history, its matches inside the grid, and its answers
-- are not empty, each where a theorem names it.
--
-- In Session/Shutdown the capacity of the channel is a parameter (64 in the source), as are the number of
-- answers of the terminal to one buffer and whether the console closes its end of the pipe with the child.
-- `ClosePseudoConsole` and `WriteFile` are taken to return. The allocator gives out free memory, also such
-- as was freed before, where a theorem names it; to read memory that was freed is a fault of the host. The
-- width of a number in a structure of C is that of the field that it is copied from.
--
-- Not modelled: the emulator itself; the version and `rata_shutdown`, a constant and a function that does
-- nothing; the panics of a thread that cannot be spawned; `dll_dir`, which only asks Windows; writes to the
-- log that fail; the Delphi control; the waiting for mutexes: no thread of a session takes one that is held across a wait.
pub mod Base
pub mod Utf8
pub mod Uri
pub mod Osc7
pub mod Color
pub mod Cell
pub mod Backend
pub mod Term
pub mod Decimal
pub mod Keymap
pub mod Pty
pub mod Listener
pub mod Session
pub mod Env
pub mod Error
pub mod Log
pub mod Io
pub mod Ffi
pub mod Tests
