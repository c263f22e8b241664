-- ===== src/Pty/Handles.antt =====
-- The handles that `PtyHost::spawn` opens, and which of them are open.
use scshell.Base.{Bool, true, false, not, ◌||◌, if◌then◌else◌}

-- The ends of the two pipes, the pseudo console, the attribute list, the job, and the two handles
-- of the child.
pub data Resource : Type 0 where
  in_read in_write out_read out_write console attr_list job process thread : Resource

-- The open ones; whether the child runs, and whether it is in the job; whether one was closed that
-- was not open.
pub record Held : Type 0 where
  pub in_read_open : Bool
  pub in_write_open : Bool
  pub out_read_open : Bool
  pub out_write_open : Bool
  pub console_open : Bool
  pub attr_list_open : Bool
  pub job_open : Bool
  pub process_open : Bool
  pub thread_open : Bool
  pub child_runs : Bool
  pub child_in_job : Bool
  pub fault : Bool

abbrev pub none_held : Held
none_held = record {
  in_read_open = false;
  in_write_open = false;
  out_read_open = false;
  out_write_open = false;
  console_open = false;
  attr_list_open = false;
  job_open = false;
  process_open = false;
  thread_open = false;
  child_runs = false;
  child_in_job = false;
  fault = false;
}

unfoldable pub acquire : Resource → Held → Held
acquire in_read h = record h { in_read_open = true }
acquire in_write h = record h { in_write_open = true }
acquire out_read h = record h { out_read_open = true }
acquire out_write h = record h { out_write_open = true }
acquire console h = record h { console_open = true }
acquire attr_list h = record h { attr_list_open = true }
acquire job h = record h { job_open = true }
acquire process h = record h { process_open = true }
acquire thread h = record h { thread_open = true }

is_open : Resource → Held → Bool
is_open in_read h = h.in_read_open
is_open in_write h = h.in_write_open
is_open out_read h = h.out_read_open
is_open out_write h = h.out_write_open
is_open console h = h.console_open
is_open attr_list h = h.attr_list_open
is_open job h = h.job_open
is_open process h = h.process_open
is_open thread h = h.thread_open

-- To close the job ends what runs in it (`KILL_ON_JOB_CLOSE`).
shut : Resource → Held → Held
shut in_read h = record h { in_read_open = false }
shut in_write h = record h { in_write_open = false }
shut out_read h = record h { out_read_open = false }
shut out_write h = record h { out_write_open = false }
shut console h = record h { console_open = false }
shut attr_list h = record h { attr_list_open = false }
shut job h = record h {
  job_open = false;
  child_runs = if h.child_in_job then false else h.child_runs;
  child_in_job = false;
}
shut process h = record h { process_open = false }
shut thread h = record h { thread_open = false }

-- `CloseHandle`, `ClosePseudoConsole` or `DeleteProcThreadAttributeList`.
unfoldable pub release : Resource → Held → Held
unfolding is_open shut
release r h = shut r (record h { fault = h.fault || not (is_open r h) })

-- `CreateProcessW`, which starts the child, and `TerminateProcess`.
unfoldable pub launch : Held → Held
launch h = record h { child_runs = true; process_open = true; thread_open = true }

unfoldable pub kill : Held → Held
kill h = record h { child_runs = false }
