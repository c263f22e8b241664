-- ===== src/Tests/Handles.antt =====
-- The handles of the pseudo console.
use scshell.Session.Family.{update}
use scshell.Pty.Owners.{
  Table, PipeUse, PipeReach, begin, later, duplicates, drops_host, works, others_open, duplicate,
  close_handle, works_on_pipe,
}
use scshell.Base.{All, none, some, ◌≡◌, refl, arith, true}
use scshell.Pty.{Os, PtyHost, ok, os_error, Held, none_held, spawn, drop_host}
use scshell.Pty.Spawn.{first_failure, result_of, spawn_outcome, spawn-drop_host}

-- Every call succeeds.
abbrev fine : Os
fine = record {
  pipe_in = none;
  pipe_out = none;
  pseudo_console = none;
  attr_size = 48;
  init_list = none;
  update_list = none;
  create_job = none;
  limit_job = none;
  create_process = none;
  assign_job = none;
}

-- `CreateJobObjectW` fails.
abbrev no_job : Os
no_job = record fine { create_job = some 5 }

spawn_outcome_example : spawn no_job none_held ≡ result_of no_job (first_failure no_job)
spawn_outcome_example = spawn_outcome no_job

-- The console, both pipe ends and the attribute list stay open.
job_leak : spawn no_job none_held ≡ (
  os_error 5,
  record none_held {
    in_write_open = true;
    out_read_open = true;
    console_open = true;
    attr_list_open = true;
  },
)
job_leak = spawn_outcome no_job

spawn-drop_host_example :
    (host : PtyHost) × (h : Held) × (spawn fine none_held ≡ (ok host, h))
    × (drop_host host h ≡ none_held)
spawn-drop_host_example = spawn-drop_host fine refl (omega arith)

-- Value 4 is the host's end of pipe 9. The thread has a copy in 5; the host closes 4, which then stands for
-- object 7; the thread works on.
abbrev pipe_table : Table
pipe_table = update (λ value. none) 4 (some 9)

freed_value : close_handle 4 (duplicate 5 4 pipe_table) 4 ≡ none
unfolding close_handle duplicate
freed_value = refl

abbrev reused : (s : PipeUse) × PipeReach pipe_table 4 s
reused = (
  _,
  later
      (later (later (later begin (duplicates 5 4 refl refl refl)) (drops_host 4 refl))
        (others_open 4 7 freed_value))
      (works 5 refl),
)

works_on_pipe_example : All (λ o. o ≡ some 9) reused.0.touched
works_on_pipe_example = works_on_pipe 9 pipe_table 4 refl reused.1
