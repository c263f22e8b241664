-- ===== src/Pty/Spawn.antt =====
-- Which handles are open after `spawn`, on every branch, and after the drop.
use scshell.Base.{ℕ, true, Option, none, some, ◌≡◌, ◌≢◌, ap, ◌∙◌, arith}
use scshell.Pty.{
  Os, PtyHost, Outcome, ok, os_error, Held, none_held, acquire, release, kill, launch, spawn,
  drop_host,
}

-- What a `PtyHost` owns, with its child in the job.
abbrev pub owned : Held
owned = record none_held {
  in_write_open = true;
  out_read_open = true;
  console_open = true;
  attr_list_open = true;
  job_open = true;
  process_open = true;
  thread_open = true;
  child_runs = true;
  child_in_job = true;
}

-- The first call that fails.
pub data Failure : Type 0 where
  pipe_in pipe_out pseudo_console init_list update_list : Failure
  create_job limit_job create_process assign_job : Failure

abbrev pub or_else : Option ℕ → Failure → Option (Failure × ℕ) → Option (Failure × ℕ)
or_else none f later = later
or_else (some e) f later = some (f, e)

abbrev pub first_failure : Os → Option (Failure × ℕ)
first_failure os = or_else os.pipe_in pipe_in (
    or_else os.pipe_out pipe_out (
      or_else os.pseudo_console pseudo_console (
        or_else os.init_list init_list (
          or_else os.update_list update_list (
            or_else os.create_job create_job (
              or_else os.limit_job limit_job (
                or_else os.create_process create_process
                  (or_else os.assign_job assign_job none))))))))

-- What is still open after each failure.
abbrev pub leaked : Failure → Held
leaked pipe_out = record none_held { in_read_open = true; in_write_open = true }
leaked pseudo_console = record none_held {
  in_read_open = true;
  in_write_open = true;
  out_read_open = true;
  out_write_open = true;
}
leaked create_job = record none_held {
  in_write_open = true;
  out_read_open = true;
  console_open = true;
  attr_list_open = true;
}
leaked limit_job = record none_held {
  in_write_open = true;
  out_read_open = true;
  console_open = true;
  attr_list_open = true;
  job_open = true;
}
leaked _ = none_held

abbrev pub result_of : Os → Option (Failure × ℕ) → Outcome PtyHost × Held
result_of os none = (ok (record { attr_len = os.attr_size }), owned)
result_of os (some (f, e)) = (os_error e, leaked f)

-- Every answer of Windows: `spawn` stops at the first call that fails and returns its error, it never
-- closes what is not open, and what stays open is nothing or what `leaked` lists; with no failure it
-- owns the seven handles of a `PtyHost`, and the child runs in the job.
pub spawn_outcome : (os : Os) → spawn os none_held ≡ result_of os (first_failure os)
unfolding spawn acquire release launch kill
spawn_outcome os = ground arith

-- With no failure, and a list of positive size, the drop of the `PtyHost` closes every handle that is
-- open, each once, and ends the child.
pub spawn-drop_host :
    (os : Os)
    → first_failure os ≡ none
    → os.attr_size ≢ 0
    → (host : PtyHost) × (h : Held) × (spawn os none_held ≡ (ok host, h))
      × (drop_host host h ≡ none_held)
unfolding drop_host release
spawn-drop_host os f size = (
  record { attr_len = os.attr_size },
  owned,
  spawn_outcome os ∙ ap (result_of os) f,
  ground arith,
)
