-- ===== src/Tests/Exports.antt =====
-- A host that creates, uses and destroys sessions.
use scshell.Base.{map, ℕ, true, false, List, [], ◌∷◌, some, none, ◌≡◌, refl, arith, codes}
use scshell.Session.Calls as Calls
use scshell.Session.Calls.Requests.{gesture, request_render, scroll_to_top, resize}
use scshell.Env.{encode_utf16, encode_char}
use scshell.Utf8.{is_utf8}
use scshell.Env.Block.{read_from}
use scshell.Ffi.Environment.{joined, env_block-joined}
use scshell.Ffi.Options.{chars_from, env_block_to_utf16, RataSpawnOptions, spawn_options}
use scshell.Ffi.Memory.{rata_session_create, rata_session_destroy, checked, fault}
use scshell.Ffi.Sequences.{Call, create, destroy, invoke, call, run_calls}
use scshell.Ffi.Runs.{no_process, none_live, after_calls}
use scshell.Tests.Pager.{pager}

abbrev asked : RataSpawnOptions
asked = record {
  shell_path = some (codes "C:\\a b");
  shell_args = some (codes "-x");
  cwd = none;
  env = some (codes "A=1");
  cols = 0;
  rows = 2;
  scrollback = 0;
}

-- Thread 1 makes a session and resizes it, and thread 2 destroys it. The next session is put where it was, and
-- a third one elsewhere.
abbrev calls : List (ℕ × Call)
calls =
    (1, create (some asked) true 64)
    ∷ (1, invoke (some 64) (resize none 4 2))
    ∷ (2, destroy (some 64))
    ∷ (1, create (some asked) true 64)
    ∷ (1, invoke (some 64) (gesture scroll_to_top))
    ∷ (2, create (some asked) true 128)
    ∷ (1, invoke none request_render)
    ∷ (1, destroy none)
    ∷ (1, destroy (some 64))
    ∷ []

left_over : (after_calls none_live calls 64 ≡ false) × (after_calls none_live calls 128 ≡ true)
left_over = (refl, refl)

-- A handle that was destroyed.
abbrev stale : List (ℕ × Call)
stale = (1, create (some asked) true 64) ∷ (1, destroy (some 64)) ∷ (1, destroy (some 64)) ∷ []

-- The magic is read from memory that was freed.
stale_is_read : run_calls pager stale no_process ≡ fault
unfolding run_calls call rata_session_create rata_session_destroy checked Calls.drop_session
    Calls.new
stale_is_read = refl

-- The path is quoted, the sizes are at least 1, and the environment ends with two zeros.
asked_options : spawn_options asked ≡ record {
  cmdline = codes "\"C:\\a b\" -x";
  cwd = none;
  env_block = some (b'A' ∷ b'=' ∷ b'1' ∷ 0 ∷ 0 ∷ []);
  cols = 1;
  rows = 2;
  scrollback = 10000;
}
unfolding spawn_options encode_utf16 encode_char
asked_options = refl

-- `A=é` and `B=2`, the first with a letter of two bytes.
env_block-joined_example :
    read_from []
      (env_block_to_utf16 (b'A' ∷ b'=' ∷ 0xc3 ∷ 0xa9 ∷ 0 ∷ b'B' ∷ b'=' ∷ b'2' ∷ 0 ∷ 0 ∷ []))
    ≡ map encode_utf16 ((b'A' ∷ b'=' ∷ 0xe9 ∷ []) ∷ (b'B' ∷ b'=' ∷ b'2' ∷ []) ∷ [])
unfolding is_utf8 chars_from joined
env_block-joined_example =
    env_block-joined (b'A' ∷ b'=' ∷ 0xc3 ∷ 0xa9 ∷ 0 ∷ b'B' ∷ b'=' ∷ b'2' ∷ 0 ∷ 0 ∷ [])
      ((b'A' ∷ b'=' ∷ 0xe9 ∷ []) ∷ (b'B' ∷ b'=' ∷ b'2' ∷ []) ∷ []) 1 refl
      (
        (omega arith, (omega arith, (omega arith, tt))),
        ((omega arith, (omega arith, (omega arith, tt))), tt),
      )
      refl
