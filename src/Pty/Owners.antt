-- ===== src/Pty/Owners.antt =====
-- rata_shell/src/pty/conpty.rs and rata_shell/src/io.rs: who owns a pipe end. Each I/O thread works on a copy
-- of the handle of `PtyHost`. A handle is a number that Windows gives out again once it was closed.
use scshell.Base.{
  ℕ, List, [], ◌∷◌, ◌++◌, Option, none, some, ◌≡◌, ◌≢◌, sym, ap, ◌∙◌, arith, All, All-append,
}
use scshell.Session.Family.{update}

-- What each handle value stands for in the process; a free value is `none`.
abbrev pub Table : Type 0
Table = ℕ → Option ℕ

-- `PipeHandle::duplicate`, where `DuplicateHandle` gives the value `d`.
unfoldable pub duplicate : (d v : ℕ) → Table → Table
duplicate d v table = update table d (table v)

-- `Drop for PipeHandle`
unfoldable pub close_handle : ℕ → Table → Table
close_handle v table = update table v none

-- `host` is the value that `PtyHost` owns, `copy` that of a thread. `touched` has what each `ReadFile` or
-- `WriteFile` of the thread went to.
pub record PipeUse : Type 0 where
  pub table : Table
  pub host : Option ℕ
  pub copy : Option ℕ
  pub touched : List (Option ℕ)

-- One step of the host, of the thread, or of whatever else opens and closes handles in the process.
pub data PipeStep (s : PipeUse) : PipeUse → Type 0 where
  duplicates :
      (d v : ℕ)
      → s.host ≡ some v
      → s.copy ≡ none
      → s.table d ≡ none
      → PipeStep s (record s { table = duplicate d v s.table; copy = some d })
  drops_host :
      (v : ℕ)
      → s.host ≡ some v
      → PipeStep s (record s { table = close_handle v s.table; host = none })
  works :
      (d : ℕ) → s.copy ≡ some d → PipeStep s (record s { touched = s.touched ++ s.table d ∷ [] })
  ends :
      (d : ℕ)
      → s.copy ≡ some d
      → PipeStep s (record s { table = close_handle d s.table; copy = none })
  others_open :
      (u o : ℕ) → s.table u ≡ none → PipeStep s (record s { table = update s.table u (some o) })
  others_close :
      (u : ℕ)
      → s.host ≢ some u
      → s.copy ≢ some u
      → PipeStep s (record s { table = close_handle u s.table })

-- A host that owns value `v` of the pipe, and no thread yet.
abbrev pub owned : Table → ℕ → PipeUse
owned table v = record { table = table; host = some v; copy = none; touched = [] }

pub data PipeReach (table : Table) (v : ℕ) : PipeUse → Type 0 where
  begin : PipeReach table v (owned table v)
  later : {s t : PipeUse} → PipeReach table v s → PipeStep s t → PipeReach table v t

-- Both values stand for the pipe, and are not the same.
record IsOwned (pipe : ℕ) (s : PipeUse) : Type 0 where
  by_host : (v : ℕ) → s.host ≡ some v → s.table v ≡ some pipe
  by_thread : (d : ℕ) → s.copy ≡ some d → s.table d ≡ some pipe
  apart : (v d : ℕ) → s.host ≡ some v → s.copy ≡ some d → v ≢ d
  only_pipe : All (λ o. o ≡ some pipe) s.touched

update_at : (table : Table) (d w : ℕ) (o : Option ℕ) → d ≡ w → update table d o w ≡ o
update_at table d w o e = ground (arith, e)

kept_value :
    (table : Table) (i w pipe : ℕ) (o : Option ℕ)
    → i ≢ w
    → table w ≡ some pipe
    → update table i o w ≡ some pipe
kept_value table i w pipe o ne e = ground (arith, ne)

-- A free value is not one that stands for the pipe.
free_other : (table : Table) (u w pipe : ℕ) → table u ≡ none → table w ≡ some pipe → u ≢ w
free_other table u w pipe e f same = let both : none ≡ some pipe = sym e ∙ ap table same ∙ f in cc

some_eq : (a b : ℕ) → some a ≡ some b → a ≡ b
some_eq a b e = cc

step-IsOwned : (pipe : ℕ) {s t : PipeUse} → PipeStep s t → IsOwned pipe s → IsOwned pipe t
unfolding duplicate close_handle
step-IsOwned pipe {s} (duplicates d v e f g) k = record {
  by_host = λ w h.
      kept_value s.table d w pipe (s.table v) (free_other s.table d w pipe g (k.by_host w h))
        (k.by_host w h);
  by_thread = λ w h. update_at s.table d w (s.table v) (some_eq d w h) ∙ k.by_host v e;
  apart = λ x w h j same. free_other s.table d x pipe g (k.by_host x h) (some_eq d w j ∙ sym same);
  only_pipe = k.only_pipe;
}
step-IsOwned pipe {s} (drops_host v e) k = record {
  by_host = λ w h. cc;
  by_thread = λ w h. kept_value s.table v w pipe none (k.apart v w e h) (k.by_thread w h);
  apart = λ x w h. cc;
  only_pipe = k.only_pipe;
}
step-IsOwned pipe {s} (works d e) k = record {
  by_host = k.by_host;
  by_thread = k.by_thread;
  apart = k.apart;
  only_pipe =
      All-append (λ o. o ≡ some pipe) s.touched (s.table d ∷ []) k.only_pipe (k.by_thread d e, tt);
}
step-IsOwned pipe {s} (ends d e) k = record {
  by_host =
      λ w h. kept_value s.table d w pipe none (λ same. k.apart w d h e (sym same)) (k.by_host w h);
  by_thread = λ w h. cc;
  apart = λ x w h j. cc;
  only_pipe = k.only_pipe;
}
step-IsOwned pipe {s} (others_open u o e) k = record {
  by_host = λ w h.
      kept_value s.table u w pipe (some o) (free_other s.table u w pipe e (k.by_host w h))
        (k.by_host w h);
  by_thread = λ w h.
      kept_value s.table u w pipe (some o) (free_other s.table u w pipe e (k.by_thread w h))
        (k.by_thread w h);
  apart = k.apart;
  only_pipe = k.only_pipe;
}
step-IsOwned pipe {s} (others_close u e f) k = record {
  by_host =
      λ w h. kept_value s.table u w pipe none (λ same. e (h ∙ ap some (sym same))) (k.by_host w h);
  by_thread = λ w h.
      kept_value s.table u w pipe none (λ same. f (h ∙ ap some (sym same))) (k.by_thread w h);
  apart = k.apart;
  only_pipe = k.only_pipe;
}

reach-IsOwned :
    (pipe : ℕ) (table : Table) (v : ℕ) {s : PipeUse}
    → table v ≡ some pipe
    → PipeReach table v s
    → IsOwned pipe s
reach-IsOwned pipe table v e begin = record {
  by_host = λ u h. ap table (sym (some_eq v u h)) ∙ e;
  by_thread = λ d h. cc;
  apart = λ u d h k. cc;
  only_pipe = tt;
}
reach-IsOwned pipe table v e (later r st) = step-IsOwned pipe st (reach-IsOwned pipe table v e r)

-- In every interleaving of the host, a thread on its pipe, and whatever else opens and closes handles of its
-- own, with every closed value free to be given out again: whatever the thread reads or writes is that
-- pipe, also once the host has closed its handle and the value stands for something else.
pub works_on_pipe :
    (pipe : ℕ) (table : Table) (v : ℕ) {s : PipeUse}
    → table v ≡ some pipe
    → PipeReach table v s
    → All (λ o. o ≡ some pipe) s.touched
works_on_pipe pipe table v e r = (reach-IsOwned pipe table v e r).only_pipe
