-- ===== src/Queue/Run/Moved.antt =====
-- A command that is carried out takes the task away from the revision that it was given for.
use mathlib.Core.Path.{subst}
use eh_bot.Prelude.{
  ℕ, suc, ◌<◌, ◌≡◌, refl, sym, ◌∙◌, ap, Bool, true, false, ◌&&◌, Option, none, some, ◌⊎◌, inl, inr,
  arith, ◌==◌, nat_Eq, IfOk, returned, IfOk-bind, IfOk-self, IfOk-refuse_if, if-cases,
}
use eh_bot.Prelude.Dict
use eh_bot.Downloads.{Provider}
use eh_bot.Queue.{
  Job, Task, Store, aborted, work_slot_occupied, state_eq, is_running, is_queued, is_terminal,
  is_conversion,
}
use eh_bot.Queue.Guards.{guards}
use eh_bot.Queue.Rows.{
  put_task, takes_slot, holds_slot, mirrored_task, mirror, claim_if, after, is_renewal, written,
  update_job, put_job, renew, capture_pack, fresh_task, set_columns, update_row, change,
}
use eh_bot.Queue.Commands.{bump_revision}

-- A task of a later revision than the one given.
pub record IsRevised (revision : ℕ) (o : Option Task) : Type 0 where
  pub task : Task
  pub kept : o ≡ some task
  pub later : revision < task.revision

-- The job has another task, or its task a later revision.
pub record IsMoved (job_id task_id revision : ℕ) (s : Store) : Type 0 where
  pub job : Job
  pub found : Dict.lookup job_id s.jobs ≡ some job
  pub moved : ((job.task_id == task_id) ≡ false) ⊎ IsRevised revision (Dict.lookup task_id s.tasks)

put_task-IsMoved :
    (job_id id revision : ℕ) (j : Job) (t : Task) (s : Store)
    → Dict.lookup job_id s.jobs ≡ some j
    → revision < t.revision
    → IfOk (IsMoved job_id id revision) (put_task id t s)
unfolding put_task
put_task-IsMoved job_id id revision j t s e l =
    IfOk-refuse_if (takes_slot t && holds_slot id t.candidate_id s.tasks)
      (aborted work_slot_occupied)
      λ free. returned (record {
        job = j;
        found = e;
        moved = inr (record { task = t; kept = Dict.lookup-set_self id t s.tasks; later = l });
      })

capture_pack-jobs :
    (task_id : ℕ) (p : Provider) (s : Store) → (capture_pack task_id p s).jobs ≡ s.jobs
unfolding capture_pack
capture_pack-jobs task_id p s =
    if-cases (λ (u : Store). u.jobs ≡ s.jobs) (is_conversion p) (λ e. refl) (λ e. refl)

renew-IsMoved :
    (job_id task_id revision : ℕ) (new : Job) (s : Store) (o : Option Task)
    → Dict.lookup job_id s.jobs ≡ some new
    → (new.task_id == task_id) ≡ false
    → IfOk (IsMoved job_id task_id revision) (renew job_id new s o)
unfolding renew put_task
renew-IsMoved job_id task_id revision new s none e other =
    returned (record { job = new; found = e; moved = inl other })
renew-IsMoved job_id task_id revision new s (some t) e other =
    IfOk-bind
      (IfOk-refuse_if {P = λ u. u.jobs ≡ s.jobs}
        (takes_slot (fresh_task job_id new (suc t.generation))
          && holds_slot new.task_id new.candidate_id s.tasks)
        (aborted work_slot_occupied) λ free. returned refl)
      λ s' k. returned (record {
        job = new;
        found =
            ap (λ d. Dict.lookup job_id d) (capture_pack-jobs new.task_id new.provider s' ∙ k) ∙ e;
        moved = inl other;
      })

-- A write that puts the job into another state that is not running, and keeps its task.
pub record IsMoving (f : Job → Job) (j : Job) : Type 0 where
  pub changed : state_eq j.state (f j).state ≡ false
  pub idle : is_running (f j).state ≡ false
  pub identity : (f j).task_id ≡ j.task_id

after-IsMoved :
    (renewed : Bool) (job_id : ℕ) (old new : Job) (t : Task) (s : Store)
    → new.task_id ≡ old.task_id
    → Dict.lookup new.task_id s.tasks ≡ some t
    → new.task_id < s.fresh
    → state_eq old.state new.state ≡ false
    → is_running new.state ≡ false
    → IfOk (IsMoved job_id new.task_id t.revision) (after renewed job_id old new s)
unfolding after put_job claim_if mirror mirrored_task
after-IsMoved true job_id old new t s same e l c i =
    renew-IsMoved job_id new.task_id t.revision (record new { task_id = s.fresh }) _ _
      (Dict.lookup-set_self job_id _ s.jobs) (ground (arith, l))
after-IsMoved false job_id old new t s same e l c i =
    rw (e, i)
      (IfOk-bind
        (put_task-IsMoved job_id new.task_id t.revision new (mirrored_task old new t) _
          (Dict.lookup-set_self job_id new s.jobs) (rw c (omega arith)))
        λ s' m. returned m)

pub update_job-IsMoved :
    (job_id : ℕ) (f : Job → Job) (s : Store) (j : Job) (t : Task)
    → IsMoving f j
    → Dict.lookup job_id s.jobs ≡ some j
    → Dict.lookup j.task_id s.tasks ≡ some t
    → j.task_id < s.fresh
    → IfOk (IsMoved job_id j.task_id t.revision) (update_job job_id f s)
unfolding update_job written is_renewal
update_job-IsMoved job_id f s j t v ej et l = rw ej (
    IfOk-bind (IfOk-self (guards job_id j (f j) s)) λ u passed.
      subst
        (λ k.
          IfOk (IsMoved job_id k t.revision)
            (after (is_terminal j.state && is_queued (f j).state) job_id j (f j) s))
        v.identity
        (after-IsMoved (is_terminal j.state && is_queued (f j).state) job_id j (f j) t s v.identity
          (ap (λ k. Dict.lookup k s.tasks) v.identity ∙ et) (omega (arith, v.identity, l)) v.changed
          v.idle))

pub bump_revision-IsMoved :
    (job_id : ℕ) (j : Job) (t : Task) (s : Store)
    → Dict.lookup job_id s.jobs ≡ some j
    → Dict.lookup j.task_id s.tasks ≡ some t
    → IsMoved job_id j.task_id t.revision (bump_revision j.task_id s)
unfolding bump_revision update_row change
bump_revision-IsMoved job_id j t s ej et = record {
  job = j;
  found = ej;
  moved = inr (record {
    task = record t { revision = suc t.revision };
    kept = rw et (Dict.lookup-set_self j.task_id (record t { revision = suc t.revision }) s.tasks);
    later = omega arith;
  });
}

pub IsMoved-same :
    (job_id task_id revision : ℕ) (s s' : Store)
    → s'.jobs ≡ s.jobs
    → s'.tasks ≡ s.tasks
    → IsMoved job_id task_id revision s
    → IsMoved job_id task_id revision s'
IsMoved-same job_id task_id revision s s' same_jobs same_tasks m = record {
  job = m.job;
  found = ap (λ d. Dict.lookup job_id d) same_jobs ∙ m.found;
  moved =
      subst (λ d. ((m.job.task_id == task_id) ≡ false) ⊎ IsRevised revision (Dict.lookup task_id d))
        (sym same_tasks) m.moved;
}

pub set_columns-lookup :
    (job_id : ℕ) (f : Job → Job) (s : Store) (j : Job)
    → Dict.lookup job_id s.jobs ≡ some j
    → Dict.lookup job_id (set_columns job_id f s).jobs ≡ some (f j)
unfolding set_columns update_row change
set_columns-lookup job_id f s j e = rw e (Dict.lookup-set_self job_id (f j) s.jobs)
