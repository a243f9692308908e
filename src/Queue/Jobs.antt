-- ===== src/Queue/Jobs.antt =====
-- What else is written to the tables of the queue: the jobs that the providers insert and those that are
-- deleted (triggers of app/db/migrations/027, 029 and 031), and the operations that only the program asks for.
pub mod Advances
use eh_bot.Prelude.{
  ℕ, suc, ◌+◌, Bool, true, false, not, ◌&&◌, ◌||◌, Option, none, some, [], ◌∷◌, ◌==◌, Result, ok,
  ◌>>=◌, ◌>>◌, refuse_if, nat_Eq,
}
use eh_bot.Prelude.Dict
use eh_bot.Prelude.Dict.{Dict}
use eh_bot.Downloads.{stopping}
use eh_bot.Queue.{
  Job, Task, removed, Action, remove, replace_account, Params, Operation, OperationStatus,
  is_failed, Store, Failure, aborted, identity_changing, removal_not_confirmed,
  active_record_not_removable, is_listed, is_running, is_terminal,
}
use eh_bot.Queue.Guards.{is_changing}
use eh_bot.Queue.Rows.{put_job, put_task, fresh_task, capture_pack, update_job, update_row}
use eh_bot.Queue.Commands.{Snapshot, open_operation, move_to}

abbrev with_task : Job → ℕ → Job
with_task j task_id = record j { task_id = task_id }

-- `INSERT INTO download_jobs …`, with queue_removal_insert_guard, ingest_reference_job_insert,
-- queue_job_insert and queue_pack_capture
unfoldable pub insert_job : Job → Store → Result Failure (ℕ × Store)
unfolding is_changing put_job put_task fresh_task capture_pack
insert_job j s = do
  refuse_if (is_running j.state && is_listed j.candidate_id s.blocked)
      (aborted removal_not_confirmed)
  refuse_if (is_changing j s) (aborted identity_changing)
  s' ←
      put_task (suc s.fresh) (fresh_task s.fresh (with_task j (suc s.fresh)) 1)
        (put_job s.fresh (with_task j (suc s.fresh)) (record s { fresh = suc (suc s.fresh) }))
  ok (s.fresh, capture_pack (suc s.fresh) j.provider s')

unfoldable pub is_for_removal : Action → Bool
is_for_removal remove = true
is_for_removal _ = false

unfoldable pub has_failed : OperationStatus → Bool
has_failed is_failed = true
has_failed _ = false

-- A removal of the job that has not failed, and is `pending` among the removals.
unfoldable pub is_being_removed : (ℕ → Bool) → ℕ → ℕ → Dict ℕ Operation → Bool
unfolding is_for_removal has_failed
is_being_removed pending task_id job_id [] = false
is_being_removed pending task_id job_id ((id, o) ∷ os) =
    o.task_id == task_id
      && o.job_id == job_id
      && is_for_removal o.action
      && not (has_failed o.status)
      && pending id
    || is_being_removed pending task_id job_id os

-- The task that a deleted job leaves behind (queue_job_delete).
unfoldable pub removed_task : Task → Task
removed_task t = record t {
  status = removed;
  revision = suc t.revision;
  generation = suc t.generation;
}

unfoldable pub deleted : (ℕ → Bool) → ℕ → Store → Option Job → Result Failure Store
unfolding is_being_removed removed_task
deleted pending job_id s none = ok s
deleted pending job_id s (some j) = do
  refuse_if
      (not (is_terminal j.state) && not (is_being_removed pending j.task_id job_id s.operations))
      (aborted active_record_not_removable)
  ok (record s { jobs = Dict.pop job_id s.jobs; tasks = update_row j.task_id removed_task s.tasks })

-- `DELETE FROM download_jobs WHERE id = ?`, with queue_active_delete_guard and queue_job_delete
unfoldable pub delete_job : (ℕ → Bool) → ℕ → Store → Result Failure Store
unfolding deleted
delete_job pending job_id s = deleted pending job_id s (Dict.lookup job_id s.jobs)

-- The operation of a removal, which is written without asking for an open one.
unfoldable pub open_removal : ℕ → Job → Option ℕ → ℕ → Params → OperationStatus → Store → Store
open_removal job_id j attempt_id generation params status s = record s {
  operations =
      Dict.set s.fresh
        (record {
          task_id = j.task_id;
          attempt_id = attempt_id;
          generation = generation;
          job_id = job_id;
          candidate_id = j.candidate_id;
          action = remove;
          params = params;
          resource = j.details;
          status = status;
          error_code = none;
        })
        s.operations;
  fresh = suc s.fresh;
}

-- `request_account_replacement`, with the pool of accounts and those that have been tried as `params`
unfoldable pub request_replacement :
    ℕ → Job → Snapshot → Params → Store → Result Failure (ℕ × Store)
unfolding open_operation move_to
request_replacement job_id j current params s = do
  (id, s') ← open_operation job_id j replace_account current params s
  s'' ← update_job job_id (move_to stopping) s'
  ok (id, s'')
