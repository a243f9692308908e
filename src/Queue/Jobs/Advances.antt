-- ===== src/Queue/Jobs/Advances.antt =====
-- Jobs come and go, and tasks only move on.
use eh_bot.Prelude.{
  ℕ, suc, refl, not, ◌&&◌, Bool, Option, none, some, arith, nat_Eq, IfOk, returned, IfOk-bind,
  IfOk-refuse_if, if-cases, Text,
}
use eh_bot.Prelude.Dict
use eh_bot.Downloads.{stopping}
use eh_bot.Queue.{
  Job, Params, OperationStatus, Store, replace_account, aborted, identity_changing,
  removal_not_confirmed, active_record_not_removable, is_listed, is_running, is_terminal, is_open,
}
use eh_bot.Queue.Guards.{is_changing}
use eh_bot.Queue.Rows.{put_job, fresh_task, update_row}
use eh_bot.Queue.Rows.Later.{
  Advances, Advances-refl, Advances-trans, later-Advances, put_task-fresh, capture_pack-Advances,
  grown-Advances, operation-fresh, operation-Advances, same-Advances, update_job-Advances, Grows,
  SameOperation,
}
use eh_bot.Queue.Commands.{Snapshot, move_to}
use eh_bot.Queue.Commands.Advances.{open_operation-Advances}
use eh_bot.Queue.Jobs.{
  with_task, insert_job, is_being_removed, removed_task, deleted, delete_job, open_removal,
  request_replacement,
}
use eh_bot.Queue.Ending.{operation_error}

pub insert_job-Advances : (j : Job) (s : Store) → IfOk (λ q. Advances s q.1) (insert_job j s)
unfolding insert_job put_job
insert_job-Advances j s =
    IfOk-refuse_if (is_running j.state && is_listed j.candidate_id s.blocked)
      (aborted removal_not_confirmed)
      λ free. IfOk-refuse_if (is_changing j s) (aborted identity_changing) λ stable.
        let s1 = record s { fresh = suc s.fresh } in
        let j' = with_task j (suc s.fresh) in
        IfOk-bind (put_task-fresh (fresh_task s.fresh j' 1) s.fresh j' s1) λ s' a. returned (
          Advances-trans s s1 _ (later-Advances s s1 refl refl refl (omega arith))
            (Advances-trans s1 s' _ a (capture_pack-Advances (suc s.fresh) j.provider s')))

removed_task-Advances :
    (task_id job_id : ℕ) (s : Store)
    → Advances s (record s {
      jobs = Dict.pop job_id s.jobs;
      tasks = update_row task_id removed_task s.tasks;
    })
unfolding removed_task
removed_task-Advances task_id job_id s =
    let s1 = record s { jobs = Dict.pop job_id s.jobs } in
    Advances-trans s s1 _ (same-Advances s s1 refl refl refl refl)
      (grown-Advances task_id removed_task s1 (λ t. unfold Grows in (omega arith, omega arith)))

pub delete_job-Advances :
    (pending : ℕ → Bool) (job_id : ℕ) (s : Store) → IfOk (Advances s) (delete_job pending job_id s)
unfolding delete_job
delete_job-Advances pending job_id s = by_row (Dict.lookup job_id s.jobs)
  where
    by_row : (o : Option Job) → IfOk (Advances s) (deleted pending job_id s o)
    by_row none = returned (Advances-refl s)
    by_row (some j) =
        IfOk-refuse_if
          (not (is_terminal j.state)
            && not (is_being_removed pending j.task_id job_id s.operations))
          (aborted active_record_not_removable)
          λ free. returned (removed_task-Advances j.task_id job_id s)

pub open_removal-Advances :
    (job_id : ℕ) (j : Job) (attempt_id : Option ℕ) (generation : ℕ) (params : Params)
    (status : OperationStatus) (s : Store)
    → Advances s (open_removal job_id j attempt_id generation params status s)
unfolding open_removal
open_removal-Advances job_id j attempt_id generation params status s = operation-fresh _ s

pub request_replacement-Advances :
    (job_id : ℕ) (j : Job) (current : Snapshot) (params : Params) (s : Store)
    → IfOk (λ q. Advances s q.1) (request_replacement job_id j current params s)
unfolding request_replacement
request_replacement-Advances job_id j current params s =
    IfOk-bind (open_operation-Advances job_id j replace_account current params s) λ p a.
      IfOk-bind (update_job-Advances job_id (move_to stopping) p.1)
        λ s'' b. returned (Advances-trans s p.1 s'' a b)

pub operation_error-Advances :
    (id : ℕ) (code : Text) (s : Store) → Advances s (operation_error id code s)
unfolding operation_error
operation_error-Advances id code s = operation-Advances id _ s λ o.
    unfold SameOperation in
    if-cases (SameOperation o) (is_open o) (λ e. (refl, refl, refl, refl))
      (λ e. (refl, refl, refl, refl))
