-- ===== src/Queue/Finish.antt =====
-- `QueueControl.finish_operation` and `operation_error` of app/downloads/queue.py: what happens once the
-- running execution has stopped.
pub mod Advances
pub mod Stuck
use eh_bot.Prelude.{
  ℕ, suc, ◌+◌, Bool, true, false, not, ◌&&◌, ◌||◌, Option, none, some, List, [], ◌∷◌, ◌==◌,
  if◌then◌else◌, Text, codes, Result, ok, err, ◌>>=◌, ◌>>◌, refuse_if, nat_Eq, text_Eq,
}
use eh_bot.Prelude.Dict
use eh_bot.Prelude.Dict.{Dict}
use eh_bot.Approval.{Status, approved, processing}
use eh_bot.Downloads.{
  JobState, pending, failed, cancelled, stopping, Provider, telegram, telegram_user, exhentai,
  telegraph, eh_torrent, conversion,
}
use eh_bot.Queue.{
  flag, Details, Job, TaskStatus, in_state, Task, Attempt, Action, pause, resume, retry, restart,
  cancel, switch_source, stop_seeding, remove, replace_account, set_priority, Operation, is_pending,
  is_completed, Work, Store, Failure, removal_not_committed, task_superseded, stop_state_changed,
  aborted, identity_changing, candidate_not_downloadable, missing_params, is_listed, is_open,
  is_terminal,
}
use eh_bot.Queue.Guards.{is_changing, same_id, is_requeue, is_restart}
use eh_bot.Queue.Rows.{
  update_job, update_row, set_columns, put_job, put_task, fresh_task, capture_pack,
}
use eh_bot.Queue.Jobs.{insert_job}
use eh_bot.Queue.Commands.{Snapshot, task_snapshot, move_to}
use eh_bot.Queue.Commands.Requeue.{approve_work, requested_pack, pack_of_job, reopened}
use eh_bot.Queue.Ending.{
  complete, completed_op, starts_again, effective, is_in, set_work, is_processing,
  finish_replacement, finish_removal,
}

unfoldable pub end_seeding : ℕ → Store → Result Failure Store
end_seeding job_id s =
    update_job job_id
      (λ j. record j { details = Dict.set (codes "seeding") (flag false) j.details }) s

unfoldable pub is_exhausted : Action → Operation → Bool
unfolding is_restart
is_exhausted action o = o.params.recovery_exhausted && is_restart action

-- The work after too many interruptions.
unfoldable pub finish_exhausted : ℕ → Operation → Store → Result Failure Store
unfolding complete move_to set_work is_processing
finish_exhausted id o s = do
  s' ← update_job o.job_id (move_to failed) (complete id s)
  let marked =
      set_columns o.job_id (λ j. record j { error_code = some (codes "WORKER_RECOVERY_EXHAUSTED") })
        s'
  ok (
      complete id (
        set_work is_processing Status.failed o.candidate_id marked
          (Dict.lookup o.candidate_id marked.works)))

unfoldable pub clear_to_pending : Job → Job
clear_to_pending j = record j { state = pending; details = []; error_code = none }

unfoldable pub provider_code : Provider → ℕ
provider_code telegram = 0
provider_code telegram_user = 1
provider_code exhentai = 2
provider_code telegraph = 3
provider_code eh_torrent = 4
provider_code conversion = 5

-- The job under the idempotency key of a provider and a candidate.
unfoldable pub job_of : Provider → ℕ → Dict ℕ Job → Option ℕ
unfolding provider_code
job_of p candidate_id [] = none
job_of p candidate_id ((id, j) ∷ js) =
    if provider_code j.provider == provider_code p && j.candidate_id == candidate_id
    then some id
    else job_of p candidate_id js

abbrev new_job : Provider → ℕ → ℕ → Job
new_job p candidate_id task_id = record {
  candidate_id = candidate_id;
  provider = p;
  state = pending;
  priority = 100;
  details = [];
  error_code = none;
  recovery_count = 0;
  task_id = task_id;
}

-- `INSERT … ON CONFLICT(idempotency_key) DO UPDATE`: the job and the tables. The BEFORE INSERT triggers
-- come before the conflict is seen.
unfoldable pub insert_or_reset : Option ℕ → Provider → ℕ → Store → Result Failure (ℕ × Store)
unfolding clear_to_pending insert_job is_changing
insert_or_reset (some job_id) p candidate_id s = do
  refuse_if (is_changing (new_job p candidate_id (suc s.fresh)) s) (aborted identity_changing)
  s' ← update_job job_id clear_to_pending s
  ok (job_id, s')
insert_or_reset none p candidate_id s = insert_job (new_job p candidate_id (suc s.fresh)) s

unfoldable pub switched : Option Provider → Operation → Store → Result Failure (ℕ × Store)
unfolding insert_or_reset job_of
switched none o s = err missing_params
switched (some p) o s = do
  refuse_if (not (is_listed o.candidate_id s.approvals)) candidate_not_downloadable
  insert_or_reset (job_of p o.candidate_id s.jobs) p o.candidate_id s

-- The job that takes over from the stopped one.
unfoldable pub successor : Action → Operation → Store → Result Failure (ℕ × Store)
unfolding switched clear_to_pending
successor switch_source o s = switched o.params.provider o s
successor _ o s = do s' ← update_job o.job_id clear_to_pending s; ok (o.job_id, s')

unfoldable pub start_again : ℕ → Action → Operation → Store → Result Failure Store
unfolding successor requested_pack pack_of_job approve_work reopened complete
start_again id action o s = do
  (job_id, s') ← successor action o s
  let packed =
      pack_of_job job_id (requested_pack o.params.pack_requested (Dict.lookup o.task_id s'.packs))
        s' (Dict.lookup job_id s'.jobs)
  ok (
      complete id
        (approve_work reopened o.candidate_id packed (Dict.lookup o.candidate_id packed.works)))

unfoldable pub finish_stopped : ℕ → Action → Operation → Store → Result Failure Store
unfolding move_to start_again starts_again complete
finish_stopped id action o s = do
  s' ← update_job o.job_id (move_to cancelled) s
  if starts_again action then start_again id action o s' else ok (complete id s')

unfoldable pub finish_stop : ℕ → Action → Operation → Snapshot → Store → Result Failure Store
unfolding is_in is_exhausted finish_exhausted finish_stopped
finish_stop id action o current s = do
  refuse_if (not (is_in stopping current.state)) stop_state_changed
  if is_exhausted action o then finish_exhausted id o s else finish_stopped id action o s

unfoldable pub finish_action :
    ℕ → Action → Operation → Snapshot → Option Details → Store → Result Failure Store
unfolding finish_replacement end_seeding finish_stop complete
finish_action id replace_account o current replacement s =
    finish_replacement id o current replacement s
finish_action id stop_seeding o current replacement s = do
  s' ← end_seeding o.job_id s
  ok (complete id s')
finish_action id action o current replacement s = finish_stop id action o current s

unfoldable pub finish_current :
    ℕ → Action → Operation → Option Details → Store → Result Failure Store
unfolding effective finish_action
finish_current id saved o replacement s = do
  current ← task_snapshot o.job_id s
  refuse_if (not (current.task_id == o.task_id)) task_superseded
  finish_action id (effective saved o s) o current replacement s

unfoldable pub is_removal : Action → Bool
is_removal remove = true
is_removal _ = false

unfoldable pub finish_saved :
    ℕ → Operation → Option Details → Store → Option Operation → Result Failure Store
unfolding is_open is_removal finish_removal finish_current
finish_saved id o replacement s none = ok s
finish_saved id o replacement s (some saved) =
    if not (is_open saved)
    then ok s
    else if is_removal o.action
    then finish_removal id o s
    else finish_current id saved.action o replacement s

-- `finish_operation`, of an operation as the worker has read it, and of the details of the account that takes
-- over, if there is one
unfoldable pub finish_operation : ℕ → Operation → Option Details → Store → Result Failure Store
unfolding finish_saved
finish_operation id o replacement s = finish_saved id o replacement s (Dict.lookup id s.operations)
