-- ===== src/Queue/Commands.antt =====
-- `QueueControl._apply` and `_operation` of app/downloads/queue.py: what a command does to the tables.
pub mod Requeue
pub mod Advances
use eh_bot.Prelude.{
  ℕ, suc, ◌+◌, Bool, true, false, not, ◌&&◌, ◌||◌, Option, none, some, List, [], ◌∷◌, ltb, leb,
  ◌==◌, if◌then◌else◌, Text, codes, Result, ok, err, ◌>>=◌, ◌>>◌, refuse_if, nat_Eq, text_Eq,
}
use eh_bot.Prelude.Dict
use eh_bot.Prelude.Dict.{Dict}
use eh_bot.Downloads.{
  JobState, pending, completed, failed, cancelled, paused, stopping, conversion_pending,
  conversion_completed, Provider, telegraph, exhentai,
}
use eh_bot.Queue.{
  Value, Details, Job, TaskStatus, Task, Action, set_priority, pause, resume, retry, restart,
  cancel, switch_source, stop_seeding, Params, no_params, Operation, is_pending, replace_account,
  Store, Failure, job_not_found, priority_out_of_range, job_not_queued, job_not_pausable,
  job_not_paused, provider_unsupported, job_not_seeding, job_already_completed, job_not_cancellable,
  action_unknown, operation_in_progress, is_terminal, is_queued, is_conversion, is_torrent, is_open,
  has_open_operation, state_eq,
}
use eh_bot.Queue.Guards.{is_replacement}
use eh_bot.Queue.Rows.{update_job, update_row}

abbrev pub min_job_priority : ℕ
min_job_priority = 1

abbrev pub max_job_priority : ℕ
max_job_priority = 999

-- `task_snapshot`
pub record Snapshot : Type 0 where
  pub task_id : ℕ
  pub revision : ℕ
  pub generation : ℕ
  pub attempt_id : Option ℕ
  pub state : TaskStatus

unfoldable pub snapshot_of : ℕ → Option Task → Result Failure Snapshot
snapshot_of task_id none = err job_not_found
snapshot_of task_id (some t) = ok (record {
  task_id = task_id;
  revision = t.revision;
  generation = t.generation;
  attempt_id = t.attempt_id;
  state = t.status;
})

unfoldable pub found_job : Option Job → Result Failure Job
found_job none = err job_not_found
found_job (some j) = ok j

unfoldable pub task_snapshot : ℕ → Store → Result Failure Snapshot
unfolding snapshot_of found_job
task_snapshot job_id s = do
  j ← found_job (Dict.lookup job_id s.jobs)
  snapshot_of j.task_id (Dict.lookup j.task_id s.tasks)

-- What a command answers.
pub record Reply : Type 0 where
  pub job_id : ℕ
  pub action : Action
  pub snapshot : Snapshot
  pub operation_id : Option ℕ
  pub priority : Option ℕ

-- `_operation`
unfoldable pub open_operation :
    ℕ → Job → Action → Snapshot → Params → Store → Result Failure (ℕ × Store)
unfolding has_open_operation
open_operation job_id j action current params s = do
  refuse_if (has_open_operation current.task_id s.operations) operation_in_progress
  ok (
    s.fresh,
    record s {
      operations =
          Dict.set s.fresh
            (record {
              task_id = j.task_id;
              attempt_id = current.attempt_id;
              generation = current.generation;
              job_id = job_id;
              candidate_id = j.candidate_id;
              action = action;
              params = params;
              resource = j.details;
              status = is_pending;
              error_code = none;
            })
            s.operations;
      fresh = suc s.fresh;
    },
  )

unfoldable pub in_range : Option ℕ → Result Failure ℕ
in_range none = err priority_out_of_range
in_range (some p) =
    if leb min_job_priority p && leb p max_job_priority then ok p else err priority_out_of_range

unfoldable pub move_to : JobState → Job → Job
move_to st j = record j { state = st }

unfoldable pub apply_priority : ℕ → Job → Params → Store → Result Failure Store
unfolding in_range is_terminal
apply_priority job_id j params s = do
  p ← in_range params.priority
  refuse_if (is_terminal j.state || state_eq j.state stopping) job_not_queued
  update_job job_id (λ r. record r { priority = p }) s

unfoldable pub queue_of : Provider → JobState
queue_of p = if is_conversion p then conversion_pending else pending

-- the columns that a pause, a resume or a retry writes
unfoldable pub reset_to : JobState → Details → Job → Job
reset_to st details j = record j { state = st; details = details; error_code = none }

unfoldable pub apply_pause : ℕ → Job → Store → Result Failure Store
unfolding reset_to
apply_pause job_id j s = do
  refuse_if (not (is_queued j.state)) job_not_pausable
  update_job job_id (reset_to paused j.details) s

unfoldable pub apply_resume : ℕ → Job → Store → Result Failure Store
unfolding reset_to queue_of
apply_resume job_id j s = do
  refuse_if (not (state_eq j.state paused)) job_not_paused
  update_job job_id (reset_to (queue_of j.provider) j.details) s

-- The open replacement of an account, which a cancel of a stopping task takes over.
unfoldable pub open_replacement : ℕ → Dict ℕ Operation → Option ℕ
unfolding is_open is_replacement
open_replacement task_id [] = none
open_replacement task_id ((id, o) ∷ os) =
    if o.task_id == task_id && is_replacement o.action && is_open o
    then some id
    else open_replacement task_id os

unfoldable pub bump_revision : ℕ → Store → Store
bump_revision task_id s = record s {
  tasks = update_row task_id (λ t. record t { revision = suc t.revision }) s.tasks;
}

unfoldable pub take_over : ℕ → ℕ → Store → Store
unfolding bump_revision
take_over operation_id task_id s = bump_revision task_id (record s {
  operations =
      update_row operation_id (λ o. record o { action = cancel; params = no_params }) s.operations;
})

unfoldable pub is_source : Option Provider → Bool
is_source (some telegraph) = true
is_source (some exhentai) = true
is_source _ = false

unfoldable pub is_switch : Action → Bool
is_switch switch_source = true
is_switch _ = false

unfoldable pub is_done : JobState → Bool
is_done completed = true
is_done conversion_completed = true
is_done _ = false

-- Queued work has no running execution to stop.
unfoldable pub is_immediate : Action → JobState → Bool
unfolding is_switch
is_immediate action st = not (is_switch action) && (is_queued st || state_eq st paused)

unfoldable pub opened : ℕ × Store → Option ℕ × Store
opened (id, s) = (some id, s)

unfoldable pub stop_or_cancel :
    Bool → ℕ → Job → Action → Snapshot → Params → Store → Result Failure (Option ℕ × Store)
unfolding open_operation move_to opened
stop_or_cancel true job_id j action current params s = do
  s' ← update_job job_id (move_to cancelled) s
  ok (none, s')
stop_or_cancel false job_id j action current params s = do
  (id, s') ← open_operation job_id j action current params s
  s'' ← update_job job_id (move_to stopping) s'
  ok (some id, s'')

-- a cancel or a switch of the source, but for the cancel that takes a replacement over
unfoldable pub apply_stop :
    ℕ → Job → Action → Snapshot → Params → Store → Result Failure (Option ℕ × Store)
unfolding is_done is_source is_immediate is_switch stop_or_cancel
apply_stop job_id j action current params s = do
  refuse_if (is_done j.state) job_already_completed
  refuse_if (state_eq j.state cancelled || state_eq j.state stopping) job_not_cancellable
  refuse_if (is_switch action && not (is_source params.provider)) provider_unsupported
  stop_or_cancel (is_immediate action j.state) job_id j action current params s

unfoldable pub or_take_over :
    Option ℕ → ℕ → Job → Snapshot → Params → Store → Result Failure (Option ℕ × Store)
unfolding take_over apply_stop
or_take_over (some id) job_id j current params s = ok (some id, take_over id current.task_id s)
or_take_over none job_id j current params s = apply_stop job_id j cancel current params s

unfoldable pub apply_cancel :
    ℕ → Job → Snapshot → Params → Store → Result Failure (Option ℕ × Store)
unfolding or_take_over open_replacement
apply_cancel job_id j current params s =
    or_take_over
      (if state_eq j.state stopping then open_replacement current.task_id s.operations else none)
      job_id j current params s

unfoldable pub apply_switch :
    ℕ → Job → Snapshot → Params → Store → Result Failure (Option ℕ × Store)
unfolding apply_stop
apply_switch job_id j current params s = do
  refuse_if (is_conversion j.provider) provider_unsupported
  apply_stop job_id j switch_source current params s

unfoldable pub apply_stop_seeding :
    ℕ → Job → Snapshot → Params → Store → Result Failure (Option ℕ × Store)
unfolding open_operation bump_revision
apply_stop_seeding job_id j current params s = do
  refuse_if (not (is_torrent j.provider && state_eq j.state completed)) job_not_seeding
  (id, s') ← open_operation job_id j stop_seeding current params s
  ok (some id, bump_revision current.task_id s')
