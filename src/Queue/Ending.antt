-- ===== src/Queue/Ending.antt =====
-- The parts of `QueueControl.finish_operation` (app/downloads/queue.py) for a removal and for the
-- replacement of an account.
use eh_bot.Prelude.{
  ℕ, suc, Bool, true, false, not, ◌&&◌, ◌||◌, Option, none, some, [], ◌∷◌, ◌==◌, if◌then◌else◌,
  Text, Result, ok, ◌>>=◌, ◌>>◌, refuse_if, nat_Eq, text_Eq,
}
use eh_bot.Prelude.Dict
use eh_bot.Prelude.Dict.{Dict}
use eh_bot.Approval.{Status, processing}
use eh_bot.Downloads.{JobState, pending, failed, cancelled, stopping}
use eh_bot.Queue.{
  Details, Job, TaskStatus, in_state, Attempt, Action, retry, restart, cancel, switch_source,
  replace_account, Operation, is_completed, Work, Store, Failure, removal_not_committed,
  stop_state_changed, is_listed, is_open,
}
use eh_bot.Queue.Rows.{update_job, update_row}
use eh_bot.Queue.Commands.{Snapshot}
use eh_bot.Queue.Commands.Requeue.{approve_work}

-- `UPDATE queue_operations SET status = 'COMPLETED', error_code = NULL`
unfoldable pub completed_op : Operation → Operation
completed_op o = record o { status = is_completed; error_code = none }

unfoldable pub complete : ℕ → Store → Store
unfolding completed_op
complete id s = record s { operations = update_row id completed_op s.operations }

-- `operation_error`
unfoldable pub operation_error : ℕ → Text → Store → Store
unfolding is_open
operation_error id code s = record s {
  operations =
      update_row id (λ o. if is_open o then record o { error_code = some code } else o)
        s.operations;
}

unfoldable pub cancelled_attempt : Attempt → Attempt
cancelled_attempt a =
    if a.is_finished then a else record a { status = cancelled; is_finished = true }

unfoldable pub cancel_attempt : Option ℕ → Store → Store
unfolding cancelled_attempt
cancel_attempt none s = s
cancel_attempt (some id) s = record s { attempts = update_row id cancelled_attempt s.attempts }

unfoldable pub has_job : ℕ → Dict ℕ Job → Bool
has_job task_id [] = false
has_job task_id ((id, j) ∷ js) = j.task_id == task_id || has_job task_id js

unfoldable pub finish_removal : ℕ → Operation → Store → Result Failure Store
unfolding has_job complete cancel_attempt
finish_removal id o s = do
  refuse_if (has_job o.task_id s.jobs) removal_not_committed
  ok (complete id (cancel_attempt o.attempt_id s))

unfoldable pub starts_again : Action → Bool
starts_again retry = true
starts_again restart = true
starts_again switch_source = true
starts_again _ = false

unfoldable pub is_resuming : Action → Bool
unfolding starts_again
is_resuming replace_account = true
is_resuming a = starts_again a

-- A pending change of the sources turns what would start again into a cancel.
unfoldable pub effective : Action → Operation → Store → Action
unfolding is_resuming
effective action o s =
    if is_resuming action
      && (is_listed o.candidate_id s.changing || is_listed o.task_id s.observing)
    then cancel
    else action

unfoldable pub is_in : JobState → TaskStatus → Bool
is_in stopping (in_state stopping) = true
is_in _ _ = false

unfoldable pub set_work : (Status → Bool) → Status → ℕ → Store → Option Work → Store
set_work test st candidate_id s none = s
set_work test st candidate_id s (some w) =
    if test w.status
    then record s { works = Dict.set candidate_id (record w { status = st }) s.works }
    else s

unfoldable pub is_processing : Status → Bool
is_processing processing = true
is_processing _ = false

unfoldable pub was_started : Status → Bool
was_started processing = true
was_started Status.failed = true
was_started _ = false

unfoldable pub if_approved : Bool → Option Details → Option Details
if_approved true d = d
if_approved false d = none

-- Python's `==` of two identifiers that may be None
unfoldable pub equal_id : Option ℕ → Option ℕ → Bool
equal_id none none = true
equal_id (some a) (some b) = a == b
equal_id _ _ = false

unfoldable pub resume_or_fail : Option Details → Job → Job
resume_or_fail none j = record j { state = failed }
resume_or_fail (some d) j = record j { state = pending; details = d; error_code = none }

unfoldable pub work_after_replacement : Option Details → ℕ → Store → Store
unfolding set_work was_started approve_work
work_after_replacement none candidate_id s =
    set_work was_started Status.failed candidate_id s (Dict.lookup candidate_id s.works)
work_after_replacement (some d) candidate_id s =
    approve_work was_started candidate_id s (Dict.lookup candidate_id s.works)

unfoldable pub finish_replacement :
    ℕ → Operation → Snapshot → Option Details → Store → Result Failure Store
unfolding is_in equal_id if_approved complete cancel_attempt resume_or_fail work_after_replacement
finish_replacement id o current replacement s = do
  refuse_if
      (not (is_in stopping current.state)
        || not (equal_id current.attempt_id o.attempt_id)
        || not (current.generation == suc o.generation))
      stop_state_changed
  let granted = if_approved (is_listed o.candidate_id s.approvals) replacement
  s' ← update_job o.job_id (resume_or_fail granted) (complete id (cancel_attempt o.attempt_id s))
  ok (work_after_replacement granted o.candidate_id s')
