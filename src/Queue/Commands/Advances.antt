-- ===== src/Queue/Commands/Advances.antt =====
-- A command only ever moves tasks on.
use eh_bot.Prelude.{
  ℕ, suc, refl, Bool, true, false, not, ◌&&◌, ◌||◌, Option, none, some, arith, Result, ok, err,
  nat_Eq, IfOk, returned, raised, IfOk-bind, IfOk-refuse_if, if-cases, leb,
}
use eh_bot.Prelude.Dict
use eh_bot.Approval.{Status}
use eh_bot.Downloads.{paused, cancelled, stopping, completed}
use eh_bot.Queue.{
  Job, Work, Action, Params, no_params, Store, Failure, retry, restart, cancel, switch_source,
  stop_seeding, pause, resume, set_priority, remove, replace_account, operation_in_progress,
  job_not_queued, has_open_operation, is_terminal, state_eq, is_queued, job_not_pausable,
  job_not_paused, job_already_completed, job_not_cancellable, provider_unsupported, is_conversion,
  job_not_seeding, is_torrent, job_not_retryable, job_permanently_failed,
  candidate_not_downloadable, is_listed,
}
use eh_bot.Queue.Rows.{set_columns}
use eh_bot.Queue.Rows.Later.{
  Advances, Advances-refl, Advances-trans, same-Advances, grown-Advances, operation-Advances,
  operation-fresh, Grows, SameOperation, update_job-Advances, set_columns-Advances,
}
use eh_bot.Queue.Commands.{
  Snapshot, open_operation, in_range, apply_priority, move_to, queue_of, reset_to, apply_pause,
  apply_resume, bump_revision, take_over, is_source, is_switch, is_done, is_immediate,
  stop_or_cancel, apply_stop, or_take_over, apply_cancel, apply_switch, apply_stop_seeding,
}
use eh_bot.Queue.Commands.Requeue.{
  is_retryable_state, has_remote, requested_pack, pack_of_job, reopened, approve_work,
  back_in_queue, requeue, apply_retry, without_operation, apply_action,
}
use eh_bot.Downloads.{has_code, permanent_download_errors}

pub open_operation-Advances :
    (job_id : ℕ) (j : Job) (action : Action) (current : Snapshot) (params : Params) (s : Store)
    → IfOk (λ p. Advances s p.1) (open_operation job_id j action current params s)
unfolding open_operation
open_operation-Advances job_id j action current params s =
    IfOk-refuse_if (has_open_operation current.task_id s.operations) operation_in_progress
      λ free. returned (operation-fresh _ s)

in_range-IfOk : (o : Option ℕ) → IfOk (λ p. Unit {0}) (in_range o)
unfolding in_range
in_range-IfOk none = raised
in_range-IfOk (some p) =
    if-cases (IfOk (λ p. Unit {0})) (leb 1 p && leb p 999) (λ e. returned tt) (λ e. raised)

apply_priority-Advances :
    (job_id : ℕ) (j : Job) (params : Params) (s : Store)
    → IfOk (Advances s) (apply_priority job_id j params s)
unfolding apply_priority
apply_priority-Advances job_id j params s = IfOk-bind (in_range-IfOk params.priority) λ p h.
    IfOk-refuse_if (is_terminal j.state || state_eq j.state stopping) job_not_queued
      λ e. update_job-Advances job_id (λ r. record r { priority = p }) s

apply_pause-Advances :
    (job_id : ℕ) (j : Job) (s : Store) → IfOk (Advances s) (apply_pause job_id j s)
unfolding apply_pause
apply_pause-Advances job_id j s =
    IfOk-refuse_if (not (is_queued j.state)) job_not_pausable
      λ e. update_job-Advances job_id (reset_to paused j.details) s

apply_resume-Advances :
    (job_id : ℕ) (j : Job) (s : Store) → IfOk (Advances s) (apply_resume job_id j s)
unfolding apply_resume
apply_resume-Advances job_id j s =
    IfOk-refuse_if (not (state_eq j.state paused)) job_not_paused
      λ e. update_job-Advances job_id (reset_to (queue_of j.provider) j.details) s

bump_revision-Advances : (task_id : ℕ) (s : Store) → Advances s (bump_revision task_id s)
unfolding bump_revision
bump_revision-Advances task_id s =
    grown-Advances task_id (λ t. record t { revision = suc t.revision }) s
      (λ t. unfold Grows in (omega arith, omega arith))

take_over-Advances :
    (operation_id task_id : ℕ) (s : Store) → Advances s (take_over operation_id task_id s)
unfolding take_over
take_over-Advances operation_id task_id s =
    Advances-trans s _ _
      (operation-Advances operation_id (λ o. record o { action = cancel; params = no_params }) s
        (λ o. unfold SameOperation in (refl, refl, refl, refl)))
      (bump_revision-Advances task_id _)

stop_or_cancel-Advances :
    (now : Bool) (job_id : ℕ) (j : Job) (action : Action) (current : Snapshot) (params : Params)
    (s : Store)
    → IfOk (λ p. Advances s p.1) (stop_or_cancel now job_id j action current params s)
unfolding stop_or_cancel
stop_or_cancel-Advances true job_id j action current params s =
    IfOk-bind (update_job-Advances job_id (move_to cancelled) s) λ s' a. returned a
stop_or_cancel-Advances false job_id j action current params s =
    IfOk-bind (open_operation-Advances job_id j action current params s) λ p a.
      IfOk-bind (update_job-Advances job_id (move_to stopping) p.1)
        λ s'' b. returned (Advances-trans s p.1 s'' a b)

apply_stop-Advances :
    (job_id : ℕ) (j : Job) (action : Action) (current : Snapshot) (params : Params) (s : Store)
    → IfOk (λ p. Advances s p.1) (apply_stop job_id j action current params s)
unfolding apply_stop
apply_stop-Advances job_id j action current params s =
    IfOk-refuse_if (is_done j.state) job_already_completed λ e.
      IfOk-refuse_if (state_eq j.state cancelled || state_eq j.state stopping) job_not_cancellable
        λ e.
          IfOk-refuse_if (is_switch action && not (is_source params.provider)) provider_unsupported
            λ e.
              stop_or_cancel-Advances (is_immediate action j.state) job_id j action current params s

or_take_over-Advances :
    (o : Option ℕ) (job_id : ℕ) (j : Job) (current : Snapshot) (params : Params) (s : Store)
    → IfOk (λ p. Advances s p.1) (or_take_over o job_id j current params s)
unfolding or_take_over
or_take_over-Advances (some id) job_id j current params s =
    returned (take_over-Advances id current.task_id s)
or_take_over-Advances none job_id j current params s =
    apply_stop-Advances job_id j cancel current params s

apply_stop_seeding-Advances :
    (job_id : ℕ) (j : Job) (current : Snapshot) (params : Params) (s : Store)
    → IfOk (λ p. Advances s p.1) (apply_stop_seeding job_id j current params s)
unfolding apply_stop_seeding
apply_stop_seeding-Advances job_id j current params s =
    IfOk-refuse_if (not (is_torrent j.provider && state_eq j.state completed)) job_not_seeding λ e.
      IfOk-bind (open_operation-Advances job_id j stop_seeding current params s)
        λ p a. returned (Advances-trans s p.1 _ a (bump_revision-Advances current.task_id p.1))

pub pack_of_job-Advances :
    (job_id : ℕ) (b : Bool) (s : Store) (o : Option Job) → Advances s (pack_of_job job_id b s o)
unfolding pack_of_job
pack_of_job-Advances job_id b s none = Advances-refl s
pack_of_job-Advances job_id b s (some j) = same-Advances s _ refl refl refl refl

pub approve_work-Advances :
    (test : Status → Bool) (candidate_id : ℕ) (s : Store) (o : Option Work)
    → Advances s (approve_work test candidate_id s o)
unfolding approve_work
approve_work-Advances test candidate_id s none = Advances-refl s
approve_work-Advances test candidate_id s (some w) =
    if-cases (Advances s) (test w.status) (λ e. same-Advances s _ refl refl refl refl)
      (λ e. Advances-refl s)

back_in_queue-Advances :
    (job_id : ℕ) (j : Job) (params : Params) (previous : Option Bool) (s : Store)
    → Advances s (back_in_queue job_id j params previous s)
unfolding back_in_queue
back_in_queue-Advances job_id j params previous s =
    Advances-trans s _ _
      (pack_of_job-Advances job_id (requested_pack params.pack_requested previous) s
        (Dict.lookup job_id s.jobs))
      (approve_work-Advances reopened j.candidate_id _ _)

requeue-Advances :
    (remote : Bool) (job_id : ℕ) (j : Job) (action : Action) (current : Snapshot) (params : Params)
    (s : Store)
    → IfOk (λ p. Advances s p.1) (requeue remote job_id j action current params s)
unfolding requeue
requeue-Advances true job_id j action current params s =
    IfOk-bind (open_operation-Advances job_id j action current params s) λ p a.
      IfOk-bind
        (update_job-Advances job_id _
          (set_columns job_id (λ r. record r { recovery_count = 0 }) p.1))
        λ s'' b. returned (
          Advances-trans s p.1 s'' a
            (Advances-trans p.1 _ s'' (set_columns-Advances job_id _ p.1) b))
requeue-Advances false job_id j action current params s =
    IfOk-bind
      (update_job-Advances job_id _ (set_columns job_id (λ r. record r { recovery_count = 0 }) s))
      λ s' b.
        let a = Advances-trans s _ s' (set_columns-Advances job_id _ s) b in
        returned (
          if-cases (Advances s) (is_conversion j.provider) (λ e. a)
            (λ e.
              Advances-trans s s' _ a
                (back_in_queue-Advances job_id j params (Dict.lookup current.task_id s.packs) s')))

apply_retry-Advances :
    (job_id : ℕ) (j : Job) (action : Action) (current : Snapshot) (params : Params) (s : Store)
    → IfOk (λ p. Advances s p.1) (apply_retry job_id j action current params s)
unfolding apply_retry
apply_retry-Advances job_id j action current params s =
    IfOk-refuse_if (not (is_retryable_state action j.state)) job_not_retryable λ e.
      IfOk-refuse_if (has_code j.error_code permanent_download_errors) job_permanently_failed λ e.
        IfOk-refuse_if
          (not (is_conversion j.provider) && not (is_listed j.candidate_id s.approvals))
          candidate_not_downloadable
          λ e. requeue-Advances (has_remote j s) job_id j action current params s

without_operation-Advances :
    (s : Store) (r : Result Failure Store)
    → IfOk (Advances s) r
    → IfOk (λ p. Advances s p.1) (without_operation r)
unfolding without_operation
without_operation-Advances s (ok s') (returned a) = returned a
without_operation-Advances s (err e) raised = raised

pub apply_action-Advances :
    (job_id : ℕ) (j : Job) (action : Action) (current : Snapshot) (params : Params) (s : Store)
    → IfOk (λ p. Advances s p.1) (apply_action job_id j action current params s)
unfolding apply_action apply_cancel apply_switch
apply_action-Advances job_id j set_priority current params s =
    without_operation-Advances s _ (apply_priority-Advances job_id j params s)
apply_action-Advances job_id j pause current params s =
    without_operation-Advances s _ (apply_pause-Advances job_id j s)
apply_action-Advances job_id j resume current params s =
    without_operation-Advances s _ (apply_resume-Advances job_id j s)
apply_action-Advances job_id j retry current params s =
    apply_retry-Advances job_id j retry current params s
apply_action-Advances job_id j restart current params s =
    apply_retry-Advances job_id j restart current params s
apply_action-Advances job_id j cancel current params s =
    or_take_over-Advances _ job_id j current params s
apply_action-Advances job_id j switch_source current params s =
    IfOk-refuse_if (is_conversion j.provider) provider_unsupported
      λ e. apply_stop-Advances job_id j switch_source current params s
apply_action-Advances job_id j stop_seeding current params s =
    apply_stop_seeding-Advances job_id j current params s
apply_action-Advances job_id j remove current params s = raised
apply_action-Advances job_id j replace_account current params s = raised
