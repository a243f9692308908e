-- ===== src/Queue/Finish/Advances.antt =====
-- The end of an operation, too, only moves tasks on.
use eh_bot.Prelude.{
  ℕ, suc, refl, Bool, not, ◌||◌, Option, none, some, ◌==◌, ok, ◌>>=◌, nat_Eq, IfOk, returned,
  raised, IfOk-bind, IfOk-self, IfOk-refuse_if, IfOk-if, IfOk-weaken, if-cases, codes,
}
use eh_bot.Prelude.Dict
use eh_bot.Approval.{Status}
use eh_bot.Downloads.{Provider, failed, cancelled, stopping}
use eh_bot.Queue.{
  Details, Job, Attempt, Work, Action, Operation, Store, switch_source, stop_seeding,
  replace_account, aborted, identity_changing, stop_state_changed, candidate_not_downloadable,
  removal_not_committed, task_superseded, is_open, is_listed,
}
use eh_bot.Queue.Rows.{update_job, set_columns}
use eh_bot.Queue.Rows.Later.{
  Advances, Advances-refl, Advances-trans, same-Advances, operation-Advances, attempt-Advances,
  SameAttempt, SameOperation, update_job-Advances, set_columns-Advances,
}
use eh_bot.Queue.Guards.{is_changing}
use eh_bot.Queue.Jobs.Advances.{insert_job-Advances}
use eh_bot.Queue.Commands.{Snapshot, task_snapshot, move_to}
use eh_bot.Queue.Commands.Requeue.{reopened}
use eh_bot.Queue.Commands.Advances.{approve_work-Advances, pack_of_job-Advances}
use eh_bot.Queue.Ending.{
  complete, completed_op, cancel_attempt, cancelled_attempt, has_job, finish_removal, starts_again,
  effective, is_in, set_work, is_processing, was_started, equal_id, work_after_replacement,
  finish_replacement,
}
use eh_bot.Queue.Finish.{
  end_seeding, is_exhausted, finish_exhausted, clear_to_pending, job_of, new_job, insert_or_reset,
  switched, successor, start_again, finish_stopped, finish_stop, finish_action, finish_current,
  is_removal, finish_saved, finish_operation,
}

complete-Advances : (id : ℕ) (s : Store) → Advances s (complete id s)
unfolding complete
complete-Advances id s =
    operation-Advances id completed_op s
      (λ o. unfold SameOperation completed_op in (refl, refl, refl, refl))

cancelled_attempt-SameAttempt : (a : Attempt) → SameAttempt a (cancelled_attempt a)
unfolding cancelled_attempt SameAttempt
cancelled_attempt-SameAttempt a =
    if-cases (SameAttempt a) a.is_finished (λ e. (refl, refl, refl)) (λ e. (refl, refl, refl))

cancel_attempt-Advances : (o : Option ℕ) (s : Store) → Advances s (cancel_attempt o s)
unfolding cancel_attempt
cancel_attempt-Advances none s = Advances-refl s
cancel_attempt-Advances (some id) s =
    attempt-Advances id cancelled_attempt s cancelled_attempt-SameAttempt

closed-Advances :
    (id : ℕ) (o : Option ℕ) (s : Store) → Advances s (complete id (cancel_attempt o s))
closed-Advances id o s =
    Advances-trans s _ _ (cancel_attempt-Advances o s) (complete-Advances id (cancel_attempt o s))

set_work-Advances :
    (test : Status → Bool) (st : Status) (candidate_id : ℕ) (s : Store) (o : Option Work)
    → Advances s (set_work test st candidate_id s o)
unfolding set_work
set_work-Advances test st candidate_id s none = Advances-refl s
set_work-Advances test st candidate_id s (some w) =
    if-cases (Advances s) (test w.status) (λ e. same-Advances s _ refl refl refl refl)
      (λ e. Advances-refl s)

work_after_replacement-Advances :
    (d : Option Details) (candidate_id : ℕ) (s : Store)
    → Advances s (work_after_replacement d candidate_id s)
unfolding work_after_replacement
work_after_replacement-Advances none candidate_id s =
    set_work-Advances was_started Status.failed candidate_id s (Dict.lookup candidate_id s.works)
work_after_replacement-Advances (some d) candidate_id s =
    approve_work-Advances was_started candidate_id s (Dict.lookup candidate_id s.works)

finish_replacement-Advances :
    (id : ℕ) (o : Operation) (current : Snapshot) (d : Option Details) (s : Store)
    → IfOk (Advances s) (finish_replacement id o current d s)
unfolding finish_replacement
finish_replacement-Advances id o current d s =
    IfOk-refuse_if
      (not (is_in stopping current.state)
        || not (equal_id current.attempt_id o.attempt_id)
        || not (current.generation == suc o.generation))
      stop_state_changed
      λ e.
        let closed = complete id (cancel_attempt o.attempt_id s) in
        IfOk-bind (update_job-Advances o.job_id _ closed) λ s' a. returned (
          Advances-trans s s' _ (Advances-trans s closed s' (closed-Advances id o.attempt_id s) a)
            (work_after_replacement-Advances _ o.candidate_id s'))

finish_exhausted-Advances :
    (id : ℕ) (o : Operation) (s : Store) → IfOk (Advances s) (finish_exhausted id o s)
unfolding finish_exhausted
finish_exhausted-Advances id o s =
    IfOk-bind (update_job-Advances o.job_id (move_to failed) (complete id s)) λ s' a.
      let f = λ (j : Job). record j { error_code = some (codes "WORKER_RECOVERY_EXHAUSTED") } in
      let marked = set_columns o.job_id f s' in
      let begun = Advances-trans s (complete id s) s' (complete-Advances id s) a in
      let ended =
        Advances-trans marked _ _
          (set_work-Advances is_processing Status.failed o.candidate_id marked
            (Dict.lookup o.candidate_id marked.works))
          (complete-Advances id _) in
      returned (
        Advances-trans s s' _ begun
          (Advances-trans s' marked _ (set_columns-Advances o.job_id f s') ended))

insert_or_reset-Advances :
    (o : Option ℕ) (p : Provider) (candidate_id : ℕ) (s : Store)
    → IfOk (λ q. Advances s q.1) (insert_or_reset o p candidate_id s)
unfolding insert_or_reset
insert_or_reset-Advances (some job_id) p candidate_id s =
    IfOk-refuse_if (is_changing (new_job p candidate_id (suc s.fresh)) s)
      (aborted identity_changing)
      λ stable. IfOk-bind (update_job-Advances job_id clear_to_pending s) λ s' a. returned a
insert_or_reset-Advances none p candidate_id s =
    insert_job-Advances (new_job p candidate_id (suc s.fresh)) s

switched-Advances :
    (p : Option Provider) (o : Operation) (s : Store) → IfOk (λ q. Advances s q.1) (switched p o s)
unfolding switched
switched-Advances none o s = raised
switched-Advances (some p) o s =
    IfOk-refuse_if (not (is_listed o.candidate_id s.approvals)) candidate_not_downloadable
      λ e. insert_or_reset-Advances (job_of p o.candidate_id s.jobs) p o.candidate_id s

same_job-Advances :
    (o : Operation) (s : Store)
    → IfOk
        (λ (q : ℕ × Store). Advances s q.1)
        (do s' ← update_job o.job_id clear_to_pending s; ok (o.job_id, s'))
same_job-Advances o s =
    IfOk-bind (update_job-Advances o.job_id clear_to_pending s) λ s' a. returned a

successor-Advances :
    (action : Action) (o : Operation) (s : Store)
    → IfOk (λ q. Advances s q.1) (successor action o s)
unfolding successor
successor-Advances switch_source o s = switched-Advances o.params.provider o s
successor-Advances _ o s = same_job-Advances o s

start_again-Advances :
    (id : ℕ) (action : Action) (o : Operation) (s : Store)
    → IfOk (Advances s) (start_again id action o s)
unfolding start_again
start_again-Advances id action o s = IfOk-bind (successor-Advances action o s) λ q a. returned (
    Advances-trans s q.1 _ a (
      Advances-trans q.1 _ _ (pack_of_job-Advances q.0 _ q.1 _) (
        Advances-trans _ _ _ (approve_work-Advances reopened o.candidate_id _ _)
          (complete-Advances id _))))

finish_stopped-Advances :
    (id : ℕ) (action : Action) (o : Operation) (s : Store)
    → IfOk (Advances s) (finish_stopped id action o s)
unfolding finish_stopped
finish_stopped-Advances id action o s =
    IfOk-bind (update_job-Advances o.job_id (move_to cancelled) s) λ s' a.
      IfOk-if (starts_again action)
        (λ e. IfOk-weaken (start_again-Advances id action o s') λ t b. Advances-trans s s' t a b)
        (λ e. returned (Advances-trans s s' _ a (complete-Advances id s')))

finish_stop-Advances :
    (id : ℕ) (action : Action) (o : Operation) (current : Snapshot) (s : Store)
    → IfOk (Advances s) (finish_stop id action o current s)
unfolding finish_stop
finish_stop-Advances id action o current s =
    IfOk-refuse_if (not (is_in stopping current.state)) stop_state_changed λ e.
      IfOk-if (is_exhausted action o) (λ e. finish_exhausted-Advances id o s)
        (λ e. finish_stopped-Advances id action o s)

finish_action-Advances :
    (id : ℕ) (action : Action) (o : Operation) (current : Snapshot) (d : Option Details) (s : Store)
    → IfOk (Advances s) (finish_action id action o current d s)
unfolding finish_action end_seeding
finish_action-Advances id replace_account o current d s =
    finish_replacement-Advances id o current d s
finish_action-Advances id stop_seeding o current d s =
    IfOk-bind (update_job-Advances o.job_id _ s)
      λ s' a. returned (Advances-trans s s' _ a (complete-Advances id s'))
finish_action-Advances id action o current d s = finish_stop-Advances id action o current s

finish_current-Advances :
    (id : ℕ) (saved : Action) (o : Operation) (d : Option Details) (s : Store)
    → IfOk (Advances s) (finish_current id saved o d s)
unfolding finish_current
finish_current-Advances id saved o d s =
    IfOk-bind (IfOk-self (task_snapshot o.job_id s)) λ current h.
      IfOk-refuse_if (not (current.task_id == o.task_id)) task_superseded
        λ e. finish_action-Advances id (effective saved o s) o current d s

finish_removal-Advances :
    (id : ℕ) (o : Operation) (s : Store) → IfOk (Advances s) (finish_removal id o s)
unfolding finish_removal
finish_removal-Advances id o s =
    IfOk-refuse_if (has_job o.task_id s.jobs) removal_not_committed
      λ e. returned (closed-Advances id o.attempt_id s)

finish_saved-Advances :
    (id : ℕ) (o : Operation) (d : Option Details) (s : Store) (saved : Option Operation)
    → IfOk (Advances s) (finish_saved id o d s saved)
unfolding finish_saved
finish_saved-Advances id o d s none = returned (Advances-refl s)
finish_saved-Advances id o d s (some saved) =
    IfOk-if (not (is_open saved)) (λ e. returned (Advances-refl s))
      (λ e.
        IfOk-if (is_removal o.action) (λ k. finish_removal-Advances id o s)
          (λ k. finish_current-Advances id saved.action o d s))

pub finish_operation-Advances :
    (id : ℕ) (o : Operation) (d : Option Details) (s : Store)
    → IfOk (Advances s) (finish_operation id o d s)
unfolding finish_operation
finish_operation-Advances id o d s = finish_saved-Advances id o d s (Dict.lookup id s.operations)
