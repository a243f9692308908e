-- ===== src/Queue/Finish/Stuck.antt =====
-- The retry of a torrent that has been registered does not finish.
use eh_bot.Prelude.{
  ℕ, ◌≡◌, refl, sym, true, false, ◌||◌, Option, some, ◌∷◌, arith, Text, ok, err, nat_Eq, ==_iff,
}
use eh_bot.Prelude.Dict
use eh_bot.Downloads.{cancelled, stopping, eh_torrent}
use eh_bot.Queue.{
  Details, Value, Job, in_state, Task, Action, retry, restart, Operation, is_pending, Store,
  aborted, remote_reconciliation_required, state_eq, state_code, is_terminal, is_queued, is_running,
  is_revoked, is_torrent, is_open, is_listed,
}
use eh_bot.Queue.Guards.{
  guards, keeps_stopping, needs_reconciliation, is_unsafe_reclaim, is_stale, is_reserved,
  is_changing, was_ended, is_blank,
}
use eh_bot.Queue.Rows.{
  put_task, takes_slot, mirrored_task, mirror, mirror_attempt, claim_if, after, is_renewal, written,
  update_job, put_job,
}
use eh_bot.Queue.Commands.{Snapshot, task_snapshot, found_job, snapshot_of, move_to}
use eh_bot.Queue.Ending.{starts_again, effective, is_in}
use eh_bot.Queue.Finish.{
  is_exhausted, clear_to_pending, successor, start_again, finish_stopped, finish_stop,
  finish_action, finish_current, is_removal, finish_saved, finish_operation,
}

-- A torrent job that is being stopped, with details of the transfer.
abbrev pub stopping_torrent : Job → Text × Value → Details → Job
stopping_torrent j d ds = record j { state = stopping; provider = eh_torrent; details = d ∷ ds }

abbrev cancelled_torrent : Job → Text × Value → Details → Job
cancelled_torrent j d ds = record j { state = cancelled; provider = eh_torrent; details = d ∷ ds }

-- The stop itself is recorded.
cancel_stopping :
    (job_id : ℕ) (j : Job) (d : Text × Value) (ds : Details) (t : Task) (s : Store)
    → Dict.lookup job_id s.jobs ≡ some (stopping_torrent j d ds)
    → Dict.lookup j.task_id s.tasks ≡ some t
    → (s' : Store) × (update_job job_id (move_to cancelled) s ≡ ok s')
      × (Dict.lookup job_id s'.jobs ≡ some (cancelled_torrent j d ds))
unfolding update_job written guards keeps_stopping needs_reconciliation is_unsafe_reclaim is_stale
    is_reserved is_changing is_renewal after put_job mirror put_task takes_slot mirrored_task
    claim_if move_to state_eq state_code is_terminal is_queued is_running is_revoked is_torrent
    was_ended
cancel_stopping job_id j d ds t s ej et = (
  record s {
    jobs = Dict.set job_id (cancelled_torrent j d ds) s.jobs;
    attempts = mirror_attempt t.attempt_id (cancelled_torrent j d ds) s.attempts;
    tasks =
        Dict.set j.task_id (mirrored_task (stopping_torrent j d ds) (cancelled_torrent j d ds) t)
          s.tasks;
  },
  rw (ej, et) refl,
  Dict.lookup-set_self job_id (cancelled_torrent j d ds) s.jobs,
)

-- The job is not let back into the queue.
requeue_cancelled :
    (job_id : ℕ) (j : Job) (d : Text × Value) (ds : Details) (s : Store)
    → Dict.lookup job_id s.jobs ≡ some (cancelled_torrent j d ds)
    → update_job job_id clear_to_pending s ≡ err (aborted remote_reconciliation_required)
unfolding update_job written guards keeps_stopping needs_reconciliation clear_to_pending state_eq
    state_code is_torrent was_ended is_blank
requeue_cancelled job_id j d ds s e = rw e refl

-- The retries and restarts that put the same job into the queue again.
pub data IsAgain : Action → Type 0 where
  retries : IsAgain retry
  restarts : IsAgain restart

finish_stopped-stuck :
    {action : Action} (again : IsAgain action) (id : ℕ) (o : Operation) (j : Job) (d : Text × Value)
    (ds : Details) (t : Task) (s : Store)
    → Dict.lookup o.job_id s.jobs ≡ some (stopping_torrent j d ds)
    → Dict.lookup j.task_id s.tasks ≡ some t
    → finish_stopped id action o s ≡ err (aborted remote_reconciliation_required)
unfolding finish_stopped start_again successor starts_again
finish_stopped-stuck retries id o j d ds t s ej et =
    let (s', done, left) = cancel_stopping o.job_id j d ds t s ej et in
    rw (done, requeue_cancelled o.job_id j d ds s' left) refl
finish_stopped-stuck restarts id o j d ds t s ej et =
    let (s', done, left) = cancel_stopping o.job_id j d ds t s ej et in
    rw (done, requeue_cancelled o.job_id j d ds s' left) refl

-- An open operation of the job's task as the worker reads it, while no change of the sources is pending.
pub record IsUnderway (id : ℕ) (o : Operation) (j : Job) (t : Task) (s : Store) : Type 0 where
  pub saved : Dict.lookup id s.operations ≡ some o
  pub underway : o.status ≡ is_pending
  pub of_task : o.task_id ≡ j.task_id
  pub listed : Dict.lookup j.task_id s.tasks ≡ some t
  pub is_stopping : t.status ≡ in_state stopping
  pub settled : (is_listed o.candidate_id s.changing || is_listed o.task_id s.observing) ≡ false
  pub within_limit : o.params.recovery_exhausted ≡ false

is_open-pending : (o : Operation) → o.status ≡ is_pending → is_open o ≡ true
unfolding is_open
is_open-pending o e = rw e refl

effective-settled :
    (action : Action) (o : Operation) (s : Store)
    → (is_listed o.candidate_id s.changing || is_listed o.task_id s.observing) ≡ false
    → effective action o s ≡ action
unfolding effective
effective-settled action o s e = ground (arith, e)

finish_stop-stuck :
    {action : Action} (again : IsAgain action) (id : ℕ) (o : Operation) (j : Job) (d : Text × Value)
    (ds : Details) (t : Task) (current : Snapshot) (s : Store)
    → current.state ≡ in_state stopping
    → o.params.recovery_exhausted ≡ false
    → Dict.lookup o.job_id s.jobs ≡ some (stopping_torrent j d ds)
    → Dict.lookup j.task_id s.tasks ≡ some t
    → finish_stop id action o current s ≡ err (aborted remote_reconciliation_required)
unfolding finish_stop is_in is_exhausted
finish_stop-stuck again id o j d ds t current s stops limit ej et =
    simp (stops, limit) (finish_stopped-stuck again id o j d ds t s ej et)

finish_action-stuck :
    {action : Action} (again : IsAgain action) (id : ℕ) (o : Operation) (current : Snapshot)
    (replacement : Option Details) (s : Store)
    → finish_action id action o current replacement s ≡ finish_stop id action o current s
unfolding finish_action
finish_action-stuck retries id o current replacement s = refl
finish_action-stuck restarts id o current replacement s = refl

-- What the worker sees of the task.
abbrev seen : Job → Task → Snapshot
seen j t = record {
  task_id = j.task_id;
  revision = t.revision;
  generation = t.generation;
  attempt_id = t.attempt_id;
  state = t.status;
}

task_snapshot-found :
    (job_id : ℕ) (j : Job) (t : Task) (s : Store)
    → Dict.lookup job_id s.jobs ≡ some j
    → Dict.lookup j.task_id s.tasks ≡ some t
    → task_snapshot job_id s ≡ ok (seen j t)
unfolding task_snapshot found_job snapshot_of
task_snapshot-found job_id j t s ej et = rw (ej, et) refl

finish_current-stuck :
    {action : Action} (again : IsAgain action) (id : ℕ) (o : Operation) (j : Job) (d : Text × Value)
    (ds : Details) (t : Task) (replacement : Option Details) (s : Store)
    → Dict.lookup o.job_id s.jobs ≡ some (stopping_torrent j d ds)
    → IsUnderway id o j t s
    → finish_current id action o replacement s ≡ err (aborted remote_reconciliation_required)
unfolding finish_current
finish_current-stuck {action} again id o j d ds t replacement s ej u =
    rw
      (
        task_snapshot-found o.job_id (stopping_torrent j d ds) t s ej u.listed,
        (==_iff j.task_id o.task_id).1 (sym u.of_task),
        effective-settled action o s u.settled,
        finish_action-stuck again id o,
      )
      (finish_stop-stuck again id o j d ds t (seen j t) s u.is_stopping u.within_limit ej u.listed)

finish_saved-stuck :
    {action : Action} (again : IsAgain action) (id : ℕ) (o : Operation)
    (replacement : Option Details) (s : Store)
    → o.action ≡ action
    → is_open o ≡ true
    → finish_saved id o replacement s (some o) ≡ finish_current id action o replacement s
unfolding finish_saved is_removal
finish_saved-stuck retries id o replacement s ea is_so = rw (is_so, ea) refl
finish_saved-stuck restarts id o replacement s ea is_so = rw (is_so, ea) refl

-- The end of a retry or a restart of a torrent is refused, although the transfer has been stopped, if the
-- job has any details left: the guard of the database reads the details that the row had before they
-- are cleared. No change of the sources may be pending, which would turn the operation into a cancel,
-- and it may not be the restart of an exhausted recovery, which would end as failed.
pub finish_operation-stuck :
    {action : Action} (again : IsAgain action) (id : ℕ) (o : Operation) (j : Job) (d : Text × Value)
    (ds : Details) (t : Task) (replacement : Option Details) (s : Store)
    → o.action ≡ action
    → Dict.lookup o.job_id s.jobs ≡ some (stopping_torrent j d ds)
    → IsUnderway id o j t s
    → finish_operation id o replacement s ≡ err (aborted remote_reconciliation_required)
unfolding finish_operation
finish_operation-stuck again id o j d ds t replacement s ea ej u =
    rw (u.saved, finish_saved-stuck again id o replacement s ea (is_open-pending o u.underway))
      (finish_current-stuck again id o j d ds t replacement s ej u)
