-- ===== src/Queue/Run/Outdated.antt =====
-- Every command of app/downloads/queue.py but a change of the priority outdates what its client has read.
use mathlib.Core.Path.{subst}
use eh_bot.Prelude.{
  ℕ, ◌<◌, ◌≡◌, refl, sym, ◌∙◌, ap, Bool, true, false, not, ◌&&◌, ◌||◌, Option, none, some, arith,
  if◌then◌else◌, Result, ok, err, nat_Eq, IfOk, returned, raised, IfOk-ok, IfOk-bind,
  IfOk-refuse_if, if-cases,
}
use eh_bot.Prelude.Dict
use eh_bot.Downloads.{
  JobState, completed, cancelled, stopping, paused, has_code, permanent_download_errors,
}
use eh_bot.Queue.{
  Job, Task, Details, Action, set_priority, pause, resume, retry, restart, cancel, switch_source,
  stop_seeding, remove, replace_account, Params, Store, Failure, state_eq, is_running, is_queued,
  is_conversion, is_torrent, is_listed, job_not_pausable, job_not_paused, job_not_retryable,
  job_permanently_failed, candidate_not_downloadable, job_already_completed, job_not_cancellable,
  provider_unsupported, job_not_seeding,
}
use eh_bot.Queue.Rows.{update_job, set_columns}
use eh_bot.Queue.Commands.{
  Snapshot, move_to, reset_to, queue_of, bump_revision, apply_pause, apply_resume, take_over,
  is_source, is_switch, is_done, is_immediate, stop_or_cancel, apply_stop, or_take_over,
  apply_cancel, apply_switch, apply_stop_seeding,
}
use eh_bot.Queue.Commands.Requeue.{
  retry_details, is_retryable_state, has_remote, requested_pack, pack_of_job, reopened,
  back_in_queue, requeue, apply_retry, without_operation, apply_action,
}
use eh_bot.Queue.Run.Moved.{
  IsMoved, IsMoving, update_job-IsMoved, bump_revision-IsMoved, IsMoved-same, set_columns-lookup,
}
use eh_bot.Queue.Run.Changes.{
  IsOpened, approve_work-keeps, open_operation-IsOpened, pack_of_job-keeps, paused_changes,
  queue_of-idle, queued_changes, retryable_queued, retryable_stopping,
}

-- A change of the priority, which need not change anything.
unfoldable pub is_prioritizing : Action → Bool
is_prioritizing set_priority = true
is_prioritizing _ = false

-- A job and its task, as the command finds them.
module _ (job_id : ℕ) (j : Job) (t : Task) where
  record IsFound (s : Store) : Type 0 where
    job_found : Dict.lookup job_id s.jobs ≡ some j
    task_found : Dict.lookup j.task_id s.tasks ≡ some t
    given_out : j.task_id < s.fresh

  Outdates : Store → Type 0
  Outdates s = IsMoved job_id j.task_id t.revision s

  IsFound-opened : (s s' : Store) → IsFound s → IsOpened s s' → IsFound s'
  IsFound-opened s s' f o = record {
    job_found = ap (λ d. Dict.lookup job_id d) o.same_jobs ∙ f.job_found;
    task_found = ap (λ d. Dict.lookup j.task_id d) o.same_tasks ∙ f.task_found;
    given_out = omega (arith, f.given_out, o.later);
  }

  updates :
      (f : Job → Job) (s : Store) → IsFound s → IsMoving f j → IfOk Outdates (update_job job_id f s)
  unfolding Outdates
  updates f s found m =
      update_job-IsMoved job_id f s j t m found.job_found found.task_found found.given_out

  bumps : (s : Store) (id : ℕ) → id ≡ j.task_id → IsFound s → Outdates (bump_revision id s)
  unfolding Outdates
  bumps s id same found =
      subst (λ k. IsMoved job_id j.task_id t.revision (bump_revision k s)) (sym same)
        (bump_revision-IsMoved job_id j t s found.job_found found.task_found)

  back_in_queue-Outdates :
      (params : Params) (previous : Option Bool) (s : Store)
      → Outdates s
      → Outdates (back_in_queue job_id j params previous s)
  unfolding Outdates back_in_queue
  back_in_queue-Outdates params previous s m =
      let (jobs, tasks) =
        pack_of_job-keeps job_id (requested_pack params.pack_requested previous) s
          (Dict.lookup job_id s.jobs) in
      let (jobs', tasks') =
        approve_work-keeps reopened j.candidate_id
          (pack_of_job job_id (requested_pack params.pack_requested previous) s
            (Dict.lookup job_id s.jobs))
          _ in
      IsMoved-same job_id j.task_id t.revision s _ (jobs' ∙ jobs) (tasks' ∙ tasks) m

  -- the columns of a retry
  retried :
      (st : JobState) (details : Details) (s : Store)
      → IsFound s
      → state_eq j.state st ≡ false
      → is_running st ≡ false
      → IfOk Outdates (
          update_job job_id
            (reset_to st details)
            (set_columns job_id (λ r. record r { recovery_count = 0 }) s))
  unfolding Outdates reset_to set_columns
  retried st details s found changed idle =
      update_job-IsMoved job_id (reset_to st details)
        (set_columns job_id (λ r. record r { recovery_count = 0 }) s)
        (record j { recovery_count = 0 }) t
        (record { changed = changed; idle = idle; identity = refl })
        (set_columns-lookup job_id (λ r. record r { recovery_count = 0 }) s j found.job_found)
        found.task_found found.given_out

  requeue-Outdates :
      (remote : Bool) (action : Action) (current : Snapshot) (params : Params) (s : Store)
      → not (is_retryable_state action j.state) ≡ false
      → IsFound s
      → IfOk (λ p. Outdates p.1) (requeue remote job_id j action current params s)
  unfolding requeue
  requeue-Outdates true action current params s allowed found =
      IfOk-bind (open_operation-IsOpened job_id j action current params s) λ p o.
        IfOk-bind
          (retried stopping (retry_details j.provider j.details) p.1 (IsFound-opened s p.1 found o)
            (retryable_stopping action j.state allowed) (unfold is_running in refl))
          λ s' m. returned m
  requeue-Outdates false action current params s allowed found =
      IfOk-bind
        (retried (queue_of j.provider) (retry_details j.provider j.details) s found
          (retryable_queued action j.state j.provider allowed) (queue_of-idle j.provider))
        λ s' m.
          returned
            {a = (
              none,
              if is_conversion j.provider
                  then s'
                  else back_in_queue job_id j params (Dict.lookup current.task_id s.packs) s',
            )}
            (if-cases Outdates (is_conversion j.provider) (λ e. m)
              (λ e. back_in_queue-Outdates params (Dict.lookup current.task_id s.packs) s' m))

  apply_retry-Outdates :
      (action : Action) (current : Snapshot) (params : Params) (s : Store)
      → IsFound s
      → IfOk (λ p. Outdates p.1) (apply_retry job_id j action current params s)
  unfolding apply_retry
  apply_retry-Outdates action current params s found =
      IfOk-refuse_if (not (is_retryable_state action j.state)) job_not_retryable λ allowed.
        IfOk-refuse_if (has_code j.error_code permanent_download_errors) job_permanently_failed λ e.
          IfOk-refuse_if
            (not (is_conversion j.provider) && not (is_listed j.candidate_id s.approvals))
            candidate_not_downloadable
            λ e'. requeue-Outdates (has_remote j s) action current params s allowed found

  without_operation-Outdates :
      (r : Result Failure Store) → IfOk Outdates r → IfOk (λ p. Outdates p.1) (without_operation r)
  unfolding without_operation
  without_operation-Outdates (ok s) h = returned (IfOk-ok h refl)
  without_operation-Outdates (err e) h = raised

  apply_pause-Outdates : (s : Store) → IsFound s → IfOk Outdates (apply_pause job_id j s)
  unfolding apply_pause reset_to
  apply_pause-Outdates s found = IfOk-refuse_if (not (is_queued j.state)) job_not_pausable λ q.
      updates (reset_to paused j.details) s found (record {
        changed = queued_changes j.state q;
        idle = unfold is_running in refl;
        identity = refl;
      })

  apply_resume-Outdates : (s : Store) → IsFound s → IfOk Outdates (apply_resume job_id j s)
  unfolding apply_resume reset_to
  apply_resume-Outdates s found = IfOk-refuse_if (not (state_eq j.state paused)) job_not_paused λ q.
      updates (reset_to (queue_of j.provider) j.details) s found (record {
        changed = paused_changes j.state j.provider q;
        idle = queue_of-idle j.provider;
        identity = refl;
      })

  stop_or_cancel-Outdates :
      (now : Bool) (action : Action) (current : Snapshot) (params : Params) (s : Store)
      → (state_eq j.state cancelled || state_eq j.state stopping) ≡ false
      → IsFound s
      → IfOk (λ p. Outdates p.1) (stop_or_cancel now job_id j action current params s)
  unfolding stop_or_cancel move_to
  stop_or_cancel-Outdates true action current params s c found =
      IfOk-bind
        (updates (move_to cancelled) s found (record {
          changed = ground (arith, c);
          idle = unfold is_running in refl;
          identity = refl;
        }))
        λ s' m. returned m
  stop_or_cancel-Outdates false action current params s c found =
      IfOk-bind (open_operation-IsOpened job_id j action current params s) λ p o.
        IfOk-bind
          (updates (move_to stopping) p.1 (IsFound-opened s p.1 found o) (record {
            changed = ground (arith, c);
            idle = unfold is_running in refl;
            identity = refl;
          }))
          λ s' m. returned m

  apply_stop-Outdates :
      (action : Action) (current : Snapshot) (params : Params) (s : Store)
      → IsFound s
      → IfOk (λ p. Outdates p.1) (apply_stop job_id j action current params s)
  unfolding apply_stop
  apply_stop-Outdates action current params s found =
      IfOk-refuse_if (is_done j.state) job_already_completed λ d.
        IfOk-refuse_if (state_eq j.state cancelled || state_eq j.state stopping) job_not_cancellable
          λ c.
            IfOk-refuse_if (is_switch action && not (is_source params.provider))
              provider_unsupported
              λ e.
                stop_or_cancel-Outdates (is_immediate action j.state) action current params s c
                  found

  or_take_over-Outdates :
      (o : Option ℕ) (current : Snapshot) (params : Params) (s : Store)
      → current.task_id ≡ j.task_id
      → IsFound s
      → IfOk (λ p. Outdates p.1) (or_take_over o job_id j current params s)
  unfolding or_take_over take_over
  or_take_over-Outdates (some id) current params s same found = returned (
      bumps _ current.task_id same (
        IsFound-opened s _ found
          (record { same_jobs = refl; same_tasks = refl; later = omega arith })))
  or_take_over-Outdates none current params s same found =
      apply_stop-Outdates cancel current params s found

  apply_stop_seeding-Outdates :
      (current : Snapshot) (params : Params) (s : Store)
      → current.task_id ≡ j.task_id
      → IsFound s
      → IfOk (λ p. Outdates p.1) (apply_stop_seeding job_id j current params s)
  unfolding apply_stop_seeding
  apply_stop_seeding-Outdates current params s same found =
      IfOk-refuse_if (not (is_torrent j.provider && state_eq j.state completed)) job_not_seeding
        λ e.
          IfOk-bind (open_operation-IsOpened job_id j stop_seeding current params s)
            λ p o. returned (bumps p.1 current.task_id same (IsFound-opened s p.1 found o))

  apply_action-Outdates :
      (action : Action) (current : Snapshot) (params : Params) (s : Store)
      → is_prioritizing action ≡ false
      → current.task_id ≡ j.task_id
      → IsFound s
      → IfOk (λ p. Outdates p.1) (apply_action job_id j action current params s)
  unfolding apply_action is_prioritizing apply_cancel apply_switch
  apply_action-Outdates set_priority current params s n same found = cc
  apply_action-Outdates pause current params s n same found =
      without_operation-Outdates _ (apply_pause-Outdates s found)
  apply_action-Outdates resume current params s n same found =
      without_operation-Outdates _ (apply_resume-Outdates s found)
  apply_action-Outdates retry current params s n same found =
      apply_retry-Outdates retry current params s found
  apply_action-Outdates restart current params s n same found =
      apply_retry-Outdates restart current params s found
  apply_action-Outdates cancel current params s n same found =
      or_take_over-Outdates _ current params s same found
  apply_action-Outdates switch_source current params s n same found =
      IfOk-refuse_if (is_conversion j.provider) provider_unsupported
        λ e. apply_stop-Outdates switch_source current params s found
  apply_action-Outdates stop_seeding current params s n same found =
      apply_stop_seeding-Outdates current params s same found
  apply_action-Outdates remove current params s n same found = raised
  apply_action-Outdates replace_account current params s n same found = raised

pub apply_action-IsMoved :
    (action : Action) (job_id : ℕ) (j : Job) (t : Task) (current : Snapshot) (params : Params)
    (s : Store)
    → is_prioritizing action ≡ false
    → current.task_id ≡ j.task_id
    → Dict.lookup job_id s.jobs ≡ some j
    → Dict.lookup j.task_id s.tasks ≡ some t
    → j.task_id < s.fresh
    → IfOk
        (λ p. IsMoved job_id j.task_id t.revision p.1)
        (apply_action job_id j action current params s)
unfolding Outdates
apply_action-IsMoved action job_id j t current params s n same ej et l =
    apply_action-Outdates job_id j t action current params s n same
      (record { job_found = ej; task_found = et; given_out = l })
