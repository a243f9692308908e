-- ===== src/Queue/Run/Changes.antt =====
-- What the single steps of a command leave alone, and the states that they change.
use eh_bot.Prelude.{
  ℕ, ◌≤◌, ◌≡◌, refl, Bool, false, not, Option, none, some, arith, nat_Eq, IfOk, returned,
  IfOk-refuse_if, if-cases,
}
use eh_bot.Approval.{Status}
use eh_bot.Downloads.{JobState, stopping, paused, Provider}
use eh_bot.Queue.{
  Job, Action, Params, Store, Work, state_eq, state_code, is_running, is_queued, is_terminal,
  is_conversion, has_open_operation, operation_in_progress,
}
use eh_bot.Queue.Commands.{Snapshot, queue_of, open_operation}
use eh_bot.Queue.Commands.Requeue.{is_retryable_state, pack_of_job, approve_work}

pub queued_changes : (st : JobState) → not (is_queued st) ≡ false → state_eq st paused ≡ false
unfolding is_queued state_eq state_code
queued_changes st q = ground (arith, q)

pub paused_changes :
    (st : JobState) (p : Provider)
    → not (state_eq st paused) ≡ false
    → state_eq st (queue_of p) ≡ false
unfolding state_eq state_code queue_of
paused_changes st p q =
    if-cases (λ target. state_eq st target ≡ false) (is_conversion p) (λ e. ground (arith, q))
      (λ e. ground (arith, q))

pub queue_of-idle : (p : Provider) → is_running (queue_of p) ≡ false
unfolding is_running queue_of
queue_of-idle p =
    if-cases (λ target. is_running target ≡ false) (is_conversion p) (λ e. refl) (λ e. refl)

pub retryable_stopping :
    (action : Action) (st : JobState)
    → not (is_retryable_state action st) ≡ false
    → state_eq st stopping ≡ false
unfolding is_retryable_state state_eq state_code is_terminal
retryable_stopping action st q = ground (arith, q)

pub retryable_queued :
    (action : Action) (st : JobState) (p : Provider)
    → not (is_retryable_state action st) ≡ false
    → state_eq st (queue_of p) ≡ false
unfolding is_retryable_state state_eq state_code is_terminal queue_of
retryable_queued action st p q =
    if-cases (λ target. state_eq st target ≡ false) (is_conversion p) (λ e. ground (arith, q))
      (λ e. ground (arith, q))

-- What an operation that is opened leaves alone.
pub record IsOpened (s s' : Store) : Type 0 where
  pub same_jobs : s'.jobs ≡ s.jobs
  pub same_tasks : s'.tasks ≡ s.tasks
  pub later : s.fresh ≤ s'.fresh

pub open_operation-IsOpened :
    (job_id : ℕ) (j : Job) (action : Action) (current : Snapshot) (params : Params) (s : Store)
    → IfOk (λ p. IsOpened s p.1) (open_operation job_id j action current params s)
unfolding open_operation
open_operation-IsOpened job_id j action current params s =
    IfOk-refuse_if (has_open_operation current.task_id s.operations) operation_in_progress
      λ free. returned (record { same_jobs = refl; same_tasks = refl; later = omega arith })

pub pack_of_job-keeps :
    (job_id : ℕ) (b : Bool) (s : Store) (o : Option Job)
    → ((pack_of_job job_id b s o).jobs ≡ s.jobs) × ((pack_of_job job_id b s o).tasks ≡ s.tasks)
unfolding pack_of_job
pack_of_job-keeps job_id b s none = (refl, refl)
pack_of_job-keeps job_id b s (some j) = (refl, refl)

pub approve_work-keeps :
    (test : Status → Bool) (candidate_id : ℕ) (s : Store) (o : Option Work)
    → ((approve_work test candidate_id s o).jobs ≡ s.jobs)
      × ((approve_work test candidate_id s o).tasks ≡ s.tasks)
unfolding approve_work
approve_work-keeps test candidate_id s none = (refl, refl)
approve_work-keeps test candidate_id s (some w) =
    if-cases (λ (u : Store). (u.jobs ≡ s.jobs) × (u.tasks ≡ s.tasks)) (test w.status)
      (λ e. (refl, refl)) (λ e. (refl, refl))
