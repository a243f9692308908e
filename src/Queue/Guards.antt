-- ===== src/Queue/Guards.antt =====
-- The BEFORE triggers of a write of a job (migrations 027, 029, 031 and 038 of app/db/migrations).
use eh_bot.Prelude.{
  ℕ, suc, Bool, true, false, not, ◌&&◌, ◌||◌, Option, none, some, List, [], ◌∷◌, ◌==◌, codes,
  Result, ◌>>◌, refuse_if, nat_Eq, text_Eq,
}
use eh_bot.Prelude.Dict
use eh_bot.Prelude.Dict.{Dict}
use eh_bot.Downloads.{
  JobState, pending, downloading, completed, failed, cancelled, paused, stopping,
}
use eh_bot.Queue.{
  Job, Task, Action, restart, retry, replace_account, Operation, is_completed, Store, Observation,
  Value, number, identity_changing, is_terminal, stop_not_confirmed, remote_reconciliation_required,
  stale_completion, removal_not_confirmed, Failure, aborted, state_eq, is_queued, is_running,
  is_revoked, is_torrent, is_open, is_listed, is_unresolved, Details,
}

-- `a = b` of two columns that may be NULL: NULL equals nothing.
unfoldable pub same_id : Option ℕ → Option ℕ → Bool
same_id (some a) (some b) = a == b
same_id _ _ = false

unfoldable pub is_replacement : Action → Bool
is_replacement replace_account = true
is_replacement _ = false

unfoldable pub is_restart : Action → Bool
is_restart restart = true
is_restart _ = false

unfoldable pub is_requeue : Action → Bool
is_requeue retry = true
is_requeue restart = true
is_requeue _ = false

unfoldable pub is_confirmed : Operation → Bool
is_confirmed o = elim o.status [ is_completed ↦ true | _ ↦ false ]

-- The operation lets a job leave STOPPING without being cancelled (038).
unfoldable pub lets_go : ℕ → Job → JobState → Bool → Task → Operation → Bool
unfolding same_id is_confirmed is_replacement is_restart
lets_go job_id old target resolved t o =
    o.task_id == old.task_id
    && o.job_id == job_id
    && same_id o.attempt_id t.attempt_id
    && suc o.generation == t.generation
    && is_confirmed o
    && (is_replacement o.action
        || state_eq target failed && is_restart o.action && o.params.recovery_exhausted && resolved)

unfoldable pub some_lets_go : ℕ → Job → JobState → Bool → Task → Dict ℕ Operation → Bool
unfolding lets_go
some_lets_go job_id old target resolved t [] = false
some_lets_go job_id old target resolved t ((id, o) ∷ os) =
    lets_go job_id old target resolved t o || some_lets_go job_id old target resolved t os

unfoldable pub task_lets_go : ℕ → Job → JobState → Bool → Dict ℕ Operation → Option Task → Bool
unfolding some_lets_go
task_lets_go job_id old target resolved os none = false
task_lets_go job_id old target resolved os (some t) = some_lets_go job_id old target resolved t os

-- queue_stopping_guard
unfoldable pub keeps_stopping : ℕ → Job → JobState → Store → Bool
unfolding task_lets_go
keeps_stopping job_id old target s =
    state_eq old.state stopping
    && not (is_revoked target)
    && not (
        (state_eq target pending || state_eq target failed)
        && task_lets_go job_id old target (not (is_unresolved old.task_id s.resources)) s.operations
            (Dict.lookup old.task_id s.tasks))

unfoldable pub is_blank : Details → Bool
is_blank [] = true
is_blank (d ∷ ds) = false

unfoldable pub was_ended : JobState → Bool
was_ended completed = true
was_ended failed = true
was_ended cancelled = true
was_ended paused = true
was_ended _ = false

-- queue_remote_restart_guard: it reads the details that the row has before the update.
unfoldable pub needs_reconciliation : Job → JobState → Bool
unfolding is_blank was_ended
needs_reconciliation old target =
    is_torrent old.provider
    && state_eq target pending
    && was_ended old.state
    && not (is_blank old.details)

unfoldable pub is_some : {A : Type 0} → Option A → Bool
is_some none = false
is_some (some a) = true

-- queue_remote_reclaim_guard
unfoldable pub is_unsafe_reclaim : Job → JobState → Store → Bool
unfolding is_some
is_unsafe_reclaim old target s =
    is_torrent old.provider
    && state_eq old.state downloading
    && state_eq target pending
    && (is_unresolved old.task_id s.resources || is_some (Dict.lookup (codes "hash") old.details))

-- An open retry or restart of the task in its generation (029).
unfoldable pub asks_stop : ℕ → ℕ → ℕ → Operation → Bool
unfolding is_requeue
asks_stop task_id job_id generation o =
    o.task_id == task_id
    && o.job_id == job_id
    && o.generation == generation
    && is_requeue o.action
    && is_open o

unfoldable pub some_asks_stop : ℕ → ℕ → ℕ → Dict ℕ Operation → Bool
unfolding asks_stop
some_asks_stop task_id job_id generation [] = false
some_asks_stop task_id job_id generation ((id, o) ∷ os) =
    asks_stop task_id job_id generation o || some_asks_stop task_id job_id generation os

unfoldable pub task_asks_stop : ℕ → ℕ → Dict ℕ Operation → Option Task → Bool
unfolding some_asks_stop
task_asks_stop task_id job_id os none = false
task_asks_stop task_id job_id os (some t) = some_asks_stop task_id job_id t.generation os

-- queue_cancelled_commit_guard
unfoldable pub is_stale : ℕ → Job → JobState → Store → Bool
unfolding task_asks_stop
is_stale job_id old target s =
    state_eq old.state cancelled
    && not (state_eq target cancelled || is_queued target)
    && not (
        state_eq target stopping
        && task_asks_stop old.task_id job_id s.operations (Dict.lookup old.task_id s.tasks))

-- queue_removal_claim_guard
unfoldable pub is_reserved : Job → Job → Store → Bool
is_reserved old new s =
    is_running new.state
    && not (state_eq old.state new.state)
    && is_listed new.candidate_id s.blocked

unfoldable pub is_observation : ℕ → Option Value → Bool
is_observation n (some (number m)) = n == m
is_observation n _ = false

unfoldable pub is_observed : ℕ → Details → List Observation → Bool
unfolding is_observation
is_observed candidate_id details [] = false
is_observed candidate_id details (c ∷ cs) =
    c.candidate_id == candidate_id
      && (c.merge_all
          || is_observation c.source_message_id (Dict.lookup (codes "observation_id") details))
    || is_observed candidate_id details cs

-- The work of the job is about to change its identity, and the job would use it (031).
unfoldable pub is_changing : Job → Store → Bool
unfolding is_observed
is_changing new s =
    not (is_terminal new.state || state_eq new.state stopping)
    && (is_listed new.candidate_id s.changing
        || is_observed new.candidate_id new.details s.observations)

-- The BEFORE triggers.
unfoldable pub guards : ℕ → Job → Job → Store → Result Failure (Unit {0})
unfolding keeps_stopping needs_reconciliation is_unsafe_reclaim is_stale is_reserved is_changing
guards job_id old new s = do
  refuse_if (keeps_stopping job_id old new.state s) (aborted stop_not_confirmed)
  refuse_if (needs_reconciliation old new.state || is_unsafe_reclaim old new.state s)
      (aborted remote_reconciliation_required)
  refuse_if (is_stale job_id old new.state s) (aborted stale_completion)
  refuse_if (is_reserved old new s) (aborted removal_not_confirmed)
  refuse_if (not (state_eq old.state new.state) && is_changing new s) (aborted identity_changing)
