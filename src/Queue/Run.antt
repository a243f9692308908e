-- ===== src/Queue/Run.antt =====
-- The queue as a state machine: commands, the end of operations, and whatever else writes a job. A
-- transaction that raises leaves the tables as they are.
pub mod Revoked
pub mod Moved
mod Changes
pub mod Outdated
use mathlib.Core.Path.{subst}
use eh_bot.Prelude.{
  ℕ, ◌≡◌, sym, Bool, Option, none, some, Result, ok, err, IfOk, returned, raised, IfOk-ok,
  IfOk-bind, IfOk-self, nat_Eq, Text,
}
use eh_bot.Prelude.Dict
use eh_bot.Queue.{Job, Details, Action, Params, Operation, OperationStatus, Store}
use eh_bot.Queue.Rows.{update_job}
use eh_bot.Queue.Rows.Table.{IsGivenOut, IsExtended, Extends}
use eh_bot.Queue.Rows.Later.{
  Advances, Advances-refl, Advances-trans, same-Advances, Grows, SameAttempt, SameOperation,
  update_job-Advances,
}
use eh_bot.Queue.Commands.{Snapshot, Reply, found_job, task_snapshot}
use eh_bot.Queue.Commands.Requeue.{apply, apply_action}
use eh_bot.Queue.Commands.Advances.{apply_action-Advances}
use eh_bot.Queue.Jobs.{insert_job, delete_job, open_removal, request_replacement}
use eh_bot.Queue.Jobs.Advances.{
  insert_job-Advances, delete_job-Advances, open_removal-Advances, request_replacement-Advances,
  operation_error-Advances,
}
use eh_bot.Queue.Ending.{operation_error}
use eh_bot.Queue.Finish.{finish_operation}
use eh_bot.Queue.Finish.Advances.{finish_operation-Advances}

-- One committed transaction: a command, the end of an operation, a write of a job's columns by a worker or a
-- provider, whichever they are, a job that is inserted or deleted, the operation of a removal, the request of
-- another account, the error of an operation, and whatever writes the other tables.
pub data Step (s s' : Store) : Type 0 where
  command :
      (job_id : ℕ) (action : Action) (current : Snapshot) (params : Params) (reply : Reply)
      → apply job_id action current params s ≡ ok (reply, s')
      → Step s s'
  finish :
      (id : ℕ) (o : Operation) (replacement : Option Details)
      → finish_operation id o replacement s ≡ ok s'
      → Step s s'
  write : (job_id : ℕ) (f : Job → Job) → update_job job_id f s ≡ ok s' → Step s s'
  insert : (j : Job) (job_id : ℕ) → insert_job j s ≡ ok (job_id, s') → Step s s'
  delete : (pending : ℕ → Bool) (job_id : ℕ) → delete_job pending job_id s ≡ ok s' → Step s s'
  reserve :
      (job_id : ℕ) (j : Job) (attempt_id : Option ℕ) (generation : ℕ) (params : Params)
      (status : OperationStatus)
      → s' ≡ open_removal job_id j attempt_id generation params status s
      → Step s s'
  request :
      (job_id : ℕ) (j : Job) (current : Snapshot) (params : Params) (id : ℕ)
      → request_replacement job_id j current params s ≡ ok (id, s')
      → Step s s'
  fail : (id : ℕ) (code : Text) → s' ≡ operation_error id code s → Step s s'
  elsewhere :
      s'.jobs ≡ s.jobs
      → s'.tasks ≡ s.tasks
      → s'.attempts ≡ s.attempts
      → s'.operations ≡ s.operations
      → s'.fresh ≡ s.fresh
      → Step s s'

pub data Reach (s : Store) : Store → Type 0 where
  here : Reach s s
  next : {u s'' : Store} → Reach s u → Step u s'' → Reach s s''

pub apply-Advances :
    (job_id : ℕ) (action : Action) (current : Snapshot) (params : Params) (s : Store)
    → IfOk (λ p. Advances s p.1) (apply job_id action current params s)
unfolding apply
apply-Advances job_id action current params s =
    IfOk-bind (IfOk-self (found_job (Dict.lookup job_id s.jobs))) λ j found.
      IfOk-bind (apply_action-Advances job_id j action current params s)
        λ p a. IfOk-bind (IfOk-self (task_snapshot job_id p.1)) λ snapshot seen. returned a

Step-Advances : (s s' : Store) → Step s s' → Advances s s'
Step-Advances s s' (command job_id action current params reply e) =
    IfOk-ok {P = λ p. Advances s p.1} (apply-Advances job_id action current params s) e
Step-Advances s s' (finish id o replacement e) =
    IfOk-ok {P = Advances s} (finish_operation-Advances id o replacement s) e
Step-Advances s s' (write job_id f e) = IfOk-ok {P = Advances s} (update_job-Advances job_id f s) e
Step-Advances s s' (insert j job_id e) =
    IfOk-ok {P = λ q. Advances s q.1} (insert_job-Advances j s) e
Step-Advances s s' (delete pending job_id e) =
    IfOk-ok {P = Advances s} (delete_job-Advances pending job_id s) e
Step-Advances s s' (reserve job_id j attempt_id generation params status e) =
    subst (Advances s) (sym e)
      (open_removal-Advances job_id j attempt_id generation params status s)
Step-Advances s s' (request job_id j current params id e) =
    IfOk-ok {P = λ q. Advances s q.1} (request_replacement-Advances job_id j current params s) e
Step-Advances s s' (fail id code e) =
    subst (Advances s) (sym e) (operation_error-Advances id code s)
Step-Advances s s' (elsewhere jobs tasks attempts operations fresh) =
    same-Advances s s' tasks attempts operations fresh

pub Reach-Advances : (s s' : Store) → Reach s s' → Advances s s'
Reach-Advances s s' here = Advances-refl s
Reach-Advances s s' (next {u} r st) =
    Advances-trans s u s' (Reach-Advances s u r) (Step-Advances u s' st)

-- Where every identifier of a task, an attempt or an operation has been given out at the start, then whatever
-- transactions are committed, in whatever order: every such identifier has been given out at the end, and the
-- ones that are new had not been at the start; no task disappears, and neither its revision nor its generation falls
-- back; no attempt and no operation disappears or passes to another task, generation or number.
pub Reach-IsLater :
    (s s' : Store)
    → IsGivenOut s.tasks s.fresh
    → IsGivenOut s.attempts s.fresh
    → IsGivenOut s.operations s.fresh
    → Reach s s'
    → IsExtended Grows s.tasks s.fresh s'.tasks s'.fresh
      × IsExtended SameAttempt s.attempts s.fresh s'.attempts s'.fresh
      × IsExtended SameOperation s.operations s.fresh s'.operations s'.fresh
unfolding Extends
Reach-IsLater s s' gt ga go r =
    let a = Reach-Advances s s' r in (a.tasks gt, a.attempts ga, a.operations go)
