-- ===== src/Queue/Run/Revoked.antt =====
-- An execution that has been asked to stop never writes again.
use mathlib.Core.Path.{subst}
use eh_bot.Prelude.{
  ℕ, ◌<◌, ◌≡◌, refl, ◌∙◌, ap, Bool, true, false, not, ◌&&◌, ◌||◌, Option, some, arith, ok, nat_Eq,
  IfOk, returned, IfOk-ok, IfOk-bind, IfOk-self, IfOk-refuse_if,
}
use eh_bot.Prelude.Dict
use eh_bot.Downloads.{JobState, cancelled, stopping}
use eh_bot.Queue.{
  Job, Task, Action, cancel, switch_source, Params, Store, aborted, work_slot_occupied, state_eq,
  is_revoked, is_running, is_queued, is_terminal, is_conversion, job_already_completed,
  job_not_cancellable, provider_unsupported, operation_in_progress, has_open_operation,
}
use eh_bot.Queue.Guards.{guards}
use eh_bot.Queue.Rows.{
  put_task, takes_slot, holds_slot, mirrored_task, mirror, claim_if, after, is_renewal, written,
  update_job, put_job,
}
use eh_bot.Queue.Rows.Table.{IsGivenOut, Extends}
use eh_bot.Queue.Rows.Later.{Advances, Grows}
use eh_bot.Queue.Commands.{
  Snapshot, Reply, found_job, task_snapshot, open_operation, move_to, stop_or_cancel, apply_stop,
  is_done, is_switch, is_source, is_immediate,
}
use eh_bot.Queue.Commands.{or_take_over, apply_cancel, apply_switch}
use eh_bot.Queue.Commands.Requeue.{apply, apply_action}
use eh_bot.Queue.Execution.{Execution, check, is_current}
use eh_bot.Queue.Run.{Reach, Reach-Advances, apply-Advances}

-- The task is there, and of a later generation than the one given.
pub record IsPast (generation : ℕ) (o : Option Task) : Type 0 where
  pub task : Task
  pub kept : o ≡ some task
  pub later : generation < task.generation

IsPast-check :
    (e : Execution) (s : Store)
    → IsPast e.generation (Dict.lookup e.task_id s.tasks)
    → check e s ≡ false
unfolding check is_current
IsPast-check e s p = rw (p.kept) (ground (arith, p.later))

-- An execution whose task has moved on to a later generation fails its check in every table that is
-- reached from there.
pub check-IsPast :
    (e : Execution) (s s' : Store)
    → IsGivenOut s.tasks s.fresh
    → IsPast e.generation (Dict.lookup e.task_id s.tasks)
    → Reach s s'
    → check e s' ≡ false
unfolding Extends Grows
check-IsPast e s s' g p r =
    let grown = ((Reach-Advances s s' r).tasks g).kept e.task_id p.task p.kept in
    IsPast-check e s' (record {
      task = grown.row;
      kept = grown.found;
      later = omega (arith, grown.same.0, p.later);
    })

put_task-IsPast :
    (id generation : ℕ) (t : Task) (s : Store)
    → generation < t.generation
    → IfOk (λ s'. IsPast generation (Dict.lookup id s'.tasks)) (put_task id t s)
unfolding put_task
put_task-IsPast id generation t s l =
    IfOk-refuse_if (takes_slot t && holds_slot id t.candidate_id s.tasks)
      (aborted work_slot_occupied)
      λ free. returned (record { task = t; kept = Dict.lookup-set_self id t s.tasks; later = l })

open_operation-keeps :
    (job_id : ℕ) (j : Job) (action : Action) (current : Snapshot) (params : Params) (s : Store)
    → IfOk
        (λ p. (p.1.jobs ≡ s.jobs) × (p.1.tasks ≡ s.tasks))
        (open_operation job_id j action current params s)
unfolding open_operation
open_operation-keeps job_id j action current params s =
    IfOk-refuse_if (has_open_operation current.task_id s.operations) operation_in_progress
      λ free. returned (refl, refl)

-- A stop or a cancel of a job that was neither.
pub record IsRevoking (f : Job → Job) (j : Job) : Type 0 where
  pub target : is_revoked (f j).state ≡ true
  pub changed : state_eq j.state (f j).state ≡ false
  pub waiting : is_queued (f j).state ≡ false
  pub idle : is_running (f j).state ≡ false
  pub identity : (f j).task_id ≡ j.task_id

mirror-IsPast :
    (old new : Job) (t : Task) (s : Store)
    → is_revoked new.state ≡ true
    → state_eq old.state new.state ≡ false
    → IfOk
        (λ s'. IsPast t.generation (Dict.lookup new.task_id s'.tasks))
        (mirror old new s (some t))
unfolding mirror mirrored_task
mirror-IsPast old new t s r c =
    put_task-IsPast new.task_id t.generation (mirrored_task old new t) _ (rw (r, c) (omega arith))

after-IsPast :
    (job_id : ℕ) (old new : Job) (t : Task) (s : Store)
    → Dict.lookup new.task_id s.tasks ≡ some t
    → is_revoked new.state ≡ true
    → state_eq old.state new.state ≡ false
    → is_running new.state ≡ false
    → IfOk
        (λ s'. IsPast t.generation (Dict.lookup new.task_id s'.tasks))
        (after false job_id old new s)
unfolding after put_job claim_if
after-IsPast job_id old new t s e r c i =
    rw (e, i) (IfOk-bind (mirror-IsPast old new t (put_job job_id new s) r c) λ s' p. returned p)

after_if-IsPast :
    (renewed : Bool) (job_id id : ℕ) (old new : Job) (t : Task) (s : Store)
    → renewed ≡ false
    → new.task_id ≡ id
    → Dict.lookup id s.tasks ≡ some t
    → is_revoked new.state ≡ true
    → state_eq old.state new.state ≡ false
    → is_running new.state ≡ false
    → IfOk (λ s'. IsPast t.generation (Dict.lookup id s'.tasks)) (after renewed job_id old new s)
after_if-IsPast true job_id id old new t s b same e r c i = cc
after_if-IsPast false job_id id old new t s b same e r c i =
    subst
      (λ k.
        IfOk (λ s'. IsPast t.generation (Dict.lookup k s'.tasks)) (after false job_id old new s))
      same (after-IsPast job_id old new t s (ap (λ k. Dict.lookup k s.tasks) same ∙ e) r c i)

pub update_job-IsPast :
    (job_id : ℕ) (f : Job → Job) (s : Store) (j : Job) (t : Task)
    → IsRevoking f j
    → Dict.lookup job_id s.jobs ≡ some j
    → Dict.lookup j.task_id s.tasks ≡ some t
    → IfOk (λ s'. IsPast t.generation (Dict.lookup j.task_id s'.tasks)) (update_job job_id f s)
unfolding update_job written is_renewal
update_job-IsPast job_id f s j t v ej et = rw ej (
    IfOk-bind (IfOk-self (guards job_id j (f j) s)) λ u passed.
      after_if-IsPast (is_terminal j.state && is_queued (f j).state) job_id j.task_id j (f j) t s
        (ground (arith, v.waiting)) v.identity et v.target v.changed v.idle)

move_to-IsRevoking :
    (st : JobState) (j : Job)
    → is_revoked st ≡ true
    → state_eq j.state st ≡ false
    → IsRevoking (move_to st) j
unfolding move_to is_revoked is_queued is_running
move_to-IsRevoking st j r c = record {
  target = r;
  changed = c;
  waiting = ground arith;
  idle = ground arith;
  identity = refl;
}

stop_or_cancel-IsPast :
    (now : Bool) (job_id : ℕ) (j : Job) (action : Action) (current : Snapshot) (params : Params)
    (s : Store) (t : Task)
    → Dict.lookup job_id s.jobs ≡ some j
    → Dict.lookup j.task_id s.tasks ≡ some t
    → (state_eq j.state cancelled || state_eq j.state stopping) ≡ false
    → IfOk
        (λ p. IsPast t.generation (Dict.lookup j.task_id p.1.tasks))
        (stop_or_cancel now job_id j action current params s)
unfolding stop_or_cancel open_operation
stop_or_cancel-IsPast true job_id j action current params s t ej et c =
    IfOk-bind
      (update_job-IsPast job_id (move_to cancelled) s j t
        (move_to-IsRevoking cancelled j (unfold is_revoked in refl) (ground arith)) ej et)
      λ s' p. returned p
stop_or_cancel-IsPast false job_id j action current params s t ej et c =
    IfOk-bind (open_operation-keeps job_id j action current params s) λ p k.
      IfOk-bind
        (update_job-IsPast job_id (move_to stopping) p.1 j t
          (move_to-IsRevoking stopping j (unfold is_revoked in refl) (ground arith))
          (ap (λ d. Dict.lookup job_id d) k.0 ∙ ej) (ap (λ d. Dict.lookup j.task_id d) k.1 ∙ et))
        λ s'' past. returned past

apply_stop-IsPast :
    (job_id : ℕ) (j : Job) (action : Action) (current : Snapshot) (params : Params) (s : Store)
    (t : Task)
    → Dict.lookup job_id s.jobs ≡ some j
    → Dict.lookup j.task_id s.tasks ≡ some t
    → IfOk
        (λ p. IsPast t.generation (Dict.lookup j.task_id p.1.tasks))
        (apply_stop job_id j action current params s)
unfolding apply_stop
apply_stop-IsPast job_id j action current params s t ej et =
    IfOk-refuse_if (is_done j.state) job_already_completed λ d.
      IfOk-refuse_if (state_eq j.state cancelled || state_eq j.state stopping) job_not_cancellable
        λ c.
          IfOk-refuse_if (is_switch action && not (is_source params.provider)) provider_unsupported
            λ e.
              stop_or_cancel-IsPast (is_immediate action j.state) job_id j action current params s t
                ej et c

-- The commands that take the work away from a running execution.
pub data IsStop : Action → Type 0 where
  cancels : IsStop cancel
  switches : IsStop switch_source

apply_action-IsPast :
    {action : Action} (stop : IsStop action) (job_id : ℕ) (j : Job) (current : Snapshot)
    (params : Params) (s : Store) (t : Task)
    → state_eq j.state stopping ≡ false
    → Dict.lookup job_id s.jobs ≡ some j
    → Dict.lookup j.task_id s.tasks ≡ some t
    → IfOk
        (λ p. IsPast t.generation (Dict.lookup j.task_id p.1.tasks))
        (apply_action job_id j action current params s)
unfolding apply_action apply_cancel or_take_over apply_switch
apply_action-IsPast cancels job_id j current params s t n ej et =
    rw n (apply_stop-IsPast job_id j cancel current params s t ej et)
apply_action-IsPast switches job_id j current params s t n ej et =
    IfOk-refuse_if (is_conversion j.provider) provider_unsupported
      λ e. apply_stop-IsPast job_id j switch_source current params s t ej et

apply-IsPast :
    (action : Action) (job_id : ℕ) (j : Job) (current : Snapshot) (params : Params) (s : Store)
    (t : Task)
    → IsStop action
    → state_eq j.state stopping ≡ false
    → Dict.lookup job_id s.jobs ≡ some j
    → Dict.lookup j.task_id s.tasks ≡ some t
    → IfOk
        (λ p. IsPast t.generation (Dict.lookup j.task_id p.1.tasks))
        (apply job_id action current params s)
unfolding apply found_job
apply-IsPast action job_id j current params s t stop n ej et = rw ej (
    IfOk-bind (apply_action-IsPast stop job_id j current params s t n ej et)
      λ p past. IfOk-bind (IfOk-self (task_snapshot job_id p.1)) λ snapshot seen. returned past)

current-generation :
    (e : Execution) (t : Task) → is_current e (some t) ≡ true → e.generation ≡ t.generation
unfolding is_current
current-generation e t h = ground arith

check-generation :
    (e : Execution) (s : Store) (t : Task)
    → Dict.lookup e.task_id s.tasks ≡ some t
    → check e s ≡ true
    → e.generation ≡ t.generation
unfolding check
check-generation e s t et h =
    current-generation e t (subst (λ o. is_current e o ≡ true) et (ground arith))

-- Once a cancel or a switch of the source is accepted, an execution of the job's task that was valid
-- when the command came never passes its check again, whatever transactions follow. The job must not
-- have been stopping already, and no identifier may have been given out in advance.
pub apply-revokes :
    (action : Action) (job_id : ℕ) (j : Job) (current : Snapshot) (params : Params)
    (s s' s'' : Store) (t : Task) (reply : Reply) (e : Execution)
    → IsStop action
    → state_eq j.state stopping ≡ false
    → Dict.lookup job_id s.jobs ≡ some j
    → Dict.lookup j.task_id s.tasks ≡ some t
    → IsGivenOut s.tasks s.fresh
    → apply job_id action current params s ≡ ok (reply, s')
    → e.task_id ≡ j.task_id
    → check e s ≡ true
    → Reach s' s''
    → check e s'' ≡ false
unfolding Extends Grows
apply-revokes action job_id j current params s s' s'' t reply e stop n ej et g h same valid r =
    let past =
      IfOk-ok {P = λ p. IsPast t.generation (Dict.lookup j.task_id p.1.tasks)}
        (apply-IsPast action job_id j current params s t stop n ej et) h in
    let later =
      IfOk-ok {P = λ p. Advances s p.1} (apply-Advances job_id action current params s) h in
    check-IsPast e s' s'' (later.tasks g).numbered
      (record {
        task = past.task;
        kept = ap (λ k. Dict.lookup k s'.tasks) same ∙ past.kept;
        later = omega (
          arith,
          past.later,
          check-generation e s t (ap (λ k. Dict.lookup k s.tasks) same ∙ et) valid,
        );
      })
      r
