-- ===== src/Queue/Rows/Later.antt =====
-- No write of a job takes a task away, or its generation or revision back.
use eh_bot.Prelude.{
  ℕ, suc, ◌≤◌, ◌≡◌, refl, ◌∙◌, Bool, true, false, not, ◌&&◌, Option, none, some, arith, nat_Eq,
  IfOk, returned, IfOk-bind, IfOk-self, IfOk-refuse_if, IfOk-weaken, if-cases,
}
use eh_bot.Prelude.Dict
use eh_bot.Prelude.Dict.{Dict}
use eh_bot.Downloads.{Provider}
use eh_bot.Queue.{
  Job, Task, Attempt, Operation, Store, aborted, work_slot_occupied, state_eq, is_running,
  is_conversion,
}
use eh_bot.Queue.Guards.{guards}
use eh_bot.Queue.Rows.{
  put_task, takes_slot, holds_slot, mirrored_task, mirrored, mirror_attempt, mirror, claim,
  claim_if, fresh_task, capture_pack, renew, put_job, is_renewal, after, written, update_job,
  update_row, set_columns,
}
use eh_bot.Queue.Rows.Table.{
  Extends, Extends-trans, Extends-later, Extends-refl, Extends-set, Extends-insert, Extends-update,
}

unfoldable pub Grows : Task → Task → Type 0
Grows t u = (t.generation ≤ u.generation) × (t.revision ≤ u.revision)

unfoldable pub SameAttempt : Attempt → Attempt → Type 0
SameAttempt a b =
    (b.task_id ≡ a.task_id) × (b.generation ≡ a.generation) × (b.attempt_no ≡ a.attempt_no)

unfoldable pub SameOperation : Operation → Operation → Type 0
SameOperation o p =
    (p.task_id ≡ o.task_id)
    × (p.attempt_id ≡ o.attempt_id)
    × (p.generation ≡ o.generation)
    × (p.job_id ≡ o.job_id)

-- From tables whose identifiers have been given out to later ones: tasks grow, attempts and operations
-- stay those of their task.
pub record Advances (s s' : Store) : Type 0 where
  pub issued : s.fresh ≤ s'.fresh
  pub tasks : Extends Grows s.tasks s.fresh s'.tasks s'.fresh
  pub attempts : Extends SameAttempt s.attempts s.fresh s'.attempts s'.fresh
  pub operations : Extends SameOperation s.operations s.fresh s'.operations s'.fresh

Grows-refl : (t : Task) → Grows t t
unfolding Grows
Grows-refl t = (omega arith, omega arith)

Grows-trans : (t u v : Task) → Grows t u → Grows u v → Grows t v
unfolding Grows
Grows-trans t u v a b = (omega (arith, a.0, b.0), omega (arith, a.1, b.1))

SameAttempt-refl : (a : Attempt) → SameAttempt a a
unfolding SameAttempt
SameAttempt-refl a = (refl, refl, refl)

SameAttempt-trans : (a b c : Attempt) → SameAttempt a b → SameAttempt b c → SameAttempt a c
unfolding SameAttempt
SameAttempt-trans a b c (x, y, z) (x', y', z') = (x' ∙ x, y' ∙ y, z' ∙ z)

SameOperation-refl : (o : Operation) → SameOperation o o
unfolding SameOperation
SameOperation-refl o = (refl, refl, refl, refl)

SameOperation-trans :
    (o p q : Operation) → SameOperation o p → SameOperation p q → SameOperation o q
unfolding SameOperation
SameOperation-trans o p q (x, y, z, w) (x', y', z', w') = (x' ∙ x, y' ∙ y, z' ∙ z, w' ∙ w)

pub Advances-trans : (s s' s'' : Store) → Advances s s' → Advances s' s'' → Advances s s''
Advances-trans s s' s'' a b = record {
  issued = omega (arith, a.issued, b.issued);
  tasks =
      Extends-trans Grows s.tasks s'.tasks s''.tasks s.fresh s'.fresh s''.fresh Grows-trans a.issued
        a.tasks b.tasks;
  attempts =
      Extends-trans SameAttempt s.attempts s'.attempts s''.attempts s.fresh s'.fresh s''.fresh
        SameAttempt-trans a.issued a.attempts b.attempts;
  operations =
      Extends-trans SameOperation s.operations s'.operations s''.operations s.fresh s'.fresh
        s''.fresh SameOperation-trans a.issued a.operations b.operations;
}

-- One table is written, and the identifiers that are given out are no fewer.
pub tasks-Advances :
    (s : Store) (ts : Dict ℕ Task) (fresh : ℕ) (js : Dict ℕ Job) (packs : Dict ℕ Bool)
    → s.fresh ≤ fresh
    → Extends Grows s.tasks s.fresh ts fresh
    → Advances s (record s { jobs = js; tasks = ts; packs = packs; fresh = fresh })
tasks-Advances s ts fresh js packs l e = record {
  issued = l;
  tasks = e;
  attempts = Extends-later SameAttempt SameAttempt-refl s.attempts s.fresh fresh l;
  operations = Extends-later SameOperation SameOperation-refl s.operations s.fresh fresh l;
}

pub attempts-Advances :
    (s : Store) (rows : Dict ℕ Attempt) (fresh : ℕ)
    → s.fresh ≤ fresh
    → Extends SameAttempt s.attempts s.fresh rows fresh
    → Advances s (record s { attempts = rows; fresh = fresh })
attempts-Advances s rows fresh l e = record {
  issued = l;
  tasks = Extends-later Grows Grows-refl s.tasks s.fresh fresh l;
  attempts = e;
  operations = Extends-later SameOperation SameOperation-refl s.operations s.fresh fresh l;
}

pub operations-Advances :
    (s : Store) (os : Dict ℕ Operation) (fresh : ℕ)
    → s.fresh ≤ fresh
    → Extends SameOperation s.operations s.fresh os fresh
    → Advances s (record s { operations = os; fresh = fresh })
operations-Advances s os fresh l e = record {
  issued = l;
  tasks = Extends-later Grows Grows-refl s.tasks s.fresh fresh l;
  attempts = Extends-later SameAttempt SameAttempt-refl s.attempts s.fresh fresh l;
  operations = e;
}

-- A write of other tables, of jobs and works.
pub later-Advances :
    (s s' : Store)
    → s'.tasks ≡ s.tasks
    → s'.attempts ≡ s.attempts
    → s'.operations ≡ s.operations
    → s.fresh ≤ s'.fresh
    → Advances s s'
later-Advances s s' et ea eo l = record {
  issued = l;
  tasks = rw et (Extends-later Grows Grows-refl s.tasks s.fresh s'.fresh l);
  attempts = rw ea (Extends-later SameAttempt SameAttempt-refl s.attempts s.fresh s'.fresh l);
  operations =
      rw eo (Extends-later SameOperation SameOperation-refl s.operations s.fresh s'.fresh l);
}

pub same-Advances :
    (s s' : Store)
    → s'.tasks ≡ s.tasks
    → s'.attempts ≡ s.attempts
    → s'.operations ≡ s.operations
    → s'.fresh ≡ s.fresh
    → Advances s s'
same-Advances s s' et ea eo ef = later-Advances s s' et ea eo (omega (arith, ef))

pub Advances-refl : (s : Store) → Advances s s
Advances-refl s = same-Advances s s refl refl refl refl

put_task-Advances :
    (id : ℕ) (t u : Task) (s : Store)
    → Dict.lookup id s.tasks ≡ some u
    → Grows u t
    → IfOk (Advances s) (put_task id t s)
unfolding put_task
put_task-Advances id t u s e h =
    IfOk-refuse_if (takes_slot t && holds_slot id t.candidate_id s.tasks)
      (aborted work_slot_occupied)
      λ free. returned (
        tasks-Advances s _ s.fresh s.jobs s.packs (omega arith)
          (Extends-set Grows Grows-refl id t u s.tasks s.fresh e h))

-- A task under the next identifier, beside a write of a job.
pub put_task-fresh :
    (t : Task) (job_id : ℕ) (j : Job) (s : Store)
    → IfOk (Advances s) (put_task s.fresh t (record (put_job job_id j s) { fresh = suc s.fresh }))
unfolding put_task put_job
put_task-fresh t job_id j s =
    IfOk-refuse_if (takes_slot t && holds_slot s.fresh t.candidate_id s.tasks)
      (aborted work_slot_occupied)
      λ free. returned (
        tasks-Advances s _ (suc s.fresh) _ s.packs (omega arith)
          (Extends-insert Grows Grows-refl t s.tasks s.fresh))

mirrored_task-Grows : (old new : Job) (t : Task) → Grows t (mirrored_task old new t)
unfolding mirrored_task Grows
mirrored_task-Grows old new t = (omega arith, omega arith)

mirror_attempt-Extends :
    (o : Option ℕ) (new : Job) (rows : Dict ℕ Attempt) (fresh : ℕ)
    → Extends SameAttempt rows fresh (mirror_attempt o new rows) fresh
unfolding mirror_attempt mirrored SameAttempt
mirror_attempt-Extends none new rows fresh = Extends-refl SameAttempt SameAttempt-refl rows fresh
mirror_attempt-Extends (some id) new rows fresh =
    Extends-update SameAttempt SameAttempt-refl id (mirrored new) rows fresh (mirrored-same new)
  where
    mirrored-same : (new : Job) (a : Attempt) → SameAttempt a (mirrored new a)
    mirrored-same new a =
        if-cases (SameAttempt a) a.is_finished (λ e. SameAttempt-refl a) (λ e. (refl, refl, refl))

mirror-Advances :
    (old new : Job) (s : Store) (o : Option Task)
    → Dict.lookup new.task_id s.tasks ≡ o
    → IfOk (Advances s) (mirror old new s o)
unfolding mirror
mirror-Advances old new s none e = returned (Advances-refl s)
mirror-Advances old new s (some t) e =
    let s1 = record s { attempts = mirror_attempt t.attempt_id new s.attempts } in
    IfOk-weaken
      (put_task-Advances new.task_id (mirrored_task old new t) t s1 e
        (mirrored_task-Grows old new t))
      λ s' a.
        Advances-trans s s1 s'
          (attempts-Advances s _ s.fresh (omega arith)
            (mirror_attempt-Extends t.attempt_id new s.attempts s.fresh))
          a

claim-Advances :
    (new : Job) (s : Store) (o : Option Task)
    → Dict.lookup new.task_id s.tasks ≡ o
    → Advances s (claim new s o)
unfolding claim
claim-Advances new s none e = Advances-refl s
claim-Advances new s (some t) e =
    Advances-trans s _ _
      (tasks-Advances s (Dict.set new.task_id (record t { attempt_id = some s.fresh }) s.tasks)
        s.fresh s.jobs s.packs (omega arith)
        (Extends-set Grows Grows-refl new.task_id (record t { attempt_id = some s.fresh }) t s.tasks
          s.fresh e (unfold Grows in (omega arith, omega arith))))
      (attempts-Advances _ _ (suc s.fresh) (omega arith)
        (Extends-insert SameAttempt SameAttempt-refl _ s.attempts s.fresh))

claim_if-Advances : (b : Bool) (new : Job) (s : Store) → Advances s (claim_if b new s)
unfolding claim_if
claim_if-Advances false new s = Advances-refl s
claim_if-Advances true new s = claim-Advances new s (Dict.lookup new.task_id s.tasks) refl

pub capture_pack-Advances :
    (task_id : ℕ) (p : Provider) (s : Store) → Advances s (capture_pack task_id p s)
unfolding capture_pack
capture_pack-Advances task_id p s =
    if-cases (Advances s) (is_conversion p) (λ e. Advances-refl s)
      (λ e. same-Advances s _ refl refl refl refl)

abbrev renewed_job : Job → ℕ → Job
renewed_job new task_id = record new { task_id = task_id }

abbrev with_renewed : ℕ → Job → Store → Store
with_renewed job_id new s = record (put_job job_id (renewed_job new s.fresh) s) {
  fresh = suc s.fresh;
}

renew-Advances :
    (job_id : ℕ) (new : Job) (s : Store) (o : Option Task)
    → IfOk (Advances s) (renew job_id (renewed_job new s.fresh) (with_renewed job_id new s) o)
unfolding renew
renew-Advances job_id new s none =
    returned {a = with_renewed job_id new s}
      (unfold put_job in later-Advances s (with_renewed job_id new s) refl refl refl (omega arith))
renew-Advances job_id new s (some t) =
    IfOk-bind
      (put_task-fresh (fresh_task job_id (renewed_job new s.fresh) (suc t.generation)) job_id
        (renewed_job new s.fresh) s)
      (λ u a. returned (Advances-trans s u _ a (capture_pack-Advances s.fresh new.provider u)))

after-Advances :
    (renewed : Bool) (job_id : ℕ) (old new : Job) (s : Store)
    → IfOk (Advances s) (after renewed job_id old new s)
unfolding after
after-Advances true job_id old new s = renew-Advances job_id new s (Dict.lookup old.task_id s.tasks)
after-Advances false job_id old new s =
    let s1 = put_job job_id new s in
    IfOk-bind
      (mirror-Advances old new s1 (Dict.lookup new.task_id s.tasks) (unfold put_job in refl))
      (λ u a. returned (
        Advances-trans s s1 _ (unfold put_job in same-Advances s s1 refl refl refl refl) (
          Advances-trans s1 u _ a (
            claim_if-Advances (is_running new.state && not (state_eq old.state new.state)) new u))))

written-Advances :
    (job_id : ℕ) (f : Job → Job) (s : Store) (o : Option Job)
    → IfOk (Advances s) (written job_id f s o)
unfolding written
written-Advances job_id f s none = returned (Advances-refl s)
written-Advances job_id f s (some old) =
    IfOk-bind (IfOk-self (guards job_id old (f old) s))
      (λ u passed. after-Advances (is_renewal old (f old)) job_id old (f old) s)

pub update_job-Advances :
    (job_id : ℕ) (f : Job → Job) (s : Store) → IfOk (Advances s) (update_job job_id f s)
unfolding update_job
update_job-Advances job_id f s = written-Advances job_id f s (Dict.lookup job_id s.jobs)

pub set_columns-Advances :
    (job_id : ℕ) (f : Job → Job) (s : Store) → Advances s (set_columns job_id f s)
unfolding set_columns
set_columns-Advances job_id f s = same-Advances s _ refl refl refl refl

pub grown-Advances :
    (id : ℕ) (f : Task → Task) (s : Store)
    → ((t : Task) → Grows t (f t))
    → Advances s (record s { tasks = update_row id f s.tasks })
grown-Advances id f s h =
    tasks-Advances s _ s.fresh s.jobs s.packs (omega arith)
      (Extends-update Grows Grows-refl id f s.tasks s.fresh h)

pub attempt-Advances :
    (id : ℕ) (f : Attempt → Attempt) (s : Store)
    → ((a : Attempt) → SameAttempt a (f a))
    → Advances s (record s { attempts = update_row id f s.attempts })
attempt-Advances id f s h =
    attempts-Advances s _ s.fresh (omega arith)
      (Extends-update SameAttempt SameAttempt-refl id f s.attempts s.fresh h)

pub operation-Advances :
    (id : ℕ) (f : Operation → Operation) (s : Store)
    → ((o : Operation) → SameOperation o (f o))
    → Advances s (record s { operations = update_row id f s.operations })
operation-Advances id f s h =
    operations-Advances s _ s.fresh (omega arith)
      (Extends-update SameOperation SameOperation-refl id f s.operations s.fresh h)

-- An operation under the next identifier.
pub operation-fresh :
    (o : Operation) (s : Store)
    → Advances s (record s { operations = Dict.set s.fresh o s.operations; fresh = suc s.fresh })
operation-fresh o s =
    operations-Advances s _ (suc s.fresh) (omega arith)
      (Extends-insert SameOperation SameOperation-refl o s.operations s.fresh)
