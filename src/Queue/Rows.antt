-- ===== src/Queue/Rows.antt =====
-- One `UPDATE download_jobs … WHERE id = ?` with the triggers that it fires (migrations 027, 028
-- and 037 of app/db/migrations, the guards apart), and the other statements of the queue.
pub mod Table
pub mod Later
use eh_bot.Prelude.{
  ℕ, suc, ◌+◌, Bool, true, false, not, ◌&&◌, ◌||◌, Option, none, some, List, [], ◌∷◌, ltb, ◌==◌,
  if◌then◌else◌, Text, codes, Result, ok, err, ◌>>=◌, ◌>>◌, refuse_if, nat_Eq,
}
use eh_bot.Prelude.Dict
use eh_bot.Prelude.Dict.{Dict}
use eh_bot.Approval.{Status, approved}
use eh_bot.Downloads.{
  JobState, pending, downloading, completed, failed, cancelled, paused, stopping, Provider,
  waiting_volumes, waiting_password, waiting_path,
}
use eh_bot.Queue.{
  Job, TaskStatus, in_state, removed, Task, Attempt, Action, restart, retry, replace_account,
  Operation, is_completed, Work, Store, Refusal, stop_not_confirmed, remote_reconciliation_required,
  stale_completion, removal_not_confirmed, work_slot_occupied, Failure, aborted, state_eq,
  is_terminal, is_queued, is_running, is_revoked, is_conversion, is_torrent, is_open, is_listed,
  is_unresolved, Details,
}
use eh_bot.Queue.Guards.{guards}

-- The task takes the work's download slot (queue_download_slot).
unfoldable pub takes_slot : Task → Bool
takes_slot t = elim t.status [
  | in_state completed ↦ false
  | in_state failed ↦ false
  | in_state cancelled ↦ false
  | removed ↦ false
  | _ ↦ not (is_conversion t.provider)
]

unfoldable pub holds_slot : ℕ → ℕ → Dict ℕ Task → Bool
unfolding takes_slot
holds_slot task_id candidate_id [] = false
holds_slot task_id candidate_id ((id, t) ∷ ts) =
    not (id == task_id) && t.candidate_id == candidate_id && takes_slot t
    || holds_slot task_id candidate_id ts

-- A write of `queue_tasks` under its unique index.
unfoldable pub put_task : ℕ → Task → Store → Result Failure Store
unfolding holds_slot takes_slot
put_task task_id t s = do
  refuse_if (takes_slot t && holds_slot task_id t.candidate_id s.tasks) (aborted work_slot_occupied)
  ok (record s { tasks = Dict.set task_id t s.tasks })

-- What waits for the operator ends an attempt too.
unfoldable pub ends_attempt : JobState → Bool
ends_attempt waiting_volumes = true
ends_attempt waiting_password = true
ends_attempt waiting_path = true
ends_attempt st = is_terminal st

unfoldable pub mirrored : Job → Attempt → Attempt
unfolding ends_attempt
mirrored new a = if a.is_finished then a else record a {
  status = new.state;
  error_code = new.error_code;
  is_finished = ends_attempt new.state;
}

unfoldable pub change : {V : Type 0} → ℕ → (V → V) → Dict ℕ V → Option V → Dict ℕ V
change id f d none = d
change id f d (some v) = Dict.set id (f v) d

-- `UPDATE … WHERE id = ?` of one row of a table, if it is there
unfoldable pub update_row : {V : Type 0} → ℕ → (V → V) → Dict ℕ V → Dict ℕ V
unfolding change
update_row id f d = change id f d (Dict.lookup id d)

unfoldable pub mirror_attempt : Option ℕ → Job → Dict ℕ Attempt → Dict ℕ Attempt
unfolding mirrored update_row
mirror_attempt none new rows = rows
mirror_attempt (some id) new rows = update_row id (mirrored new) rows

abbrev one_if : Bool → ℕ
one_if b = if b then 1 else 0

-- The task behind an update of its job.
unfoldable pub mirrored_task : Job → Job → Task → Task
mirrored_task old new t = record t {
  status = in_state new.state;
  priority = new.priority;
  candidate_id = new.candidate_id;
  revision =
      t.revision
      + one_if (not (state_eq old.state new.state) || not (old.priority == new.priority));
  generation = t.generation + one_if (not (state_eq old.state new.state) && is_revoked new.state);
}

-- queue_job_update
unfoldable pub mirror : Job → Job → Store → Option Task → Result Failure Store
unfolding mirrored_task mirror_attempt put_task
mirror old new s none = ok s
mirror old new s (some t) =
    put_task new.task_id (mirrored_task old new t)
      (record s { attempts = mirror_attempt t.attempt_id new s.attempts })

unfoldable pub later_attempt : ℕ → Dict ℕ Attempt → ℕ
later_attempt task_id [] = 0
later_attempt task_id ((id, a) ∷ rows) =
    let n = later_attempt task_id rows in
    if a.task_id == task_id && ltb n a.attempt_no then a.attempt_no else n

-- queue_job_claim, behind queue_job_update
unfoldable pub claim : Job → Store → Option Task → Store
unfolding later_attempt
claim new s none = s
claim new s (some t) = record s {
  attempts =
      Dict.set s.fresh
        (record {
          task_id = new.task_id;
          generation = t.generation;
          attempt_no = suc (later_attempt new.task_id s.attempts);
          status = new.state;
          error_code = none;
          is_finished = false;
        })
        s.attempts;
  tasks = Dict.set new.task_id (record t { attempt_id = some s.fresh }) s.tasks;
  fresh = suc s.fresh;
}

unfoldable pub claim_if : Bool → Job → Store → Store
unfolding claim
claim_if false new s = s
claim_if true new s = claim new s (Dict.lookup new.task_id s.tasks)

-- The task that a new run of the job gets.
unfoldable pub fresh_task : ℕ → Job → ℕ → Task
fresh_task job_id new generation = record {
  job_id = job_id;
  candidate_id = new.candidate_id;
  provider = new.provider;
  status = in_state new.state;
  revision = 1;
  generation = generation;
  priority = new.priority;
  attempt_id = none;
}

-- queue_pack_capture
unfoldable pub capture_pack : ℕ → Provider → Store → Store
capture_pack task_id provider s =
    if is_conversion provider
    then s
    else record s { packs = Dict.set task_id (s.pack_default provider) s.packs }

-- queue_job_restart: a new identity for the job, of the next generation
unfoldable pub renew : ℕ → Job → Store → Option Task → Result Failure Store
unfolding fresh_task capture_pack put_task
renew job_id new s none = ok s
renew job_id new s (some t) = do
  s' ← put_task new.task_id (fresh_task job_id new (suc t.generation)) s
  ok (capture_pack new.task_id new.provider s')

unfoldable pub put_job : ℕ → Job → Store → Store
put_job job_id j s = record s { jobs = Dict.set job_id j s.jobs }

unfoldable pub is_renewal : Job → Job → Bool
is_renewal old new = is_terminal old.state && is_queued new.state

-- The AFTER triggers, on the row as it stands.
unfoldable pub after : Bool → ℕ → Job → Job → Store → Result Failure Store
unfolding renew put_job mirror claim_if
after true job_id old new s =
    renew job_id (record new { task_id = s.fresh })
      (record (put_job job_id (record new { task_id = s.fresh }) s) { fresh = suc s.fresh })
      (Dict.lookup old.task_id s.tasks)
after false job_id old new s = do
  s' ← mirror old new (put_job job_id new s) (Dict.lookup new.task_id s.tasks)
  ok (claim_if (is_running new.state && not (state_eq old.state new.state)) new s')

unfoldable pub written : ℕ → (Job → Job) → Store → Option Job → Result Failure Store
unfolding guards after is_renewal
written job_id f s none = ok s
written job_id f s (some old) = do
  guards job_id old (f old) s
  after (is_renewal old (f old)) job_id old (f old) s

-- `UPDATE download_jobs SET … WHERE id = ?`, of the state, the priority or the details
unfoldable pub update_job : ℕ → (Job → Job) → Store → Result Failure Store
unfolding written
update_job job_id f s = written job_id f s (Dict.lookup job_id s.jobs)

-- the same of columns that no trigger reads
unfoldable pub set_columns : ℕ → (Job → Job) → Store → Store
unfolding update_row
set_columns job_id f s = record s { jobs = update_row job_id f s.jobs }
