-- ===== src/Queue/Receipts.antt =====
-- The commands of a client: `QueueControl.command` and `_command_sync` of app/downloads/queue.py, which
-- answer a command that is sent again from its receipt.
pub mod Once
pub mod Exclusive
use eh_bot.Prelude.{
  ℕ, ◌+◌, Bool, true, false, not, ◌&&◌, ◌||◌, Option, none, some, List, [], ◌∷◌, ltb, length, ◌⊎◌,
  inl, inr, ◌==◌, if◌then◌else◌, Text, list_eq, Result, ok, err, ◌>>=◌, ◌>>◌, refuse_if, nat_Eq,
  text_Eq,
}
use eh_bot.Prelude.Dict
use eh_bot.Prelude.Dict.{Dict}
use eh_bot.Downloads.{JobState, cancelled, stopping, Provider, exhentai}
use eh_bot.Queue.{
  TaskStatus, in_state, removed, Job, Action, switch_source, Params, Operation, Work, Store,
  Failure, job_not_found, task_superseded, provider_unsupported, job_already_completed,
  job_not_cancellable, task_id_required, revision_required, idempotency_key_required,
  idempotency_conflict, revision_conflict, source_changed, candidate_not_found,
  source_preflight_required, missing_params, preflight_failed, is_open, is_revoked,
}
use eh_bot.Queue.Commands.{Snapshot, task_snapshot, found_job, Reply, is_source, is_switch, is_done}
use eh_bot.Queue.Commands.Requeue.{apply}
use eh_bot.Queue.Ending.{equal_id}

-- A command as it comes in. `none` stands for a task identity that is no text or empty, and for a
-- revision that is no int or below zero.
pub record Request : Type 0 where
  pub job_id : ℕ
  pub action : Action
  pub task_id : Option ℕ
  pub expected_revision : Option ℕ
  pub key : Text
  pub params : Params

-- A row of `queue_command_receipts`.
pub record Receipt : Type 0 where
  pub digest : Text
  pub reply : Reply
  pub created_at : ℕ

pub record Desk : Type 0 where
  pub store : Store
  pub receipts : Dict Text Receipt

abbrev pub week : ℕ
week = 604800

-- What `_switch_reference` reads of the source: the gallery, or the preview with its pages.
pub data Reference : Type 0 where
  gallery : Option ℕ → Option Text → Reference
  preview : Option Text → Option Text → Reference

unfoldable pub reference_of : Provider → Work → Reference
reference_of exhentai w = gallery w.ex_gid w.ex_gallery_token
reference_of _ w = preview w.preview_url w.pages

unfoldable pub reference_in : Option Provider → Option Work → Result Failure Reference
unfolding reference_of
reference_in none w = err missing_params
reference_in (some p) none = err candidate_not_found
reference_in (some p) (some w) = ok (reference_of p w)

-- `_switch_reference`, of the provider in the params
unfoldable pub switch_reference : ℕ → Option Provider → Store → Result Failure Reference
unfolding reference_in
switch_reference candidate_id provider s = reference_in provider (Dict.lookup candidate_id s.works)

unfoldable pub equal_text : Option Text → Option Text → Bool
equal_text none none = true
equal_text (some t) (some u) = list_eq t u
equal_text _ _ = false

unfoldable pub equal_reference : Reference → Reference → Bool
unfolding equal_text
equal_reference (gallery g t) (gallery h u) = equal_id g h && equal_text t u
equal_reference (preview g t) (preview h u) = equal_text g h && equal_text t u
equal_reference _ _ = false

unfoldable pub or_refuse : {A : Type 0} → Failure → Option A → Result Failure A
or_refuse e none = err e
or_refuse e (some a) = ok a

-- The identity and the revision that the client has read.
unfoldable pub checked : Request → Result Failure (ℕ × ℕ)
unfolding or_refuse
checked r = do
  task_id ← or_refuse task_id_required r.task_id
  revision ← or_refuse revision_required r.expected_revision
  refuse_if (revision == 0) revision_required
  refuse_if (length r.key == 0 || ltb 200 (length r.key)) idempotency_key_required
  ok (task_id, revision)

-- `task_snapshot`, if it is what the client has read
unfoldable pub agreed : Request → ℕ → ℕ → Store → Result Failure Snapshot
unfolding task_snapshot
agreed r task_id revision s = do
  current ← task_snapshot r.job_id s
  refuse_if (not (current.task_id == task_id)) task_superseded
  refuse_if (not (current.revision == revision)) revision_conflict
  ok current

-- What the check of the source has read is still so.
unfoldable pub unchanged : Option (ℕ × Reference) → Params → Store → Result Failure (Unit {0})
unfolding switch_reference equal_reference
unchanged none params s = ok tt
unchanged (some (candidate_id, reference)) params s = do
  now ← switch_reference candidate_id params.provider s
  refuse_if (not (equal_reference now reference)) source_changed

-- The receipt's operation has not ended.
unfoldable pub is_held : Option ℕ → Dict ℕ Operation → Bool
unfolding is_open
is_held none operations = false
is_held (some id) operations = is_held_by (Dict.lookup id operations)
  where
    is_held_by : Option Operation → Bool
    is_held_by none = false
    is_held_by (some o) = is_open o

unfoldable pub is_expired : ℕ → Store → Receipt → Bool
unfolding is_held
is_expired now s receipt =
    ltb (receipt.created_at + week) now && not (is_held receipt.reply.operation_id s.operations)

-- `DELETE FROM queue_command_receipts …`
unfoldable pub purged : ℕ → Store → Dict Text Receipt → Dict Text Receipt
unfolding is_expired
purged now s [] = []
purged now s ((key, receipt) ∷ rows) =
    let rest = purged now s rows in if is_expired now s receipt then rest else (key, receipt) ∷ rest

-- The digest of a command: sha256 of the text of all but its key.
module _ (sha : ℕ → Action → ℕ → ℕ → Params → Text) where
  unfoldable pub digest_of : Request → ℕ → ℕ → Text
  digest_of r task_id revision = sha r.job_id r.action task_id revision r.params

  unfoldable pub answered : Text → Receipt → Result Failure Reply
  answered digest receipt = do
    refuse_if (not (list_eq receipt.digest digest)) idempotency_conflict
    ok receipt.reply

  -- a command without a receipt
  unfoldable pub execute :
      Option (ℕ × Reference) → ℕ → Request → ℕ → ℕ → Desk → Result Failure (Reply × Desk)
  unfolding digest_of agreed unchanged purged
  execute prepared now r task_id revision d = do
    current ← agreed r task_id revision d.store
    unchanged prepared r.params d.store
    (reply, s) ← apply r.job_id r.action current r.params d.store
    ok (
      reply,
      record {
        store = s;
        receipts = purged now s (
            Dict.set r.key
              (record { digest = digest_of r task_id revision; reply = reply; created_at = now })
              d.receipts);
      },
    )

  unfoldable pub by_receipt :
      Option (ℕ × Reference)
      → ℕ
      → Request
      → ℕ
      → ℕ
      → Desk
      → Option Receipt
      → Result Failure (Reply × Desk)
  unfolding answered execute digest_of
  by_receipt prepared now r task_id revision d none = execute prepared now r task_id revision d
  by_receipt prepared now r task_id revision d (some receipt) = do
    reply ← answered (digest_of r task_id revision) receipt
    ok (reply, d)

  -- `_command_sync`
  unfoldable pub command_sync :
      Option (ℕ × Reference) → ℕ → Request → Desk → Result Failure (Reply × Desk)
  unfolding checked by_receipt
  command_sync prepared now r d = do
    (task_id, revision) ← checked r
    by_receipt prepared now r task_id revision d (Dict.lookup r.key d.receipts)

  unfoldable pub is_ended : TaskStatus → Bool
  is_ended (in_state st) = is_done st
  is_ended removed = false

  unfoldable pub is_stopped : TaskStatus → Bool
  is_stopped (in_state st) = is_revoked st
  is_stopped removed = false

  -- the guards of a switch, before its source is probed
  unfoldable pub switch_source_of : Request → ℕ → ℕ → Store → Result Failure (ℕ × Reference)
  unfolding agreed is_ended is_stopped is_source switch_reference found_job
  switch_source_of r task_id revision s = do
    current ← agreed r task_id revision s
    refuse_if (is_ended current.state) job_already_completed
    refuse_if (is_stopped current.state) job_not_cancellable
    refuse_if (not (is_source r.params.provider)) provider_unsupported
    j ← found_job (Dict.lookup r.job_id s.jobs)
    reference ← switch_reference j.candidate_id r.params.provider s
    ok (j.candidate_id, reference)

  unfoldable pub prepare_by :
      Request → ℕ → ℕ → Desk → Option Receipt → Result Failure (Reply ⊎ (ℕ × Reference))
  unfolding answered digest_of switch_source_of
  prepare_by r task_id revision d none = do
    source ← switch_source_of r task_id revision d.store
    ok (inr source)
  prepare_by r task_id revision d (some receipt) = do
    reply ← answered (digest_of r task_id revision) receipt
    ok (inl reply)

  -- `_command_sync(…, prepare=True)`
  unfoldable pub prepare : Request → Desk → Result Failure (Reply ⊎ (ℕ × Reference))
  unfolding checked prepare_by
  prepare r d = do
    (task_id, revision) ← checked r
    prepare_by r task_id revision d (Dict.lookup r.key d.receipts)

  -- after the probe, in the tables as they are by then
  unfoldable pub after_probe :
      Bool → ℕ → Request → Desk → Reply ⊎ (ℕ × Reference) → Result Failure (Reply × Desk)
  unfolding command_sync prepare
  after_probe passes now r later (inl reply) = ok (reply, later)
  after_probe true now r later (inr source) = command_sync (some source) now r later
  after_probe false now r later (inr source) = do
    found ← prepare r later
    elim found [ inl reply ↦ ok (reply, later) | inr again ↦ err preflight_failed ]

  unfoldable pub passes : (ℕ → Option Provider → Bool) → Request → Reply ⊎ (ℕ × Reference) → Bool
  passes probe r (inl reply) = true
  passes probe r (inr (candidate_id, reference)) = probe candidate_id r.params.provider

  -- a switch of the source with a probe, which runs outside the transactions, so that the tables are
  -- others behind it
  unfoldable pub probed :
      (ℕ → Option Provider → Bool) → ℕ → Request → Desk → Desk → Result Failure (Reply × Desk)
  unfolding prepare after_probe passes
  probed probe now r d later = do
    source ← prepare r d
    after_probe (passes probe r source) now r later source

  -- `command`, with the probe that the queue is built with, if there is one
  unfoldable pub command :
      Option (ℕ → Option Provider → Bool)
      → ℕ
      → Request
      → Desk
      → Desk
      → Result Failure (Reply × Desk)
  unfolding command_sync probed
  command none now r d later = command_sync none now r later
  command (some probe) now r d later =
      if is_switch r.action then probed probe now r d later else command_sync none now r later
