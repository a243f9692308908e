-- ===== src/Queue/Commands/Requeue.antt =====
-- The retry and the restart of a task, and `_apply` as a whole (app/downloads/queue.py).
use eh_bot.Prelude.{
  ℕ, Bool, true, false, not, ◌&&◌, ◌||◌, Option, none, some, String, List, [], ◌∷◌, ◌==◌,
  if◌then◌else◌, Text, codes, list_eq, Result, ok, err, ◌>>=◌, ◌>>◌, refuse_if, nat_Eq, text_Eq,
}
use eh_bot.Prelude.Dict
use eh_bot.Prelude.Dict.{Dict}
use eh_bot.Prelude.Strings.{is_one_of, starts_with}
use eh_bot.Approval.{Status, needs_info, approved, processing}
use eh_bot.Downloads.{
  JobState, failed, cancelled, paused, stopping, conversion_failed, Provider, telegram,
  telegram_user, exhentai, eh_torrent, has_code, permanent_download_errors,
}
use eh_bot.Queue.{
  Value, flag, number, text, texts, Details, Job, Action, set_priority, pause, resume, retry,
  restart, cancel, switch_source, stop_seeding, remove, replace_account, Params, Work, Store,
  Failure, candidate_not_downloadable, job_not_retryable, job_permanently_failed, action_unknown,
  is_terminal, is_conversion, is_torrent, is_listed, is_unresolved,
}
use eh_bot.Queue.Rows.{update_job, update_row, set_columns}
use eh_bot.Queue.Commands.{
  Snapshot, found_job, task_snapshot, Reply, open_operation, apply_priority, queue_of, reset_to,
  apply_pause, apply_resume, apply_cancel, apply_switch, apply_stop_seeding,
}

-- Python's truth of `details.get(key)`
unfoldable pub is_truthy : Option Value → Bool
is_truthy none = false
is_truthy (some (flag b)) = b
is_truthy (some (number n)) = not (n == 0)
is_truthy (some (text [])) = false
is_truthy (some (text (c ∷ t))) = true
is_truthy (some (texts [])) = false
is_truthy (some (texts (t ∷ ts))) = true

unfoldable pub without : (Text → Bool) → Details → Details
without drops [] = []
without drops ((key, v) ∷ rest) =
    let kept = without drops rest in if drops key then kept else (key, v) ∷ kept

unfoldable pub is_user_kind : Option Value → Bool
is_user_kind (some (text t)) = list_eq t (codes "TG_USER")
is_user_kind _ = false

unfoldable pub restored : Details → Option Value → Details
unfolding is_truthy
restored details none = details
restored details (some v) =
    if is_truthy (some v) then Dict.set (codes "account_id") v details else details

-- MTProto cannot borrow a bot token; a bot-origin download keeps its own coordinates.
unfoldable pub to_origin : Provider → Details → Details
unfolding restored without is_user_kind
to_origin p details =
    let own = without (λ key. starts_with (codes "download_") key) details in
    if is_bot p || is_user_kind (Dict.lookup (codes "origin_account_kind") details)
    then restored own (Dict.lookup (codes "origin_account_id") own)
    else details
  where
    is_bot : Provider → Bool
    is_bot telegram = true
    is_bot _ = false

abbrev eh_keys : List String
eh_keys =
    "account_pool" ∷ "account_versions" ∷ "attempted_accounts" ∷ "account_id"
    ∷ "credential_revision" ∷ []

-- What a retry keeps of the details.
unfoldable pub retry_details : Provider → Details → Details
unfolding to_origin without
retry_details telegram d =
    to_origin telegram
      (without (λ key. is_one_of key ("account_pool" ∷ "attempted_accounts" ∷ [])) d)
retry_details telegram_user d =
    to_origin telegram_user
      (without (λ key. is_one_of key ("account_pool" ∷ "attempted_accounts" ∷ [])) d)
retry_details exhentai d = without (λ key. is_one_of key eh_keys) d
retry_details eh_torrent d = without (λ key. is_one_of key eh_keys) d
retry_details _ d = d

unfoldable pub is_retryable_state : Action → JobState → Bool
is_retryable_state restart st = is_terminal st
is_retryable_state _ failed = true
is_retryable_state _ cancelled = true
is_retryable_state _ paused = true
is_retryable_state _ conversion_failed = true
is_retryable_state _ _ = false

-- A saved torrent handle may still refer to an external transfer.
unfoldable pub has_remote : Job → Store → Bool
unfolding is_truthy
has_remote j s =
    is_torrent j.provider
    && (is_truthy (Dict.lookup (codes "hash") j.details) || is_unresolved j.task_id s.resources)

unfoldable pub requested_pack : Option Bool → Option Bool → Bool
requested_pack (some b) previous = b
requested_pack none (some b) = b
requested_pack none none = false

unfoldable pub pack_of_job : ℕ → Bool → Store → Option Job → Store
pack_of_job job_id requested s none = s
pack_of_job job_id requested s (some j) = record s {
  packs = update_row j.task_id (λ b. requested) s.packs;
}

unfoldable pub reopened : Status → Bool
reopened processing = true
reopened needs_info = true
reopened Status.failed = true
reopened _ = false

unfoldable pub approve_if : (Status → Bool) → Work → Work
approve_if test w = if test w.status then record w { status = approved } else w

-- `UPDATE candidates SET status = 'APPROVED' …`, and the approval that its trigger records
unfoldable pub approve_work : (Status → Bool) → ℕ → Store → Option Work → Store
unfolding approve_if
approve_work test candidate_id s none = s
approve_work test candidate_id s (some w) =
    if test w.status
    then record s {
      works = Dict.set candidate_id (approve_if test w) s.works;
      approvals = candidate_id ∷ s.approvals;
    }
    else s

-- What follows a retry that is in the queue again, but for a packaging task.
unfoldable pub back_in_queue : ℕ → Job → Params → Option Bool → Store → Store
unfolding requested_pack pack_of_job approve_work reopened
back_in_queue job_id j params previous s =
    let s' =
      pack_of_job job_id (requested_pack params.pack_requested previous) s
        (Dict.lookup job_id s.jobs) in
    approve_work reopened j.candidate_id s' (Dict.lookup j.candidate_id s'.works)

unfoldable pub requeue :
    Bool → ℕ → Job → Action → Snapshot → Params → Store → Result Failure (Option ℕ × Store)
unfolding open_operation reset_to retry_details back_in_queue queue_of
requeue true job_id j action current params s = do
  (id, s') ← open_operation job_id j action current params s
  s'' ←
      update_job job_id (reset_to stopping (retry_details j.provider j.details))
        (set_columns job_id (λ r. record r { recovery_count = 0 }) s')
  ok (some id, s'')
requeue false job_id j action current params s = do
  s' ←
      update_job job_id (reset_to (queue_of j.provider) (retry_details j.provider j.details))
        (set_columns job_id (λ r. record r { recovery_count = 0 }) s)
  ok (
    none,
    if is_conversion j.provider
        then s'
        else back_in_queue job_id j params (Dict.lookup current.task_id s.packs) s',
  )

unfoldable pub apply_retry :
    ℕ → Job → Action → Snapshot → Params → Store → Result Failure (Option ℕ × Store)
unfolding is_retryable_state has_remote requeue
apply_retry job_id j action current params s = do
  refuse_if (not (is_retryable_state action j.state)) job_not_retryable
  refuse_if (has_code j.error_code permanent_download_errors) job_permanently_failed
  refuse_if (not (is_conversion j.provider) && not (is_listed j.candidate_id s.approvals))
      candidate_not_downloadable
  requeue (has_remote j s) job_id j action current params s

unfoldable pub without_operation : Result Failure Store → Result Failure (Option ℕ × Store)
without_operation (ok s) = ok (none, s)
without_operation (err e) = err e

unfoldable pub apply_action :
    ℕ → Job → Action → Snapshot → Params → Store → Result Failure (Option ℕ × Store)
unfolding without_operation apply_priority apply_pause apply_resume apply_retry apply_cancel
    apply_switch apply_stop_seeding
apply_action job_id j set_priority current params s =
    without_operation (apply_priority job_id j params s)
apply_action job_id j pause current params s = without_operation (apply_pause job_id j s)
apply_action job_id j resume current params s = without_operation (apply_resume job_id j s)
apply_action job_id j retry current params s = apply_retry job_id j retry current params s
apply_action job_id j restart current params s = apply_retry job_id j restart current params s
apply_action job_id j cancel current params s = apply_cancel job_id j current params s
apply_action job_id j switch_source current params s = apply_switch job_id j current params s
apply_action job_id j stop_seeding current params s = apply_stop_seeding job_id j current params s
apply_action job_id j remove current params s = err action_unknown
apply_action job_id j replace_account current params s = err action_unknown

unfoldable pub answered_priority : Action → Params → Option ℕ
answered_priority set_priority params = params.priority
answered_priority _ params = none

-- `_apply`
unfoldable pub apply : ℕ → Action → Snapshot → Params → Store → Result Failure (Reply × Store)
unfolding apply_action answered_priority
apply job_id action current params s = do
  j ← found_job (Dict.lookup job_id s.jobs)
  (operation_id, s') ← apply_action job_id j action current params s
  snapshot ← task_snapshot job_id s'
  ok (
    record {
      job_id = job_id;
      action = action;
      snapshot = snapshot;
      operation_id = operation_id;
      priority = answered_priority action params;
    },
    s',
  )
