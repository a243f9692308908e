-- ===== src/Queue.antt =====
-- The download queue's tables and its commands (app/downloads/queue.py, with the triggers of
-- app/db/migrations that mirror every write of a job into its task and attempts).
pub mod Guards
pub mod Rows
pub mod Commands
pub mod Jobs
pub mod Ending
pub mod Finish
pub mod Execution
pub mod Run
pub mod Receipts
mod Samples
use eh_bot.Prelude.{
  ℕ, Bool, true, false, not, ◌&&◌, ◌||◌, Option, none, some, List, [], ◌∷◌, ◌==◌, if◌then◌else◌,
  Text, codes, list_eq,
}
use eh_bot.Prelude.Dict.{Dict}
use eh_bot.Approval.{Status}
use eh_bot.Downloads.{
  JobState, pending, downloading, waiting_torrent, completed, failed, cancelled, paused, stopping,
  conversion_pending, conversion_running, conversion_completed, conversion_failed, waiting_volumes,
  waiting_password, waiting_path, Provider, telegram, telegram_user, exhentai, telegraph,
  eh_torrent, conversion,
}

-- A value in `details_json`: what the queue reads of it.
pub data Value : Type 0 where
  flag : Bool → Value
  number : ℕ → Value
  text : Text → Value
  texts : List Text → Value

abbrev pub Details : Type 0
Details = Dict Text Value

-- A row of `download_jobs`, without messages, leases and times.
pub record Job : Type 0 where
  pub candidate_id : ℕ
  pub provider : Provider
  pub state : JobState
  pub priority : ℕ
  pub details : Details
  pub error_code : Option Text
  pub recovery_count : ℕ
  pub task_id : ℕ

-- `queue_tasks.status`: the state of the job, or REMOVED once the job's row is gone.
pub data TaskStatus : Type 0 where
  in_state : JobState → TaskStatus
  removed : TaskStatus

pub record Task : Type 0 where
  pub job_id : ℕ
  pub candidate_id : ℕ
  pub provider : Provider
  pub status : TaskStatus
  pub revision : ℕ
  pub generation : ℕ
  pub priority : ℕ
  pub attempt_id : Option ℕ

pub record Attempt : Type 0 where
  pub task_id : ℕ
  pub generation : ℕ
  pub attempt_no : ℕ
  pub status : JobState
  pub error_code : Option Text
  pub is_finished : Bool

-- The commands of a client, and the two operations that only the program asks for.
pub data Action : Type 0 where
  set_priority pause resume retry restart cancel switch_source stop_seeding : Action
  remove replace_account : Action

-- `params`, of which an absent entry is `none`; a priority that is no int is `none` too.
pub record Params : Type 0 where
  pub priority : Option ℕ
  pub provider : Option Provider
  pub pack_requested : Option Bool
  pub recovery_exhausted : Bool
  pub account_pool : List Text
  pub attempted_accounts : List Text
  pub stop_requested : Bool

abbrev pub no_params : Params
no_params = record {
  priority = none;
  provider = none;
  pack_requested = none;
  recovery_exhausted = false;
  account_pool = [];
  attempted_accounts = [];
  stop_requested = false;
}

pub data OperationStatus : Type 0 where
  is_pending is_completed is_failed : OperationStatus

pub record Operation : Type 0 where
  pub task_id : ℕ
  pub attempt_id : Option ℕ
  pub generation : ℕ
  pub job_id : ℕ
  pub candidate_id : ℕ
  pub action : Action
  pub params : Params
  pub resource : Details
  pub status : OperationStatus
  pub error_code : Option Text

-- A row of `queue_remote_resources`: the task, and whether its stop is confirmed.
pub record Resource : Type 0 where
  pub task_id : ℕ
  pub stop_confirmed : Bool

-- What a switch of the source reads of a candidate, beside its status.
pub record Work : Type 0 where
  pub status : Status
  pub ex_gid : Option ℕ
  pub ex_gallery_token : Option Text
  pub preview_url : Option Text
  pub pages : Option Text

-- A pending change of an observation (`ingest_observation_changes`).
pub record Observation : Type 0 where
  pub candidate_id : ℕ
  pub merge_all : Bool
  pub source_message_id : ℕ

-- The tables: `blocked` holds the works that a removal reserves, `changing` the works of pending changes of
-- the sources, `observations` such changes of single observations and `observing` their tasks. `fresh` stands for the random identifiers: it is the next that has not been given out.
pub record Store : Type 0 where
  pub jobs : Dict ℕ Job
  pub tasks : Dict ℕ Task
  pub attempts : Dict ℕ Attempt
  pub operations : Dict ℕ Operation
  pub works : Dict ℕ Work
  pub approvals : List ℕ
  pub resources : List Resource
  pub packs : Dict ℕ Bool
  pub blocked : List ℕ
  pub changing : List ℕ
  pub observing : List ℕ
  pub observations : List Observation
  pub pack_default : Provider → Bool
  pub fresh : ℕ

-- Why a statement of the database is refused (the messages of `RAISE(ABORT, …)`), and the codes of
-- `DownloadError`.
pub data Refusal : Type 0 where
  stop_not_confirmed remote_reconciliation_required stale_completion removal_not_confirmed : Refusal
  work_slot_occupied active_record_not_removable identity_changing : Refusal

pub data Failure : Type 0 where
  aborted : Refusal → Failure
  job_not_found removal_not_committed task_superseded stop_state_changed : Failure
  candidate_not_downloadable priority_out_of_range job_not_queued job_not_pausable : Failure
  job_not_paused job_not_retryable job_permanently_failed provider_unsupported : Failure
  job_not_seeding job_already_completed job_not_cancellable action_unknown : Failure
  operation_in_progress task_id_required revision_required idempotency_key_required : Failure
  idempotency_conflict revision_conflict source_changed candidate_not_found : Failure
  source_preflight_required missing_params preflight_failed : Failure

unfoldable pub state_code : JobState → ℕ
state_code pending = 0
state_code downloading = 1
state_code waiting_torrent = 2
state_code completed = 3
state_code failed = 4
state_code cancelled = 5
state_code paused = 6
state_code stopping = 7
state_code conversion_pending = 8
state_code conversion_running = 9
state_code conversion_completed = 10
state_code conversion_failed = 11
state_code waiting_volumes = 12
state_code waiting_password = 13
state_code waiting_path = 14

unfoldable pub state_eq : JobState → JobState → Bool
unfolding state_code
state_eq s t = state_code s == state_code t

-- `TERMINAL`
unfoldable pub is_terminal : JobState → Bool
is_terminal completed = true
is_terminal failed = true
is_terminal cancelled = true
is_terminal conversion_completed = true
is_terminal conversion_failed = true
is_terminal _ = false

-- 'PENDING', 'CONVERSION_PENDING'
unfoldable pub is_queued : JobState → Bool
is_queued pending = true
is_queued conversion_pending = true
is_queued _ = false

-- 'DOWNLOADING', 'CONVERSION_RUNNING'
unfoldable pub is_running : JobState → Bool
is_running downloading = true
is_running conversion_running = true
is_running _ = false

-- 'STOPPING', 'CANCELLED'
unfoldable pub is_revoked : JobState → Bool
is_revoked stopping = true
is_revoked cancelled = true
is_revoked _ = false

unfoldable pub is_conversion : Provider → Bool
is_conversion conversion = true
is_conversion _ = false

unfoldable pub is_torrent : Provider → Bool
is_torrent eh_torrent = true
is_torrent _ = false

-- `status NOT IN ('COMPLETED', 'FAILED')`, of an operation
unfoldable pub is_open : Operation → Bool
is_open o = elim o.status [ is_pending ↦ true | _ ↦ false ]

unfoldable pub is_listed : ℕ → List ℕ → Bool
is_listed x [] = false
is_listed x (y ∷ ys) = x == y || is_listed x ys

-- `queue_remote_resources … WHERE task_id = ? AND status <> 'STOP_CONFIRMED'`
unfoldable pub is_unresolved : ℕ → List Resource → Bool
is_unresolved task [] = false
is_unresolved task (r ∷ rs) = r.task_id == task && not r.stop_confirmed || is_unresolved task rs

-- an open operation of the task
unfoldable pub has_open_operation : ℕ → Dict ℕ Operation → Bool
unfolding is_open
has_open_operation task [] = false
has_open_operation task ((id, o) ∷ os) =
    o.task_id == task && is_open o || has_open_operation task os
