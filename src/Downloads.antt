-- ===== src/Downloads.antt =====
-- The states of a queued job and what they offer to the operator (app/downloads/models.py).
mod Actions
mod Samples
use eh_bot.Prelude.{
  ℕ, ◌+◌, ◌-◌, ◌/◌, Bool, true, false, not, ◌&&◌, ◌||◌, Option, none, some, String, List, [], ◌∷◌,
  ltb, leb, if◌then◌else◌, Text, codes, list_eq,
}
use eh_bot.Prelude.Int.{ℤ, pos, negsuc}
use eh_bot.Prelude.Strings.{is_one_of}

-- The values of `download_jobs.state`: of a download, and of a packaging task.
pub data JobState : Type 0 where
  pending downloading waiting_torrent completed failed cancelled paused stopping : JobState
  conversion_pending conversion_running conversion_completed conversion_failed : JobState
  waiting_volumes waiting_password waiting_path : JobState

pub data Provider : Type 0 where
  telegram telegram_user exhentai telegraph eh_torrent conversion : Provider

pub data Attention : Type 0 where
  missing_volumes missing_password invalid_path missing_pages stalled_torrent failure : Attention

pub data QueueGroup : Type 0 where
  active waiting attention held : QueueGroup

-- Of `details`, what the torrent route writes: the time since which there is no seeder, if that is a
-- number, the estimate, if `int` takes it, and whether the payload is still shared.
pub record Job : Type 0 where
  pub provider : Provider
  pub state : JobState
  pub error_code : Option Text
  pub stalled_since : Option ℕ
  pub eta : Option ℤ
  pub seeding : Bool

abbrev needs_info_download_errors : List String
needs_info_download_errors = "TELEGRAPH_PAGE_COUNT_MISMATCH" ∷ []

abbrev pub permanent_download_errors : List String
permanent_download_errors =
    "TELEGRAM_FILE_TOO_BIG" ∷ "ATTACHMENT_INVALID" ∷ "TELEGRAM_SOURCE_CHANGED"
    ∷ "TELEGRAM_SOURCE_ACCOUNT_REQUIRED" ∷ "PROVIDER_UNSUPPORTED" ∷ "CANDIDATE_NOT_DOWNLOADABLE"
    ∷ "TELEGRAPH_NO_IMAGES" ∷ "TELEGRAPH_IMAGE_BLOCKED" ∷ "TELEGRAPH_LIMIT_EXCEEDED"
    ∷ "TORRENT_CLIENT_NOT_CONFIG" ∷ "TORRENT_CLIENT_AUTH" ∷ "TORRENT_NOT_AVAILABLE"
    ∷ "TORRENT_FILE_INVALID" ∷ "TELEGRAM_USER_MESSAGE_GONE" ∷ "TELEGRAM_USER_NO_ACCESS" ∷ []

-- `error_code in codes`, of a code that may be missing
unfoldable pub has_code : Option Text → List String → Bool
has_code none cs = false
has_code (some e) cs = is_one_of e cs

-- `TERMINAL_DOWNLOAD_STATES`
pub is_terminal : JobState → Bool
is_terminal completed = true
is_terminal failed = true
is_terminal cancelled = true
is_terminal _ = false

-- `OPEN_DOWNLOAD_STATES`
pub is_open : JobState → Bool
is_open pending = true
is_open downloading = true
is_open waiting_torrent = true
is_open paused = true
is_open stopping = true
is_open failed = true
is_open _ = false

-- `RECOVERABLE_CONVERSION_STATES`
pub is_recoverable : JobState → Bool
is_recoverable waiting_volumes = true
is_recoverable waiting_password = true
is_recoverable waiting_path = true
is_recoverable _ = false

pub is_retryable : Job → Bool
unfolding has_code
is_retryable j = elim j.state [
  | paused ↦ true
  | failed ↦ not (has_code j.error_code permanent_download_errors)
  | _ ↦ false
]

unfoldable pub is_pausable : Job → Bool
is_pausable j = elim j.state [ pending ↦ true | _ ↦ false ]

pub is_cancellable : Job → Bool
is_cancellable j = elim j.state [
  | pending ↦ true
  | downloading ↦ true
  | waiting_torrent ↦ true
  | paused ↦ true
  | failed ↦ true
  | _ ↦ false
]

is_waiting_for_peers : JobState → Bool
is_waiting_for_peers waiting_torrent = true
is_waiting_for_peers _ = false

is_torrent : Provider → Bool
is_torrent eh_torrent = true
is_torrent _ = false

pub is_seeding : Job → Bool
unfolding is_torrent
is_seeding j = elim j.state [ completed ↦ is_torrent j.provider && j.seeding | _ ↦ false ]

-- `eta_seconds`: qBittorrent's 8640000 is no estimate
pub eta_seconds : Job → Option ℕ
eta_seconds j = elim j.eta [
  | none ↦ none
  | some (pos n) ↦ if leb n 0 || leb 8640000 n then none else some n
  | some (negsuc n) ↦ none
]

-- `max(0, int((time.time() - since) // 60))`, at a time in whole seconds
stalled_minutes : ℕ → Job → Option ℕ
stalled_minutes now j = elim j.stalled_since [
  | none ↦ none
  | some since ↦ some ((now - since) / 60)
]

is_given : Option ℕ → Bool
is_given none = false
is_given (some n) = true

failure_reason : Option Text → Attention
unfolding has_code
failure_reason e = if has_code e needs_info_download_errors then missing_pages else failure

pub attention_reason : ℕ → Job → Option Attention
unfolding is_waiting_for_peers stalled_minutes is_given failure_reason
attention_reason now j = elim j.state [
  | waiting_volumes ↦ some missing_volumes
  | waiting_password ↦ some missing_password
  | waiting_path ↦ some invalid_path
  | failed ↦ some (failure_reason j.error_code)
  | conversion_failed ↦ some (failure_reason j.error_code)
  | waiting_torrent ↦ if is_given (stalled_minutes now j) then some stalled_torrent else none
  | _ ↦ none
]

group_of : JobState → Option Attention → QueueGroup
group_of s (some a) = attention
group_of paused none = held
group_of pending none = waiting
group_of conversion_pending none = waiting
group_of s none = active

pub queue_group : ℕ → Job → QueueGroup
unfolding group_of
queue_group now j = group_of j.state (attention_reason now j)
