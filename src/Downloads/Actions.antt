-- ===== src/Downloads/Actions.antt =====
-- Where a job is shown, and what the operator can do there.
use eh_bot.Prelude.{ℕ, ◌≡◌, ◌↔◌, Bool, true, false, not, ◌&&◌, ◌||◌, arith}
use eh_bot.Downloads.{
  JobState, waiting_torrent, failed, stopping, conversion_failed, Job, waiting, attention, is_open,
  is_recoverable, is_retryable, is_pausable, is_cancellable, is_given, stalled_minutes,
  attention_reason, group_of, queue_group, is_waiting_for_peers,
}

-- The job needs the operator: it failed, its packaging failed or waits for him, or its torrent has had
-- no seeder for a time.
unfoldable pub needs_operator : ℕ → Job → Bool
unfolding is_recoverable stalled_minutes is_given
needs_operator now j = elim j.state [
  | failed ↦ true
  | conversion_failed ↦ true
  | waiting_torrent ↦ is_given j.stalled_since
  | s ↦ is_recoverable s
]

-- A job is filed under the ones that need attention just if it failed, its packaging failed or waits
-- for the operator, or its torrent has had no seeder for a time.
pub queue_group-attention_iff :
    (now : ℕ) (j : Job) → (queue_group now j ≡ attention) ↔ (needs_operator now j ≡ true)
unfolding queue_group group_of attention_reason needs_operator is_waiting_for_peers stalled_minutes
    is_given is_recoverable
queue_group-attention_iff now j = ground arith

pub is_stopping : JobState → Bool
is_stopping stopping = true
is_stopping _ = false

-- What can be cancelled is what is open, but for a job that is being stopped; what can be retried or
-- held back is among it; and no job can be both retried and held back.
pub is_cancellable-is_open :
    (j : Job)
    → (is_cancellable j ≡ (is_open j.state && not (is_stopping j.state)))
      × (((is_retryable j || is_pausable j) && not (is_cancellable j)) ≡ false)
      × ((is_retryable j && is_pausable j) ≡ false)
unfolding is_cancellable is_open is_stopping is_retryable is_pausable
is_cancellable-is_open j = (ground arith, ground arith, ground arith)

-- A job that can be held back waits in the queue, whatever its error and its details say.
pub queue_group-is_pausable :
    (now : ℕ) (j : Job) → is_pausable j ≡ true → queue_group now j ≡ waiting
unfolding queue_group group_of attention_reason is_pausable is_waiting_for_peers stalled_minutes
    is_given
queue_group-is_pausable now j h = ground arith
