-- ===== src/Queue/Execution.antt =====
-- The identity of a claimed attempt and its check inside a write (app/downloads/execution.py).
use eh_bot.Prelude.{ℕ, Bool, true, false, ◌&&◌, Option, none, some, ◌==◌, nat_Eq}
use eh_bot.Prelude.Dict
use eh_bot.Prelude.Dict.{Dict}
use eh_bot.Downloads.{cancelled, stopping}
use eh_bot.Queue.{TaskStatus, in_state, removed, Task, Store}
use eh_bot.Queue.Ending.{has_job}

pub record Execution : Type 0 where
  pub task_id : ℕ
  pub attempt_id : ℕ
  pub generation : ℕ

-- `status NOT IN ('STOPPING', 'CANCELLED', 'REMOVED')`
unfoldable pub is_valid_status : TaskStatus → Bool
is_valid_status (in_state stopping) = false
is_valid_status (in_state cancelled) = false
is_valid_status removed = false
is_valid_status _ = true

unfoldable pub is_attempt : ℕ → Option ℕ → Bool
is_attempt a none = false
is_attempt a (some b) = a == b

unfoldable pub is_current : Execution → Option Task → Bool
unfolding is_attempt is_valid_status
is_current e none = false
is_current e (some t) =
    is_attempt e.attempt_id t.attempt_id && t.generation == e.generation && is_valid_status t.status

-- `Execution.check`, of an execution without a worker session or of a session that is live
unfoldable pub check : Execution → Store → Bool
unfolding is_current has_job
check e s = has_job e.task_id s.jobs && is_current e (Dict.lookup e.task_id s.tasks)
