-- ===== src/Queue/Samples.antt =====
-- The queue on small tables.
use eh_bot.Prelude.{ℕ, ◌≡◌, refl, true, false, none, some, [], ◌∷◌, nat_Eq, codes, ok, err, arith}
use eh_bot.Prelude.Dict
use eh_bot.Downloads.{downloading, stopping, exhentai, eh_torrent}
use eh_bot.Queue.{
  text, Job, in_state, Task, Attempt, cancel, retry, no_params, Operation, is_pending, Store,
  aborted, remote_reconciliation_required, state_eq, state_code, is_listed, has_open_operation,
  is_terminal, is_queued, is_running, is_revoked, is_torrent, is_conversion, is_open,
}
use eh_bot.Queue.Guards.{
  guards, keeps_stopping, needs_reconciliation, is_unsafe_reclaim, is_stale, is_reserved,
  is_changing, is_observed, was_ended, is_blank, is_some, task_asks_stop, some_asks_stop,
  task_lets_go,
}
use eh_bot.Queue.Rows.{
  update_job, written, is_renewal, after, put_job, mirror, put_task, mirrored_task, mirror_attempt,
  update_row, change, mirrored, ends_attempt, takes_slot, holds_slot, claim_if,
}
use eh_bot.Queue.Ending.{has_job}
use eh_bot.Queue.Rows.Table.{IsGivenOut, IsExtended}
use eh_bot.Queue.Rows.Later.{Grows, SameAttempt, SameOperation}
use eh_bot.Queue.Commands.{
  Snapshot, Reply, apply_cancel, or_take_over, open_replacement, apply_stop, is_done, is_source,
  is_immediate, is_switch, stop_or_cancel, open_operation, move_to, opened, found_job,
  task_snapshot, snapshot_of,
}
use eh_bot.Queue.Commands.Requeue.{apply, apply_action}
use eh_bot.Queue.Finish.{finish_operation}
use eh_bot.Queue.Finish.Stuck.{IsUnderway, retries, finish_operation-stuck}
use eh_bot.Queue.Execution.{Execution, check, is_current, is_valid_status, is_attempt}
use eh_bot.Prelude.{Text, text_Eq}
use eh_bot.Queue.{Action, Params}
use eh_bot.Queue.Receipts.{
  Request, Receipt, Desk, command_sync, checked, or_refuse, by_receipt, execute, agreed, unchanged,
  digest_of, purged, is_expired, is_held, answered,
}
use eh_bot.Queue.Receipts.Once.{opening, works, command_sync-repeats, command_sync-once}
use eh_bot.Prelude.{is_ok}
use eh_bot.Queue.{pause}
use eh_bot.Queue.Run.Outdated.{is_prioritizing}
use eh_bot.Queue.Receipts.Exclusive.{command_sync-excludes}
use eh_bot.Queue.Run.{command, here, next, Reach-IsLater}
use eh_bot.Queue.Run.Revoked.{cancels, apply-revokes}

-- Job 1 of work 4 runs as attempt 3 of task 2.
abbrev running_job : Job
running_job = record {
  candidate_id = 4;
  provider = exhentai;
  state = downloading;
  priority = 100;
  details = [];
  error_code = none;
  recovery_count = 0;
  task_id = 2;
}

abbrev running_task : Task
running_task = record {
  job_id = 1;
  candidate_id = 4;
  provider = exhentai;
  status = in_state downloading;
  revision = 2;
  generation = 1;
  priority = 100;
  attempt_id = some 3;
}

abbrev running_attempt : Attempt
running_attempt = record {
  task_id = 2;
  generation = 1;
  attempt_no = 1;
  status = downloading;
  error_code = none;
  is_finished = false;
}

abbrev running : Store
running = record {
  jobs = (1, running_job) ∷ [];
  tasks = (2, running_task) ∷ [];
  attempts = (3, running_attempt) ∷ [];
  operations = [];
  works = [];
  approvals = 4 ∷ [];
  resources = [];
  packs = [];
  blocked = [];
  changing = [];
  observing = [];
  observations = [];
  pack_default = λ p. false;
  fresh = 5;
}

abbrev seen_running : Snapshot
seen_running = record {
  task_id = 2;
  revision = 2;
  generation = 1;
  attempt_id = some 3;
  state = in_state downloading;
}

-- What a cancel of the job writes.
abbrev stopping_job : Job
stopping_job = record running_job { state = stopping }

abbrev cancel_operation : Operation
cancel_operation = record {
  task_id = 2;
  attempt_id = some 3;
  generation = 1;
  job_id = 1;
  candidate_id = 4;
  action = cancel;
  params = no_params;
  resource = [];
  status = is_pending;
  error_code = none;
}

abbrev stopped : Store
stopped = record running {
  jobs = (1, stopping_job) ∷ [];
  tasks =
      (2, record running_task { status = in_state stopping; revision = 3; generation = 2 }) ∷ [];
  attempts = (3, record running_attempt { status = stopping }) ∷ [];
  operations = (5, cancel_operation) ∷ [];
  fresh = 6;
}

abbrev cancel_reply : Reply
cancel_reply = record {
  job_id = 1;
  action = cancel;
  snapshot = record seen_running { revision = 3; generation = 2; state = in_state stopping };
  operation_id = some 5;
  priority = none;
}

cancel_running : apply 1 cancel seen_running no_params running ≡ ok (cancel_reply, stopped)
unfolding apply apply_action apply_cancel or_take_over open_replacement apply_stop is_done is_source
    is_immediate is_switch stop_or_cancel open_operation move_to opened has_open_operation
    update_job written guards keeps_stopping needs_reconciliation is_unsafe_reclaim is_stale
    is_reserved is_changing is_observed was_ended is_blank is_some task_asks_stop some_asks_stop
    task_lets_go is_renewal after put_job mirror put_task mirrored_task mirror_attempt update_row
    change mirrored ends_attempt takes_slot holds_slot claim_if found_job task_snapshot snapshot_of
    state_eq state_code is_terminal is_queued is_running is_revoked is_torrent is_conversion is_open
    is_listed Dict.lookup Dict.set
cancel_running = refl

lookup_two : (id : ℕ) (t u : Task) → Dict.lookup id ((2, u) ∷ []) ≡ some t → id ≡ 2
unfolding Dict.lookup
lookup_two id t u e = ground (arith, e)

running-IsGivenOut : IsGivenOut running.tasks running.fresh
unfolding IsGivenOut
running-IsGivenOut id t e = let same = lookup_two id t running_task e in omega (arith, same)

abbrev attempt_three : Execution
attempt_three = record { task_id = 2; attempt_id = 3; generation = 1 }

is_valid : check attempt_three running ≡ true
unfolding check is_current is_valid_status is_attempt has_job Dict.lookup
is_valid = refl

running_job-lookup : Dict.lookup 1 running.jobs ≡ some running_job
unfolding Dict.lookup
running_job-lookup = refl

running_task-lookup : Dict.lookup 2 running.tasks ≡ some running_task
unfolding Dict.lookup
running_task-lookup = refl

not_stopping : state_eq downloading stopping ≡ false
unfolding state_eq state_code
not_stopping = refl

lookup_three : (id : ℕ) (a b : Attempt) → Dict.lookup id ((3, b) ∷ []) ≡ some a → id ≡ 3
unfolding Dict.lookup
lookup_three id a b e = ground (arith, e)

running_attempts-IsGivenOut : IsGivenOut running.attempts running.fresh
unfolding IsGivenOut
running_attempts-IsGivenOut id a e =
    let same = lookup_three id a running_attempt e in omega (arith, same)

running_operations-IsGivenOut : IsGivenOut running.operations running.fresh
unfolding IsGivenOut Dict.lookup
running_operations-IsGivenOut id o e = cc

Reach-IsLater_example :
    IsExtended Grows running.tasks running.fresh stopped.tasks stopped.fresh
    × IsExtended SameAttempt running.attempts running.fresh stopped.attempts stopped.fresh
    × IsExtended SameOperation running.operations running.fresh stopped.operations stopped.fresh
Reach-IsLater_example =
    Reach-IsLater running stopped running-IsGivenOut running_attempts-IsGivenOut
      running_operations-IsGivenOut
      (next here (command 1 cancel seen_running no_params cancel_reply cancel_running))

apply-revokes_example : check attempt_three stopped ≡ false
apply-revokes_example =
    apply-revokes cancel 1 running_job seen_running no_params running stopped stopped running_task
      cancel_reply attempt_three cancels not_stopping running_job-lookup running_task-lookup
      running-IsGivenOut cancel_running refl is_valid here

-- The retry of a torrent with its hash in the details, stopped on the other side.
abbrev torrent_job : Job
torrent_job = record running_job {
  provider = eh_torrent;
  state = stopping;
  details = (codes "hash", text (codes "d2")) ∷ [];
}

abbrev retry_operation : Operation
retry_operation = record cancel_operation { action = retry }

abbrev torrent : Store
torrent = record stopped {
  jobs = (1, torrent_job) ∷ [];
  tasks = (2, record running_task { provider = eh_torrent; status = in_state stopping }) ∷ [];
  operations = (5, retry_operation) ∷ [];
}

abbrev stopping_task : Task
stopping_task = record running_task { provider = eh_torrent; status = in_state stopping }

torrent-IsUnderway : IsUnderway 5 retry_operation torrent_job stopping_task torrent
unfolding Dict.lookup is_listed
torrent-IsUnderway = record {
  saved = refl;
  underway = refl;
  of_task = refl;
  listed = refl;
  is_stopping = refl;
  settled = refl;
  within_limit = refl;
}

torrent_job-lookup : Dict.lookup 1 torrent.jobs ≡ some torrent_job
unfolding Dict.lookup
torrent_job-lookup = refl

finish_operation-stuck_example :
    finish_operation 5 retry_operation none torrent ≡ err (aborted remote_reconciliation_required)
finish_operation-stuck_example =
    finish_operation-stuck retries 5 retry_operation torrent_job (codes "hash", text (codes "d2"))
      [] stopping_task none torrent refl torrent_job-lookup torrent-IsUnderway

-- The cancel as a client sends it, and again after the task has gone on.
abbrev sha_of : ℕ → Action → ℕ → ℕ → Params → Text
sha_of job_id action task_id revision params = job_id ∷ task_id ∷ revision ∷ []

abbrev cancel_request : Request
cancel_request = record {
  job_id = 1;
  action = cancel;
  task_id = some 2;
  expected_revision = some 2;
  key = codes "k1";
  params = no_params;
}

abbrev desk : Desk
desk = record { store = running; receipts = [] }

abbrev cancel_receipt : Receipt
cancel_receipt = record { digest = 1 ∷ 2 ∷ 2 ∷ []; reply = cancel_reply; created_at = 100 }

abbrev served_desk : Desk
served_desk = record { store = stopped; receipts = (codes "k1", cancel_receipt) ∷ [] }

abbrev later_desk : Desk
later_desk = record served_desk { store = torrent }

no_receipt : Dict.lookup (codes "k1") desk.receipts ≡ none
unfolding Dict.lookup
no_receipt = refl

cancel_command : command_sync sha_of none 100 cancel_request desk ≡ ok (cancel_reply, served_desk)
unfolding command_sync checked or_refuse by_receipt execute agreed unchanged task_snapshot
    snapshot_of found_job digest_of purged is_expired is_held Dict.lookup Dict.set
cancel_command = rw cancel_running refl

command_sync-repeats_example :
    command_sync sha_of none 200 cancel_request later_desk ≡ ok (cancel_reply, later_desk)
command_sync-repeats_example =
    command_sync-repeats sha_of none none 100 200 cancel_request desk served_desk later_desk
      cancel_reply no_receipt cancel_command (works opening torrent)

cancel_again :
    command_sync sha_of none 200 cancel_request later_desk ≡ ok (cancel_reply, later_desk)
unfolding command_sync checked or_refuse by_receipt digest_of answered Dict.lookup
cancel_again = refl

command_sync-once_example : (cancel_reply ≡ cancel_reply) × (later_desk ≡ later_desk)
command_sync-once_example =
    command_sync-once sha_of none none 100 200 cancel_request cancel_request desk served_desk
      later_desk later_desk cancel_reply cancel_reply no_receipt cancel_command
      (works opening torrent) refl cancel_again

-- A pause for the revision at which the cancel was given.
abbrev pause_request : Request
pause_request = record cancel_request { action = pause; key = codes "k2" }

no_second_receipt : Dict.lookup (codes "k2") served_desk.receipts ≡ none
unfolding Dict.lookup
no_second_receipt = refl

is_change : is_prioritizing cancel ≡ false
unfolding is_prioritizing
is_change = refl

command_sync-excludes_example :
    is_ok (command_sync sha_of none 101 pause_request served_desk) ≡ false
command_sync-excludes_example =
    command_sync-excludes sha_of none none 100 101 cancel_request pause_request desk served_desk
      cancel_reply running-IsGivenOut is_change no_receipt cancel_command refl refl refl
      no_second_receipt
