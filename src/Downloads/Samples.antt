-- ===== src/Downloads/Samples.antt =====
-- A torrent without seeders.
use eh_bot.Prelude.{◌≡◌, ◌↔◌, true, false, none, some}
use eh_bot.Downloads.{Job, eh_torrent, waiting_torrent, attention, queue_group}
use eh_bot.Downloads.Actions.{needs_operator, queue_group-attention_iff}

abbrev stalled : Job
stalled = record {
  provider = eh_torrent;
  state = waiting_torrent;
  error_code = none;
  stalled_since = some 100;
  eta = none;
  seeding = false;
}

queue_group-attention_example :
    (queue_group 500 stalled ≡ attention) ↔ (needs_operator 500 stalled ≡ true)
queue_group-attention_example = queue_group-attention_iff 500 stalled
