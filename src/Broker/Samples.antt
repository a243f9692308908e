-- ===== src/Broker/Samples.antt =====
-- A broker with two places and two subscribers.
use eh_bot.Prelude.{◌≤◌, ◌≡◌, none, some, List, [], ◌∷◌, codes, length, All, arith}
use eh_bot.Broker.{Event, published, ran_callback, took, subscribed, run, new_broker}
use eh_bot.Broker.Newest.{newest, history, records-run}
use eh_bot.Broker.Bounds.{run-queue_maxsize}

abbrev busy : List Event
busy =
    subscribed 1 7
    ∷ published none (codes "a")
    ∷ subscribed 2 8
    ∷ published (some 7) (codes "b")
    ∷ published none (codes "c")
    ∷ ran_callback 1
    ∷ took 1
    ∷ []

records-run_example : (run busy (new_broker 2 1)).records ≡ newest 2 (history 0 busy)
records-run_example = records-run busy 2 1

run-queue_maxsize_example : All (λ s. length s.queue ≤ 1) (run busy (new_broker 2 1)).subscribers
run-queue_maxsize_example = run-queue_maxsize busy 2 1 (omega arith)
