-- ===== src/Broker.antt =====
-- The log broker (LogBroker of app/logs/broker.py): the newest records in memory, and a bounded queue for
-- each subscriber. `publish` runs on any thread and hands a record to a subscriber's loop, which
-- runs its callbacks later and in order; so a subscriber has the records that wait for its loop.
mod Newest
mod Bounds
mod Samples
use eh_bot.Prelude.{
  ℕ, zero, suc, ◌+◌, ◌-◌, Bool, true, false, Option, none, some, List, [], ◌∷◌, ◌++◌, ◌==◌, leb,
  ltb, if◌then◌else◌, length, Text,
}

pub record Record : Type 0 where
  pub sequence : ℕ
  pub line : Text

-- `name` is the identity of the object.
pub record Subscriber : Type 0 where
  pub name : ℕ
  pub loop : ℕ
  pub is_closed : Bool
  pub scheduled : List Record
  pub queue : List Record

pub record LogBroker : Type 0 where
  pub records : List Record
  pub capacity : ℕ
  pub subscribers : List Subscriber
  pub queue_maxsize : ℕ
  pub sequence : ℕ
  pub dropped : ℕ

abbrev buffer_size : ℕ
buffer_size = 1000

abbrev queue_maxsize_default : ℕ
queue_maxsize_default = 256

pub drop : ℕ → List Record → List Record
drop zero rs = rs
drop (suc n) [] = []
drop (suc n) (r ∷ rs) = drop n rs

-- `append` of a `deque` with a `maxlen`
append : ℕ → List Record → Record → List Record
unfolding drop
append maxlen rs r = drop (length (rs ++ r ∷ []) - maxlen) (rs ++ r ∷ [])

-- `_offer`: the queue, and how many records were dropped. A `maxsize` of zero is no bound.
offer : ℕ → List Record → Record → List Record × ℕ
unfolding drop
offer maxsize queue r =
    if maxsize == 0
    then (queue ++ r ∷ [], 0)
    else if ltb (length queue) maxsize
    then (queue ++ r ∷ [], 0)
    else (drop 1 queue ++ r ∷ [], 1)

runs_here : Option ℕ → ℕ → Bool
runs_here none loop = false
runs_here (some l) loop = l == loop

-- `_deliver` to one subscriber, from the loop that runs, if one does: `none` is the discard of a
-- subscriber whose loop is closed.
deliver : ℕ → Option ℕ → Record → Subscriber → Option (Subscriber × ℕ)
unfolding offer runs_here
deliver maxsize running r s =
    if runs_here running s.loop
    then some (record s { queue = (offer maxsize s.queue r).0 }, (offer maxsize s.queue r).1)
    else if s.is_closed
    then none
    else some (record s { scheduled = s.scheduled ++ r ∷ [] }, 0)

kept : Option (Subscriber × ℕ) → List Subscriber × ℕ → List Subscriber × ℕ
kept none rest = rest
kept (some (s, d)) (ss, n) = (s ∷ ss, d + n)

deliver_all : ℕ → Option ℕ → Record → List Subscriber → List Subscriber × ℕ
unfolding deliver kept
deliver_all maxsize running r [] = ([], 0)
deliver_all maxsize running r (s ∷ ss) =
    kept (deliver maxsize running r s) (deliver_all maxsize running r ss)

-- `publish`, from the loop that runs, if one does
pub publish : Option ℕ → Text → LogBroker → LogBroker
unfolding append deliver_all
publish running line b =
    let r : Record = record { sequence = b.sequence + 1; line = line } in
    let delivered = deliver_all b.queue_maxsize running r b.subscribers in
    record b {
      sequence = b.sequence + 1;
      records = append b.capacity b.records r;
      subscribers = delivered.0;
      dropped = b.dropped + delivered.1;
    }

called : ℕ → Subscriber → List Record → Subscriber × ℕ
unfolding offer
called maxsize s [] = (s, 0)
called maxsize s (r ∷ rs) =
    (record s { scheduled = rs; queue = (offer maxsize s.queue r).0 }, (offer maxsize s.queue r).1)

-- The loop of a subscriber runs its first callback.
callback : ℕ → Subscriber → Subscriber × ℕ
unfolding called
callback maxsize s = called maxsize s s.scheduled

-- `queue.get()`
taken : Subscriber → Subscriber
unfolding drop
taken s = record s { queue = drop 1 s.queue }

on_each :
    (Subscriber → Bool) → (Subscriber → Subscriber × ℕ) → List Subscriber → List Subscriber × ℕ
on_each test f [] = ([], 0)
on_each test f (s ∷ ss) =
    let rest = on_each test f ss in
    if test s then ((f s).0 ∷ rest.0, (f s).1 + rest.1) else (s ∷ rest.0, rest.1)

-- The end of `subscribe` and `stream`.
without : ℕ → List Subscriber → List Subscriber
without name [] = []
without name (s ∷ ss) = let rest = without name ss in if s.name == name then rest else s ∷ rest

pub data Event : Type 0 where
  published : Option ℕ → Text → Event
  ran_callback took closed_loop unsubscribed : ℕ → Event
  subscribed : ℕ → ℕ → Event

with_subscribers : LogBroker → List Subscriber × ℕ → LogBroker
with_subscribers b (ss, n) = record b { subscribers = ss; dropped = b.dropped + n }

pub step : Event → LogBroker → LogBroker
unfolding publish callback taken on_each without with_subscribers
step (published running line) b = publish running line b
step (ran_callback name) b =
    with_subscribers b (on_each (λ s. s.name == name) (callback b.queue_maxsize) b.subscribers)
step (took name) b =
    with_subscribers b (on_each (λ s. s.name == name) (λ s. (taken s, 0)) b.subscribers)
step (closed_loop loop) b =
    with_subscribers b
      (on_each (λ s. s.loop == loop) (λ s. (record s { is_closed = true }, 0)) b.subscribers)
step (subscribed name loop) b = record b {
  subscribers =
      record { name = name; loop = loop; is_closed = false; scheduled = []; queue = [] }
      ∷ b.subscribers;
}
step (unsubscribed name) b = record b { subscribers = without name b.subscribers }

pub run : List Event → LogBroker → LogBroker
unfolding step
run [] b = b
run (e ∷ es) b = run es (step e b)

-- `snapshot`: the newest first, of at most `limit`
reverse_onto : List Record → List Record → List Record
reverse_onto [] onto = onto
reverse_onto (r ∷ rs) onto = reverse_onto rs (r ∷ onto)

first : ℕ → List Record → List Record
first zero rs = []
first (suc n) [] = []
first (suc n) (r ∷ rs) = r ∷ first n rs

pub snapshot : Option ℕ → LogBroker → List Record
unfolding reverse_onto first
snapshot none b = reverse_onto b.records []
snapshot (some limit) b = first limit (reverse_onto b.records [])

pub new_broker : ℕ → ℕ → LogBroker
new_broker capacity maxsize = record {
  records = [];
  capacity = capacity;
  subscribers = [];
  queue_maxsize = maxsize;
  sequence = 0;
  dropped = 0;
}
