-- ===== src/Throttle/Ceiling.antt =====
-- How many addresses the throttle tracks.
use eh_bot.Prelude.{ℕ, ◌+◌, ◌≤◌, String, string_Eq, List, [], ◌∷◌, arith, length}
use eh_bot.Prelude.Dict
use eh_bot.Throttle.{
  Entry, Attempts, max_tracked_clients, drop_expired, drop_oldest, prune_expired, failed_count,
  record_failure, clear, Login, begin_login, after_check, finish_login, Event, begin, finish, step,
  run,
}

length-drop_oldest : (a : Attempts) → length (drop_oldest a) ≤ max_tracked_clients
unfolding drop_oldest
length-drop_oldest [] = omega arith
length-drop_oldest (x ∷ a) = ground (arith, length-drop_oldest a)

length-record_failure :
    (a : Attempts) (key : String) (now count : ℕ)
    → length (record_failure a key now count).1 ≤ max_tracked_clients + 1
unfolding record_failure prune_expired
length-record_failure a key now count = omega (
  arith,
  length-drop_oldest (drop_expired a now),
  Dict.length-set {V = Entry} key _ (drop_oldest (drop_expired a now)),
)

pub length-failed_count :
    (a : Attempts) (key : String) (now : ℕ) → length (failed_count a key now).1 ≤ length a
unfolding failed_count
length-failed_count a key now = ground (arith, Dict.length-pop {V = Entry} key a)

abbrev pub IsBounded : Attempts → Type 0
IsBounded a = length a ≤ max_tracked_clients + 1

finish-IsBounded : (r : Login) (a : Attempts) → IsBounded a → IsBounded (finish_login r a).1
unfolding finish_login after_check clear
finish-IsBounded r a h = ground (
  arith,
  length-record_failure (failed_count a r.client_key r.now).1 r.client_key r.now
      (failed_count a r.client_key r.now).0,
  Dict.length-pop {V = Entry} r.client_key a,
)

step-IsBounded : (e : Event) (a : Attempts) → IsBounded a → IsBounded (step e a)
unfolding step begin_login
step-IsBounded (begin r) a h = ground (arith, length-failed_count a r.client_key r.now)
step-IsBounded (finish r) a h = finish-IsBounded r a h

-- However logins interleave, the throttle tracks at most one address more than
-- `MAX_TRACKED_CLIENTS`, if it did so at the start.
pub run-IsBounded :
    (es : List Event) (a : Attempts)
    → length a ≤ max_tracked_clients + 1
    → length (run es a) ≤ max_tracked_clients + 1
unfolding run
run-IsBounded [] a h = h
run-IsBounded (e ∷ es) a h = run-IsBounded es (step e a) (step-IsBounded e a h)
