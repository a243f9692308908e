-- ===== src/Throttle/Isolation.antt =====
-- A login from one address leaves the locks of the others alone.
use eh_bot.Prelude.{
  ℕ, ◌≤◌, String, string_Eq, ◌≡◌, refl, ◌≢◌, ◌∙◌, Option, none, some, [], ◌∷◌, arith, eq_iff,
  if◌then◌else◌, length, inl, inr, Bool-cases,
}
use eh_bot.Prelude.Dict
use eh_bot.Throttle.Ceiling.{length-failed_count}
use eh_bot.Throttle.{
  Entry, Attempts, max_tracked_clients, entry_of, is_expired, drop_expired, drop_oldest,
  prune_expired, is_locked, failed_count, record_failure, clear, Login, begin_login, after_check,
  finish_login, Event, begin, finish, step,
}

drop_oldest_none : (a : Attempts) → length a ≤ max_tracked_clients → drop_oldest a ≡ a
unfolding drop_oldest
drop_oldest_none [] h = refl
drop_oldest_none (x ∷ a) h = ground (arith, drop_oldest_none a)

length-drop_expired : (a : Attempts) (now : ℕ) → length (drop_expired a now) ≤ length a
unfolding drop_expired
length-drop_expired [] now = omega arith
length-drop_expired ((k, e) ∷ a) now = ground (arith, length-drop_expired a now)

-- what is left of an entry
abbrev unless_expired : ℕ → Option Entry → Option Entry
unless_expired now none = none
unless_expired now (some e) = if is_expired e now then none else some e

lookup-drop_expired :
    (j : String) (a : Attempts) (now : ℕ)
    → Dict.IsDistinct a
    → Dict.lookup j (drop_expired a now) ≡ unless_expired now (Dict.lookup j a)
unfolding Dict.lookup drop_expired
lookup-drop_expired j [] now h = refl
lookup-drop_expired j ((k, e) ∷ a) now h =
    ground (arith, eq_iff k j, lookup-drop_expired j a now h.1)

drop_expired-IsDistinct :
    (a : Attempts) (now : ℕ) → Dict.IsDistinct a → Dict.IsDistinct (drop_expired a now)
unfolding drop_expired
drop_expired-IsDistinct [] now h = tt
drop_expired-IsDistinct ((k, e) ∷ a) now h = elim (Bool-cases (is_expired e now)) [
  | inl old ↦ rw old (drop_expired-IsDistinct a now h.1)
  | inr live ↦
      rw live (ground (arith, lookup-drop_expired k a now h.1), drop_expired-IsDistinct a now h.1)
]

prune_expired-room :
    (a : Attempts) (now : ℕ)
    → length a ≤ max_tracked_clients
    → prune_expired a now ≡ drop_expired a now
unfolding prune_expired
prune_expired-room a now h =
    drop_oldest_none (drop_expired a now) (omega (arith, length-drop_expired a now))

-- Recording a failure leaves what another address has on record, but for a lock that has run out.
lookup-record_failure :
    (a : Attempts) (key j : String) (now count : ℕ)
    → key ≢ j
    → Dict.IsDistinct a
    → length a ≤ max_tracked_clients
    → Dict.lookup j (record_failure a key now count).1 ≡ unless_expired now (Dict.lookup j a)
unfolding record_failure
lookup-record_failure a key j now count other d room =
    rw (Dict.lookup-set, prune_expired-room a now room, lookup-drop_expired j a now d)
      (ground (arith, eq_iff key j))

is_locked-record_failure :
    (a : Attempts) (key j : String) (now count t : ℕ)
    → key ≢ j
    → Dict.IsDistinct a
    → length a ≤ max_tracked_clients
    → now ≤ t
    → is_locked (record_failure a key now count).1 j t ≡ is_locked a j t
unfolding is_locked entry_of is_expired
is_locked-record_failure a key j now count t other d room h =
    ground (arith, lookup-record_failure a key j now count)

lookup-failed_count :
    (a : Attempts) (key j : String) (now : ℕ)
    → key ≢ j
    → Dict.IsDistinct a
    → Dict.lookup j (failed_count a key now).1 ≡ Dict.lookup j a
unfolding failed_count
lookup-failed_count a key j now other d = ground (arith, Dict.lookup-pop key j a, eq_iff key j)

failed_count-IsDistinct :
    (a : Attempts) (key : String) (now : ℕ)
    → Dict.IsDistinct a
    → Dict.IsDistinct (failed_count a key now).1
unfolding failed_count
failed_count-IsDistinct a key now d = elim (Bool-cases (is_expired (entry_of key a) now)) [
  | inl old ↦ rw old (Dict.pop-IsDistinct key a d)
  | inr live ↦ rw live d
]

is_locked-failed_count :
    (a : Attempts) (key j : String) (now t : ℕ)
    → key ≢ j
    → Dict.IsDistinct a
    → is_locked (failed_count a key now).1 j t ≡ is_locked a j t
unfolding is_locked entry_of
is_locked-failed_count a key j now t other d = ground (arith, lookup-failed_count a key j now)

is_locked-clear :
    (a : Attempts) (key j : String) (t : ℕ)
    → key ≢ j
    → Dict.IsDistinct a
    → is_locked (clear a key) j t ≡ is_locked a j t
unfolding is_locked entry_of clear
is_locked-clear a key j t other d = ground (arith, Dict.lookup-pop key j a, eq_iff key j)

is_locked-fail :
    (a : Attempts) (key j : String) (now count t : ℕ)
    → key ≢ j
    → Dict.IsDistinct a
    → length a ≤ max_tracked_clients
    → now ≤ t
    → is_locked (record_failure (failed_count a key now).1 key now count).1 j t ≡ is_locked a j t
is_locked-fail a key j now count t other d room h =
    is_locked-record_failure (failed_count a key now).1 key j now count t other
      (failed_count-IsDistinct a key now d) (omega (arith, length-failed_count a key now)) h
    ∙ is_locked-failed_count a key j now t other d

abbrev pub login_of : Event → Login
login_of (begin r) = r
login_of (finish r) = r

-- While the throttle has room and its dict holds each key once, a step of a login from one address
-- changes whether another address is locked at no time from the login's start on, whatever the
-- login's outcome.
pub is_locked-step :
    (e : Event) (a : Attempts) (j : String) (t : ℕ)
    → (login_of e).client_key ≢ j
    → Dict.IsDistinct a
    → length a ≤ max_tracked_clients
    → (login_of e).now ≤ t
    → is_locked (step e a) j t ≡ is_locked a j t
unfolding step begin_login
is_locked-step (begin r) a j t other d room h =
    ground (arith, is_locked-failed_count a r.client_key j r.now t)
is_locked-step (finish r) a j t other d room h =
    unfold finish_login after_check in
    ground (
      arith,
      is_locked-fail a r.client_key j r.now (failed_count a r.client_key r.now).0 t,
      is_locked-clear a r.client_key j t,
    )
