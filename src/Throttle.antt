-- ===== src/Throttle.antt =====
-- The failed-login throttle (app/web/login_throttle.py) and the login that uses it (`authenticate`
-- of app/admin_auth.py). Times are whole ticks of one second; the source has floats.
mod Ceiling
mod Lockout
mod Isolation
mod Password
mod Samples
use eh_bot.Prelude.{
  ℕ, ◌+◌, String, Bool, true, false, ◌&&◌, ◌||◌, not, Option, none, some, List, [], ◌∷◌, ltb, leb,
  str_eq, string_Eq, if◌then◌else◌, length, Result, ok, err,
}
use eh_bot.Prelude.Dict
use eh_bot.Prelude.Dict.{Dict}

abbrev pub max_failed_attempts : ℕ
max_failed_attempts = 5

abbrev pub lockout_seconds : ℕ
lockout_seconds = 60

abbrev pub max_tracked_clients : ℕ
max_tracked_clients = 1024

-- the pair (count, locked_until)
pub record Entry : Type 0 where
  pub count : ℕ
  pub locked_until : ℕ

abbrev pub Attempts : Type 0
Attempts = Dict String Entry

abbrev pub no_failures : Entry
no_failures = record { count = 0; locked_until = 0 }

-- `attempts.get(key, (0, 0.0))`
pub entry_of : String → Attempts → Entry
entry_of key attempts = elim (Dict.lookup key attempts) [ none ↦ no_failures | some e ↦ e ]

-- `locked_until and locked_until <= now`
pub is_expired : Entry → ℕ → Bool
is_expired e now = ltb 0 e.locked_until && leb e.locked_until now

drop_expired : Attempts → ℕ → Attempts
drop_expired [] now = []
drop_expired ((k, e) ∷ rest) now =
    if is_expired e now then drop_expired rest now else (k, e) ∷ drop_expired rest now

-- `while len(attempts) > MAX_TRACKED_CLIENTS: attempts.pop(next(iter(attempts)))`
drop_oldest : Attempts → Attempts
drop_oldest [] = []
drop_oldest (x ∷ rest) =
    let shorter = drop_oldest rest in
    if ltb max_tracked_clients (length (x ∷ rest)) then shorter else x ∷ rest

pub prune_expired : Attempts → ℕ → Attempts
prune_expired attempts now = drop_oldest (drop_expired attempts now)

pub is_locked : Attempts → String → ℕ → Bool
is_locked attempts key now = ltb now (entry_of key attempts).locked_until

-- the count, and the dict that the call leaves
pub failed_count : Attempts → String → ℕ → ℕ × Attempts
failed_count attempts key now =
    let e = entry_of key attempts in
    if is_expired e now then (0, Dict.pop key attempts) else (e.count, attempts)

-- whether the lock was tripped, and the dict that the call leaves
pub record_failure : Attempts → String → ℕ → ℕ → Bool × Attempts
record_failure attempts key now count =
    let locked = leb max_failed_attempts (count + 1) in
    (
      locked,
      Dict.set key
          (record { count = count + 1; locked_until = if locked then now + lockout_seconds else 0 })
          (prune_expired attempts now),
    )

pub clear : Attempts → String → Attempts
clear attempts key = Dict.pop key attempts

pub data AuthError : Type 0 where
  locked_out not_configured invalid_credentials : AuthError

-- What one login brings with it: its address, the times at which it starts and at which its hash
-- check is done, and what the database and the hasher answer. `matches` is
-- `bool(password) and await verify_password(...)`; `name` is the normalised user name.
pub record Login : Type 0 where
  pub client_key : String
  pub now : ℕ
  pub later : ℕ
  pub admin : Option String
  pub name : String
  pub matches : Bool

-- `authenticate` up to its first `await`
pub begin_login : Login → Attempts → Result AuthError (Unit {0}) × Attempts
begin_login r attempts =
    if is_locked attempts r.client_key r.now
    then (err locked_out, attempts)
    else (ok tt, (failed_count attempts r.client_key r.now).1)

after_check : String → Login → Attempts → Result AuthError String × Attempts
after_check username r attempts =
    if not r.matches || not (str_eq r.name username)
    then (let (count, left) = failed_count attempts r.client_key r.now in
        (err invalid_credentials, (record_failure left r.client_key r.now count).1))
    else if is_locked attempts r.client_key r.later
    then (err locked_out, attempts)
    else (ok username, clear attempts r.client_key)

-- `authenticate` after its last `await`; other logins may have run in between
pub finish_login : Login → Attempts → Result AuthError String × Attempts
unfolding after_check
finish_login r attempts = elim r.admin [
  | none ↦ (err not_configured, attempts)
  | some username ↦ after_check username r attempts
]

-- A login that nothing interrupts.
pub authenticate : Login → Attempts → Result AuthError String × Attempts
authenticate r attempts =
    let (started, left) = begin_login r attempts in
    elim started [ ok _ ↦ finish_login r left | err e ↦ (err e, left) ]

-- Logins one after another.
pub authenticate_all : List Login → Attempts → Attempts
authenticate_all [] attempts = attempts
authenticate_all (r ∷ rs) attempts = authenticate_all rs (authenticate r attempts).1

-- Any interleaving of logins: the steps of `authenticate` between its awaits, in any order.
pub data Event : Type 0 where
  begin finish : Login → Event

pub step : Event → Attempts → Attempts
step (begin r) attempts = (begin_login r attempts).1
step (finish r) attempts = (finish_login r attempts).1

pub run : List Event → Attempts → Attempts
run [] attempts = attempts
run (e ∷ es) attempts = run es (step e attempts)
