-- ===== src/Throttle/Lockout.antt =====
-- From the first failed login to the lock.
use eh_bot.Prelude.{
  ℕ, ◌+◌, ◌<◌, String, string_Eq, ◌≡◌, true, not, ◌&&◌, ◌||◌, some, List, [], ◌∷◌, ◌++◌, arith, leb,
  ltb, ◌==◌, str_eq, eq_iff, if◌then◌else◌, length, All,
}
use eh_bot.Prelude.Dict
use eh_bot.Throttle.{
  Entry, Attempts, max_failed_attempts, lockout_seconds, no_failures, entry_of, is_expired,
  prune_expired, is_locked, failed_count, record_failure, Login, begin_login, after_check,
  finish_login, authenticate, authenticate_all,
}

pub entry_of-record_failure :
    (a : Attempts) (key : String) (now count : ℕ)
    → entry_of key (record_failure a key now count).1 ≡ record {
      count = count + 1;
      locked_until = if leb max_failed_attempts (count + 1) then now + lockout_seconds else 0;
    }
unfolding entry_of record_failure
entry_of-record_failure a key now count = ground (
  arith,
  eq_iff key key,
  Dict.lookup-set {V = Entry} key key
      (record {
        count = count + 1;
        locked_until = if leb max_failed_attempts (count + 1) then now + lockout_seconds else 0;
      })
      (prune_expired a now),
)

-- A login from `key` that names the wrong user or brings the wrong password.
pub record Fails (username key : String) (r : Login) : Type 0 where
  pub from : r.client_key ≡ key
  pub known : r.admin ≡ some username
  pub wrong : (not r.matches || not (str_eq r.name username)) ≡ true

-- An unlocked address with `count` failures and no lock counts one more.
authenticate-Fails :
    (username key : String) (r : Login) (a : Attempts) (count : ℕ)
    → Fails username key r
    → entry_of key a ≡ record { count = count; locked_until = 0 }
    → entry_of key (authenticate r a).1 ≡ record {
      count = count + 1;
      locked_until = if leb max_failed_attempts (count + 1) then r.now + lockout_seconds else 0;
    }
unfolding authenticate begin_login finish_login after_check is_locked failed_count is_expired
authenticate-Fails username key r a count f h =
    ground (arith, entry_of-record_failure a key r.now count)

authenticate_all-Fails :
    (username key : String) (rs : List Login) (a : Attempts) (count : ℕ)
    → All (Fails username key) rs
    → count + length rs < max_failed_attempts
    → entry_of key a ≡ record { count = count; locked_until = 0 }
    → entry_of key (authenticate_all rs a) ≡ record { count = count + length rs; locked_until = 0 }
unfolding authenticate_all
authenticate_all-Fails username key [] a count fs short h = ground arith
authenticate_all-Fails username key (r ∷ rs) a count (f, fs) short h = ground (
  arith,
  authenticate-Fails username key r a count,
  authenticate_all-Fails username key rs (authenticate r a).1 (count + 1),
)

authenticate_all-append :
    (rs : List Login) (r : Login) (a : Attempts)
    → authenticate_all (rs ++ r ∷ []) a ≡ (authenticate r (authenticate_all rs a)).1
unfolding authenticate_all
authenticate_all-append [] r a = ground arith
authenticate_all-append (x ∷ rs) r a = authenticate_all-append rs r (authenticate x a).1

-- From an address with no failures on record, after one to five failed logins in a row, the address
-- is locked exactly if they were five, and then until `LOCKOUT_SECONDS` after the start of the last.
pub lockout :
    (username key : String) (rs : List Login) (r : Login) (a : Attempts) (t : ℕ)
    → All (Fails username key) rs
    → Fails username key r
    → length rs < max_failed_attempts
    → entry_of key a ≡ no_failures
    → is_locked (authenticate_all (rs ++ r ∷ []) a) key t
      ≡ (length rs == 4 && ltb t (r.now + lockout_seconds))
unfolding is_locked
lockout username key rs r a t fs f short h = rw authenticate_all-append (
    ground (
      arith,
      authenticate_all-Fails username key rs a 0,
      authenticate-Fails username key r (authenticate_all rs a) (length rs),
    ))
