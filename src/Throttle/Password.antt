-- ===== src/Throttle/Password.antt =====
-- When a login succeeds, and what it leaves.
use eh_bot.Prelude.{
  String, string_Eq, ◌≡◌, ◌↔◌, true, false, some, arith, eq_iff, ok, err, inl, inr, Option-cases,
}
use eh_bot.Prelude.Dict
use eh_bot.Throttle.{
  Attempts, no_failures, entry_of, is_locked, clear, Login, begin_login, after_check, finish_login,
  authenticate, locked_out,
}

-- After the hash check a login succeeds exactly if the administrator exists, the password matches,
-- the name is the administrator's, and no lock stands on the address at that time, which may be one
-- that other logins set meanwhile.
pub finish_login-ok_iff :
    (r : Login) (a : Attempts) (username : String)
    → ((finish_login r a).0 ≡ ok username) ↔ (
        (r.admin ≡ some username)
        × (r.matches ≡ true)
        × (r.name ≡ username)
        × (is_locked a r.client_key r.later ≡ false))
unfolding finish_login after_check
finish_login-ok_iff r a username = elim (Option-cases r.admin) [
  | inl e ↦ (λ h. ground arith, λ h. ground arith)
  | inr (u, e) ↦ (λ h. ground (arith, eq_iff r.name u), λ h. ground (arith, eq_iff r.name u))
]

-- A locked address is refused before and after the hash check, whatever its password, and the
-- refused login leaves the dict as it was.
pub authenticate-locked :
    (r : Login) (a : Attempts)
    → is_locked a r.client_key r.now ≡ true
    → authenticate r a ≡ (err locked_out, a)
unfolding authenticate begin_login
authenticate-locked r a h = ground arith

-- A login that succeeds takes the address off the dict: no failure and no lock is left.
pub entry_of-finish_login :
    (r : Login) (a : Attempts) (username : String)
    → Dict.IsDistinct a
    → (finish_login r a).0 ≡ ok username
    → entry_of r.client_key (finish_login r a).1 ≡ no_failures
unfolding finish_login after_check clear entry_of
entry_of-finish_login r a username d h =
    ground (arith, Dict.lookup-pop r.client_key r.client_key a, eq_iff r.client_key r.client_key)
