-- ===== src/Throttle/Samples.antt =====
-- Runs of the throttle, and its theorems at concrete logins.
use eh_bot.Prelude.{
  ℕ, ◌+◌, ◌≤◌, string_Eq, ◌≡◌, refl, true, false, ◌&&◌, some, List, [], ◌∷◌, ◌++◌, arith, eq_iff,
  length, ltb, ◌==◌, ok,
}
use eh_bot.Prelude.Dict
use eh_bot.Throttle.{
  Attempts, entry_of, is_locked, Login, after_check, finish_login, authenticate_all, begin, finish,
  step, run, max_tracked_clients, lockout_seconds,
}
use eh_bot.Throttle.Ceiling.{run-IsBounded}
use eh_bot.Throttle.Lockout.{Fails, lockout}
use eh_bot.Throttle.Isolation.{is_locked-step}
use eh_bot.Throttle.Password.{finish_login-ok_iff}

abbrev guess : ℕ → Login
guess now = record {
  client_key = "10.0.0.1";
  now = now;
  later = now + 1;
  admin = some "admin";
  name = "admin";
  matches = false;
}

abbrev owner : Login
owner = record (guess 5) { client_key = "10.0.0.2"; matches = true }

guess-Fails : (now : ℕ) → Fails "admin" "10.0.0.1" (guess now)
guess-Fails now = record { from = refl; known = refl; wrong = refl }

abbrev four : List Login
four = guess 1 ∷ guess 2 ∷ guess 3 ∷ guess 4 ∷ []

lockout_example :
    is_locked (authenticate_all (four ++ guess 5 ∷ []) []) "10.0.0.1" 64
    ≡ (length four == 4 && ltb 64 ((guess 5).now + lockout_seconds))
unfolding entry_of Dict.lookup
lockout_example =
    lockout "admin" "10.0.0.1" four (guess 5) [] 64
      (guess-Fails 1, (guess-Fails 2, (guess-Fails 3, (guess-Fails 4, tt)))) (guess-Fails 5)
      (omega arith) refl

run-IsBounded_example :
    length (run (begin (guess 1) ∷ finish (guess 1) ∷ finish owner ∷ []) [])
    ≤ max_tracked_clients + 1
run-IsBounded_example =
    run-IsBounded (begin (guess 1) ∷ finish (guess 1) ∷ finish owner ∷ []) [] (omega arith)

abbrev one_failure : Attempts
one_failure = ("10.0.0.2", record { count = 5; locked_until = 50 }) ∷ []

is_locked-step_example :
    is_locked (step (finish (guess 1)) one_failure) "10.0.0.2" 7
    ≡ is_locked one_failure "10.0.0.2" 7
unfolding Dict.lookup
is_locked-step_example =
    is_locked-step (finish (guess 1)) one_failure "10.0.0.2" 7
      (λ e. cc ((eq_iff "10.0.0.1" "10.0.0.2").1 e)) (refl, tt) (omega arith) (omega arith)

finish_login-ok_example : (finish_login owner []).0 ≡ ok "admin"
unfolding is_locked entry_of Dict.lookup
finish_login-ok_example = (finish_login-ok_iff owner [] "admin").1 (refl, refl, refl, refl)

abbrev lapsed : Attempts
lapsed = ("10.0.0.2", record { count = 3; locked_until = 0 }) ∷ []

lapsed_login : (finish_login owner lapsed).0 ≡ ok "admin"
unfolding finish_login after_check is_locked entry_of Dict.lookup
lapsed_login = refl
