-- ===== src/Broker/Newest.antt =====
-- The buffer holds the newest records.
use eh_bot.Prelude.{
  ℕ, zero, suc, ◌+◌, ◌-◌, ◌≤◌, ◌≡◌, refl, sym, ap, ◌∙◌, List, [], ◌∷◌, ◌++◌, append_assoc,
  append-nil, length, length-append, arith,
}
use eh_bot.Broker.{
  Record, LogBroker, drop, append, publish, Event, published, ran_callback, took, closed_loop,
  subscribed, unsubscribed, step, run, new_broker, with_subscribers,
}

pub length-drop : (n : ℕ) (rs : List Record) → length (drop n rs) ≡ length rs - n
unfolding drop
length-drop zero rs = omega arith
length-drop (suc n) [] = omega arith
length-drop (suc n) (r ∷ rs) = omega (arith, length-drop n rs)

drop-nil : (n : ℕ) → drop n [] ≡ []
unfolding drop
drop-nil zero = refl
drop-nil (suc n) = refl

drop-drop : (m n : ℕ) (rs : List Record) → drop m (drop n rs) ≡ drop (n + m) rs
unfolding drop
drop-drop m zero rs = ap (λ k. drop k rs) (omega arith)
drop-drop m (suc n) [] = drop-nil m ∙ sym (drop-nil (suc n + m))
drop-drop m (suc n) (r ∷ rs) =
    drop-drop m n rs ∙ ap (λ k. drop k (r ∷ rs)) {x = suc (n + m)} {y = suc n + m} (omega arith)

drop-append : (n : ℕ) (rs qs : List Record) → n ≤ length rs → drop n (rs ++ qs) ≡ drop n rs ++ qs
unfolding drop
drop-append zero rs qs h = refl
drop-append (suc n) [] qs h = absurd (omega arith)
drop-append (suc n) (r ∷ rs) qs h = drop-append n rs qs (omega arith)

-- The last records, at most so many.
unfoldable pub newest : ℕ → List Record → List Record
unfolding drop
newest n rs = drop (length rs - n) rs

append-newest :
    (n : ℕ) (h : List Record) (r : Record) → append n (newest n h) r ≡ newest n (h ++ r ∷ [])
unfolding append newest
append-newest n h r =
    rw
      (
        sym (drop-append (length h - n) h (r ∷ []) (omega arith)),
        drop-drop (length (drop (length h - n) (h ++ r ∷ [])) - n) (length h - n) (h ++ r ∷ []),
      )
      (ap (λ k. drop k (h ++ r ∷ []))
        (omega (arith, length-drop (length h - n) (h ++ r ∷ []), length-append h (r ∷ []))))

-- What is published, with the numbers that follow on `n`.
unfoldable pub history : ℕ → List Event → List Record
history n [] = []
history n (published running line ∷ es) =
    record { sequence = n + 1; line = line } ∷ history (n + 1) es
history n (_ ∷ es) = history n es

run-newest :
    (es : List Event) (h : List Record) (b : LogBroker)
    → b.records ≡ newest b.capacity h
    → (run es b).records ≡ newest b.capacity (h ++ history b.sequence es)
unfolding run step publish history with_subscribers
run-newest [] h b e = rw (append-nil h) e
run-newest (published running line ∷ es) h b e =
    let r : Record = record { sequence = b.sequence + 1; line = line } in
    run-newest es (h ++ r ∷ []) (publish running line b) (rw e (append-newest b.capacity h r))
    ∙ ap (newest b.capacity) (append_assoc h (r ∷ []) (history (b.sequence + 1) es))
run-newest (ran_callback name ∷ es) h b e = run-newest es h (step (ran_callback name) b) e
run-newest (took name ∷ es) h b e = run-newest es h (step (took name) b) e
run-newest (closed_loop loop ∷ es) h b e = run-newest es h (step (closed_loop loop) b) e
run-newest (subscribed name loop ∷ es) h b e = run-newest es h (step (subscribed name loop) b) e
run-newest (unsubscribed name ∷ es) h b e = run-newest es h (step (unsubscribed name) b) e

-- Whatever is published, subscribed, taken or closed, and in whatever order: the buffer of a new
-- broker holds the newest of the published records, at most as many as its capacity, in order and
-- numbered from one.
pub records-run :
    (es : List Event) (capacity maxsize : ℕ)
    → (run es (new_broker capacity maxsize)).records ≡ newest capacity (history 0 es)
unfolding new_broker newest drop
records-run es capacity maxsize =
    run-newest es [] (new_broker capacity maxsize) (sym (drop-nil (0 - capacity)))
