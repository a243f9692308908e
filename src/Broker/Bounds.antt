-- ===== src/Broker/Bounds.antt =====
-- No subscriber's queue grows past its bound.
use eh_bot.Prelude.{
  ℕ, ◌+◌, ◌≤◌, ◌<◌, ◌≡◌, refl, Bool, true, Option, none, some, List, [], ◌∷◌, ◌==◌, ltb, length,
  length-append, arith, ◌∙◌, All, Bool-cases, inl, inr, if-elim,
}
use eh_bot.Broker.{
  Record, Subscriber, LogBroker, drop, offer, runs_here, deliver, kept, deliver_all, publish,
  called, callback, taken, on_each, without, Event, published, ran_callback, took, closed_loop,
  subscribed, unsubscribed, step, run, new_broker, with_subscribers,
}
use eh_bot.Broker.Newest.{length-drop}

length-offer :
    (m : ℕ) (q : List Record) (r : Record) → 0 < m → length q ≤ m → length (offer m q r).0 ≤ m
unfolding offer
length-offer m q r pos h = elim (Bool-cases (ltb (length q) m)) [
  | inl e ↦
      ground (arith, length-append q (r ∷ []), length-drop 1 q, length-append (drop 1 q) (r ∷ []))
  | inr e ↦
      ground (arith, length-append q (r ∷ []), length-drop 1 q, length-append (drop 1 q) (r ∷ []))
]

module _ (m : ℕ) (pos : 0 < m) where
  Fits : Subscriber → Type 0
  Fits s = length s.queue ≤ m

  KeepsOption : Option (Subscriber × ℕ) → Type 0
  KeepsOption none = Unit
  KeepsOption (some (s, d)) = Fits s

  deliver-Fits :
      (running : Option ℕ) (r : Record) (s : Subscriber)
      → Fits s
      → KeepsOption (deliver m running r s)
  unfolding deliver KeepsOption Fits
  deliver-Fits running r s h =
      if-elim KeepsOption (runs_here running s.loop) (length-offer m s.queue r pos h)
        (if-elim KeepsOption s.is_closed tt h)

  kept-Fits :
      (o : Option (Subscriber × ℕ)) (rest : List Subscriber × ℕ)
      → KeepsOption o
      → All Fits rest.0
      → All Fits (kept o rest).0
  unfolding kept KeepsOption
  kept-Fits none rest h hs = hs
  kept-Fits (some (s, d)) rest h hs = (h, hs)

  deliver_all-Fits :
      (running : Option ℕ) (r : Record) (ss : List Subscriber)
      → All Fits ss
      → All Fits (deliver_all m running r ss).0
  unfolding deliver_all
  deliver_all-Fits running r [] h = tt
  deliver_all-Fits running r (s ∷ ss) h =
      kept-Fits (deliver m running r s) (deliver_all m running r ss) (deliver-Fits running r s h.0)
        (deliver_all-Fits running r ss h.1)

  on_each-Fits :
      (test : Subscriber → Bool) (f : Subscriber → Subscriber × ℕ) (ss : List Subscriber)
      → ((s : Subscriber) → Fits s → Fits (f s).0)
      → All Fits ss
      → All Fits (on_each test f ss).0
  unfolding on_each
  on_each-Fits test f [] hf h = tt
  on_each-Fits test f (s ∷ ss) hf h =
      if-elim (λ (p : List Subscriber × ℕ). All Fits p.0) (test s)
        (hf s h.0, on_each-Fits test f ss hf h.1) (h.0, on_each-Fits test f ss hf h.1)

  without-Fits : (name : ℕ) (ss : List Subscriber) → All Fits ss → All Fits (without name ss)
  unfolding without
  without-Fits name [] h = tt
  without-Fits name (s ∷ ss) h =
      if-elim (All Fits) (s.name == name) (without-Fits name ss h.1) (h.0, without-Fits name ss h.1)

  called-Fits : (s : Subscriber) (rs : List Record) → Fits s → Fits (called m s rs).0
  unfolding called Fits
  called-Fits s [] h = h
  called-Fits s (r ∷ rs) h = length-offer m s.queue r pos h

  taken-Fits : (s : Subscriber) → Fits s → Fits (taken s)
  unfolding taken Fits
  taken-Fits s h = omega (arith, length-drop 1 s.queue)

  step-Fits :
      (e : Event) (b : LogBroker)
      → b.queue_maxsize ≡ m
      → All Fits b.subscribers
      → All Fits (step e b).subscribers
  unfolding step publish with_subscribers callback Fits
  step-Fits (published running line) b e h =
      rw (e) (
        deliver_all-Fits running (record { sequence = b.sequence + 1; line = line }) b.subscribers
          h)
  step-Fits (ran_callback name) b e h = rw (e) (
      on_each-Fits (λ s. s.name == name) (callback m) b.subscribers (λ s. called-Fits s s.scheduled)
        h)
  step-Fits (took name) b e h =
      on_each-Fits (λ s. s.name == name) (λ s. (taken s, 0)) b.subscribers taken-Fits h
  step-Fits (closed_loop loop) b e h =
      on_each-Fits (λ s. s.loop == loop) (λ s. (record s { is_closed = true }, 0)) b.subscribers
        (λ s k. k) h
  step-Fits (subscribed name loop) b e h = (omega arith, h)
  step-Fits (unsubscribed name) b e h = without-Fits name b.subscribers h

  step-queue_maxsize : (e : Event) (b : LogBroker) → (step e b).queue_maxsize ≡ b.queue_maxsize
  unfolding step publish with_subscribers
  step-queue_maxsize (published running line) b = refl
  step-queue_maxsize (ran_callback name) b = refl
  step-queue_maxsize (took name) b = refl
  step-queue_maxsize (closed_loop loop) b = refl
  step-queue_maxsize (subscribed name loop) b = refl
  step-queue_maxsize (unsubscribed name) b = refl

  run-Fits :
      (es : List Event) (b : LogBroker)
      → b.queue_maxsize ≡ m
      → All Fits b.subscribers
      → All Fits (run es b).subscribers
  unfolding run
  run-Fits [] b e h = h
  run-Fits (v ∷ es) b e h = run-Fits es (step v b) (step-queue_maxsize v b ∙ e) (step-Fits v b e h)

-- A queue's bound that is not zero holds for every subscriber, whatever is published from whichever
-- thread and however late the loops run.
pub run-queue_maxsize :
    (es : List Event) (capacity maxsize : ℕ)
    → 0 < maxsize
    → All (λ s. length s.queue ≤ maxsize) (run es (new_broker capacity maxsize)).subscribers
unfolding new_broker Fits
run-queue_maxsize es capacity maxsize pos =
    run-Fits maxsize pos es (new_broker capacity maxsize) refl tt
