-- ===== src/Approval/Sweep/Samples.antt =====
-- Passes of the sweep over a small queue.
use eh_bot.Prelude.{ℕ, ◌≡◌, refl, true, some, List, [], ◌∷◌, arith}
use eh_bot.Approval.Sweep.{next_batch, in_order, insert_id, precedes, is_behind, first, last_or}
use eh_bot.Approval.Sweep.Turns.{passes, is_reached, IsShrinking, passes-reach_all}
use eh_bot.Approval.Sweep.Window.{count, is_listed}

-- Behind the cursor 4 the pass takes up the ids above it first.
next_batch-wraps : next_batch 3 (some 4) (2 ∷ 5 ∷ 9 ∷ 4 ∷ []) ≡ (5 ∷ 9 ∷ 2 ∷ [], some 2)
unfolding next_batch in_order insert_id precedes is_behind first last_or
next_batch-wraps = refl

abbrev queue : List ℕ
queue = 2 ∷ 4 ∷ 5 ∷ 9 ∷ []

abbrev smaller_queue : List ℕ
smaller_queue = 2 ∷ 4 ∷ 9 ∷ []

passes-reach_all_example : is_reached 4 (passes 2 (some 4) (queue ∷ smaller_queue ∷ [])) ≡ true
passes-reach_all_example =
    passes-reach_all 2 (some 4) 4 queue (queue ∷ smaller_queue ∷ []) (omega arith)
      (unfold is_listed in refl)
      (unfold IsShrinking count in ((λ f. omega arith), ((λ f. ground arith), tt)))
      (unfold is_listed in (refl, (refl, tt))) (omega arith)
