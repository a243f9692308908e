-- ===== src/Approval/Sweep.antt =====
-- One pass of `AutoApprovalSweeper` over the candidates that await review, and the query that gives it
-- the next batch (app/auto_approval/sweeper.py, `_pending_candidate_ids_sync` of app/db/database.py).
mod Window
mod Turns
mod Samples
use eh_bot.Prelude.{
  ℕ, zero, suc, ◌+◌, Bool, true, false, not, ◌&&◌, ◌||◌, Option, none, some, List, [], ◌∷◌, ltb,
  leb, if◌then◌else◌, length,
}
use eh_bot.Prelude.Dict.{Dict}
use eh_bot.Approval.{Action, approve, reject, Candidate}
use eh_bot.Approval.Service.{is_pending}

abbrev pub sweep_batch_size : ℕ
sweep_batch_size = 100

-- `id <= after_id`, of a cursor that may be missing
is_behind : Option ℕ → ℕ → Bool
is_behind none id = false
is_behind (some cursor) id = leb id cursor

-- Strictly in front, in `ORDER BY (id <= ?) ASC, id ASC` and, without a cursor, in `ORDER BY id ASC`.
pub precedes : Option ℕ → ℕ → ℕ → Bool
unfolding is_behind
precedes cursor a b =
    not (is_behind cursor a) && is_behind cursor b
    || (not (is_behind cursor a) || is_behind cursor b) && ltb a b

pub insert_id : Option ℕ → ℕ → List ℕ → List ℕ
insert_id cursor a [] = a ∷ []
insert_id cursor a (b ∷ ids) =
    if precedes cursor b a then b ∷ insert_id cursor a ids else a ∷ b ∷ ids

pub in_order : Option ℕ → List ℕ → List ℕ
unfolding insert_id
in_order cursor [] = []
in_order cursor (a ∷ ids) = insert_id cursor a (in_order cursor ids)

-- `LIMIT ?`
pub first : ℕ → List ℕ → List ℕ
first zero ids = []
first (suc n) [] = []
first (suc n) (a ∷ ids) = a ∷ first n ids

is_linked : Option ℕ → Bool
is_linked none = false
is_linked (some gid) = true

-- `WHERE status = 'PENDING_REVIEW' AND ex_gid IS NOT NULL`
pub eligible : Dict ℕ Candidate → List ℕ
unfolding is_pending is_linked
eligible [] = []
eligible ((id, c) ∷ rows) =
    let rest = eligible rows in
    if is_pending c.status && is_linked c.ex_gid then id ∷ rest else rest

pub last_or : Option ℕ → List ℕ → Option ℕ
last_or o [] = o
last_or o (a ∷ ids) = last_or (some a) ids

-- The batch of a pass and the cursor behind it, from the eligible ids; an empty batch forgets the cursor.
pub next_batch : ℕ → Option ℕ → List ℕ → List ℕ × Option ℕ
unfolding in_order first last_or
next_batch limit cursor ids =
    let batch = first limit (in_order cursor ids) in (batch, last_or none batch)

-- What `apply_automatic_decision` does: it decides, declines, or raises.
pub data Attempt : Type 0 where
  decided : Action → Attempt
  declined failed : Attempt

-- The counters of a pass, and the candidates that are announced, the latest first.
pub record Tally : Type 0 where
  pub approved : ℕ
  pub rejected : ℕ
  pub notified : List ℕ

count_attempt : ℕ → Attempt → Tally → Tally
count_attempt id (decided approve) t = record t {
  approved = suc t.approved;
  notified = id ∷ t.notified;
}
count_attempt id (decided reject) t = record t {
  rejected = suc t.rejected;
  notified = id ∷ t.notified;
}
count_attempt id _ t = t

-- The orchestrator that the sweeper is built with: what it does to the database.
module _ {World : Type 0} (apply_decision : ℕ → World → Attempt × World) where
  -- the loop over the batch
  pub sweep_batch : List ℕ → World → Tally → Tally × World
  unfolding count_attempt
  sweep_batch [] w t = (t, w)
  sweep_batch (id ∷ ids) w t =
      let (attempt, w') = apply_decision id w in sweep_batch ids w' (count_attempt id attempt t)

  -- `_sweep_once`, without a metadata enricher: how many it decided, with the cursor and the database
  pub sweep_once : (World → Dict ℕ Candidate) → Option ℕ → World → ℕ × Option ℕ × World
  unfolding next_batch eligible sweep_batch
  sweep_once rows cursor w =
      let (batch, cursor') = next_batch sweep_batch_size cursor (eligible (rows w)) in
      let (t, w') = sweep_batch batch w (record { approved = 0; rejected = 0; notified = [] }) in
      (t.approved + t.rejected, cursor', w')
