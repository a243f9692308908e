-- ===== src/Queue/Receipts/Exclusive.antt =====
-- Of two clients that have read the same revision of a task, one commands it.
use mathlib.Core.Path.{subst}
use eh_bot.Prelude.{
  ℕ, ◌≡◌, refl, sym, ◌∙◌, ap, true, false, not, ◌||◌, Option, none, some, inl, inr, arith, ◌==◌,
  ==_iff, ltb, length, Text, Result, ok, err, ◌>>=◌, is_ok, nat_Eq, text_Eq, IfOk, returned, raised,
  IfOk-ok, IfOk-bind, IfOk-self, IfOk-refuse_if, IfOk-weaken, Option-cases, Bool-cases,
}
use eh_bot.Prelude.Dict
use eh_bot.Queue.{
  Job, Task, Action, Params, Store, Failure, revision_required, idempotency_key_required,
  task_superseded, revision_conflict,
}
use eh_bot.Queue.Rows.Table.{IsGivenOut}
use eh_bot.Queue.Commands.{Snapshot, Reply, task_snapshot, found_job, snapshot_of}
use eh_bot.Queue.Commands.Requeue.{apply}
use eh_bot.Queue.Receipts.{
  Request, Desk, Reference, checked, or_refuse, agreed, unchanged, execute, by_receipt,
  command_sync,
}
use eh_bot.Queue.Run.Moved.{IsMoved, IsRevised}
use eh_bot.Queue.Run.Outdated.{is_prioritizing, apply_action-IsMoved}

revised :
    (revision : ℕ) (t : Task) (o : Option Task) (v : IsRevised revision o)
    → some t ≡ some v.task
    → (t.revision == revision) ≡ false
revised revision t o v e =
    let same : t ≡ v.task = cc in ground (arith, v.later, ap (λ (x : Task). x.revision) same)

agreed-moved :
    (r : Request) (task_id revision : ℕ) (s : Store)
    → IsMoved r.job_id task_id revision s
    → is_ok (agreed r task_id revision s) ≡ false
unfolding agreed task_snapshot found_job snapshot_of
agreed-moved r task_id revision s m =
    rw m.found (elim (Option-cases (Dict.lookup m.job.task_id s.tasks)) [
      | inl missing ↦ rw missing refl
      | inr (t, seen) ↦ rw seen (elim m.moved [
        | inl other ↦ rw other refl
        | inr v ↦ elim (Bool-cases (m.job.task_id == task_id)) [
          | inl same ↦
              let outdated = revised revision t _ v (
                sym seen
                ∙ ap (λ k. Dict.lookup k s.tasks) ((==_iff m.job.task_id task_id).0 same)
                ∙ v.kept) in
              rw (same, outdated) refl
          | inr other ↦ rw other refl
        ]
      ])
    ])

-- What the client has read is what is there.
record IsRead (r : Request) (task_id revision : ℕ) (s : Store) (current : Snapshot) : Type 0 where
  job : Job
  task : Task
  job_found : Dict.lookup r.job_id s.jobs ≡ some job
  task_found : Dict.lookup job.task_id s.tasks ≡ some task
  same_task : job.task_id ≡ task_id
  same_revision : task.revision ≡ revision
  seen : current.task_id ≡ job.task_id

agreed-IsRead :
    (r : Request) (task_id revision : ℕ) (s : Store)
    → IfOk (IsRead r task_id revision s) (agreed r task_id revision s)
unfolding agreed task_snapshot found_job snapshot_of
agreed-IsRead r task_id revision s = elim (Option-cases (Dict.lookup r.job_id s.jobs)) [
  | inl missing ↦ rw missing raised
  | inr (j, ej) ↦ rw ej (elim (Option-cases (Dict.lookup j.task_id s.tasks)) [
    | inl missing ↦ rw missing raised
    | inr (t, et) ↦ rw et (
        IfOk-refuse_if (not (j.task_id == task_id)) task_superseded λ a.
          IfOk-refuse_if (not (t.revision == revision)) revision_conflict λ b. returned (record {
            job = j;
            task = t;
            job_found = ej;
            task_found = et;
            same_task = ground (arith, a);
            same_revision = ground (arith, b);
            seen = refl;
          }))
  ])
]

apply-IsMoved :
    (r : Request) (task_id revision : ℕ) (current : Snapshot) (s : Store)
    → IsGivenOut s.tasks s.fresh
    → is_prioritizing r.action ≡ false
    → IsRead r task_id revision s current
    → IfOk (λ p. IsMoved r.job_id task_id revision p.1) (apply r.job_id r.action current r.params s)
unfolding apply found_job IsGivenOut
apply-IsMoved r task_id revision current s g n read = rw read.job_found (
    IfOk-bind
      (apply_action-IsMoved r.action r.job_id read.job read.task current r.params s n read.seen
        read.job_found read.task_found (g read.job.task_id read.task read.task_found))
      λ p m. IfOk-bind (IfOk-self (task_snapshot r.job_id p.1)) λ snapshot e. returned (
        subst (λ k. IsMoved r.job_id k revision p.1) read.same_task
          (subst (λ k. IsMoved r.job_id read.job.task_id k p.1) read.same_revision m)))

Reads : Request → ℕ × ℕ → Type 0
Reads r q = (r.task_id ≡ some q.0) × (r.expected_revision ≡ some q.1)

checked-Reads : (r : Request) → IfOk (Reads r) (checked r)
unfolding checked or_refuse Reads
checked-Reads r = elim (Option-cases r.task_id) [
  | inl missing ↦ rw missing raised
  | inr (task_id, et) ↦ elim (Option-cases r.expected_revision) [
    | inl missing ↦ rw (et, missing) raised
    | inr (revision, ev) ↦
        simp (et, ev)
          (IfOk-refuse_if (revision == 0) revision_required λ a.
            IfOk-refuse_if (length r.key == 0 || ltb 200 (length r.key)) idempotency_key_required
              λ b. returned (et, ev))
  ]
]

bind_refused :
    {A B : Type 0} (m : Result Failure A) (f : A → Result Failure B)
    → ((a : A) → m ≡ ok a → is_ok (f a) ≡ false)
    → is_ok (m >>= f) ≡ false
bind_refused (ok a) f h = h a refl
bind_refused (err e) f h = refl

true-ne-false : ¬ (true ≡ false)
true-ne-false h = cc

some_same : {a b : ℕ} → some a ≡ some b → a ≡ b
some_same e = cc

module _ (sha : ℕ → Action → ℕ → ℕ → Params → Text) where
  execute-IsMoved :
      (prepared : Option (ℕ × Reference)) (now : ℕ) (r : Request) (task_id revision : ℕ) (d : Desk)
      → IsGivenOut d.store.tasks d.store.fresh
      → is_prioritizing r.action ≡ false
      → IfOk
          (λ p. IsMoved r.job_id task_id revision p.1.store)
          (execute sha prepared now r task_id revision d)
  unfolding execute
  execute-IsMoved prepared now r task_id revision d g n =
      IfOk-bind (agreed-IsRead r task_id revision d.store) λ current read.
        IfOk-bind (IfOk-self (unchanged prepared r.params d.store)) λ u e.
          IfOk-bind (apply-IsMoved r task_id revision current d.store g n read) λ p m. returned m

  -- What a command without a receipt has read and moved.
  record IsDone (r : Request) (p : Reply × Desk) : Type 0 where
    task_id : ℕ
    revision : ℕ
    read : checked r ≡ ok (task_id, revision)
    moved : IsMoved r.job_id task_id revision p.1.store

  command_sync-IsDone :
      (prepared : Option (ℕ × Reference)) (now : ℕ) (r : Request) (d : Desk)
      → IsGivenOut d.store.tasks d.store.fresh
      → is_prioritizing r.action ≡ false
      → Dict.lookup r.key d.receipts ≡ none
      → IfOk (IsDone r) (command_sync sha prepared now r d)
  unfolding command_sync by_receipt
  command_sync-IsDone prepared now r d g n missing = rw missing (
      IfOk-bind (IfOk-self (checked r)) λ q c.
        IfOk-weaken (execute-IsMoved prepared now r q.0 q.1 d g n)
          λ p m. record { task_id = q.0; revision = q.1; read = c; moved = m })

  execute-refused :
      (prepared : Option (ℕ × Reference)) (now : ℕ) (r : Request) (task_id revision : ℕ) (d : Desk)
      → IsMoved r.job_id task_id revision d.store
      → is_ok (execute sha prepared now r task_id revision d) ≡ false
  unfolding execute
  execute-refused prepared now r task_id revision d m =
      bind_refused (agreed r task_id revision d.store) _ (λ current e.
        absurd (true-ne-false (sym (ap is_ok e) ∙ agreed-moved r task_id revision d.store m)))

  -- Of two commands for the same revision of a task, one directly behind the other and under two keys that have
  -- not been used, at most one is carried out: once the first has been, the second is refused. The first must not be
  -- a change of the priority, and no identifier of a task may have been given out in advance.
  pub command_sync-excludes :
      (prepared prepared' : Option (ℕ × Reference)) (now now' : ℕ) (r r' : Request) (d d' : Desk)
      (reply : Reply)
      → IsGivenOut d.store.tasks d.store.fresh
      → is_prioritizing r.action ≡ false
      → Dict.lookup r.key d.receipts ≡ none
      → command_sync sha prepared now r d ≡ ok (reply, d')
      → r'.job_id ≡ r.job_id
      → r'.task_id ≡ r.task_id
      → r'.expected_revision ≡ r.expected_revision
      → Dict.lookup r'.key d'.receipts ≡ none
      → is_ok (command_sync sha prepared' now' r' d') ≡ false
  unfolding command_sync by_receipt Reads
  command_sync-excludes prepared prepared' now now' r r' d d' reply g n missing h same_job same_task
        same_revision missing' =
      let done = IfOk-ok {P = IsDone r} (command_sync-IsDone prepared now r d g n missing) h in
      let read = IfOk-ok {P = Reads r} (checked-Reads r) done.read in
      rw missing' (
        bind_refused (checked r') _ (λ q e.
          let again = IfOk-ok {P = Reads r'} (checked-Reads r') e in
          let task : some q.0 ≡ some done.task_id = sym again.0 ∙ same_task ∙ read.0 in
          let revision : some q.1 ≡ some done.revision = sym again.1 ∙ same_revision ∙ read.1 in
          execute-refused prepared' now' r' q.0 q.1 d' (
            subst (λ k. IsMoved r'.job_id k q.1 d'.store) (sym (some_same task))
              (subst (λ k. IsMoved r'.job_id done.task_id k d'.store) (sym (some_same revision))
                (subst (λ k. IsMoved k done.task_id done.revision d'.store) (sym same_job)
                  done.moved)))))
