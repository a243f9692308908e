-- ===== src/Queue/Receipts/Once.antt =====
-- A command is carried out at most once.
use mathlib.Core.Path.{subst}
use eh_bot.Prelude.{
  ℕ, ◌+◌, ◌≤◌, ◌≡◌, refl, sym, ◌∙◌, ap, true, false, Option, none, some, [], ◌∷◌, arith,
  if◌then◌else◌, Text, list_eq, list_eq_iff, ok, nat_Eq, text_Eq, IfOk, returned, IfOk-ok,
  IfOk-bind, IfOk-self, IfOk-refuse_if, IfOk-weaken, if-cases, Bool-cases, inl, inr, Option-cases,
}
use eh_bot.Prelude.Dict
use eh_bot.Prelude.Dict.{Dict}
use eh_bot.Queue.{Action, Params, Store}
use eh_bot.Queue.Commands.{Reply}
use eh_bot.Queue.Commands.Requeue.{apply}
use eh_bot.Queue.Receipts.{
  Request, Receipt, Desk, week, Reference, checked, agreed, unchanged, is_expired, purged,
  digest_of, answered, execute, by_receipt, command_sync,
}

-- The first row of a key stays the first.
lookup_row :
    (k key : Text) (r receipt : Receipt) (rest : Option Receipt)
    → list_eq k key ≡ true
    → (if list_eq k key then some r else rest) ≡ some receipt
    → r ≡ receipt
lookup_row k key r receipt rest same e = ground arith

lookup_row_other :
    (k key : Text) (r receipt : Receipt) (rest : Option Receipt)
    → list_eq k key ≡ false
    → (if list_eq k key then some r else rest) ≡ some receipt
    → rest ≡ some receipt
lookup_row_other k key r receipt rest other e = ground arith

lookup-purged :
    (now : ℕ) (s : Store) (key : Text) (receipt : Receipt) (rows : Dict Text Receipt)
    → is_expired now s receipt ≡ false
    → Dict.lookup key rows ≡ some receipt
    → Dict.lookup key (purged now s rows) ≡ some receipt
unfolding purged Dict.lookup
lookup-purged now s key receipt [] kept e = e
lookup-purged now s key receipt ((k, r) ∷ rows) kept e = elim (Bool-cases (list_eq k key)) [
  | inl same ↦
      let this = lookup_row k key r receipt (Dict.lookup key rows) same e in
      let stays : is_expired now s r ≡ false =
        subst (λ q. is_expired now s q ≡ false) (sym this) kept in
      rw (stays, same) (ap some this)
  | inr other ↦
      let later =
        lookup-purged now s key receipt rows kept
          (lookup_row_other k key r receipt (Dict.lookup key rows) other e) in
      if-cases (λ l. Dict.lookup key l ≡ some receipt) (is_expired now s r) (λ x. later)
        (λ x. rw other later)
]

is_expired-recent :
    (now : ℕ) (s : Store) (receipt : Receipt)
    → now ≤ receipt.created_at + week
    → is_expired now s receipt ≡ false
unfolding is_expired
is_expired-recent now s receipt h = ground (arith, h)

other_key :
    (k key : Text) (receipt : Receipt) (rows : Dict Text Receipt)
    → Dict.lookup k rows ≡ none
    → Dict.lookup key rows ≡ some receipt
    → list_eq k key ≡ false
other_key k key receipt rows missing e = elim (Bool-cases (list_eq k key)) [
  | inl same ↦
      let equal = (list_eq_iff k key).0 same in
      absurd (none-ne-some (sym missing ∙ ap (λ x. Dict.lookup x rows) equal ∙ e))
  | inr other ↦ other
]
  where
    none-ne-some : {A : Type 0} {a : A} → ¬ (none ≡ some a)
    none-ne-some h = cc

lookup-set_other :
    (k key : Text) (new receipt : Receipt) (rows : Dict Text Receipt)
    → Dict.lookup k rows ≡ none
    → Dict.lookup key rows ≡ some receipt
    → Dict.lookup key (Dict.set k new rows) ≡ some receipt
lookup-set_other k key new receipt rows missing e =
    rw (Dict.lookup-set k key new rows, other_key k key receipt rows missing e) e

module _ (sha : ℕ → Action → ℕ → ℕ → Params → Text) where
  -- The desk up to a deadline: commands of any clients, and any other transactions on the queue.
  pub data Served (deadline : ℕ) (d : Desk) : Desk → Type 0 where
    opening : Served deadline d d
    serves :
        {u u' : Desk}
        → Served deadline d u
        → (prepared : Option (ℕ × Reference)) (now : ℕ) (r : Request) (reply : Reply)
        → now ≤ deadline
        → command_sync sha prepared now r u ≡ ok (reply, u')
        → Served deadline d u'
    works :
        {u : Desk} → Served deadline d u → (s : Store) → Served deadline d (record u { store = s })

  receipt_of : Request → ℕ → ℕ → Reply → ℕ → Receipt
  receipt_of r task_id revision reply now = record {
    digest = digest_of sha r task_id revision;
    reply = reply;
    created_at = now;
  }

  execute-kept :
      (prepared : Option (ℕ × Reference)) (now : ℕ) (r : Request) (task_id revision : ℕ) (d : Desk)
      → IfOk
          (λ p. Dict.lookup r.key p.1.receipts ≡ some (receipt_of r task_id revision p.0 now))
          (execute sha prepared now r task_id revision d)
  unfolding execute receipt_of
  execute-kept prepared now r task_id revision d =
      IfOk-bind (IfOk-self (agreed r task_id revision d.store)) λ current a.
        IfOk-bind (IfOk-self (unchanged prepared r.params d.store)) λ u b.
          IfOk-bind (IfOk-self (apply r.job_id r.action current r.params d.store)) λ p c. returned (
            lookup-purged now p.1 r.key (receipt_of r task_id revision p.0 now) _
              (is_expired-recent now p.1 (receipt_of r task_id revision p.0 now) (omega arith))
              (Dict.lookup-set_self r.key _ d.receipts))

  execute-keeps :
      (prepared : Option (ℕ × Reference)) (now : ℕ) (r : Request) (task_id revision : ℕ) (d : Desk)
      (key : Text) (receipt : Receipt)
      → Dict.lookup r.key d.receipts ≡ none
      → Dict.lookup key d.receipts ≡ some receipt
      → now ≤ receipt.created_at + week
      → IfOk
          (λ p. Dict.lookup key p.1.receipts ≡ some receipt)
          (execute sha prepared now r task_id revision d)
  unfolding execute
  execute-keeps prepared now r task_id revision d key receipt missing e l =
      IfOk-bind (IfOk-self (agreed r task_id revision d.store)) λ current a.
        IfOk-bind (IfOk-self (unchanged prepared r.params d.store)) λ u b.
          IfOk-bind (IfOk-self (apply r.job_id r.action current r.params d.store)) λ p c. returned (
            lookup-purged now p.1 key receipt _ (is_expired-recent now p.1 receipt l)
              (lookup-set_other r.key key _ receipt d.receipts missing e))

  by_receipt-keeps :
      (prepared : Option (ℕ × Reference)) (now : ℕ) (r : Request) (task_id revision : ℕ) (d : Desk)
      (key : Text) (receipt : Receipt)
      → Dict.lookup key d.receipts ≡ some receipt
      → now ≤ receipt.created_at + week
      → IfOk
          (λ p. Dict.lookup key p.1.receipts ≡ some receipt)
          (by_receipt sha prepared now r task_id revision d (Dict.lookup r.key d.receipts))
  unfolding by_receipt
  by_receipt-keeps prepared now r task_id revision d key receipt e l =
      elim (Option-cases (Dict.lookup r.key d.receipts)) [
        | inl missing ↦
            rw missing (execute-keeps prepared now r task_id revision d key receipt missing e l)
        | inr (found, same) ↦ rw same (
            IfOk-bind (IfOk-self (answered sha (digest_of sha r task_id revision) found))
              λ reply a. returned e)
      ]

  command_sync-keeps :
      (prepared : Option (ℕ × Reference)) (now : ℕ) (r : Request) (d : Desk) (key : Text)
      (receipt : Receipt)
      → Dict.lookup key d.receipts ≡ some receipt
      → now ≤ receipt.created_at + week
      → IfOk (λ p. Dict.lookup key p.1.receipts ≡ some receipt) (command_sync sha prepared now r d)
  unfolding command_sync
  command_sync-keeps prepared now r d key receipt e l =
      IfOk-bind (IfOk-self (checked r))
        λ p c. by_receipt-keeps prepared now r p.0 p.1 d key receipt e l

  Served-keeps :
      (deadline : ℕ) (d d' : Desk) (key : Text) (receipt : Receipt)
      → Served deadline d d'
      → Dict.lookup key d.receipts ≡ some receipt
      → deadline ≤ receipt.created_at + week
      → Dict.lookup key d'.receipts ≡ some receipt
  Served-keeps deadline d d' key receipt opening e l = e
  Served-keeps deadline d d' key receipt (serves {u} before prepared now r reply early h) e l =
      IfOk-ok {P = λ p. Dict.lookup key p.1.receipts ≡ some receipt}
        (command_sync-keeps prepared now r u key receipt
          (Served-keeps deadline d u key receipt before e l) (omega (arith, early, l)))
        h
  Served-keeps deadline d d' key receipt (works {u} before s) e l =
      Served-keeps deadline d u key receipt before e l

  -- What a command that had no receipt leaves behind.
  record IsRecorded (now : ℕ) (r : Request) (p : Reply × Desk) : Type 0 where
    task_id : ℕ
    revision : ℕ
    read : checked r ≡ ok (task_id, revision)
    kept : Dict.lookup r.key p.1.receipts ≡ some (receipt_of r task_id revision p.0 now)

  command_sync-IsRecorded :
      (prepared : Option (ℕ × Reference)) (now : ℕ) (r : Request) (d : Desk)
      → Dict.lookup r.key d.receipts ≡ none
      → IfOk (IsRecorded now r) (command_sync sha prepared now r d)
  unfolding command_sync by_receipt
  command_sync-IsRecorded prepared now r d missing = rw missing (
      IfOk-bind (IfOk-self (checked r)) λ q c.
        IfOk-weaken (execute-kept prepared now r q.0 q.1 d)
          λ p k. record { task_id = q.0; revision = q.1; read = c; kept = k })

  answered-reply :
      (digest : Text) (receipt : Receipt)
      → IfOk (λ x. x ≡ receipt.reply) (answered sha digest receipt)
  unfolding answered
  answered-reply digest receipt = IfOk-refuse_if _ _ λ same. returned refl

  command_sync-found :
      (prepared : Option (ℕ × Reference)) (now : ℕ) (r : Request) (d : Desk) (receipt : Receipt)
      → Dict.lookup r.key d.receipts ≡ some receipt
      → IfOk (λ p. (p.0 ≡ receipt.reply) × (p.1 ≡ d)) (command_sync sha prepared now r d)
  unfolding command_sync by_receipt
  command_sync-found prepared now r d receipt e = rw e (
      IfOk-bind (IfOk-self (checked r)) λ q c.
        IfOk-bind (answered-reply (digest_of sha r q.0 q.1) receipt)
          λ reply same. returned (same, refl))

  -- A command that is sent again, within a week of its first success and whatever has happened in the
  -- meantime, is answered as it was then, and changes nothing.
  pub command_sync-repeats :
      (prepared prepared' : Option (ℕ × Reference)) (now now' : ℕ) (r : Request) (d d' u : Desk)
      (reply : Reply)
      → Dict.lookup r.key d.receipts ≡ none
      → command_sync sha prepared now r d ≡ ok (reply, d')
      → Served (now + week) d' u
      → command_sync sha prepared' now' r u ≡ ok (reply, u)
  unfolding command_sync by_receipt answered receipt_of
  command_sync-repeats prepared prepared' now now' r d d' u reply missing h served =
      let recorded =
        IfOk-ok {P = IsRecorded now r} (command_sync-IsRecorded prepared now r d missing) h in
      let kept = Served-keeps (now + week) d' u r.key _ served recorded.kept (omega arith) in
      let same = (list_eq_iff (digest_of sha r recorded.task_id recorded.revision) _).1 refl in
      rw (recorded.read, kept, same) refl

  -- No command under a key that has been used is carried out again: within a week of the success of
  -- the command that used it first, it is refused, or it is answered as that command was and changes
  -- nothing.
  pub command_sync-once :
      (prepared prepared' : Option (ℕ × Reference)) (now now' : ℕ) (r r' : Request)
      (d d' u u' : Desk) (reply reply' : Reply)
      → Dict.lookup r.key d.receipts ≡ none
      → command_sync sha prepared now r d ≡ ok (reply, d')
      → Served (now + week) d' u
      → r'.key ≡ r.key
      → command_sync sha prepared' now' r' u ≡ ok (reply', u')
      → (reply' ≡ reply) × (u' ≡ u)
  unfolding receipt_of
  command_sync-once prepared prepared' now now' r r' d d' u u' reply reply' missing h served same
        h' =
      let recorded =
        IfOk-ok {P = IsRecorded now r} (command_sync-IsRecorded prepared now r d missing) h in
      let kept = Served-keeps (now + week) d' u r.key _ served recorded.kept (omega arith) in
      IfOk-ok {P = λ p. (p.0 ≡ reply) × (p.1 ≡ u)}
        (command_sync-found prepared' now' r' u
          (receipt_of r recorded.task_id recorded.revision reply now)
          (ap (λ k. Dict.lookup k u.receipts) same ∙ kept))
        h'
