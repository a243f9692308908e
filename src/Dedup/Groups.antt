-- ===== src/Dedup/Groups.antt =====
-- The groups and the choice in each of them.
use mathlib.Core.List.{Perm}
use eh_bot.Prelude.{
  ℕ, ◌+◌, ◌≤◌, ◌<◌, ◌≡◌, refl, true, false, Option, none, some, List, [], ◌∷◌, arith, ltb, ◌==◌,
  if◌then◌else◌, length, All, ◌⊎◌, inl, inr, Bool-cases, nat_Eq,
}
use eh_bot.Prelude.Dict
use eh_bot.Prelude.Dict.{Dict}
use eh_bot.Dedup.{
  Entry, Group, later, fewer_pages, page_total, removal_reason, fill, best_first, push_group,
  decide, insert_group, by_gid, group_candidates,
}
use eh_bot.Dedup.Buckets.{rows_of, content, content_of-fill, fill-IsDistinct}
use eh_bot.Dedup.Ranking.{
  pages_rank, below, IsRanked, best_first-IsRanked, best_first-perm, length-best_first,
}

-- The operator's order: a packaged work beats one that is not, then more pages win, then the
-- smaller id; a missing page count is below all.
abbrev pub IsNoBetter : Entry → Entry → Type 0
IsNoBetter keep e =
    ((keep.packaged ≡ true) × (e.packaged ≡ false))
    ⊎ ((e.packaged ≡ keep.packaged) × (pages_rank e.page_count < pages_rank keep.page_count))
    ⊎ ((e.packaged ≡ keep.packaged)
        × (e.page_count ≡ keep.page_count)
        × (keep.candidate_id ≤ e.candidate_id))

pages_rank-injective : (m n : Option ℕ) → pages_rank m ≡ pages_rank n → m ≡ n
pages_rank-injective none none h = refl
pages_rank-injective none (some n) h = ground arith
pages_rank-injective (some m) none h = ground arith
pages_rank-injective (some m) (some n) h = ground arith

IsNoBetter-below : (keep e : Entry) → below keep e ≡ false → IsNoBetter keep e
unfolding below
IsNoBetter-below keep e h = ground (arith, pages_rank-injective e.page_count keep.page_count)

-- The group holds the rows of its gallery, each as often, and keeps one that no other beats.
pub record IsDecided (rows : List Entry) (g : Group) : Type 0 where
  pub members : Perm (g.keep ∷ g.remove) (rows_of g.ex_gid rows)
  pub kept : All (IsNoBetter g.keep) g.remove

All-IsNoBetter :
    (keep : Entry) (rest : List Entry)
    → All (λ e. below keep e ≡ false) rest
    → All (IsNoBetter keep) rest
All-IsNoBetter keep [] h = tt
All-IsNoBetter keep (e ∷ rest) h = (IsNoBetter-below keep e h.0, All-IsNoBetter keep rest h.1)

push_group-IsDecided :
    (rows : List Entry) (gid : ℕ) (ordered : List Entry) (groups : List Group)
    → Perm ordered (rows_of gid rows)
    → IsRanked ordered
    → All (IsDecided rows) groups
    → All (IsDecided rows) (push_group gid ordered groups)
unfolding push_group
push_group-IsDecided rows gid [] groups p r h = h
push_group-IsDecided rows gid (e ∷ rest) groups p r h =
    (record { members = p; kept = All-IsNoBetter e rest r.0 }, h)

decide-IsDecided :
    (rows : List Entry) (buckets : Dict ℕ (List Entry))
    → All (λ (b : ℕ × List Entry). b.1 ≡ rows_of b.0 rows) buckets
    → All (IsDecided rows) (decide buckets)
unfolding decide
decide-IsDecided rows [] h = tt
decide-IsDecided rows ((gid, entries) ∷ buckets) h = elim (Bool-cases (ltb (length entries) 2)) [
  | inl few ↦ rw few (decide-IsDecided rows buckets h.1)
  | inr many ↦ rw many (
      push_group-IsDecided rows gid (best_first entries) (decide buckets)
        (rw (← h.0) (best_first-perm entries)) (best_first-IsRanked entries)
        (decide-IsDecided rows buckets h.1))
]

insert_group-All :
    (P : Group → Type 0) (g : Group) (groups : List Group)
    → P g
    → All P groups
    → All P (insert_group g groups)
unfolding insert_group
insert_group-All P g [] p h = (p, tt)
insert_group-All P g (f ∷ rest) p h = elim (Bool-cases (ltb f.ex_gid g.ex_gid)) [
  | inl lower ↦ rw lower (h.0, insert_group-All P g rest p h.1)
  | inr first ↦ rw first (p, h)
]

by_gid-All : (P : Group → Type 0) (groups : List Group) → All P groups → All P (by_gid groups)
unfolding by_gid
by_gid-All P [] h = tt
by_gid-All P (g ∷ groups) h = insert_group-All P g (by_gid groups) h.0 (by_gid-All P groups h.1)

-- What `fill` leaves in the buckets.
buckets-eq :
    (rows : List Entry) (buckets : Dict ℕ (List Entry))
    → ((gid : ℕ) → content gid buckets ≡ rows_of gid rows)
    → (d : Dict ℕ (List Entry)) → All (λ (b : ℕ × List Entry). Dict.lookup b.0 buckets ≡ some b.1) d
    → All (λ (b : ℕ × List Entry). b.1 ≡ rows_of b.0 rows) d
unfolding content
buckets-eq rows buckets same [] h = tt
buckets-eq rows buckets same ((gid, entries) ∷ d) h =
    (cc (same gid, h.0), buckets-eq rows buckets same d h.1)

fill-eq : (rows : List Entry) → All (λ (b : ℕ × List Entry). b.1 ≡ rows_of b.0 rows) (fill rows [])
fill-eq rows =
    buckets-eq rows (fill rows []) (λ gid. content_of-fill gid rows) (fill rows [])
      (Dict.All-lookup (fill rows []) (fill-IsDistinct rows [] tt))

-- Every group holds exactly the rows of its gallery id, and the row that it keeps is beaten by none
-- of those that it removes: packaged before not packaged, then more pages, then the smaller id.
pub group_candidates-IsDecided : (rows : List Entry) → All (IsDecided rows) (group_candidates rows)
unfolding group_candidates
group_candidates-IsDecided rows =
    by_gid-All (IsDecided rows) (decide (fill rows []))
      (decide-IsDecided rows (fill rows []) (fill-eq rows))

-- How many groups a gallery has.
unfoldable pub count_groups : ℕ → List Group → ℕ
count_groups gid [] = 0
count_groups gid (g ∷ groups) = (if g.ex_gid == gid then 1 else 0) + count_groups gid groups

count_groups-insert :
    (gid : ℕ) (g : Group) (groups : List Group)
    → count_groups gid (insert_group g groups) ≡ count_groups gid (g ∷ groups)
unfolding count_groups insert_group
count_groups-insert gid g [] = refl
count_groups-insert gid g (h ∷ groups) = ground (arith, count_groups-insert gid g groups)

count_groups-by_gid :
    (gid : ℕ) (groups : List Group) → count_groups gid (by_gid groups) ≡ count_groups gid groups
unfolding count_groups by_gid
count_groups-by_gid gid [] = refl
count_groups-by_gid gid (g ∷ groups) =
    ground (arith, count_groups-insert gid g (by_gid groups), count_groups-by_gid gid groups)

count_groups-push :
    (gid k : ℕ) (ordered : List Entry) (groups : List Group)
    → 0 < length ordered
    → count_groups gid (push_group k ordered groups)
      ≡ (if k == gid then 1 else 0) + count_groups gid groups
unfolding count_groups push_group
count_groups-push gid k [] groups h = absurd (omega arith)
count_groups-push gid k (e ∷ rest) groups h = refl

count_groups-decide :
    (gid : ℕ) (buckets : Dict ℕ (List Entry))
    → Dict.IsDistinct buckets
    → count_groups gid (decide buckets) ≡ (if ltb (length (content gid buckets)) 2 then 0 else 1)
unfolding count_groups decide content Dict.lookup
count_groups-decide gid [] d = refl
count_groups-decide gid ((k, entries) ∷ buckets) d = ground (
  arith,
  count_groups-decide gid buckets d.1,
  count_groups-push gid k (best_first entries) (decide buckets),
  length-best_first entries,
)

-- A gallery id with two rows or more has exactly one group, and any other has none.
pub count_groups-group_candidates :
    (gid : ℕ) (rows : List Entry)
    → count_groups gid (group_candidates rows)
      ≡ (if ltb (length (rows_of gid rows)) 2 then 0 else 1)
unfolding group_candidates
count_groups-group_candidates gid rows =
    rw (count_groups-by_gid gid (decide (fill rows [])), ← content_of-fill gid rows)
      (count_groups-decide gid (fill rows []) (fill-IsDistinct rows [] tt))

-- Of two packaged works with known page counts, the one that is no better goes for its page count
-- exactly if it has fewer pages, with both counts named, and otherwise for coming later, and then
-- its id is no smaller.
pub removal_reason-packaged :
    (loser keeper : Entry) (m n : ℕ)
    → IsNoBetter keeper loser
    → keeper.packaged ≡ true
    → loser.packaged ≡ true
    → loser.page_count ≡ some m
    → keeper.page_count ≡ some n
    → ((removal_reason loser keeper ≡ fewer_pages m n) × (m < n))
      ⊎ ((removal_reason loser keeper ≡ later) × (keeper.candidate_id ≤ loser.candidate_id))
unfolding removal_reason page_total
removal_reason-packaged loser keeper m n better pk pl em en = ground arith
