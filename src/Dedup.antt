-- ===== src/Dedup.antt =====
-- De-duplication by gallery id (app/downloads/dedup.py): which rows form a group, which of them is
-- kept, and why the others go. Reading the rows, storing the plan and removing works are database
-- steps of the source and stand outside.
mod Buckets
mod Ranking
mod Groups
mod Samples
use eh_bot.Prelude.{
  ℕ, zero, suc, ◌+◌, Bool, true, false, not, ◌&&◌, ◌||◌, Option, none, some, List, [], ◌∷◌, ◌++◌,
  ltb, leb, ◌==◌, if◌then◌else◌, length, Text, codes, nat_Eq,
}
use eh_bot.Prelude.Dict
use eh_bot.Prelude.Dict.{Dict}
use eh_bot.Prelude.Int.{ℤ, pos, negsuc}
use eh_bot.Prelude.Decimal.{decimal}

-- `display_title` of app/candidates/models.py; an empty title counts as none.
abbrev fallback : Option ℕ → ℕ → Text
fallback (some ex_gid) candidate_id = b'#' ∷ decimal ex_gid
fallback none candidate_id = codes "候选 #" ++ decimal candidate_id

pub display_title : Option Text → Option ℕ → ℕ → Text
display_title (some (c ∷ t)) ex_gid candidate_id = c ∷ t
display_title _ ex_gid candidate_id = fallback ex_gid candidate_id

-- A row of the database; `group_candidates` builds an entry from each field for field.
pub record Entry : Type 0 where
  pub candidate_id : ℕ
  pub ex_gid : ℕ
  pub status : Text
  pub title : Option Text
  pub packaged : Bool
  pub page_count : Option ℕ

abbrev pub negate : ℕ → ℤ
negate zero = pos zero
negate (suc n) = negsuc n

pub record KeepKey : Type 0 where
  pub packaged : ℕ
  pub pages : ℤ
  pub age : ℤ

pages_or : ℤ → Option ℕ → ℤ
pages_or z none = z
pages_or z (some n) = pos n

-- `keep_key`; -1 stands for a missing page count
pub keep_key : Entry → KeepKey
unfolding pages_or
keep_key e = record {
  packaged = if e.packaged then 1 else 0;
  pages = pages_or (negsuc 0) e.page_count;
  age = negate e.candidate_id;
}

int_lt : ℤ → ℤ → Bool
int_lt (pos a) (pos b) = ltb a b
int_lt (pos a) (negsuc b) = false
int_lt (negsuc a) (pos b) = true
int_lt (negsuc a) (negsuc b) = ltb b a

int_eq : ℤ → ℤ → Bool
int_eq (pos a) (pos b) = a == b
int_eq (negsuc a) (negsuc b) = a == b
int_eq _ _ = false

-- `<` on the tuples
key_lt : KeepKey → KeepKey → Bool
unfolding int_lt int_eq
key_lt k l =
    ltb k.packaged l.packaged
    || (k.packaged == l.packaged)
      && (int_lt k.pages l.pages || int_eq k.pages l.pages && int_lt k.age l.age)

-- `sorted(entries, key=keep_key, reverse=True)`, which keeps the order of equal keys
insert_best : Entry → List Entry → List Entry
insert_best e [] = e ∷ []
insert_best e (f ∷ rest) =
    if key_lt (keep_key e) (keep_key f) then f ∷ insert_best e rest else e ∷ f ∷ rest

pub best_first : List Entry → List Entry
best_first [] = []
best_first (e ∷ rest) = insert_best e (best_first rest)

pub record Group : Type 0 where
  pub ex_gid : ℕ
  pub keep : Entry
  pub remove : List Entry

pub data Reason : Type 0 where
  not_packaged : Reason
  fewer_pages : ℕ → ℕ → Reason
  later : Reason

page_total : Option ℕ → ℕ
page_total none = 0
page_total (some n) = n

-- `removal_reason loser keeper`
pub removal_reason : Entry → Entry → Reason
unfolding page_total
removal_reason loser keeper =
    if keeper.packaged && not loser.packaged
    then not_packaged
    else if keeper.packaged
        && loser.packaged
        && ltb (page_total loser.page_count) (page_total keeper.page_count)
    then fewer_pages (page_total loser.page_count) (page_total keeper.page_count)
    else later

-- `buckets.setdefault(entry.ex_gid, []).append(entry)`
abbrev bucket : Option (List Entry) → List Entry
bucket none = []
bucket (some entries) = entries

add_entry : Dict ℕ (List Entry) → Entry → Dict ℕ (List Entry)
add_entry buckets e = Dict.set e.ex_gid (bucket (Dict.lookup e.ex_gid buckets) ++ e ∷ []) buckets

pub fill : List Entry → Dict ℕ (List Entry) → Dict ℕ (List Entry)
fill [] buckets = buckets
fill (e ∷ rows) buckets = fill rows (add_entry buckets e)

-- The best entry and the others. A list with two entries or more is not empty.
push_group : ℕ → List Entry → List Group → List Group
push_group ex_gid [] groups = groups
push_group ex_gid (e ∷ rest) groups = record { ex_gid = ex_gid; keep = e; remove = rest } ∷ groups

pub decide : Dict ℕ (List Entry) → List Group
decide [] = []
decide ((ex_gid, entries) ∷ buckets) =
    let groups = decide buckets in
    if ltb (length entries) 2 then groups else push_group ex_gid (best_first entries) groups

-- `groups.sort(key=ex_gid)`
insert_group : Group → List Group → List Group
insert_group g [] = g ∷ []
insert_group g (h ∷ rest) = if ltb h.ex_gid g.ex_gid then h ∷ insert_group g rest else g ∷ h ∷ rest

by_gid : List Group → List Group
by_gid [] = []
by_gid (g ∷ groups) = insert_group g (by_gid groups)

pub group_candidates : List Entry → List Group
group_candidates rows = by_gid (decide (fill rows []))
