-- ===== src/Archive/Listing/Sorted.antt =====
-- The pages come in natural order.
use mathlib.Core.Path.{subst}
use mathlib.Core.List.{Perm}
use mathlib.Core.List.Perm
use eh_bot.Prelude.{
  ◌≡◌, refl, false, Option, none, some, List, [], ◌∷◌, ltb, length, Text, All, ok, IfOk, returned,
  raised, IfOk-ok, IfOk-self, IfOk-bind, IfOk-refuse_if, Bool-cases, inl, inr, ap, if-elim,
}
use eh_bot.Archive.{Member, Manifest, SafetyLimits, empty, too_many_members, no_images, files}
use eh_bot.Archive.Ratio.{enforce_compression_ratio}
use eh_bot.Archive.Order.{Chunk, key_lt}
use eh_bot.Archive.Order.Asymmetry.{key_lt-asym}
use eh_bot.Archive.Listing.{
  is_empty, check_members, key_of, keyed, with_key, insert_page, sort_pages, members_of,
  validate_manifest,
}

abbrev pub Keyed : Type 0
Keyed = List Chunk × Member

-- No page has a smaller key than the one in front of it.
pub IsRising : List Keyed → Type 0
IsRising [] = Unit
IsRising (p ∷ []) = Unit
IsRising (p ∷ q ∷ rest) = (key_lt q.0 p.0 ≡ false) × IsRising (q ∷ rest)

insert_page-Perm :
    (k : List Chunk) (m : Member) (ps : List Keyed)
    → Perm (members_of (insert_page k m ps)) (m ∷ members_of ps)
unfolding insert_page members_of
insert_page-Perm k m [] = Perm.refl (m ∷ [])
insert_page-Perm k m ((l, n) ∷ ps) = elim (Bool-cases (key_lt l k)) [
  | inl e ↦
      rw (e) (Perm.trans (Perm.cons n (insert_page-Perm k m ps)) (Perm.swap m n (members_of ps)))
  | inr e ↦ rw (e) (Perm.refl (m ∷ n ∷ members_of ps))
]

sort_pages-Perm : (ps : List Keyed) → Perm (members_of (sort_pages ps)) (members_of ps)
unfolding sort_pages members_of
sort_pages-Perm [] = Perm.refl []
sort_pages-Perm ((k, m) ∷ ps) =
    Perm.trans (insert_page-Perm k m (sort_pages ps)) (Perm.cons m (sort_pages-Perm ps))

-- Behind a page `p`, too.
After : Keyed → List Keyed → Type 0
After p [] = Unit
After p (q ∷ ps) = key_lt q.0 p.0 ≡ false

IsRising-cons : (p : Keyed) (ps : List Keyed) → After p ps → IsRising ps → IsRising (p ∷ ps)
unfolding IsRising After
IsRising-cons p [] h r = tt
IsRising-cons p (q ∷ ps) h r = (h, r)

IsRising-tail : (p : Keyed) (ps : List Keyed) → IsRising (p ∷ ps) → After p ps × IsRising ps
unfolding IsRising After
IsRising-tail p [] r = (tt, tt)
IsRising-tail p (q ∷ ps) r = r

After-insert_page :
    (p : Keyed) (k : List Chunk) (m : Member) (ps : List Keyed)
    → key_lt k p.0 ≡ false
    → After p ps
    → After p (insert_page k m ps)
unfolding After insert_page
After-insert_page p k m [] h a = h
After-insert_page p k m ((l, n) ∷ ps) h a = if-elim (After p) (key_lt l k) a h

insert_page-IsRising :
    (k : List Chunk) (m : Member) (ps : List Keyed) → IsRising ps → IsRising (insert_page k m ps)
unfolding insert_page After IsRising
insert_page-IsRising k m [] r = tt
insert_page-IsRising k m ((l, n) ∷ ps) r = elim (Bool-cases (key_lt l k)) [
  | inl e ↦ rw (e) (
      IsRising-cons (l, n) (insert_page k m ps)
        (After-insert_page (l, n) k m ps (key_lt-asym l k e) (IsRising-tail (l, n) ps r).0)
        (insert_page-IsRising k m ps (IsRising-tail (l, n) ps r).1))
  | inr e ↦ rw (e) (e, r)
]

sort_pages-IsRising : (ps : List Keyed) → IsRising (sort_pages ps)
unfolding sort_pages IsRising
sort_pages-IsRising [] = tt
sort_pages-IsRising ((k, m) ∷ ps) =
    insert_page-IsRising k m (sort_pages ps) (sort_pages-IsRising ps)

module _ (lower : Text → Text) (limits : SafetyLimits) where
  pub HasKey : Keyed → Type 0
  HasKey (k, m) = key_of lower limits m ≡ some k

  insert_page-HasKey :
      (k : List Chunk) (m : Member) (ps : List Keyed)
      → HasKey (k, m)
      → All HasKey ps
      → All HasKey (insert_page k m ps)
  unfolding insert_page
  insert_page-HasKey k m [] h hs = (h, tt)
  insert_page-HasKey k m ((l, n) ∷ ps) h hs =
      if-elim (All HasKey) (key_lt l k) (hs.0, insert_page-HasKey k m ps h hs.1) (h, hs)

  sort_pages-HasKey : (ps : List Keyed) → All HasKey ps → All HasKey (sort_pages ps)
  unfolding sort_pages
  sort_pages-HasKey [] h = tt
  sort_pages-HasKey ((k, m) ∷ ps) h =
      insert_page-HasKey k m (sort_pages ps) h.0 (sort_pages-HasKey ps h.1)

  with_key-IfOk :
      (o : Option (List Chunk)) (m : Member) (ms : List Member) (rest : List Keyed)
      → key_of lower limits m ≡ o
      → (members_of rest ≡ ms) × All HasKey rest
      → IfOk (λ ps. (members_of ps ≡ m ∷ ms) × All HasKey ps) (with_key o m rest)
  unfolding with_key members_of HasKey
  with_key-IfOk none m ms rest e h = raised
  with_key-IfOk (some k) m ms rest e h = returned (ap (λ x. m ∷ x) h.0, (e, h.1))

  keyed-IfOk :
      (ms : List Member) → IfOk (λ ps. (members_of ps ≡ ms) × All HasKey ps) (keyed lower limits ms)
  unfolding keyed members_of
  keyed-IfOk [] = returned (refl, tt)
  keyed-IfOk (m ∷ ms) =
      IfOk-bind (keyed-IfOk ms) λ rest h. with_key-IfOk (key_of lower limits m) m ms rest refl h

-- Every page is keyed by its normal name, no key is smaller than the one in front of it, and the pages are
-- those that the checks found, each as often.
pub record IsNaturalOrder (lower : Text → Text) (limits : SafetyLimits) (ms pages : List Member)
    : Type 0 where
  pub found : List Member
  pub checked : check_members lower limits 0 ms ≡ ok found
  pub rising : List Keyed
  pub listed : pages ≡ members_of rising
  pub keys : All (HasKey lower limits) rising
  pub sorted : IsRising rising
  pub each : Perm pages found

validate_manifest-natural :
    (lower : Text → Text) (limits : SafetyLimits) (manifest : Manifest)
    (read_header : Option (Member → Text))
    → IfOk
        (IsNaturalOrder lower limits (files manifest))
        (validate_manifest lower limits manifest read_header)
unfolding validate_manifest
validate_manifest-natural lower limits manifest read_header =
    IfOk-refuse_if (is_empty (files manifest)) empty λ _.
      IfOk-refuse_if (ltb limits.max_members (length (files manifest))) too_many_members λ _.
        IfOk-bind (IfOk-self (check_members lower limits 0 (files manifest))) λ found checked.
          IfOk-bind
            (IfOk-self (enforce_compression_ratio manifest (files manifest) limits read_header))
            λ done _. IfOk-refuse_if (is_empty found) no_images λ _.
              IfOk-bind (keyed-IfOk lower limits found) λ ps h. returned (record {
                found = found;
                checked = checked;
                rising = sort_pages ps;
                listed = refl;
                keys = sort_pages-HasKey lower limits ps h.1;
                sorted = sort_pages-IsRising ps;
                each = subst (Perm (members_of (sort_pages ps))) h.0 (sort_pages-Perm ps);
              })

-- The pages of a listing are the members that its checks took for pages, each as often, and they come
-- in natural order: no page has a smaller key than the one in front of it.
pub validate_manifest-IsNaturalOrder :
    (lower : Text → Text) (limits : SafetyLimits) (manifest : Manifest)
    (read_header : Option (Member → Text)) (pages : List Member)
    → validate_manifest lower limits manifest read_header ≡ ok pages
    → IsNaturalOrder lower limits (files manifest) pages
validate_manifest-IsNaturalOrder lower limits manifest read_header pages e =
    IfOk-ok (validate_manifest-natural lower limits manifest read_header) e
