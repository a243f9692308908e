-- ===== src/Archive/Ratio/Groups.antt =====
-- The groups have every member once.
use mathlib.Core.List.{
  Perm, perm_append_singleton, perm_middle, perm-append_left_iff, perm-append_right_iff,
}
use mathlib.Core.List.Perm
use mathlib.Core.Path.{subst}
use eh_bot.Prelude.{
  ℕ, ◌≡◌, refl, sym, ap, ◌∙◌, false, Option, none, some, List, [], ◌∷◌, ◌++◌, append_assoc,
  append-nil, nat_Eq, ◌==◌, Bool-cases, inl, inr, arith,
}
use eh_bot.Prelude.Dict
use eh_bot.Prelude.Dict.{Dict}
use eh_bot.Archive.{Member}
use eh_bot.Archive.Ratio.{
  or_none, place, charge, charge_all, groups_of, singletons, compression_groups,
}

flat : Dict ℕ (List Member) → List Member
flat [] = []
flat ((b, ms) ∷ d) = ms ++ flat d

lookup-ne :
    (b j : ℕ) (w : List Member) (d : Dict ℕ (List Member))
    → (j == b) ≡ false
    → Dict.lookup b ((j, w) ∷ d) ≡ Dict.lookup b d
unfolding Dict.lookup
lookup-ne b j w d e = ground (arith, e)

flat-set :
    (b : ℕ) (m : Member) (d : Dict ℕ (List Member))
    → Perm (flat (Dict.set b (or_none (Dict.lookup b d) ++ m ∷ []) d)) (m ∷ flat d)
unfolding flat or_none Dict.set Dict.lookup
flat-set b m [] = Perm.refl (m ∷ [])
flat-set b m ((j, w) ∷ d) = elim (Bool-cases (j == b)) [
  | inl e ↦ rw (e) (
      subst (λ x. Perm x (m ∷ w ++ flat d)) (sym (append_assoc w (m ∷ []) (flat d)))
        (perm_middle w (flat d)))
  | inr e ↦ rw (e) (
      subst (λ o. Perm (w ++ flat (Dict.set b (or_none o ++ m ∷ []) d)) (m ∷ w ++ flat d))
        (sym (lookup-ne b j w d e))
        (Perm.trans ((perm-append_left_iff w).1 (flat-set b m d)) (perm_middle w (flat d))))
]

place-Perm :
    (o : Option ℕ) (m : Member) (d : Dict ℕ (List Member)) (l : List Member)
    → Perm (flat (place o m (d, l)).0 ++ (place o m (d, l)).1) (m ∷ (flat d ++ l))
unfolding place
place-Perm none m d l =
    subst (λ x. Perm x (m ∷ (flat d ++ l))) (append_assoc (flat d) l (m ∷ []))
      (perm_append_singleton m (flat d ++ l))
place-Perm (some b) m d l = (perm-append_right_iff l).1 (flat-set b m d)

charge_all-Perm :
    (ms : List Member) (d : Dict ℕ (List Member)) (l : List Member)
    → Perm (flat (charge_all ms (d, l)).0 ++ (charge_all ms (d, l)).1) (ms ++ (flat d ++ l))
unfolding charge_all charge
charge_all-Perm [] d l = Perm.refl (flat d ++ l)
charge_all-Perm (m ∷ ms) d l =
    Perm.trans (charge_all-Perm ms (charge m (d, l)).0 (charge m (d, l)).1) (
      Perm.trans ((perm-append_left_iff ms).1 (place-Perm m.solid_block m d l))
        (perm_middle ms (flat d ++ l)))

-- The members of the groups, one group behind the other.
pub ungrouped : List (List Member) → List Member
ungrouped [] = []
ungrouped (g ∷ gs) = g ++ ungrouped gs

ungrouped-singletons : (l : List Member) → ungrouped (singletons l) ≡ l
unfolding ungrouped singletons
ungrouped-singletons [] = refl
ungrouped-singletons (m ∷ l) = ap (λ x. m ∷ x) (ungrouped-singletons l)

ungrouped-groups_of :
    (d : Dict ℕ (List Member)) (l : List Member)
    → ungrouped (groups_of d ++ singletons l) ≡ flat d ++ l
unfolding ungrouped groups_of flat
ungrouped-groups_of [] l = ungrouped-singletons l
ungrouped-groups_of ((b, ms) ∷ d) l =
    ap (λ x. ms ++ x) (ungrouped-groups_of d l) ∙ sym (append_assoc ms (flat d) l)

-- The groups that the packed bytes are charged to have every member of the listing, each as often.
pub compression_groups-Perm : (ms : List Member) → Perm (ungrouped (compression_groups ms)) ms
unfolding compression_groups flat
compression_groups-Perm ms =
    subst (λ x. Perm x ms)
      (sym (ungrouped-groups_of (charge_all ms ([], [])).0 (charge_all ms ([], [])).1))
      (subst (λ y. Perm (flat (charge_all ms ([], [])).0 ++ (charge_all ms ([], [])).1) y)
        (append-nil ms) (charge_all-Perm ms [] []))
