-- ===== src/Archive/Ratio/Expanding.antt =====
-- What passes the gate of the ratio.
use mathlib.Core.List.{Memᴰ}
use mathlib.Core.Path.{subst}
use eh_bot.Prelude.{
  ℕ, ◌+◌, ◌*◌, ◌≤◌, ◌≡◌, refl, sym, Bool, true, false, not, ◌&&◌, ◌⊎◌, inl, inr, Option, none, some,
  List, [], ◌∷◌, Text, All, arith, ok, IfOk, leb, returned, raised, IfOk-ok, IfOk-if, IfOk-bind,
  IfOk-weaken, Bool-cases, Option-cases,
}
use eh_bot.Archive.{Member, Manifest, SafetyLimits}
use eh_bot.Archive.Images.{detected_image_extension}
use eh_bot.Archive.Ratio.{
  packed_size, total_size, max_of, is_identified, identified_as_image, probed, is_expanding,
  enforce_group, enforce_groups, enforce_compression_ratio, compression_groups,
}

-- All sizes together.
unfoldable pub sum_sizes : List Member → ℕ
sum_sizes [] = 0
sum_sizes (m ∷ ms) = m.size + sum_sizes ms

-- The bytes begin as those of a container of images.
unfoldable pub IsImage : Text → Type 0
IsImage header = (extension : Text) × (detected_image_extension header ≡ some extension)

-- Why a group may pass: no member says how far it is packed, the group expands within the limit on what
-- one of its members says, each member is an image by its bytes, or the archive is not encrypted and
-- the first member is one by the bytes that were asked for.
pub data IsTame (encrypted : Bool) (limit : ℕ) (read_header : Option (Member → Text))
    (group : List Member) : Type 0 where
  unpacked : All (λ m. m.compressed_size ≡ 0) group → IsTame encrypted limit read_header group
  within :
      (m : Member)
      → Memᴰ m group
      → sum_sizes group ≤ limit * m.compressed_size
      → IsTame encrypted limit read_header group
  images : All (λ m. IsImage m.header) group → IsTame encrypted limit read_header group
  first_image :
      (ask : Member → Text) (m : Member) (rest : List Member)
      → encrypted ≡ false
      → read_header ≡ some ask
      → group ≡ m ∷ rest
      → IsImage (ask m)
      → IsTame encrypted limit read_header group

packed_size-zero : (g : List Member) → packed_size g ≡ 0 → All (λ m. m.compressed_size ≡ 0) g
unfolding packed_size max_of
packed_size-zero [] e = tt
packed_size-zero (m ∷ ms) e = (ground (arith, e), packed_size-zero ms (ground (arith, e)))

-- A group that is not empty has a member of its packed size.
packed_size-member :
    (m : Member) (ms : List Member)
    → (x : Member) × Memᴰ x (m ∷ ms) × (packed_size (m ∷ ms) ≡ x.compressed_size)
unfolding packed_size max_of
packed_size-member m [] = (m, Memᴰ.head refl, ground arith)
packed_size-member m (n ∷ ms) =
    let (x, listed, e) = packed_size-member n ms in
    elim (Bool-cases (leb m.compressed_size (packed_size (n ∷ ms)))) [
      | inl h ↦ (x, Memᴰ.tail listed, rw h e)
      | inr h ↦ (m, Memᴰ.head refl, rw h refl)
    ]

total_size-sum : (g : List Member) → total_size g ≡ sum_sizes g
unfolding total_size sum_sizes
total_size-sum [] = refl
total_size-sum (m ∷ ms) = rw (total_size-sum ms) refl

is_identified-IsImage : (header : Text) → is_identified header ≡ true → IsImage header
unfolding is_identified IsImage
is_identified-IsImage header h = elim (Option-cases (detected_image_extension header)) [
  | inl e ↦
      absurd (true-ne-false (sym (subst (λ o. elim o [ none ↦ false | some x ↦ true ] ≡ true) e h)))
  | inr (extension, e) ↦ (extension, e)
]
  where
    true-ne-false : ¬ (true ≡ false)
    true-ne-false h = cc

identified_as_image-All :
    (g : List Member) → identified_as_image g ≡ true → All (λ m. IsImage m.header) g
unfolding identified_as_image
identified_as_image-All [] h = tt
identified_as_image-All (m ∷ ms) h = (
  is_identified-IsImage m.header (ground (arith, h)),
  identified_as_image-All ms (ground (arith, h)),
)

module _ (encrypted : Bool) (limit : ℕ) where
  probed-IsTame :
      (read_header : Option (Member → Text)) (g : List Member)
      → probed encrypted read_header g ≡ true
      → IsTame encrypted limit read_header g
  unfolding probed
  probed-IsTame none g h = cc
  probed-IsTame (some ask) [] h = cc
  probed-IsTame (some ask) (m ∷ ms) h =
      first_image ask m ms (ground (arith, h)) refl refl
        (is_identified-IsImage (ask m) (ground (arith, h)))

  within-IsTame :
      (read_header : Option (Member → Text)) (g : List Member)
      → total_size g ≤ limit * packed_size g
      → IsTame encrypted limit read_header g
  within-IsTame read_header [] h = unpacked tt
  within-IsTame read_header (m ∷ ms) h =
      let (x, listed, e) = packed_size-member m ms in
      within x listed (
        subst (λ n. sum_sizes (m ∷ ms) ≤ limit * n) e
          (subst (λ n. n ≤ limit * packed_size (m ∷ ms)) (total_size-sum (m ∷ ms)) h))

  passes :
      (read_header : Option (Member → Text)) (g : List Member)
      → (is_expanding limit g
          && not (identified_as_image g)
          && not (probed encrypted read_header g))
        ≡ false
      → (packed_size g ≡ 0)
        ⊎ ((total_size g ≤ limit * packed_size g)
            ⊎ ((identified_as_image g ≡ true) ⊎ (probed encrypted read_header g ≡ true)))
  unfolding is_expanding
  passes read_header g h = ground arith

  enforce_group-IsTame :
      (read_header : Option (Member → Text)) (g : List Member)
      → IfOk
          (λ u. IsTame encrypted limit read_header g)
          (enforce_group encrypted limit read_header g)
  unfolding enforce_group is_expanding
  enforce_group-IsTame read_header g =
      IfOk-if
        (is_expanding limit g
          && not (identified_as_image g)
          && not (probed encrypted read_header g))
        (λ _. raised)
        λ h. returned (elim (passes read_header g h) [
          | inl zero ↦ unpacked (packed_size-zero g zero)
          | inr (inl small) ↦ within-IsTame read_header g small
          | inr (inr (inl pictures)) ↦ images (identified_as_image-All g pictures)
          | inr (inr (inr asked)) ↦ probed-IsTame read_header g asked
        ])

enforce_groups-IsTame :
    (encrypted : Bool) (limit : ℕ) (read_header : Option (Member → Text)) (gs : List (List Member))
    → IfOk
        (λ u. All (IsTame encrypted limit read_header) gs)
        (enforce_groups encrypted limit read_header gs)
unfolding enforce_groups
enforce_groups-IsTame encrypted limit read_header [] = returned tt
enforce_groups-IsTame encrypted limit read_header (g ∷ gs) =
    IfOk-bind (enforce_group-IsTame encrypted limit read_header g)
      λ u h. IfOk-weaken (enforce_groups-IsTame encrypted limit read_header gs) λ v hs. (h, hs)

-- Where the gate lets a listing through, every group that it charges bytes to has one of these reasons: no
-- member has a packed size; all sizes together are within the limit times the packed size of one of the
-- members; every member is an image by its own bytes; or the archive is not encrypted and the first
-- member is an image by the bytes that were asked for.
pub enforce_compression_ratio-IsTame :
    (manifest : Manifest) (ms : List Member) (limits : SafetyLimits)
    (read_header : Option (Member → Text))
    → enforce_compression_ratio manifest ms limits read_header ≡ ok tt
    → All
        (IsTame manifest.encrypted limits.max_compression_ratio read_header)
        (compression_groups ms)
unfolding enforce_compression_ratio
enforce_compression_ratio-IsTame manifest ms limits read_header e =
    IfOk-ok
      (enforce_groups-IsTame manifest.encrypted limits.max_compression_ratio read_header
        (compression_groups ms))
      e
