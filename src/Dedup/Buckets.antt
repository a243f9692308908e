-- ===== src/Dedup/Buckets.antt =====
-- Every bucket holds the rows of its gallery, in their order, and each gallery has one bucket.
use eh_bot.Prelude.{
  ℕ, ◌≡◌, refl, sym, ◌∙◌, List, [], ◌∷◌, ◌++◌, append_assoc, append-nil, arith, ◌==◌, if◌then◌else◌,
  nat_Eq,
}
use eh_bot.Prelude.Dict
use eh_bot.Prelude.Dict.{Dict}
use eh_bot.Dedup.{Entry, bucket, add_entry, fill}

-- The rows of one gallery.
unfoldable pub rows_of : ℕ → List Entry → List Entry
rows_of gid [] = []
rows_of gid (e ∷ rows) = if e.ex_gid == gid then e ∷ rows_of gid rows else rows_of gid rows

unfoldable pub content : ℕ → Dict ℕ (List Entry) → List Entry
content gid buckets = bucket (Dict.lookup gid buckets)

content-add_entry :
    (gid : ℕ) (buckets : Dict ℕ (List Entry)) (e : Entry)
    → content gid (add_entry buckets e)
      ≡ (if e.ex_gid == gid then content gid buckets ++ e ∷ [] else content gid buckets)
unfolding content add_entry
content-add_entry gid buckets e =
    ground (
      arith,
      Dict.lookup-set e.ex_gid gid (bucket (Dict.lookup e.ex_gid buckets) ++ e ∷ []) buckets,
    )

content-fill :
    (gid : ℕ) (rows : List Entry) (buckets : Dict ℕ (List Entry))
    → content gid (fill rows buckets) ≡ content gid buckets ++ rows_of gid rows
unfolding fill rows_of
content-fill gid [] buckets = sym (append-nil (content gid buckets))
content-fill gid (e ∷ rows) buckets = ground (
  arith,
  content-fill gid rows (add_entry buckets e),
  content-add_entry gid buckets e,
  append_assoc (content gid buckets) (e ∷ []) (rows_of gid rows),
)

pub fill-IsDistinct :
    (rows : List Entry) (buckets : Dict ℕ (List Entry))
    → Dict.IsDistinct buckets
    → Dict.IsDistinct (fill rows buckets)
unfolding fill add_entry
fill-IsDistinct [] buckets d = d
fill-IsDistinct (e ∷ rows) buckets d =
    fill-IsDistinct rows (add_entry buckets e) (Dict.set-IsDistinct e.ex_gid _ buckets d)

pub content_of-fill : (gid : ℕ) (rows : List Entry) → content gid (fill rows []) ≡ rows_of gid rows
content_of-fill gid rows = content-fill gid rows [] ∙ unfold content Dict.lookup in refl
