-- ===== src/Search/Fields/Resolve.antt =====
-- Which fields a condition can name.
use eh_bot.Prelude.{
  ◌≡◌, refl, Bool, true, false, not, ◌&&◌, ◌||◌, Option, none, some, String, List, [], ◌∷◌,
  if◌then◌else◌, Text, codes, list_eq, ok, err, IfOk, returned, raised, IfOk-if, arith,
}
use eh_bot.Rules.{is_one_of}
use eh_bot.Search.Fields.{
  Page, candidates, downloaded, excluded_fields, allowed_fields, status_field, source_field,
  alias_of, find_field, known_field, resolve_field, status_elsewhere, source_elsewhere,
}

-- The field is of the rules' vocabulary and no number, or `status` on the candidates' page, or
-- `source` on the page of the downloaded works.
unfoldable pub is_offered : Page → Text → Bool
is_offered page field =
    if list_eq field status_field
    then elim page [ candidates ↦ true | downloaded ↦ false ]
    else if list_eq field source_field
    then elim page [ candidates ↦ false | downloaded ↦ true ]
    else is_one_of field allowed_fields && not (is_one_of field excluded_fields)

IfSome : {A : Type 0} → (A → Type 0) → Option A → Type 0
IfSome P none = Unit
IfSome P (some a) = P a

IfSome-if :
    {A : Type 0} (P : A → Type 0) (b : Bool) (x y : Option A)
    → (b ≡ true → IfSome P x)
    → (b ≡ false → IfSome P y)
    → IfSome P (if b then x else y)
IfSome-if P true x y hx hy = hx refl
IfSome-if P false x y hx hy = hy refl

abbrev IsOffered : Page → Text → Type 0
IsOffered page f = is_offered page f ≡ true

alias_of-IsOffered : (page : Page) (name : Text) → IfSome (IsOffered page) (alias_of name)
unfolding alias_of IfSome is_offered is_one_of
alias_of-IsOffered page name =
    IfSome-if (IsOffered page) (list_eq name (codes "jtitle")) (some (codes "JapaneseTitle"))
      (if list_eq name (codes "tag") || list_eq name (codes "tags")
        then some (codes "TAG")
        else none)
      (λ _. refl)
      λ _.
        IfSome-if (IsOffered page) (list_eq name (codes "tag") || list_eq name (codes "tags"))
          (some (codes "TAG")) none (λ _. refl) (λ _. tt)

-- Each of the fields is excluded or offered.
all_offered : Page → List String → Bool
unfolding is_offered
all_offered page [] = true
all_offered page (f ∷ fs) =
    (is_one_of (codes f) excluded_fields || is_offered page (codes f)) && all_offered page fs

find_field-IsOffered :
    (page : Page) (casefold : Text → Text) (lowered : Text) (fs : List String)
    → all_offered page fs ≡ true
    → IfSome (IsOffered page) (find_field casefold lowered fs)
unfolding find_field IfSome all_offered
find_field-IsOffered page casefold lowered [] h = tt
find_field-IsOffered page casefold lowered (f ∷ fs) h =
    IfSome-if (IsOffered page)
      (list_eq (casefold (codes f)) lowered && not (is_one_of (codes f) excluded_fields))
      (some (codes f)) (find_field casefold lowered fs) (λ e. ground arith)
      (λ _. find_field-IsOffered page casefold lowered fs (ground arith))

allowed_fields-offered : (page : Page) → all_offered page allowed_fields ≡ true
unfolding all_offered is_offered is_one_of
allowed_fields-offered page = refl

known_field-IsOffered :
    (page : Page) (name : Text) (found other : Option Text)
    → IfSome (IsOffered page) found
    → IfSome (IsOffered page) other
    → IfOk (IsOffered page) (known_field name found other)
unfolding known_field IfSome
known_field-IsOffered page name (some f) other h k = returned h
known_field-IsOffered page name none (some f) h k = returned k
known_field-IsOffered page name none none h k = raised

pub resolve_field-is_offered :
    (casefold : Text → Text) (name : Text) (page : Page)
    → IfOk (λ f. is_offered page f ≡ true) (resolve_field casefold name page)
unfolding resolve_field is_offered
resolve_field-is_offered casefold name page =
    IfOk-if (list_eq (casefold name) status_field) (λ _. on_page page)
      λ _.
        IfOk-if (list_eq (casefold name) source_field) (λ _. on_other page)
          λ _.
            known_field-IsOffered page name (alias_of (casefold name))
              (find_field casefold (casefold name) allowed_fields)
              (alias_of-IsOffered page (casefold name))
              (find_field-IsOffered page casefold (casefold name) allowed_fields
                (allowed_fields-offered page))
  where
    on_page :
        (page : Page)
        → IfOk
            (IsOffered page)
            (elim page [ candidates ↦ ok status_field | downloaded ↦ err status_elsewhere ])
    on_page candidates = returned refl
    on_page downloaded = raised

    on_other :
        (page : Page)
        → IfOk
            (IsOffered page)
            (elim page [ candidates ↦ err source_elsewhere | downloaded ↦ ok source_field ])
    on_other candidates = raised
    on_other downloaded = returned refl
