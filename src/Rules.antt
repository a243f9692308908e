-- ===== src/Rules.antt =====
-- The condition language of the automatic rules (app/auto_approval/rules.py): its vocabulary, the
-- JSON that a client sends, and the tree that a valid rule becomes.
mod Reading
pub mod Validate
pub mod Evaluate
pub mod Shape
mod Render
mod Accepted
mod Samples
use eh_bot.Prelude.{
  ℕ, Bool, true, false, not, ◌&&◌, ◌||◌, Option, none, some, String, List, [], ◌∷◌, if◌then◌else◌,
  Text, codes, list_eq,
}
unfoldable pub use eh_bot.Prelude.Strings.{is_one_of}

-- A JSON value. Integers and floats are both numbers.
mutual
  pub data Json (Float : Type 0) : Type 0 where
    null : Json Float
    boolean : Bool → Json Float
    number : Float → Json Float
    str : Text → Json Float
    arr : Jsons Float → Json Float
    obj : Members Float → Json Float

  pub data Jsons (Float : Type 0) : Type 0 where
    nil : Jsons Float
    cons : Json Float → Jsons Float → Jsons Float

  pub data Members (Float : Type 0) : Type 0 where
    end : Members Float
    member : Text → Json Float → Members Float → Members Float

-- What Python provides: floats with `float(text)`, their tests and `float` of a Boolean; `str` of a
-- value that is no text; the case mappings of Unicode; and `json.dumps` of a text.
pub record Host (Float : Type 0) : Type 0 where
  pub float_of_text : Text → Option Float
  pub float_of_bool : Bool → Float
  pub is_zero : Float → Bool
  pub float_eq : Float → Float → Bool
  pub float_lt : Float → Float → Bool
  pub float_le : Float → Float → Bool
  pub render : Json Float → Text
  pub upper : Text → Text
  pub lower : Text → Text
  pub casefold : Text → Text
  pub dumps : Text → Text

pub data Role : Type 0 where
  numeric collection text : Role

-- The canonical operator tokens; `unknown` is any other.
pub data Operator : Type 0 where
  eq ne gt ge lt le like not_like in_list not_in exists not_exists : Operator
  unknown : Text → Operator

pub data Junction : Type 0 where
  all_of any_of : Junction

-- The `value` of a condition, if it has one.
pub data Operand (Float : Type 0) : Type 0 where
  absent : Operand Float
  word : Text → Operand Float
  amount : Float → Operand Float
  choices : List Text → Operand Float

mutual
  pub data Node (Float : Type 0) : Type 0 where
    group : Junction → Nodes Float → Node Float
    condition : Text → Operator → Operand Float → Node Float

  pub data Nodes (Float : Type 0) : Type 0 where
    no_nodes : Nodes Float
    node : Node Float → Nodes Float → Nodes Float

-- `METADATA_FIELDS` and `RAW_METADATA_FIELDS` of app/review/models.py
abbrev pub metadata_fields : List String
metadata_fields =
    "Title" ∷ "JapaneseTitle" ∷ "Artist" ∷ "Group" ∷ "Parody" ∷ "Series" ∷ "Character" ∷ "Language"
    ∷ "Category" ∷ "Tags" ∷ "Rating" ∷ "Pages" ∷ "Uploader" ∷ "Description" ∷ []

abbrev pub raw_metadata_fields : List String
raw_metadata_fields =
    "TagsRaw" ∷ "ArtistRaw" ∷ "GroupRaw" ∷ "ParodyRaw" ∷ "CharacterRaw" ∷ "LanguageRaw"
    ∷ "CategoryRaw" ∷ []

abbrev pub numeric_fields : List String
numeric_fields = "Rating" ∷ "Pages" ∷ []

pub is_allowed_field : Text → Bool
unfolding is_one_of
is_allowed_field f =
    is_one_of f metadata_fields
    || is_one_of f raw_metadata_fields
    || is_one_of f ("FileSize" ∷ "Web" ∷ "TAG" ∷ [])

pub field_role : Text → Role
unfolding is_one_of
field_role f =
    if is_one_of f numeric_fields
    then numeric
    else if list_eq f (codes "TAG")
    then collection
    else text

pub is_existence : Operator → Bool
is_existence exists = true
is_existence not_exists = true
is_existence _ = false

pub is_membership : Operator → Bool
is_membership in_list = true
is_membership not_in = true
is_membership _ = false

pub is_like : Operator → Bool
is_like like = true
is_like not_like = true
is_like _ = false

pub is_equality : Operator → Bool
is_equality eq = true
is_equality ne = true
is_equality _ = false

pub is_comparison : Operator → Bool
is_comparison gt = true
is_comparison ge = true
is_comparison lt = true
is_comparison le = true
is_comparison _ = false

-- `operator in _role_operators(role)`
pub role_allows : Role → Operator → Bool
unfolding is_existence is_membership is_like is_equality is_comparison
role_allows text op = is_equality op || is_like op || is_membership op || is_existence op
role_allows numeric op = is_equality op || is_comparison op || is_membership op || is_existence op
role_allows collection op = is_existence op || is_membership op || is_like op
