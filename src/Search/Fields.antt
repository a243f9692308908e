-- ===== src/Search/Fields.antt =====
-- The fields of the search box and the shape of a condition (app/search/query.py), with the labels
-- of app/api/status.py that two of the fields are matched with.
pub mod Resolve
use eh_bot.Prelude.{
  ℕ, zero, suc, ◌+◌, ◌-◌, Bool, true, false, not, ◌&&◌, ◌||◌, Option, none, some, String, List, [],
  ◌∷◌, ◌++◌, ◌==◌, leb, if◌then◌else◌, Text, codes, list_eq, Result, ok, err, ◌>>=◌,
}
use eh_bot.Prelude.Strings.{is_white, trim, words}
use eh_bot.Rules.{is_one_of, metadata_fields, raw_metadata_fields}
use eh_bot.Search.Slices.{contains}
use eh_bot.Search.Patterns.{has_wildcard}
use eh_bot.Search.Words.{Word, split_words}
use eh_bot.Search.Segments.{Segment, block, words as text_segment, unclosed, segments}

pub data Page : Type 0 where
  candidates downloaded : Page

-- Why a fragment is no filter.
pub data Refusal : Type 0 where
  open_quote empty_block open_block status_elsewhere source_elsewhere : Refusal
  bad_condition unknown_field unknown_status unknown_source : Text → Refusal

-- `EXCLUDED_FIELDS`
abbrev pub excluded_fields : List String
excluded_fields = "Rating" ∷ "Pages" ∷ "FileSize" ∷ []

-- `ALLOWED_FIELDS` of the rules
abbrev pub allowed_fields : List String
allowed_fields = metadata_fields ++ raw_metadata_fields ++ "FileSize" ∷ "Web" ∷ "TAG" ∷ []

abbrev pub tag_field : Text
tag_field = codes "TAG"

abbrev pub status_field : Text
status_field = codes "status"

abbrev pub source_field : Text
source_field = codes "source"

-- `CANDIDATE_STATUS`: the codes and their labels
abbrev pub candidate_status : List (String × String)
candidate_status =
    ("DISCOVERED", "已发现")
    ∷ ("PENDING_REVIEW", "待审核")
    ∷ ("NEEDS_INFO", "待补充")
    ∷ ("APPROVED", "已通过")
    ∷ ("PROCESSING", "处理中")
    ∷ ("DOWNLOADED", "已下载")
    ∷ ("REJECTED", "已驳回")
    ∷ ("FAILED", "失败")
    ∷ []

-- `PROVIDER_STATUS`
abbrev pub provider_status : List (String × String)
provider_status =
    ("TELEGRAM", "Telegram 原档")
    ∷ ("TELEGRAM_USER", "Telegram 大文件")
    ∷ ("EH_TORRENT", "EH 种子")
    ∷ ("EXHENTAI", "EH 归档")
    ∷ ("TELEGRAPH", "预览页图源")
    ∷ ("CONVERSION", "打包")
    ∷ []

-- `_FIELD_ALIASES`
alias_of : Text → Option Text
alias_of name =
    if list_eq name (codes "jtitle")
    then some (codes "JapaneseTitle")
    else if list_eq name (codes "tag") || list_eq name (codes "tags")
    then some (codes "TAG")
    else none

is_letter : ℕ → Bool
is_letter c = (leb b'A' c && leb c b'Z') || (leb b'a' c && leb c b'z') || c == b'_'

is_name_part : ℕ → Bool
unfolding is_letter
is_name_part c = is_letter c || (leb b'0' c && leb c b'9')

in_front : ℕ → Option (Text × Text) → Option (Text × Text)
in_front c none = none
in_front c (some (name, value)) = some (c ∷ name, value)

-- `[A-Za-z0-9_]*:(.*)$`
name_and_value : Text → Option (Text × Text)
unfolding is_name_part in_front
name_and_value [] = none
name_and_value (c ∷ t) =
    let rest = name_and_value t in
    if c == b':' then some ([], t) else if is_name_part c then in_front c rest else none

-- `_CONDITION` behind its optional `-`
named : Text → Option (Text × Text)
unfolding is_letter name_and_value
named [] = none
named (c ∷ t) = if is_letter c then name_and_value (c ∷ t) else none

with_sign : Bool → Option (Text × Text) → Option (Bool × Text × Text)
with_sign b none = none
with_sign b (some (name, value)) = some (b, name, value)

-- `_CONDITION.match`
unfoldable pub match_condition : Text → Option (Bool × Text × Text)
unfolding named with_sign
match_condition [] = none
match_condition (c ∷ t) =
    if c == b'-' then with_sign true (named t) else with_sign false (named (c ∷ t))

-- `_FIELD_NAMES`: the field with this folded name that may be searched
find_field : (Text → Text) → Text → List String → Option Text
find_field casefold lowered [] = none
find_field casefold lowered (f ∷ fs) =
    if list_eq (casefold (codes f)) lowered && not (is_one_of (codes f) excluded_fields)
    then some (codes f)
    else find_field casefold lowered fs

known_field : Text → Option Text → Option Text → Result Refusal Text
known_field name (some f) found = ok f
known_field name none (some f) = ok f
known_field name none none = err (unknown_field name)

-- `_resolve_field`
pub resolve_field : (Text → Text) → Text → Page → Result Refusal Text
unfolding alias_of find_field known_field
resolve_field casefold name page =
    let lowered = casefold name in
    if list_eq lowered status_field
    then elim page [ candidates ↦ ok status_field | downloaded ↦ err status_elsewhere ]
    else if list_eq lowered source_field
    then elim page [ candidates ↦ err source_elsewhere | downloaded ↦ ok source_field ]
    else known_field name (alias_of lowered) (find_field casefold lowered allowed_fields)

status_code_in : (Text → Text) → Text → List (String × String) → List Text
status_code_in casefold needle [] = []
status_code_in casefold needle ((code, label) ∷ rest) =
    if list_eq (casefold (codes code)) needle || list_eq (casefold (codes label)) needle
    then codes code ∷ []
    else status_code_in casefold needle rest

-- `_status_codes`
pub status_codes : (Text → Text) → Text → List Text
unfolding trim status_code_in
status_codes casefold value =
    let needle = casefold (trim value) in
    if list_eq needle [] then [] else status_code_in casefold needle candidate_status

provider_codes_in : (Text → Text) → Text → List (String × String) → List Text
provider_codes_in casefold needle [] = []
provider_codes_in casefold needle ((code, label) ∷ rest) =
    let behind = provider_codes_in casefold needle rest in
    if contains needle (casefold (codes code)) || contains needle (casefold (codes label))
    then codes code ∷ behind
    else behind

-- `provider_codes_matching`
pub provider_codes_matching : (Text → Text) → Text → List Text
unfolding trim provider_codes_in
provider_codes_matching casefold text =
    let needle = casefold (trim text) in
    if list_eq needle [] then [] else provider_codes_in casefold needle provider_status
