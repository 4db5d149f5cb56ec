-- ===== src/Imports.antt =====
-- The files with all data: apps/desktop/src/main/ipc/data.ts. This module reads a file; its children write the tables.
pub mod Write
pub mod Merge
pub mod Files
pub mod Export
pub mod Atomicity
pub mod Counts
pub mod Songs
pub mod Restored
pub mod Plans
pub mod Items
pub mod Rows
pub mod RoundTrip
use church_presenter.Common.{
  ℕ, suc, ◌+◌, ℤ, pos, negsuc, String, Bool, true, false, not, ◌&&◌, ◌||◌, Option, none, some,
  or_else, List, [], ◌∷◌, ◌++◌, map, str_eq, ltb, leb, ◌==◌, is_some, if◌then◌else◌,
}
use church_presenter.Common.Texts.{trim}
use church_presenter.Common.Outcome.{Outcome, done, thrown, ◌>>=◌}
use church_presenter.Ipc.{Number}
use church_presenter.PlanKinds.{
  PlanItemKind, announcement_text, normalize_plan_item_kind, is_plan_item_kind,
}
use church_presenter.Json.{
  Value, undefined, null, nan, bool, num, str, arr, obj, Properties, get, has, elements, text_of,
  number_text, is_nullish, trunc,
}
use church_presenter.Songs.{Block}
use Prim.Native.Nat.{◌*◌}
use Prim.Native.String.{slice}

-- Date, of the language: the day of today, `Date.UTC` of a year, a month and a day, the day of `new Date(value)`, if
-- it is one, and `toISOString` of the midnight of a day.
pub record Calendar : Type 0 where
  pub today : ℕ
  pub utc : ℕ → ℕ → ℕ → ℕ
  pub day_of : Value → Option ℕ
  pub iso : ℕ → String

pub record NormalizedSong : Type 0 where
  pub title : String
  pub artist : Option String
  pub album : Option String
  pub year : Option String
  pub language : Option String
  pub tags : Option String
  pub blocks : List Block

pub record NormalizedItem : Type 0 where
  pub order : ℕ
  pub kind : PlanItemKind
  pub ref_id : Option String
  pub ref_sub_id : Option String
  pub title : Option String
  pub content : Option String
  pub media_path : Option String
  pub notes : Option String
  pub secondary_content : Option String
  pub background_config : Option String

-- The date stays the value of the file.
pub record NormalizedPlan : Type 0 where
  pub date : Value
  pub title : String
  pub background_config : Option String
  pub items : List NormalizedItem

pub data DatabaseError : Type 0 where
  unique_constraint invalid_plan_date no_backup : DatabaseError

-- The messages of an import; the numbers are the places in the file.
pub data Reason : Type 0 where
  songs_not_an_array plans_not_an_array legacy_version legacy_without_metadata : Reason
  song_not_an_object song_blocks_not_an_array plan_not_an_object plan_date_invalid : ℕ → Reason
  plan_items_not_an_array : ℕ → Reason
  block_not_an_object item_not_an_object : ℕ → ℕ → Reason
  item_kind_invalid : ℕ → ℕ → PlanItemKind → Reason
  refused : DatabaseError → Reason

pub data ErrorKind : Type 0 where
  validation of_song of_plan : ErrorKind

pub record ImportError : Type 0 where
  pub kind : ErrorKind
  pub title : Option String
  pub reason : Reason

abbrev invalid : Reason → Option String → ImportError
invalid reason title = record { kind = validation; title = title; reason = reason }

abbrev filled : String → Option String
filled s = if str_eq s "" then none else some s

unfoldable pub as_string : Value → Option String
as_string (str s) = filled (trim s)
as_string _ = none

-- `asStringLike`; `String(NaN)` is a text too.
unfoldable pub as_string_like : Value → Option String
as_string_like (str s) = filled (trim s)
as_string_like (num n) = some (number_text n)
as_string_like nan = some (text_of nan)
as_string_like _ = none

unfoldable pub as_raw_string : Value → Option String
as_raw_string (str s) = some s
as_raw_string _ = none

-- `Math.floor` of a negative number is no positive integer.
abbrev positive_or : ℕ → ℤ → ℕ
positive_or fallback (pos n) = if n == 0 then fallback else n
positive_or fallback (negsuc n) = fallback

unfoldable pub as_positive_int : Value → ℕ → ℕ
as_positive_int (num n) fallback = positive_or fallback (trunc n)
as_positive_int _ fallback = fallback

unfoldable pub normalize_block : ℕ → Properties → Block
normalize_block idx b = record {
  order = as_positive_int (get "order" b) (idx + 1);
  type = or_else (as_string_like (get "type" b)) "VERSE";
  title = as_string_like (get "title" b);
  content = or_else (as_string_like (get "content" b)) "";
}

-- What has been read of a list: the entries, and the errors in their order.
abbrev pub Read : Type 0 → Type 0
Read A = List A × List ImportError

abbrev pub with_entry : {A : Type 0} → A → Read A → Read A
with_entry a (entries, errors) = (a ∷ entries, errors)

abbrev pub with_error : {A : Type 0} → ImportError → Read A → Read A
with_error e (entries, errors) = (entries, e ∷ errors)

abbrev pub after_errors : {A : Type 0} → List ImportError → Read A → Read A
after_errors first (entries, errors) = (entries, first ++ errors)

abbrev add_block : ℕ → String → ℕ → Value → Read Block → Read Block
add_block song title idx (obj b) read = with_entry (normalize_block idx b) read
add_block song title idx _ read =
    with_error (invalid (block_not_an_object song idx) (some title)) read

unfoldable pub normalize_blocks : ℕ → String → ℕ → List Value → Read Block
normalize_blocks song title idx [] = ([], [])
normalize_blocks song title idx (v ∷ rest) =
    add_block song title idx v (normalize_blocks song title (suc idx) rest)

unfoldable pub read_blocks : ℕ → String → Value → Read Block
unfolding elements
read_blocks song title undefined = ([], [])
read_blocks song title null = ([], [])
read_blocks song title (arr items) = normalize_blocks song title 0 (elements items)
read_blocks song title _ = ([], invalid (song_blocks_not_an_array song) (some title) ∷ [])

unfoldable pub song_title : Properties → String
song_title s = or_else (as_string_like (get "title" s)) "Sans titre"

unfoldable pub normalize_song : Properties → List Block → NormalizedSong
normalize_song s blocks = record {
  title = song_title s;
  artist = as_string_like (get "artist" s);
  album = as_string_like (get "album" s);
  year = as_string_like (get "year" s);
  language = as_string_like (get "language" s);
  tags = as_string_like (get "tags" s);
  blocks = blocks;
}

abbrev add_song : ℕ → Value → Read NormalizedSong → Read NormalizedSong
add_song idx (obj s) read =
    let (blocks, errors) = read_blocks idx (song_title s) (get "blocks" s) in
    after_errors errors (with_entry (normalize_song s blocks) read)
add_song idx _ read = with_error (invalid (song_not_an_object idx) none) read

unfoldable pub normalize_songs_from : ℕ → List Value → Read NormalizedSong
normalize_songs_from idx [] = ([], [])
normalize_songs_from idx (v ∷ rest) = add_song idx v (normalize_songs_from (suc idx) rest)

unfoldable pub normalize_songs : Value → Read NormalizedSong
unfolding elements
normalize_songs undefined = ([], [])
normalize_songs null = ([], [])
normalize_songs (arr items) = normalize_songs_from 0 (elements items)
normalize_songs _ = ([], invalid songs_not_an_array none ∷ [])

-- `normalizeCpPlanItemKind(rawKind)`, and whether the text is a kind.
abbrev kind_of : Option String → PlanItemKind
kind_of none = announcement_text
kind_of (some s) = normalize_plan_item_kind s announcement_text

abbrev is_kind : Option String → Bool
is_kind none = false
is_kind (some s) = is_plan_item_kind s

unfoldable pub normalize_item : ℕ → Properties → NormalizedItem
normalize_item idx it = record {
  order = as_positive_int (get "order" it) (idx + 1);
  kind = kind_of (as_string_like (get "kind" it));
  ref_id = as_string_like (get "refId" it);
  ref_sub_id = as_string_like (get "refSubId" it);
  title = as_string_like (get "title" it);
  content = as_string_like (get "content" it);
  media_path = as_string_like (get "mediaPath" it);
  notes = as_raw_string (get "notes" it);
  secondary_content = as_raw_string (get "secondaryContent" it);
  background_config = as_raw_string (get "backgroundConfig" it);
}

unfoldable pub kind_errors : ℕ → ℕ → String → Properties → List ImportError
kind_errors plan idx title it =
    let kind = as_string_like (get "kind" it) in
    if is_kind kind
    then []
    else invalid (item_kind_invalid plan idx (kind_of kind)) (some title) ∷ []

abbrev add_item : ℕ → String → ℕ → Value → Read NormalizedItem → Read NormalizedItem
add_item plan title idx (obj it) read =
    after_errors (kind_errors plan idx title it) (with_entry (normalize_item idx it) read)
add_item plan title idx _ read =
    with_error (invalid (item_not_an_object plan idx) (some title)) read

unfoldable pub normalize_items : ℕ → String → ℕ → List Value → Read NormalizedItem
normalize_items plan title idx [] = ([], [])
normalize_items plan title idx (v ∷ rest) =
    add_item plan title idx v (normalize_items plan title (suc idx) rest)

unfoldable pub read_items : ℕ → String → Value → Read NormalizedItem
unfolding elements
read_items plan title undefined = ([], [])
read_items plan title null = ([], [])
read_items plan title (arr items) = normalize_items plan title 0 (elements items)
read_items plan title _ = ([], invalid (plan_items_not_an_array plan) (some title) ∷ [])

unfoldable pub plan_title : Properties → String
plan_title p = or_else (as_string_like (get "title" p)) "Culte"

-- `p.date != null` and `new Date(String(p.date))` is no date.
unfoldable pub is_date_invalid : Calendar → Value → Bool
is_date_invalid calendar v = not (is_nullish v) && not (is_some (calendar.day_of (str (text_of v))))

abbrev add_plan : Calendar → ℕ → Value → Read NormalizedPlan → Read NormalizedPlan
add_plan calendar idx (obj p) read =
    if is_date_invalid calendar (get "date" p)
    then with_error (invalid (plan_date_invalid idx) (some (plan_title p))) read
    else (let (items, errors) = read_items idx (plan_title p) (get "items" p) in
        after_errors errors (
          with_entry
            (record {
              date = get "date" p;
              title = plan_title p;
              background_config = as_raw_string (get "backgroundConfig" p);
              items = items;
            })
            read))
add_plan calendar idx _ read = with_error (invalid (plan_not_an_object idx) none) read

unfoldable pub normalize_plans_from : Calendar → ℕ → List Value → Read NormalizedPlan
normalize_plans_from calendar idx [] = ([], [])
normalize_plans_from calendar idx (v ∷ rest) =
    add_plan calendar idx v (normalize_plans_from calendar (suc idx) rest)

unfoldable pub normalize_plans : Calendar → Value → Read NormalizedPlan
unfolding elements
normalize_plans calendar undefined = ([], [])
normalize_plans calendar null = ([], [])
normalize_plans calendar (arr items) = normalize_plans_from calendar 0 (elements items)
normalize_plans calendar _ = ([], invalid plans_not_an_array none ∷ [])
