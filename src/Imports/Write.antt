-- ===== src/Imports/Write.antt =====
-- The import of a file with all data: the migration of the file, and what is written to the tables.
use church_presenter.Common.{
  ℕ, zero, suc, ◌+◌, pos, String, Bool, true, false, not, ◌&&◌, Option, none, some, List, [], ◌∷◌,
  ◌++◌, str_eq, ◌==◌, any, if◌then◌else◌,
}
use church_presenter.Common.Outcome.{Outcome, done, thrown, ◌>>=◌}
use church_presenter.PlanKinds.{kind_name}
use church_presenter.Json.{Value, undefined, null, nan, bool, num, str, text_of}
use church_presenter.Songs.{Block, Song, has_order}
use church_presenter.Plans.{Item}
use church_presenter.Sync.{PlanRow, Tables, is_plan_date_taken}
use church_presenter.Imports.{
  Calendar, NormalizedSong, NormalizedItem, NormalizedPlan, DatabaseError, unique_constraint,
  invalid_plan_date,
}
use Prim.Native.Nat.{◌*◌}
use Prim.Native.String.{slice}

-- What the database client draws for the n-th song and the n-th plan of an import: new ids, which no index refuses,
-- and the time.
pub record Draws : Type 0 where
  pub song_id : ℕ → String
  pub plan_id : ℕ → String
  pub item_id : ℕ → ℕ → String
  pub now : ℕ

abbrev digit : String → Option ℕ
digit s =
    if str_eq s "0"
    then some 0
    else if str_eq s "1"
    then some 1
    else if str_eq s "2"
    then some 2
    else if str_eq s "3"
    then some 3
    else if str_eq s "4"
    then some 4
    else if str_eq s "5"
    then some 5
    else if str_eq s "6"
    then some 6
    else if str_eq s "7"
    then some 7
    else if str_eq s "8"
    then some 8
    else if str_eq s "9"
    then some 9
    else none

abbrev next_digit : Option ℕ → Option ℕ → Option ℕ
next_digit none d = none
next_digit (some n) none = none
next_digit (some n) (some d) = some (n * 10 + d)

-- `\d{n}` from a place of the text.
digits : ℕ → ℕ → String → Option ℕ
digits zero from s = some 0
digits (suc n) from s = next_digit (digits n from s) (digit (slice s (from + n) (from + n + 1)))

abbrev Ymd : Type 0
Ymd = ℕ × ℕ × ℕ

abbrev ymd_of : Option ℕ → Option ℕ → Option ℕ → Option Ymd
ymd_of (some y) (some m) (some d) = some (y, m, d)
ymd_of _ _ _ = none

-- `/^(\d{4})-(\d{2})-(\d{2})/`
unfoldable pub match_ymd : String → Option Ymd
unfolding digits
match_ymd s =
    if str_eq (slice s 4 5) "-" && str_eq (slice s 7 8) "-"
    then ymd_of (digits 4 0 s) (digits 2 5 s) (digits 2 8 s)
    else none

-- `!value`
unfoldable pub is_falsy : Value → Bool
is_falsy undefined = true
is_falsy null = true
is_falsy nan = true
is_falsy (bool b) = not b
is_falsy (num (pos n)) = n == 0
is_falsy (str s) = str_eq s ""
is_falsy _ = false

-- The day of a plan: `none` is the error of a date that cannot be read.
unfoldable pub normalize_date_to_midnight : Calendar → Value → Option ℕ
normalize_date_to_midnight calendar v =
    if is_falsy v then some calendar.today else elim (match_ymd (text_of v)) [
      | none ↦ calendar.day_of v
      | some (y, m, d) ↦ some (calendar.utc y m d)
    ]

abbrev titled : String → String
titled s = if str_eq s "" then "Sans titre" else s

-- The creation of the blocks one after the other, under the unique index on the song and the order.
unfoldable pub create_blocks : List Block → List Block → Outcome DatabaseError (List Block)
create_blocks [] written = done written
create_blocks (b ∷ rest) written =
    if has_order b.order written
    then thrown unique_constraint
    else create_blocks rest (written ++ b ∷ [])

abbrev pub new_song : Draws → ℕ → NormalizedSong → List Block → Song
new_song draws n s blocks = record {
  id = draws.song_id n;
  title = titled s.title;
  artist = s.artist;
  album = s.album;
  year = s.year;
  language = s.language;
  tags = s.tags;
  is_deleted = false;
  created_at = draws.now;
  updated_at = draws.now;
  blocks = blocks;
}

unfoldable pub create_song_with_blocks :
    Draws → ℕ → NormalizedSong → Tables → Outcome DatabaseError Tables
create_song_with_blocks draws n s tables = create_blocks s.blocks [] >>= λ blocks.
    done (record tables { songs = tables.songs ++ new_song draws n s blocks ∷ [] })

-- The column songId is not written.
abbrev pub new_item : String → String → NormalizedItem → Item
new_item id plan it = record {
  id = id;
  plan_id = plan;
  order = it.order;
  kind = kind_name it.kind;
  title = it.title;
  content = it.content;
  notes = it.notes;
  ref_id = it.ref_id;
  ref_sub_id = it.ref_sub_id;
  song_id = none;
  media_path = it.media_path;
  secondary_content = it.secondary_content;
  background_config = it.background_config;
}

-- The creation of the items of the n-th plan, under the unique index on the plan and the order.
unfoldable pub create_items :
    Draws → ℕ → ℕ → List NormalizedItem → List Item → Outcome DatabaseError (List Item)
create_items draws n k [] written = done written
create_items draws n k (it ∷ rest) written =
    if any (λ other. other.order == it.order) written
    then thrown unique_constraint
    else create_items draws n (suc k) rest
        (written ++ new_item (draws.item_id n k) (draws.plan_id n) it ∷ [])

abbrev pub new_plan : Draws → ℕ → NormalizedPlan → ℕ → List Item → PlanRow
new_plan draws n p date items = record {
  plan = record {
    id = draws.plan_id n;
    date = date;
    title = some p.title;
    background_config = p.background_config;
    is_deleted = false;
  };
  updated_at = draws.now;
  items = items;
}

-- The row of the plan, under the unique index on the date, then its items.
unfoldable pub create_plan_on :
    Draws → ℕ → NormalizedPlan → ℕ → Tables → Outcome DatabaseError Tables
create_plan_on draws n p date tables =
    if is_plan_date_taken date tables.plans
    then thrown unique_constraint
    else create_items draws n 0 p.items [] >>= λ items.
        done (record tables { plans = tables.plans ++ new_plan draws n p date items ∷ [] })

unfoldable pub create_plan_with_items :
    Calendar → Draws → ℕ → NormalizedPlan → Tables → Outcome DatabaseError Tables
create_plan_with_items calendar draws n p tables =
    elim (normalize_date_to_midnight calendar p.date) [
      | none ↦ thrown invalid_plan_date
      | some date ↦ create_plan_on draws n p date tables
    ]
