-- ===== src/Tests/Imports.antt =====
-- Runs on the file with all data.
use church_presenter.RuntimeValidation.{expect_enum, expect_record, expect_string}
use Prim.Native.Nat.{◌*◌, ◌-◌}
use church_presenter.Common.{
  ◌+◌, ◌≡◌, refl, false, none, some, [], ◌∷◌, map, ◌==◌, arith, length, if◌then◌else◌, keep,
}
use church_presenter.Common.Texts.{trim, str_ne}
use church_presenter.Common.Outcome.{done}
use church_presenter.Json.{Value, null, str, obj, property, no_properties, get}
use church_presenter.RuntimeValidation.Names.{replace, strict, read_import_mode}
use church_presenter.RuntimeValidation.Plans.{parse_data_import_payload}
use church_presenter.RuntimeValidation.RoundTrip.{IsTrimmed}
use church_presenter.Songs.{Block, Song}
use church_presenter.Plans.{Item}
use church_presenter.Sync.{PlanRow, Tables}
use church_presenter.Imports.{Calendar}
use church_presenter.Imports.Write.{Draws, match_ymd}
use church_presenter.Imports.Merge.{imported}
use church_presenter.Imports.Files.{chosen, import_all}
use church_presenter.Imports.Export.{export_value, live_songs, live_plans}
use church_presenter.Imports.Atomicity.{IsReported, base_of, import_all-IsReported}
use church_presenter.Imports.Songs.{song_content, IsPortableSong, IsPortableBlock}
use church_presenter.Imports.Plans.{plan_content, carried, IsReadable, IsPortablePlan}
use church_presenter.Imports.Items.{IsPortableItem}
use church_presenter.Imports.RoundTrip.{IsPortable, NameNoSong, import_all-export_value}

-- A calendar that knows the days of one year.
abbrev calendar : Calendar
calendar = record {
  today = 5;
  utc = λ y m d. (m * 31 + d) - 32;
  day_of = λ v. some 5;
  iso = λ day. if day == 0 then "2026-01-01T00:00:00.000Z" else "2026-01-06T00:00:00.000Z";
}

abbrev draws : Draws
draws = record {
  song_id = λ n. if n == 0 then "new_song" else "other_song";
  plan_id = λ n. "new_plan";
  item_id = λ n k. "new_item";
  now = 99;
}

date_read : match_ymd "2026-01-06T00:00:00.000Z" ≡ some (2026, 1, 6)
unfolding match_ymd
date_read = refl

abbrev block : Block
block = record { order = 1; type = "VERSE"; title = none; content = "Gloire" }

abbrev song : Song
song = record {
  id = "s1";
  title = "Gloria";
  artist = none;
  album = none;
  year = some "1982";
  language = none;
  tags = none;
  is_deleted = false;
  created_at = 1;
  updated_at = 2;
  blocks = block ∷ [];
}

abbrev item : Item
item = record {
  id = "i1";
  plan_id = "p1";
  order = 1;
  kind = "SONG_BLOCK";
  title = some "Gloria";
  content = none;
  notes = some " doucement ";
  ref_id = some "s1";
  ref_sub_id = none;
  song_id = some "s1";
  media_path = none;
  secondary_content = none;
  background_config = none;
}

abbrev plan_row : PlanRow
plan_row = record {
  plan = record { id = "p1"; date = 5; title = none; background_config = none; is_deleted = false };
  updated_at = 3;
  items = item ∷ [];
}

abbrev source : Tables
source = record { songs = song ∷ []; plans = plan_row ∷ [] }

abbrev empty : Tables
empty = record { songs = []; plans = [] }

abbrev replace_message : Value
replace_message = obj (property "mode" (str "REPLACE") no_properties)

replace_parsed :
    parse_data_import_payload replace_message ≡ done (record { mode = replace; atomicity = strict })
unfolding parse_data_import_payload trim expect_record get expect_enum expect_string
    read_import_mode
replace_parsed = refl

Gloria-IsTrimmed : IsTrimmed "Gloria"
unfolding trim
Gloria-IsTrimmed = record { unchanged = refl; filled = str_ne "Gloria" "" refl }

year-IsTrimmed : IsTrimmed "1982"
unfolding trim
year-IsTrimmed = record { unchanged = refl; filled = str_ne "1982" "" refl }

verse-IsTrimmed : IsTrimmed "VERSE"
unfolding trim
verse-IsTrimmed = record { unchanged = refl; filled = str_ne "VERSE" "" refl }

id-IsTrimmed : IsTrimmed "s1"
unfolding trim
id-IsTrimmed = record { unchanged = refl; filled = str_ne "s1" "" refl }

block-IsPortableBlock : IsPortableBlock block
unfolding trim
block-IsPortableBlock = record {
  order = omega arith;
  type = verse-IsTrimmed;
  title = tt;
  content = refl;
}

song-IsPortableSong : IsPortableSong song
song-IsPortableSong = record {
  title = Gloria-IsTrimmed;
  artist = tt;
  album = tt;
  year = year-IsTrimmed;
  language = tt;
  tags = tt;
  ascending = (tt, tt);
  blocks = (block-IsPortableBlock, tt);
}

item-IsPortableItem : IsPortableItem item
item-IsPortableItem = record {
  order = omega arith;
  ref_id = id-IsTrimmed;
  ref_sub_id = tt;
  title = Gloria-IsTrimmed;
  content = tt;
  media_path = tt;
}

date-IsReadable : IsReadable calendar 5
date-IsReadable = record {
  filled = str_ne "2026-01-06T00:00:00.000Z" "" refl;
  valid = refl;
  year = 2026;
  month = 1;
  date = 6;
  matched = date_read;
  day_of = refl;
}

plan-IsPortablePlan : IsPortablePlan calendar plan_row
plan-IsPortablePlan = record {
  date = date-IsReadable;
  title = tt;
  ascending = (omega arith, tt);
  items = (item-IsPortableItem, tt);
}

source-IsPortable : IsPortable calendar source
unfolding live_songs live_plans keep
source-IsPortable = record {
  songs = (song-IsPortableSong, tt);
  plans = (plan-IsPortablePlan, tt);
  dates = (tt, tt);
}

import_all-export_value_example :
    let (after, result) =
      import_all calendar draws false replace_message
        (chosen (export_value calendar source))
        empty in
    (map song_content after.songs ≡ map song_content (live_songs source))
    × (map plan_content after.plans ≡ map carried (map plan_content (live_plans source)))
    × NameNoSong after.plans
    × (result
        ≡ imported false
            (record { songs = length (live_songs source); plans = length (live_plans source) })
            [])
import_all-export_value_example =
    import_all-export_value calendar draws replace_message
      (record { mode = replace; atomicity = strict }) replace_parsed refl source empty
      source-IsPortable

import_all-IsReported_example :
    IsReported
      (base_of (parse_data_import_payload null) source)
      source
      (import_all calendar draws false null (chosen (export_value calendar source)) source)
import_all-IsReported_example =
    import_all-IsReported calendar draws false null (chosen (export_value calendar source)) source
