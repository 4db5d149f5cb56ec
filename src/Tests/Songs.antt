-- ===== src/Tests/Songs.antt =====
-- Runs on the payloads and the songs.
use church_presenter.Common.{ℕ, ◌≡◌, refl, String, false, none, some, List, [], ◌∷◌, any, find}
use church_presenter.Common.Texts.{trim, str_ne}
use church_presenter.Common.Outcome.{done, thrown}
use church_presenter.PlanKinds.{timer}
use church_presenter.Plans.{AddItemPayload}
use church_presenter.Json.{
  Value, num, str, arr, obj, element, no_elements, property, no_properties, ones, get,
}
use church_presenter.RuntimeValidation.{
  below_the_minimum, expect_array, expect_number, expect_optional_string, expect_record,
  expect_string, parse_all,
}
use church_presenter.RuntimeValidation.Screens.{parse_secondary_texts, secondary_texts_of}
use church_presenter.RuntimeValidation.Records.{parse_replace_blocks_payload, parse_block}
use church_presenter.RuntimeValidation.Plans.{parse_add_item_payload}
use church_presenter.RuntimeValidation.RoundTrip.{
  IsTrimmed, add_item_value, parse_add_item_payload-value,
}
use church_presenter.Songs.{
  Block, Song, invalid, replace_blocks, are_orders_distinct, find_song, has_order, insert_block,
  sort_blocks, write_blocks,
}
use church_presenter.Songs.Blocks.{IsReplaced, replace_blocks-IsReplaced}

abbrev timer_item : AddItemPayload
timer_item = record {
  plan_id = "p1";
  kind = timer;
  title = some " Pause ";
  content = none;
  notes = some "";
  ref_id = none;
  ref_sub_id = none;
  media_path = none;
  secondary_content = none;
  background_config = none;
}

p1-IsTrimmed : IsTrimmed "p1"
unfolding trim
p1-IsTrimmed = record { unchanged = refl; filled = str_ne "p1" "" refl }

parse_add_item_payload-value_example :
    parse_add_item_payload (add_item_value timer_item) ≡ done timer_item
parse_add_item_payload-value_example =
    parse_add_item_payload-value timer_item
      (record { plan_id = p1-IsTrimmed; ref_id = tt; ref_sub_id = tt; media_path = tt })

abbrev pub block_message : ℕ → String → Value
block_message order text = obj (
    property "order" (num (ones order))
      (property "type" (str " VERSE ") (property "content" (str text) no_properties)))

abbrev pub message : Value → Value
message blocks = obj (property "songId" (str "s1") (property "blocks" blocks no_properties))

abbrev pub two_blocks : Value
two_blocks =
    message
      (arr (element (block_message 2 "Gloire") (element (block_message 1 "Saint") no_elements)))

abbrev pub block : ℕ → String → Block
block order text = record { order = order; type = "VERSE"; title = none; content = text }

abbrev pub song_with : List Block → Song
song_with blocks = record {
  id = "s1";
  title = "Saint";
  artist = none;
  album = none;
  year = none;
  language = none;
  tags = none;
  is_deleted = false;
  created_at = 1;
  updated_at = 1;
  blocks = blocks;
}

abbrev pub written : Song
written = song_with (block 2 "Gloire" ∷ block 1 "Saint" ∷ [])

abbrev pub told : Song
told = song_with (block 1 "Saint" ∷ block 2 "Gloire" ∷ [])

pub two_blocks-written :
    replace_blocks two_blocks (song_with [] ∷ []) ≡ done (written ∷ [], some told)
unfolding replace_blocks parse_replace_blocks_payload trim expect_record expect_array get parse_all
    parse_block expect_number expect_string expect_optional_string write_blocks are_orders_distinct
    has_order any find_song find sort_blocks insert_block
two_blocks-written = refl

order_zero :
    replace_blocks
      (message (arr (element (block_message 0 "Saint") no_elements)))
      (song_with [] ∷ [])
    ≡ thrown (invalid below_the_minimum)
unfolding replace_blocks parse_replace_blocks_payload trim expect_record expect_array get parse_all
    parse_block expect_number
order_zero = refl

replace_blocks-IsReplaced_example : IsReplaced two_blocks (song_with [] ∷ []) (written ∷ []) told
replace_blocks-IsReplaced_example =
    replace_blocks-IsReplaced two_blocks (song_with [] ∷ []) (written ∷ []) told two_blocks-written

-- A secondary text with no label, and one with no body.
secondary_texts_read :
    parse_secondary_texts (
      arr (
        element
          (obj (property "body" (str "Saint") no_properties))
          (element (obj no_properties) no_elements)))
    ≡ some (record { label = ""; body = "Saint" } ∷ [])
unfolding parse_secondary_texts secondary_texts_of get
secondary_texts_read = refl
