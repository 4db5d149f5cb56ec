-- ===== src/RuntimeValidation/Records.antt =====
-- The payloads of the songs, the plans, the media files and the import of all data.
use church_presenter.Common.{ℕ, ℤ, pos, negsuc, String, true, Option, none, some, List}
use church_presenter.Common.Outcome.{done, ◌>>=◌}
use church_presenter.Json.{Value, undefined, null, get, trunc, ones}
use church_presenter.RuntimeValidation.{
  Parsed, NumberOptions, trimmed, may_be_empty, raw, expect_record, expect_array, expect_string,
  expect_optional_string, expect_number, unless_nullish, parse_all,
}

abbrev pub parse_id : Value → Parsed String
parse_id = expect_string trimmed

unfoldable pub parse_optional_query : Value → Parsed (Option String)
parse_optional_query = unless_nullish (expect_string may_be_empty)

pub record RenameMediaPayload : Type 0 where
  pub path : String
  pub name : String

unfoldable pub parse_delete_media_payload : Value → Parsed String
parse_delete_media_payload v = expect_record v >>= λ rec. expect_string trimmed (get "path" rec)

unfoldable pub parse_rename_media_payload : Value → Parsed RenameMediaPayload
parse_rename_media_payload v = do
  rec ← expect_record v
  path ← expect_string trimmed (get "path" rec)
  name ← expect_string trimmed (get "name" rec)
  done (record { path = path; name = name })

pub record SongCreatePayload : Type 0 where
  pub title : String
  pub artist : Option String
  pub album : Option String
  pub year : Option String

unfoldable pub parse_song_create_payload : Value → Parsed SongCreatePayload
parse_song_create_payload v = do
  rec ← expect_record v
  title ← expect_string trimmed (get "title" rec)
  artist ← expect_optional_string trimmed (get "artist" rec)
  album ← expect_optional_string trimmed (get "album" rec)
  year ← expect_optional_string trimmed (get "year" rec)
  done (record { title = title; artist = artist; album = album; year = year })

pub record SongUpdatePayload : Type 0 where
  pub id : String
  pub song : SongCreatePayload

unfoldable pub parse_song_update_payload : Value → Parsed SongUpdatePayload
parse_song_update_payload v = do
  rec ← expect_record v
  id ← expect_string trimmed (get "id" rec)
  song ← parse_song_create_payload v
  done (record { id = id; song = song })

pub record BlockPayload : Type 0 where
  pub order : ℕ
  pub type : String
  pub title : Option String
  pub content : String

pub record ReplaceBlocksPayload : Type 0 where
  pub song_id : String
  pub blocks : List BlockPayload

-- `{ integer: true, min: 1 }`
abbrev pub from_one : NumberOptions
from_one = record { integer = true; min = some (ones 1); max = none }

abbrev pub natural : ℤ → ℕ
natural (pos n) = n
natural (negsuc n) = 0

unfoldable pub parse_block : Value → Parsed BlockPayload
parse_block v = do
  rec ← expect_record v
  order ← expect_number from_one (get "order" rec)
  type ← expect_string trimmed (get "type" rec)
  title ← expect_optional_string trimmed (get "title" rec)
  content ← expect_string raw (get "content" rec)
  done (record { order = natural (trunc order); type = type; title = title; content = content })

unfoldable pub parse_replace_blocks_payload : Value → Parsed ReplaceBlocksPayload
parse_replace_blocks_payload v = do
  rec ← expect_record v
  values ← expect_array (get "blocks" rec)
  blocks ← parse_all parse_block values
  song_id ← expect_string trimmed (get "songId" rec)
  done (record { song_id = song_id; blocks = blocks })

abbrev pub parse_ids : Value → Parsed (List String)
parse_ids v = expect_array v >>= parse_all (expect_string trimmed)

unfoldable pub parse_export_word_pack_payload : Value → Parsed (Option (List String))
parse_export_word_pack_payload undefined = done none
parse_export_word_pack_payload null = done none
parse_export_word_pack_payload v =
    expect_record v >>= λ rec. unless_nullish parse_ids (get "songIds" rec)
