-- ===== src/Songs.antt =====
-- The songs: the handlers of apps/desktop/src/main/ipc/songs-meta.ts on the tables Song and SongBlock of
-- apps/desktop/prisma/schema.prisma. A song holds its blocks; the ids of blocks, which the client draws, are left out,
-- and so are the copies of songs in JSON files, whose writing is best effort.
pub mod Blocks
pub mod Sorted
use church_presenter.Common.{
  ℕ, suc, ◌+◌, String, Bool, true, false, not, ◌&&◌, ◌||◌, Option, none, some, List, [], ◌∷◌, ◌++◌,
  map, str_eq, ltb, leb, ◌==◌, if◌then◌else◌, or_else, any, find, keep,
}
use church_presenter.Common.Outcome.{Outcome, done, thrown, ◌>>=◌}
use church_presenter.Json.{Value}
use church_presenter.RuntimeValidation.{Problem, Parsed}
use church_presenter.RuntimeValidation.Records.{
  BlockPayload, ReplaceBlocksPayload, SongCreatePayload, SongUpdatePayload, parse_id,
  parse_song_create_payload, parse_song_update_payload, parse_replace_blocks_payload,
}

pub record Block : Type 0 where
  pub order : ℕ
  pub type : String
  pub title : Option String
  pub content : String

pub record Song : Type 0 where
  pub id : String
  pub title : String
  pub artist : Option String
  pub album : Option String
  pub year : Option String
  pub language : Option String
  pub tags : Option String
  pub is_deleted : Bool
  pub created_at : ℕ
  pub updated_at : ℕ
  pub blocks : List Block

pub data SongError : Type 0 where
  invalid : Problem → SongError
  unique_constraint foreign_key record_not_found : SongError

abbrev pub has_song_id : String → Song → Bool
has_song_id id song = str_eq song.id id

-- A payload that is refused throws before the database is asked.
abbrev pub checked {ℓ} :
    {A : Type 0} {B : Type ℓ} → Parsed A → (A → Outcome SongError B) → Outcome SongError B
checked (thrown why) next = thrown (invalid why)
checked (done payload) next = next payload

-- The unique index on the song and the order.
unfoldable pub has_order : ℕ → List Block → Bool
has_order n blocks = any (λ b. b.order == n) blocks

unfoldable pub are_orders_distinct : List Block → Bool
are_orders_distinct [] = true
are_orders_distinct (b ∷ rest) = not (has_order b.order rest) && are_orders_distinct rest

-- `orderBy: { order: "asc" }`
unfoldable pub insert_block : Block → List Block → List Block
insert_block b [] = b ∷ []
insert_block b (other ∷ rest) =
    let below = insert_block b rest in
    if leb b.order other.order then b ∷ other ∷ rest else other ∷ below

unfoldable pub sort_blocks : List Block → List Block
sort_blocks [] = []
sort_blocks (b ∷ rest) = insert_block b (sort_blocks rest)

abbrev pub with_sorted_blocks : Song → Song
with_sorted_blocks song = record song { blocks = sort_blocks song.blocks }

-- `song.findUnique` with the blocks in their order.
unfoldable pub find_song : String → List Song → Option Song
find_song id songs = elim (find (has_song_id id) songs) [
  | none ↦ none
  | some song ↦ some (with_sorted_blocks song)
]

-- `songs:get`
unfoldable pub get_song : Value → List Song → Outcome SongError (Option Song)
get_song raw songs = checked (parse_id raw) λ id. done (find_song id songs)

abbrev starting_blocks : List Block
starting_blocks =
    record { order = 1; type = "VERSE"; title = some "Couplet 1"; content = "" }
    ∷ record { order = 2; type = "CHORUS"; title = some "Refrain"; content = "" }
    ∷ []

abbrev pub new_song : SongCreatePayload → String → ℕ → List Block → Song
new_song p id now blocks = record {
  id = id;
  title = p.title;
  artist = p.artist;
  album = p.album;
  year = p.year;
  language = none;
  tags = none;
  is_deleted = false;
  created_at = now;
  updated_at = now;
  blocks = blocks;
}

-- `songs:create` under the id that the database client draws.
unfoldable pub create_song : String → ℕ → Value → List Song → Outcome SongError (List Song)
create_song id now raw songs = checked (parse_song_create_payload raw) λ p.
    if any (has_song_id id) songs
    then thrown unique_constraint
    else done (songs ++ new_song p id now starting_blocks ∷ [])

-- A field that is `undefined` leaves the column.
abbrev given : Option String → Option String → Option String
given none column = column
given (some text) column = some text

abbrev pub with_meta : SongUpdatePayload → ℕ → Song → Song
with_meta p now song = record song {
  title = p.song.title;
  artist = given p.song.artist song.artist;
  album = given p.song.album song.album;
  year = given p.song.year song.year;
  updated_at = now;
}

-- `song.update`, which throws where there is no such row.
unfoldable pub update_song : String → (Song → Song) → List Song → Outcome SongError (List Song)
update_song id change songs =
    if any (has_song_id id) songs
    then done (map (λ song. if has_song_id id song then change song else song) songs)
    else thrown record_not_found

-- `songs:updateMeta`
unfoldable pub update_meta : ℕ → Value → List Song → Outcome SongError (List Song)
update_meta now raw songs =
    checked (parse_song_update_payload raw) λ p. update_song p.id (with_meta p now) songs

-- `songs:delete`: the row is marked.
unfoldable pub delete_song : ℕ → Value → List Song → Outcome SongError (List Song)
delete_song now raw songs =
    checked (parse_id raw)
      λ id. update_song id (λ song. record song { is_deleted = true; updated_at = now }) songs

abbrev pub block_of : BlockPayload → Block
block_of b = record { order = b.order; type = b.type; title = b.title; content = b.content }

abbrev pub with_blocks : String → List Block → Song → Song
with_blocks id blocks song = if has_song_id id song then record song { blocks = blocks } else song

-- The transaction of `songs:replaceBlocks`: the blocks of the song are removed and the new ones written, which
-- needs the song and distinct orders. The row of the song itself is not written.
unfoldable pub write_blocks : String → List Block → List Song → Outcome SongError (List Song)
write_blocks id [] songs = done (map (with_blocks id []) songs)
write_blocks id (b ∷ rest) songs =
    if not (are_orders_distinct (b ∷ rest))
    then thrown unique_constraint
    else if not (any (has_song_id id) songs)
    then thrown foreign_key
    else done (map (with_blocks id (b ∷ rest)) songs)

-- `songs:replaceBlocks`: the new table, and what the renderer is told.
unfoldable pub replace_blocks : Value → List Song → Outcome SongError (List Song × Option Song)
replace_blocks raw songs = checked (parse_replace_blocks_payload raw) λ p.
    write_blocks p.song_id (map block_of p.blocks) songs >>= λ after.
    done (after, find_song p.song_id after)
