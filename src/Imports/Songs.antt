-- ===== src/Imports/Songs.antt =====
-- The songs of an exported file: what is read of them, and what is written.
use church_presenter.Common.{
  ℕ, suc, ◌+◌, ◌≤◌, ◌<◌, String, ◌≡◌, refl, sym, ap, true, Option, none, some, or_else, List, [],
  ◌∷◌, map, str_eq, leb, arith, All, inl, inr, Bool-cases,
}
use church_presenter.Common.Texts.{trim, str_eq-false, str_eq-eq}
use church_presenter.Json.{
  Value, num, str, arr, Properties, no_properties, property, get, elements, array, ones,
}
use church_presenter.RuntimeValidation.RoundTrip.{IsTrimmed, IfGiven}
use church_presenter.Songs.{Block, Song, insert_block, sort_blocks}
use church_presenter.Songs.Sorted.{IsAscending}
use church_presenter.Imports.{
  NormalizedSong, as_string_like, as_positive_int, normalize_block, normalize_blocks, read_blocks,
  song_title, normalize_song, normalize_songs_from, normalize_songs,
}
use church_presenter.Imports.Export.{column, block_value, song_value}

-- What an exported file keeps of a block: the content may be empty.
pub record IsPortableBlock (b : Block) : Type 0 where
  pub order : 1 ≤ b.order
  pub type : IsTrimmed b.type
  pub title : IfGiven IsTrimmed b.title
  pub content : trim b.content ≡ b.content

-- A song whose texts have no white space at their ends, with the blocks listed in their order.
pub record IsPortableSong (s : Song) : Type 0 where
  pub title : IsTrimmed s.title
  pub artist : IfGiven IsTrimmed s.artist
  pub album : IfGiven IsTrimmed s.album
  pub year : IfGiven IsTrimmed s.year
  pub language : IfGiven IsTrimmed s.language
  pub tags : IfGiven IsTrimmed s.tags
  pub ascending : IsAscending s.blocks
  pub blocks : All IsPortableBlock s.blocks

-- What of a song is no id and no time.
abbrev pub song_content : Song → NormalizedSong
song_content s = record {
  title = s.title;
  artist = s.artist;
  album = s.album;
  year = s.year;
  language = s.language;
  tags = s.tags;
  blocks = s.blocks;
}

pub as_string_like_trimmed : (s : String) → IsTrimmed s → as_string_like (str s) ≡ some s
unfolding as_string_like
as_string_like_trimmed s t = rw t.unchanged (rw (str_eq-false s "" t.filled) refl)

pub as_string_like-column :
    (o : Option String) → IfGiven IsTrimmed o → as_string_like (column o) ≡ o
unfolding as_string_like
as_string_like-column none t = refl
as_string_like-column (some s) t = as_string_like_trimmed s t

as_string_like_content : (s : String) → trim s ≡ s → or_else (as_string_like (str s)) "" ≡ s
unfolding as_string_like
as_string_like_content s t = elim (Bool-cases (str_eq s "")) [
  | inl e ↦ rw (t, e) (sym (str_eq-eq s "" e))
  | inr e ↦ rw (t, e) refl
]

pub as_positive_int-ones : (n fallback : ℕ) → 1 ≤ n → as_positive_int (num (ones n)) fallback ≡ n
unfolding as_positive_int
as_positive_int-ones n fallback h = ground arith

pub elements-array : (values : List Value) → elements (array values) ≡ values
unfolding elements array
elements-array [] = refl
elements-array (v ∷ rest) = ap (v ∷◌) (elements-array rest)

block_fields : Block → Properties
block_fields b = property "order" (num (ones b.order)) (
    property "type" (str b.type)
      (property "title" (column b.title) (property "content" (str b.content) no_properties)))

normalize_block-fields :
    (idx : ℕ) (b : Block) → IsPortableBlock b → normalize_block idx (block_fields b) ≡ b
unfolding normalize_block block_fields get
normalize_block-fields idx b p =
    rw
      (
        as_positive_int-ones b.order (idx + 1) p.order,
        as_string_like_trimmed b.type p.type,
        as_string_like-column b.title p.title,
        as_string_like_content b.content p.content,
      )
      refl

normalize_blocks-values :
    (song : ℕ) (title : String) (idx : ℕ) (blocks : List Block)
    → All IsPortableBlock blocks
    → normalize_blocks song title idx (map block_value blocks) ≡ (blocks, [])
unfolding normalize_blocks block_value block_fields
normalize_blocks-values song title idx [] h = refl
normalize_blocks-values song title idx (b ∷ rest) h =
    rw (normalize_blocks-values song title (suc idx) rest h.1)
      (ap (λ c. (c ∷ rest, [])) (normalize_block-fields idx b h.0))

-- Blocks that are listed in their order are sorted.
insert_first :
    (b : Block) (rest : List Block)
    → All (λ (c : Block). b.order < c.order) rest
    → insert_block b rest ≡ b ∷ rest
unfolding insert_block
insert_first b [] h = refl
insert_first b (c ∷ rest) h = let l : leb b.order c.order ≡ true = ground arith in rw l refl

pub sort_blocks_ascending : (blocks : List Block) → IsAscending blocks → sort_blocks blocks ≡ blocks
unfolding sort_blocks
sort_blocks_ascending [] h = refl
sort_blocks_ascending (b ∷ rest) h = rw (sort_blocks_ascending rest h.1) (insert_first b rest h.0)

read_blocks-values :
    (song : ℕ) (title : String) (s : Song)
    → IsPortableSong s
    → read_blocks song title (arr (array (map block_value (sort_blocks s.blocks)))) ≡ (s.blocks, [])
unfolding read_blocks
read_blocks-values song title s p =
    rw (sort_blocks_ascending s.blocks p.ascending, elements-array (map block_value s.blocks))
      (normalize_blocks-values song title 0 s.blocks p.blocks)

song_fields : Song → Properties
song_fields s = property "id" (str s.id) (
    property "title" (str s.title) (
      property "artist" (column s.artist) (
        property "album" (column s.album) (
          property "year" (column s.year) (
            property "language" (column s.language) (
              property "tags" (column s.tags) (
                property "blocks" (arr (array (map block_value (sort_blocks s.blocks))))
                  no_properties)))))))

normalize_song-fields :
    (s : Song) → IsPortableSong s → normalize_song (song_fields s) s.blocks ≡ song_content s
unfolding normalize_song song_title song_fields get
normalize_song-fields s p =
    rw
      (
        as_string_like_trimmed s.title p.title,
        as_string_like-column s.artist p.artist,
        as_string_like-column s.album p.album,
        as_string_like-column s.year p.year,
        as_string_like-column s.language p.language,
        as_string_like-column s.tags p.tags,
      )
      refl

get_blocks :
    (s : Song) → get "blocks" (song_fields s) ≡ arr (array (map block_value (sort_blocks s.blocks)))
unfolding get song_fields
get_blocks s = refl

normalize_songs_from-values :
    (idx : ℕ) (songs : List Song)
    → All IsPortableSong songs
    → normalize_songs_from idx (map song_value songs) ≡ (map song_content songs, [])
unfolding normalize_songs_from song_value song_fields
normalize_songs_from-values idx [] h = refl
normalize_songs_from-values idx (s ∷ rest) h =
    rw
      (
        normalize_songs_from-values (suc idx) rest h.1,
        get_blocks s,
        read_blocks-values idx (song_title (song_fields s)) s h.0,
      )
      (ap (λ c. (c ∷ map song_content rest, [])) (normalize_song-fields s h.0))

-- The songs of a file are read as they were, with no error.
pub normalize_songs-values :
    (songs : List Song)
    → All IsPortableSong songs
    → normalize_songs (arr (array (map song_value songs))) ≡ (map song_content songs, [])
unfolding normalize_songs
normalize_songs-values songs h =
    rw (elements-array (map song_value songs)) (normalize_songs_from-values 0 songs h)
