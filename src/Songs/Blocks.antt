-- ===== src/Songs/Blocks.antt =====
-- What `songs:replaceBlocks` writes: the orders of the blocks, and what it leaves alone.
use church_presenter.Common.{
  String, ◌≡◌, ◌≢◌, refl, sym, ap, ◌∙◌, inl, inr, true, false, Option, none, some, List, [], ◌∷◌,
  map, str_eq, arith, All, find, Bool-cases, Option-cases, find-found, if◌then◌else◌,
}
use church_presenter.Common.Texts.{str_eq-eq, str_eq-false}
use church_presenter.Common.Outcome.{done, ◌>>=◌-done, Outcome-cases}
use church_presenter.Json.{Value, get}
use church_presenter.RuntimeValidation.{
  expect_record, expect_array, expect_string, parse_all, trimmed,
}
use church_presenter.RuntimeValidation.Records.{
  ReplaceBlocksPayload, parse_block, parse_replace_blocks_payload,
}
use church_presenter.Songs.{
  Block, Song, has_song_id, are_orders_distinct, sort_blocks, with_sorted_blocks, find_song,
  block_of, with_blocks, write_blocks, replace_blocks,
}
use church_presenter.Songs.Sorted.{
  IsAscending, IsNumbered, All-sort, sort_blocks-IsAscending, parse_all-IsNumbered,
}

-- Every song but the one of the id is as it was.
others_kept :
    (id other : String) (blocks : List Block) (songs : List Song)
    → other ≢ id
    → find (has_song_id other) (map (with_blocks id blocks) songs) ≡ find (has_song_id other) songs
unfolding find
others_kept id other blocks [] ne = refl
others_kept id other blocks (song ∷ rest) ne = elim (Bool-cases (str_eq song.id id)) [
  | inl e ↦
      let kept : str_eq song.id other ≡ false =
        rw (str_eq-eq song.id id e) (str_eq-false id other (λ q. ne (sym q))) in
      rw e (rw kept (others_kept id other blocks rest ne))
  | inr e ↦ rw e (
      ap (λ found. if str_eq song.id other then some song else found)
        (others_kept id other blocks rest ne))
]

-- The song of the id keeps all but its blocks.
song_rewritten :
    (id : String) (blocks : List Block) (songs : List Song) (old : Song)
    → find (has_song_id id) songs ≡ some old
    → find (has_song_id id) (map (with_blocks id blocks) songs)
      ≡ some (record old { blocks = blocks })
unfolding find
song_rewritten id blocks [] old h = cc
song_rewritten id blocks (song ∷ rest) old h = elim (Bool-cases (str_eq song.id id)) [
  | inl e ↦ let same : song ≡ old = cc (rw e at h) in rw (e, e) (rw same refl)
  | inr e ↦ rw (e, e) (song_rewritten id blocks rest old (rw e at h))
]

song_missing :
    (id : String) (blocks : List Block) (songs : List Song)
    → find (has_song_id id) songs ≡ none
    → find (has_song_id id) (map (with_blocks id blocks) songs) ≡ none
unfolding find
song_missing id blocks [] h = refl
song_missing id blocks (song ∷ rest) h = elim (Bool-cases (str_eq song.id id)) [
  | inl e ↦ cc (rw e at h)
  | inr e ↦ rw (e, e) (song_missing id blocks rest (rw e at h))
]

write_blocks_inv :
    (id : String) (blocks : List Block) (songs after : List Song)
    → write_blocks id blocks songs ≡ done after
    → (after ≡ map (with_blocks id blocks) songs) × (are_orders_distinct blocks ≡ true)
unfolding write_blocks are_orders_distinct
write_blocks_inv id [] songs after h = (cc, refl)
write_blocks_inv id (b ∷ rest) songs after h = ground arith

find_song_inv :
    (id : String) (songs : List Song) (song : Song)
    → find_song id songs ≡ some song
    → (row : Song) × (find (has_song_id id) songs ≡ some row)
      × (with_sorted_blocks row ≡ song)
      × (row.id ≡ id)
unfolding find_song
find_song_inv id songs song h = elim (Option-cases (find (has_song_id id) songs)) [
  | inl e ↦ cc (rw (e, find_song) at h)
  | inr (row, e) ↦ (
    row,
    e,
    cc (rw (e, find_song) at h),
    str_eq-eq row.id id (find-found (has_song_id id) songs row e).1,
  )
]

-- What a replacement of blocks does to the table `songs`, where it tells the renderer of `song`.
pub record IsReplaced (message : Value) (songs after : List Song) (song : Song) : Type 0 where
  pub payload : ReplaceBlocksPayload
  pub parsed : parse_replace_blocks_payload message ≡ done payload
  pub blocks : song.blocks ≡ sort_blocks (map block_of payload.blocks)
  pub ascending : IsAscending song.blocks
  pub numbered : All IsNumbered song.blocks
  pub old : Song
  pub found : find (has_song_id song.id) songs ≡ some old
  pub rest : song ≡ record old { blocks = song.blocks }
  pub others :
      (other : String)
      → other ≢ song.id
      → find (has_song_id other) after ≡ find (has_song_id other) songs

blocks_numbered :
    (message : Value) (p : ReplaceBlocksPayload)
    → parse_replace_blocks_payload message ≡ done p
    → All IsNumbered (map block_of p.blocks)
unfolding parse_replace_blocks_payload
blocks_numbered message p h =
    let (rec, e0, h0) = ◌>>=◌-done (expect_record message) _ h in
    let (values, e1, h1) = ◌>>=◌-done (expect_array (get "blocks" rec)) _ h0 in
    let (blocks, e2, h2) = ◌>>=◌-done (parse_all parse_block values) _ h1 in
    let (id, e3, h3) = ◌>>=◌-done (expect_string trimmed (get "songId" rec)) _ h2 in
    let same : blocks ≡ p.blocks = ground arith in
    rw (sym same) (parse_all-IsNumbered values blocks e2)

module _ (message : Value) (songs after : List Song) (song : Song) where
  replaced :
      (p : ReplaceBlocksPayload)
      → parse_replace_blocks_payload message ≡ done p
      → write_blocks p.song_id (map block_of p.blocks) songs ≡ done after
      → find_song p.song_id after ≡ some song
      → IsReplaced message songs after song
  replaced p e w f =
      let bs = map block_of p.blocks in
      let (written, distinct) = write_blocks_inv p.song_id bs songs after w in
      let (row, at_id, sorted, same_id) = find_song_inv p.song_id after song f in
      let at_map : find (has_song_id p.song_id) (map (with_blocks p.song_id bs) songs) ≡ some row =
        rw (sym written) at_id in
      let id : song.id ≡ p.song_id = ap (λ (s : Song). s.id) (sym sorted) ∙ same_id in
      elim (Option-cases (find (has_song_id p.song_id) songs)) [
        | inl missing ↦ cc (sym at_map ∙ song_missing p.song_id bs songs missing)
        | inr (old, found) ↦
            let row_is : some row ≡ some (record old { blocks = bs }) =
              sym at_map ∙ song_rewritten p.song_id bs songs old found in
            let song_is : song ≡ record old { blocks = sort_blocks bs } =
              sym sorted ∙ ap with_sorted_blocks (cc row_is) in
            let blocks_are : song.blocks ≡ sort_blocks bs = ap (λ (s : Song). s.blocks) song_is in
            record {
              payload = p;
              parsed = e;
              blocks = blocks_are;
              ascending = rw blocks_are (sort_blocks-IsAscending bs distinct);
              numbered = rw blocks_are (All-sort IsNumbered bs (blocks_numbered message p e));
              old = old;
              found = rw id found;
              rest = song_is ∙ ap (λ bs'. record old { blocks = bs' }) (sym blocks_are);
              others = λ other ne.
                  rw written (others_kept p.song_id other bs songs (λ q. ne (q ∙ sym id)));
            }
      ]

  -- If a replacement of blocks goes through and the renderer is told of a song, the song holds the
  -- blocks of the message in the order of their numbers, which are different and at least 1. Of the
  -- song nothing else changes, the time of its last change included, and no other song changes.
  pub replace_blocks-IsReplaced :
      replace_blocks message songs ≡ done (after, some song) → IsReplaced message songs after song
  unfolding replace_blocks
  replace_blocks-IsReplaced h = elim (Outcome-cases (parse_replace_blocks_payload message)) [
    | inl (why, e) ↦ cc (rw (e, replace_blocks) at h)
    | inr (p, e) ↦
        let (table, w, h') =
          ◌>>=◌-done (write_blocks p.song_id (map block_of p.blocks) songs) _
            (rw (e, replace_blocks) at h) in
        let same : table ≡ after = ground arith in
        let told : find_song p.song_id table ≡ some song = ground arith in
        replaced p e (rw same at w) (rw same at told)
  ]

-- The table after a replacement of blocks: no field but the blocks of one song is written.
pub replace_blocks_table :
    (message : Value) (songs after : List Song) (told : Option Song)
    → replace_blocks message songs ≡ done (after, told)
    → (id : String) × (blocks : List Block) × (after ≡ map (with_blocks id blocks) songs)
unfolding replace_blocks
replace_blocks_table message songs after told h =
    elim (Outcome-cases (parse_replace_blocks_payload message)) [
      | inl (why, e) ↦ cc (rw (e, replace_blocks) at h)
      | inr (p, e) ↦
          let (table, w, h') =
            ◌>>=◌-done (write_blocks p.song_id (map block_of p.blocks) songs) _
              (rw (e, replace_blocks) at h) in
          let same : table ≡ after = ground arith in
          (
            p.song_id,
            map block_of p.blocks,
            sym same ∙ (write_blocks_inv p.song_id (map block_of p.blocks) songs table w).0,
          )
    ]
