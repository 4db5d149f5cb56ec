-- ===== src/Imports/Restored.antt =====
-- The songs of an exported file, written again.
use church_presenter.Common.{
  ℕ, suc, ◌<◌, ◌≡◌, refl, ap, ◌∙◌, false, List, [], ◌∷◌, ◌++◌, map, ◌==◌, arith, any, All,
  append_one,
}
use church_presenter.Common.Texts.{str_eq-false}
use church_presenter.Common.Outcome.{done}
use church_presenter.Songs.{Block, Song, has_order}
use church_presenter.Songs.Sorted.{IsAscending}
use church_presenter.Sync.{Tables}
use church_presenter.Imports.Write.{Draws, create_blocks, new_song, create_song_with_blocks}
use church_presenter.Imports.Merge.{create_all}
use mathlib.Core.List.{append-nil}
use church_presenter.Imports.Songs.{IsPortableSong, song_content}

has_order-append :
    (n : ℕ) (blocks : List Block) (b : Block)
    → has_order n blocks ≡ false
    → (b.order == n) ≡ false
    → has_order n (blocks ++ b ∷ []) ≡ false
unfolding has_order any
has_order-append n [] b h e = rw e refl
has_order-append n (c ∷ rest) b h e = ground (arith, has_order-append n rest b)

create_blocks_ascending :
    (blocks written : List Block)
    → IsAscending blocks
    → All (λ (b : Block). has_order b.order written ≡ false) blocks
    → create_blocks blocks written ≡ done (written ++ blocks)
unfolding create_blocks
create_blocks_ascending [] written a free = rw append-nil refl
create_blocks_ascending (b ∷ rest) written a free = rw free.0 (
    create_blocks_ascending rest (written ++ b ∷ []) a.1 (later rest a.0 free.1)
    ∙ ap done (append_one written b rest))
  where
    later :
        (rest : List Block)
        → All (λ (c : Block). b.order < c.order) rest
        → All (λ (c : Block). has_order c.order written ≡ false) rest
        → All (λ (c : Block). has_order c.order (written ++ b ∷ []) ≡ false) rest
    later [] l f = tt
    later (c ∷ rest) l f =
        (has_order-append c.order written b f.0 (ground arith), later rest l.1 f.1)

free_at_first : (blocks : List Block) → All (λ (b : Block). has_order b.order [] ≡ false) blocks
unfolding has_order any
free_at_first [] = tt
free_at_first (b ∷ rest) = (refl, free_at_first rest)

-- The rows that an import writes for the songs, from the place `n` on.
unfoldable pub restored_songs : Draws → ℕ → List Song → List Song
restored_songs draws n [] = []
restored_songs draws n (s ∷ rest) =
    new_song draws n (song_content s) s.blocks ∷ restored_songs draws (suc n) rest

pub create_songs :
    (draws : Draws) (n : ℕ) (songs : List Song) (t : Tables)
    → All IsPortableSong songs
    → create_all (create_song_with_blocks draws) n (map song_content songs) t
      ≡ done (record t { songs = t.songs ++ restored_songs draws n songs })
unfolding create_all create_song_with_blocks restored_songs
create_songs draws n [] t h = rw append-nil refl
create_songs draws n (s ∷ rest) t h =
    let row = new_song draws n (song_content s) s.blocks in
    rw (create_blocks_ascending s.blocks [] h.0.ascending (free_at_first s.blocks)) (
      create_songs draws (suc n) rest (record t { songs = t.songs ++ row ∷ [] }) h.1
      ∙ ap (λ songs. done (record t { songs = songs }))
          (append_one t.songs row (restored_songs draws (suc n) rest)))

-- What is no id and no time comes back.
pub restored_songs-content :
    (draws : Draws) (n : ℕ) (songs : List Song)
    → All IsPortableSong songs
    → map song_content (restored_songs draws n songs) ≡ map song_content songs
unfolding restored_songs
restored_songs-content draws n [] h = refl
restored_songs-content draws n (s ∷ rest) h =
    rw (str_eq-false s.title "" h.0.title.filled)
      (ap (song_content s ∷◌) (restored_songs-content draws (suc n) rest h.1))
