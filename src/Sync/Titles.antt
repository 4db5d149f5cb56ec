-- ===== src/Sync/Titles.antt =====
-- A song that was made offline under a title that a song of the server has.
use church_presenter.Common.{◌≡◌, refl, true, false, none, List, ltb, In, find}
use church_presenter.Songs.{Song}
use church_presenter.Sync.{Sync, song_table, is_title_taken, is_song_refused, is_row, is_busy}
use church_presenter.Sync.Merge.{AreDistinct}

refused :
    (song : Song) (rows : List Song)
    → is_title_taken song.title rows ≡ true
    → is_song_refused song rows ≡ true
unfolding is_song_refused
refused song rows taken = rw taken refl

-- The song was changed since the last pull, the server does not know its id, and has a song of its title.
pub record IsRefused (song : Song) (w : Sync) : Type 0 where
  pub songs : AreDistinct song_table w.local.songs
  pub local : In song w.local.songs
  pub changed : ltb w.last_pull_at song.updated_at ≡ true
  pub unknown : find (is_row song_table song.id) w.server.songs ≡ none
  pub taken : is_title_taken song.title w.server.songs ≡ true

module _ (song : Song) where
  -- What calls leave: the song is still refused, the local tables are as they were, and no plan was pushed.
  pub record IsLeft (w after : Sync) : Type 0 where
    pub refused : IsRefused song after
    pub local : after.local ≡ w.local
    pub plans : after.server.plans ≡ w.server.plans
    pub idle : is_busy after.state ≡ false
