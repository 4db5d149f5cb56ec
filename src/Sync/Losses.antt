-- ===== src/Sync/Losses.antt =====
-- Work that was done offline and is lost.
use church_presenter.Common.{
  ℕ, String, ◌≡◌, ◌≢◌, refl, ap, ◌∙◌, Bool, true, false, Option, none, List, [], ◌∷◌, ◌++◌, map,
  str_eq, arith, ltb, All, count, keep, Bool-cases, inl, inr,
}
use church_presenter.Common.Outcome.{done}
use church_presenter.Json.{Value}
use church_presenter.Songs.{Song, Block, with_blocks, replace_blocks}
use church_presenter.Songs.Blocks.{replace_blocks_table}
use church_presenter.Sync.{
  PlanRow, Tables, Sync, Link, online, syncing, state_change, song_table, plan_table, changed_since,
  is_busy, check_and_reconnect,
}
use church_presenter.Sync.Merge.{AreDistinct}
use church_presenter.Sync.Reconnect.{IsWelcome, check_and_reconnect-IsReconnected}
use church_presenter.Sync.Outcomes.{
  changed_songs, changed_plans, merged_songs, merged_plans, conflicts, warning,
}
use mathlib.Core.List.{append-nil}

keep_none :
    {A : Type 0} (test : A → Bool) (xs : List A) → All (λ x. test x ≡ false) xs → keep test xs ≡ []
unfolding keep
keep_none test [] h = refl
keep_none test (x ∷ xs) h = rw h.0 (keep_none test xs h.1)

module _ (id : String) (blocks : List Block) where
  -- The row of a song keeps its id and the time of its last change when its blocks are written.
  with_blocks_row :
      (song : Song)
      → ((with_blocks id blocks song).id ≡ song.id)
        × ((with_blocks id blocks song).updated_at ≡ song.updated_at)
  with_blocks_row song = elim (Bool-cases (str_eq song.id id)) [
    | inl e ↦ rw e (refl, refl)
    | inr e ↦ rw e (refl, refl)
  ]

  All-with_blocks :
      (name : String) (songs : List Song)
      → All (λ (other : Song). name ≢ other.id) songs
      → All (λ (other : Song). name ≢ other.id) (map (with_blocks id blocks) songs)
  All-with_blocks name [] h = tt
  All-with_blocks name (song ∷ rest) h =
      ((λ q. h.0 (q ∙ (with_blocks_row song).0)), All-with_blocks name rest h.1)

  with_blocks-AreDistinct :
      (songs : List Song)
      → AreDistinct song_table songs
      → AreDistinct song_table (map (with_blocks id blocks) songs)
  with_blocks-AreDistinct [] d = tt
  with_blocks-AreDistinct (song ∷ rest) d = (
    rw (with_blocks_row song).0 (All-with_blocks song.id rest d.0),
    with_blocks-AreDistinct rest d.1,
  )

  with_blocks_old :
      (time : ℕ) (songs : List Song)
      → All (λ (song : Song). ltb time song.updated_at ≡ false) songs
      → changed_since song_table time (map (with_blocks id blocks) songs) ≡ []
  unfolding changed_since keep
  with_blocks_old time [] h = refl
  with_blocks_old time (song ∷ rest) h =
      let same = (with_blocks_row song).1 in rw (same, h.0) (with_blocks_old time rest h.1)

Tables_ext : (a b : Tables) → a.songs ≡ b.songs → a.plans ≡ b.plans → a ≡ b
Tables_ext a b e f = ground arith

merged_songs_none : (w : Sync) → changed_songs w ≡ [] → merged_songs w ≡ w.server.songs
unfolding keep
merged_songs_none w e = rw (e, append-nil) refl

merged_plans_none : (w : Sync) → changed_plans w ≡ [] → merged_plans w ≡ w.server.plans
unfolding keep
merged_plans_none w e = rw (e, append-nil) refl

conflicts_none : (w : Sync) → changed_songs w ≡ [] → changed_plans w ≡ [] → conflicts w ≡ 0
unfolding count
conflicts_none w e f = rw (e, f) refl

-- Right after a pull: the local tables are the server's, and no row is newer than the pull.
pub record IsFresh (w : Sync) : Type 0 where
  pub same : w.local ≡ w.server
  pub songs : All (λ (song : Song). ltb w.last_pull_at song.updated_at ≡ false) w.local.songs
  pub plans : All (λ (row : PlanRow). ltb w.last_pull_at row.updated_at ≡ false) w.local.plans
  pub distinct_songs : AreDistinct song_table w.local.songs
  pub distinct_plans : AreDistinct (plan_table []) w.local.plans

-- The song's handler ran on the local tables.
abbrev pub with_songs : List Song → Sync → Sync
with_songs songs w = record w { local = record w.local { songs = songs } }

module _ (link : Link) (w : Sync) (message : Value) (songs : List Song) (told : Option Song) where
  -- If the blocks of songs are replaced offline right after a pull, the next reconnection over an
  -- unbroken connection brings the server's tables back: the new blocks are gone from the local
  -- tables, the server never had them, and no warning is sent.
  pub check_and_reconnect-replace_blocks :
      IsFresh w
      → replace_blocks message w.local.songs ≡ done (songs, told)
      → is_busy w.state ≡ false
      → link.is_reachable ≡ true
      → link.rows_left ≡ none
      → link.pull_breaks ≡ false
      → let after = check_and_reconnect link (with_songs songs w) in
        (after.local ≡ w.server)
        × (after.server ≡ w.server)
        × (after.sent ≡ (w.sent ++ state_change syncing ∷ []) ++ (state_change online ∷ []))
  unfolding changed_since
  check_and_reconnect-replace_blocks fresh wrote idle reachable unbroken b =
      let (id, blocks, table) = replace_blocks_table message w.local.songs songs told wrote in
      let edited = with_songs songs w in
      let no_songs : changed_songs edited ≡ [] =
        rw table (with_blocks_old id blocks w.last_pull_at w.local.songs fresh.songs) in
      let no_plans : changed_plans edited ≡ [] = keep_none _ w.local.plans fresh.plans in
      let distinct : AreDistinct song_table songs =
        rw table (with_blocks-AreDistinct id blocks w.local.songs fresh.distinct_songs) in
      let welcome : IsWelcome edited = record {
        songs = rw no_songs tt;
        titles = rw no_songs tt;
        plans = rw no_plans tt;
      } in
      let after =
        check_and_reconnect-IsReconnected link edited distinct fresh.distinct_plans idle reachable
          unbroken b welcome in
      let server : (check_and_reconnect link edited).server ≡ w.server =
        Tables_ext (check_and_reconnect link edited).server w.server
          (after.songs ∙ merged_songs_none edited no_songs)
          (after.plans ∙ merged_plans_none edited no_plans) in
      (
        after.local ∙ server,
        server,
        after.told
            ∙ ap (λ n. (w.sent ++ state_change syncing ∷ []) ++ (state_change online ∷ warning n))
                (conflicts_none edited no_songs no_plans),
      )
