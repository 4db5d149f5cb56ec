-- ===== src/Sync/Reconnect.antt =====
-- A reconnection: the push of what was done offline, and the pull of the server's tables.
use church_presenter.Common.{
  ◌≡◌, ◌≢◌, refl, ap, ◌∙◌, ◌⊎◌, inl, inr, true, false, String, none, List, [], ◌∷◌, ◌++◌, All, any,
  arith, find, append_one,
}
use church_presenter.Common.Texts.{str_eq-false}
use church_presenter.Songs.{Song, are_orders_distinct}
use church_presenter.Sync.{
  is_title_taken, is_song_refused, PlanRow, Sync, Link, online, syncing, state_change, song_table,
  plan_table, changed_since, start_push, push_songs, push_offline_changes, is_row, replace_all,
  set_state, is_busy, push_and_pull, check_and_reconnect,
}
use church_presenter.Sync.Merge.{AreDistinct, replace_all_lem}
use church_presenter.Sync.Growth.{Adds, Goes, AllGo, push_rows-AllGo, found-Adds, found-AllGo}
use church_presenter.Sync.Outcomes.{
  changed_songs, changed_plans, warning, IsReconnected, IsBroken, pushed_lem, pull_done, warn_lem,
}

module _ (link : Link) (w : Sync) (songs : AreDistinct song_table w.local.songs)
    (plans : AreDistinct (plan_table []) w.local.plans) where
  -- The outcome of the push and the pull is one of two: all is merged, or the local tables stay.
  abbrev Outcomes : Sync → Type 0
  Outcomes after = IsReconnected link w after ⊎ IsBroken w after

  merged_lem :
      (push_offline_changes (set_state syncing w) link).has_failed ≡ false
      → link.pull_breaks ≡ false
      → IsReconnected link w (push_and_pull link (set_state syncing w))
  unfolding push_and_pull set_state changed_since
  merged_lem went b =
      let w' = set_state syncing w in
      let pushed = push_offline_changes w' link in
      let sent = record w' { server = pushed.server; last_push_at = link.now } in
      let (all_songs, all_plans, counted) = pushed_lem link w' songs plans went in
      let pulled = record sent { local = replace_all sent.server; last_pull_at = link.now } in
      let messages = w.sent ++ state_change syncing ∷ [] in
      rw (went, pull_done link sent b, warn_lem pushed.overwritten (set_state online pulled) refl)
        (record {
          songs = all_songs;
          plans = all_plans;
          local = replace_all_lem pushed.server;
          state = refl;
          time = refl;
          told =
              append_one messages (state_change online) (warning pushed.overwritten)
              ∙ ap (λ n. messages ++ state_change online ∷ warning n) counted;
        })

  reconnect_lem :
      is_busy w.state ≡ false
      → link.is_reachable ≡ true
      → check_and_reconnect link w ≡ push_and_pull link (set_state syncing w)
  unfolding check_and_reconnect
  reconnect_lem idle reachable = rw (idle, reachable) refl

-- A changed song that the server has, or whose title it has not and whose blocks have different orders.
abbrev pub IsFree : List Song → Song → Type 0
IsFree rows song =
    (find (is_row song_table song.id) rows ≢ none)
    ⊎ ((is_title_taken song.title rows ≡ false) × (are_orders_distinct song.blocks ≡ true))

-- No two songs have one title.
abbrev pub AreTitlesDistinct : List Song → Type 0
AreTitlesDistinct [] = Unit
AreTitlesDistinct (song ∷ rest) =
    All (λ (other : Song). song.title ≢ other.title) rest × AreTitlesDistinct rest

-- Offline work that the server does not refuse: its songs are free, and have different titles, and the server has
-- every changed plan.
pub record IsWelcome (w : Sync) : Type 0 where
  pub songs : All (IsFree w.server.songs) (changed_songs w)
  pub titles : AreTitlesDistinct (changed_songs w)
  pub plans :
      All
        (λ (row : PlanRow). find (is_row (plan_table []) row.plan.id) w.server.plans ≢ none)
        (changed_plans w)

syncing-IsWelcome : (w : Sync) → IsWelcome w → IsWelcome (set_state syncing w)
unfolding set_state changed_since
syncing-IsWelcome w h = record { songs = h.songs; titles = h.titles; plans = h.plans }

title_free :
    (rows : List Song) (x : Song) (title : String)
    → x.title ≢ title
    → is_title_taken title rows ≡ false
    → is_title_taken title (rows ++ x ∷ []) ≡ false
unfolding any
title_free [] x title ne h = rw (str_eq-false x.title title ne) refl
title_free (row ∷ rows) x title ne h = ground (arith, title_free rows x title ne)

IsFree-Adds :
    (rows after : List Song) (x y : Song)
    → Adds song_table rows x after
    → x.title ≢ y.title
    → IsFree rows y
    → IsFree after y
IsFree-Adds rows after x y adds ne (inl known) =
    inl (found-Adds song_table rows after x y adds known)
IsFree-Adds rows after x y (inl e) ne (inr free) = inr (rw e free)
IsFree-Adds rows after x y (inr e) ne (inr free) =
    inr (rw e (title_free rows (song_table.stored x) y.title ne free.0, free.1))

free-Goes : (rows : List Song) (song : Song) → IsFree rows song → Goes song_table rows song
unfolding is_song_refused
free-Goes rows song (inl known) = inl known
free-Goes rows song (inr free) = inr (rw (free.0, free.1) refl)

All-IsFree-Adds :
    (songs rows after : List Song) (x : Song)
    → Adds song_table rows x after
    → All (λ (other : Song). x.title ≢ other.title) songs
    → All (IsFree rows) songs
    → All (IsFree after) songs
All-IsFree-Adds [] rows after x adds ne h = tt
All-IsFree-Adds (song ∷ rest) rows after x adds ne h =
    (IsFree-Adds rows after x song adds ne.0 h.0, All-IsFree-Adds rest rows after x adds ne.1 h.1)

free-AllGo :
    (songs rows : List Song)
    → All (IsFree rows) songs
    → AreTitlesDistinct songs
    → AllGo song_table rows songs
free-AllGo [] rows h d = tt
free-AllGo (song ∷ rest) rows h d = (
  free-Goes rows song h.0,
  λ after adds. free-AllGo rest after (All-IsFree-Adds rest rows after song adds d.0 h.1) d.1,
)

welcome_lem :
    (link : Link) (w : Sync)
    → link.rows_left ≡ none
    → IsWelcome w
    → (push_offline_changes w link).has_failed ≡ false
unfolding push_offline_changes changed_since
welcome_lem link w unbroken h =
    let songs =
      push_rows-AllGo song_table (changed_songs w) (start_push w.server.songs link.rows_left) refl
        unbroken (free-AllGo (changed_songs w) w.server.songs h.songs h.titles) in
    let run = push_songs w link in
    (push_rows-AllGo (plan_table run.rows) (changed_plans w) _ songs.0 songs.1
      (found-AllGo (plan_table run.rows) (changed_plans w) w.server.plans h.plans)).0

module _ (link : Link) (w : Sync) (songs : AreDistinct song_table w.local.songs)
    (plans : AreDistinct (plan_table []) w.local.plans) where
  pub check_and_reconnect-IsReconnected :
      is_busy w.state ≡ false
      → link.is_reachable ≡ true
      → link.rows_left ≡ none
      → link.pull_breaks ≡ false
      → IsWelcome w
      → IsReconnected link w (check_and_reconnect link w)
  check_and_reconnect-IsReconnected idle reachable unbroken b welcome =
      rw (reconnect_lem link w songs plans idle reachable) (
        merged_lem link w songs plans
          (welcome_lem link (set_state syncing w) unbroken (syncing-IsWelcome w welcome)) b)
