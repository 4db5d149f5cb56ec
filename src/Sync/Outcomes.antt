-- ===== src/Sync/Outcomes.antt =====
-- What a reconnection makes of the tables, and its parts.
use church_presenter.Common.{
  ℕ, ◌+◌, ◌≡◌, refl, inl, inr, true, false, List, [], ◌∷◌, ◌++◌, map, arith, ltb, keep, count,
  Bool-cases, if◌then◌else◌,
}
use mathlib.Core.List.{append-nil}
use church_presenter.Songs.{Song}
use church_presenter.Sync.{
  PlanRow, Sync, Link, online, sync_error, syncing, Message, state_change, conflict_warning,
  song_table, plan_table, changed_since, start_push, push_songs, push_offline_changes, replace_all,
  set_state, pull, warn, is_online,
}
use church_presenter.Sync.Merge.{
  AreDistinct, is_new, is_conflict, Grows, push_rows_lem, push_rows-started,
}
use church_presenter.Sync.Growth.{push_rows-Grows, keep-AreDistinct}

-- The rows of songs and plans that were changed offline, and the table of plans, whose refusals no equation reads.
abbrev pub changed_songs : Sync → List Song
changed_songs w = changed_since song_table w.last_pull_at w.local.songs

abbrev pub changed_plans : Sync → List PlanRow
changed_plans w = changed_since (plan_table []) w.last_pull_at w.local.plans

-- The server's rows, and after them the rows of new ids.
abbrev pub merged_songs : Sync → List Song
merged_songs w =
    w.server.songs
    ++ map (λ song. song_table.stored song)
        (keep (is_new song_table w.server.songs) (changed_songs w))

abbrev pub merged_plans : Sync → List PlanRow
merged_plans w =
    w.server.plans
    ++ map (λ row. (plan_table []).stored row)
        (keep (is_new (plan_table []) w.server.plans) (changed_plans w))

-- The rows that were changed offline and of which the server has an older version.
abbrev pub conflicts : Sync → ℕ
conflicts w =
    count (is_conflict song_table w.server.songs) (changed_songs w)
    + count (is_conflict (plan_table []) w.server.plans) (changed_plans w)

abbrev pub warning : ℕ → List Message
warning n = if ltb 0 n then conflict_warning n ∷ [] else []

-- A reconnection that went through.
pub record IsReconnected (link : Link) (w after : Sync) : Type 0 where
  pub songs : after.server.songs ≡ merged_songs w
  pub plans : after.server.plans ≡ merged_plans w
  pub local : after.local ≡ after.server
  pub state : after.state ≡ online
  pub time : after.last_pull_at ≡ link.now
  pub told :
      after.sent
      ≡ (w.sent ++ state_change syncing ∷ []) ++ (state_change online ∷ warning (conflicts w))

-- A reconnection that broke: the local tables wait for the next one.
pub record IsBroken (w after : Sync) : Type 0 where
  pub songs : Grows w.server.songs after.server.songs
  pub plans : Grows w.server.plans after.server.plans
  pub local : after.local ≡ w.local
  pub state : after.state ≡ sync_error
  pub time : after.last_pull_at ≡ w.last_pull_at

module _ (link : Link) (w : Sync) (songs : AreDistinct song_table w.local.songs)
    (plans : AreDistinct (plan_table []) w.local.plans) where
  pub pushed_lem :
      (push_offline_changes w link).has_failed ≡ false
      → ((push_offline_changes w link).server.songs ≡ merged_songs w)
        × ((push_offline_changes w link).server.plans ≡ merged_plans w)
        × ((push_offline_changes w link).overwritten ≡ conflicts w)
  unfolding push_offline_changes changed_since
  pushed_lem h =
      let song_run = push_songs w link in
      let plan_rows = changed_plans w in
      let started = push_rows-started (plan_table song_run.rows) plan_rows _ h in
      let first =
        push_rows_lem song_table (λ x. refl) (changed_songs w)
          (start_push w.server.songs link.rows_left)
          (keep-AreDistinct song_table _ w.local.songs songs) started in
      let second =
        push_rows_lem (plan_table song_run.rows) (λ x. refl) plan_rows _
          (keep-AreDistinct (plan_table []) _ w.local.plans plans) h in
      (first.0, second.0, omega (arith, first.1, second.1))

pub pushed-Grows :
    (link : Link) (w : Sync)
    → Grows w.server.songs (push_offline_changes w link).server.songs
      × Grows w.server.plans (push_offline_changes w link).server.plans
unfolding push_offline_changes changed_since
pushed-Grows link w =
    let song_run = push_songs w link in
    (
      push_rows-Grows song_table (changed_songs w) (start_push w.server.songs link.rows_left),
      push_rows-Grows (plan_table song_run.rows) (changed_plans w) _,
    )

pub pull_broken :
    (link : Link) (w : Sync) → link.pull_breaks ≡ true → pull link w ≡ set_state sync_error w
unfolding pull
pull_broken link w b = rw b refl

pub pull_done :
    (link : Link) (w : Sync)
    → link.pull_breaks ≡ false
    → pull link w
      ≡ set_state online (record w { local = replace_all w.server; last_pull_at = link.now })
unfolding pull
pull_done link w b = rw b refl

pub warn_lem :
    (n : ℕ) (w : Sync) → w.state ≡ online → warn n w ≡ record w { sent = w.sent ++ warning n }
unfolding warn
warn_lem n w o = elim (Bool-cases (ltb 0 n)) [
  | inl e ↦ rw (o, e) refl
  | inr e ↦ rw (o, e, append-nil) refl
]

pub warn_other : (n : ℕ) (w : Sync) → is_online w.state ≡ false → warn n w ≡ w
unfolding warn
warn_other n w o = rw o refl
