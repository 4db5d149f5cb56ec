-- ===== src/Tests/Sync.antt =====
-- Runs on the synchronisation.
use church_presenter.Common.{
  ℕ, ◌≡◌, refl, String, true, false, none, some, List, [], ◌∷◌, ◌++◌, find, keep, any,
}
use church_presenter.Songs.{Block, Song, are_orders_distinct}
use church_presenter.Sync.{
  PlanRow, Tables, Sync, Link, online, offline, syncing, state_change, conflict_warning,
  changed_since, check_and_reconnect, checked_connection, pulled, handle_events, pull,
  push_and_pull, push_offline_changes, push_row, push_rows, set_state, warn, write_or_count,
  is_song_refused,
}
use church_presenter.Tests.Songs.{song_with, two_blocks, written, told, two_blocks-written}
use church_presenter.Sync.Losses.{IsFresh, with_songs, check_and_reconnect-replace_blocks}
use church_presenter.Sync.Settled.{IsSettled, shown_after, handle_events-IsSettled}

abbrev song_row : String → String → ℕ → List Block → Song
song_row id title time blocks = record {
  id = id;
  title = title;
  artist = none;
  album = none;
  year = none;
  language = none;
  tags = none;
  is_deleted = false;
  created_at = 1;
  updated_at = time;
  blocks = blocks;
}

abbrev plan_row : String → ℕ → ℕ → PlanRow
plan_row id date time = record {
  plan = record {
    id = id;
    date = date;
    title = some "Culte";
    background_config = none;
    is_deleted = false;
  };
  updated_at = time;
  items = [];
}

abbrev tables : List Song → List PlanRow → Tables
tables songs plans = record { songs = songs; plans = plans }

abbrev offline_with : Tables → Tables → Sync
offline_with local server = record {
  local = local;
  server = server;
  last_pull_at = 10;
  last_push_at = 10;
  state = offline;
  sent = [];
}

-- A connection that does not break.
abbrev good_link : Link
good_link = record {
  is_configured = true;
  is_reachable = true;
  rows_left = none;
  pull_breaks = false;
  now = 50;
}

-- Offline, one song was changed that the server has, and one was made.
abbrev changed : Sync
changed =
    offline_with (tables (song_row "s1" "Gloire" 20 [] ∷ song_row "s2" "Saint" 21 [] ∷ []) [])
      (tables (song_row "s1" "Gloria" 15 [] ∷ []) [])

changed_run :
    (check_and_reconnect good_link changed).sent
    ≡ state_change syncing ∷ state_change online ∷ conflict_warning 1 ∷ []
unfolding check_and_reconnect push_and_pull push_offline_changes push_rows changed_since keep
    set_state push_row write_or_count find are_orders_distinct warn pull is_song_refused any
changed_run = refl

-- Two users made a plan for one day.
abbrev clash : Sync
clash = offline_with (tables [] (plan_row "p1" 7 20 ∷ [])) (tables [] (plan_row "p2" 7 12 ∷ []))

-- A song was made offline under a title that the server has.
abbrev same_title : Sync
same_title =
    offline_with (tables (song_row "s2" "Gloria" 20 [] ∷ []) [])
      (tables (song_row "s1" "Gloria" 15 [] ∷ []) [])

shown_nothing : shown_after offline [] ≡ offline
unfolding shown_after
shown_nothing = refl

handle_events-IsSettled_example :
    IsSettled offline (handle_events (checked_connection good_link ∷ pulled good_link ∷ []) changed)
handle_events-IsSettled_example =
    handle_events-IsSettled offline (checked_connection good_link ∷ pulled good_link ∷ []) changed
      (record { idle = λ e. cc; shown = shown_nothing })

-- The song of Tests/Songs, right after a pull.
abbrev fresh : Sync
fresh = offline_with (tables (song_with [] ∷ []) []) (tables (song_with [] ∷ []) [])

fresh-IsFresh : IsFresh fresh
fresh-IsFresh = record {
  same = refl;
  songs = (refl, tt);
  plans = tt;
  distinct_songs = (tt, tt);
  distinct_plans = tt;
}

check_and_reconnect-replace_blocks_example :
    let after = check_and_reconnect good_link (with_songs (written ∷ []) fresh) in
    (after.local ≡ fresh.server)
    × (after.server ≡ fresh.server)
    × (after.sent ≡ (fresh.sent ++ state_change syncing ∷ []) ++ (state_change online ∷ []))
check_and_reconnect-replace_blocks_example =
    check_and_reconnect-replace_blocks good_link fresh two_blocks (written ∷ []) (some told)
      fresh-IsFresh two_blocks-written refl refl refl refl
