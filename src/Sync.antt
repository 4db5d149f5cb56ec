-- ===== src/Sync.antt =====
-- The synchronisation with the PostgreSQL server: apps/desktop/src/main/sync, and its timers and channels in
-- apps/desktop/src/main/main.ts.
pub mod Merge
pub mod Growth
pub mod Reconnect
pub mod Outcomes
pub mod Losses
pub mod Settled
pub mod Blocked
pub mod Stuck
pub mod Titles
use church_presenter.Common.{
  ℕ, zero, suc, ◌+◌, ◌-◌, String, Bool, true, false, not, ◌&&◌, ◌||◌, Option, none, some, List, [],
  ◌∷◌, ◌++◌, str_eq, ltb, ◌==◌, if◌then◌else◌, any, find, keep,
}
use church_presenter.Songs.{Song, has_song_id, are_orders_distinct, sort_blocks}
use church_presenter.Plans.{Item, Plan, has_id, is_order_taken, sort_by_order}

-- A plan with its items and the time of the last change of its own row.
pub record PlanRow : Type 0 where
  pub plan : Plan
  pub updated_at : ℕ
  pub items : List Item

-- The tables of the local database, and of the server.
pub record Tables : Type 0 where
  pub songs : List Song
  pub plans : List PlanRow

pub data ConnectionState : Type 0 where
  online offline syncing sync_error : ConnectionState

pub data Message : Type 0 where
  state_change : ConnectionState → Message
  conflict_warning : ℕ → Message

pub record Sync : Type 0 where
  pub local : Tables
  pub server : Tables
  pub last_pull_at : ℕ
  pub last_push_at : ℕ
  pub state : ConnectionState
  pub sent : List Message

-- What the network does in one call: whether the server answers the first request, after how many rows of the push
-- the connection breaks (`none` if it does not), whether it breaks in the pull. `now` is the clock.
pub record Link : Type 0 where
  pub is_configured : Bool
  pub is_reachable : Bool
  pub rows_left : Option ℕ
  pub pull_breaks : Bool
  pub now : ℕ

-- The push of one table: the server's rows, the counts of the result, and whether it has thrown.
pub record Push (A : Type 0) : Type 0 where
  pub rows : List A
  pub pushed : ℕ
  pub overwritten : ℕ
  pub left : Option ℕ
  pub has_failed : Bool

abbrev pub is_broken : Option ℕ → Bool
is_broken none = false
is_broken (some n) = n == 0

abbrev one_less : Option ℕ → Option ℕ
one_less none = none
one_less (some n) = some (n - 1)

-- A table of rows with ids and times. `stored` is the row as the server writes it, `is_refused` what its
-- indexes and keys refuse.
pub record Table (A : Type 0) : Type 0 where
  pub id : A → String
  pub updated_at : A → ℕ
  pub stored : A → A
  pub is_refused : A → List A → Bool

module _ {A : Type 0} (t : Table A) where
  abbrev pub is_row : String → A → Bool
  is_row id row = str_eq (t.id row) id

  -- What is done with a local row, by the server's row of its id.
  unfoldable pub write_or_count : A → Push A → Option A → Push A
  write_or_count local run none =
      if t.is_refused local run.rows then record run { has_failed = true } else record run {
        rows = run.rows ++ t.stored local ∷ [];
        pushed = run.pushed + 1;
        left = one_less run.left;
      }
  write_or_count local run (some remote) =
      if ltb (t.updated_at remote) (t.updated_at local)
      then record run { overwritten = run.overwritten + 1; left = one_less run.left }
      else record run { left = one_less run.left }

  -- One round of a loop of `pushOfflineChanges`.
  unfoldable pub push_row : A → Push A → Push A
  push_row local run =
      if run.has_failed
      then run
      else if is_broken run.left
      then record run { has_failed = true }
      else write_or_count local run (find (is_row (t.id local)) run.rows)

  unfoldable pub push_rows : List A → Push A → Push A
  push_rows [] run = run
  push_rows (local ∷ rest) run = push_rows rest (push_row local run)

  -- `WHERE updatedAt > ?`. Both sides are taken as times, however the database stores them.
  unfoldable pub changed_since : ℕ → List A → List A
  changed_since time rows = keep (λ row. ltb time (t.updated_at row)) rows

abbrev pub is_title_taken : String → List Song → Bool
is_title_taken title rows = any (λ (other : Song). str_eq other.title title) rows

-- The server's unique indexes on the title of a song, and on the orders of its blocks. The server's tables are those
-- that apps/web/prisma/migrations makes; schema.pg.prisma of the desktop does not name the index on the title.
unfoldable pub is_song_refused : Song → List Song → Bool
is_song_refused song rows = is_title_taken song.title rows || not (are_orders_distinct song.blocks)

abbrev pub song_table : Table Song
song_table = record {
  id = λ song. song.id;
  updated_at = λ song. song.updated_at;
  stored = λ song. record song { blocks = sort_blocks song.blocks };
  is_refused = is_song_refused;
}

abbrev has_song_of : List Song → Item → Bool
has_song_of songs it = elim it.song_id [ none ↦ true | some id ↦ any (has_song_id id) songs ]

abbrev is_item_id_taken : Item → List PlanRow → Bool
is_item_id_taken it rows = any (λ row. any (has_id it.id) row.items) rows

unfoldable pub are_items_distinct : List Item → Bool
are_items_distinct [] = true
are_items_distinct (it ∷ rest) =
    not (any (λ other. has_id it.id other || (it.order == other.order)) rest)
    && are_items_distinct rest

abbrev pub is_plan_date_taken : ℕ → List PlanRow → Bool
is_plan_date_taken date rows = any (λ row. row.plan.date == date) rows

-- What the server's unique indexes and foreign keys refuse of a new plan, beside the id.
unfoldable pub is_plan_refused : List Song → PlanRow → List PlanRow → Bool
is_plan_refused songs row rows =
    is_plan_date_taken row.plan.date rows
    || not (are_items_distinct row.items)
    || any (λ it. is_item_id_taken it rows || not (has_song_of songs it)) row.items

abbrev pub plan_table : List Song → Table PlanRow
plan_table songs = record {
  id = λ row. row.plan.id;
  updated_at = λ row. row.updated_at;
  stored = λ row. record row { items = sort_by_order row.items };
  is_refused = is_plan_refused songs;
}

pub record PushResult : Type 0 where
  pub server : Tables
  pub overwritten : ℕ
  pub has_failed : Bool

abbrev pub start_push : {A : Type 0} → List A → Option ℕ → Push A
start_push rows left = record {
  rows = rows;
  pushed = 0;
  overwritten = 0;
  left = left;
  has_failed = false;
}

abbrev pub push_songs : Sync → Link → Push Song
push_songs w link =
    push_rows song_table (changed_since song_table w.last_pull_at w.local.songs)
      (start_push w.server.songs link.rows_left)

-- The run goes on with the plans.
abbrev pub start_plans : Sync → Push Song → Push PlanRow
start_plans w songs = record {
  rows = w.server.plans;
  pushed = songs.pushed;
  overwritten = songs.overwritten;
  left = songs.left;
  has_failed = songs.has_failed;
}

abbrev pub push_plans : Sync → Push Song → Push PlanRow
push_plans w songs =
    push_rows (plan_table songs.rows)
      (changed_since (plan_table songs.rows) w.last_pull_at w.local.plans) (start_plans w songs)

-- `pushOfflineChanges`: every row that the server lacks is written there, and the others are left.
unfoldable pub push_offline_changes : Sync → Link → PushResult
push_offline_changes w link =
    let songs = push_songs w link in
    let plans = push_plans w songs in
    record {
      server = record { songs = songs.rows; plans = plans.rows };
      overwritten = plans.overwritten;
      has_failed = plans.has_failed;
    }

unfoldable pub insert_songs : List Song → Tables → Tables
insert_songs [] tables = tables
insert_songs (song ∷ rest) tables =
    insert_songs rest (record tables { songs = tables.songs ++ song ∷ [] })

unfoldable pub insert_plans : List PlanRow → Tables → Tables
insert_plans [] tables = tables
insert_plans (row ∷ rest) tables =
    insert_plans rest (record tables { plans = tables.plans ++ row ∷ [] })

-- The transaction of `pullFromPostgres`: the local tables are emptied and the server's rows inserted.
unfoldable pub replace_all : Tables → Tables
replace_all server =
    insert_plans server.plans (insert_songs server.songs (record { songs = []; plans = [] }))

unfoldable pub set_state : ConnectionState → Sync → Sync
set_state state w = record w { state = state; sent = w.sent ++ state_change state ∷ [] }

-- The pull with what follows it: the time is saved and the state is ONLINE, or SYNC_ERROR.
unfoldable pub pull : Link → Sync → Sync
pull link w =
    if link.pull_breaks
    then set_state sync_error w
    else set_state online (record w { local = replace_all w.server; last_pull_at = link.now })

unfoldable pub initialize : Link → Sync → Sync
initialize link w =
    if not link.is_configured
    then set_state offline w
    else if link.is_reachable
    then pull link (set_state syncing w)
    else (let w' = set_state offline w in record w' { sent = w'.sent ++ state_change offline ∷ [] })

abbrev pub is_online : ConnectionState → Bool
is_online online = true
is_online _ = false

abbrev pub is_busy : ConnectionState → Bool
is_busy online = true
is_busy syncing = true
is_busy _ = false

-- The warning that follows a reconnection.
unfoldable pub warn : ℕ → Sync → Sync
warn overwritten w =
    if is_online w.state && ltb 0 overwritten
    then record w { sent = w.sent ++ conflict_warning overwritten ∷ [] }
    else w

-- The push and the pull of a reconnection, once the state is SYNCING. What the server has written before a failure
-- stays written.
unfoldable pub push_and_pull : Link → Sync → Sync
push_and_pull link w =
    let pushed = push_offline_changes w link in
    if pushed.has_failed
    then set_state sync_error (record w { server = pushed.server })
    else warn pushed.overwritten
        (pull link (record w { server = pushed.server; last_push_at = link.now }))

unfoldable pub check_and_reconnect : Link → Sync → Sync
check_and_reconnect link w =
    if is_busy w.state
    then w
    else if not link.is_reachable
    then w
    else push_and_pull link (set_state syncing w)

unfoldable pub periodic_pull : Link → Sync → Sync
periodic_pull link w = if is_online w.state then pull link (set_state syncing w) else w

-- What happens to the two databases: a call of the manager, a handler that changes the local tables, another
-- user's change of the server.
pub data Event : Type 0 where
  started checked_connection pulled : Link → Event
  edited others_edited : (Tables → Tables) → Event

unfoldable pub handle_event : Event → Sync → Sync
handle_event (started link) w = initialize link w
handle_event (checked_connection link) w = check_and_reconnect link w
handle_event (pulled link) w = periodic_pull link w
handle_event (edited change) w = record w { local = change w.local }
handle_event (others_edited change) w = record w { server = change w.server }

unfoldable pub handle_events : List Event → Sync → Sync
handle_events [] w = w
handle_events (event ∷ rest) w = handle_events rest (handle_event event w)
