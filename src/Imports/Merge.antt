-- ===== src/Imports/Merge.antt =====
-- The two ways of apps/desktop/src/main/ipc/data.ts to write what was read, and what they report.
use church_presenter.Common.{
  ℕ, suc, Bool, not, some, List, [], ◌∷◌, ◌++◌, is_empty, length, if◌then◌else◌,
}
use church_presenter.Common.Outcome.{Outcome, done, thrown, ◌>>=◌}
use church_presenter.RuntimeValidation.{Problem}
use church_presenter.RuntimeValidation.Names.{Atomicity, entity, strict}
use church_presenter.Sync.{Tables}
use church_presenter.Imports.{
  Calendar, NormalizedSong, NormalizedPlan, DatabaseError, no_backup, refused, of_song, of_plan,
  ImportError,
}
use church_presenter.Imports.Write.{Draws, create_song_with_blocks, create_plan_with_items}

-- The loop of a transaction over all entries, with their places.
module _ {A : Type 0} (create : ℕ → A → Tables → Outcome DatabaseError Tables) where
  unfoldable pub create_all : ℕ → List A → Tables → Outcome DatabaseError Tables
  create_all n [] tables = done tables
  create_all n (a ∷ rest) tables = create n a tables >>= create_all (suc n) rest

  -- A transaction for each entry: a refused one leaves the tables, and adds an error.
  unfoldable pub create_each :
      (A → DatabaseError → ImportError) → ℕ → List A → Tables → Tables × ℕ × List ImportError
  create_each error n [] tables = (tables, 0, [])
  create_each error n (a ∷ rest) tables = elim (create n a tables) [
    | done after ↦
        let (no_properties, count, errors) = create_each error (suc n) rest after in
        (no_properties, suc count, errors)
    | thrown why ↦
        let (no_properties, count, errors) = create_each error (suc n) rest tables in
        (no_properties, count, error a why ∷ errors)
  ]

-- Why a file is no file with all data.
pub data FileError : Type 0 where
  not_json not_an_object unsupported_kind unsupported_version payload_not_an_object : FileError

pub record Counts : Type 0 where
  pub songs : ℕ
  pub plans : ℕ

-- `DataMergeImportOutcome`, and the results of the handler before a transaction. `imported` has the flag `partial`.
pub data ImportResult : Type 0 where
  imported : Bool → Counts → List ImportError → ImportResult
  rolled_back : DatabaseError → ImportResult
  invalid_payload : Problem → ImportResult
  invalid_file : FileError → ImportResult
  canceled : ImportResult

abbrev pub song_error : NormalizedSong → DatabaseError → ImportError
song_error s why = record { kind = of_song; title = some s.title; reason = refused why }

abbrev pub plan_error : NormalizedPlan → DatabaseError → ImportError
plan_error p why = record { kind = of_plan; title = some p.title; reason = refused why }

module _ (calendar : Calendar) (draws : Draws) where
  -- All songs and then all plans in one transaction.
  unfoldable pub create_data :
      List NormalizedSong → List NormalizedPlan → Tables → Outcome DatabaseError Tables
  create_data songs plans tables =
      create_all (create_song_with_blocks draws) 0 songs tables
      >>= create_all (create_plan_with_items calendar draws) 0 plans

  abbrev pub settle :
      Tables → Outcome DatabaseError Tables → Counts → List ImportError → Tables × ImportResult
  settle before (thrown why) counts errors = (before, rolled_back why)
  settle before (done after) counts errors = (after, imported (not (is_empty errors)) counts errors)

  abbrev pub all_counts : List NormalizedSong → List NormalizedPlan → Counts
  all_counts songs plans = record { songs = length songs; plans = length plans }

  unfoldable pub import_normalized_data_merge :
      List NormalizedSong
      → List NormalizedPlan
      → Atomicity
      → List ImportError
      → Tables
      → Tables × ImportResult
  import_normalized_data_merge songs plans strict errors tables =
      settle tables (create_data songs plans tables) (all_counts songs plans) errors
  import_normalized_data_merge songs plans entity errors tables =
      let (after_songs, song_count, song_errors) =
        create_each (create_song_with_blocks draws) song_error 0 songs tables in
      let (after_plans, plan_count, plan_errors) =
        create_each (create_plan_with_items calendar draws) plan_error 0 plans after_songs in
      let all = errors ++ (song_errors ++ plan_errors) in
      (
        after_plans,
        imported (not (is_empty all)) (record { songs = song_count; plans = plan_count }) all,
      )

  -- The tables are emptied and filled in one transaction, after a copy of the database file was made.
  unfoldable pub import_replace :
      Bool
      → List NormalizedSong
      → List NormalizedPlan
      → List ImportError
      → Tables
      → Tables × ImportResult
  import_replace backup_fails songs plans errors tables =
      if backup_fails
      then (tables, rolled_back no_backup)
      else settle tables (create_data songs plans (record { songs = []; plans = [] }))
          (all_counts songs plans) errors
