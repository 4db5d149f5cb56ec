-- ===== src/Imports/Files.antt =====
-- The migration of a file with all data, and the handler `data:importAll`.
use church_presenter.Common.{
  ℕ, ℤ, pos, negsuc, String, Bool, false, not, ◌||◌, Option, none, some, or_else, List, [], ◌∷◌,
  ◌++◌, map, str_eq, ltb, is_some, if◌then◌else◌,
}
use church_presenter.Common.Outcome.{Outcome, done, thrown}
use church_presenter.Json.{Value, obj, num, Properties, get, has, trunc}
use church_presenter.RuntimeValidation.Names.{ImportMode, merge, replace, Atomicity}
use church_presenter.RuntimeValidation.Plans.{ImportPayload, parse_data_import_payload}
use church_presenter.Sync.{Tables}
use church_presenter.Imports.{
  Calendar, NormalizedSong, NormalizedPlan, Reason, legacy_version, legacy_without_metadata,
  ImportError, validation, as_string_like, normalize_songs, normalize_plans,
}
use church_presenter.Imports.Write.{Draws}
use church_presenter.Imports.Merge.{
  FileError, ImportResult, invalid_payload, invalid_file, canceled, import_normalized_data_merge,
  import_replace, not_json, not_an_object, unsupported_kind, unsupported_version,
  payload_not_an_object,
}

pub record Migrated : Type 0 where
  pub songs : Value
  pub plans : Value
  pub schema_version : ℤ
  pub warnings : List Reason

abbrev pub export_kind : String
export_kind = "CHURCH_PRESENTER_EXPORT"

abbrev schema_version_of : Value → Option ℤ
schema_version_of (num n) = some (trunc n)
schema_version_of _ = none

abbrev is_other_kind : Option String → Bool
is_other_kind none = false
is_other_kind (some kind) = not (str_eq kind export_kind)

abbrev is_above : ℕ → ℤ → Bool
is_above n (pos k) = ltb n k
is_above n (negsuc k) = false

abbrev migrated : Properties → ℤ → List Reason → Migrated
migrated payload version warnings = record {
  songs = get "songs" payload;
  plans = get "plans" payload;
  schema_version = version;
  warnings = warnings;
}

abbrev current_payload : Value → ℤ → Outcome FileError Migrated
current_payload (obj payload) version = done (migrated payload version [])
current_payload _ version = thrown payload_not_an_object

abbrev legacy_payload : Properties → Value → Properties
legacy_payload raw (obj payload) = payload
legacy_payload raw _ = raw

unfoldable pub migrate_fields : Properties → Outcome FileError Migrated
migrate_fields raw =
    let kind = as_string_like (get "kind" raw) in
    let version = schema_version_of (get "schemaVersion" raw) in
    let detected = or_else version (pos 1) in
    if is_some version || is_some kind || has "payload" raw
    then (if is_other_kind kind
        then thrown unsupported_kind
        else if is_above 2 detected
        then thrown unsupported_version
        else if is_above 1 detected
        then current_payload (get "payload" raw) detected
        else done
            (migrated (legacy_payload raw (get "payload" raw)) detected (legacy_version ∷ [])))
    else done (migrated raw (pos 1) (legacy_without_metadata ∷ []))

unfoldable pub migrate_imported_data_payload : Value → Outcome FileError Migrated
migrate_imported_data_payload (obj raw) = migrate_fields raw
migrate_imported_data_payload _ = thrown not_an_object

-- What the dialogue and the file give: nothing, a file that is no JSON, or a value.
pub data FileChoice : Type 0 where
  nothing_chosen unreadable : FileChoice
  chosen : Value → FileChoice

module _ (calendar : Calendar) (draws : Draws) (backup_fails : Bool) where
  abbrev pub write_in :
      ImportMode
      → Atomicity
      → List NormalizedSong
      → List NormalizedPlan
      → List ImportError
      → Tables
      → Tables × ImportResult
  write_in replace atomicity songs plans errors tables =
      import_replace calendar draws backup_fails songs plans errors tables
  write_in merge atomicity songs plans errors tables =
      import_normalized_data_merge calendar draws songs plans atomicity errors tables

  unfoldable pub import_value : ImportPayload → Value → Tables → Tables × ImportResult
  import_value options file tables = elim (migrate_imported_data_payload file) [
    | thrown why ↦ (tables, invalid_file why)
    | done data' ↦
        let (songs, song_errors) = normalize_songs data'.songs in
        let (plans, plan_errors) = normalize_plans calendar data'.plans in
        let warnings =
          map (λ why. record { kind = validation; title = none; reason = why }) data'.warnings in
        write_in options.mode options.atomicity songs plans
          (warnings ++ (song_errors ++ plan_errors)) tables
  ]

  abbrev pub import_choice : ImportPayload → FileChoice → Tables → Tables × ImportResult
  import_choice options nothing_chosen tables = (tables, canceled)
  import_choice options unreadable tables = (tables, invalid_file not_json)
  import_choice options (chosen file) tables = import_value options file tables

  -- `data:importAll`
  unfoldable pub import_all : Value → FileChoice → Tables → Tables × ImportResult
  import_all raw choice tables = elim (parse_data_import_payload raw) [
    | thrown why ↦ (tables, invalid_payload why)
    | done options ↦ import_choice options choice tables
  ]
