-- ===== src/SettingsFile/Commands.antt =====
-- What changes the settings file: the `write` functions of apps/desktop/src/main/settings.ts, the migration of the older
-- files, and the handlers of apps/desktop/src/main/main.ts that call them.
use church_presenter.Common.{
  ℕ, String, not, ◌&&◌, Option, none, some, List, [], ◌∷◌, map, is_some, or_else, if◌then◌else◌,
}
use church_presenter.Ipc.{PerScreen, ProjectionState}
use church_presenter.Profiles.{
  ScreenPrefs, some_screen, is_filled, build_projection_snapshot_from_runtime,
}
use church_presenter.Json.{Value, arr, obj, array, get}
use church_presenter.Sanitizers.{
  Shortcuts, PlanTemplate, string_of, named, sanitize_projection_config,
  sanitize_shortcut_overrides, sanitize_plan_templates,
}
use church_presenter.SettingsFile.{
  Theme, read_theme, SettingsConfig, read_settings_config, patch_settings_config,
  shortcuts_properties, template_value, settings_version,
}

-- The older files, files.config.json and projection.config.json; `none` where a file is missing or is no JSON.
pub record Legacy : Type 0 where
  pub files : Option Value
  pub projection : Option Value

-- The library directory of the older file. A value that is neither a text nor true counts as none wherever it is read.
unfoldable pub read_legacy_files_config : Option Value → Option String
read_legacy_files_config (some (obj rec)) = string_of (get "libraryDir" rec)
read_legacy_files_config _ = none

unfoldable pub read_legacy_projection_config : Option Value → Option ScreenPrefs
read_legacy_projection_config none = none
read_legacy_projection_config (some v) = sanitize_projection_config v

-- `screens && Object.keys(screens).length > 0`
unfoldable pub given_screens : Option ScreenPrefs → Option ScreenPrefs
given_screens none = none
given_screens (some p) = some_screen p

unfoldable pub migrate_library_dir : Legacy → Option String → Option String
migrate_library_dir old dir =
    let found = read_legacy_files_config old.files in
    if not (is_filled dir) && is_filled found then found else dir

unfoldable pub migrate_projection : Legacy → Option ScreenPrefs → Option ScreenPrefs
migrate_projection old projection =
    let found = read_legacy_projection_config old.projection in
    if not (is_some (given_screens projection)) && is_some (given_screens found)
    then found
    else projection

-- The patch of `migrateLegacySettingsIfNeeded`. The version is set whether anything else changes or not.
unfoldable pub migrate : Legacy → SettingsConfig → SettingsConfig
migrate old cfg = record cfg {
  library_dir = migrate_library_dir old cfg.library_dir;
  projection = migrate_projection old cfg.projection;
  version = settings_version;
}

-- `Date.now()` gives `clock k` for the profile `k` of the file.
module _ (clock : ℕ → ℕ) where
  unfoldable pub write_app_config : Theme → Option Value → Option Value
  write_app_config theme = patch_settings_config clock (λ cfg. record cfg { theme = some theme })

  unfoldable pub write_files_config : String → Option Value → Option Value
  write_files_config dir =
      patch_settings_config clock (λ cfg. record cfg { library_dir = some dir })

  unfoldable pub write_projection_config : ScreenPrefs → Option Value → Option Value
  write_projection_config screens =
      patch_settings_config clock (λ cfg. record cfg { projection = some screens })

  unfoldable pub write_shortcuts_config : Value → Option Value → Option Value
  write_shortcuts_config v =
      patch_settings_config clock
        (λ cfg. record cfg { shortcuts = some (sanitize_shortcut_overrides v) })

  unfoldable pub write_templates_config : Value → Option Value → Option Value
  write_templates_config v =
      patch_settings_config clock
        (λ cfg. record cfg { templates = some (sanitize_plan_templates v) })

  unfoldable pub migrate_legacy_settings_if_needed : Legacy → Option Value → Option Value
  migrate_legacy_settings_if_needed old = patch_settings_config clock (migrate old)

  -- What the handlers `settings:get…` return.
  unfoldable pub read_app_config : Option Value → Option Theme
  read_app_config file = (read_settings_config clock file).theme

  unfoldable pub read_shortcuts_config : Option Value → Shortcuts
  read_shortcuts_config file = or_else (read_settings_config clock file).shortcuts []

  unfoldable pub read_templates_config : Option Value → List PlanTemplate
  read_templates_config file = or_else (read_settings_config clock file).templates []

-- The handlers that write one section of the file, and the calls of `writeFilesConfig` and of `writeProjectionConfig`
-- with a snapshot of the screens. The handlers that make these calls go on with the profiles: see Profiles.
pub data SettingsCommand : Type 0 where
  set_theme set_shortcuts set_templates : Value → SettingsCommand
  set_library_dir : String → SettingsCommand
  set_projection : PerScreen ProjectionState → SettingsCommand

-- The file after one of them. `settings:setTheme` refuses what is no theme; the handlers of shortcuts and templates
-- sanitize before the `write` functions do.
unfoldable pub run_settings_command : (ℕ → ℕ) → SettingsCommand → Option Value → Option Value
run_settings_command clock (set_theme raw) file = elim (named read_theme raw) [
  | none ↦ file
  | some theme ↦ write_app_config clock theme file
]
run_settings_command clock (set_shortcuts raw) file =
    write_shortcuts_config clock (obj (shortcuts_properties (sanitize_shortcut_overrides raw))) file
run_settings_command clock (set_templates raw) file =
    write_templates_config clock (arr (array (map template_value (sanitize_plan_templates raw))))
      file
run_settings_command clock (set_library_dir path) file = write_files_config clock path file
run_settings_command clock (set_projection states) file =
    write_projection_config clock (build_projection_snapshot_from_runtime states) file

-- A sequence of them, each with its readings of the time.
unfoldable pub run_settings_commands :
    List ((ℕ → ℕ) × SettingsCommand) → Option Value → Option Value
run_settings_commands [] file = file
run_settings_commands ((clock, command) ∷ rest) file =
    run_settings_commands rest (run_settings_command clock command file)
