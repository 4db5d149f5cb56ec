-- ===== src/Tests/SettingsFile.antt =====
-- Runs on the settings file.
use church_presenter.Common.Texts.{trim}
use church_presenter.Common.{ℕ, pos, ◌≡◌, refl, Option, none, some, List, [], ◌∷◌}
use church_presenter.Json.{
  Value, null, num, str, arr, obj, element, no_elements, property, no_properties, ones, elements,
  get,
}
use church_presenter.Sanitizers.{
  sanitize_shortcut_overrides, sanitize_settings_profile, bindings_of, directory, files_of, filled,
  filled_trimmed, named, profile_of, sanitize_key_binding, sanitize_mirrors_config,
  sanitize_projection_config, screens_of, shortcuts_of, sift, truncated,
}
use church_presenter.SettingsFile.{
  dark, settings_version, read_settings_config, write_settings_config, at_least_one, settings_of,
  patch_settings_config, read_theme, settings_value, theme_name, theme_of, theme_value,
}
use church_presenter.SettingsFile.RoundTrip.{read_settings_config_twice}
use church_presenter.SettingsFile.Commands.{
  Legacy, migrate, migrate_legacy_settings_if_needed, SettingsCommand, set_theme, set_shortcuts,
  run_settings_commands, run_settings_command, read_app_config, write_app_config,
}
use church_presenter.SettingsFile.Refinement.{meanings, run_settings_commands-meanings}

-- One binding has no key, and one action has no binding left.
abbrev raw_shortcuts : Value
raw_shortcuts = obj (
    property "next"
      (arr (
        element (obj (property "key" (str "n") no_properties))
          (element (obj (property "key" (str "") no_properties)) no_elements)))
      (property "previous" (arr no_elements) no_properties))

sanitize_shortcut_overrides_test :
    sanitize_shortcut_overrides raw_shortcuts
    ≡ ("next", record { key = "n"; ctrl_key = none; shift_key = none } ∷ []) ∷ []
unfolding sanitize_shortcut_overrides shortcuts_of bindings_of sift elements sanitize_key_binding
    named get filled
sanitize_shortcut_overrides_test = refl

-- A profile without times, whose name has white space at its ends.
abbrev raw_profile : Value
raw_profile = obj (
    property "id" (str "p1") (
      property "name" (str " Culte ")
        (property "files" (obj (property "libraryDir" (str "  ") no_properties)) no_properties)))

sanitize_settings_profile_test :
    sanitize_settings_profile 7 raw_profile
    ≡ some record {
      id = "p1";
      name = "Culte";
      library_dir = none;
      projection = none;
      mirrors = none;
      created_at = pos 7;
      updated_at = pos 7;
    }
unfolding sanitize_settings_profile profile_of named get filled_trimmed filled trim files_of
    sanitize_projection_config sanitize_mirrors_config truncated directory screens_of
sanitize_settings_profile_test = refl

abbrev old_file : Option Value
old_file = some (
    obj (
      property "version" (num (ones 4)) (
        property "app" (obj (property "theme" (str "light") no_properties)) (
          property "shortcuts" raw_shortcuts (
            property "profiles"
              (obj (
                property "activeProfileId" (str "p1")
                  (property "entries" (arr (element raw_profile no_elements)) no_properties)))
              no_properties)))))

abbrev clock_of : ℕ → ℕ → ℕ
clock_of time k = time

read_settings_config_test : (read_settings_config (clock_of 5) old_file).version ≡ pos 4
unfolding read_settings_config settings_of truncated get at_least_one
read_settings_config_test = refl

abbrev older : Legacy
older = record {
  files = some (obj (property "libraryDir" (str "/media") no_properties));
  projection = none;
}

abbrev some_commands : List ((ℕ → ℕ) × SettingsCommand)
some_commands =
    (clock_of 6, set_theme (str "dark"))
    ∷ (clock_of 7, set_theme null)
    ∷ (clock_of 8, set_shortcuts raw_shortcuts)
    ∷ []

run_settings_command_test :
    read_app_config (clock_of 9) (run_settings_command (clock_of 6) (set_theme (str "dark")) none)
    ≡ some dark
unfolding run_settings_command read_app_config read_settings_config named read_theme
    write_app_config patch_settings_config write_settings_config settings_of settings_value theme_of
    get theme_value theme_name
run_settings_command_test = refl

read_settings_config_twice_example :
    read_settings_config
      (clock_of 9)
      (write_settings_config (read_settings_config (clock_of 5) old_file))
    ≡ record (read_settings_config (clock_of 5) old_file) { version = settings_version }
read_settings_config_twice_example = read_settings_config_twice (clock_of 5) (clock_of 9) old_file

run_settings_commands-meanings_example :
    read_settings_config (clock_of 9) (
      run_settings_commands some_commands
        (migrate_legacy_settings_if_needed (clock_of 5) older old_file))
    ≡ record (meanings some_commands (migrate older (read_settings_config (clock_of 5) old_file))) {
      version = settings_version;
    }
run_settings_commands-meanings_example =
    run_settings_commands-meanings (clock_of 5) (clock_of 9) older some_commands old_file
