-- ===== src/SettingsFile/RoundTrip.antt =====
-- The settings file, written and read again.
use church_presenter.Common.{ℕ, String, ◌≡◌, refl, ap, Option, none, some, List, map}
use church_presenter.Imports.Songs.{elements-array}
use church_presenter.Json.{Value, arr, obj, get, elements, given, integer, array}
use church_presenter.Sanitizers.{
  Shortcuts, PlanTemplate, named, truncated, files_of, sanitize_projection_config,
  sanitize_plan_template, sanitize_plan_templates, sanitize_shortcut_overrides, shortcuts_of,
  sanitize_profiles_config, sift,
}
use church_presenter.SettingsFile.{
  Theme, light, dark, theme_name, read_theme, SettingsConfig, settings_version, at_least_one,
  theme_of, shortcuts_given, templates_given, settings_of, read_settings_config,
  shortcuts_properties, template_value, projection_value, files_value, profiles_value, theme_value,
  settings_value, write_settings_config,
}
use church_presenter.SettingsFile.Bindings.{
  given-Back, shortcuts_of_twice, sift_twice, sanitize_plan_template-Back,
}
use church_presenter.SettingsFile.Screens.{sanitize_projection_config-Back}
use church_presenter.SettingsFile.Entries.{sanitize_profiles_twice}

pub theme_of-given : (o : Option Theme) → theme_of (given theme_value o) ≡ o
unfolding theme_of theme_value theme_name read_theme named get
theme_of-given none = refl
theme_of-given (some light) = refl
theme_of-given (some dark) = refl

pub files_of-given : (o : Option String) → files_of some (given files_value o) ≡ o
unfolding files_of files_value named get
files_of-given none = refl
files_of-given (some dir) = refl

abbrev pub shortcuts_value : Option Shortcuts → Value
shortcuts_value o = given (λ s. obj (shortcuts_properties s)) o

abbrev pub templates_value : Option (List PlanTemplate) → Value
templates_value o = given (λ ts. arr (array (map template_value ts))) o

pub sanitize_shortcuts_twice :
    (v : Value)
    → shortcuts_given (shortcuts_value (some (sanitize_shortcut_overrides v)))
      ≡ some (sanitize_shortcut_overrides v)
unfolding shortcuts_given sanitize_shortcut_overrides shortcuts_properties shortcuts_of
sanitize_shortcuts_twice (obj rec) = ap some (shortcuts_of_twice rec)
sanitize_shortcuts_twice _ = refl

shortcuts_given_twice :
    (v : Value) → shortcuts_given (shortcuts_value (shortcuts_given v)) ≡ shortcuts_given v
unfolding shortcuts_given
shortcuts_given_twice (obj rec) = sanitize_shortcuts_twice (obj rec)
shortcuts_given_twice _ = refl

pub sanitize_templates_twice :
    (v : Value)
    → templates_given (templates_value (some (sanitize_plan_templates v)))
      ≡ some (sanitize_plan_templates v)
unfolding templates_given sanitize_plan_templates sift elements array
sanitize_templates_twice (arr xs) = ap some (
    rw (elements-array (map template_value (sift sanitize_plan_template (elements xs))))
      (sift_twice sanitize_plan_template template_value (elements xs) sanitize_plan_template-Back))
sanitize_templates_twice _ = refl

templates_given_twice :
    (v : Value) → templates_given (templates_value (templates_given v)) ≡ templates_given v
unfolding templates_given
templates_given_twice (arr xs) = sanitize_templates_twice (arr xs)
templates_given_twice _ = refl

-- The sections of the settings that are read again as they are: the projection, the shortcuts, the templates and the
-- profiles.
abbrev pub IsReadable : (ℕ → ℕ) → SettingsConfig → Type 0
IsReadable clock cfg =
    (sanitize_projection_config (given projection_value cfg.projection) ≡ cfg.projection)
    × (shortcuts_given (shortcuts_value cfg.shortcuts) ≡ cfg.shortcuts)
    × (templates_given (templates_value cfg.templates) ≡ cfg.templates)
    × (sanitize_profiles_config clock (given profiles_value cfg.profiles) ≡ cfg.profiles)

pub read_settings_config-write :
    (clock : ℕ → ℕ) (cfg : SettingsConfig)
    → IsReadable clock cfg
    → read_settings_config clock (write_settings_config cfg)
      ≡ record cfg { version = settings_version }
unfolding read_settings_config write_settings_config settings_value settings_of get truncated
    integer at_least_one
read_settings_config-write clock cfg r =
    rw (theme_of-given cfg.theme, files_of-given cfg.library_dir, r.0, r.1, r.2, r.3) refl

settings_of-IsReadable :
    (first second : ℕ → ℕ) (v : Value) → IsReadable second (settings_of first v)
unfolding settings_of shortcuts_given templates_given sanitize_projection_config
    sanitize_profiles_config
settings_of-IsReadable first second (obj rec) = (
  given-Back sanitize_projection_config projection_value
      (sanitize_projection_config (get "projection" rec)) refl
      (sanitize_projection_config-Back (get "projection" rec)),
  shortcuts_given_twice (get "shortcuts" rec),
  templates_given_twice (get "templates" rec),
  given-Back (sanitize_profiles_config second) profiles_value
      (sanitize_profiles_config first (get "profiles" rec)) refl
      (sanitize_profiles_twice first second (get "profiles" rec)),
)
settings_of-IsReadable first second _ = (refl, refl, refl, refl)

pub read_settings_config-IsReadable :
    (first second : ℕ → ℕ) (file : Option Value)
    → IsReadable second (read_settings_config first file)
unfolding read_settings_config shortcuts_given templates_given sanitize_projection_config
    sanitize_profiles_config
read_settings_config-IsReadable first second none = (refl, refl, refl, refl)
read_settings_config-IsReadable first second (some v) = settings_of-IsReadable first second v

-- Whatever the settings file holds, if what is read of it is written and read again, at any time, it is the same but
-- for the version, which is then the current one.
pub read_settings_config_twice :
    (first second : ℕ → ℕ) (file : Option Value)
    → let cfg = read_settings_config first file in
      read_settings_config second (write_settings_config cfg)
      ≡ record cfg { version = settings_version }
read_settings_config_twice first second file =
    read_settings_config-write second (read_settings_config first file)
      (read_settings_config-IsReadable first second file)
