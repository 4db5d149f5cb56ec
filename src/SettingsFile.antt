-- ===== src/SettingsFile.antt =====
-- The settings file: apps/desktop/src/main/settings.ts, settings.json and the older files that it replaces.
pub mod Bindings
pub mod Screens
pub mod Entries
pub mod RoundTrip
pub mod Commands
pub mod Refinement
use church_presenter.Common.{
  ℕ, ℤ, pos, negsuc, String, Bool, true, false, ◌||◌, not, ◌≡◌, refl, Option, none, some, List, [],
  ◌∷◌, map, str_eq, if◌then◌else◌, or_else, is_some, leb,
}
use mathlib.Core.Option
use church_presenter.Ipc.{Number, MirrorMode, free, mirror, PerScreen, ProjectionState}
use church_presenter.PlanKinds.{kind_name}
use church_presenter.RuntimeValidation.Names.{
  screen_key_name, background_fill_name, foreground_fill_name, logo_position_name,
}
use church_presenter.Profiles.{Profile, ProfilesState, Prefs, ScreenPrefs, is_filled}
use church_presenter.Json.{
  Value, null, num, str, bool, arr, obj, Properties, no_properties, property, get, array, trunc,
  ones, integer, given,
}
use church_presenter.Sanitizers.{
  KeyBinding, Shortcuts, TemplateItem, PlanTemplate, string_of, named, finite_of, truncated,
  files_of, bindings_of, sanitize_projection_config, sanitize_shortcut_overrides,
  sanitize_plan_templates, sanitize_profiles_config,
}

pub data Theme : Type 0 where
  light dark : Theme

unfoldable pub theme_name : Theme → String
theme_name light = "light"
theme_name dark = "dark"

unfoldable pub read_theme : String → Option Theme
read_theme s = if str_eq s "light" then some light else if str_eq s "dark" then some dark else none

-- `SettingsConfig`: `files` and `app` have one property each.
pub record SettingsConfig : Type 0 where
  pub version : ℤ
  pub theme : Option Theme
  pub library_dir : Option String
  pub projection : Option ScreenPrefs
  pub shortcuts : Option Shortcuts
  pub templates : Option (List PlanTemplate)
  pub profiles : Option ProfilesState

abbrev pub settings_version : ℤ
settings_version = pos 1

abbrev pub no_settings : SettingsConfig
no_settings = record {
  version = settings_version;
  theme = none;
  library_dir = none;
  projection = none;
  shortcuts = none;
  templates = none;
  profiles = none;
}

-- `Math.max(1, version)`
unfoldable pub at_least_one : ℤ → ℤ
at_least_one (pos n) = if leb 1 n then pos n else pos 1
at_least_one (negsuc n) = pos 1

unfoldable pub theme_of : Value → Option Theme
theme_of (obj rec) = named read_theme (get "theme" rec)
theme_of _ = none

unfoldable pub shortcuts_given : Value → Option Shortcuts
shortcuts_given (obj rec) = some (sanitize_shortcut_overrides (obj rec))
shortcuts_given _ = none

unfoldable pub templates_given : Value → Option (List PlanTemplate)
templates_given (arr xs) = some (sanitize_plan_templates (arr xs))
templates_given _ = none

-- What is read of the value that the file holds. `Date.now()` gives `clock k` for the profile `k`.
unfoldable pub settings_of : (ℕ → ℕ) → Value → SettingsConfig
settings_of clock (obj rec) = record {
  version = or_else (Option.map at_least_one (truncated (get "version" rec))) settings_version;
  theme = theme_of (get "app" rec);
  library_dir = files_of some (get "files" rec);
  projection = sanitize_projection_config (get "projection" rec);
  shortcuts = shortcuts_given (get "shortcuts" rec);
  templates = templates_given (get "templates" rec);
  profiles = sanitize_profiles_config clock (get "profiles" rec);
}
settings_of clock _ = no_settings

-- A file that is missing or is no JSON is `none`.
unfoldable pub read_settings_config : (ℕ → ℕ) → Option Value → SettingsConfig
read_settings_config clock none = no_settings
read_settings_config clock (some v) = settings_of clock v

-- ---------------------------------------------------------------- what is written

unfoldable pub binding_value : KeyBinding → Value
binding_value b = obj (
    property "key" (str b.key) (
      property "ctrlKey" (given bool b.ctrl_key)
        (property "shiftKey" (given bool b.shift_key) no_properties)))

unfoldable pub shortcuts_properties : Shortcuts → Properties
shortcuts_properties [] = no_properties
shortcuts_properties ((action, bindings) ∷ rest) =
    property action (arr (array (map binding_value bindings))) (shortcuts_properties rest)

abbrev pub nullable : Option String → Value
nullable none = null
nullable (some s) = str s

unfoldable pub template_item_value : TemplateItem → Value
template_item_value it = obj (
    property "kind" (str (kind_name it.kind)) (
      property "title" (given nullable it.title) (
        property "content" (given nullable it.content) (
          property "refId" (given nullable it.ref_id) (
            property "refSubId" (given nullable it.ref_sub_id)
              (property "mediaPath" (given nullable it.media_path) no_properties))))))

unfoldable pub template_value : PlanTemplate → Value
template_value t = obj (
    property "id" (str t.id) (
      property "name" (str t.name) (
        property "items" (arr (array (map template_item_value t.items)))
          (property "createdAt" (str t.created_at) no_properties))))

unfoldable pub prefs_value : Prefs → Value
prefs_value p = obj (
    property "textScale" (given num p.text_scale) (
      property "titleTextScale" (given num p.title_text_scale) (
        property "textFont" (given str p.text_font) (
          property "textFontPath" (given str p.text_font_path) (
            property "background" (given str p.background) (
              property "backgroundMode"
                (given (λ m. str (background_fill_name m)) p.background_mode)
                (property "backgroundGradientFrom" (given str p.background_gradient_from) (
                  property "backgroundGradientTo" (given str p.background_gradient_to) (
                    property "backgroundGradientAngle" (given num p.background_gradient_angle) (
                      property "backgroundImage" (given str p.background_image) (
                        property "logoPath" (given str p.logo_path) (
                          property "logoPosition"
                            (given (λ l. str (logo_position_name l)) p.logo_position)
                            (property "logoOpacity" (given num p.logo_opacity) (
                              property "logoScale" (given num p.logo_scale) (
                                property "foreground" (given str p.foreground) (
                                  property "foregroundMode"
                                    (given (λ m. str (foreground_fill_name m)) p.foreground_mode)
                                    (property "foregroundGradientFrom"
                                      (given str p.foreground_gradient_from)
                                      (property "foregroundGradientTo"
                                        (given str p.foreground_gradient_to)
                                        no_properties))))))))))))))))))

unfoldable pub screens_value {ℓ} : {A : Type ℓ} → (A → Value) → PerScreen (Option A) → Value
screens_value write p = obj (
    property "A" (given write p.at_a)
      (property "B" (given write p.at_b) (property "C" (given write p.at_c) no_properties)))

unfoldable pub projection_value : ScreenPrefs → Value
projection_value p = obj (property "screens" (screens_value prefs_value p) no_properties)

unfoldable pub mirror_value : MirrorMode → Value
mirror_value free = obj (property "kind" (str "FREE") no_properties)
mirror_value (mirror from) =
    obj
      (property "kind" (str "MIRROR") (property "from" (str (screen_key_name from)) no_properties))

unfoldable pub files_value : String → Value
files_value dir = obj (property "libraryDir" (str dir) no_properties)

unfoldable pub profile_value : Profile → Value
profile_value entry = obj (
    property "id" (str entry.id) (
      property "name" (str entry.name) (
        property "createdAt" (num (integer entry.created_at)) (
          property "updatedAt" (num (integer entry.updated_at)) (
            property "files" (given files_value entry.library_dir) (
              property "projection" (given projection_value entry.projection) (
                property "mirrors" (given (screens_value mirror_value) entry.mirrors)
                  no_properties)))))))

unfoldable pub profiles_value : ProfilesState → Value
profiles_value state = obj (
    property "activeProfileId" (nullable state.active)
      (property "entries" (arr (array (map profile_value state.entries))) no_properties))

unfoldable pub theme_value : Theme → Value
theme_value theme = obj (property "theme" (str (theme_name theme)) no_properties)

-- `JSON.parse(JSON.stringify({ ...cfg, version: SETTINGS_VERSION }))`
unfoldable pub settings_value : SettingsConfig → Value
settings_value cfg = obj (
    property "version" (num (integer settings_version)) (
      property "app" (given theme_value cfg.theme) (
        property "files" (given files_value cfg.library_dir) (
          property "projection" (given projection_value cfg.projection) (
            property "shortcuts" (given (λ s. obj (shortcuts_properties s)) cfg.shortcuts) (
              property "templates" (given (λ ts. arr (array (map template_value ts))) cfg.templates)
                (property "profiles" (given profiles_value cfg.profiles) no_properties)))))))

-- `writeSettingsConfig`: the file afterwards.
unfoldable pub write_settings_config : SettingsConfig → Option Value
write_settings_config cfg = some (settings_value cfg)

-- `patchSettingsConfig`: the queue lets one cycle of reading and writing end before the next begins.
unfoldable pub patch_settings_config :
    (ℕ → ℕ) → (SettingsConfig → SettingsConfig) → Option Value → Option Value
patch_settings_config clock patcher file =
    write_settings_config (patcher (read_settings_config clock file))
