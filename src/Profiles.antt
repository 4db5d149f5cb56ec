-- ===== src/Profiles.antt =====
-- The settings profiles: apps/desktop/src/main/settings.ts and the handlers `settings:*Profile` of
-- apps/desktop/src/main/main.ts.
pub mod Handlers
pub mod Normal
pub mod Store
use church_presenter.Common.{
  ℕ, zero, suc, ◌+◌, ℤ, pos, String, Bool, true, false, not, ◌&&◌, ◌||◌, Option, none, some, List,
  [], ◌∷◌, ◌++◌, map, str_eq, if◌then◌else◌, or_else, first_some, any, find, is_some,
}
use mathlib.Core.Option
use church_presenter.Ipc.{
  ScreenKey, screen_a, screen_b, screen_c, MirrorMode, ProjectionState, PerScreen, get, put,
}
use church_presenter.Screens.Patch.{Appearance}

-- `ProjectionAppearancePrefs` has the fields of `CpProjectionSetAppearancePayload`.
abbrev pub Prefs : Type 0
Prefs = Appearance

abbrev pub ScreenPrefs : Type 0
ScreenPrefs = PerScreen (Option Prefs)

pub record Profile : Type 0 where
  pub id : String
  pub name : String
  pub library_dir : Option String
  pub projection : Option ScreenPrefs
  pub mirrors : Option (PerScreen (Option MirrorMode))
  pub created_at : ℤ
  pub updated_at : ℤ

pub record ProfilesState : Type 0 where
  pub active : Option String
  pub entries : List Profile

-- What settings.json holds, and the library directory of the older files.config.json.
pub record Settings : Type 0 where
  pub library_dir : Option String
  pub projection : Option ScreenPrefs
  pub profiles : Option ProfilesState
  pub legacy_library_dir : Option String

-- The main process: the settings on disk, the screens, and what was sent to the windows.
pub record Runtime : Type 0 where
  pub settings : Settings
  pub screen_states : PerScreen ProjectionState
  pub mirrors : PerScreen MirrorMode
  pub library_dirs : List String
  pub metas : List (ScreenKey × MirrorMode)
  pub broadcasts : List (PerScreen ProjectionState)

abbrev pub has_profile_id : String → Profile → Bool
has_profile_id id entry = str_eq entry.id id

-- The filter of `normalizeProfilesConfig`: entries with an id that has not been seen.
unfoldable pub unseen : List String → List Profile → List Profile
unseen seen [] = []
unseen seen (entry ∷ rest) =
    let skipped = unseen seen rest in
    let kept = unseen (entry.id ∷ seen) rest in
    if str_eq entry.id "" || any (λ id. str_eq id entry.id) seen then skipped else entry ∷ kept

abbrev pub first_id : List Profile → Option String
first_id [] = none
first_id (entry ∷ rest) = some entry.id

unfoldable pub valid_active : Option String → List Profile → Option String
valid_active none entries = none
valid_active (some id) entries =
    if str_eq id ""
    then some id
    else if any (has_profile_id id) entries
    then some id
    else first_id entries

unfoldable pub normalize_profiles_config : Option ProfilesState → ProfilesState
normalize_profiles_config none = record { active = none; entries = [] }
normalize_profiles_config (some state) =
    let entries = unseen [] state.entries in
    record { active = valid_active state.active entries; entries = entries }

-- `Object.keys(out).length > 0 ? out : undefined` for a record of the screens.
unfoldable pub some_screen {ℓ} : {A : Type ℓ} → PerScreen (Option A) → Option (PerScreen (Option A))
some_screen p = if is_some p.at_a || is_some p.at_b || is_some p.at_c then some p else none

unfoldable pub clone_screens {ℓ} :
    {A : Type ℓ} → Option (PerScreen (Option A)) → Option (PerScreen (Option A))
clone_screens none = none
clone_screens (some p) = some_screen p

unfoldable pub clone_settings_profile : Profile → Profile
clone_settings_profile entry = record entry {
  projection = clone_screens entry.projection;
  mirrors = clone_screens entry.mirrors;
}

unfoldable pub read_profiles_state : Runtime → ProfilesState
read_profiles_state world = normalize_profiles_config world.settings.profiles

unfoldable pub write_profiles_state : ProfilesState → Runtime → Runtime
write_profiles_state state world = record world {
  settings = record world.settings {
    profiles = some (
        normalize_profiles_config
          (some (record state { entries = map clone_settings_profile state.entries })));
  };
}

-- JavaScript's truth of an optional text.
abbrev pub is_filled : Option String → Bool
is_filled none = false
is_filled (some s) = not (str_eq s "")

unfoldable pub read_library_dir : Settings → Option String
read_library_dir s = if is_filled s.library_dir then s.library_dir else s.legacy_library_dir

unfoldable pub pick_projection_appearance_prefs : ProjectionState → Prefs
pick_projection_appearance_prefs state = record {
  text_scale = some state.text_scale;
  title_text_scale = state.title_text_scale;
  text_font = some state.text_font;
  text_font_path = state.text_font_path;
  background = some state.background;
  background_mode = state.background_mode;
  background_gradient_from = state.background_gradient_from;
  background_gradient_to = state.background_gradient_to;
  background_gradient_angle = state.background_gradient_angle;
  background_image = state.background_image;
  logo_path = state.logo_path;
  logo_position = state.logo_position;
  logo_opacity = state.logo_opacity;
  logo_scale = state.logo_scale;
  foreground_mode = state.foreground_mode;
  foreground_gradient_from = state.foreground_gradient_from;
  foreground_gradient_to = state.foreground_gradient_to;
  foreground = some state.foreground;
}

abbrev pub every_screen {ℓ κ} : {A : Type ℓ} {B : Type κ} → (A → B) → PerScreen A → PerScreen B
every_screen f p = record { at_a = f p.at_a; at_b = f p.at_b; at_c = f p.at_c }

unfoldable pub build_projection_snapshot_from_runtime : PerScreen ProjectionState → ScreenPrefs
build_projection_snapshot_from_runtime =
    every_screen (λ state. some (pick_projection_appearance_prefs state))

unfoldable pub build_mirrors_snapshot_from_runtime :
    PerScreen MirrorMode → PerScreen (Option MirrorMode)
build_mirrors_snapshot_from_runtime = every_screen some

-- `uuid` is what `randomUUID()` gives and `now` what `Date.now()` gives.
unfoldable pub build_profile_from_runtime : String → String → ℕ → Option Profile → Runtime → Profile
build_profile_from_runtime name uuid now existing world =
    let dir = read_library_dir world.settings in
    record {
      id = or_else (Option.map (λ entry. entry.id) existing) uuid;
      name = name;
      library_dir = if is_filled dir then dir else none;
      projection = some (build_projection_snapshot_from_runtime world.screen_states);
      mirrors = some (build_mirrors_snapshot_from_runtime world.mirrors);
      created_at = or_else (Option.map (λ entry. entry.created_at) existing) (pos now);
      updated_at = pos now;
    }
