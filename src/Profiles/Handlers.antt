-- ===== src/Profiles/Handlers.antt =====
-- The profiles in use: applyProfileToRuntime, syncActiveProfileFromRuntime and ensureProfilesOnStartup of
-- apps/desktop/src/main/settings.ts, and the handlers of apps/desktop/src/main/main.ts.
pub mod Active
pub mod Usable
pub mod Ready
pub mod Restore
pub mod Applied
pub mod Sync
use church_presenter.Common.{
  ℕ, zero, suc, ◌+◌, pos, String, Bool, true, false, not, ◌&&◌, ◌||◌, Option, none, some, List, [],
  ◌∷◌, ◌++◌, map, str_eq, if◌then◌else◌, or_else, first_some, any, find, keep, is_some, ltb, length,
}
use church_presenter.Common.Texts.{trim}
use church_presenter.Common.Outcome.{Outcome, done, thrown}
use church_presenter.Ipc.{
  ScreenKey, screen_a, screen_b, screen_c, MirrorMode, ProjectionState, PerScreen, get, put,
}
use church_presenter.Profiles.{
  Prefs, ScreenPrefs, Profile, ProfilesState, Settings, Runtime, has_profile_id, first_id,
  read_profiles_state, write_profiles_state, build_profile_from_runtime,
  build_projection_snapshot_from_runtime,
}

unfoldable pub apply_prefs : Prefs → ℕ → ProjectionState → ProjectionState
apply_prefs prefs now state = record state {
  text_scale = or_else prefs.text_scale state.text_scale;
  title_text_scale = first_some prefs.title_text_scale state.title_text_scale;
  text_font = or_else prefs.text_font state.text_font;
  text_font_path = first_some prefs.text_font_path state.text_font_path;
  background = or_else prefs.background state.background;
  background_mode = first_some prefs.background_mode state.background_mode;
  background_gradient_from =
      first_some prefs.background_gradient_from state.background_gradient_from;
  background_gradient_to = first_some prefs.background_gradient_to state.background_gradient_to;
  background_gradient_angle =
      first_some prefs.background_gradient_angle state.background_gradient_angle;
  background_image = first_some prefs.background_image state.background_image;
  logo_path = first_some prefs.logo_path state.logo_path;
  logo_position = first_some prefs.logo_position state.logo_position;
  logo_opacity = first_some prefs.logo_opacity state.logo_opacity;
  logo_scale = first_some prefs.logo_scale state.logo_scale;
  foreground_mode = first_some prefs.foreground_mode state.foreground_mode;
  foreground_gradient_from =
      first_some prefs.foreground_gradient_from state.foreground_gradient_from;
  foreground_gradient_to = first_some prefs.foreground_gradient_to state.foreground_gradient_to;
  foreground = or_else prefs.foreground state.foreground;
  updated_at = now;
}

unfoldable pub apply_screen : Option Prefs → ℕ → ProjectionState → ProjectionState
apply_screen none now state = state
apply_screen (some prefs) now state = apply_prefs prefs now state

unfoldable pub apply_mirror_prefs : ScreenKey → Option MirrorMode → Runtime → Runtime
apply_mirror_prefs key none world = world
apply_mirror_prefs key (some mode) world = record world {
  mirrors = put world.mirrors key mode;
  metas = world.metas ++ (key, mode) ∷ [];
}

abbrev pub is_blank : String → Bool
is_blank s = str_eq (trim s) ""

unfoldable pub apply_library_dir : Option String → Runtime → Runtime
apply_library_dir none world = world
apply_library_dir (some dir) world = if is_blank dir then world else record world {
  settings = record world.settings { library_dir = some dir };
  library_dirs = world.library_dirs ++ dir ∷ [];
}

-- `now k` is what `Date.now()` gives for the screen `k`.
unfoldable pub apply_projection : Option ScreenPrefs → (ScreenKey → ℕ) → Runtime → Runtime
apply_projection none now world = world
apply_projection (some prefs) now world =
    let states : PerScreen ProjectionState = record {
      at_a = apply_screen prefs.at_a (now screen_a) world.screen_states.at_a;
      at_b = apply_screen prefs.at_b (now screen_b) world.screen_states.at_b;
      at_c = apply_screen prefs.at_c (now screen_c) world.screen_states.at_c;
    } in
    record world {
      screen_states = states;
      settings = record world.settings {
        projection = some (build_projection_snapshot_from_runtime states);
      };
    }

unfoldable pub apply_mirrors : Option (PerScreen (Option MirrorMode)) → Runtime → Runtime
apply_mirrors none world = world
apply_mirrors (some modes) world =
    apply_mirror_prefs screen_c modes.at_c
      (apply_mirror_prefs screen_b modes.at_b (apply_mirror_prefs screen_a modes.at_a world))

unfoldable pub broadcast_all_screens_state : Runtime → Runtime
broadcast_all_screens_state world = record world {
  broadcasts = world.broadcasts ++ world.screen_states ∷ [];
}

unfoldable pub apply_profile_to_runtime : Profile → (ScreenKey → ℕ) → Runtime → Runtime
apply_profile_to_runtime entry now world = broadcast_all_screens_state (
    apply_mirrors entry.mirrors
      (apply_projection entry.projection now (apply_library_dir entry.library_dir world)))

-- `entries[idx] = entry` at the first entry of the id.
unfoldable pub replace_profile : String → Profile → List Profile → List Profile
replace_profile id entry [] = []
replace_profile id entry (other ∷ rest) =
    let below = replace_profile id entry rest in
    if has_profile_id id other then entry ∷ rest else other ∷ below

-- `entries.splice(idx, 1)` at the first entry of the id.
unfoldable pub splice_profile : String → List Profile → List Profile
splice_profile id [] = []
splice_profile id (other ∷ rest) =
    let below = splice_profile id rest in if has_profile_id id other then rest else other ∷ below

unfoldable pub ensure_profiles_on_startup : String → ℕ → Runtime → Runtime × ProfilesState
ensure_profiles_on_startup uuid now world =
    let entry = build_profile_from_runtime "Profil principal" uuid now none world in
    let next : ProfilesState = record { active = some entry.id; entries = entry ∷ [] } in
    elim (read_profiles_state world).entries [
      | [] ↦ (write_profiles_state next world, next)
      | first ∷ rest ↦ (world, read_profiles_state world)
    ]

pub data ProfileError : Type 0 where
  profile_not_found one_profile_required no_active_profile active_profile_not_found : ProfileError

-- The readings of a handler: the ids and times of a default profile, of a new one and of the screens.
pub record Readings : Type 0 where
  pub default_uuid : String
  pub uuid : String
  pub default_now : ℕ
  pub now : ℕ
  pub screens_now : ScreenKey → ℕ

pub data ProfileCommand : Type 0 where
  get_profiles save_active_profile : ProfileCommand
  create_profile activate_profile delete_profile : String → ProfileCommand
  rename_profile : String → String → ProfileCommand

unfoldable pub activate :
    String
    → ProfilesState
    → (ScreenKey → ℕ)
    → Runtime
    → Runtime × Outcome ProfileError ProfilesState
activate id state now world = elim (find (has_profile_id id) state.entries) [
  | none ↦ (world, thrown profile_not_found)
  | some entry ↦
      let next = record state { active = some entry.id } in
      (apply_profile_to_runtime entry now (write_profiles_state next world), done next)
]

unfoldable pub rename :
    String → String → ℕ → ProfilesState → Runtime → Runtime × Outcome ProfileError ProfilesState
rename id name now state world = elim (find (has_profile_id id) state.entries) [
  | none ↦ (world, thrown profile_not_found)
  | some entry ↦
      let next = record state {
        entries =
            replace_profile id (record entry { name = name; updated_at = pos now }) state.entries;
      } in
      (write_profiles_state next world, done next)
]

unfoldable pub save_active :
    ℕ → ProfilesState → Runtime → Runtime × Outcome ProfileError ProfilesState
save_active now state world = elim state.active [
  | none ↦ (world, thrown no_active_profile)
  | some id ↦
      if str_eq id ""
      then (world, thrown no_active_profile)
      else elim (find (has_profile_id id) state.entries) [
        | none ↦ (world, thrown active_profile_not_found)
        | some entry ↦
            let updated = build_profile_from_runtime entry.name "" now (some entry) world in
            let next = record state { entries = replace_profile id updated state.entries } in
            (write_profiles_state next world, done next)
      ]
]

abbrev pub is_active : String → Option String → Bool
is_active id none = false
is_active id (some active) = str_eq active id

abbrev pub is_truthy : Option String → Bool
is_truthy none = false
is_truthy (some id) = not (str_eq id "")

-- The profile that comes into use when the active one is removed.
unfoldable pub apply_active : ProfilesState → (ScreenKey → ℕ) → Runtime → Runtime
apply_active state now world =
    elim (if is_truthy state.active
      then find (has_profile_id (or_else state.active "")) state.entries
      else none) [ none ↦ world | some entry ↦ apply_profile_to_runtime entry now world ]

unfoldable pub delete :
    String
    → (ScreenKey → ℕ)
    → ProfilesState
    → Runtime
    → Runtime × Outcome ProfileError ProfilesState
delete id now state world =
    let entries = splice_profile id state.entries in
    let was_active = is_active id state.active in
    let next : ProfilesState = record {
      active =
          if not (is_truthy state.active) || was_active then first_id entries else state.active;
      entries = entries;
    } in
    let written = write_profiles_state next world in
    if ltb (length state.entries) 2
    then (world, thrown one_profile_required)
    else if not (any (has_profile_id id) state.entries)
    then (world, thrown profile_not_found)
    else (if was_active then apply_active next now written else written, done next)

abbrev pub run_command :
    ProfileCommand
    → Readings
    → ProfilesState
    → Runtime
    → Runtime × Outcome ProfileError ProfilesState
run_command get_profiles r state world = (world, done state)
run_command save_active_profile r state world = save_active r.now state world
run_command (create_profile name) r state world =
    let entry = build_profile_from_runtime name r.uuid r.now none world in
    let next : ProfilesState = record {
      active = some entry.id;
      entries = state.entries ++ entry ∷ [];
    } in
    (write_profiles_state next world, done next)
run_command (activate_profile id) r state world = activate id state r.screens_now world
run_command (delete_profile id) r state world = delete id r.screens_now state world
run_command (rename_profile id name) r state world = rename id name r.now state world

unfoldable pub profile_command :
    ProfileCommand → Readings → Runtime → Runtime × Outcome ProfileError ProfilesState
profile_command command r world =
    let (ready, state) = ensure_profiles_on_startup r.default_uuid r.default_now world in
    run_command command r state ready

unfoldable pub profile_commands : List (ProfileCommand × Readings) → Runtime → Runtime
profile_commands [] world = world
profile_commands ((command, r) ∷ rest) world =
    profile_commands rest (profile_command command r world).0

-- The saving of the active profile after a change of the screens, with no other handler in between.
unfoldable pub sync_active_profile_from_runtime : ℕ → Runtime → Runtime
sync_active_profile_from_runtime now world =
    let state = read_profiles_state world in
    let id = or_else state.active "" in
    if not (is_truthy state.active) then world else elim (find (has_profile_id id) state.entries) [
      | none ↦ world
      | some current ↦
          write_profiles_state
            (synced state (build_profile_from_runtime current.name "" now (some current) world))
            world
    ]
  where
    synced : ProfilesState → Profile → ProfilesState
    synced latest updated = record {
      active = if is_truthy latest.active then latest.active else some updated.id;
      entries =
          if any (has_profile_id updated.id) latest.entries
          then replace_profile updated.id updated latest.entries
          else latest.entries ++ updated ∷ [];
    }
