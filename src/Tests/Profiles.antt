-- ===== src/Tests/Profiles.antt =====
-- Runs on the settings profiles.
use church_presenter.Common.{String, ◌≡◌, refl, inl, false, none, [], ◌∷◌, any}
use church_presenter.Ipc.{ScreenKey, screen_c, free, mirror, get}
use church_presenter.Screens.{Context}
use church_presenter.Screens.Defaults.{initial_context}
use church_presenter.Profiles.{
  Runtime, has_profile_id, read_profiles_state, write_profiles_state, normalize_profiles_config,
  unseen, valid_active, clone_settings_profile, build_profile_from_runtime,
}
use church_presenter.Profiles.Normal.{IsUsable}
use church_presenter.Profiles.Handlers.{
  Readings, get_profiles, save_active_profile, sync_active_profile_from_runtime, create_profile,
  activate_profile, delete_profile, ensure_profiles_on_startup, profile_command, profile_commands,
}
use church_presenter.Profiles.Handlers.Usable.{profile_commands-IsUsable}
use church_presenter.Profiles.Handlers.Ready.{IsReady}
use church_presenter.Profiles.Handlers.Sync.{sync_active_profile_from_runtime-save}
use church_presenter.Profiles.Handlers.Restore.{activate-create}
use church_presenter.Profiles.Handlers.Applied.{over, pick}

abbrev screens : Context
unfolding initial_context
screens = initial_context (λ n. n)

abbrev fresh_start : Runtime
fresh_start = record {
  settings = record {
    library_dir = none;
    projection = none;
    profiles = none;
    legacy_library_dir = none;
  };
  screen_states = screens.screen_states;
  mirrors = screens.mirrors;
  library_dirs = [];
  metas = [];
  broadcasts = [];
}

abbrev readings : String → Readings
readings uuid = record {
  default_uuid = "main";
  uuid = uuid;
  default_now = 1;
  now = 2;
  screens_now = λ k. 3;
}

fresh_start-IsReady : IsReady fresh_start
unfolding read_profiles_state normalize_profiles_config
fresh_start-IsReady = inl refl

profile_commands-IsUsable_example : IsUsable (
    read_profiles_state (
      profile_commands
        ((create_profile "Culte", readings "second")
          ∷ (delete_profile "second", readings "third")
          ∷ (delete_profile "main", readings "third")
          ∷ [])
        fresh_start))
profile_commands-IsUsable_example =
    profile_commands-IsUsable (create_profile "Culte", readings "second")
      ((delete_profile "second", readings "third") ∷ (delete_profile "main", readings "third") ∷ [])
      fresh_start (refl, refl) ((refl, refl), ((refl, refl), tt)) fresh_start-IsReady

abbrev started : Runtime
started = (profile_command get_profiles (readings "none") fresh_start).0

started-IsUsable : IsUsable (read_profiles_state started)
unfolding profile_commands
started-IsUsable =
    profile_commands-IsUsable (get_profiles, readings "none") [] fresh_start (refl, refl) tt
      fresh_start-IsReady

second_fresh : any (has_profile_id "second") (read_profiles_state started).entries ≡ false
unfolding read_profiles_state write_profiles_state normalize_profiles_config unseen valid_active
    profile_command ensure_profiles_on_startup any clone_settings_profile build_profile_from_runtime
second_fresh = refl

abbrev changed : Runtime
changed = record (profile_command (create_profile "Culte") (readings "second") started).0 {
  mirrors = record { at_a = mirror screen_c; at_b = free; at_c = free };
}

activate-create_example :
    ((key : ScreenKey)
      → pick (
          get
            (profile_command (activate_profile "second") (readings "third") changed).0.screen_states
            key)
        ≡ over (pick (get started.screen_states key)) (pick (get changed.screen_states key)))
    × ((profile_command (activate_profile "second") (readings "third") changed).0.mirrors
        ≡ started.mirrors)
activate-create_example =
    activate-create "Culte" (readings "second") (readings "third") started changed started-IsUsable
      refl refl second_fresh refl

sync_active_profile_from_runtime-save_example :
    sync_active_profile_from_runtime 2 started
    ≡ (profile_command save_active_profile (readings "third") started).0
sync_active_profile_from_runtime-save_example =
    sync_active_profile_from_runtime-save (readings "third") started started-IsUsable
