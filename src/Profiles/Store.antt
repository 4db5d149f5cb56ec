-- ===== src/Profiles/Store.antt =====
-- Writing and reading the profiles.
use church_presenter.Common.{String, ◌≡◌, ◌∙◌, true, false, some, List, map, str_eq, any, any-map}
use church_presenter.Profiles.{
  Profile, ProfilesState, Runtime, has_profile_id, clone_settings_profile, read_profiles_state,
  write_profiles_state,
}
use church_presenter.Profiles.Normal.{
  IsUsable, normalize_profiles_config-IsUsable, normalize_profiles_config_twice,
}

clone_settings_profile-id :
    (id : String) (entries : List Profile)
    → any (has_profile_id id) (map clone_settings_profile entries) ≡ any (has_profile_id id) entries
unfolding clone_settings_profile
clone_settings_profile-id id entries = any-map (has_profile_id id) clone_settings_profile entries

pub write_profiles_state-IsUsable :
    (state : ProfilesState) (world : Runtime) (id : String)
    → state.active ≡ some id
    → str_eq id "" ≡ false
    → any (has_profile_id id) state.entries ≡ true
    → IsUsable (read_profiles_state (write_profiles_state state world))
unfolding read_profiles_state write_profiles_state
write_profiles_state-IsUsable state world id a n h =
    let cloned : ProfilesState = record state {
      entries = map clone_settings_profile state.entries;
    } in
    rw (normalize_profiles_config_twice (some cloned)) (
      normalize_profiles_config-IsUsable cloned id a n
        (clone_settings_profile-id id state.entries ∙ h))
