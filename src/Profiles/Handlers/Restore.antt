-- ===== src/Profiles/Handlers/Restore.antt =====
-- A profile brought back: what activating it does to the screens.
use mathlib.Core.Path.{subst}
use church_presenter.Common.{
  ℕ, String, ◌≡◌, refl, ap, ◌∙◌, inl, inr, true, false, Option, none, some, List, [], ◌∷◌, ◌++◌,
  map, str_eq, eq_iff, arith, any, find, Bool-cases, List-cases,
}
use church_presenter.Common.Outcome.{done}
use church_presenter.Ipc.{ScreenKey, get}
use church_presenter.Profiles.{
  Profile, ProfilesState, Runtime, has_profile_id, read_profiles_state, write_profiles_state,
  build_profile_from_runtime, normalize_profiles_config, unseen, clone_settings_profile,
  clone_screens, some_screen, build_projection_snapshot_from_runtime,
  build_mirrors_snapshot_from_runtime,
}
use church_presenter.Profiles.Normal.{IsUsable, is_skipped, normalize_profiles_config_twice}
use church_presenter.Profiles.Handlers.{
  apply_profile_to_runtime, ensure_profiles_on_startup, Readings, create_profile, activate_profile,
  activate, profile_command,
}
use church_presenter.Profiles.Handlers.Usable.{profile_command-IsUsable}
use church_presenter.Profiles.Handlers.Ready.{build_profile_from_runtime-id}
use church_presenter.Common.Texts.{str_eq-true}
use church_presenter.Profiles.Handlers.Applied.{
  over, pick, pick-apply_prefs, applied-screens, applied-mirrors,
}

-- Finding a profile of an id that is named, before and after the normalisation.
find-unseen :
    (id : String) (seen : List String) (entries : List Profile)
    → str_eq id "" ≡ false
    → any (λ other. str_eq other id) seen ≡ false
    → find (has_profile_id id) (unseen seen entries) ≡ find (has_profile_id id) entries
unfolding unseen any find
find-unseen id seen [] n s = refl
find-unseen id seen (entry ∷ rest) n s = elim (Bool-cases (str_eq entry.id id)) [
  | inl e ↦
      let same : id ≡ entry.id = ground (arith, eq_iff entry.id id) in
      let named : str_eq entry.id "" ≡ false = subst (λ x. str_eq x "" ≡ false) same n in
      let unmet : any (λ other. str_eq other entry.id) seen ≡ false =
        subst (λ x. any (λ other. str_eq other x) seen ≡ false) same s in
      rw named (rw unmet (rw e refl))
  | inr e ↦ elim (Bool-cases (is_skipped seen entry)) [
    | inl f ↦ rw f (rw e (find-unseen id seen rest n s))
    | inr f ↦ rw f (rw e (find-unseen id (entry.id ∷ seen) rest n (ground (arith, e, s))))
  ]
]

find-last :
    (id : String) (entries : List Profile) (entry : Profile)
    → any (has_profile_id id) entries ≡ false
    → str_eq entry.id id ≡ true
    → find (has_profile_id id) (map clone_settings_profile (entries ++ entry ∷ []))
      ≡ some (clone_settings_profile entry)
unfolding find any clone_settings_profile
find-last id [] entry h e = rw e refl
find-last id (first ∷ rest) entry h e =
    let other : str_eq first.id id ≡ false = ground arith in
    rw other (find-last id rest entry (ground arith) e)

pub ensure_ready :
    (uuid : String) (now : ℕ) (world : Runtime)
    → IsUsable (read_profiles_state world)
    → ensure_profiles_on_startup uuid now world ≡ (world, read_profiles_state world)
unfolding ensure_profiles_on_startup any read_profiles_state normalize_profiles_config
ensure_ready uuid now world u = elim (List-cases (read_profiles_state world).entries) [
  | inl e ↦ let inside = u.active.3 in cc (rw e at inside)
  | inr (first, rest, e) ↦ rw (e, ensure_profiles_on_startup) refl
]

find-written :
    (id : String) (active : Option String) (entries : List Profile) (entry : Profile)
    (world : Runtime)
    → str_eq id "" ≡ false
    → any (has_profile_id id) entries ≡ false
    → str_eq entry.id id ≡ true
    → find
        (has_profile_id id)
        (read_profiles_state (
          write_profiles_state
            (record { active = active; entries = entries ++ entry ∷ [] })
            world)).entries
      ≡ some (clone_settings_profile entry)
unfolding read_profiles_state write_profiles_state normalize_profiles_config any
find-written id active entries entry world n h e =
    let cloned : ProfilesState = record {
      active = active;
      entries = map clone_settings_profile (entries ++ entry ∷ []);
    } in
    ap (λ s. find (has_profile_id id) s.entries) (normalize_profiles_config_twice (some cloned))
    ∙ find-unseen id [] (map clone_settings_profile (entries ++ entry ∷ [])) n refl
    ∙ find-last id entries entry h e

activate-found :
    (id : String) (state : ProfilesState) (entry : Profile) (now : ScreenKey → ℕ) (world : Runtime)
    → find (has_profile_id id) state.entries ≡ some entry
    → let next : ProfilesState = record state { active = some entry.id } in
      activate id state now world
      ≡ (apply_profile_to_runtime entry now (write_profiles_state next world), done next)
unfolding activate
activate-found id state entry now world e = rw (e, activate) refl

create-written :
    (name : String) (r : Readings) (world : Runtime)
    → IsUsable (read_profiles_state world)
    → let entry = build_profile_from_runtime name r.uuid r.now none world in
      (profile_command (create_profile name) r world).0
      ≡ write_profiles_state
          (record {
            active = some entry.id;
            entries = (read_profiles_state world).entries ++ entry ∷ [];
          })
          world
unfolding profile_command
create-written name r world u = rw (ensure_ready r.default_uuid r.default_now world u) refl

activate-written :
    (id : String) (later : Readings) (entry : Profile) (world : Runtime)
    → IsUsable (read_profiles_state world)
    → find (has_profile_id id) (read_profiles_state world).entries ≡ some entry
    → let next : ProfilesState = record (read_profiles_state world) { active = some entry.id } in
      (profile_command (activate_profile id) later world).0
      ≡ apply_profile_to_runtime entry later.screens_now (write_profiles_state next world)
unfolding profile_command
activate-written id later entry world u e =
    rw (ensure_ready later.default_uuid later.default_now world u) (
      ap (λ p. p.0) (activate-found id (read_profiles_state world) entry later.screens_now world e))

-- Activating the copy of a built profile.
restored :
    (name uuid : String) (time : ℕ) (now : ScreenKey → ℕ) (state : ProfilesState)
    (world changed : Runtime)
    → let end =
        apply_profile_to_runtime
          (clone_settings_profile (build_profile_from_runtime name uuid time none world))
          now
          (write_profiles_state state changed) in
      ((key : ScreenKey)
        → pick (get end.screen_states key)
          ≡ over (pick (get world.screen_states key)) (pick (get changed.screen_states key)))
      × (end.mirrors ≡ world.mirrors)
unfolding apply_profile_to_runtime clone_settings_profile clone_screens some_screen
    build_profile_from_runtime write_profiles_state build_projection_snapshot_from_runtime
    build_mirrors_snapshot_from_runtime
restored name uuid time now state world changed =
    let entry = build_profile_from_runtime name uuid time none world in
    let start = write_profiles_state state changed in
    (
      λ key.
          ap pick
            (applied-screens world.screen_states world.mirrors now entry.library_dir start key)
          ∙ pick-apply_prefs (get world.screen_states key) (get changed.screen_states key)
              (now key),
      applied-mirrors world.screen_states world.mirrors now entry.library_dir start,
    )

-- A profile that is created and later activated, while the saved profiles stay as they were after its
-- creation, brings every screen back to the settings of its creation, where these were set, and every
-- mirror; a setting that was not set stays as it is at the activation.
pub activate-create :
    (name : String) (r later : Readings) (world changed : Runtime)
    → IsUsable (read_profiles_state world)
    → str_eq r.uuid "" ≡ false
    → str_eq r.default_uuid "" ≡ false
    → any (has_profile_id r.uuid) (read_profiles_state world).entries ≡ false
    → changed.settings.profiles
      ≡ (profile_command (create_profile name) r world).0.settings.profiles
    → ((key : ScreenKey)
        → pick (get (profile_command (activate_profile r.uuid) later changed).0.screen_states key)
          ≡ over (pick (get world.screen_states key)) (pick (get changed.screen_states key)))
      × ((profile_command (activate_profile r.uuid) later changed).0.mirrors ≡ world.mirrors)
unfolding read_profiles_state
activate-create name r later world changed u n d fresh same =
    let entry = build_profile_from_runtime name r.uuid r.now none world in
    let next : ProfilesState = record {
      active = some entry.id;
      entries = (read_profiles_state world).entries ++ entry ∷ [];
    } in
    let made = create-written name r world u in
    let reads : read_profiles_state changed
        ≡ read_profiles_state (write_profiles_state next world) =
      ap normalize_profiles_config (same ∙ ap (λ w. w.settings.profiles) made) in
    let usable : IsUsable (read_profiles_state changed) =
      rw reads (rw made at (profile_command-IsUsable (create_profile name) r world d n (inr u))) in
    let found =
      ap (λ s. find (has_profile_id r.uuid) s.entries) reads
      ∙ find-written r.uuid (some entry.id) (read_profiles_state world).entries entry world n fresh
          (str_eq-true entry.id r.uuid (build_profile_from_runtime-id name r.uuid r.now world)) in
    rw (activate-written r.uuid later (clone_settings_profile entry) changed usable found)
      (restored name r.uuid r.now later.screens_now _ world changed)
