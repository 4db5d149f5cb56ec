-- ===== src/Profiles/Handlers/Sync.antt =====
-- The saving of the active profile: syncActiveProfileFromRuntime and `settings:saveActiveProfile`.
use mathlib.Core.Path.{subst}
use church_presenter.Common.{
  ◌≡◌, refl, sym, inl, inr, true, some, if◌then◌else◌, any, find, Option-cases,
}
use church_presenter.Common.Texts.{str_eq-eq}
use church_presenter.Profiles.{
  Runtime, has_profile_id, read_profiles_state, build_profile_from_runtime,
}
use church_presenter.Profiles.Normal.{IsUsable}
use church_presenter.Profiles.Handlers.{
  Readings, save_active_profile, save_active, is_truthy, profile_command,
  sync_active_profile_from_runtime,
}
use church_presenter.Profiles.Handlers.Active.{any-find}
use church_presenter.Profiles.Handlers.Restore.{ensure_ready}

-- With a profile in use and no other handler in between, the saving that follows a change of the
-- screens writes what the handler that saves the active profile writes.
pub sync_active_profile_from_runtime-save :
    (r : Readings) (world : Runtime)
    → IsUsable (read_profiles_state world)
    → sync_active_profile_from_runtime r.now world ≡ (profile_command save_active_profile r world).0
unfolding sync_active_profile_from_runtime profile_command save_active build_profile_from_runtime
sync_active_profile_from_runtime-save r world u =
    let (active, is, named, inside) = u.active in
    rw (ensure_ready r.default_uuid r.default_now world u)
      (elim (Option-cases (find (has_profile_id active) (read_profiles_state world).entries)) [
        | inl e ↦ rw (is, sync_active_profile_from_runtime, save_active) (rw named (rw e refl))
        | inr (entry, e) ↦
            let found = any-find active (read_profiles_state world).entries entry e in
            let same : active ≡ entry.id = sym (str_eq-eq entry.id active found.1) in
            let there : any (has_profile_id entry.id) (read_profiles_state world).entries ≡ true =
              subst (λ x. any (has_profile_id x) (read_profiles_state world).entries ≡ true) same
                found.0 in
            let keeps : (if is_truthy (read_profiles_state world).active
                  then (read_profiles_state world).active
                  else some entry.id)
                ≡ (read_profiles_state world).active =
              rw is (rw named refl) in
            rw (is, sync_active_profile_from_runtime, save_active)
              (rw named (rw e (rw there (rw same (rw keeps refl)))))
      ])
