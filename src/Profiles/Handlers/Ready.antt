-- ===== src/Profiles/Handlers/Ready.antt =====
-- A runtime with a profile in use.
use church_presenter.Common.{
  ℕ, String, ◌≡◌, ◌≢◌, refl, sym, ◌∙◌, ◌⊎◌, inl, inr, true, false, none, some, List, [], ◌∷◌,
  str_eq, eq_iff, arith, any, List-cases,
}
use church_presenter.Profiles.{
  Profile, ProfilesState, Runtime, has_profile_id, read_profiles_state, build_profile_from_runtime,
  unseen,
}
use church_presenter.Profiles.Normal.{IsUsable}
use church_presenter.Profiles.Store.{write_profiles_state-IsUsable}
use church_presenter.Profiles.Handlers.{ensure_profiles_on_startup}

-- There are no profiles yet, or one of them is in use.
abbrev pub IsReady : Runtime → Type 0
IsReady world = ((read_profiles_state world).entries ≡ []) ⊎ IsUsable (read_profiles_state world)

pub build_profile_from_runtime-id :
    (name uuid : String) (now : ℕ) (world : Runtime)
    → (build_profile_from_runtime name uuid now none world).id ≡ uuid
unfolding build_profile_from_runtime
build_profile_from_runtime-id name uuid now world = refl

one_inside : (entry : Profile) → any (has_profile_id entry.id) (entry ∷ []) ≡ true
unfolding any
one_inside entry = ground (arith, eq_iff entry.id entry.id)

one-IsUsable :
    (entry : Profile)
    → str_eq entry.id "" ≡ false
    → IsUsable (record { active = some entry.id; entries = entry ∷ [] })
unfolding any unseen
one-IsUsable entry n = record {
  active = (entry.id, refl, n, one_inside entry);
  named = (n, tt);
  normal = rw n refl;
}

cons≢nil : (entry : Profile) (rest : List Profile) → (entry ∷ rest) ≢ []
cons≢nil entry rest e = cc

abbrev Both : Runtime × ProfilesState → Type 0
Both (world, state) = IsUsable state × IsUsable (read_profiles_state world)

pub ensure-Both :
    (uuid : String) (now : ℕ) (world : Runtime)
    → str_eq uuid "" ≡ false
    → IsReady world
    → Both (ensure_profiles_on_startup uuid now world)
unfolding ensure_profiles_on_startup
ensure-Both uuid now world n r = elim (List-cases (read_profiles_state world).entries) [
  | inl e ↦
      let entry = build_profile_from_runtime "Profil principal" uuid now none world in
      let named : str_eq entry.id "" ≡ false =
        rw (build_profile_from_runtime-id "Profil principal" uuid now world) n in
      let next : ProfilesState = record { active = some entry.id; entries = entry ∷ [] } in
      rw (e, ensure_profiles_on_startup)
        (
          one-IsUsable entry named,
          write_profiles_state-IsUsable next world entry.id refl named (one_inside entry),
        )
  | inr (first, rest, e) ↦
      rw (e, ensure_profiles_on_startup)
        (elim r [
          | inl gone ↦ absurd (cons≢nil first rest (sym e ∙ gone))
          | inr usable ↦ (usable, usable)
        ])
]
