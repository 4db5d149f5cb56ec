-- ===== src/Profiles/Handlers/Active.antt =====
-- A profile stays in use through the handlers.
use church_presenter.Common.{
  ℕ, ◌≤◌, String, ◌≡◌, refl, sym, ap, ◌∙◌, inl, inr, true, false, Option, none, some, List, [], ◌∷◌,
  str_eq, eq_iff, arith, if◌then◌else◌, any, find, All, In, Bool-cases, Option-cases, length,
  or_else,
}
use church_presenter.Ipc.{ScreenKey, screen_a, screen_b, screen_c, MirrorMode, PerScreen}
use church_presenter.Profiles.{
  ScreenPrefs, Profile, ProfilesState, Runtime, has_profile_id, first_id, read_profiles_state,
  normalize_profiles_config,
}
use church_presenter.Profiles.Normal.{IsNamed}
use church_presenter.Profiles.Handlers.{
  apply_library_dir, apply_projection, apply_mirror_prefs, apply_mirrors,
  broadcast_all_screens_state, apply_profile_to_runtime, replace_profile, splice_profile, is_truthy,
  apply_active,
}

module _ (world : Runtime) where
  apply_library_dir-profiles :
      (dir : Option String)
      → (apply_library_dir dir world).settings.profiles ≡ world.settings.profiles
  unfolding apply_library_dir
  apply_library_dir-profiles none = refl
  apply_library_dir-profiles (some dir) = ground arith

  apply_projection-profiles :
      (prefs : Option ScreenPrefs) (now : ScreenKey → ℕ)
      → (apply_projection prefs now world).settings.profiles ≡ world.settings.profiles
  unfolding apply_projection
  apply_projection-profiles none now = refl
  apply_projection-profiles (some prefs) now = refl

  apply_mirror_prefs-settings :
      (key : ScreenKey) (mode : Option MirrorMode)
      → (apply_mirror_prefs key mode world).settings ≡ world.settings
  unfolding apply_mirror_prefs
  apply_mirror_prefs-settings key none = refl
  apply_mirror_prefs-settings key (some mode) = refl

apply_mirrors-settings :
    (modes : Option (PerScreen (Option MirrorMode))) (world : Runtime)
    → (apply_mirrors modes world).settings ≡ world.settings
unfolding apply_mirrors
apply_mirrors-settings none world = refl
apply_mirrors-settings (some modes) world =
    let first = apply_mirror_prefs screen_a modes.at_a world in
    let second = apply_mirror_prefs screen_b modes.at_b first in
    apply_mirror_prefs-settings second screen_c modes.at_c
    ∙ apply_mirror_prefs-settings first screen_b modes.at_b
    ∙ apply_mirror_prefs-settings world screen_a modes.at_a

-- Taking a profile into use leaves the saved profiles alone.
pub apply_profile_to_runtime-read :
    (entry : Profile) (now : ScreenKey → ℕ) (world : Runtime)
    → read_profiles_state (apply_profile_to_runtime entry now world) ≡ read_profiles_state world
unfolding read_profiles_state apply_profile_to_runtime broadcast_all_screens_state
apply_profile_to_runtime-read entry now world =
    let first = apply_library_dir entry.library_dir world in
    let second = apply_projection entry.projection now first in
    ap normalize_profiles_config (
      ap (λ s. s.profiles) (apply_mirrors-settings entry.mirrors second)
      ∙ apply_projection-profiles first entry.projection now
      ∙ apply_library_dir-profiles world entry.library_dir)

pub any-find :
    (id : String) (entries : List Profile) (entry : Profile)
    → find (has_profile_id id) entries ≡ some entry
    → (any (has_profile_id id) entries ≡ true) × (str_eq entry.id id ≡ true) × In entry entries
unfolding any find
any-find id [] entry h = cc
any-find id (other ∷ rest) entry h = elim (Bool-cases (str_eq other.id id)) [
  | inl e ↦ let same : other ≡ entry = ground arith in (rw e refl, rw (sym same) e, inl (sym same))
  | inr e ↦ let found = any-find id rest entry (rw e at h) in (rw e found.0, found.1, inr found.2)
]

pub any-replace_profile :
    (other id : String) (entry : Profile) (entries : List Profile)
    → str_eq entry.id id ≡ true
    → any (has_profile_id other) (replace_profile id entry entries)
      ≡ any (has_profile_id other) entries
unfolding any replace_profile
any-replace_profile other id entry [] e = refl
any-replace_profile other id entry (first ∷ rest) e =
    ground
      (arith, eq_iff entry.id id, eq_iff first.id id, any-replace_profile other id entry rest e)

pub any-splice_profile :
    (other id : String) (entries : List Profile)
    → str_eq other id ≡ false
    → any (has_profile_id other) (splice_profile id entries) ≡ any (has_profile_id other) entries
unfolding any splice_profile
any-splice_profile other id [] n = refl
any-splice_profile other id (first ∷ rest) n =
    ground (arith, eq_iff first.id id, eq_iff first.id other, any-splice_profile other id rest n)

-- After one of several profiles is taken out, the first of the others has an id.
pub splice_profile-first :
    (id : String) (entries : List Profile)
    → All IsNamed entries
    → 2 ≤ length entries
    → (first : String) × (first_id (splice_profile id entries) ≡ some first)
      × (str_eq first "" ≡ false)
      × (any (has_profile_id first) (splice_profile id entries) ≡ true)
unfolding splice_profile any
splice_profile-first id [] n l = ground arith
splice_profile-first id (one ∷ []) n l = ground arith
splice_profile-first id (one ∷ two ∷ rest) n l = elim (Bool-cases (str_eq one.id id)) [
  | inl e ↦ rw e (two.id, refl, n.1.0, ground (arith, eq_iff two.id two.id))
  | inr e ↦ rw e (one.id, refl, n.0, ground (arith, eq_iff one.id one.id))
]

pub apply_active-read :
    (state : ProfilesState) (now : ScreenKey → ℕ) (world : Runtime)
    → read_profiles_state (apply_active state now world) ≡ read_profiles_state world
unfolding apply_active
apply_active-read state now world =
    elim (Option-cases (
      if is_truthy state.active
      then find (has_profile_id (or_else state.active "")) state.entries
      else none)) [
        | inl e ↦ rw (e, apply_active) refl
        | inr (entry, e) ↦ rw (e, apply_active) (apply_profile_to_runtime-read entry now world)
      ]
