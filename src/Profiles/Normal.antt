-- ===== src/Profiles/Normal.antt =====
-- The normal form of the profiles: normalizeProfilesConfig.
use mathlib.Core.Path.{subst}
use church_presenter.Common.{
  String, ◌≡◌, refl, ap, inl, inr, Bool, true, false, ◌||◌, Option, none, some, List, [], ◌∷◌,
  str_eq, eq_iff, arith, any, All, Bool-cases,
}
use church_presenter.Profiles.{
  Profile, ProfilesState, has_profile_id, unseen, first_id, valid_active, normalize_profiles_config,
}

abbrev pub is_skipped : List String → Profile → Bool
is_skipped seen entry = str_eq entry.id "" || any (λ id. str_eq id entry.id) seen

unseen-unseen :
    (seen : List String) (entries : List Profile)
    → unseen seen (unseen seen entries) ≡ unseen seen entries
unfolding unseen
unseen-unseen seen [] = refl
unseen-unseen seen (entry ∷ rest) = elim (Bool-cases (is_skipped seen entry)) [
  | inl e ↦ rw e (unseen-unseen seen rest)
  | inr e ↦ rw e (rw e (ap (entry ∷◌) (unseen-unseen (entry.id ∷ seen) rest)))
]

abbrev pub IsNamed : Profile → Type 0
IsNamed entry = str_eq entry.id "" ≡ false

pub unseen-IsNamed :
    (seen : List String) (entries : List Profile) → All IsNamed (unseen seen entries)
unfolding unseen
unseen-IsNamed seen [] = tt
unseen-IsNamed seen (entry ∷ rest) = elim (Bool-cases (is_skipped seen entry)) [
  | inl e ↦ rw e (unseen-IsNamed seen rest)
  | inr e ↦ rw e (ground arith, unseen-IsNamed (entry.id ∷ seen) rest)
]

-- A named id that has not been seen stays among the entries.
pub any-unseen :
    (id : String) (seen : List String) (entries : List Profile)
    → str_eq id "" ≡ false
    → any (λ other. str_eq other id) seen ≡ false
    → any (has_profile_id id) entries ≡ true
    → any (has_profile_id id) (unseen seen entries) ≡ true
unfolding unseen any
any-unseen id seen [] n s h = h
any-unseen id seen (entry ∷ rest) n s h = elim (Bool-cases (str_eq entry.id id)) [
  | inl e ↦
      let same : id ≡ entry.id = ground (arith, eq_iff entry.id id) in
      let named : str_eq entry.id "" ≡ false = subst (λ x. str_eq x "" ≡ false) same n in
      let unmet : any (λ other. str_eq other entry.id) seen ≡ false =
        subst (λ x. any (λ other. str_eq other x) seen ≡ false) same s in
      rw named (rw unmet (rw e refl))
  | inr e ↦
      let later : any (has_profile_id id) rest ≡ true = ground (arith, e, h) in
      elim (Bool-cases (is_skipped seen entry)) [
        | inl f ↦ rw f (any-unseen id seen rest n s later)
        | inr f ↦ rw f (rw e (any-unseen id (entry.id ∷ seen) rest n (ground (arith, e, s)) later))
      ]
]

-- A profile is in use, every profile has an id, and no two have the same.
pub record IsUsable (state : ProfilesState) : Type 0 where
  pub active :
      (id : String) × (state.active ≡ some id)
      × (str_eq id "" ≡ false)
      × (any (has_profile_id id) state.entries ≡ true)
  pub named : All IsNamed state.entries
  pub normal : unseen [] state.entries ≡ state.entries

-- What is written with an active profile among the entries reads back usable.
pub normalize_profiles_config-IsUsable :
    (state : ProfilesState) (id : String)
    → state.active ≡ some id
    → str_eq id "" ≡ false
    → any (has_profile_id id) state.entries ≡ true
    → IsUsable (normalize_profiles_config (some state))
unfolding normalize_profiles_config valid_active any
normalize_profiles_config-IsUsable state id a n h =
    let inside = any-unseen id [] state.entries n refl h in
    record {
      active = (id, rw a (rw n (rw inside refl)), n, inside);
      named = unseen-IsNamed [] state.entries;
      normal = unseen-unseen [] state.entries;
    }

valid_active-first_id :
    (entries : List Profile) → valid_active (first_id entries) entries ≡ first_id entries
unfolding valid_active any
valid_active-first_id [] = refl
valid_active-first_id (entry ∷ rest) = ground (arith, eq_iff entry.id entry.id)

valid_active_twice :
    (active : Option String) (entries : List Profile)
    → valid_active (valid_active active entries) entries ≡ valid_active active entries
unfolding valid_active
valid_active_twice none entries = refl
valid_active_twice (some id) entries = elim (Bool-cases (str_eq id "")) [
  | inl e ↦ rw e (rw e refl)
  | inr e ↦ elim (Bool-cases (any (has_profile_id id) entries)) [
    | inl f ↦ rw e (rw f (rw e (rw f refl)))
    | inr f ↦ rw e (rw f (valid_active-first_id entries))
  ]
]

-- Normalising twice is normalising once, so what is written reads back as it was written.
pub normalize_profiles_config_twice :
    (config : Option ProfilesState)
    → normalize_profiles_config (some (normalize_profiles_config config))
      ≡ normalize_profiles_config config
unfolding normalize_profiles_config valid_active unseen
normalize_profiles_config_twice none = refl
normalize_profiles_config_twice (some state) =
    let entries = unseen [] state.entries in
    let with : Option String → ProfilesState = λ a. record { active = a; entries = entries } in
    rw (unseen-unseen [] state.entries) (ap with (valid_active_twice state.active entries))
