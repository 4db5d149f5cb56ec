-- ===== src/SettingsFile/Entries.antt =====
-- The profiles of the settings file, written and read again.
use church_presenter.Common.{
  ℕ, suc, ℤ, pos, negsuc, String, ◌≡◌, refl, ap, ◌∙◌, inl, inr, ◌||◌, Option, none, some, List, [],
  ◌∷◌, map, All, or_else, Bool-cases, Option-cases, arith, str_eq, any,
}
use church_presenter.Common.Texts.{trim, trim_twice}
use mathlib.Core.Path.{subst}
use church_presenter.Imports.Songs.{elements-array}
use church_presenter.Profiles.{Profile, ProfilesState, unseen, normalize_profiles_config}
use church_presenter.Profiles.Normal.{normalize_profiles_config_twice}
use church_presenter.Json.{Value, num, str, obj, Properties, get, given, integer, trunc}
use church_presenter.Sanitizers.{
  screens_of, named, filled, filled_trimmed, directory, files_of, truncated, profile_of,
  sanitize_projection_config, sanitize_mirrors_config, sanitize_settings_profile, sanitize_entries,
  sanitize_profiles_config, string_of, elements_of,
}
use church_presenter.SettingsFile.{
  nullable, files_value, projection_value, screens_value, mirror_value, profile_value,
  profiles_value,
}
use church_presenter.SettingsFile.Bindings.{Back, given-Back}
use church_presenter.SettingsFile.Screens.{
  sanitize_projection_config-Back, sanitize_mirrors_config-Back,
}

named-filled_trimmed :
    (v : Value) (s : String) → named filled_trimmed v ≡ some s → filled_trimmed s ≡ some s
unfolding named filled_trimmed filled
named-filled_trimmed (str t) s e = elim (Bool-cases (str_eq (trim t) "")) [
  | inl f ↦ ground (arith, f, e)
  | inr f ↦
      let same : trim t ≡ s = ground (arith, f, e) in
      subst (λ x. filled_trimmed x ≡ some x) same (rw (trim_twice t) (rw f refl))
]
named-filled_trimmed _ s e = ground arith

trunc-integer : (z : ℤ) → trunc (integer z) ≡ z
unfolding integer
trunc-integer (pos n) = ap pos (omega arith)
trunc-integer (negsuc n) = ground arith

truncated-integer : (z : ℤ) → truncated (num (integer z)) ≡ some z
unfolding truncated
truncated-integer z = ap some (trunc-integer z)

directory-Back : (v : Value) → Back (files_of directory) files_value (named directory v)
unfolding files_of files_value directory named get
directory-Back (str s) = elim (Bool-cases (str_eq (trim s) "")) [
  | inl e ↦ rw e tt
  | inr e ↦ rw e (rw e refl)
]
directory-Back _ = tt

files_of-Back : (v : Value) → Back (files_of directory) files_value (files_of directory v)
unfolding files_of
files_of-Back (obj rec) = directory-Back (get "libraryDir" rec)
files_of-Back _ = tt

-- An entry that is read again whenever it is read.
abbrev IsKept : Profile → Type 0
IsKept entry = (now : ℕ) → sanitize_settings_profile now (profile_value entry) ≡ some entry

abbrev IfKept : Option Profile → Type 0
IfKept none = Unit
IfKept (some entry) = IsKept entry

sanitize_settings_profile_lem :
    (entry : Profile) (now : ℕ)
    → filled_trimmed entry.id ≡ some entry.id
    → filled_trimmed entry.name ≡ some entry.name
    → files_of directory (given files_value entry.library_dir) ≡ entry.library_dir
    → sanitize_projection_config (given projection_value entry.projection) ≡ entry.projection
    → sanitize_mirrors_config (given (screens_value mirror_value) entry.mirrors) ≡ entry.mirrors
    → sanitize_settings_profile now (profile_value entry) ≡ some entry
unfolding sanitize_settings_profile profile_value profile_of get named
sanitize_settings_profile_lem entry now i n f p m =
    rw (i, n, f, p, m, truncated-integer entry.created_at, truncated-integer entry.updated_at) refl

profile_of-IfKept :
    (now : ℕ) (rec : Properties) (id name : Value)
    → IfKept (profile_of now rec (named filled_trimmed id) (named filled_trimmed name))
unfolding profile_of files_of sanitize_projection_config sanitize_mirrors_config screens_of
profile_of-IfKept now rec id name = elim (Option-cases (named filled_trimmed id)) [
  | inl e ↦ rw e tt
  | inr (i, e) ↦ elim (Option-cases (named filled_trimmed name)) [
    | inl f ↦ rw (e, f) tt
    | inr (n, f) ↦
        let dir = files_of directory (get "files" rec) in
        let projection = sanitize_projection_config (get "projection" rec) in
        let mirrors = sanitize_mirrors_config (get "mirrors" rec) in
        rw (e, f)
          (λ later.
            sanitize_settings_profile_lem _ later (named-filled_trimmed id i e)
              (named-filled_trimmed name n f)
              (given-Back (files_of directory) files_value dir refl
                (files_of-Back (get "files" rec)))
              (given-Back sanitize_projection_config projection_value projection refl
                (sanitize_projection_config-Back (get "projection" rec)))
              (given-Back sanitize_mirrors_config (screens_value mirror_value) mirrors refl
                (sanitize_mirrors_config-Back (get "mirrors" rec))))
  ]
]

sanitize_settings_profile-IfKept : (now : ℕ) (v : Value) → IfKept (sanitize_settings_profile now v)
unfolding sanitize_settings_profile
sanitize_settings_profile-IfKept now (obj rec) =
    profile_of-IfKept now rec (get "id" rec) (get "name" rec)
sanitize_settings_profile-IfKept now _ = tt

sanitize_entries-IsKept :
    (clock : ℕ → ℕ) (k : ℕ) (vs : List Value) → All IsKept (sanitize_entries clock k vs)
unfolding sanitize_entries
sanitize_entries-IsKept clock k [] = tt
sanitize_entries-IsKept clock k (v ∷ vs) =
    elim (Option-cases (sanitize_settings_profile (clock k) v)) [
      | inl e ↦ rw (e, sanitize_entries) (sanitize_entries-IsKept clock (suc k) vs)
      | inr (entry, e) ↦
          rw (e, sanitize_entries)
            (
              subst IfKept e (sanitize_settings_profile-IfKept (clock k) v),
              sanitize_entries-IsKept clock (suc k) vs,
            )
    ]

sanitize_entries-values :
    (clock : ℕ → ℕ) (k : ℕ) (entries : List Profile)
    → All IsKept entries
    → sanitize_entries clock k (map profile_value entries) ≡ entries
unfolding sanitize_entries
sanitize_entries-values clock k [] h = refl
sanitize_entries-values clock k (entry ∷ rest) h =
    rw (h.0 (clock k), sanitize_entries)
      (ap (entry ∷◌) (sanitize_entries-values clock (suc k) rest h.1))

unseen-IsKept :
    (seen : List String) (entries : List Profile)
    → All IsKept entries
    → All IsKept (unseen seen entries)
unfolding unseen
unseen-IsKept seen [] h = tt
unseen-IsKept seen (entry ∷ rest) h =
    elim (Bool-cases (str_eq entry.id "" || any (λ id. str_eq id entry.id) seen)) [
      | inl e ↦ rw e (unseen-IsKept seen rest h.1)
      | inr e ↦ rw e (h.0, unseen-IsKept (entry.id ∷ seen) rest h.1)
    ]

string_of-nullable : (o : Option String) → string_of (nullable o) ≡ o
string_of-nullable none = refl
string_of-nullable (some s) = refl

sanitize_profiles_lem :
    (clock : ℕ → ℕ) (state : ProfilesState)
    → All IsKept state.entries
    → sanitize_profiles_config clock (profiles_value state)
      ≡ some (normalize_profiles_config (some state))
unfolding sanitize_profiles_config profiles_value get
sanitize_profiles_lem clock state h =
    rw
      (
        string_of-nullable state.active,
        elements-array (map profile_value state.entries),
        sanitize_entries-values clock 0 state.entries h,
      )
      refl

normalize-IsKept :
    (state : ProfilesState)
    → All IsKept state.entries
    → All IsKept (normalize_profiles_config (some state)).entries
unfolding normalize_profiles_config
normalize-IsKept state h = unseen-IsKept [] state.entries h

pub sanitize_profiles_twice :
    (first second : ℕ → ℕ) (v : Value)
    → Back (sanitize_profiles_config second) profiles_value (sanitize_profiles_config first v)
unfolding sanitize_profiles_config
sanitize_profiles_twice first second (obj rec) =
    let entries = sanitize_entries first 0 (or_else (elements_of (get "entries" rec)) []) in
    let state : ProfilesState = record {
      active = string_of (get "activeProfileId" rec);
      entries = entries;
    } in
    let kept = sanitize_entries-IsKept first 0 (or_else (elements_of (get "entries" rec)) []) in
    sanitize_profiles_lem second (normalize_profiles_config (some state))
      (normalize-IsKept state kept)
    ∙ ap some (normalize_profiles_config_twice (some state))
sanitize_profiles_twice first second _ = tt
