-- ===== src/Profiles/Handlers/Usable.antt =====
-- One of the profiles is in use after every handler.
use mathlib.Core.Path.{subst}
use church_presenter.Common.{
  ℕ, pos, ◌≤◌, String, ◌≡◌, refl, ◌∙◌, inl, inr, Bool, true, false, not, ◌||◌, none, some, List, [],
  ◌∷◌, ◌++◌, str_eq, eq_iff, arith, if◌then◌else◌, any, find, All, All-In, Bool-cases, Option-cases,
  any-true, In-append, length, ltb,
}
use church_presenter.Ipc.{ScreenKey}
use church_presenter.Profiles.{
  Profile, ProfilesState, Runtime, has_profile_id, first_id, read_profiles_state,
  write_profiles_state, build_profile_from_runtime,
}
use church_presenter.Profiles.Normal.{IsUsable, IsNamed}
use church_presenter.Profiles.Store.{write_profiles_state-IsUsable}
use church_presenter.Profiles.Handlers.{
  replace_profile, splice_profile, ensure_profiles_on_startup, Readings, ProfileCommand,
  get_profiles, save_active_profile, create_profile, activate_profile, delete_profile,
  rename_profile, activate, rename, save_active, is_active, is_truthy, apply_active, delete,
  run_command, profile_command, profile_commands,
}
use church_presenter.Profiles.Handlers.Active.{
  apply_profile_to_runtime-read, apply_active-read, any-find, any-replace_profile,
  any-splice_profile, splice_profile-first,
}
use church_presenter.Profiles.Handlers.Ready.{IsReady, build_profile_from_runtime-id, ensure-Both}

module _ (state : ProfilesState) (world : Runtime) (usable : IsUsable state)
    (reads : IsUsable (read_profiles_state world)) where
  abbrev Reads : Runtime → Type 0
  Reads end = IsUsable (read_profiles_state end)

  either-Reads : (b : Bool) (x y : Runtime) → Reads x → Reads y → Reads (if b then x else y)
  either-Reads true x y p q = p
  either-Reads false x y p q = q

  activate-Reads : (id : String) (now : ScreenKey → ℕ) → Reads (activate id state now world).0
  unfolding activate
  activate-Reads id now = elim (Option-cases (find (has_profile_id id) state.entries)) [
    | inl e ↦ rw (e, activate) reads
    | inr (entry, e) ↦
        let found = any-find id state.entries entry e in
        let same : id ≡ entry.id = ground (arith, found.1, eq_iff entry.id id) in
        let inside = subst (λ x. any (has_profile_id x) state.entries ≡ true) same found.0 in
        let next : ProfilesState = record state { active = some entry.id } in
        rw (e, activate)
          (rw (apply_profile_to_runtime-read entry now (write_profiles_state next world)) (
            write_profiles_state-IsUsable next world entry.id refl
              (All-In IsNamed state.entries usable.named found.2) inside))
  ]

  -- Replacing a profile by one of the same id keeps the active one.
  replaced-Reads :
      (id : String) (entry : Profile)
      → str_eq entry.id id ≡ true
      → Reads (
          write_profiles_state
            (record state { entries = replace_profile id entry state.entries })
            world)
  replaced-Reads id entry e =
      let (active, is, named, inside) = usable.active in
      write_profiles_state-IsUsable
        (record state { entries = replace_profile id entry state.entries }) world active is named
        (any-replace_profile active id entry state.entries e ∙ inside)

  rename-Reads : (id name : String) (now : ℕ) → Reads (rename id name now state world).0
  unfolding rename
  rename-Reads id name now = elim (Option-cases (find (has_profile_id id) state.entries)) [
    | inl e ↦ rw (e, rename) reads
    | inr (entry, e) ↦
        rw (e, rename)
          (replaced-Reads id (record entry { name = name; updated_at = pos now })
            (any-find id state.entries entry e).1)
  ]

  save_active-Reads : (now : ℕ) → Reads (save_active now state world).0
  unfolding save_active build_profile_from_runtime
  save_active-Reads now =
      let (active, is, named, inside) = usable.active in
      elim (Option-cases (find (has_profile_id active) state.entries)) [
        | inl e ↦ rw (is, save_active) (rw named (rw e reads))
        | inr (entry, e) ↦
            rw (is, save_active)
              (rw named (
                rw e (
                  replaced-Reads active
                    (build_profile_from_runtime entry.name "" now (some entry) world)
                    (any-find active state.entries entry e).1)))
      ]

  create-Reads :
      (name uuid : String) (now : ℕ)
      → str_eq uuid "" ≡ false
      → let entry = build_profile_from_runtime name uuid now none world in
        Reads (
          write_profiles_state
            (record { active = some entry.id; entries = state.entries ++ entry ∷ [] })
            world)
  create-Reads name uuid now n =
      let entry = build_profile_from_runtime name uuid now none world in
      let same = build_profile_from_runtime-id name uuid now world in
      write_profiles_state-IsUsable
        (record { active = some entry.id; entries = state.entries ++ entry ∷ [] }) world entry.id
        refl (rw same n)
        (any-true (has_profile_id entry.id) (state.entries ++ entry ∷ [])
          (In-append state.entries entry) (ground (arith, eq_iff entry.id entry.id)))

  -- The state after a removal: another profile comes into use if the active one is removed.
  abbrev removed : String → ProfilesState
  removed id = record {
    active =
        if not (is_truthy state.active) || is_active id state.active
        then first_id (splice_profile id state.entries)
        else state.active;
    entries = splice_profile id state.entries;
  }

  removed-Reads :
      (id : String) → 2 ≤ length state.entries → Reads (write_profiles_state (removed id) world)
  removed-Reads id l =
      let (active, is, named, inside) = usable.active in
      let (first, starts, first_named, first_inside) =
        splice_profile-first id state.entries usable.named l in
      elim (Bool-cases (str_eq active id)) [
        | inl e ↦
            write_profiles_state-IsUsable (removed id) world first (rw is (rw named (rw e starts)))
              first_named first_inside
        | inr e ↦
            write_profiles_state-IsUsable (removed id) world active (rw is (rw named (rw e refl)))
              named (any-splice_profile active id state.entries e ∙ inside)
      ]

  delete-Reads : (id : String) (now : ScreenKey → ℕ) → Reads (delete id now state world).0
  unfolding delete
  delete-Reads id now = elim (Bool-cases (ltb (length state.entries) 2)) [
    | inl e ↦ rw e reads
    | inr e ↦ elim (Bool-cases (any (has_profile_id id) state.entries)) [
      | inr f ↦ rw e (rw f reads)
      | inl f ↦
          let kept = removed-Reads id (ground arith) in
          let next = removed id in
          let written = write_profiles_state next world in
          rw e (
            rw f (
              either-Reads (is_active id state.active) (apply_active next now written) written
                (rw (apply_active-read next now written) kept) kept))
    ]
  ]

run_command-IsUsable :
    (command : ProfileCommand) (r : Readings) (state : ProfilesState) (world : Runtime)
    → str_eq r.uuid "" ≡ false
    → IsUsable state
    → IsUsable (read_profiles_state world)
    → IsUsable (read_profiles_state (run_command command r state world).0)
run_command-IsUsable get_profiles r state world m u v = v
run_command-IsUsable save_active_profile r state world m u v =
    save_active-Reads state world u v r.now
run_command-IsUsable (create_profile name) r state world m u v =
    create-Reads state world u v name r.uuid r.now m
run_command-IsUsable (activate_profile id) r state world m u v =
    activate-Reads state world u v id r.screens_now
run_command-IsUsable (delete_profile id) r state world m u v =
    delete-Reads state world u v id r.screens_now
run_command-IsUsable (rename_profile id name) r state world m u v =
    rename-Reads state world u v id name r.now

pub profile_command-IsUsable :
    (command : ProfileCommand) (r : Readings) (world : Runtime)
    → str_eq r.default_uuid "" ≡ false
    → str_eq r.uuid "" ≡ false
    → IsReady world
    → IsUsable (read_profiles_state (profile_command command r world).0)
unfolding profile_command
profile_command-IsUsable command r before n m ready =
    let (world, state) = ensure_profiles_on_startup r.default_uuid r.default_now before in
    let both = ensure-Both r.default_uuid r.default_now before n ready in
    run_command-IsUsable command r state world m both.0 both.1

-- The ids that the readings give are not empty.
abbrev pub HasIds : ProfileCommand × Readings → Type 0
HasIds (command, r) = (str_eq r.default_uuid "" ≡ false) × (str_eq r.uuid "" ≡ false)

-- After any sequence of profile handlers, refused ones included, the saved profiles have different,
-- non-empty ids and one of them is the active one, if at the start there were no profiles or this was so,
-- and the sequence is not empty.
pub profile_commands-IsUsable :
    (first : ProfileCommand × Readings) (rest : List (ProfileCommand × Readings)) (world : Runtime)
    → HasIds first
    → All HasIds rest
    → IsReady world
    → IsUsable (read_profiles_state (profile_commands (first ∷ rest) world))
unfolding profile_commands
profile_commands-IsUsable (command, r) [] world h hs ready =
    profile_command-IsUsable command r world h.0 h.1 ready
profile_commands-IsUsable (command, r) (next ∷ rest) world h hs ready =
    profile_commands-IsUsable next rest (profile_command command r world).0 hs.0 hs.1
      (inr (profile_command-IsUsable command r world h.0 h.1 ready))
