-- ===== src/Screens/Publish.antt =====
-- What writing one screen and refreshing its mirrors does to each screen, to the mirrors and to
-- the live state.
use mathlib.Core.Path.{subst}
use church_presenter.Common.{
  ℕ, ◌≡◌, ◌≢◌, refl, sym, ◌⊎◌, inl, inr, Bool-cases, some, none, false, true, ◌||◌, if◌then◌else◌,
  arith,
}
use church_presenter.Ipc.{
  ScreenKey, screen_a, screen_b, screen_c, MirrorMode, free, mirror, ProjectionState, get, same_key,
}
use church_presenter.Ipc.Keys.{same_key_refl}
use church_presenter.Screens.{
  Context, MutationResult, ok, refused, is_mirror, is_locked, mirrors_from, broadcast, write_state,
  apply_mirror, apply_mirrors_from, publish, guard_screen, mutate,
}

-- What an audience sees of a state: all but the time of its last change.
abbrev pub view : ProjectionState → ProjectionState
view s = record s { updated_at = 0 }

pub MirrorMode-cases : (m : MirrorMode) → (m ≡ free) ⊎ ((from : ScreenKey) × (m ≡ mirror from))
MirrorMode-cases free = inl refl
MirrorMode-cases (mirror from) = inr (from, refl)

-- Screen `j` shows what is written to screen `key`: it is that screen, or mirrors it.
abbrev pub IsShownOn : Context → ScreenKey → ScreenKey → Type 0
IsShownOn ctx j key = (j ≡ key) ⊎ (get ctx.mirrors j ≡ mirror key)

pub IsShownOn-test :
    (ctx : Context) (j key : ScreenKey)
    → IsShownOn ctx j key
    → (same_key key j || mirrors_from (get ctx.mirrors j) key) ≡ true
IsShownOn-test ctx j key (inl e) = rw (e, same_key_refl key)
IsShownOn-test ctx j key (inr m) = rw m (ground (arith, same_key_refl key))

guard_screen-none :
    (ctx : Context) (key : ScreenKey)
    → get ctx.mirrors key ≡ free
    → get ctx.live_state.locked_screens key ≡ false
    → guard_screen ctx key ≡ none
unfolding guard_screen
guard_screen-none ctx key f l = rw (f, l)

guard_screen-cases :
    (ctx : Context) (key : ScreenKey)
    → ((err : MutationResult) × (guard_screen ctx key ≡ some err))
      ⊎ ((get ctx.mirrors key ≡ free)
          × (get ctx.live_state.locked_screens key ≡ false)
          × (guard_screen ctx key ≡ none))
unfolding guard_screen
guard_screen-cases ctx key = elim (MirrorMode-cases (get ctx.mirrors key)) [
  | inl f ↦ elim (Bool-cases (get ctx.live_state.locked_screens key)) [
    | inl l ↦ inl (refused is_locked (get ctx.screen_states key), rw (f, l))
    | inr l ↦ inr (f, l, rw (f, l))
  ]
  | inr (from, m) ↦ inl (refused is_mirror (get ctx.screen_states key), rw m)
]

module _ (clock : ℕ → ℕ) where
  -- A write shows on its screen and on every screen that mirrors it, and on no other.
  pub publish-view :
      (key j : ScreenKey) (s : ProjectionState) (ctx : Context)
      → view (get (publish clock key s ctx).screen_states j) ≡ (
          if same_key key j || mirrors_from (get ctx.mirrors j) key
          then view s
          else view (get ctx.screen_states j))
  unfolding publish apply_mirrors_from apply_mirror write_state broadcast
  publish-view screen_a screen_a s ctx = ground arith
  publish-view _ _ s ctx = ground arith

  pub publish_untouched :
      (key j : ScreenKey) (s : ProjectionState) (ctx : Context)
      → same_key key j ≡ false
      → mirrors_from (get ctx.mirrors j) key ≡ false
      → get (publish clock key s ctx).screen_states j ≡ get ctx.screen_states j
  unfolding publish apply_mirrors_from apply_mirror write_state broadcast
  publish_untouched screen_a screen_a s ctx h m = ground arith
  publish_untouched _ _ s ctx h m = ground arith

  pub publish-mirrors :
      (key : ScreenKey) (s : ProjectionState) (ctx : Context)
      → (publish clock key s ctx).mirrors ≡ ctx.mirrors
  unfolding publish apply_mirrors_from apply_mirror write_state broadcast
  publish-mirrors screen_a s ctx = ground arith
  publish-mirrors _ s ctx = ground arith

  pub publish-live_state :
      (key : ScreenKey) (s : ProjectionState) (ctx : Context)
      → (publish clock key s ctx).live_state ≡ ctx.live_state
  unfolding publish apply_mirrors_from apply_mirror write_state broadcast
  publish-live_state screen_a s ctx = ground arith
  publish-live_state _ s ctx = ground arith

  -- An operation is refused and changes nothing, or the screen is free and unlocked and the
  -- operation publishes its new state.
  pub mutate-cases :
      (key : ScreenKey) (change : ProjectionState → ProjectionState) (ctx : Context)
      → ((mutate clock key change ctx).0 ≡ ctx)
        ⊎ ((get ctx.mirrors key ≡ free)
            × (get ctx.live_state.locked_screens key ≡ false)
            × ((mutate clock key change ctx).0
                ≡ publish clock key (change (get ctx.screen_states key)) ctx))
  unfolding mutate
  mutate-cases key change ctx = elim (guard_screen-cases ctx key) [
    | inl (err, e) ↦ inl (rw (e, mutate))
    | inr (f, l, e) ↦ inr (f, l, rw (e, mutate))
  ]

  pub mutate_accepted :
      (key : ScreenKey) (change : ProjectionState → ProjectionState) (ctx : Context)
      → get ctx.mirrors key ≡ free
      → get ctx.live_state.locked_screens key ≡ false
      → let ctx' = publish clock key (change (get ctx.screen_states key)) ctx in
        mutate clock key change ctx ≡ (ctx', ok (get ctx'.screen_states key))
  unfolding mutate
  mutate_accepted key change ctx f l = rw (guard_screen-none ctx key f l, mutate)

  -- A refusal leaves the context as it was, and says why: a mirror first, then a lock.
  pub mutate_refused :
      (key : ScreenKey) (change : ProjectionState → ProjectionState) (ctx : Context)
      → (get ctx.mirrors key ≢ free) ⊎ (get ctx.live_state.locked_screens key ≡ true)
      → (mutate clock key change ctx).0 ≡ ctx
  mutate_refused key change ctx r = elim (mutate-cases key change ctx) [
    | inl same ↦ same
    | inr (f, l, _) ↦ elim r [ inl m ↦ absurd (m f) | inr l' ↦ cc ]
  ]

  -- What every write with its broadcast keeps, every operation keeps.
  module _ (P : Context → Type 0)
      (keeps : (key : ScreenKey) (s : ProjectionState) (ctx : Context)
        → P ctx
        → P (broadcast key (write_state clock key s ctx))) where
    apply_mirror_keeps :
        (source k : ScreenKey) (ctx : Context) → P ctx → P (apply_mirror clock source k ctx)
    unfolding apply_mirror
    apply_mirror_keeps source k ctx h = elim (Bool-cases (same_key k source)) [
      | inl e ↦ rw e h
      | inr e ↦ elim (Bool-cases (mirrors_from (get ctx.mirrors k) source)) [
        | inl m ↦ rw (e, m) (keeps k (get ctx.screen_states source) ctx h)
        | inr m ↦ rw (e, m) h
      ]
    ]

    pub publish_keeps :
        (key : ScreenKey) (s : ProjectionState) (ctx : Context)
        → P ctx
        → P (publish clock key s ctx)
    unfolding publish apply_mirrors_from
    publish_keeps key s ctx h =
        apply_mirror_keeps key screen_c _ (
          apply_mirror_keeps key screen_b _ (apply_mirror_keeps key screen_a _ (keeps key s ctx h)))

    pub mutate_keeps :
        (key : ScreenKey) (change : ProjectionState → ProjectionState) (ctx : Context)
        → P ctx
        → P (mutate clock key change ctx).0
    mutate_keeps key change ctx h = elim (mutate-cases key change ctx) [
      | inl same ↦ subst P (sym same) h
      | inr (f, l, new) ↦
          subst P (sym new) (publish_keeps key (change (get ctx.screen_states key)) ctx h)
    ]
