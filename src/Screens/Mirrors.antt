-- ===== src/Screens/Mirrors.antt =====
-- A screen that mirrors a free screen shows what that screen shows.
use church_presenter.Common.{
  ℕ, ◌+◌, ◌≢◌, ◌≡◌, refl, sym, Bool-cases, inl, inr, if◌then◌else◌, arith,
}
use mathlib.Core.Path.{subst}
use church_presenter.Ipc.{ScreenKey, MirrorMode, free, mirror, ProjectionState, get, same_key}
use church_presenter.Screens.Patch.{LivePatch}
use church_presenter.Screens.Live.{apply_live_projection_mode-cases}
use church_presenter.Screens.{
  merge_live, next_live, broadcast_live, Context, publish, mutate, set_mirror, broadcast,
  write_state,
}
use church_presenter.Ipc.Keys.{same_key_comm, same_key-eq-false_of_ne, get-put, eq_of_same_key}
use church_presenter.Screens.Publish.{view, publish-view, publish-mirrors, mutate-cases}

abbrev pub Consistent : Context → Type 0
Consistent ctx =
    (k source : ScreenKey)
    → get ctx.mirrors k ≡ mirror source
    → get ctx.mirrors source ≡ free
    → view (get ctx.screen_states k) ≡ view (get ctx.screen_states source)

free≢mirror : {k : ScreenKey} → free ≢ mirror k
free≢mirror h = cc

-- Breaking a chain of mirrors is the one way to make a mirror stale: a screen may leave its own
-- mirror only if no screen mirrors it.
abbrev pub KeepsChains : ScreenKey → MirrorMode → Context → Type 0
KeepsChains key (mirror from) ctx = Unit
KeepsChains key free ctx = (k : ScreenKey) → get ctx.mirrors k ≢ mirror key

module _ (clock : ℕ → ℕ) where
  pub publish-Consistent :
      (key : ScreenKey) (s : ProjectionState) (ctx : Context)
      → get ctx.mirrors key ≡ free
      → Consistent ctx
      → Consistent (publish clock key s ctx)
  publish-Consistent key s ctx unmirrored h k source m f =
      let m' : get ctx.mirrors k ≡ mirror source = rw (← publish-mirrors clock key s ctx) m in
      let f' : get ctx.mirrors source ≡ free = rw (← publish-mirrors clock key s ctx) f in
      let other = same_key-eq-false_of_ne ctx.mirrors key k (rw (unmirrored, m') free≢mirror) in
      rw
        (
          publish-view clock key k s ctx,
          publish-view clock key source s ctx,
          m',
          f',
          other,
          same_key_comm source key,
        )
        (elim (Bool-cases (same_key key source)) [
          | inl e ↦ rw e refl
          | inr e ↦ rw e (h k source m' f')
        ])

  pub mutate-Consistent :
      (key : ScreenKey) (change : ProjectionState → ProjectionState) (ctx : Context)
      → Consistent ctx
      → Consistent (mutate clock key change ctx).0
  mutate-Consistent key change ctx h = elim (mutate-cases clock key change ctx) [
    | inl same ↦ subst Consistent (sym same) h
    | inr (f, l, new) ↦
        subst Consistent (sym new)
          (publish-Consistent key (change (get ctx.screen_states key)) ctx f h)
  ]

  pub set_mirror-Consistent :
      (ctx : Context) (key : ScreenKey) (m : MirrorMode)
      → KeepsChains key m ctx
      → Consistent ctx
      → Consistent (set_mirror clock ctx key m)
  unfolding set_mirror broadcast write_state
  set_mirror-Consistent ctx key free keeps h k source m f =
      let m' : (if same_key key k then free else get ctx.mirrors k) ≡ mirror source =
        rw (← get-put ctx.mirrors key free k) m in
      let f' : (if same_key key source then free else get ctx.mirrors source) ≡ free =
        rw (← get-put ctx.mirrors key free source) f in
      ground (arith, h k source, keeps k, eq_of_same_key key source)
  set_mirror-Consistent ctx key (mirror from) keeps h k source m f =
      let m' : (if same_key key k then mirror from else get ctx.mirrors k) ≡ mirror source =
        rw (← get-put ctx.mirrors key (mirror from) k) m in
      let f' : (if same_key key source then mirror from else get ctx.mirrors source) ≡ free =
        rw (← get-put ctx.mirrors key (mirror from) source) f in
      rw (get-put ctx.screen_states key _ k, get-put ctx.screen_states key _ source)
        (ground (arith, h k source))

  pub merge_live-Consistent :
      (patch : LivePatch) (ctx : Context) → Consistent ctx → Consistent (merge_live clock patch ctx)
  unfolding merge_live broadcast_live
  merge_live-Consistent patch ctx h =
      let ctx' : Context = record ctx {
        live_state = next_live patch ctx.live_state (clock ctx.reads);
        reads = ctx.reads + 1;
      } in
      elim (apply_live_projection_mode-cases clock ctx') [
        | inl (same, _) ↦ subst Consistent (sym same) h
        | inr (l, f, new) ↦ subst Consistent (sym new) (publish-Consistent _ _ ctx' f h)
      ]
