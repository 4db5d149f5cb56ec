-- ===== src/Screens/Locks.antt =====
-- A locked screen that mirrors no other is frozen.
use mathlib.Core.Path.{subst}
use church_presenter.Common.{ℕ, ◌+◌, ◌≡◌, sym, ◌∙◌, inl, inr, or_else, true, false}
use church_presenter.Ipc.{ScreenKey, MirrorMode, free, mirror, ProjectionState, get, same_key}
use church_presenter.Ipc.Keys.{same_key-eq-false_of_ne, get-put}
use church_presenter.Screens.Patch.{LivePatch}
use church_presenter.Screens.Publish.{
  publish_untouched, publish-mirrors, publish-live_state, mutate-cases,
}
use church_presenter.Screens.Live.{next_live-locked_screens, apply_live_projection_mode-cases}
use church_presenter.Screens.{
  Context, broadcast, write_state, publish, mutate, set_mirror, next_live, merge_live,
  broadcast_live, apply_live_projection_mode,
}

-- Screen `k` is locked and free, and shows `s`.
pub record IsFrozen (k : ScreenKey) (s : ProjectionState) (ctx : Context) : Type 0 where
  pub locked : get ctx.live_state.locked_screens k ≡ true
  pub unmirrored : get ctx.mirrors k ≡ free
  pub shows : get ctx.screen_states k ≡ s

module _ (clock : ℕ → ℕ) (k : ScreenKey) (s : ProjectionState) where
  publish-IsFrozen :
      (key : ScreenKey) (t : ProjectionState) (ctx : Context)
      → get ctx.live_state.locked_screens key ≡ false
      → IsFrozen k s ctx
      → IsFrozen k s (publish clock key t ctx)
  publish-IsFrozen key t ctx unlocked h =
      let other =
        same_key-eq-false_of_ne ctx.live_state.locked_screens key k
          (rw (unlocked, h.locked) (λ e. cc)) in
      record {
        locked = rw (publish-live_state clock key t ctx) h.locked;
        unmirrored = rw (publish-mirrors clock key t ctx) h.unmirrored;
        shows = publish_untouched clock key k t ctx other (rw h.unmirrored) ∙ h.shows;
      }

  pub mutate-IsFrozen :
      (key : ScreenKey) (change : ProjectionState → ProjectionState) (ctx : Context)
      → IsFrozen k s ctx
      → IsFrozen k s (mutate clock key change ctx).0
  mutate-IsFrozen key change ctx h = elim (mutate-cases clock key change ctx) [
    | inl same ↦ subst (IsFrozen k s) (sym same) h
    | inr (f, l, new) ↦
        subst (IsFrozen k s) (sym new)
          (publish-IsFrozen key (change (get ctx.screen_states key)) ctx l h)
  ]

  pub set_mirror-IsFrozen :
      (ctx : Context) (key : ScreenKey) (m : MirrorMode)
      → same_key key k ≡ false
      → IsFrozen k s ctx
      → IsFrozen k s (set_mirror clock ctx key m)
  unfolding set_mirror broadcast write_state
  set_mirror-IsFrozen ctx key free other h = record {
    locked = h.locked;
    unmirrored = rw (get-put ctx.mirrors key free k, other) h.unmirrored;
    shows = h.shows;
  }
  set_mirror-IsFrozen ctx key (mirror from) other h = record {
    locked = h.locked;
    unmirrored = rw (get-put ctx.mirrors key (mirror from) k, other) h.unmirrored;
    shows = rw (get-put ctx.screen_states key _ k, other) h.shows;
  }

  apply_live-IsFrozen :
      (ctx : Context) → IsFrozen k s ctx → IsFrozen k s (apply_live_projection_mode clock ctx)
  apply_live-IsFrozen ctx h = elim (apply_live_projection_mode-cases clock ctx) [
    | inl (same, _) ↦ subst (IsFrozen k s) (sym same) h
    | inr (l, f, new) ↦ subst (IsFrozen k s) (sym new) (publish-IsFrozen _ _ ctx l h)
  ]

  pub merge_live-IsFrozen :
      (patch : LivePatch) (ctx : Context)
      → get (or_else patch.locked_screens ctx.live_state.locked_screens) k ≡ true
      → IsFrozen k s ctx
      → IsFrozen k s (merge_live clock patch ctx)
  unfolding merge_live broadcast_live
  merge_live-IsFrozen patch ctx keeps h =
      let locks = next_live-locked_screens patch ctx.live_state (clock ctx.reads) in
      let before : IsFrozen k s (record ctx {
        live_state = next_live patch ctx.live_state (clock ctx.reads);
        reads = ctx.reads + 1;
      }) =
        record { locked = rw locks keeps; unmirrored = h.unmirrored; shows = h.shows } in
      let after = apply_live-IsFrozen _ before in
      record { locked = after.locked; unmirrored = after.unmirrored; shows = after.shows }
