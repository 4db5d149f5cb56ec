-- ===== src/Projection/FreeMode.antt =====
-- Preparing a free projection: apps/desktop/src/renderer/src/lib/liveProjection.ts with the
-- `live:set` handler that it calls.
use church_presenter.Common.{ℕ, ◌≡◌, refl, false, none, some, Option-cases, inl, inr, arith}
use church_presenter.Ipc.{LiveState}
use church_presenter.Screens.{Context, next_live}
use church_presenter.Screens.Patch.{apply_live_patch}
use church_presenter.Screens.Live.{merge_live-live_state}
use church_presenter.Handlers.{LiveSetPayload, set, live_patch, run_live}
use church_presenter.Projection.{should_reset_for_free_projection, free_projection_payload}

-- `ensureReadyForFreeProjection` on the state that the main process holds.
unfoldable pub ensure_ready : (ℕ → ℕ) → Context → Context
ensure_ready clock ctx = elim (free_projection_payload (some ctx.live_state)) [
  | none ↦ ctx
  | some payload ↦ run_live clock (set payload) ctx
]

ready :
    (live : LiveState) (payload : LiveSetPayload) (now : ℕ)
    → free_projection_payload (some live) ≡ some payload
    → let after = next_live (live_patch (set payload) live) live now in
      (should_reset_for_free_projection (some after) ≡ false) × (after.enabled ≡ live.enabled)
unfolding free_projection_payload should_reset_for_free_projection next_live live_patch
    apply_live_patch
ready live payload now e = ground arith

ready_already :
    (live : LiveState)
    → free_projection_payload (some live) ≡ none
    → should_reset_for_free_projection (some live) ≡ false
unfolding free_projection_payload should_reset_for_free_projection
ready_already live e = ground arith

module _ (clock : ℕ → ℕ) where
  -- Once a free projection is prepared there is nothing left to reset: if live mode is on, no plan
  -- is selected and the screens are neither black nor white. Live mode stays on or off.
  pub ensure_ready_for_free_projection :
      (ctx : Context)
      → let after = ensure_ready clock ctx in
        (should_reset_for_free_projection (some after.live_state) ≡ false)
        × (after.live_state.enabled ≡ ctx.live_state.enabled)
  unfolding ensure_ready run_live
  ensure_ready_for_free_projection ctx =
      elim (Option-cases (free_projection_payload (some ctx.live_state))) [
        | inl e ↦ rw (e, ensure_ready) (ready_already ctx.live_state e, refl)
        | inr (payload, e) ↦
            rw (e, ensure_ready)
              (rw (merge_live-live_state clock (live_patch (set payload) ctx.live_state) ctx)
                (ready ctx.live_state payload _ e))
      ]
