-- ===== src/Screens/Live.antt =====
-- The live state of apps/desktop/src/main/ipc/screenState.ts: what `mergeLive` makes of it, and the
-- mode that it gives to the target screen.
use mathlib.Core.Path.{subst}
use church_presenter.Common.{
  ℕ, ◌≡◌, ◌≢◌, refl, sym, ap, ◌+◌, ◌⊎◌, inl, inr, Bool-cases, false, true, ◌&&◌, or_else,
  is_negative, arith,
}
use church_presenter.Ipc.{ScreenKey, ProjectionState, free, get, LiveState}
use church_presenter.Screens.Patch.{LivePatch, apply_live_patch}
use church_presenter.Screens.Publish.{
  IsShownOn, IsShownOn-test, publish-view, MirrorMode-cases, publish_keeps,
}
use church_presenter.Screens.{
  Context, publish, live_mode, apply_live_projection_mode, next_live, merge_live, broadcast_live,
  broadcast, write_state,
}

-- The screens are never asked to be black and white at once, and the cursor is an index.
pub record IsSound (live : LiveState) : Type 0 where
  pub exclusive : live.black && live.white ≡ false
  pub cursor : is_negative live.cursor ≡ false

pub next_live-IsSound :
    (patch : LivePatch) (live : LiveState) (now : ℕ)
    → IsSound live
    → IsSound (next_live patch live now)
unfolding next_live apply_live_patch
next_live-IsSound patch live now h = ground arith

pub next_live-locked_screens :
    (patch : LivePatch) (live : LiveState) (now : ℕ)
    → (next_live patch live now).locked_screens ≡ or_else patch.locked_screens live.locked_screens
unfolding next_live apply_live_patch
next_live-locked_screens patch live now = ground arith

module _ (clock : ℕ → ℕ) where
  pub apply_live_projection_mode-cases :
      (ctx : Context)
      → ((apply_live_projection_mode clock ctx ≡ ctx)
          × ((get ctx.live_state.locked_screens ctx.live_state.target ≡ true)
              ⊎ (get ctx.mirrors ctx.live_state.target ≢ free)))
        ⊎ ((get ctx.live_state.locked_screens ctx.live_state.target ≡ false)
            × (get ctx.mirrors ctx.live_state.target ≡ free)
            × (apply_live_projection_mode clock ctx
                ≡ publish clock ctx.live_state.target
                    (record (get ctx.screen_states ctx.live_state.target) {
                      mode = live_mode ctx.live_state;
                    })
                    ctx))
  unfolding apply_live_projection_mode
  apply_live_projection_mode-cases ctx =
      elim (Bool-cases (get ctx.live_state.locked_screens ctx.live_state.target)) [
        | inl l ↦ inl (rw l, inl l)
        | inr l ↦ elim (MirrorMode-cases (get ctx.mirrors ctx.live_state.target)) [
          | inl f ↦ inr (l, f, rw (l, f))
          | inr (from, m) ↦ inl (rw (l, m), inr (λ f. cc))
        ]
      ]

  pub apply_live_keeps :
      (P : Context → Type 0)
      → ((key : ScreenKey) (s : ProjectionState) (ctx : Context)
          → P ctx
          → P (broadcast key (write_state clock key s ctx)))
      → (ctx : Context) → P ctx
      → P (apply_live_projection_mode clock ctx)
  apply_live_keeps P keeps ctx h = elim (apply_live_projection_mode-cases ctx) [
    | inl (same, _) ↦ subst P (sym same) h
    | inr (l, f, new) ↦ subst P (sym new) (publish_keeps clock P keeps _ _ ctx h)
  ]

  -- The handler's own effects on the live state: the merged state, whatever the screens do.
  pub merge_live-live_state :
      (patch : LivePatch) (ctx : Context)
      → (merge_live clock patch ctx).live_state ≡ next_live patch ctx.live_state (clock ctx.reads)
  unfolding merge_live broadcast_live
  merge_live-live_state patch ctx =
      apply_live_keeps (λ c. c.live_state ≡ next_live patch ctx.live_state (clock ctx.reads))
        (λ key s c e. unfold broadcast write_state in e) _ refl

  pub merge_live-mirrors :
      (patch : LivePatch) (ctx : Context) → (merge_live clock patch ctx).mirrors ≡ ctx.mirrors
  unfolding merge_live broadcast_live
  merge_live-mirrors patch ctx =
      apply_live_keeps (λ c. c.mirrors ≡ ctx.mirrors)
        (λ key s c e. unfold broadcast write_state in e) _ refl

  apply_live_projection_mode-mode :
      (ctx : Context) (j : ScreenKey)
      → get ctx.live_state.locked_screens ctx.live_state.target ≡ false
      → get ctx.mirrors ctx.live_state.target ≡ free
      → IsShownOn ctx j ctx.live_state.target
      → (get (apply_live_projection_mode clock ctx).screen_states j).mode ≡ live_mode ctx.live_state
  apply_live_projection_mode-mode ctx j l f shown = elim (apply_live_projection_mode-cases ctx) [
    | inl (_, inl l') ↦ cc
    | inl (_, inr m) ↦ absurd (m f)
    | inr (_, _, new) ↦ rw new (
        rw (IsShownOn-test ctx j ctx.live_state.target shown) at (
          ap (λ s. s.mode)
            (publish-view clock ctx.live_state.target j
              (record (get ctx.screen_states ctx.live_state.target) {
                mode = live_mode ctx.live_state;
              })
              ctx)))
  ]

  -- A free, unlocked target shows the live state's mode after every merge, and so does every
  -- screen that mirrors it.
  pub merge_live-mode :
      (patch : LivePatch) (ctx : Context) (j : ScreenKey)
      → let live = next_live patch ctx.live_state (clock ctx.reads) in
        get live.locked_screens live.target ≡ false
        → get ctx.mirrors live.target ≡ free
        → IsShownOn ctx j live.target
        → (get (merge_live clock patch ctx).screen_states j).mode ≡ live_mode live
  unfolding merge_live broadcast_live
  merge_live-mode patch ctx j l f shown =
      apply_live_projection_mode-mode
        (record ctx {
          live_state = next_live patch ctx.live_state (clock ctx.reads);
          reads = ctx.reads + 1;
        })
        j l f shown
