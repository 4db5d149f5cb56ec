-- ===== src/Handlers/Commands.antt =====
-- Navigation and the black and white switches of the live state, as the handlers of
-- apps/desktop/src/main/main.ts compose them.
use church_presenter.Common.{ℕ, ◌≡◌, arith, if◌then◌else◌}
use church_presenter.Ipc.{LiveState, black, normal}
use church_presenter.Screens.{Context, live_mode, next_live}
use church_presenter.Screens.Patch.{apply_live_patch}
use church_presenter.Screens.Live.{IsSound, merge_live-live_state}
use church_presenter.Handlers.{LiveCommand, next, prev, toggle_black, live_patch, run_live}

-- What a command makes of the live state, at a time `now`.
next_live_of : LiveCommand → LiveState → ℕ → LiveState
next_live_of cmd live now = next_live (live_patch cmd live) live now

prev-next :
    (live : LiveState) (now now' : ℕ)
    → IsSound live
    → (next_live_of prev (next_live_of next live now) now').cursor ≡ live.cursor
unfolding next_live_of next_live live_patch apply_live_patch
prev-next live now now' h = ground arith

toggle_black-toggle_black :
    (live : LiveState) (now now' : ℕ)
    → IsSound live
    → let twice = next_live_of toggle_black (next_live_of toggle_black live now) now' in
      (twice.black ≡ live.black) × (live_mode twice ≡ (if live.black then black else normal))
unfolding next_live_of next_live live_patch apply_live_patch live_mode
toggle_black-toggle_black live now now' h = ground arith

module _ (clock : ℕ → ℕ) where
  run_live-live_state :
      (cmd : LiveCommand) (ctx : Context)
      → (run_live clock cmd ctx).live_state ≡ next_live_of cmd ctx.live_state (clock ctx.reads)
  unfolding run_live next_live_of
  run_live-live_state cmd ctx = merge_live-live_state clock (live_patch cmd ctx.live_state) ctx

  -- From a sound live state, the next slide and then the previous one lead back to the cursor.
  pub run_live-prev-next :
      (ctx : Context)
      → IsSound ctx.live_state
      → (run_live clock prev (run_live clock next ctx)).live_state.cursor ≡ ctx.live_state.cursor
  run_live-prev-next ctx h =
      rw (run_live-live_state prev (run_live clock next ctx), run_live-live_state next ctx)
        (prev-next ctx.live_state _ _ h)

  -- From a sound live state, the black switch pressed twice leads back to black or not black, and
  -- the screens are then asked to be black or normal: a white screen does not come back.
  pub run_live-toggle_black_twice :
      (ctx : Context)
      → IsSound ctx.live_state
      → let twice = (run_live clock toggle_black (run_live clock toggle_black ctx)).live_state in
        (twice.black ≡ ctx.live_state.black)
        × (live_mode twice ≡ (if ctx.live_state.black then black else normal))
  run_live-toggle_black_twice ctx h =
      rw
        (
          run_live-live_state toggle_black (run_live clock toggle_black ctx),
          run_live-live_state toggle_black ctx,
        )
        (toggle_black-toggle_black ctx.live_state _ _ h)
