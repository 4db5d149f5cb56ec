-- ===== src/Handlers/Invariants.antt =====
-- What holds after any sequence of handlers.
use church_presenter.Common.{ℕ, ◌≡◌, refl, false, List, [], ◌∷◌}
use church_presenter.Ipc.{ScreenKey, MirrorMode, ProjectionState, free, mirror, get, same_key}
use church_presenter.Ipc.Keys.{get-put}
use church_presenter.Screens.{
  Context, mutate, set_mirror, broadcast, write_state, set_content_text, set_content_media,
  set_mode, set_appearance, set_state_patch, live_mode,
}
use church_presenter.Screens.Publish.{mutate_keeps, IsShownOn}
use church_presenter.Screens.Mirrors.{
  Consistent, KeepsChains, mutate-Consistent, set_mirror-Consistent, merge_live-Consistent,
}
use church_presenter.Screens.Live.{
  IsSound, next_live-IsSound, merge_live-live_state, merge_live-mode,
}
use church_presenter.Screens.Locks.{
  IsFrozen, mutate-IsFrozen, set_mirror-IsFrozen, merge_live-IsFrozen,
}
use church_presenter.Screens.Broadcasts.{
  ScreensInStep, LiveInStep, write-ScreensInStep, write-LiveInStep, set_mirror-ScreensInStep,
  set_mirror-LiveInStep, merge_live-ScreensInStep, merge_live-LiveInStep,
}
use church_presenter.Handlers.{
  LiveCommand, set_locked, live_patch, Command, content_text, content_media, mode, appearance,
  state_patch, mirroring, live, run_live, handle, handle_all,
}

module _ (clock : ℕ → ℕ) where
  -- Each handler is allowed where it runs.
  abbrev pub AllAllowed : (Command → Context → Type 0) → List Command → Context → Type 0
  AllAllowed Allowed [] ctx = Unit
  AllAllowed Allowed (cmd ∷ cmds) ctx =
      Allowed cmd ctx × AllAllowed Allowed cmds (handle clock cmd ctx)

  -- What the operations on one screen, a change of mirror and a merge of the live state keep,
  -- every handler keeps.
  module _ (P : Context → Type 0)
      (mutate_ok : (key : ScreenKey) (change : ProjectionState → ProjectionState) (ctx : Context)
        → P ctx
        → P (mutate clock key change ctx).0)
      (Allowed : Command → Context → Type 0)
      (mirror_ok : (key : ScreenKey) (m : MirrorMode) (ctx : Context)
        → Allowed (mirroring key m) ctx
        → P ctx
        → P (set_mirror clock ctx key m))
      (live_ok : (cmd : LiveCommand) (ctx : Context)
        → Allowed (live cmd) ctx
        → P ctx
        → P (run_live clock cmd ctx)) where
    handle_keeps :
        (cmd : Command) (ctx : Context) → Allowed cmd ctx → P ctx → P (handle clock cmd ctx)
    unfolding handle set_content_text set_content_media set_mode set_appearance set_state_patch
    handle_keeps (content_text key payload) ctx a h = mutate_ok key _ ctx h
    handle_keeps (content_media key payload) ctx a h = mutate_ok key _ ctx h
    handle_keeps (mode key m) ctx a h = mutate_ok key _ ctx h
    handle_keeps (appearance key patch) ctx a h = mutate_ok key _ ctx h
    handle_keeps (state_patch key patch) ctx a h = mutate_ok key _ ctx h
    handle_keeps (mirroring key m) ctx a h = mirror_ok key m ctx a h
    handle_keeps (live cmd) ctx a h = live_ok cmd ctx a h

    handle_all_keeps :
        (cmds : List Command) (ctx : Context)
        → AllAllowed Allowed cmds ctx
        → P ctx
        → P (handle_all clock cmds ctx)
    unfolding handle_all
    handle_all_keeps [] ctx a h = h
    handle_all_keeps (cmd ∷ cmds) ctx (a, as') h =
        handle_all_keeps cmds (handle clock cmd ctx) as' (handle_keeps cmd ctx a h)

  -- Every change of a mirror is allowed that breaks no chain of mirrors.
  abbrev pub AllowsMirrors : Command → Context → Type 0
  AllowsMirrors (mirroring key m) ctx = KeepsChains key m ctx
  AllowsMirrors _ ctx = Unit

  -- After any sequence of the handlers of screens, projection and live state in which no screen that is itself
  -- mirrored leaves its mirror,
  -- every screen that mirrors a free screen shows what that screen shows, if this was so before.
  pub handle_all-Consistent :
      (cmds : List Command) (ctx : Context)
      → AllAllowed AllowsMirrors cmds ctx
      → Consistent ctx
      → Consistent (handle_all clock cmds ctx)
  unfolding run_live
  handle_all-Consistent =
      handle_all_keeps Consistent (mutate-Consistent clock) AllowsMirrors
        (λ key m ctx a h. set_mirror-Consistent clock ctx key m a h)
        (λ cmd ctx a h. merge_live-Consistent clock (live_patch cmd ctx.live_state) ctx h)

  -- The commands that neither unlock screen `k` (nor lock it again) nor change its mirror.
  abbrev pub LeavesAlone : ScreenKey → Command → Context → Type 0
  LeavesAlone k (mirroring key m) ctx = same_key key k ≡ false
  LeavesAlone k (live (set_locked key locked)) ctx = same_key key k ≡ false
  LeavesAlone k _ ctx = Unit

  run_live-IsFrozen :
      (k : ScreenKey) (s : ProjectionState) (cmd : LiveCommand) (ctx : Context)
      → LeavesAlone k (live cmd) ctx
      → IsFrozen k s ctx
      → IsFrozen k s (run_live clock cmd ctx)
  unfolding run_live live_patch
  run_live-IsFrozen k s (set_locked key locked) ctx other h =
      merge_live-IsFrozen clock k s _ ctx
        (rw (get-put ctx.live_state.locked_screens key locked k, other) h.locked) h
  run_live-IsFrozen k s _ ctx other h = merge_live-IsFrozen clock k s _ ctx h.locked h

  -- A screen that is locked and mirrors no other keeps its state, the time of its last change
  -- included, through any sequence of the handlers of screens, projection and live state that leave its lock and its
  -- mirror alone.
  pub handle_all-IsFrozen :
      (k : ScreenKey) (s : ProjectionState) (cmds : List Command) (ctx : Context)
      → AllAllowed (LeavesAlone k) cmds ctx
      → IsFrozen k s ctx
      → IsFrozen k s (handle_all clock cmds ctx)
  handle_all-IsFrozen k s =
      handle_all_keeps (IsFrozen k s) (mutate-IsFrozen clock k s) (LeavesAlone k)
        (λ key m ctx a h. set_mirror-IsFrozen clock k s ctx key m a h) (run_live-IsFrozen k s)

  abbrev AllowsAll : Command → Context → Type 0
  AllowsAll cmd ctx = Unit

  all_allowed : (cmds : List Command) (ctx : Context) → AllAllowed AllowsAll cmds ctx
  all_allowed [] ctx = tt
  all_allowed (cmd ∷ cmds) ctx = (tt, all_allowed cmds (handle clock cmd ctx))

  -- After any sequence of the handlers of screens, projection and live state the live state is not black and white at once, and its cursor
  -- is not negative, if this was so before.
  pub handle_all-IsSound :
      (cmds : List Command) (ctx : Context)
      → IsSound ctx.live_state
      → IsSound (handle_all clock cmds ctx).live_state
  handle_all-IsSound cmds ctx =
      handle_all_keeps (λ c. IsSound c.live_state)
        (mutate_keeps clock (λ c. IsSound c.live_state) write-IsSound) AllowsAll set_mirror-IsSound
        run_live-IsSound cmds ctx (all_allowed cmds ctx)
    where
      write-IsSound :
          (key : ScreenKey) (s : ProjectionState) (c : Context)
          → IsSound c.live_state
          → IsSound (broadcast key (write_state clock key s c)).live_state
      write-IsSound key s c h = unfold broadcast write_state in h

      set_mirror-IsSound :
          (key : ScreenKey) (m : MirrorMode) (c : Context)
          → Unit {0}
          → IsSound c.live_state
          → IsSound (set_mirror clock c key m).live_state
      set_mirror-IsSound key free c a h = unfold set_mirror in h
      set_mirror-IsSound key (mirror from) c a h = unfold set_mirror broadcast write_state in h

      run_live-IsSound :
          (cmd : LiveCommand) (c : Context)
          → Unit {0}
          → IsSound c.live_state
          → IsSound (run_live clock cmd c).live_state
      run_live-IsSound cmd c a h =
          unfold run_live in
          rw (merge_live-live_state clock (live_patch cmd c.live_state) c)
            (next_live-IsSound _ _ _ h)

  -- From a start with nothing sent, after any sequence of the handlers of screens, projection and live state a window that kept the start's
  -- states and then each state that it was sent shows the current state of every screen, and the
  -- current live state.
  pub handle_all-in_step :
      (cmds : List Command) (start : Context)
      → start.sent ≡ []
      → ScreensInStep start (handle_all clock cmds start)
        × LiveInStep start (handle_all clock cmds start)
  unfolding run_live
  handle_all-in_step cmds start none_sent = (
    handle_all_keeps (ScreensInStep start)
        (mutate_keeps clock (ScreensInStep start) (write-ScreensInStep start clock)) AllowsAll
        (λ key m ctx a h. set_mirror-ScreensInStep start clock ctx key m h)
        (λ cmd ctx a h. merge_live-ScreensInStep start clock (live_patch cmd ctx.live_state) ctx h)
        cmds start (all_allowed cmds start) (λ k. rw none_sent refl),
    handle_all_keeps (LiveInStep start)
        (mutate_keeps clock (LiveInStep start) (write-LiveInStep start clock)) AllowsAll
        (λ key m ctx a h. set_mirror-LiveInStep start clock ctx key m h)
        (λ cmd ctx a h. merge_live-LiveInStep start clock (live_patch cmd ctx.live_state) ctx) cmds
        start (all_allowed cmds start) (rw none_sent refl),
  )

  -- After a live command, a target that is unlocked and mirrors no other shows the mode that the
  -- new live state asks for, black before white before normal, and so does every screen that
  -- mirrors the target.
  pub run_live-mode :
      (cmd : LiveCommand) (ctx : Context) (j : ScreenKey)
      → let after = run_live clock cmd ctx in
        get after.live_state.locked_screens after.live_state.target ≡ false
        → get ctx.mirrors after.live_state.target ≡ free
        → IsShownOn ctx j after.live_state.target
        → (get after.screen_states j).mode ≡ live_mode after.live_state
  unfolding run_live
  run_live-mode cmd ctx j =
      rw (merge_live-live_state clock (live_patch cmd ctx.live_state) ctx)
        (merge_live-mode clock (live_patch cmd ctx.live_state) ctx j)
