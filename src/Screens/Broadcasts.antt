-- ===== src/Screens/Broadcasts.antt =====
-- The windows hold what was broadcast to them last, and that is the current state.
use church_presenter.Common.{
  ℕ, ◌≡◌, refl, Option, none, some, List, [], ◌∷◌, or_else, if◌then◌else◌, arith,
}
use church_presenter.Ipc.{
  ScreenKey, MirrorMode, free, mirror, ProjectionState, get, put, same_key, LiveState,
}
use church_presenter.Ipc.Keys.{get-put}
use church_presenter.Screens.Patch.{LivePatch}
use church_presenter.Screens.Live.{apply_live_keeps}
use church_presenter.Screens.{
  Broadcast, state_sent, live_sent, Context, broadcast, broadcast_live, write_state, set_mirror,
  merge_live,
}

-- The state that the last broadcast for a screen carried.
abbrev pub received : ScreenKey → List Broadcast → Option ProjectionState
received k [] = none
received k (state_sent key s ∷ sent) = if same_key key k then some s else received k sent
received k (live_sent l ∷ sent) = received k sent

abbrev pub received_live : List Broadcast → Option LiveState
received_live [] = none
received_live (state_sent key s ∷ sent) = received_live sent
received_live (live_sent l ∷ sent) = some l

module _ (start : Context) where
  -- A window starts with the states of `start`, and keeps what it receives.
  abbrev pub ScreensInStep : Context → Type 0
  ScreensInStep ctx =
      (k : ScreenKey)
      → or_else (received k ctx.sent) (get start.screen_states k) ≡ get ctx.screen_states k

  abbrev pub LiveInStep : Context → Type 0
  LiveInStep ctx = or_else (received_live ctx.sent) start.live_state ≡ ctx.live_state

  module _ (clock : ℕ → ℕ) where
    pub write-ScreensInStep :
        (key : ScreenKey) (s : ProjectionState) (ctx : Context)
        → ScreensInStep ctx
        → ScreensInStep (broadcast key (write_state clock key s ctx))
    unfolding broadcast write_state
    write-ScreensInStep key s ctx h k =
        rw (get-put ctx.screen_states key _ k, get-put ctx.screen_states key _ key)
          (ground (arith, h k))

    pub write-LiveInStep :
        (key : ScreenKey) (s : ProjectionState) (ctx : Context)
        → LiveInStep ctx
        → LiveInStep (broadcast key (write_state clock key s ctx))
    unfolding broadcast write_state
    write-LiveInStep key s ctx h = h

    pub set_mirror-ScreensInStep :
        (ctx : Context) (key : ScreenKey) (m : MirrorMode)
        → ScreensInStep ctx
        → ScreensInStep (set_mirror clock ctx key m)
    unfolding set_mirror
    set_mirror-ScreensInStep ctx key free h = h
    set_mirror-ScreensInStep ctx key (mirror from) h =
        write-ScreensInStep key (get ctx.screen_states from)
          (record ctx { mirrors = put ctx.mirrors key (mirror from) }) h

    pub set_mirror-LiveInStep :
        (ctx : Context) (key : ScreenKey) (m : MirrorMode)
        → LiveInStep ctx
        → LiveInStep (set_mirror clock ctx key m)
    unfolding set_mirror broadcast write_state
    set_mirror-LiveInStep ctx key free h = h
    set_mirror-LiveInStep ctx key (mirror from) h = h

    -- Between the change of the live state and its broadcast the windows lag behind.
    pub merge_live-ScreensInStep :
        (patch : LivePatch) (ctx : Context)
        → ScreensInStep ctx
        → ScreensInStep (merge_live clock patch ctx)
    unfolding merge_live broadcast_live
    merge_live-ScreensInStep patch ctx h =
        apply_live_keeps clock ScreensInStep write-ScreensInStep _ h

    pub merge_live-LiveInStep :
        (patch : LivePatch) (ctx : Context) → LiveInStep (merge_live clock patch ctx)
    unfolding merge_live broadcast_live
    merge_live-LiveInStep patch ctx = refl
