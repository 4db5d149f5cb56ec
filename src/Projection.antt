-- ===== src/Projection.antt =====
-- The renderer's side of a projection: apps/desktop/src/renderer/src/projection/routing.ts and
-- target.ts, which choose the screen and call the main process, and lib/liveProjection.ts.
-- The calls of one projection run with no other handler between them.
pub mod Delivery
pub mod FreeMode
use church_presenter.Common.{
  ℕ, pos, Bool, true, false, Option, none, some, not, ◌&&◌, ◌||◌, is_some, if◌then◌else◌,
}
use church_presenter.Ipc.{
  ScreenKey, screen_a, screen_b, screen_c, MirrorMode, free, mirror, TextPayload, MediaPayload,
  PerScreen, get, put, same_key, LiveState,
}
use church_presenter.Screens.{
  Context, MutationResult, ok, refused, is_mirror, is_locked, set_content_text, set_content_media,
}
use church_presenter.Handlers.{LiveSetPayload}

-- The main process as the renderer sees it: its context, and which projection windows are open.
pub record Desk : Type 0 where
  pub context : Context
  pub windows : PerScreen Bool

-- The locks are those of the live state that the renderer holds, or missing.
unfoldable pub should_skip_projection : ScreenKey → Option (PerScreen Bool) → Bool
should_skip_projection target none = false
should_skip_projection target (some locked) = get locked target

unfoldable pub resolve_projection_destination : ScreenKey → MirrorMode → ScreenKey
resolve_projection_destination screen_a meta = screen_a
resolve_projection_destination target free = target
resolve_projection_destination target (mirror from) = from

-- `createScreenWindow`: opening an open window only brings it to the front.
unfoldable pub open_window : ScreenKey → Desk → Desk
open_window key desk = record desk { windows = put desk.windows key true }

-- The window that `resolveProjectionTarget` opens.
unfoldable pub open_target : ScreenKey → Desk → Desk
open_target screen_a desk = open_window screen_a desk
open_target target desk = if get desk.windows target then desk else open_window target desk

abbrev is_mirror_refusal : MutationResult → Bool
is_mirror_refusal (refused is_mirror s) = true
is_mirror_refusal _ = false

-- The part that `projectTextToScreen` and `projectMediaToScreen` share; `send` is the call that
-- sets the content of a screen.
unfoldable pub deliver :
    (Context → ScreenKey → Context × MutationResult)
    → ScreenKey
    → Option (PerScreen Bool)
    → Desk
    → Desk
deliver send target locked desk =
    if should_skip_projection target locked
    then desk
    else let opened = open_target target desk in
      let ctx = opened.context in
      let destination = resolve_projection_destination target (get desk.context.mirrors target) in
      let (ctx', result) = send ctx destination in
      let fallback = resolve_projection_destination target (get ctx'.mirrors target) in
      if same_key destination screen_a
      then record opened { context = ctx' }
      else if is_mirror_refusal result
      then record opened { context = (send ctx' fallback).0 }
      else record opened { context = ctx' }

module _ (clock : ℕ → ℕ) where
  unfoldable pub project_text_to_screen :
      TextPayload → ScreenKey → Option (PerScreen Bool) → Desk → Desk
  project_text_to_screen payload = deliver (λ ctx key. set_content_text clock ctx key payload)

  unfoldable pub project_media_to_screen :
      MediaPayload → ScreenKey → Option (PerScreen Bool) → Desk → Desk
  project_media_to_screen payload = deliver (λ ctx key. set_content_media clock ctx key payload)

unfoldable pub should_reset_for_free_projection : Option LiveState → Bool
should_reset_for_free_projection none = false
should_reset_for_free_projection (some live) =
    live.enabled && (is_some live.plan_id || live.black || live.white)

-- The payload that `ensureReadyForFreeProjection` sends to `live:set`, if it sends one.
unfoldable pub free_projection_payload : Option LiveState → Option LiveSetPayload
free_projection_payload none = none
free_projection_payload (some live) =
    if not live.enabled
    then none
    else if not (should_reset_for_free_projection (some live))
    then none
    else some (record {
      plan_id = if is_some live.plan_id then some none else none;
      cursor = if is_some live.plan_id then some (some (pos 0)) else none;
      enabled = some true;
      target = none;
      black = some false;
      white = some false;
    })
