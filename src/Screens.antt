-- ===== src/Screens.antt =====
-- apps/desktop/src/main/ipc/screenState.ts: the states of the three screens, their mirrors and
-- the live state. An operation takes the context and returns the new one beside its result.
-- `clock n` is the value of the n-th `Date.now()`; `sent` lists the broadcasts, newest first.
pub mod Patch
pub mod Defaults
pub mod Publish
pub mod Broadcasts
pub mod Live
pub mod Locks
pub mod Mirrors
use church_presenter.Common.{
  ℕ, ℤ, pos, ◌+◌, String, Bool, true, false, Option, none, some, List, [], ◌∷◌, or_else, first_some,
  is_negative, if◌then◌else◌,
}
use church_presenter.Ipc.{
  ScreenKey, screen_a, screen_b, screen_c, MirrorMode, free, mirror, ProjectionMode, normal, black,
  white, TextPayload, MediaPayload, text, media, ProjectionCurrent, ProjectionState, PerScreen, get,
  put, same_key, LiveState,
}
use Patch.{Appearance, apply_appearance, StatePatch, apply_state_patch, LivePatch, apply_live_patch}

-- What `ctx.broadcast(key)` and `ctx.broadcastLive()` send.
pub data Broadcast : Type 0 where
  state_sent : ScreenKey → ProjectionState → Broadcast
  live_sent : LiveState → Broadcast

pub record Context : Type 0 where
  pub screen_states : PerScreen ProjectionState
  pub mirrors : PerScreen MirrorMode
  pub live_state : LiveState
  pub reads : ℕ
  pub sent : List Broadcast

pub data Reason : Type 0 where
  is_mirror is_locked : Reason

pub data MutationResult : Type 0 where
  ok : ProjectionState → MutationResult
  refused : Reason → ProjectionState → MutationResult

abbrev pub is_mirror_mode : MirrorMode → Bool
is_mirror_mode free = false
is_mirror_mode (mirror k) = true

abbrev pub mirrors_from : MirrorMode → ScreenKey → Bool
mirrors_from free source = false
mirrors_from (mirror from) source = same_key from source

-- `ctx.broadcast(key)`
unfoldable pub broadcast : ScreenKey → Context → Context
broadcast key ctx = record ctx { sent = state_sent key (get ctx.screen_states key) ∷ ctx.sent }

-- `ctx.broadcastLive()`
unfoldable pub broadcast_live : Context → Context
broadcast_live ctx = record ctx { sent = live_sent ctx.live_state ∷ ctx.sent }

unfoldable pub guard_screen : Context → ScreenKey → Option MutationResult
guard_screen ctx key =
    if is_mirror_mode (get ctx.mirrors key)
    then some (refused is_mirror (get ctx.screen_states key))
    else if get ctx.live_state.locked_screens key
    then some (refused is_locked (get ctx.screen_states key))
    else none

-- The mode that the live state asks for.
unfoldable pub live_mode : LiveState → ProjectionMode
live_mode live = if live.black then black else if live.white then white else normal

-- The new live state: the patch, then mutual exclusion of black and white, then the clamp.
-- `target` is never missing, so its default does not arise.
unfoldable pub next_live : LivePatch → LiveState → ℕ → LiveState
next_live patch live now =
    let patched = record (apply_live_patch patch live) { updated_at = now } in
    let no_white =
      if or_else patch.black false then record patched { white = false } else patched in
    let no_black =
      if or_else patch.white false then record no_white { black = false } else no_white in
    if is_negative no_black.cursor then record no_black { cursor = pos 0 } else no_black

-- The `current` value of a text, and of a media file.
unfoldable pub text_current : TextPayload → ProjectionCurrent
text_current payload = record {
  kind = text;
  title = payload.title;
  body = some payload.body;
  media_path = none;
  media_type = none;
  meta_song = payload.meta_song;
  secondary_texts = payload.secondary_texts;
  background_override = payload.background_override;
}

unfoldable pub media_current : MediaPayload → ProjectionCurrent
media_current payload = record {
  kind = media;
  title = payload.title;
  body = none;
  media_path = some payload.media_path;
  media_type = some payload.media_type;
  meta_song = none;
  secondary_texts = none;
  background_override = none;
}

module _ (clock : ℕ → ℕ) where
  -- `ctx.screenStates[key] = { ...state, updatedAt: Date.now() }`
  unfoldable pub write_state : ScreenKey → ProjectionState → Context → Context
  write_state key state ctx = record ctx {
    screen_states = put ctx.screen_states key (record state { updated_at = clock ctx.reads });
    reads = ctx.reads + 1;
  }

  -- One round of the `forEach` of `applyMirrorsFrom`.
  unfoldable pub apply_mirror : ScreenKey → ScreenKey → Context → Context
  apply_mirror source k ctx =
      if same_key k source
      then ctx
      else if mirrors_from (get ctx.mirrors k) source
      then broadcast k (write_state k (get ctx.screen_states source) ctx)
      else ctx

  unfoldable pub apply_mirrors_from : ScreenKey → Context → Context
  apply_mirrors_from source ctx =
      let ctx_a = apply_mirror source screen_a ctx in
      let ctx_b = apply_mirror source screen_b ctx_a in apply_mirror source screen_c ctx_b

  -- The common part of the operations: write the state, broadcast it, refresh the mirrors.
  unfoldable pub publish : ScreenKey → ProjectionState → Context → Context
  publish key state ctx = apply_mirrors_from key (broadcast key (write_state key state ctx))

  -- An operation's guard, then its new state for the screen.
  unfoldable pub mutate :
      ScreenKey → (ProjectionState → ProjectionState) → Context → Context × MutationResult
  mutate key change ctx = elim (guard_screen ctx key) [
    | some err ↦ (ctx, err)
    | none ↦
        let ctx' = publish key (change (get ctx.screen_states key)) ctx in
        (ctx', ok (get ctx'.screen_states key))
  ]

  unfoldable pub set_content_text : Context → ScreenKey → TextPayload → Context × MutationResult
  set_content_text ctx key payload =
      mutate key (λ state. record state { mode = normal; current = text_current payload }) ctx

  unfoldable pub set_content_media : Context → ScreenKey → MediaPayload → Context × MutationResult
  set_content_media ctx key payload =
      mutate key (λ state. record state { mode = normal; current = media_current payload }) ctx

  unfoldable pub set_mode : Context → ScreenKey → ProjectionMode → Context × MutationResult
  set_mode ctx key mode = mutate key (λ state. record state { mode = mode }) ctx

  unfoldable pub set_appearance : Context → ScreenKey → Appearance → Context × MutationResult
  set_appearance ctx key patch = mutate key (apply_appearance patch) ctx

  unfoldable pub set_state_patch : Context → ScreenKey → StatePatch → Context × MutationResult
  set_state_patch ctx key patch = mutate key (apply_state_patch patch) ctx

  unfoldable pub set_mirror : Context → ScreenKey → MirrorMode → Context
  set_mirror ctx key free = record ctx { mirrors = put ctx.mirrors key free }
  set_mirror ctx key (mirror from) =
      let ctx' = record ctx { mirrors = put ctx.mirrors key (mirror from) } in
      broadcast key (write_state key (get ctx'.screen_states from) ctx')

  unfoldable pub apply_live_projection_mode : Context → Context
  apply_live_projection_mode ctx =
      let key = ctx.live_state.target in
      if get ctx.live_state.locked_screens key
      then ctx
      else if is_mirror_mode (get ctx.mirrors key)
      then ctx
      else publish key (record (get ctx.screen_states key) { mode = live_mode ctx.live_state }) ctx

  unfoldable pub merge_live : LivePatch → Context → Context
  merge_live patch ctx =
      let ctx' = record ctx {
        live_state = next_live patch ctx.live_state (clock ctx.reads);
        reads = ctx.reads + 1;
      } in
      broadcast_live (apply_live_projection_mode ctx')
