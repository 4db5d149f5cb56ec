-- ===== src/Handlers.antt =====
-- The handlers of apps/desktop/src/main/main.ts that act on the screens and on the live state: the
-- IPC channels `screens:*` and `live:*`, the `projection:*` channels, which are the same on screen
-- A, and the commands that a remote client sends over the socket.
pub mod Invariants
pub mod Commands
use church_presenter.Common.{
  ℕ, ℤ, pos, String, Bool, true, false, not, Option, none, some, List, [], ◌∷◌, or_else, add_one,
  sub_one, max_zero, str_eq, if◌then◌else◌,
}
use church_presenter.Ipc.{
  ScreenKey, screen_a, MirrorMode, ProjectionMode, TextPayload, MediaPayload, put, LiveState,
}
use church_presenter.Screens.Patch.{Appearance, StatePatch, LivePatch, no_change}
use church_presenter.Screens.{
  Context, set_content_text, set_content_media, set_mode, set_appearance, set_state_patch,
  set_mirror, merge_live,
}

-- `CpLiveSetPayload`: a field that the payload gives may still be null.
pub record LiveSetPayload : Type 0 where
  pub plan_id : Option (Option String)
  pub cursor : Option (Option ℤ)
  pub enabled : Option Bool
  pub target : Option ScreenKey
  pub black : Option Bool
  pub white : Option Bool

pub data LiveCommand : Type 0 where
  set : LiveSetPayload → LiveCommand
  toggle next prev toggle_black toggle_white resume : LiveCommand
  set_cursor : ℤ → LiveCommand
  set_target : ScreenKey → LiveCommand
  set_locked : ScreenKey → Bool → LiveCommand

-- The patch that `live:set` builds from its payload: a null cursor is dropped.
unfoldable pub live_set_patch : LiveSetPayload → LivePatch
live_set_patch payload = record no_change {
  plan_id = payload.plan_id;
  cursor = or_else payload.cursor none;
  enabled = payload.enabled;
  target = payload.target;
  black = payload.black;
  white = payload.white;
}

-- The patch that each `live:*` channel merges.
unfoldable pub live_patch : LiveCommand → LiveState → LivePatch
unfolding live_set_patch
live_patch (set payload) live = live_set_patch payload
live_patch toggle live = record no_change { enabled = some (not live.enabled) }
live_patch next live = record no_change { cursor = some (add_one live.cursor); enabled = some true }
live_patch prev live = record no_change {
  cursor = some (max_zero (sub_one live.cursor));
  enabled = some true;
}
live_patch toggle_black live = record no_change {
  black = some (not live.black);
  enabled = some true;
}
live_patch toggle_white live = record no_change {
  white = some (not live.white);
  enabled = some true;
}
live_patch resume live = record no_change {
  black = some false;
  white = some false;
  enabled = some true;
}
live_patch (set_cursor cursor) live = record no_change { cursor = some cursor; enabled = some true }
live_patch (set_target key) live = record no_change { target = some key }
live_patch (set_locked key locked) live = record no_change {
  locked_screens = some (put live.locked_screens key locked);
}

pub data Command : Type 0 where
  content_text : ScreenKey → TextPayload → Command
  content_media : ScreenKey → MediaPayload → Command
  mode : ScreenKey → ProjectionMode → Command
  appearance : ScreenKey → Appearance → Command
  state_patch : ScreenKey → StatePatch → Command
  mirroring : ScreenKey → MirrorMode → Command
  live : LiveCommand → Command

module _ (clock : ℕ → ℕ) where
  unfoldable pub run_live : LiveCommand → Context → Context
  run_live cmd ctx = merge_live clock (live_patch cmd ctx.live_state) ctx

  -- `onLiveCommand`; `number` is the number that the message carries, if it carries one: here an integer.
  unfoldable pub remote_command : String → Option ℤ → Context → Context
  remote_command cmd number ctx =
      if str_eq cmd "live:next"
      then run_live next ctx
      else if str_eq cmd "live:prev"
      then run_live prev ctx
      else if str_eq cmd "live:toggle"
      then run_live toggle ctx
      else if str_eq cmd "live:toggleBlack"
      then run_live toggle_black ctx
      else if str_eq cmd "live:toggleWhite"
      then run_live toggle_white ctx
      else if str_eq cmd "live:resume"
      then run_live resume ctx
      else if str_eq cmd "live:setCursor"
      then run_live (set_cursor (or_else number (pos 0))) ctx
      else ctx

  -- The context after a handler.
  unfoldable pub handle : Command → Context → Context
  handle (content_text key payload) ctx = (set_content_text clock ctx key payload).0
  handle (content_media key payload) ctx = (set_content_media clock ctx key payload).0
  handle (mode key m) ctx = (set_mode clock ctx key m).0
  handle (appearance key patch) ctx = (set_appearance clock ctx key patch).0
  handle (state_patch key patch) ctx = (set_state_patch clock ctx key patch).0
  handle (mirroring key m) ctx = set_mirror clock ctx key m
  handle (live cmd) ctx = run_live cmd ctx

  -- A sequence of handlers, each run to its end, as the main process runs them.
  unfoldable pub handle_all : List Command → Context → Context
  handle_all [] ctx = ctx
  handle_all (cmd ∷ cmds) ctx = handle_all cmds (handle cmd ctx)
