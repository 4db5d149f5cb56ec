-- ===== src/Screens/Defaults.antt =====
-- The states that apps/desktop/src/main/ipc/screenState.ts creates, and the context with which
-- apps/desktop/src/main/main.ts starts.
use church_presenter.Common.{ℕ, pos, false, none, some, []}
use church_presenter.Ipc.{
  screen_a, free, mirror, normal, BackgroundFillMode, ForegroundFillMode, top_right, empty,
  ProjectionState, LiveState,
}
use church_presenter.Screens.{Context}

unfoldable pub create_default_projection_state : ℕ → ProjectionState
create_default_projection_state now = record {
  mode = normal;
  lower_third_enabled = false;
  transition_enabled = false;
  text_scale = pos 1000;
  title_text_scale = none;
  text_font = "system-ui";
  text_font_path = some "";
  background = "#050505";
  background_mode = some BackgroundFillMode.solid;
  background_gradient_from = some "#2563eb";
  background_gradient_to = some "#7c3aed";
  background_gradient_angle = some (pos 135000);
  background_image = some "";
  logo_path = some "";
  logo_position = some top_right;
  logo_opacity = some (pos 80000);
  logo_scale = some (pos 100000);
  foreground_mode = some ForegroundFillMode.solid;
  foreground_gradient_from = some "#ffffff";
  foreground_gradient_to = some "#93c5fd";
  foreground = "#ffffff";
  current = record {
    kind = empty;
    title = none;
    body = none;
    media_path = none;
    media_type = none;
    meta_song = none;
    secondary_texts = none;
    background_override = none;
  };
  updated_at = now;
}

unfoldable pub create_default_live_state : ℕ → LiveState
create_default_live_state now = record {
  enabled = false;
  plan_id = none;
  cursor = pos 0;
  target = screen_a;
  black = false;
  white = false;
  locked_screens = record { at_a = false; at_b = false; at_c = false };
  updated_at = now;
}

-- The module-level states, mirrors and context of the main process: the clock is read once for
-- each screen and once for the live state.
unfoldable pub initial_context : (ℕ → ℕ) → Context
unfolding create_default_projection_state create_default_live_state
initial_context clock = record {
  screen_states = record {
    at_a = create_default_projection_state (clock 0);
    at_b = create_default_projection_state (clock 1);
    at_c = create_default_projection_state (clock 2);
  };
  mirrors = record { at_a = free; at_b = mirror screen_a; at_c = mirror screen_a };
  live_state = create_default_live_state (clock 3);
  reads = 4;
  sent = [];
}
