-- ===== src/Screens/Patch.antt =====
-- The patches of apps/desktop/src/main/ipc/screenState.ts. A field of a patch is `none` where the
-- payload does not give it.
use church_presenter.Common.{ℤ, pos, String, Bool, Option, none, some, or_else, first_some}
use church_presenter.Ipc.{
  ScreenKey, Number, ProjectionMode, BackgroundFillMode, solid, ForegroundFillMode, LogoPosition,
  top_right, ProjectionCurrent, ProjectionState, PerScreen, LiveState,
}

-- `CpProjectionSetAppearancePayload`
pub record Appearance : Type 0 where
  pub text_scale : Option Number
  pub title_text_scale : Option Number
  pub text_font : Option String
  pub text_font_path : Option String
  pub background : Option String
  pub background_mode : Option BackgroundFillMode
  pub background_gradient_from : Option String
  pub background_gradient_to : Option String
  pub background_gradient_angle : Option Number
  pub background_image : Option String
  pub logo_path : Option String
  pub logo_position : Option LogoPosition
  pub logo_opacity : Option Number
  pub logo_scale : Option Number
  pub foreground_mode : Option ForegroundFillMode
  pub foreground_gradient_from : Option String
  pub foreground_gradient_to : Option String
  pub foreground : Option String

-- `patch.f ?? state.f ?? default`, for a field that a state may lack.
abbrev pub patched {ℓ} : {A : Type ℓ} → Option A → Option A → A → Option A
patched p s d = some (or_else p (or_else s d))

-- The state that `setAppearance` writes.
unfoldable pub apply_appearance : Appearance → ProjectionState → ProjectionState
apply_appearance patch state = record state {
  text_scale = or_else patch.text_scale state.text_scale;
  title_text_scale = first_some patch.title_text_scale state.title_text_scale;
  text_font = or_else patch.text_font state.text_font;
  text_font_path = patched patch.text_font_path state.text_font_path "";
  background = or_else patch.background state.background;
  background_mode = patched patch.background_mode state.background_mode solid;
  background_gradient_from =
      patched patch.background_gradient_from state.background_gradient_from "#2563eb";
  background_gradient_to =
      patched patch.background_gradient_to state.background_gradient_to "#7c3aed";
  background_gradient_angle =
      patched patch.background_gradient_angle state.background_gradient_angle (pos 135000);
  background_image = patched patch.background_image state.background_image "";
  logo_path = patched patch.logo_path state.logo_path "";
  logo_position = patched patch.logo_position state.logo_position top_right;
  logo_opacity = patched patch.logo_opacity state.logo_opacity (pos 80000);
  logo_scale = patched patch.logo_scale state.logo_scale (pos 100000);
  foreground_mode = patched patch.foreground_mode state.foreground_mode ForegroundFillMode.solid;
  foreground_gradient_from =
      patched patch.foreground_gradient_from state.foreground_gradient_from "#ffffff";
  foreground_gradient_to =
      patched patch.foreground_gradient_to state.foreground_gradient_to "#93c5fd";
  foreground = or_else patch.foreground state.foreground;
}

-- `Partial<CpProjectionState>` with the fields that `parseProjectionStatePatch` can set.
pub record StatePatch : Type 0 where
  pub mode : Option ProjectionMode
  pub lower_third_enabled : Option Bool
  pub transition_enabled : Option Bool
  pub text_scale : Option Number
  pub text_font : Option String
  pub text_font_path : Option String
  pub background : Option String
  pub background_mode : Option BackgroundFillMode
  pub background_gradient_from : Option String
  pub background_gradient_to : Option String
  pub background_gradient_angle : Option Number
  pub foreground_mode : Option ForegroundFillMode
  pub foreground_gradient_from : Option String
  pub foreground_gradient_to : Option String
  pub foreground : Option String
  pub logo_path : Option String
  pub current : Option ProjectionCurrent

-- `{ ...state, ...patch }`
unfoldable pub apply_state_patch : StatePatch → ProjectionState → ProjectionState
apply_state_patch patch state = record state {
  mode = or_else patch.mode state.mode;
  lower_third_enabled = or_else patch.lower_third_enabled state.lower_third_enabled;
  transition_enabled = or_else patch.transition_enabled state.transition_enabled;
  text_scale = or_else patch.text_scale state.text_scale;
  text_font = or_else patch.text_font state.text_font;
  text_font_path = first_some patch.text_font_path state.text_font_path;
  background = or_else patch.background state.background;
  background_mode = first_some patch.background_mode state.background_mode;
  background_gradient_from =
      first_some patch.background_gradient_from state.background_gradient_from;
  background_gradient_to = first_some patch.background_gradient_to state.background_gradient_to;
  background_gradient_angle =
      first_some patch.background_gradient_angle state.background_gradient_angle;
  foreground_mode = first_some patch.foreground_mode state.foreground_mode;
  foreground_gradient_from =
      first_some patch.foreground_gradient_from state.foreground_gradient_from;
  foreground_gradient_to = first_some patch.foreground_gradient_to state.foreground_gradient_to;
  foreground = or_else patch.foreground state.foreground;
  logo_path = first_some patch.logo_path state.logo_path;
  current = or_else patch.current state.current;
}

-- `Partial<CpLiveState>`
pub record LivePatch : Type 0 where
  pub enabled : Option Bool
  pub plan_id : Option (Option String)
  pub cursor : Option ℤ
  pub target : Option ScreenKey
  pub black : Option Bool
  pub white : Option Bool
  pub locked_screens : Option (PerScreen Bool)

-- The patch that changes nothing, from which the handlers build theirs.
abbrev pub no_change : LivePatch
no_change = record {
  enabled = none;
  plan_id = none;
  cursor = none;
  target = none;
  black = none;
  white = none;
  locked_screens = none;
}

-- `{ ...ctx.liveState, ...patch }`
unfoldable pub apply_live_patch : LivePatch → LiveState → LiveState
apply_live_patch patch live = record live {
  enabled = or_else patch.enabled live.enabled;
  plan_id = or_else patch.plan_id live.plan_id;
  cursor = or_else patch.cursor live.cursor;
  target = or_else patch.target live.target;
  black = or_else patch.black live.black;
  white = or_else patch.white live.white;
  locked_screens = or_else patch.locked_screens live.locked_screens;
}
