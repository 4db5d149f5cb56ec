-- ===== src/Profiles/Handlers/Applied.antt =====
-- The screens after a profile is applied to them.
use church_presenter.Common.{ℕ, String, ◌≡◌, refl, ap, Option, none, some, arith, first_some}
use church_presenter.Ipc.{
  ScreenKey, screen_a, screen_b, screen_c, MirrorMode, ProjectionState, PerScreen, get,
}
use church_presenter.Profiles.{
  Prefs, Runtime, pick_projection_appearance_prefs, build_projection_snapshot_from_runtime,
  build_mirrors_snapshot_from_runtime,
}
use church_presenter.Profiles.Handlers.{
  apply_prefs, apply_screen, apply_library_dir, apply_projection, apply_mirror_prefs, apply_mirrors,
  broadcast_all_screens_state,
}

-- The settings of a screen after those of a profile came over them: a setting that the profile lacks
-- stays.
abbrev pub over : Prefs → Prefs → Prefs
over p s = record {
  text_scale = first_some p.text_scale s.text_scale;
  title_text_scale = first_some p.title_text_scale s.title_text_scale;
  text_font = first_some p.text_font s.text_font;
  text_font_path = first_some p.text_font_path s.text_font_path;
  background = first_some p.background s.background;
  background_mode = first_some p.background_mode s.background_mode;
  background_gradient_from = first_some p.background_gradient_from s.background_gradient_from;
  background_gradient_to = first_some p.background_gradient_to s.background_gradient_to;
  background_gradient_angle = first_some p.background_gradient_angle s.background_gradient_angle;
  background_image = first_some p.background_image s.background_image;
  logo_path = first_some p.logo_path s.logo_path;
  logo_position = first_some p.logo_position s.logo_position;
  logo_opacity = first_some p.logo_opacity s.logo_opacity;
  logo_scale = first_some p.logo_scale s.logo_scale;
  foreground_mode = first_some p.foreground_mode s.foreground_mode;
  foreground_gradient_from = first_some p.foreground_gradient_from s.foreground_gradient_from;
  foreground_gradient_to = first_some p.foreground_gradient_to s.foreground_gradient_to;
  foreground = first_some p.foreground s.foreground;
}

abbrev pub pick : ProjectionState → Prefs
pick = pick_projection_appearance_prefs

pub pick-apply_prefs :
    (s t : ProjectionState) (now : ℕ) → pick (apply_prefs (pick s) now t) ≡ over (pick s) (pick t)
unfolding pick_projection_appearance_prefs apply_prefs
pick-apply_prefs s t now = refl

apply_library_dir-screens :
    (dir : Option String) (world : Runtime)
    → (apply_library_dir dir world).screen_states ≡ world.screen_states
unfolding apply_library_dir
apply_library_dir-screens none world = refl
apply_library_dir-screens (some dir) world = ground arith

module _ (states : PerScreen ProjectionState) (modes : PerScreen MirrorMode)
    (now : ScreenKey → ℕ) where
  -- The steps of `applyProfileToRuntime` on a snapshot of all screens.
  abbrev applied : Option String → Runtime → Runtime
  applied dir world = broadcast_all_screens_state (
      apply_mirrors (some (build_mirrors_snapshot_from_runtime modes)) (
        apply_projection (some (build_projection_snapshot_from_runtime states)) now
          (apply_library_dir dir world)))

  pub applied-screens :
      (dir : Option String) (world : Runtime) (key : ScreenKey)
      → get (applied dir world).screen_states key
        ≡ apply_prefs (pick (get states key)) (now key) (get world.screen_states key)
  unfolding broadcast_all_screens_state apply_mirrors apply_mirror_prefs apply_projection
      apply_screen build_projection_snapshot_from_runtime build_mirrors_snapshot_from_runtime
  applied-screens dir world screen_a =
      ap (λ p. apply_prefs (pick states.at_a) (now screen_a) p.at_a)
        (apply_library_dir-screens dir world)
  applied-screens dir world screen_b =
      ap (λ p. apply_prefs (pick states.at_b) (now screen_b) p.at_b)
        (apply_library_dir-screens dir world)
  applied-screens dir world screen_c =
      ap (λ p. apply_prefs (pick states.at_c) (now screen_c) p.at_c)
        (apply_library_dir-screens dir world)

  pub applied-mirrors :
      (dir : Option String) (world : Runtime) → (applied dir world).mirrors ≡ modes
  unfolding broadcast_all_screens_state apply_mirrors apply_mirror_prefs
      build_mirrors_snapshot_from_runtime
  applied-mirrors dir world = refl
