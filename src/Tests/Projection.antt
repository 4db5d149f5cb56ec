-- ===== src/Tests/Projection.antt =====
-- Projections from the renderer on the screens of a starting main process.
use church_presenter.Common.{ℕ, ◌≡◌, refl, inl, Bool, true, false, some, none, Option}
use church_presenter.Ipc.{
  screen_b, screen_c, mirror, normal, image, TextPayload, MediaPayload, PerScreen, put, get,
}
use church_presenter.Screens.{text_current}
use church_presenter.Screens.Defaults.{initial_context}
use church_presenter.Projection.{
  Desk, project_text_to_screen, should_reset_for_free_projection, should_skip_projection,
  resolve_projection_destination,
}
use church_presenter.Projection.Delivery.{project_text_to_screen_shown, project_text_to_screen_lost}
use church_presenter.Projection.FreeMode.{ensure_ready, ensure_ready_for_free_projection}

abbrev clock : ℕ → ℕ
clock n = n

abbrev desk : Desk
unfolding initial_context
desk = record {
  context = initial_context clock;
  windows = record { at_a = true; at_b = false; at_c = false };
}

-- Screen C mirrors B, which mirrors A.
abbrev chained : Desk
chained = record desk {
  context = record desk.context { mirrors = put desk.context.mirrors screen_c (mirror screen_b) };
}

abbrev hello : TextPayload
hello = record {
  title = none;
  body = "Amen";
  meta_song = none;
  secondary_texts = none;
  background_override = none;
}

abbrev picture : MediaPayload
picture = record { title = none; media_path = "/media/images/croix.png"; media_type = image }

abbrev unlocked : Option (PerScreen Bool)
unlocked = some (record { at_a = false; at_b = false; at_c = false })

running : Unit {0}
unfolding initial_context should_skip_projection resolve_projection_destination
running = tt

project_text_to_screen_shown_example :
    let after = project_text_to_screen clock hello screen_b unlocked desk in
    ((get after.context.screen_states screen_b).current ≡ text_current hello)
    × ((get after.context.screen_states screen_b).mode ≡ normal)
    × (get after.windows screen_b ≡ true)
unfolding running
project_text_to_screen_shown_example =
    project_text_to_screen_shown clock hello screen_b unlocked desk refl refl refl

project_text_to_screen_lost_example :
    (project_text_to_screen clock hello screen_c unlocked chained).context ≡ chained.context
unfolding running
project_text_to_screen_lost_example =
    project_text_to_screen_lost clock hello screen_c unlocked chained (inl (λ e. cc))

ensure_ready_for_free_projection_example :
    (should_reset_for_free_projection (some (ensure_ready clock desk.context).live_state) ≡ false)
    × ((ensure_ready clock desk.context).live_state.enabled ≡ desk.context.live_state.enabled)
ensure_ready_for_free_projection_example = ensure_ready_for_free_projection clock desk.context
