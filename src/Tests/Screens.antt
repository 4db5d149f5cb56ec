-- ===== src/Tests/Screens.antt =====
-- The screens and the live state from the start of the main process.
use church_presenter.Common.{
  ℕ, pos, negsuc, ◌≡◌, ◌≢◌, refl, inr, true, false, some, none, List, [], ◌∷◌, if◌then◌else◌,
}
use church_presenter.Ipc.{
  ScreenKey, screen_a, screen_b, screen_c, free, mirror, normal, black, TextPayload, get,
}
use church_presenter.Screens.Patch.{apply_live_patch}
use church_presenter.Screens.{
  Context, live_mode, merge_live, broadcast_live, apply_live_projection_mode, next_live,
  set_content_text, set_mode, mutate, guard_screen, set_mirror, publish, apply_mirrors_from,
  apply_mirror, broadcast, write_state,
}
use church_presenter.Screens.Defaults.{initial_context}
use church_presenter.Screens.Mirrors.{Consistent}
use church_presenter.Screens.Live.{IsSound}
use church_presenter.Screens.Locks.{IsFrozen}
use church_presenter.Screens.Broadcasts.{ScreensInStep, LiveInStep}
use church_presenter.Handlers.{
  Command, content_text, mirroring, live, mode, toggle_black, toggle_white, next, prev, set_cursor,
  set_locked, set_target, run_live, live_patch, handle, handle_all, remote_command,
}
use church_presenter.Handlers.Invariants.{
  handle_all-Consistent, handle_all-IsFrozen, handle_all-IsSound, handle_all-in_step, run_live-mode,
}
use church_presenter.Handlers.Commands.{run_live-prev-next, run_live-toggle_black_twice}

abbrev clock : ℕ → ℕ
clock n = n

abbrev start : Context
unfolding initial_context
start = initial_context clock

abbrev hello : TextPayload
hello = record {
  title = some "Psaume 23";
  body = "L'Eternel est mon berger";
  meta_song = none;
  secondary_texts = none;
  background_override = none;
}

running : Unit {0}
unfolding handle_all handle run_live live_patch merge_live broadcast_live apply_live_projection_mode
    next_live live_mode apply_live_patch set_content_text set_mode mutate guard_screen set_mirror
    publish apply_mirrors_from apply_mirror broadcast write_state remote_command initial_context
running = tt

start-Consistent : Consistent start
unfolding initial_context
start-Consistent screen_a source m f = cc
start-Consistent screen_b screen_a m f = refl
start-Consistent screen_b screen_b m f = refl
start-Consistent screen_b screen_c m f = cc
start-Consistent screen_c screen_a m f = refl
start-Consistent screen_c screen_b m f = cc
start-Consistent screen_c screen_c m f = refl

not_mirroring_b : (k : ScreenKey) → get start.mirrors k ≢ mirror screen_b
unfolding initial_context
not_mirroring_b screen_a = λ e. cc
not_mirroring_b screen_b = λ e. cc
not_mirroring_b screen_c = λ e. cc

handle_all-Consistent_example :
    Consistent (handle_all clock (mirroring screen_b free ∷ content_text screen_a hello ∷ []) start)
handle_all-Consistent_example =
    handle_all-Consistent clock (mirroring screen_b free ∷ content_text screen_a hello ∷ []) start
      (not_mirroring_b, (tt, tt)) start-Consistent

abbrev locked_b : Context
locked_b =
    run_live clock (set_locked screen_b true)
      (handle_all clock (mirroring screen_b free ∷ []) start)

locked_b-IsFrozen : IsFrozen screen_b (get start.screen_states screen_b) locked_b
unfolding running
locked_b-IsFrozen = record { locked = refl; unmirrored = refl; shows = refl }

handle_all-IsFrozen_example : IsFrozen screen_b (get start.screen_states screen_b) (
    handle_all clock
      (content_text screen_b hello ∷ mode screen_b black ∷ live (set_target screen_b) ∷ [])
      locked_b)
handle_all-IsFrozen_example =
    handle_all-IsFrozen clock screen_b (get start.screen_states screen_b)
      (content_text screen_b hello ∷ mode screen_b black ∷ live (set_target screen_b) ∷ []) locked_b
      (tt, (tt, (tt, tt))) locked_b-IsFrozen

start-IsSound : IsSound start.live_state
unfolding initial_context
start-IsSound = record { exclusive = refl; cursor = refl }

abbrev switches : List Command
switches = live toggle_black ∷ live toggle_white ∷ live (set_cursor (negsuc 4)) ∷ []

switches_end :
    ((handle_all clock switches start).live_state.black ≡ false)
    × ((handle_all clock switches start).live_state.white ≡ true)
    × ((handle_all clock switches start).live_state.cursor ≡ pos 0)
unfolding running
switches_end = (refl, refl, refl)

handle_all-IsSound_example : IsSound (handle_all clock switches start).live_state
handle_all-IsSound_example = handle_all-IsSound clock switches start start-IsSound

handle_all-in_step_example :
    ScreensInStep start (handle_all clock switches start)
    × LiveInStep start (handle_all clock switches start)
unfolding initial_context
handle_all-in_step_example = handle_all-in_step clock switches start refl

run_live-mode_example :
    (get (run_live clock toggle_black start).screen_states screen_c).mode
    ≡ live_mode (run_live clock toggle_black start).live_state
unfolding running
run_live-mode_example = run_live-mode clock toggle_black start screen_c refl refl (inr refl)

run_live-prev-next_example :
    (run_live clock prev (run_live clock next start)).live_state.cursor ≡ start.live_state.cursor
run_live-prev-next_example = run_live-prev-next clock start start-IsSound

run_live-toggle_black_twice_example :
    let twice = (run_live clock toggle_black (run_live clock toggle_black start)).live_state in
    (twice.black ≡ start.live_state.black)
    × (live_mode twice ≡ (if start.live_state.black then black else normal))
run_live-toggle_black_twice_example = run_live-toggle_black_twice clock start start-IsSound

-- A remote client's command and an unknown one.
remote_tests :
    ((remote_command clock "live:setCursor" (some (pos 7)) start).live_state.cursor ≡ pos 7)
    × (remote_command clock "live:unknown" none start ≡ start)
unfolding running
remote_tests = (refl, refl)
