-- ===== src/Projection/Delivery.antt =====
-- Where a projection arrives, and when it is lost.
use church_presenter.Common.{
  ℕ, ◌≡◌, ◌≢◌, refl, ap, ◌⊎◌, inl, inr, Bool-cases, Bool, Option, true, false, arith,
}
use church_presenter.Ipc.{
  ScreenKey, screen_a, screen_b, screen_c, free, normal, TextPayload, MediaPayload, ProjectionState,
  PerScreen, get, same_key,
}
use church_presenter.Screens.{
  Context, MutationResult, publish, mutate, set_content_text, set_content_media, text_current,
  media_current,
}
use church_presenter.Screens.Publish.{
  view, IsShownOn, IsShownOn-test, publish-view, mutate_accepted, mutate_refused,
}
use church_presenter.Projection.{
  Desk, should_skip_projection, resolve_projection_destination, open_window, open_target, deliver,
  project_text_to_screen, project_media_to_screen,
}

open_target_context :
    (target : ScreenKey) (desk : Desk) → (open_target target desk).context ≡ desk.context
unfolding open_target open_window
open_target_context screen_a desk = refl
open_target_context screen_b desk = ground arith
open_target_context screen_c desk = ground arith

open_target_open :
    (target : ScreenKey) (desk : Desk) → get (open_target target desk).windows target ≡ true
unfolding open_target open_window
open_target_open screen_a desk = refl
open_target_open screen_b desk = ground arith
open_target_open screen_c desk = ground arith

-- The target shows what is written to the screen to which it resolves.
resolve_projection_destination-IsShownOn :
    (ctx : Context) (target : ScreenKey)
    → IsShownOn ctx target (resolve_projection_destination target (get ctx.mirrors target))
unfolding resolve_projection_destination
resolve_projection_destination-IsShownOn ctx screen_a = inl refl
resolve_projection_destination-IsShownOn ctx screen_b = ground arith
resolve_projection_destination-IsShownOn ctx screen_c = ground arith

module _ (clock : ℕ → ℕ) (change : ProjectionState → ProjectionState) where
  -- The call that a projection makes, whatever the content.
  abbrev send : Context → ScreenKey → Context × MutationResult
  send ctx key = mutate clock key change ctx

  deliver_accepted :
      (target : ScreenKey) (locked : Option (PerScreen Bool)) (desk : Desk)
      → should_skip_projection target locked ≡ false
      → let d = resolve_projection_destination target (get desk.context.mirrors target) in
        get desk.context.mirrors d ≡ free
        → get desk.context.live_state.locked_screens d ≡ false
        → deliver send target locked desk ≡ record (open_target target desk) {
          context = publish clock d (change (get desk.context.screen_states d)) desk.context;
        }
  unfolding deliver
  deliver_accepted target locked desk go f l =
      let d = resolve_projection_destination target (get desk.context.mirrors target) in
      rw (go, open_target_context target desk, mutate_accepted clock d change desk.context f l)
        (elim (Bool-cases (same_key d screen_a)) [ inl e ↦ rw e | inr e ↦ rw e ])

  deliver_refused :
      (target : ScreenKey) (locked : Option (PerScreen Bool)) (desk : Desk)
      → let d = resolve_projection_destination target (get desk.context.mirrors target) in
        (get desk.context.mirrors d ≢ free) ⊎ (get desk.context.live_state.locked_screens d ≡ true)
        → (deliver send target locked desk).context ≡ desk.context
  unfolding deliver
  deliver_refused target locked desk r =
      let d = resolve_projection_destination target (get desk.context.mirrors target) in
      let stay = mutate_refused clock d change desk.context r in
      simp (open_target_context target desk, stay)
        (ground (arith, open_target_context target desk, stay))

  deliver_shown :
      (target : ScreenKey) (locked : Option (PerScreen Bool)) (desk : Desk)
      → should_skip_projection target locked ≡ false
      → let d = resolve_projection_destination target (get desk.context.mirrors target) in
        get desk.context.mirrors d ≡ free
        → get desk.context.live_state.locked_screens d ≡ false
        → let after = deliver send target locked desk in
          (view (get after.context.screen_states target)
            ≡ view (change (get desk.context.screen_states d)))
          × (get after.windows target ≡ true)
  deliver_shown target locked desk go f l =
      let d = resolve_projection_destination target (get desk.context.mirrors target) in
      rw (deliver_accepted target locked desk go f l) (
        rw
            (IsShownOn-test desk.context target d
              (resolve_projection_destination-IsShownOn desk.context target))
            at
            (publish-view clock d target (change (get desk.context.screen_states d)) desk.context),
        open_target_open target desk,
      )

module _ (clock : ℕ → ℕ) where
  -- A text projected to a target that the renderer does not hold for locked is what the target
  -- shows afterwards, in normal mode, and the target's window is open, if the screen to which the
  -- target resolves (the screen that it mirrors, or itself) is unlocked and mirrors no other.
  pub project_text_to_screen_shown :
      (payload : TextPayload) (target : ScreenKey) (locked : Option (PerScreen Bool)) (desk : Desk)
      → should_skip_projection target locked ≡ false
      → let d = resolve_projection_destination target (get desk.context.mirrors target) in
        get desk.context.mirrors d ≡ free
        → get desk.context.live_state.locked_screens d ≡ false
        → let after = project_text_to_screen clock payload target locked desk in
          ((get after.context.screen_states target).current ≡ text_current payload)
          × ((get after.context.screen_states target).mode ≡ normal)
          × (get after.windows target ≡ true)
  unfolding project_text_to_screen set_content_text
  project_text_to_screen_shown payload target locked desk go f l =
      let (shown, opened) =
        deliver_shown clock
          (λ state. record state { mode = normal; current = text_current payload }) target locked
          desk go f l in
      (ap (λ s. s.current) shown, ap (λ s. s.mode) shown, opened)

  -- A media file projected to a target that the renderer does not hold for locked
  -- is what the target shows afterwards, in normal mode, and the target's window is
  -- open, if the screen to which the target resolves (the screen that it mirrors, or
  -- itself) is unlocked and mirrors no other.
  pub project_media_to_screen_shown :
      (payload : MediaPayload) (target : ScreenKey) (locked : Option (PerScreen Bool)) (desk : Desk)
      → should_skip_projection target locked ≡ false
      → let d = resolve_projection_destination target (get desk.context.mirrors target) in
        get desk.context.mirrors d ≡ free
        → get desk.context.live_state.locked_screens d ≡ false
        → let after = project_media_to_screen clock payload target locked desk in
          ((get after.context.screen_states target).current ≡ media_current payload)
          × ((get after.context.screen_states target).mode ≡ normal)
          × (get after.windows target ≡ true)
  unfolding project_media_to_screen set_content_media
  project_media_to_screen_shown payload target locked desk go f l =
      let (shown, opened) =
        deliver_shown clock
          (λ state. record state { mode = normal; current = media_current payload }) target locked
          desk go f l in
      (ap (λ s. s.current) shown, ap (λ s. s.mode) shown, opened)

  -- If the screen to which the target resolves mirrors another screen or is locked, a projected
  -- text is lost: no screen changes, and the second attempt after a mirror refusal is lost too.
  pub project_text_to_screen_lost :
      (payload : TextPayload) (target : ScreenKey) (locked : Option (PerScreen Bool)) (desk : Desk)
      → let d = resolve_projection_destination target (get desk.context.mirrors target) in
        (get desk.context.mirrors d ≢ free) ⊎ (get desk.context.live_state.locked_screens d ≡ true)
        → (project_text_to_screen clock payload target locked desk).context ≡ desk.context
  unfolding project_text_to_screen set_content_text
  project_text_to_screen_lost payload target locked desk r =
      deliver_refused clock
        (λ state. record state { mode = normal; current = text_current payload }) target locked desk
        r
