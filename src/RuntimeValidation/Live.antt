-- ===== src/RuntimeValidation/Live.antt =====
-- The parsers of mirrors and of the live state of apps/desktop/src/main/ipc/runtimeValidation.ts.
use church_presenter.Common.{ℤ, String, Bool, Option, none, some, if◌then◌else◌}
use church_presenter.Common.Outcome.{done, ◌>>=◌}
use church_presenter.Ipc.{ScreenKey, MirrorMode, free, mirror}
use church_presenter.Handlers.{LiveSetPayload}
use church_presenter.Json.{Value, null, Properties, get, has, trunc}
use church_presenter.RuntimeValidation.{
  Parsed, trimmed, an_integer, expect_record, expect_string, expect_boolean, expect_number,
  expect_enum,
}
use church_presenter.RuntimeValidation.Names.{free_kind, mirror_kind, read_mirror_kind}
use church_presenter.RuntimeValidation.Screens.{parse_screen_key}

unfoldable pub parse_mirror_mode : Value → Parsed MirrorMode
parse_mirror_mode v = do
  rec ← expect_record v
  kind ← expect_enum read_mirror_kind (get "kind" rec)
  elim kind [
    | free_kind ↦ done free
    | mirror_kind ↦ parse_screen_key (get "from" rec) >>= λ from. done (mirror from)
  ]

module _ {A : Type 0} where
  -- `if ("key" in rec) payload.key = …`
  unfoldable pub if_in : String → Properties → (Value → Parsed A) → Parsed (Option A)
  if_in key rec parse =
      if has key rec then parse (get key rec) >>= (λ a. done (some a)) else done none

  -- `rec.key === null ? null : …`
  unfoldable pub null_or : (Value → Parsed A) → Value → Parsed (Option A)
  null_or parse null = done none
  null_or parse v = parse v >>= λ a. done (some a)

-- An integer, counted in ones.
unfoldable pub parse_live_cursor : Value → Parsed ℤ
parse_live_cursor v = expect_number an_integer v >>= λ n. done (trunc n)

unfoldable pub parse_live_set_payload : Value → Parsed LiveSetPayload
parse_live_set_payload v = do
  rec ← expect_record v
  plan_id ← if_in "planId" rec (null_or (expect_string trimmed))
  cursor ← if_in "cursor" rec (null_or parse_live_cursor)
  enabled ← if_in "enabled" rec expect_boolean
  target ← if_in "target" rec parse_screen_key
  black ← if_in "black" rec expect_boolean
  white ← if_in "white" rec expect_boolean
  done (record {
    plan_id = plan_id;
    cursor = cursor;
    enabled = enabled;
    target = target;
    black = black;
    white = white;
  })

pub record SetLockedPayload : Type 0 where
  pub key : ScreenKey
  pub locked : Bool

unfoldable pub parse_set_locked_payload : Value → Parsed SetLockedPayload
parse_set_locked_payload v = do
  rec ← expect_record v
  key ← parse_screen_key (get "key" rec)
  locked ← expect_boolean (get "locked" rec)
  done (record { key = key; locked = locked })
