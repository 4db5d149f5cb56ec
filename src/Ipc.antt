-- ===== src/Ipc.antt =====
-- The shared types of apps/desktop/src/shared/ipc.ts that the screens and the live state use.
-- Texts are compared and stored whole, so they are native strings.
pub mod Keys
use church_presenter.Common.{ℕ, ℤ, String, Bool, true, false, List, Option}

-- A number that the main process only stores and copies (a scale, an angle, an opacity), counted
-- in thousandths.
abbrev pub Number : Type 0
Number = ℤ

pub data ScreenKey : Type 0 where
  screen_a screen_b screen_c : ScreenKey

pub data MirrorMode : Type 0 where
  free : MirrorMode
  mirror : ScreenKey → MirrorMode

pub data ProjectionMode : Type 0 where
  normal black white : ProjectionMode

pub data MediaType : Type 0 where
  image pdf video : MediaType

pub data BackgroundFillMode : Type 0 where
  solid gradient_linear gradient_radial : BackgroundFillMode

pub data ForegroundFillMode : Type 0 where
  solid gradient : ForegroundFillMode

pub data LogoPosition : Type 0 where
  bottom_right bottom_left top_right top_left center : LogoPosition

pub record SongMeta : Type 0 where
  pub title : Option String
  pub artist : Option String
  pub album : Option String
  pub year : Option String

pub record ItemBackground : Type 0 where
  pub background : Option String
  pub background_mode : Option BackgroundFillMode
  pub background_gradient_from : Option String
  pub background_gradient_to : Option String
  pub background_gradient_angle : Option Number
  pub background_media : Option String
  pub background_media_type : Option MediaType
  pub foreground : Option String
  pub foreground_mode : Option ForegroundFillMode
  pub foreground_gradient_from : Option String
  pub foreground_gradient_to : Option String

pub record SecondaryText : Type 0 where
  pub label : String
  pub body : String

-- The payloads of `setContentText` and `setContentMedia`.
pub record TextPayload : Type 0 where
  pub title : Option String
  pub body : String
  pub meta_song : Option SongMeta
  pub secondary_texts : Option (List SecondaryText)
  pub background_override : Option ItemBackground

pub record MediaPayload : Type 0 where
  pub title : Option String
  pub media_path : String
  pub media_type : MediaType

pub data CurrentKind : Type 0 where
  empty text media : CurrentKind

-- What a screen shows: each kind fills in its own fields.
pub record ProjectionCurrent : Type 0 where
  pub kind : CurrentKind
  pub title : Option String
  pub body : Option String
  pub media_path : Option String
  pub media_type : Option MediaType
  pub meta_song : Option SongMeta
  pub secondary_texts : Option (List SecondaryText)
  pub background_override : Option ItemBackground

pub record ProjectionState : Type 0 where
  pub mode : ProjectionMode
  pub lower_third_enabled : Bool
  pub transition_enabled : Bool
  pub text_scale : Number
  pub title_text_scale : Option Number
  pub text_font : String
  pub text_font_path : Option String
  pub background : String
  pub background_mode : Option BackgroundFillMode
  pub background_gradient_from : Option String
  pub background_gradient_to : Option String
  pub background_gradient_angle : Option Number
  pub background_image : Option String
  pub logo_path : Option String
  pub logo_position : Option LogoPosition
  pub logo_opacity : Option Number
  pub logo_scale : Option Number
  pub foreground_mode : Option ForegroundFillMode
  pub foreground_gradient_from : Option String
  pub foreground_gradient_to : Option String
  pub foreground : String
  pub current : ProjectionCurrent
  pub updated_at : ℕ

-- `Record<ScreenKey, A>`
pub record PerScreen {ℓ} (A : Type ℓ) : Type ℓ where
  pub at_a : A
  pub at_b : A
  pub at_c : A

abbrev pub get {ℓ} : {A : Type ℓ} → PerScreen A → ScreenKey → A
get p screen_a = p.at_a
get p screen_b = p.at_b
get p screen_c = p.at_c

abbrev pub put {ℓ} : {A : Type ℓ} → PerScreen A → ScreenKey → A → PerScreen A
put p screen_a v = record p { at_a = v }
put p screen_b v = record p { at_b = v }
put p screen_c v = record p { at_c = v }

abbrev pub same_key : ScreenKey → ScreenKey → Bool
same_key screen_a screen_a = true
same_key screen_b screen_b = true
same_key screen_c screen_c = true
same_key _ _ = false

pub record LiveState : Type 0 where
  pub enabled : Bool
  pub plan_id : Option String
  pub cursor : ℤ
  pub target : ScreenKey
  pub black : Bool
  pub white : Bool
  pub locked_screens : PerScreen Bool
  pub updated_at : ℕ
