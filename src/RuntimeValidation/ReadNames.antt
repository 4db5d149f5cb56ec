-- ===== src/RuntimeValidation/ReadNames.antt =====
-- A constant is read from its name.
use church_presenter.Common.{some, ◌≡◌, refl}
use church_presenter.Ipc.{
  ScreenKey, screen_a, screen_b, screen_c, ProjectionMode, normal, black, white, BackgroundFillMode,
  solid, gradient_linear, gradient_radial, ForegroundFillMode, LogoPosition, bottom_right,
  bottom_left, top_right, top_left, center, MediaType, image, pdf, video, CurrentKind, empty, text,
  media,
}
use church_presenter.RuntimeValidation.Names.{
  ImportMode, Atomicity, screen_key_name, read_screen_key, mode_name, read_mode,
  background_fill_name, read_background_fill, foreground_fill_name, read_foreground_fill,
  logo_position_name, read_logo_position, media_type_name, read_media_type, current_kind_name,
  read_current_kind, import_mode_name, read_import_mode, atomicity_name, read_atomicity, merge,
  replace, entity, strict,
}

pub read_screen_key-screen_key_name : (x : ScreenKey) → read_screen_key (screen_key_name x) ≡ some x
unfolding read_screen_key screen_key_name
read_screen_key-screen_key_name screen_a = refl
read_screen_key-screen_key_name screen_b = refl
read_screen_key-screen_key_name screen_c = refl

pub read_mode-mode_name : (x : ProjectionMode) → read_mode (mode_name x) ≡ some x
unfolding read_mode mode_name
read_mode-mode_name normal = refl
read_mode-mode_name black = refl
read_mode-mode_name white = refl

pub read_background_fill-background_fill_name :
    (x : BackgroundFillMode) → read_background_fill (background_fill_name x) ≡ some x
unfolding read_background_fill background_fill_name
read_background_fill-background_fill_name solid = refl
read_background_fill-background_fill_name gradient_linear = refl
read_background_fill-background_fill_name gradient_radial = refl

pub read_foreground_fill-foreground_fill_name :
    (x : ForegroundFillMode) → read_foreground_fill (foreground_fill_name x) ≡ some x
unfolding read_foreground_fill foreground_fill_name
read_foreground_fill-foreground_fill_name ForegroundFillMode.solid = refl
read_foreground_fill-foreground_fill_name ForegroundFillMode.gradient = refl

pub read_logo_position-logo_position_name :
    (x : LogoPosition) → read_logo_position (logo_position_name x) ≡ some x
unfolding read_logo_position logo_position_name
read_logo_position-logo_position_name bottom_right = refl
read_logo_position-logo_position_name bottom_left = refl
read_logo_position-logo_position_name top_right = refl
read_logo_position-logo_position_name top_left = refl
read_logo_position-logo_position_name center = refl

pub read_media_type-media_type_name : (x : MediaType) → read_media_type (media_type_name x) ≡ some x
unfolding read_media_type media_type_name
read_media_type-media_type_name image = refl
read_media_type-media_type_name pdf = refl
read_media_type-media_type_name video = refl

pub read_current_kind-current_kind_name :
    (x : CurrentKind) → read_current_kind (current_kind_name x) ≡ some x
unfolding read_current_kind current_kind_name
read_current_kind-current_kind_name empty = refl
read_current_kind-current_kind_name text = refl
read_current_kind-current_kind_name media = refl

pub read_import_mode-import_mode_name :
    (x : ImportMode) → read_import_mode (import_mode_name x) ≡ some x
unfolding read_import_mode import_mode_name
read_import_mode-import_mode_name merge = refl
read_import_mode-import_mode_name replace = refl

pub read_atomicity-atomicity_name : (x : Atomicity) → read_atomicity (atomicity_name x) ≡ some x
unfolding read_atomicity atomicity_name
read_atomicity-atomicity_name entity = refl
read_atomicity-atomicity_name strict = refl
