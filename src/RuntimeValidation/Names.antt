-- ===== src/RuntimeValidation/Names.antt =====
-- The names of the constants that payloads carry, as runtimeValidation.ts lists them.
use church_presenter.Common.{String, Option, none, some, str_eq, if◌then◌else◌}
use church_presenter.Ipc.{
  ScreenKey, screen_a, screen_b, screen_c, ProjectionMode, normal, black, white, BackgroundFillMode,
  solid, gradient_linear, gradient_radial, ForegroundFillMode, LogoPosition, bottom_right,
  bottom_left, top_right, top_left, center, MediaType, image, pdf, video, CurrentKind, empty, text,
  media,
}

pub data DevtoolsTarget : Type 0 where
  regie projection window_a window_b window_c : DevtoolsTarget

pub data ImportMode : Type 0 where
  merge replace : ImportMode

pub data Atomicity : Type 0 where
  entity strict : Atomicity

-- `SCREEN_KEYS`
unfoldable pub screen_key_name : ScreenKey → String
screen_key_name screen_a = "A"
screen_key_name screen_b = "B"
screen_key_name screen_c = "C"

unfoldable pub read_screen_key : String → Option ScreenKey
read_screen_key s =
    if str_eq s "A"
    then some screen_a
    else if str_eq s "B"
    then some screen_b
    else if str_eq s "C"
    then some screen_c
    else none

-- `PROJECTION_MODES`
unfoldable pub mode_name : ProjectionMode → String
mode_name normal = "NORMAL"
mode_name black = "BLACK"
mode_name white = "WHITE"

unfoldable pub read_mode : String → Option ProjectionMode
read_mode s =
    if str_eq s "NORMAL"
    then some normal
    else if str_eq s "BLACK"
    then some black
    else if str_eq s "WHITE"
    then some white
    else none

-- `BACKGROUND_FILL_MODES`
unfoldable pub background_fill_name : BackgroundFillMode → String
background_fill_name solid = "SOLID"
background_fill_name gradient_linear = "GRADIENT_LINEAR"
background_fill_name gradient_radial = "GRADIENT_RADIAL"

unfoldable pub read_background_fill : String → Option BackgroundFillMode
read_background_fill s =
    if str_eq s "SOLID"
    then some solid
    else if str_eq s "GRADIENT_LINEAR"
    then some gradient_linear
    else if str_eq s "GRADIENT_RADIAL"
    then some gradient_radial
    else none

-- `FOREGROUND_FILL_MODES`
unfoldable pub foreground_fill_name : ForegroundFillMode → String
foreground_fill_name ForegroundFillMode.solid = "SOLID"
foreground_fill_name ForegroundFillMode.gradient = "GRADIENT"

unfoldable pub read_foreground_fill : String → Option ForegroundFillMode
read_foreground_fill s =
    if str_eq s "SOLID"
    then some ForegroundFillMode.solid
    else if str_eq s "GRADIENT"
    then some ForegroundFillMode.gradient
    else none

-- `LOGO_POSITIONS`
unfoldable pub logo_position_name : LogoPosition → String
logo_position_name bottom_right = "bottom-right"
logo_position_name bottom_left = "bottom-left"
logo_position_name top_right = "top-right"
logo_position_name top_left = "top-left"
logo_position_name center = "center"

unfoldable pub read_logo_position : String → Option LogoPosition
read_logo_position s =
    if str_eq s "bottom-right"
    then some bottom_right
    else if str_eq s "bottom-left"
    then some bottom_left
    else if str_eq s "top-right"
    then some top_right
    else if str_eq s "top-left"
    then some top_left
    else if str_eq s "center"
    then some center
    else none

-- `MEDIA_TYPES`
unfoldable pub media_type_name : MediaType → String
media_type_name image = "IMAGE"
media_type_name pdf = "PDF"
media_type_name video = "VIDEO"

unfoldable pub read_media_type : String → Option MediaType
read_media_type s =
    if str_eq s "IMAGE"
    then some image
    else if str_eq s "PDF"
    then some pdf
    else if str_eq s "VIDEO"
    then some video
    else none

-- `CURRENT_KINDS`
unfoldable pub current_kind_name : CurrentKind → String
current_kind_name empty = "EMPTY"
current_kind_name text = "TEXT"
current_kind_name media = "MEDIA"

unfoldable pub read_current_kind : String → Option CurrentKind
read_current_kind s =
    if str_eq s "EMPTY"
    then some empty
    else if str_eq s "TEXT"
    then some text
    else if str_eq s "MEDIA"
    then some media
    else none

-- `DEVTOOLS_TARGETS`
unfoldable pub devtools_target_name : DevtoolsTarget → String
devtools_target_name regie = "REGIE"
devtools_target_name projection = "PROJECTION"
devtools_target_name window_a = "SCREEN_A"
devtools_target_name window_b = "SCREEN_B"
devtools_target_name window_c = "SCREEN_C"

unfoldable pub read_devtools_target : String → Option DevtoolsTarget
read_devtools_target s =
    if str_eq s "REGIE"
    then some regie
    else if str_eq s "PROJECTION"
    then some projection
    else if str_eq s "SCREEN_A"
    then some window_a
    else if str_eq s "SCREEN_B"
    then some window_b
    else if str_eq s "SCREEN_C"
    then some window_c
    else none

-- `DATA_IMPORT_MODES`
unfoldable pub import_mode_name : ImportMode → String
import_mode_name merge = "MERGE"
import_mode_name replace = "REPLACE"

unfoldable pub read_import_mode : String → Option ImportMode
read_import_mode s =
    if str_eq s "MERGE" then some merge else if str_eq s "REPLACE" then some replace else none

-- `DATA_IMPORT_ATOMICITY`
unfoldable pub atomicity_name : Atomicity → String
atomicity_name entity = "ENTITY"
atomicity_name strict = "STRICT"

unfoldable pub read_atomicity : String → Option Atomicity
read_atomicity s =
    if str_eq s "ENTITY" then some entity else if str_eq s "STRICT" then some strict else none

-- `["IMAGE", "VIDEO"]`: the kinds of a background.
unfoldable pub read_background_media : String → Option MediaType
read_background_media s =
    if str_eq s "IMAGE" then some image else if str_eq s "VIDEO" then some video else none

-- `SCREEN_MIRROR_MODES`
pub data MirrorKind : Type 0 where
  free_kind mirror_kind : MirrorKind

unfoldable pub read_mirror_kind : String → Option MirrorKind
read_mirror_kind s =
    if str_eq s "FREE" then some free_kind else if str_eq s "MIRROR" then some mirror_kind else none
