-- ===== src/RuntimeValidation/Screens.antt =====
-- The payloads of the screens and of the live state.
use church_presenter.Common.{String, Option, none, some, List, [], ◌∷◌}
use church_presenter.Common.Outcome.{done, ◌>>=◌}
use church_presenter.Ipc.{
  ScreenKey, SongMeta, ItemBackground, SecondaryText, TextPayload, MediaPayload, ProjectionCurrent,
}
use church_presenter.Screens.Patch.{Appearance, StatePatch}
use church_presenter.Json.{Value, undefined, null, str, arr, obj, get, elements, text_of}
use church_presenter.RuntimeValidation.{
  Parsed, trimmed, may_be_empty, raw, any_number, expect_record, expect_string,
  expect_optional_string, expect_boolean, expect_number, expect_enum, unless_undefined,
  unless_nullish,
}
use church_presenter.RuntimeValidation.Names.{
  read_screen_key, read_mode, read_background_fill, read_foreground_fill, read_logo_position,
  read_media_type, read_current_kind, read_background_media, DevtoolsTarget, read_devtools_target,
}

unfoldable pub parse_screen_key : Value → Parsed ScreenKey
parse_screen_key = expect_enum read_screen_key

unfoldable pub parse_devtools_target : Value → Parsed DevtoolsTarget
parse_devtools_target = expect_enum read_devtools_target

-- The fields of `parseSongMeta`, once the value is known to be given.
unfoldable pub song_meta : Value → Parsed SongMeta
song_meta v = do
  rec ← expect_record v
  title ← expect_optional_string trimmed (get "title" rec)
  artist ← expect_optional_string trimmed (get "artist" rec)
  album ← expect_optional_string trimmed (get "album" rec)
  year ← expect_optional_string trimmed (get "year" rec)
  done (record { title = title; artist = artist; album = album; year = year })

unfoldable pub parse_song_meta : Value → Parsed (Option SongMeta)
parse_song_meta = unless_nullish song_meta

unfoldable pub parse_item_background : Value → Parsed ItemBackground
parse_item_background v = do
  rec ← expect_record v
  background ← unless_nullish (expect_string may_be_empty) (get "background" rec)
  background_mode ← unless_nullish (expect_enum read_background_fill) (get "backgroundMode" rec)
  background_gradient_from ←
      unless_nullish (expect_string may_be_empty) (get "backgroundGradientFrom" rec)
  background_gradient_to ←
      unless_nullish (expect_string may_be_empty) (get "backgroundGradientTo" rec)
  background_gradient_angle ←
      unless_nullish (expect_number any_number) (get "backgroundGradientAngle" rec)
  background_media ← unless_nullish (expect_string trimmed) (get "backgroundMedia" rec)
  background_media_type ←
      unless_nullish (expect_enum read_background_media) (get "backgroundMediaType" rec)
  foreground ← unless_nullish (expect_string may_be_empty) (get "foreground" rec)
  foreground_mode ← unless_nullish (expect_enum read_foreground_fill) (get "foregroundMode" rec)
  foreground_gradient_from ←
      unless_nullish (expect_string may_be_empty) (get "foregroundGradientFrom" rec)
  foreground_gradient_to ←
      unless_nullish (expect_string may_be_empty) (get "foregroundGradientTo" rec)
  done (record {
    background = background;
    background_mode = background_mode;
    background_gradient_from = background_gradient_from;
    background_gradient_to = background_gradient_to;
    background_gradient_angle = background_gradient_angle;
    background_media = background_media;
    background_media_type = background_media_type;
    foreground = foreground;
    foreground_mode = foreground_mode;
    foreground_gradient_from = foreground_gradient_from;
    foreground_gradient_to = foreground_gradient_to;
  })

unfoldable pub parse_projection_current : Value → Parsed ProjectionCurrent
parse_projection_current v = do
  rec ← expect_record v
  kind ← expect_enum read_current_kind (get "kind" rec)
  title ← expect_optional_string raw (get "title" rec)
  body ← expect_optional_string raw (get "body" rec)
  media_path ← expect_optional_string trimmed (get "mediaPath" rec)
  media_type ← unless_nullish (expect_enum read_media_type) (get "mediaType" rec)
  meta_song ← parse_song_meta (get "metaSong" rec)
  done (record {
    kind = kind;
    title = title;
    body = body;
    media_path = media_path;
    media_type = media_type;
    meta_song = meta_song;
    secondary_texts = none;
    background_override = none;
  })

unfoldable pub parse_projection_state_patch : Value → Parsed StatePatch
parse_projection_state_patch v = do
  rec ← expect_record v
  mode ← unless_undefined (expect_enum read_mode) (get "mode" rec)
  lower_third_enabled ← unless_undefined expect_boolean (get "lowerThirdEnabled" rec)
  transition_enabled ← unless_undefined expect_boolean (get "transitionEnabled" rec)
  text_scale ← unless_undefined (expect_number any_number) (get "textScale" rec)
  text_font ← unless_undefined (expect_string trimmed) (get "textFont" rec)
  text_font_path ← unless_undefined (expect_string may_be_empty) (get "textFontPath" rec)
  background ← unless_undefined (expect_string trimmed) (get "background" rec)
  background_mode ← unless_undefined (expect_enum read_background_fill) (get "backgroundMode" rec)
  background_gradient_from ←
      unless_undefined (expect_string trimmed) (get "backgroundGradientFrom" rec)
  background_gradient_to ← unless_undefined (expect_string trimmed) (get "backgroundGradientTo" rec)
  background_gradient_angle ←
      unless_undefined (expect_number any_number) (get "backgroundGradientAngle" rec)
  foreground_mode ← unless_undefined (expect_enum read_foreground_fill) (get "foregroundMode" rec)
  foreground_gradient_from ←
      unless_undefined (expect_string trimmed) (get "foregroundGradientFrom" rec)
  foreground_gradient_to ← unless_undefined (expect_string trimmed) (get "foregroundGradientTo" rec)
  foreground ← unless_undefined (expect_string trimmed) (get "foreground" rec)
  logo_path ← unless_undefined (expect_string may_be_empty) (get "logoPath" rec)
  current ← unless_undefined parse_projection_current (get "current" rec)
  done (record {
    mode = mode;
    lower_third_enabled = lower_third_enabled;
    transition_enabled = transition_enabled;
    text_scale = text_scale;
    text_font = text_font;
    text_font_path = text_font_path;
    background = background;
    background_mode = background_mode;
    background_gradient_from = background_gradient_from;
    background_gradient_to = background_gradient_to;
    background_gradient_angle = background_gradient_angle;
    foreground_mode = foreground_mode;
    foreground_gradient_from = foreground_gradient_from;
    foreground_gradient_to = foreground_gradient_to;
    foreground = foreground;
    logo_path = logo_path;
    current = current;
  })

unfoldable pub parse_appearance : Value → Parsed Appearance
parse_appearance v = do
  rec ← expect_record v
  text_scale ← unless_undefined (expect_number any_number) (get "textScale" rec)
  title_text_scale ← unless_undefined (expect_number any_number) (get "titleTextScale" rec)
  text_font ← unless_undefined (expect_string trimmed) (get "textFont" rec)
  text_font_path ← unless_undefined (expect_string may_be_empty) (get "textFontPath" rec)
  background ← unless_undefined (expect_string trimmed) (get "background" rec)
  background_mode ← unless_undefined (expect_enum read_background_fill) (get "backgroundMode" rec)
  background_gradient_from ←
      unless_undefined (expect_string trimmed) (get "backgroundGradientFrom" rec)
  background_gradient_to ← unless_undefined (expect_string trimmed) (get "backgroundGradientTo" rec)
  background_gradient_angle ←
      unless_undefined (expect_number any_number) (get "backgroundGradientAngle" rec)
  background_image ← unless_undefined (expect_string may_be_empty) (get "backgroundImage" rec)
  logo_path ← unless_undefined (expect_string may_be_empty) (get "logoPath" rec)
  logo_position ← unless_undefined (expect_enum read_logo_position) (get "logoPosition" rec)
  logo_opacity ← unless_undefined (expect_number any_number) (get "logoOpacity" rec)
  logo_scale ← unless_undefined (expect_number any_number) (get "logoScale" rec)
  foreground_mode ← unless_undefined (expect_enum read_foreground_fill) (get "foregroundMode" rec)
  foreground_gradient_from ←
      unless_undefined (expect_string trimmed) (get "foregroundGradientFrom" rec)
  foreground_gradient_to ← unless_undefined (expect_string trimmed) (get "foregroundGradientTo" rec)
  foreground ← unless_undefined (expect_string trimmed) (get "foreground" rec)
  done (record {
    text_scale = text_scale;
    title_text_scale = title_text_scale;
    text_font = text_font;
    text_font_path = text_font_path;
    background = background;
    background_mode = background_mode;
    background_gradient_from = background_gradient_from;
    background_gradient_to = background_gradient_to;
    background_gradient_angle = background_gradient_angle;
    background_image = background_image;
    logo_path = logo_path;
    logo_position = logo_position;
    logo_opacity = logo_opacity;
    logo_scale = logo_scale;
    foreground_mode = foreground_mode;
    foreground_gradient_from = foreground_gradient_from;
    foreground_gradient_to = foreground_gradient_to;
    foreground = foreground;
  })

-- `String(x.label ?? "")`
abbrev label_text : Value → String
label_text undefined = ""
label_text null = ""
label_text v = text_of v

-- The secondary texts that have a body; the others are left out.
unfoldable pub secondary_texts_of : List Value → List SecondaryText
secondary_texts_of [] = []
secondary_texts_of (obj rec ∷ rest) = elim (get "body" rec) [
  | str body ↦
      record { label = label_text (get "label" rec); body = body } ∷ secondary_texts_of rest
  | _ ↦ secondary_texts_of rest
]
secondary_texts_of (_ ∷ rest) = secondary_texts_of rest

unfoldable pub parse_secondary_texts : Value → Option (List SecondaryText)
unfolding elements
parse_secondary_texts (arr items) = some (secondary_texts_of (elements items))
parse_secondary_texts _ = none

-- An array is an object here, and is refused as a background.
unfoldable pub parse_background_override : Value → Parsed (Option ItemBackground)
parse_background_override (obj fields) = parse_item_background (obj fields) >>= λ b. done (some b)
parse_background_override (arr items) = parse_item_background (arr items) >>= λ b. done (some b)
parse_background_override _ = done none

unfoldable pub parse_text_payload : Value → Parsed TextPayload
parse_text_payload v = do
  rec ← expect_record v
  background_override ← parse_background_override (get "backgroundOverride" rec)
  title ← expect_optional_string raw (get "title" rec)
  body ← expect_string raw (get "body" rec)
  meta_song ← parse_song_meta (get "metaSong" rec)
  done (record {
    title = title;
    body = body;
    meta_song = meta_song;
    secondary_texts = parse_secondary_texts (get "secondaryTexts" rec);
    background_override = background_override;
  })

unfoldable pub parse_media_payload : Value → Parsed MediaPayload
parse_media_payload v = do
  rec ← expect_record v
  title ← expect_optional_string raw (get "title" rec)
  media_path ← expect_string trimmed (get "mediaPath" rec)
  media_type ← expect_enum read_media_type (get "mediaType" rec)
  done (record { title = title; media_path = media_path; media_type = media_type })
