-- ===== src/PlanKinds.antt =====
-- The kinds of plan items: apps/desktop/src/shared/planKinds.ts.
pub mod Names
use church_presenter.Common.{
  String, Bool, true, false, Option, none, some, or_else, is_some, ◌||◌, str_eq, if◌then◌else◌,
}

pub data PlanItemKind : Type 0 where
  announcement_text announcement_image announcement_pdf announcement_video : PlanItemKind
  verse_manual bible_verse bible_passage song_block timer : PlanItemKind

-- The text that stands for a kind in the database and in payloads.
unfoldable pub kind_name : PlanItemKind → String
kind_name announcement_text = "ANNOUNCEMENT_TEXT"
kind_name announcement_image = "ANNOUNCEMENT_IMAGE"
kind_name announcement_pdf = "ANNOUNCEMENT_PDF"
kind_name announcement_video = "ANNOUNCEMENT_VIDEO"
kind_name verse_manual = "VERSE_MANUAL"
kind_name bible_verse = "BIBLE_VERSE"
kind_name bible_passage = "BIBLE_PASSAGE"
kind_name song_block = "SONG_BLOCK"
kind_name timer = "TIMER"

unfoldable pub kind_label : PlanItemKind → String
kind_label announcement_text = "Annonce"
kind_label announcement_image = "Image"
kind_label announcement_pdf = "PDF"
kind_label announcement_video = "Vidéo"
kind_label verse_manual = "Verset"
kind_label bible_verse = "Verset"
kind_label bible_passage = "Passage"
kind_label song_block = "Chant"
kind_label timer = "Minuterie"

unfoldable pub kind_default_title : PlanItemKind → String
kind_default_title announcement_text = "Annonce"
kind_default_title announcement_image = "Image"
kind_default_title announcement_pdf = "PDF"
kind_default_title announcement_video = "Vidéo"
kind_default_title verse_manual = "Bible"
kind_default_title bible_verse = "Bible"
kind_default_title bible_passage = "Bible"
kind_default_title song_block = "Chant"
kind_default_title timer = "Minuterie"

-- Membership in `PLAN_KIND_SET`, with the kind that the text names.
unfoldable pub read_kind : String → Option PlanItemKind
read_kind s =
    if str_eq s "ANNOUNCEMENT_TEXT"
    then some announcement_text
    else if str_eq s "ANNOUNCEMENT_IMAGE"
    then some announcement_image
    else if str_eq s "ANNOUNCEMENT_PDF"
    then some announcement_pdf
    else if str_eq s "ANNOUNCEMENT_VIDEO"
    then some announcement_video
    else if str_eq s "VERSE_MANUAL"
    then some verse_manual
    else if str_eq s "BIBLE_VERSE"
    then some bible_verse
    else if str_eq s "BIBLE_PASSAGE"
    then some bible_passage
    else if str_eq s "SONG_BLOCK"
    then some song_block
    else if str_eq s "TIMER"
    then some timer
    else none

unfoldable pub is_plan_item_kind : String → Bool
is_plan_item_kind s = is_some (read_kind s)

unfoldable pub normalize_plan_item_kind : String → PlanItemKind → PlanItemKind
normalize_plan_item_kind s fallback = or_else (read_kind s) fallback

unfoldable pub is_bible_kind : PlanItemKind → Bool
is_bible_kind verse_manual = true
is_bible_kind bible_verse = true
is_bible_kind bible_passage = true
is_bible_kind _ = false

unfoldable pub is_media_kind : PlanItemKind → Bool
is_media_kind announcement_image = true
is_media_kind announcement_pdf = true
is_media_kind announcement_video = true
is_media_kind _ = false
