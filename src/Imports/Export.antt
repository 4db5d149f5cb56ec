-- ===== src/Imports/Export.antt =====
-- The export of all data: the value that `data:exportAll` writes. The ids of blocks, the ids of the plan in its items and
-- the times of creation and change, which no import reads, are left out.
use church_presenter.Common.{String, not, Option, none, some, List, map, keep}
use church_presenter.PlanKinds.{announcement_text, normalize_plan_item_kind, kind_name}
use church_presenter.Json.{Value, null, num, str, arr, obj, no_properties, property, array, ones}
use church_presenter.Songs.{Block, Song, sort_blocks}
use church_presenter.Plans.{Item, sort_by_order}
use church_presenter.Sync.{PlanRow, Tables}
use church_presenter.Imports.{Calendar}
use church_presenter.Imports.Files.{export_kind}

-- A column that may be NULL.
abbrev pub column : Option String → Value
column none = null
column (some s) = str s

unfoldable pub block_value : Block → Value
block_value b = obj (
    property "order" (num (ones b.order)) (
      property "type" (str b.type)
        (property "title" (column b.title) (property "content" (str b.content) no_properties))))

unfoldable pub song_value : Song → Value
song_value s = obj (
    property "id" (str s.id) (
      property "title" (str s.title) (
        property "artist" (column s.artist) (
          property "album" (column s.album) (
            property "year" (column s.year) (
              property "language" (column s.language) (
                property "tags" (column s.tags) (
                  property "blocks" (arr (array (map block_value (sort_blocks s.blocks))))
                    no_properties))))))))

unfoldable pub item_value : Item → Value
item_value it = obj (
    property "id" (str it.id) (
      property "order" (num (ones it.order)) (
        property "kind" (str (kind_name (normalize_plan_item_kind it.kind announcement_text))) (
          property "refId" (column it.ref_id) (
            property "refSubId" (column it.ref_sub_id) (
              property "songId" (column it.song_id) (
                property "title" (column it.title) (
                  property "content" (column it.content) (
                    property "notes" (column it.notes) (
                      property "mediaPath" (column it.media_path) (
                        property "secondaryContent" (column it.secondary_content) (
                          property "backgroundConfig" (column it.background_config)
                            no_properties))))))))))))

unfoldable pub plan_value : Calendar → PlanRow → Value
plan_value calendar p = obj (
    property "id" (str p.plan.id) (
      property "date" (str (calendar.iso p.plan.date)) (
        property "title" (column p.plan.title) (
          property "backgroundConfig" (column p.plan.background_config) (
            property "items" (arr (array (map item_value (sort_by_order p.items))))
              no_properties)))))

unfoldable pub live_songs : Tables → List Song
live_songs tables = keep (λ s. not s.is_deleted) tables.songs

unfoldable pub live_plans : Tables → List PlanRow
live_plans tables = keep (λ p. not p.plan.is_deleted) tables.plans

unfoldable pub export_value : Calendar → Tables → Value
export_value calendar tables = obj (
    property "kind" (str export_kind) (
      property "schemaVersion" (num (ones 2)) (
        property "payload"
          (obj (
            property "songs" (arr (array (map song_value (live_songs tables)))) (
              property "plans" (arr (array (map (plan_value calendar) (live_plans tables))))
                no_properties)))
          no_properties)))
