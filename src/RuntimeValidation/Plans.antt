-- ===== src/RuntimeValidation/Plans.antt =====
-- The parsers for plans and imports of apps/desktop/src/main/ipc/runtimeValidation.ts.
use church_presenter.Common.{String, Option, List}
use church_presenter.Common.Outcome.{done, ◌>>=◌}
use church_presenter.PlanKinds.{read_kind}
use church_presenter.Plans.{AddItemPayload, UpdateItemPayload, UpdatePlanPayload}
use church_presenter.Json.{Value, undefined, null, get}
use church_presenter.RuntimeValidation.{
  Parsed, trimmed, raw, expect_record, expect_string, expect_optional_string, expect_enum, or_null,
}
use church_presenter.RuntimeValidation.Names.{
  ImportMode, merge, replace, read_import_mode, Atomicity, entity, strict, read_atomicity,
}
use church_presenter.RuntimeValidation.Records.{parse_ids}

pub record DuplicatePayload : Type 0 where
  pub plan_id : String
  pub date_iso : Option String
  pub title : Option String

unfoldable pub parse_duplicate_payload : Value → Parsed DuplicatePayload
parse_duplicate_payload v = do
  rec ← expect_record v
  plan_id ← expect_string trimmed (get "planId" rec)
  date_iso ← expect_optional_string trimmed (get "dateIso" rec)
  title ← expect_optional_string trimmed (get "title" rec)
  done (record { plan_id = plan_id; date_iso = date_iso; title = title })

pub record CreatePlanPayload : Type 0 where
  pub date_iso : String
  pub title : Option String

unfoldable pub parse_create_plan_payload : Value → Parsed CreatePlanPayload
parse_create_plan_payload v = do
  rec ← expect_record v
  date_iso ← expect_string trimmed (get "dateIso" rec)
  title ← expect_optional_string trimmed (get "title" rec)
  done (record { date_iso = date_iso; title = title })

unfoldable pub parse_update_plan_payload : Value → Parsed UpdatePlanPayload
parse_update_plan_payload v = do
  rec ← expect_record v
  plan_id ← expect_string trimmed (get "planId" rec)
  title ← expect_optional_string trimmed (get "title" rec)
  background_config ← or_null (expect_optional_string raw) (get "backgroundConfig" rec)
  done (record { plan_id = plan_id; title = title; background_config = background_config })

unfoldable pub parse_update_item_payload : Value → Parsed UpdateItemPayload
parse_update_item_payload v = do
  rec ← expect_record v
  plan_id ← expect_string trimmed (get "planId" rec)
  item_id ← expect_string trimmed (get "itemId" rec)
  title ← expect_optional_string raw (get "title" rec)
  content ← expect_optional_string raw (get "content" rec)
  notes ← expect_optional_string raw (get "notes" rec)
  secondary_content ← expect_optional_string raw (get "secondaryContent" rec)
  background_config ← or_null (expect_optional_string raw) (get "backgroundConfig" rec)
  done (record {
    plan_id = plan_id;
    item_id = item_id;
    title = title;
    content = content;
    notes = notes;
    secondary_content = secondary_content;
    background_config = background_config;
  })

unfoldable pub parse_add_item_payload : Value → Parsed AddItemPayload
parse_add_item_payload v = do
  rec ← expect_record v
  plan_id ← expect_string trimmed (get "planId" rec)
  kind ← expect_enum read_kind (get "kind" rec)
  title ← expect_optional_string raw (get "title" rec)
  content ← expect_optional_string raw (get "content" rec)
  notes ← expect_optional_string raw (get "notes" rec)
  ref_id ← expect_optional_string trimmed (get "refId" rec)
  ref_sub_id ← expect_optional_string trimmed (get "refSubId" rec)
  media_path ← expect_optional_string trimmed (get "mediaPath" rec)
  secondary_content ← expect_optional_string raw (get "secondaryContent" rec)
  background_config ← expect_optional_string raw (get "backgroundConfig" rec)
  done (record {
    plan_id = plan_id;
    kind = kind;
    title = title;
    content = content;
    notes = notes;
    ref_id = ref_id;
    ref_sub_id = ref_sub_id;
    media_path = media_path;
    secondary_content = secondary_content;
    background_config = background_config;
  })

pub record RemoveItemPayload : Type 0 where
  pub plan_id : String
  pub item_id : String

unfoldable pub parse_remove_item_payload : Value → Parsed RemoveItemPayload
parse_remove_item_payload v = do
  rec ← expect_record v
  plan_id ← expect_string trimmed (get "planId" rec)
  item_id ← expect_string trimmed (get "itemId" rec)
  done (record { plan_id = plan_id; item_id = item_id })

-- The ids of a removal of several items, and of a reorder.
pub record ItemIdsPayload : Type 0 where
  pub plan_id : String
  pub item_ids : List String

unfoldable pub parse_remove_items_payload : Value → Parsed ItemIdsPayload
parse_remove_items_payload v = do
  rec ← expect_record v
  plan_id ← expect_string trimmed (get "planId" rec)
  item_ids ← parse_ids (get "itemIds" rec)
  done (record { plan_id = plan_id; item_ids = item_ids })

unfoldable pub parse_reorder_payload : Value → Parsed ItemIdsPayload
parse_reorder_payload v = do
  rec ← expect_record v
  plan_id ← expect_string trimmed (get "planId" rec)
  item_ids ← parse_ids (get "orderedItemIds" rec)
  done (record { plan_id = plan_id; item_ids = item_ids })

unfoldable pub parse_export_payload : Value → Parsed String
parse_export_payload v = expect_record v >>= λ rec. expect_string trimmed (get "planId" rec)

pub record ImportPayload : Type 0 where
  pub mode : ImportMode
  pub atomicity : Atomicity

abbrev default_atomicity : ImportMode → Atomicity
default_atomicity merge = entity
default_atomicity replace = strict

abbrev import_mode : Value → Parsed ImportMode
import_mode undefined = done merge
import_mode null = done merge
import_mode v = expect_enum read_import_mode v

abbrev import_atomicity : ImportMode → Value → Parsed Atomicity
import_atomicity mode undefined = done (default_atomicity mode)
import_atomicity mode null = done (default_atomicity mode)
import_atomicity mode v = expect_enum read_atomicity v

unfoldable pub parse_data_import_payload : Value → Parsed ImportPayload
parse_data_import_payload undefined = done (record { mode = merge; atomicity = entity })
parse_data_import_payload null = done (record { mode = merge; atomicity = entity })
parse_data_import_payload v = do
  rec ← expect_record v
  mode ← import_mode (get "mode" rec)
  atomicity ← import_atomicity mode (get "atomicity" rec)
  done (record { mode = mode; atomicity = atomicity })
