-- ===== src/Imports/Items.antt =====
-- The items of a plan in an exported file, read again.
use church_presenter.Common.{
  ℕ, suc, ◌+◌, ◌≤◌, String, ◌≡◌, refl, ap, true, Option, none, some, List, [], ◌∷◌, map, leb, arith,
  All,
}
use church_presenter.PlanKinds.{
  PlanItemKind, announcement_text, normalize_plan_item_kind, is_plan_item_kind, kind_name,
}
use church_presenter.PlanKinds.Names.{read_kind-kind_name}
use church_presenter.Json.{num, str, Properties, no_properties, property, get, ones}
use church_presenter.RuntimeValidation.RoundTrip.{IsTrimmed, IfGiven, kind_name-IsTrimmed}
use church_presenter.Plans.{Item, insert_by_order, sort_by_order}
use church_presenter.Plans.Sorted.{IsAscending}
use church_presenter.Imports.{
  NormalizedItem, as_raw_string, normalize_item, kind_errors, normalize_items,
}
use church_presenter.Imports.Export.{column, item_value}
use church_presenter.Imports.Songs.{
  as_string_like_trimmed, as_string_like-column, as_positive_int-ones,
}

-- An item whose texts have no white space at their ends; the texts that are copied as they are may have any.
pub record IsPortableItem (it : Item) : Type 0 where
  pub order : 1 ≤ it.order
  pub ref_id : IfGiven IsTrimmed it.ref_id
  pub ref_sub_id : IfGiven IsTrimmed it.ref_sub_id
  pub title : IfGiven IsTrimmed it.title
  pub content : IfGiven IsTrimmed it.content
  pub media_path : IfGiven IsTrimmed it.media_path

-- An item as it is read from a file.
abbrev pub read_item : Item → NormalizedItem
read_item it = record {
  order = it.order;
  kind = normalize_plan_item_kind it.kind announcement_text;
  ref_id = it.ref_id;
  ref_sub_id = it.ref_sub_id;
  title = it.title;
  content = it.content;
  media_path = it.media_path;
  notes = it.notes;
  secondary_content = it.secondary_content;
  background_config = it.background_config;
}

-- What of an item is no id, as it is stored, but the song that songId names.
pub record ItemContent : Type 0 where
  pub order : ℕ
  pub kind : String
  pub ref_id : Option String
  pub ref_sub_id : Option String
  pub title : Option String
  pub content : Option String
  pub media_path : Option String
  pub notes : Option String
  pub secondary_content : Option String
  pub background_config : Option String

abbrev pub item_content : Item → ItemContent
item_content it = record {
  order = it.order;
  kind = it.kind;
  ref_id = it.ref_id;
  ref_sub_id = it.ref_sub_id;
  title = it.title;
  content = it.content;
  media_path = it.media_path;
  notes = it.notes;
  secondary_content = it.secondary_content;
  background_config = it.background_config;
}

-- What a file makes of it: a kind that is none is ANNOUNCEMENT_TEXT.
abbrev pub carried_item : ItemContent → ItemContent
carried_item c = record c { kind = kind_name (normalize_plan_item_kind c.kind announcement_text) }

pub normalize_kind :
    (k : PlanItemKind) → normalize_plan_item_kind (kind_name k) announcement_text ≡ k
unfolding normalize_plan_item_kind
normalize_kind k = rw (read_kind-kind_name k) refl

pub as_raw_string-column : (o : Option String) → as_raw_string (column o) ≡ o
unfolding as_raw_string
as_raw_string-column none = refl
as_raw_string-column (some s) = refl

item_fields : Item → Properties
item_fields it = property "id" (str it.id) (
    property "order" (num (ones it.order)) (
      property "kind" (str (kind_name (normalize_plan_item_kind it.kind announcement_text))) (
        property "refId" (column it.ref_id) (
          property "refSubId" (column it.ref_sub_id) (
            property "songId" (column it.song_id) (
              property "title" (column it.title) (
                property "content" (column it.content) (
                  property "notes" (column it.notes) (
                    property "mediaPath" (column it.media_path) (
                      property "secondaryContent" (column it.secondary_content) (
                        property "backgroundConfig" (column it.background_config)
                          no_properties)))))))))))

normalize_item-fields :
    (idx : ℕ) (it : Item) → IsPortableItem it → normalize_item idx (item_fields it) ≡ read_item it
unfolding normalize_item item_fields get
normalize_item-fields idx it p =
    let kind = normalize_plan_item_kind it.kind announcement_text in
    rw
      (
        as_positive_int-ones it.order (idx + 1) p.order,
        as_string_like_trimmed (kind_name kind) (kind_name-IsTrimmed kind),
        normalize_kind kind,
        as_string_like-column it.ref_id p.ref_id,
        as_string_like-column it.ref_sub_id p.ref_sub_id,
        as_string_like-column it.title p.title,
        as_string_like-column it.content p.content,
        as_string_like-column it.media_path p.media_path,
        as_raw_string-column it.notes,
        as_raw_string-column it.secondary_content,
        as_raw_string-column it.background_config,
      )
      refl

kind_errors_none :
    (plan idx : ℕ) (title : String) (it : Item) → kind_errors plan idx title (item_fields it) ≡ []
unfolding kind_errors item_fields get is_plan_item_kind
kind_errors_none plan idx title it =
    let kind = normalize_plan_item_kind it.kind announcement_text in
    rw
      (as_string_like_trimmed (kind_name kind) (kind_name-IsTrimmed kind), read_kind-kind_name kind)
      refl

pub normalize_items-values :
    (plan : ℕ) (title : String) (idx : ℕ) (items : List Item)
    → All IsPortableItem items
    → normalize_items plan title idx (map item_value items) ≡ (map read_item items, [])
unfolding normalize_items item_value item_fields
normalize_items-values plan title idx [] h = refl
normalize_items-values plan title idx (it ∷ rest) h =
    rw (normalize_items-values plan title (suc idx) rest h.1, kind_errors_none plan idx title it)
      (ap (λ c. (c ∷ map read_item rest, [])) (normalize_item-fields idx it h.0))

insert_first :
    (low : ℕ) (it : Item) (rest : List Item)
    → IsAscending (suc it.order) rest
    → insert_by_order it rest ≡ it ∷ rest
unfolding insert_by_order
insert_first low it [] h = refl
insert_first low it (other ∷ rest) h =
    let l : leb it.order other.order ≡ true = ground arith in rw l refl

-- Items that are listed in their order are sorted.
pub sort_by_order_ascending :
    (low : ℕ) (items : List Item) → IsAscending low items → sort_by_order items ≡ items
unfolding sort_by_order
sort_by_order_ascending low [] h = refl
sort_by_order_ascending low (it ∷ rest) h =
    rw (sort_by_order_ascending (suc it.order) rest h.1) (insert_first low it rest h.1)
