-- ===== src/Plans.antt =====
-- The service plans and their items: apps/desktop/src/main/ipc/plans.ts and reorderValidation.ts
-- on the tables ServicePlan and ServiceItem of apps/desktop/prisma/schema.prisma.
pub mod Rows
pub mod Ranks
pub mod Sorted
pub mod Renumber
pub mod Compact
pub mod Remove
pub mod Reorder
pub mod Requests
pub mod Create
pub mod Commands
use church_presenter.Common.{
  ℕ, suc, ◌+◌, String, Bool, true, false, not, ◌&&◌, ◌||◌, Option, none, some, List, [], ◌∷◌, ◌++◌,
  map, str_eq, ltb, leb, ◌==◌, if◌then◌else◌, or_else, first_some, length, any, find, keep,
}
use church_presenter.Common.Outcome.{Outcome, done, thrown, ◌>>=◌}
use church_presenter.PlanKinds.{
  PlanItemKind, announcement_text, song_block, kind_name, normalize_plan_item_kind,
}

pub record Item : Type 0 where
  pub id : String
  pub plan_id : String
  pub order : ℕ
  pub kind : String
  pub title : Option String
  pub content : Option String
  pub notes : Option String
  pub ref_id : Option String
  pub ref_sub_id : Option String
  pub song_id : Option String
  pub media_path : Option String
  pub secondary_content : Option String
  pub background_config : Option String

-- A date is the number of a day: the source stores midnight in UTC.
pub record Plan : Type 0 where
  pub id : String
  pub date : ℕ
  pub title : Option String
  pub background_config : Option String
  pub is_deleted : Bool

pub record Database : Type 0 where
  pub plans : List Plan
  pub items : List Item
  pub songs : List String

pub data PlanError : Type 0 where
  unique_constraint foreign_key record_not_found : PlanError
  plan_not_found plan_item_not_found other_plan : PlanError
  invalid_reorder_size duplicate_reorder_id outside_plan : PlanError
  no_item_order no_plan_date : PlanError

pub record AddItemPayload : Type 0 where
  pub plan_id : String
  pub kind : PlanItemKind
  pub title : Option String
  pub content : Option String
  pub notes : Option String
  pub ref_id : Option String
  pub ref_sub_id : Option String
  pub media_path : Option String
  pub secondary_content : Option String
  pub background_config : Option String

-- The outer `none` is `undefined`, and leaves the column.
pub record UpdateItemPayload : Type 0 where
  pub plan_id : String
  pub item_id : String
  pub title : Option String
  pub content : Option String
  pub notes : Option String
  pub secondary_content : Option String
  pub background_config : Option (Option String)

pub record UpdatePlanPayload : Type 0 where
  pub plan_id : String
  pub title : Option String
  pub background_config : Option (Option String)

abbrev pub in_plan : String → Item → Bool
in_plan plan it = str_eq it.plan_id plan

abbrev pub has_id : String → Item → Bool
has_id id it = str_eq it.id id

unfoldable pub includes : List String → String → Bool
includes ids id = any (λ other. str_eq other id) ids

-- `findMany` with `orderBy: { order: "asc" }`.
unfoldable pub insert_by_order : Item → List Item → List Item
insert_by_order it [] = it ∷ []
insert_by_order it (other ∷ rest) =
    let below = insert_by_order it rest in
    if leb it.order other.order then it ∷ other ∷ rest else other ∷ below

unfoldable pub sort_by_order : List Item → List Item
sort_by_order [] = []
sort_by_order (it ∷ rest) = insert_by_order it (sort_by_order rest)

unfoldable pub find_items : String → List Item → List Item
find_items plan items = sort_by_order (keep (in_plan plan) items)

-- The unique index on the plan and the order, looked at by each statement.
unfoldable pub is_order_taken : String → ℕ → String → List Item → Bool
is_order_taken plan n id items =
    any (λ it. in_plan plan it && (it.order == n) && not (has_id id it)) items

abbrev pub place : String → ℕ → Item → Item
place id n it = if has_id id it then record it { order = n } else it

unfoldable pub update_order : String → ℕ → List Item → Outcome PlanError (List Item)
update_order id n items = elim (find (has_id id) items) [
  | none ↦ thrown record_not_found
  | some it ↦
      if is_order_taken it.plan_id n id items
      then thrown unique_constraint
      else done (map (place id n) items)
]

-- The update of every row of a list of ids to its place, counted from `n`.
unfoldable pub update_orders : ℕ → List String → List Item → Outcome PlanError (List Item)
update_orders n [] items = done items
update_orders n (id ∷ ids) items = update_order id n items >>= update_orders (n + 1) ids

abbrev pub ids_of : List Item → List String
ids_of items = map (λ it. it.id) items

unfoldable pub renumber : String → List Item → Outcome PlanError (List Item)
renumber plan items = update_orders 1 (ids_of (find_items plan items)) items

unfoldable pub remove_item : String → String → List Item → Outcome PlanError (List Item)
remove_item plan id items = elim (find (has_id id) items) [
  | none ↦ done items
  | some it ↦
      if str_eq it.plan_id plan
      then renumber plan (keep (λ other. not (has_id id other)) items)
      else thrown other_plan
]

unfoldable pub remove_items : String → List String → List Item → Outcome PlanError (List Item)
remove_items plan [] items = done items
remove_items plan (id ∷ ids) items =
    if any (λ it. includes (id ∷ ids) it.id && not (in_plan plan it)) items
    then thrown other_plan
    else renumber plan (keep (λ it. not (includes (id ∷ ids) it.id)) items)

-- `new Set(ids).size === ids.length`.
unfoldable pub is_distinct : List String → Bool
is_distinct [] = true
is_distinct (id ∷ ids) = not (includes ids id) && is_distinct ids

unfoldable pub all_included : List String → List String → Bool
all_included current [] = true
all_included current (id ∷ ids) = includes current id && all_included current ids

unfoldable pub validate_plan_reorder_payload :
    List String → List String → Outcome PlanError (Unit {0})
validate_plan_reorder_payload current requested =
    if not (length requested == length current)
    then thrown invalid_reorder_size
    else if not (is_distinct requested)
    then thrown duplicate_reorder_id
    else if all_included current requested
    then done tt
    else thrown outside_plan

unfoldable pub reorder : String → List String → List Item → Outcome PlanError (List Item)
reorder plan requested items = do
  _ ← validate_plan_reorder_payload (ids_of (find_items plan items)) requested
  update_orders 1 requested items

abbrev pub patched : UpdateItemPayload → Item → Item
patched p row = record row {
  title = first_some p.title row.title;
  content = first_some p.content row.content;
  notes = first_some p.notes row.notes;
  secondary_content = first_some p.secondary_content row.secondary_content;
  background_config = or_else p.background_config row.background_config;
}

unfoldable pub update_item : UpdateItemPayload → List Item → Outcome PlanError (List Item)
update_item p items = elim (find (has_id p.item_id) items) [
  | none ↦ thrown plan_item_not_found
  | some it ↦
      if str_eq it.plan_id p.plan_id
      then done (map (λ row. if has_id p.item_id row then patched p row else row) items)
      else thrown other_plan
]

-- `findFirst` with `orderBy: { order: "desc" }`: the order of the last item, or 0.
unfoldable pub last_order : String → List Item → ℕ
last_order plan [] = 0
last_order plan (it ∷ rest) =
    let below = last_order plan rest in
    if in_plan plan it && ltb below it.order then it.order else below
