-- ===== src/Plans/Create.antt =====
-- New plans and new items: createPlanItemWithRetry, duplicatePlanWithRetry and the handlers
-- `plans:create`, `plans:duplicate`, `plans:update` and `plans:delete` of plans.ts.
pub mod Items
pub mod Retry
pub mod Dates
pub mod Copies
use church_presenter.Common.{
  ℕ, zero, suc, ◌+◌, String, Bool, true, false, not, ◌&&◌, ◌||◌, Option, none, some, List, [], ◌∷◌,
  ◌++◌, map, str_eq, ltb, ◌==◌, if◌then◌else◌, or_else, first_some, any, find,
}
use church_presenter.Common.Outcome.{Outcome, done, thrown, ◌>>=◌}
use church_presenter.PlanKinds.{
  PlanItemKind, announcement_text, song_block, kind_name, normalize_plan_item_kind,
}
use church_presenter.Plans.{
  Item, Plan, Database, PlanError, unique_constraint, foreign_key, record_not_found, plan_not_found,
  no_item_order, no_plan_date, AddItemPayload, UpdatePlanPayload, has_id, in_plan, includes,
  find_items, last_order,
}

abbrev pub has_plan_id : String → Plan → Bool
has_plan_id id plan = str_eq plan.id id

abbrev pub has_song : Database → Option String → Bool
has_song db none = true
has_song db (some id) = includes db.songs id

-- An item of the same id, or at the same place of the same plan.
unfoldable pub is_item_key_taken : Item → List Item → Bool
is_item_key_taken it items =
    any (λ other. has_id it.id other || (in_plan it.plan_id other && (other.order == it.order)))
      items

-- `serviceItem.create`, with the unique indexes and the foreign keys of the table.
unfoldable pub create_item : Item → Database → Outcome PlanError Database
create_item it db =
    if is_item_key_taken it db.items
    then thrown unique_constraint
    else if not (any (has_plan_id it.plan_id) db.plans)
    then thrown foreign_key
    else if not (has_song db it.song_id)
    then thrown foreign_key
    else done (record db { items = db.items ++ it ∷ [] })

abbrev pub new_item : AddItemPayload → String → ℕ → Item
new_item p id n = record {
  id = id;
  plan_id = p.plan_id;
  order = n;
  kind = kind_name p.kind;
  title = p.title;
  content = p.content;
  notes = p.notes;
  ref_id = p.ref_id;
  ref_sub_id = p.ref_sub_id;
  song_id = if str_eq (kind_name p.kind) "SONG_BLOCK" then p.ref_id else none;
  media_path = p.media_path;
  secondary_content = p.secondary_content;
  background_config = p.background_config;
}

abbrev pub is_unique_constraint_error : PlanError → Bool
is_unique_constraint_error unique_constraint = true
is_unique_constraint_error _ = false

-- One attempt: the order is read, other writers may come in between, and the row is written.
unfoldable pub try_create_item :
    (Database → Database) → AddItemPayload → String → Database → Outcome PlanError Database
try_create_item others p id db =
    create_item (new_item p id (last_order p.plan_id db.items + 1)) (others db)

-- `others n` is what other writers do in the attempt `n`, and `ids n` the id that is drawn in it; `attempts` are left. A
-- refused attempt leaves what they wrote, since it rolls back only its own writes.
unfoldable pub create_plan_item_with_retry :
    (ℕ → Database → Database)
    → AddItemPayload
    → (ℕ → String)
    → (attempts n : ℕ) → Database
    → Outcome PlanError Database
create_plan_item_with_retry others p ids zero n db = thrown no_item_order
create_plan_item_with_retry others p ids (suc attempts) n db =
    let again = create_plan_item_with_retry others p ids attempts (n + 1) (others n db) in
    elim (try_create_item (others n) p (ids n) db) [
      | done end ↦ done end
      | thrown why ↦
          if not (is_unique_constraint_error why) || (attempts == 0) then thrown why else again
    ]

abbrev pub max_item_retries : ℕ
max_item_retries = 20

abbrev pub max_date_retries : ℕ
max_date_retries = 3660

unfoldable pub is_date_taken : ℕ → List Plan → Bool
is_date_taken date plans = any (λ plan. plan.date == date) plans

unfoldable pub is_plan_key_taken : Plan → List Plan → Bool
is_plan_key_taken plan plans = any (has_plan_id plan.id) plans || is_date_taken plan.date plans

-- `servicePlan.create`, with the unique indexes on the id and the date.
unfoldable pub create_plan_row : Plan → Database → Outcome PlanError Database
create_plan_row plan db =
    if is_plan_key_taken plan db.plans
    then thrown unique_constraint
    else done (record db { plans = db.plans ++ plan ∷ [] })

abbrev pub new_plan : String → Option String → Option String → ℕ → Plan
new_plan id title background date = record {
  id = id;
  date = date;
  title = title;
  background_config = background;
  is_deleted = false;
}

-- `plans:create`: the first day from `date` on that no plan has.
unfoldable pub create_plan :
    Option String → String → (attempts date : ℕ) → Database → Outcome PlanError Database
create_plan title id zero date db = thrown no_plan_date
create_plan title id (suc attempts) date db =
    let again = create_plan title id attempts (date + 1) db in
    elim (create_plan_row (new_plan id (some (or_else title "Culte")) none date) db) [
      | done end ↦ done end
      | thrown why ↦ if not (is_unique_constraint_error why) then thrown why else again
    ]

abbrev pub copied_item : String → String → Item → Item
copied_item plan id it = record it {
  id = id;
  plan_id = plan;
  kind = kind_name (normalize_plan_item_kind it.kind announcement_text);
}

-- The items of a plan, written one by one under new ids.
unfoldable pub copy_items :
    String → (ℕ → String) → ℕ → List Item → Database → Outcome PlanError Database
copy_items plan ids n [] db = done db
copy_items plan ids n (it ∷ rest) db =
    create_item (copied_item plan (ids n) it) db >>= copy_items plan ids (n + 1) rest

unfoldable pub try_duplicate :
    Plan → (ℕ → String) → List Item → Database → Outcome PlanError Database
try_duplicate plan ids items db = create_plan_row plan db >>= copy_items plan.id ids 0 items

unfoldable pub duplicate_plan_with_retry :
    Option String
    → Option String
    → String
    → (ℕ → String)
    → List Item
    → (attempts date : ℕ) → Database
    → Outcome PlanError Database
duplicate_plan_with_retry title background id ids items zero date db = thrown no_plan_date
duplicate_plan_with_retry title background id ids items (suc attempts) date db =
    let again = duplicate_plan_with_retry title background id ids items attempts (date + 1) db in
    elim (try_duplicate (new_plan id title background date) ids items db) [
      | done end ↦ done end
      | thrown why ↦
          if not (is_unique_constraint_error why) || (attempts == 0) then thrown why else again
    ]

-- JavaScript's `a || b` on texts.
abbrev pub text_or : Option String → Option String → Option String
text_or none b = b
text_or (some a) b = if str_eq a "" then b else some a

-- `plans:duplicate`. The payload's title comes trimmed and is not empty.
unfoldable pub duplicate_plan :
    String
    → Option String
    → Option ℕ
    → String
    → (ℕ → String)
    → Database
    → Outcome PlanError Database
duplicate_plan plan title date id ids db = elim (find (has_plan_id plan) db.plans) [
  | none ↦ thrown plan_not_found
  | some base ↦
      duplicate_plan_with_retry (text_or title (text_or base.title (some "Culte")))
        base.background_config id ids (find_items plan db.items) max_date_retries
        (or_else date base.date) db
]

unfoldable pub change_plan : String → (Plan → Plan) → Database → Outcome PlanError Database
change_plan id change db =
    if any (has_plan_id id) db.plans
    then done (record db {
      plans = map (λ plan. if has_plan_id id plan then change plan else plan) db.plans;
    })
    else thrown record_not_found

-- `plans:update`.
unfoldable pub update_plan : UpdatePlanPayload → Database → Outcome PlanError Database
update_plan p = change_plan p.plan_id (λ plan. record plan {
  title = first_some p.title plan.title;
  background_config = or_else p.background_config plan.background_config;
})

-- `plans:delete`: the row stays, with the time of its removal.
unfoldable pub delete_plan : String → Database → Outcome PlanError Database
delete_plan id = change_plan id (λ plan. record plan { is_deleted = true })
