-- ===== src/Imports/Plans.antt =====
-- The plans of an exported file: what is read of them, and what is written.
use church_presenter.Common.{
  ℕ, suc, String, ◌≡◌, ◌≢◌, refl, ap, true, false, Option, some, or_else, is_some, List, [], ◌∷◌,
  map, All,
}
use church_presenter.Common.Texts.{str_eq-false}
use church_presenter.Json.{str, arr, Properties, no_properties, property, get, array, text_of}
use church_presenter.RuntimeValidation.RoundTrip.{IsTrimmed, IfGiven}
use church_presenter.Plans.{sort_by_order}
use church_presenter.Plans.Sorted.{IsAscending}
use church_presenter.Sync.{PlanRow}
use church_presenter.Imports.{
  Calendar, NormalizedPlan, read_items, plan_title, is_date_invalid, normalize_plans_from,
  normalize_plans,
}
use church_presenter.Imports.Write.{match_ymd, is_falsy, normalize_date_to_midnight}
use church_presenter.Imports.Export.{column, item_value, plan_value}
use church_presenter.Imports.Songs.{as_string_like-column, elements-array}
use church_presenter.Imports.Items.{
  IsPortableItem, ItemContent, item_content, carried_item, read_item, as_raw_string-column,
  normalize_items-values, sort_by_order_ascending,
}

-- The day as `toISOString` writes it is read as the day.
pub record IsReadable (calendar : Calendar) (day : ℕ) : Type 0 where
  pub filled : calendar.iso day ≢ ""
  pub valid : is_some (calendar.day_of (str (calendar.iso day))) ≡ true
  pub year : ℕ
  pub month : ℕ
  pub date : ℕ
  pub matched : match_ymd (calendar.iso day) ≡ some (year, month, date)
  pub day_of : calendar.utc year month date ≡ day

-- A plan whose texts have no white space at their ends, with the items listed in their order.
pub record IsPortablePlan (calendar : Calendar) (p : PlanRow) : Type 0 where
  pub date : IsReadable calendar p.plan.date
  pub title : IfGiven IsTrimmed p.plan.title
  pub ascending : IsAscending 0 p.items
  pub items : All IsPortableItem p.items

-- What of a plan is no id and no time, as it is stored.
pub record PlanContent : Type 0 where
  pub date : ℕ
  pub title : Option String
  pub background_config : Option String
  pub items : List ItemContent

abbrev pub plan_content : PlanRow → PlanContent
plan_content p = record {
  date = p.plan.date;
  title = p.plan.title;
  background_config = p.plan.background_config;
  items = map item_content p.items;
}

-- What a file makes of it: a title that is NULL is "Culte", and the items are carried too.
abbrev pub carried : PlanContent → PlanContent
carried c = record c { title = some (or_else c.title "Culte"); items = map carried_item c.items }

module _ (calendar : Calendar) where
  -- A plan as it is read from a file.
  abbrev pub read_plan : PlanRow → NormalizedPlan
  read_plan p = record {
    date = str (calendar.iso p.plan.date);
    title = or_else p.plan.title "Culte";
    background_config = p.plan.background_config;
    items = map read_item p.items;
  }

  pub midnight :
      (day : ℕ)
      → IsReadable calendar day
      → normalize_date_to_midnight calendar (str (calendar.iso day)) ≡ some day
  unfolding normalize_date_to_midnight is_falsy text_of
  midnight day r =
      rw (str_eq-false (calendar.iso day) "" r.filled)
        (rw (r.matched, normalize_date_to_midnight) (ap some r.day_of))

  valid :
      (day : ℕ)
      → IsReadable calendar day
      → is_date_invalid calendar (str (calendar.iso day)) ≡ false
  unfolding is_date_invalid text_of
  valid day r = rw r.valid refl

  read_items-values :
      (idx : ℕ) (title : String) (p : PlanRow)
      → IsPortablePlan calendar p
      → read_items idx title (arr (array (map item_value (sort_by_order p.items))))
        ≡ (map read_item p.items, [])
  unfolding read_items
  read_items-values idx title p h =
      rw (sort_by_order_ascending 0 p.items h.ascending, elements-array (map item_value p.items))
        (normalize_items-values idx title 0 p.items h.items)

  plan_fields : PlanRow → Properties
  plan_fields p = property "id" (str p.plan.id) (
      property "date" (str (calendar.iso p.plan.date)) (
        property "title" (column p.plan.title) (
          property "backgroundConfig" (column p.plan.background_config) (
            property "items" (arr (array (map item_value (sort_by_order p.items))))
              no_properties))))

  plan_title-fields :
      (p : PlanRow)
      → IsPortablePlan calendar p
      → plan_title (plan_fields p) ≡ or_else p.plan.title "Culte"
  unfolding plan_title plan_fields get
  plan_title-fields p h = rw (as_string_like-column p.plan.title h.title) refl

  get_date : (p : PlanRow) → get "date" (plan_fields p) ≡ str (calendar.iso p.plan.date)
  unfolding get plan_fields
  get_date p = refl

  get_items :
      (p : PlanRow)
      → get "items" (plan_fields p) ≡ arr (array (map item_value (sort_by_order p.items)))
  unfolding get plan_fields
  get_items p = refl

  get_background :
      (p : PlanRow) → get "backgroundConfig" (plan_fields p) ≡ column p.plan.background_config
  unfolding get plan_fields
  get_background p = refl

  normalize_plans_from-values :
      (idx : ℕ) (plans : List PlanRow)
      → All (IsPortablePlan calendar) plans
      → normalize_plans_from calendar idx (map (plan_value calendar) plans)
        ≡ (map read_plan plans, [])
  unfolding normalize_plans_from plan_value plan_fields
  normalize_plans_from-values idx [] h = refl
  normalize_plans_from-values idx (p ∷ rest) h =
      rw
        (
          normalize_plans_from-values (suc idx) rest h.1,
          get_date p,
          valid p.plan.date h.0.date,
          get_items p,
          plan_title-fields p h.0,
          read_items-values idx (or_else p.plan.title "Culte") p h.0,
          get_background p,
          as_raw_string-column p.plan.background_config,
        )
        refl

  -- The plans of a file are read as they were, with no error.
  pub normalize_plans-values :
      (plans : List PlanRow)
      → All (IsPortablePlan calendar) plans
      → normalize_plans calendar (arr (array (map (plan_value calendar) plans)))
        ≡ (map read_plan plans, [])
  unfolding normalize_plans
  normalize_plans-values plans h =
      rw (elements-array (map (plan_value calendar) plans)) (normalize_plans_from-values 0 plans h)
