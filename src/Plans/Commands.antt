-- ===== src/Plans/Commands.antt =====
-- Sequences of the handlers of plans.ts on one database.
pub mod Items
pub mod Keys
use church_presenter.Common.{ℕ, String, Option, List, [], ◌∷◌}
use church_presenter.Common.Outcome.{Outcome, done, thrown, ◌>>=◌}
use church_presenter.Plans.{
  Item, Database, PlanError, AddItemPayload, UpdateItemPayload, UpdatePlanPayload, update_item,
  remove_item, remove_items, reorder,
}
use church_presenter.Plans.Create.{
  create_plan_item_with_retry, create_plan, duplicate_plan, update_plan, delete_plan,
  max_item_retries, max_date_retries,
}

-- The ids of new rows come from the database client.
pub data PlanCommand : Type 0 where
  create_one : Option String → ℕ → String → PlanCommand
  duplicate_one : String → Option String → Option ℕ → String → (ℕ → String) → PlanCommand
  update_one : UpdatePlanPayload → PlanCommand
  delete_one : String → PlanCommand
  add_item : AddItemPayload → (ℕ → String) → PlanCommand
  change_item : UpdateItemPayload → PlanCommand
  drop_item : String → String → PlanCommand
  drop_items : String → List String → PlanCommand
  reorder_items : String → List String → PlanCommand

unfoldable pub on_items :
    (List Item → Outcome PlanError (List Item)) → Database → Outcome PlanError Database
on_items change db = change db.items >>= λ items. done (record db { items = items })

unfoldable pub plan_command : PlanCommand → Database → Outcome PlanError Database
plan_command (create_one title date id) db = create_plan title id max_date_retries date db
plan_command (duplicate_one plan title date id ids) db = duplicate_plan plan title date id ids db
plan_command (update_one p) db = update_plan p db
plan_command (delete_one id) db = delete_plan id db
plan_command (add_item p ids) db =
    create_plan_item_with_retry (λ n x. x) p ids max_item_retries 0 db
plan_command (change_item p) db = on_items (update_item p) db
plan_command (drop_item plan id) db = on_items (remove_item plan id) db
plan_command (drop_items plan ids) db = on_items (remove_items plan ids) db
plan_command (reorder_items plan ids) db = on_items (reorder plan ids) db

-- A refused handler leaves the database as it was: its transaction is rolled back.
abbrev pub kept : Database → Outcome PlanError Database → Database
kept db (done end) = end
kept db (thrown why) = db

unfoldable pub plan_commands : List PlanCommand → Database → Database
plan_commands [] db = db
plan_commands (c ∷ cs) db = plan_commands cs (kept db (plan_command c db))
