-- ===== src/Plans/Commands/Keys.antt =====
-- The unique keys of the items through all handlers.
use church_presenter.Common.{
  ℕ, zero, suc, ◌+◌, String, ◌≡◌, sym, ◌⊎◌, inl, inr, Bool, not, ◌||◌, Option, none, some,
  Option-cases, List, [], ◌∷◌, arith, ◌==◌, if◌then◌else◌, All, All-In, All-intro, find, or_else,
  Bool-cases,
}
use church_presenter.Common.Outcome.{Outcome, done, thrown, ◌>>=◌-done, Outcome-cases}
use church_presenter.Plans.{
  Item, Plan, Database, PlanError, AddItemPayload, last_order, find_items, reorder, update_item,
  remove_item, remove_items,
}
use church_presenter.Plans.Ranks.{IsPositive}
use church_presenter.Plans.Sorted.{In-find_items}
use church_presenter.Plans.Compact.{IsTable}
use church_presenter.Plans.Create.{
  has_plan_id, create_item, create_plan_row, new_plan, new_item, copied_item, copy_items,
  try_create_item, create_plan_item_with_retry, create_plan, try_duplicate,
  duplicate_plan_with_retry, duplicate_plan, is_unique_constraint_error, change_plan, update_plan,
  delete_plan,
}
use church_presenter.Plans.Create.Items.{create_item-IsTable}
use church_presenter.Plans.Commands.{
  PlanCommand, create_one, duplicate_one, update_one, delete_one, add_item, change_item, drop_item,
  drop_items, reorder_items, on_items, plan_command, plan_commands, kept,
}
use church_presenter.Plans.Commands.Items.{
  reorder-IsTable, remove_item-IsTable, remove_items-IsTable, update_item-IsTable,
}

-- How an attempt and the next ones end: the first is written, or a later one.
attempt-done :
    (attempt again : Outcome PlanError Database) (stop : PlanError → Bool) (end : Database)
    → elim attempt [ done wrote ↦ done wrote | thrown why ↦ if stop why then thrown why else again ]
      ≡ done end
    → (attempt ≡ done end) ⊎ (again ≡ done end)
attempt-done (done wrote) again stop end h = inl h
attempt-done (thrown why) again stop end h = elim (Bool-cases (stop why)) [
  | inl e ↦ cc (rw e at h)
  | inr e ↦ inr (rw e at h)
]

create_plan_item_with_retry-IsTable :
    (p : AddItemPayload) (ids : ℕ → String) (attempts n : ℕ) (db end : Database)
    → IsTable db.items
    → create_plan_item_with_retry (λ m x. x) p ids attempts n db ≡ done end
    → IsTable end.items
unfolding create_plan_item_with_retry try_create_item
create_plan_item_with_retry-IsTable p ids zero n db end t h = cc
create_plan_item_with_retry-IsTable p ids (suc attempts) n db end t h =
    elim (attempt-done (try_create_item (λ x. x) p (ids n) db)
      (create_plan_item_with_retry (λ m x. x) p ids attempts (n + 1) db)
      (λ why. not (is_unique_constraint_error why) || (attempts == 0)) end h) [
        | inl e ↦
            (create_item-IsTable (new_item p (ids n) (last_order p.plan_id db.items + 1)) db end
              (omega arith) t e).0
        | inr e ↦ create_plan_item_with_retry-IsTable p ids attempts (n + 1) db end t e
      ]

create_plan_row-items :
    (plan : Plan) (db end : Database) → create_plan_row plan db ≡ done end → db.items ≡ end.items
unfolding create_plan_row
create_plan_row-items plan db end h = ground arith

create_plan-items :
    (title : Option String) (id : String) (attempts date : ℕ) (db end : Database)
    → create_plan title id attempts date db ≡ done end
    → db.items ≡ end.items
unfolding create_plan
create_plan-items title id zero date db end h = cc
create_plan-items title id (suc attempts) date db end h =
    elim (attempt-done (create_plan_row (new_plan id (some (or_else title "Culte")) none date) db)
      (create_plan title id attempts (date + 1) db) (λ why. not (is_unique_constraint_error why))
      end h) [
        | inl e ↦
            create_plan_row-items (new_plan id (some (or_else title "Culte")) none date) db end e
        | inr e ↦ create_plan-items title id attempts (date + 1) db end e
      ]

copy_items-IsTable :
    (plan : String) (ids : ℕ → String) (n : ℕ) (rows : List Item) (db end : Database)
    → All IsPositive rows
    → IsTable db.items
    → copy_items plan ids n rows db ≡ done end
    → IsTable end.items
unfolding copy_items
copy_items-IsTable plan ids n [] db end p t h = let s : db ≡ end = cc in rw (sym s) t
copy_items-IsTable plan ids n (it ∷ rows) db end p t h =
    let (mid, first, rest) =
      ◌>>=◌-done (create_item (copied_item plan (ids n) it) db) (copy_items plan ids (n + 1) rows)
        h in
    copy_items-IsTable plan ids (n + 1) rows mid end p.1
      (create_item-IsTable (copied_item plan (ids n) it) db mid p.0 t first).0 rest

try_duplicate-IsTable :
    (plan : Plan) (ids : ℕ → String) (rows : List Item) (db end : Database)
    → All IsPositive rows
    → IsTable db.items
    → try_duplicate plan ids rows db ≡ done end
    → IsTable end.items
unfolding try_duplicate
try_duplicate-IsTable plan ids rows db end p t h =
    let (mid, first, rest) =
      ◌>>=◌-done (create_plan_row plan db) (copy_items plan.id ids 0 rows) h in
    copy_items-IsTable plan.id ids 0 rows mid end p
      (rw (create_plan_row-items plan db mid first) at t) rest

duplicate_plan_with_retry-IsTable :
    (title background : Option String) (id : String) (ids : ℕ → String) (rows : List Item)
    (attempts date : ℕ) (db end : Database)
    → All IsPositive rows
    → IsTable db.items
    → duplicate_plan_with_retry title background id ids rows attempts date db ≡ done end
    → IsTable end.items
unfolding duplicate_plan_with_retry
duplicate_plan_with_retry-IsTable title background id ids rows zero date db end p t h = cc
duplicate_plan_with_retry-IsTable title background id ids rows (suc attempts) date db end p t h =
    elim (attempt-done (try_duplicate (new_plan id title background date) ids rows db)
      (duplicate_plan_with_retry title background id ids rows attempts (date + 1) db)
      (λ why. not (is_unique_constraint_error why) || (attempts == 0)) end h) [
        | inl e ↦ try_duplicate-IsTable (new_plan id title background date) ids rows db end p t e
        | inr e ↦
            duplicate_plan_with_retry-IsTable title background id ids rows attempts (date + 1) db
              end p t e
      ]

duplicate_plan-IsTable :
    (plan : String) (title : Option String) (date : Option ℕ) (id : String) (ids : ℕ → String)
    (db end : Database)
    → IsTable db.items
    → duplicate_plan plan title date id ids db ≡ done end
    → IsTable end.items
unfolding duplicate_plan
duplicate_plan-IsTable plan title date id ids db end t h =
    let rows = find_items plan db.items in
    let positive =
      All-intro IsPositive rows
        (λ x i. All-In IsPositive db.items t.positive (In-find_items plan db.items x i).0) in
    elim (Option-cases (find (has_plan_id plan) db.plans)) [
      | inl e ↦ cc (rw (e, duplicate_plan) at h)
      | inr (base, e) ↦
          duplicate_plan_with_retry-IsTable _ _ id ids rows _ _ db end positive t
            (rw (e, duplicate_plan) at h)
    ]

change_plan-items :
    (id : String) (f : Plan → Plan) (db end : Database)
    → change_plan id f db ≡ done end
    → db.items ≡ end.items
unfolding change_plan
change_plan-items id f db end h = ground arith

on_items-IsTable :
    (change : List Item → Outcome PlanError (List Item)) (db end : Database)
    → ((items : List Item) → change db.items ≡ done items → IsTable items)
    → on_items change db ≡ done end
    → IsTable end.items
unfolding on_items
on_items-IsTable change db end keeps h =
    let (items, first, rest) =
      ◌>>=◌-done (change db.items) (λ xs. done (record db { items = xs })) h in
    let s : items ≡ end.items = ground arith in rw (sym s) (keeps items first)

plan_command-IsTable :
    (c : PlanCommand) (db end : Database)
    → IsTable db.items
    → plan_command c db ≡ done end
    → IsTable end.items
unfolding plan_command update_plan delete_plan
plan_command-IsTable (create_one title date id) db end t h =
    rw (create_plan-items title id _ date db end h) at t
plan_command-IsTable (duplicate_one plan title date id ids) db end t h =
    duplicate_plan-IsTable plan title date id ids db end t h
plan_command-IsTable (update_one p) db end t h = rw (change_plan-items p.plan_id _ db end h) at t
plan_command-IsTable (delete_one id) db end t h = rw (change_plan-items id _ db end h) at t
plan_command-IsTable (add_item p ids) db end t h =
    create_plan_item_with_retry-IsTable p ids _ 0 db end t h
plan_command-IsTable (change_item p) db end t h =
    on_items-IsTable (update_item p) db end (λ items e. update_item-IsTable p db.items items t e) h
plan_command-IsTable (drop_item plan id) db end t h =
    on_items-IsTable (remove_item plan id) db end
      (λ items e. remove_item-IsTable plan id db.items items t e) h
plan_command-IsTable (drop_items plan ids) db end t h =
    on_items-IsTable (remove_items plan ids) db end
      (λ items e. remove_items-IsTable plan ids db.items items t e) h
plan_command-IsTable (reorder_items plan ids) db end t h =
    on_items-IsTable (reorder plan ids) db end
      (λ items e. reorder-IsTable plan ids db.items items t e) h

-- Through any sequence of handlers, refused ones included, no two items share an id or an order of one
-- plan, and every order is at least 1, if this was so before.
pub plan_commands-IsTable :
    (cs : List PlanCommand) (db : Database) → IsTable db.items → IsTable (plan_commands cs db).items
unfolding plan_commands
plan_commands-IsTable [] db t = t
plan_commands-IsTable (c ∷ cs) db t =
    plan_commands-IsTable cs (kept db (plan_command c db))
      (elim (Outcome-cases (plan_command c db)) [
        | inl (why, e) ↦ rw e t
        | inr (end, e) ↦ rw e (plan_command-IsTable c db end t e)
      ])
