-- ===== src/Plans/Create/Retry.antt =====
-- The attempts of createPlanItemWithRetry, with other writers between them.
use church_presenter.Common.{
  ℕ, zero, suc, ◌+◌, ◌≤◌, ◌<◌, String, ◌≡◌, ◌≢◌, refl, sym, ap, ◌∙◌, ◌⊎◌, inl, inr, [], ◌∷◌, ◌++◌,
  arith, In, Bool-cases, In-append,
}
use church_presenter.Common.Outcome.{done, thrown}
use church_presenter.Plans.{Database, unique_constraint, AddItemPayload, find_items, last_order}
use church_presenter.Plans.Compact.{IsTable}
use church_presenter.Plans.Create.{
  is_item_key_taken, create_item, new_item, try_create_item, create_plan_item_with_retry,
}
use church_presenter.Plans.Create.Items.{
  IsReady, appended, create_item-IsTable, create_item-taken, create_item-free, try_create_item-calm,
  find_items-appended,
}

module _ (others : ℕ → Database → Database) (p : AddItemPayload) (ids : ℕ → String) (attempts n : ℕ)
    (db : Database) where
  retry-done :
      (end : Database)
      → try_create_item (others n) p (ids n) db ≡ done end
      → create_plan_item_with_retry others p ids (suc attempts) n db ≡ done end
  unfolding create_plan_item_with_retry
  retry-done end h = rw (h, create_plan_item_with_retry) refl

  retry-refused :
      try_create_item (others n) p (ids n) db ≡ thrown unique_constraint
      → 1 ≤ attempts
      → create_plan_item_with_retry others p ids (suc attempts) n db
        ≡ create_plan_item_with_retry others p ids attempts (n + 1) (others n db)
  unfolding create_plan_item_with_retry
  retry-refused h l = rw (h, create_plan_item_with_retry) (ground arith)

-- With no other writer, a new item whose plan and song are there is written at the first attempt,
-- after all items of its plan, and the keys of the table stay unique.
pub create_plan_item_with_retry-alone :
    (p : AddItemPayload) (ids : ℕ → String) (attempts : ℕ) (db : Database)
    → IsReady p (ids 0) db
    → let end = appended p (ids 0) db in
      (create_plan_item_with_retry (λ n x. x) p ids (suc attempts) 0 db ≡ done end)
      × IsTable end.items
      × (find_items p.plan_id end.items
          ≡ find_items p.plan_id db.items
            ++ new_item p (ids 0) (last_order p.plan_id db.items + 1) ∷ [])
unfolding try_create_item
create_plan_item_with_retry-alone p ids attempts db r =
    let calm = try_create_item-calm p (ids 0) db r in
    let it = new_item p (ids 0) (last_order p.plan_id db.items + 1) in
    (
      retry-done (λ n x. x) p ids attempts 0 db (appended p (ids 0) db) calm,
      (create_item-IsTable it db (appended p (ids 0) db) (omega arith) r.table calm).0,
      find_items-appended p (ids 0) db,
    )

-- An attempt of a ready database is written, or it is refused by a unique index.
try_create_item-ready :
    (others : Database → Database) (p : AddItemPayload) (id : String) (db : Database)
    → IsReady p id (others db)
    → ((end : Database) × (try_create_item others p id db ≡ done end)
        × IsTable end.items
        × (end.items ≡ (others db).items ++ new_item p id (last_order p.plan_id db.items + 1) ∷ []))
      ⊎ (try_create_item others p id db ≡ thrown unique_constraint)
unfolding try_create_item
try_create_item-ready others p id db r =
    let it = new_item p id (last_order p.plan_id db.items + 1) in
    elim (Bool-cases (is_item_key_taken it (others db).items)) [
      | inl e ↦ inr (create_item-taken it (others db) e)
      | inr e ↦
          let end = record (others db) { items = (others db).items ++ it ∷ [] } in
          let wrote : create_item it (others db) ≡ done end =
            create_item-free it (others db) e r.plan r.song in
          inl (
            end,
            wrote,
            (create_item-IsTable it (others db) end (omega arith) r.table wrote).0,
            refl,
          )
    ]

-- An attempt in which no other writer comes in is not refused.
quiet-not_refused :
    (others : ℕ → Database → Database) (p : AddItemPayload) (id : String) (n : ℕ) (db : Database)
    → IsReady p id db
    → ((x : Database) → others n x ≡ x)
    → try_create_item (others n) p id db ≢ thrown unique_constraint
unfolding try_create_item
quiet-not_refused others p id n db r c =
    let calm = try_create_item-calm p id db r in λ h. cc (sym calm ∙ (rw (c db) at h))

written :
    (others : ℕ → Database → Database) (p : AddItemPayload) (ids : ℕ → String) (attempts n : ℕ)
    (db : Database)
    → ((end : Database) × (try_create_item (others n) p (ids n) db ≡ done end)
        × IsTable end.items
        × (end.items
            ≡ (others n db).items ++ new_item p (ids n) (last_order p.plan_id db.items + 1) ∷ []))
    → (end : Database) × (attempt : ℕ) × (order : ℕ) × (create_plan_item_with_retry others p ids
          (suc attempts)
          n
          db
        ≡ done end)
      × IsTable end.items
      × In (new_item p (ids attempt) order) end.items
written others p ids attempts n db (end, wrote, table, grown) =
    let it = new_item p (ids n) (last_order p.plan_id db.items + 1) in
    (
      end,
      n,
      last_order p.plan_id db.items + 1,
      retry-done others p ids attempts n db end wrote,
      table,
      rw grown (In-append (others n db).items it),
    )

-- If other writers never take the plan, the song or one of the ids away, and leave the table alone in one of
-- the attempts, the item is written, its keys unique.
pub create_plan_item_with_retry-writes :
    (others : ℕ → Database → Database) (p : AddItemPayload) (ids : ℕ → String) (attempts n calm : ℕ)
    (db : Database)
    → ((m : ℕ) (x : Database)
        → ((k : ℕ) → IsReady p (ids k) x)
        → (k : ℕ) → IsReady p (ids k) (others m x))
    → ((x : Database) → others (n + calm) x ≡ x)
    → calm < attempts
    → ((k : ℕ) → IsReady p (ids k) db)
    → (end : Database) × (attempt : ℕ) × (order : ℕ) × (create_plan_item_with_retry others p ids
          attempts n db
        ≡ done end)
      × IsTable end.items
      × In (new_item p (ids attempt) order) end.items
create_plan_item_with_retry-writes others p ids zero n calm db keeps c l r = ground arith
create_plan_item_with_retry-writes others p ids (suc attempts) n zero db keeps c l r =
    elim (try_create_item-ready (others n) p (ids n) db (keeps n db r n)) [
      | inl wrote ↦ written others p ids attempts n db wrote
      | inr refused ↦ absurd (
          quiet-not_refused others p (ids n) n db (r n)
            (λ x. ap (λ m. others m x) (omega arith) ∙ c x) refused)
    ]
create_plan_item_with_retry-writes others p ids (suc attempts) n (suc m) db keeps c l r =
    elim (try_create_item-ready (others n) p (ids n) db (keeps n db r n)) [
      | inl wrote ↦ written others p ids attempts n db wrote
      | inr refused ↦
          let (end, attempt, order, runs, table, inside) =
            create_plan_item_with_retry-writes others p ids attempts (n + 1) m (others n db) keeps
              (λ x. ap (λ k. others k x) (omega arith) ∙ c x) (omega (arith, l)) (keeps n db r) in
          (
            end,
            attempt,
            order,
            retry-refused others p ids attempts n db refused (omega (arith, l)) ∙ runs,
            table,
            inside,
          )
    ]
