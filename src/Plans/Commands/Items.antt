-- ===== src/Plans/Commands/Items.antt =====
-- The unique keys of the items through the handlers of items.
use church_presenter.Common.{
  ℕ, ◌+◌, ◌≤◌, String, ◌≡◌, sym, ◌∙◌, inl, inr, Bool, not, ◌&&◌, Option-cases, List, [], ◌∷◌, map,
  str_eq, arith, if◌then◌else◌, All-In, All-intro, any, find, keep, Bool-cases, In-map,
}
use church_presenter.Common.Outcome.{done, ◌>>=◌-done}
use church_presenter.Plans.{
  Item, UpdateItemPayload, includes, in_plan, has_id, find_items, patched, update_order,
  update_orders, validate_plan_reorder_payload, ids_of, reorder, update_item, remove_item,
  remove_items,
}
use church_presenter.Plans.Rows.{map-IsKeyed}
use church_presenter.Plans.Ranks.{IsPositive}
use church_presenter.Plans.Compact.{IsTable, keep-IsTable, compacted-IsTable, update_order-IsTable}
use church_presenter.Plans.Remove.{without, remove_item-without, remove_items-without}

update_orders-IsTable :
    (n : ℕ) (ids : List String) (items end : List Item)
    → 1 ≤ n
    → IsTable items
    → update_orders n ids items ≡ done end
    → IsTable end
unfolding update_orders
update_orders-IsTable n [] items end l t h = let same : items ≡ end = cc in rw (sym same) t
update_orders-IsTable n (id ∷ ids) items end l t h =
    let (mid, first, rest) = ◌>>=◌-done (update_order id n items) (update_orders (n + 1) ids) h in
    update_orders-IsTable (n + 1) ids mid end (omega arith)
      (update_order-IsTable id n items mid l t first) rest

pub reorder-IsTable :
    (plan : String) (ids : List String) (items end : List Item)
    → IsTable items
    → reorder plan ids items ≡ done end
    → IsTable end
unfolding reorder
reorder-IsTable plan ids items end t h =
    let (u, first, rest) =
      ◌>>=◌-done (validate_plan_reorder_payload (ids_of (find_items plan items)) ids)
        (λ x. update_orders 1 ids items) h in
    update_orders-IsTable 1 ids items end (omega arith) t rest

without-IsTable :
    (plan : String) (gone : Item → Bool) (items : List Item)
    → IsTable items
    → IsTable (without plan gone items)
without-IsTable plan gone items t =
    compacted-IsTable plan (keep (λ it. not (gone it)) items)
      (keep-IsTable (λ it. not (gone it)) items t)

pub remove_item-IsTable :
    (plan id : String) (items end : List Item)
    → IsTable items
    → remove_item plan id items ≡ done end
    → IsTable end
remove_item-IsTable plan id items end t h = elim (remove_item-without plan id items t) [
  | inl (same, e) ↦ let s : items ≡ end = cc in rw (sym s) t
  | inr (it, i, e, runs) ↦ elim (Bool-cases (in_plan plan it)) [
    | inl own ↦
        let s : without plan (has_id id) items ≡ end = cc (sym (rw own at runs) ∙ h) in
        rw (sym s) (without-IsTable plan (has_id id) items t)
    | inr foreign ↦ cc (sym (rw foreign at runs) ∙ h)
  ]
]

pub remove_items-IsTable :
    (plan : String) (ids : List String) (items end : List Item)
    → IsTable items
    → remove_items plan ids items ≡ done end
    → IsTable end
remove_items-IsTable plan [] items end t h =
    let s : items ≡ end = cc (sym (remove_items-without plan [] items t) ∙ h) in rw (sym s) t
remove_items-IsTable plan (id ∷ ids) items end t h =
    let runs = remove_items-without plan (id ∷ ids) items t in
    elim (Bool-cases (any (λ it. includes (id ∷ ids) it.id && not (in_plan plan it)) items)) [
      | inl foreign ↦ cc (sym (rw foreign at runs) ∙ h)
      | inr own ↦
          let s : without plan (λ it. includes (id ∷ ids) it.id) items ≡ end =
            cc (sym (rw own at runs) ∙ h) in
          rw (sym s) (without-IsTable plan (λ it. includes (id ∷ ids) it.id) items t)
    ]

-- A change of other columns keeps the keys.
same_keys-IsTable :
    (f : Item → Item) (items : List Item)
    → ((x : Item) → ((f x).id ≡ x.id) × ((f x).plan_id ≡ x.plan_id) × ((f x).order ≡ x.order))
    → IsTable items
    → IsTable (map f items)
same_keys-IsTable f items same t = record {
  keyed =
      map-IsKeyed f items
        (λ a b i j d. record {
          ids = ground (arith, same a, same b, d.ids);
          places = ground (arith, same a, same b, d.places);
        })
        t.keyed;
  positive = All-intro IsPositive (map f items) (λ x i.
      let (y, j, e) = In-map f items i in
      rw e (omega (arith, (same y).2, All-In IsPositive items t.positive j)));
}

pub update_item-IsTable :
    (p : UpdateItemPayload) (items end : List Item)
    → IsTable items
    → update_item p items ≡ done end
    → IsTable end
unfolding update_item
update_item-IsTable p items end t h = elim (Option-cases (find (has_id p.item_id) items)) [
  | inl e ↦ cc (rw (e, update_item) at h)
  | inr (it, e) ↦ elim (Bool-cases (str_eq it.plan_id p.plan_id)) [
    | inr foreign ↦ cc (rw foreign at (rw (e, update_item) at h))
    | inl own ↦
        let s : map (λ row. if has_id p.item_id row then patched p row else row) items ≡ end =
          cc (rw own at (rw (e, update_item) at h)) in
        rw (sym s) (
          same_keys-IsTable (λ row. if has_id p.item_id row then patched p row else row) items
            (λ x. ground arith) t)
  ]
]
