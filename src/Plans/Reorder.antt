-- ===== src/Plans/Reorder.antt =====
-- The new order of a plan: `plans:reorder`.
use church_presenter.Common.{
  ℕ, ◌+◌, String, ◌≡◌, ◌≢◌, refl, sym, ap, ◌∙◌, ◌⊎◌, inl, inr, true, List, [], ◌∷◌, map, str_eq,
  eq_iff, arith, All, In, All-In, any, any-false, any-true, Bool-cases, length, map_self, In-map,
}
use church_presenter.Common.Outcome.{done, thrown}
use church_presenter.Plans.{
  Item, in_plan, place, ids_of, includes, find_items, is_distinct, all_included, is_order_taken,
  update_order, update_orders, validate_plan_reorder_payload, reorder, unique_constraint,
}
use church_presenter.Plans.Rows.{
  IsKeyed, same_id, same_or_Differ, find-In, update_order-done, update_order-thrown,
}
use church_presenter.Common.Texts.{str_eq-true, str_eq-false, str_eq-eq}
use church_presenter.Plans.Ranks.{rank}
use church_presenter.Plans.Sorted.{In-find_items}
use church_presenter.Plans.Renumber.{IsRanked, find_items-IsRanked}
use church_presenter.Plans.Compact.{IsTable, IsCompact}

-- The rows of a list stand at the orders `k`, `k + 1` and so on.
abbrev IsPlaced : String → List Item → ℕ → List Item → Type 0
IsPlaced plan items k [] = Unit
IsPlaced plan items k (it ∷ rest) =
    (In it items × (it.plan_id ≡ plan) × (it.order ≡ k)) × IsPlaced plan items (k + 1) rest

abbrev IsOwned : String → List Item → String → Type 0
IsOwned plan items id = (it : Item) × In it items × (it.id ≡ id) × (it.plan_id ≡ plan)

IsRanked-IsPlaced :
    (plan : String) (items rows : List Item) (k : ℕ)
    → IsCompact plan items
    → IsRanked plan items k rows
    → IsPlaced plan items k rows
IsRanked-IsPlaced plan items [] k c r = tt
IsRanked-IsPlaced plan items (it ∷ rest) k c r = (
  (
    r.0.0,
    r.0.1,
    All-In (λ x. in_plan plan x ≡ true → x.order ≡ rank plan items x) items c r.0.0
          (str_eq-true it.plan_id plan r.0.1)
        ∙ r.0.2,
  ),
  IsRanked-IsPlaced plan items rest (k + 1) c r.1,
)

module _ (plan : String) (items : List Item) (keyed : IsKeyed items) where
  -- A row that already stands at its place is written as it was.
  place-same : (row : Item) → In row items → map (place row.id row.order) items ≡ items
  place-same row i = map_self (place row.id row.order) items (λ x j.
      elim (Bool-cases (str_eq x.id row.id)) [
        | inl e ↦
            let same = same_id items x row keyed j i (str_eq-eq x.id row.id e) in
            rw same (ground arith)
        | inr e ↦ ground arith
      ])

  update_order-same : (row : Item) → In row items → update_order row.id row.order items ≡ done items
  unfolding is_order_taken
  update_order-same row i =
      update_order-done row.id row.order items row (find-In items row keyed i) (
        any-false _ items (λ x j. elim (same_or_Differ items x row keyed j i) [
          | inl s ↦ ground (arith, str_eq-true x.id row.id (ap (λ y. y.id) s))
          | inr d ↦ ground (arith, d.places, eq_iff x.plan_id row.plan_id)
        ]))
      ∙ ap done (place-same row i)

  update_order-other :
      (row : Item) (id : String)
      → In row items
      → row.plan_id ≡ plan
      → IsOwned plan items id
      → id ≢ row.id
      → update_order id row.order items ≡ thrown unique_constraint
  unfolding is_order_taken
  update_order-other row id i p (it, j, e, q) n =
      update_order-thrown id row.order items it (rw (sym e) (find-In items it keyed j)) (
        any-true _ items i (
          ground (
            arith,
            str_eq-true row.plan_id it.plan_id (p ∙ sym q),
            str_eq-false row.id id (λ s. n (sym s)),
          )))

  update_orders-placed :
      (k : ℕ) (ids : List String) (rows : List Item)
      → All (IsOwned plan items) ids
      → IsPlaced plan items k rows
      → length ids ≡ length rows
      → ((ids ≡ ids_of rows) × (update_orders k ids items ≡ done items))
        ⊎ ((ids ≢ ids_of rows) × (update_orders k ids items ≡ thrown unique_constraint))
  unfolding update_orders
  update_orders-placed k [] [] o r l = inl (refl, refl)
  update_orders-placed k [] (row ∷ rows) o r l = ground arith
  update_orders-placed k (id ∷ ids) [] o r l = ground arith
  update_orders-placed k (id ∷ ids) (row ∷ rows) o r l = elim (Bool-cases (str_eq id row.id)) [
    | inl e ↦
        let same = str_eq-eq id row.id e in
        let step : update_order id k items ≡ done items =
          rw same (rw (sym r.0.2) (update_order-same row r.0.0)) in
        elim (update_orders-placed (k + 1) ids rows o.1 r.1 (ground arith)) [
          | inl (ends, runs) ↦ inl (cc, rw step runs)
          | inr (ends, runs) ↦ inr (λ f. ends (cc), rw step runs)
        ]
    | inr e ↦
        let other : id ≢ row.id = ground (arith, eq_iff id row.id) in
        let step : update_order id k items ≡ thrown unique_constraint =
          rw (sym r.0.2) (update_order-other row id r.0.0 r.0.1 o.0 other) in
        inr (λ f. other cc, rw step refl)
  ]

includes-In : (ids : List String) (id : String) → includes ids id ≡ true → In id ids
unfolding includes any
includes-In [] id h = cc
includes-In (other ∷ ids) id h = elim (Bool-cases (str_eq other id)) [
  | inl e ↦ inl (sym (str_eq-eq other id e))
  | inr e ↦ inr (includes-In ids id (ground (arith, e, h)))
]

all_included-All :
    (P : String → Type 0) (current ids : List String)
    → ((id : String) → In id current → P id)
    → all_included current ids ≡ true
    → All P ids
unfolding all_included
all_included-All P current [] h t = tt
all_included-All P current (id ∷ ids) h t =
    (h id (includes-In current id (ground arith)), all_included-All P current ids h (ground arith))

validate_inv :
    (current requested : List String)
    → validate_plan_reorder_payload current requested ≡ done tt
    → (length requested ≡ length current)
      × (is_distinct requested ≡ true)
      × (all_included current requested ≡ true)
unfolding validate_plan_reorder_payload
validate_inv current requested h = ground arith

current-IsOwned :
    (plan : String) (items : List Item) (id : String)
    → In id (ids_of (find_items plan items))
    → IsOwned plan items id
current-IsOwned plan items id i =
    let (it, j, e) = In-map (λ it. it.id) (find_items plan items) i in
    let found = In-find_items plan items it j in (it, found.0, sym e, found.1)

length-ids_of : (rows : List Item) → length (ids_of rows) ≡ length rows
length-ids_of [] = refl
length-ids_of (row ∷ rows) = omega (arith, length-ids_of rows)

-- In a plan whose orders are 1, 2, 3 and so on, a reorder request that passes the validation
-- changes nothing if it asks for the order that is there, and every other is refused by the unique
-- index on the plan and the order.
pub reorder-refused :
    (plan : String) (items : List Item) (requested : List String)
    → IsTable items
    → IsCompact plan items
    → validate_plan_reorder_payload (ids_of (find_items plan items)) requested ≡ done tt
    → ((requested ≡ ids_of (find_items plan items)) × (reorder plan requested items ≡ done items))
      ⊎ ((requested ≢ ids_of (find_items plan items))
          × (reorder plan requested items ≡ thrown unique_constraint))
unfolding reorder
reorder-refused plan items requested t c v =
    let rows = find_items plan items in
    let checks = validate_inv (ids_of rows) requested v in
    rw v (
      update_orders-placed plan items t.keyed 1 requested rows
        (all_included-All (IsOwned plan items) (ids_of rows) requested (current-IsOwned plan items)
          checks.2)
        (IsRanked-IsPlaced plan items rows 1 c (find_items-IsRanked plan items t.keyed))
        (checks.0 ∙ length-ids_of rows))
