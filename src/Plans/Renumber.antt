-- ===== src/Plans/Renumber.antt =====
-- The updates that give the items of a plan the orders 1, 2, 3 and so on.
use church_presenter.Common.{
  ℕ, suc, ◌+◌, ◌≤◌, String, ◌≡◌, refl, sym, ap, ◌∙◌, inl, inr, false, ◌&&◌, List, [], ◌∷◌, map,
  str_eq, arith, ltb, ◌==◌, if◌then◌else◌, All, In, All-In, count, count_strict, length, Bool-cases,
  map-cong, map-map, map_self, any-map, any-false,
}
use church_presenter.Common.Outcome.{done}
use church_presenter.Plans.{
  Item, in_plan, place, find_items, ids_of, is_order_taken, update_order, update_orders, renumber,
}
use church_presenter.Plans.Rows.{IsKeyed, same_id, find-map, update_order-done}
use church_presenter.Common.Texts.{str_eq-true, str_eq-eq}
use church_presenter.Plans.Ranks.{is_below, rank, IsPositive, rank-le-order, same_rank}
use church_presenter.Plans.Sorted.{
  IsAscending, find_items-IsAscending, In-find_items, count_below-find_items, count-find_items,
}

-- The rows of a list are those of rank `k`, `k + 1` and so on.
abbrev pub IsRanked : String → List Item → ℕ → List Item → Type 0
IsRanked plan items k [] = Unit
IsRanked plan items k (it ∷ rest) =
    (In it items × (it.plan_id ≡ plan) × (rank plan items it ≡ k))
    × IsRanked plan items (k + 1) rest

ascending-count :
    (plan : String) (low n : ℕ) (rows : List Item)
    → IsAscending low rows
    → n ≤ low
    → count (is_below plan n) rows ≡ 0
unfolding count
ascending-count plan low n [] a l = refl
ascending-count plan low n (row ∷ rows) a l =
    ground (arith, ascending-count plan (suc row.order) n rows a.1 (omega (arith, a.0)))

IsAscending-IsRanked :
    (plan : String) (items rows : List Item) (low k : ℕ)
    → IsAscending low rows
    → ((x : Item) → In x rows → In x items × (x.plan_id ≡ plan))
    → ((n : ℕ) → low ≤ n → suc (count (is_below plan n) items) ≡ k + count (is_below plan n) rows)
    → IsRanked plan items k rows
unfolding rank count
IsAscending-IsRanked plan items [] low k a m c = tt
IsAscending-IsRanked plan items (row ∷ rows) low k a m c =
    let found = m row (inl refl) in
    let here = c row.order a.0 in
    let none_below = ascending-count plan (suc row.order) row.order rows a.1 (omega arith) in
    (
      (found.0, found.1, ground (arith, here, none_below)),
      IsAscending-IsRanked plan items rows (suc row.order) (k + 1) a.1 (λ x i. m x (inr i))
          (λ n l. ground (arith, c n (omega (arith, a.0)), str_eq-true row.plan_id plan found.1)),
    )

pub find_items-IsRanked :
    (plan : String) (items : List Item)
    → IsKeyed items
    → IsRanked plan items 1 (find_items plan items)
find_items-IsRanked plan items k =
    IsAscending-IsRanked plan items (find_items plan items) 0 1
      (find_items-IsAscending plan items k) (λ x i. In-find_items plan items x i)
      (λ n l. omega (arith, count_below-find_items plan n items))

-- The table after the rows of rank below `k` are at their ranks.
abbrev moved : String → List Item → ℕ → Item → Item
moved plan items k it =
    if in_plan plan it && ltb (rank plan items it) k
    then record it { order = rank plan items it }
    else it

moved-id :
    (plan : String) (items : List Item) (k : ℕ) (it : Item) → (moved plan items k it).id ≡ it.id
moved-id plan items k it = ground arith

module _ (plan : String) (items : List Item) (keyed : IsKeyed items)
    (positive : All IsPositive items) where
  not_taken :
      (row : Item) (k : ℕ)
      → In row items
      → row.plan_id ≡ plan
      → rank plan items row ≡ k
      → is_order_taken plan k row.id (map (moved plan items k) items) ≡ false
  unfolding is_order_taken
  not_taken row k i p r =
      any-map _ (moved plan items k) items
      ∙ any-false _ items (λ x j. elim (Bool-cases (in_plan plan x)) [
        | inr e ↦ ground arith
        | inl e ↦
            let q = str_eq-eq x.plan_id plan e in
            let low =
              rank-le-order plan items x keyed positive (All-In IsPositive items positive j) in
            elim (Bool-cases (rank plan items x == k)) [
              | inl s ↦
                  let same = same_rank plan items x row keyed j i q p (ground arith) in
                  ground (arith, str_eq-true x.id row.id (ap (λ y. y.id) same))
              | inr s ↦ ground arith
            ]
      ])

  place-moved :
      (row : Item) (k : ℕ)
      → In row items
      → row.plan_id ≡ plan
      → rank plan items row ≡ k
      → (x : Item) → In x items
      → place row.id k (moved plan items k x) ≡ moved plan items (k + 1) x
  place-moved row k i p r x j = elim (Bool-cases (str_eq x.id row.id)) [
    | inl e ↦
        let same = same_id items x row keyed j i (str_eq-eq x.id row.id e) in
        ground (
          arith,
          ap (rank plan items) same,
          ap (λ y. y.plan_id) same,
          str_eq-true x.plan_id plan (ap (λ y. y.plan_id) same ∙ p),
        )
    | inr e ↦ elim (Bool-cases (in_plan plan x)) [
      | inr q ↦ ground arith
      | inl q ↦ elim (Bool-cases (rank plan items x == k)) [
        | inl s ↦
            let same =
              same_rank plan items x row keyed j i (str_eq-eq x.plan_id plan q) p (ground arith) in
            ground (arith, str_eq-true x.id row.id (ap (λ y. y.id) same))
        | inr s ↦ ground arith
      ]
    ]
  ]

  update_order-moved :
      (row : Item) (k : ℕ)
      → In row items
      → row.plan_id ≡ plan
      → rank plan items row ≡ k
      → update_order row.id k (map (moved plan items k) items)
        ≡ done (map (moved plan items (k + 1)) items)
  update_order-moved row k i p r =
      let same_plan : (moved plan items k row).plan_id ≡ plan = ground arith in
      update_order-done row.id k (map (moved plan items k) items) (moved plan items k row)
        (find-map (moved plan items k) items row (moved-id plan items k) keyed i)
        (rw same_plan (not_taken row k i p r))
      ∙ ap done (
          map-map (place row.id k) (moved plan items k) items
          ∙ map-cong _ _ items (place-moved row k i p r))

  update_orders-moved :
      (k : ℕ) (rows : List Item)
      → IsRanked plan items k rows
      → update_orders k (ids_of rows) (map (moved plan items k) items)
        ≡ done (map (moved plan items (k + length rows)) items)
  unfolding update_orders
  update_orders-moved k [] h = ap (λ n. done (map (moved plan items n) items)) (omega arith)
  update_orders-moved k (row ∷ rows) h = rw (update_order-moved row k h.0.0 h.0.1 h.0.2) (
      update_orders-moved (k + 1) rows h.1
      ∙ ap (λ n. done (map (moved plan items n) items)) (omega arith))

-- No rank is larger than the number of the plan's items.
pub rank-le-length :
    (plan : String) (items : List Item) (it : Item)
    → In it items
    → it.plan_id ≡ plan
    → rank plan items it ≤ length (find_items plan items)
unfolding rank
rank-le-length plan items it i p =
    let smaller =
      count_strict (is_below plan it.order) (in_plan plan) items (λ y j t. ground arith) i
        (ground arith) (str_eq-true it.plan_id plan p) in
    omega (arith, smaller, count-find_items plan items)

pub rank-positive : (plan : String) (items : List Item) (it : Item) → 1 ≤ rank plan items it
unfolding rank
rank-positive plan items it = omega arith

-- The table with every item of the plan at its rank.
unfoldable pub compacted : String → List Item → List Item
compacted plan items =
    map (λ it. if in_plan plan it then record it { order = rank plan items it } else it) items

-- On a table whose keys are unique and whose orders start at 1, the renumbering of a plan never meets
-- the unique index, although it updates row by row, and it gives each item of the plan the number
-- of the plan's items that stand before it, plus one. No other row changes.
pub renumber-compacted :
    (plan : String) (items : List Item)
    → IsKeyed items
    → All IsPositive items
    → renumber plan items ≡ done (compacted plan items)
unfolding renumber compacted
renumber-compacted plan items k h =
    let start =
      map_self (moved plan items 1) items (λ x i. ground (arith, rank-positive plan items x)) in
    let rows = find_items plan items in
    ap (update_orders 1 (ids_of rows)) (sym start)
    ∙ update_orders-moved plan items k h 1 rows (find_items-IsRanked plan items k)
    ∙ ap done (
        map-cong _ _ items (λ x i. elim (Bool-cases (in_plan plan x)) [
          | inr e ↦ ground arith
          | inl e ↦ ground (arith, rank-le-length plan items x i (str_eq-eq x.plan_id plan e))
        ]))
