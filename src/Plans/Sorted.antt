-- ===== src/Plans/Sorted.antt =====
-- The list of a plan's items in their order.
use church_presenter.Common.{
  ℕ, suc, ◌≤◌, String, ◌≡◌, ◌≢◌, refl, sym, ◌∙◌, ◌⊎◌, inl, inr, Bool, true, List, [], ◌∷◌, arith,
  leb, All, In, All-In, All-intro, keep, count, length, In-keep, Bool-cases,
}
use church_presenter.Plans.{Item, in_plan, find_items, sort_by_order, insert_by_order}
use church_presenter.Plans.Rows.{Differ, IsKeyed, keep-IsKeyed}
use church_presenter.Common.Texts.{str_eq-eq}
use church_presenter.Plans.Ranks.{is_below}

abbrev pub IsAscending : ℕ → List Item → Type 0
IsAscending low [] = Unit
IsAscending low (it ∷ rest) = (low ≤ it.order) × IsAscending (suc it.order) rest

insert_by_order-IsAscending :
    (it : Item) (rows : List Item) (low : ℕ)
    → IsAscending low rows
    → low ≤ it.order
    → All (λ row. row.order ≢ it.order) rows
    → IsAscending low (insert_by_order it rows)
unfolding insert_by_order
insert_by_order-IsAscending it [] low a l n = (l, tt)
insert_by_order-IsAscending it (row ∷ rows) low a l n = elim (Bool-cases (leb it.order row.order)) [
  | inl e ↦ rw e (l, (ground (arith, n.0), a.1))
  | inr e ↦ rw e (a.0, insert_by_order-IsAscending it rows (suc row.order) a.1 (ground arith) n.1)
]

In-insert_by_order :
    (it : Item) (rows : List Item) (x : Item)
    → In x (insert_by_order it rows)
    → (x ≡ it) ⊎ In x rows
unfolding insert_by_order
In-insert_by_order it [] x i = i
In-insert_by_order it (row ∷ rows) x i = elim (Bool-cases (leb it.order row.order)) [
  | inl e ↦ rw e at i
  | inr e ↦ elim (rw e at i) [
    | inl s ↦ inr (inl s)
    | inr j ↦ elim (In-insert_by_order it rows x j) [ inl s ↦ inl s | inr m ↦ inr (inr m) ]
  ]
]

pub In-sort_by_order : (rows : List Item) (x : Item) → In x (sort_by_order rows) → In x rows
unfolding sort_by_order
In-sort_by_order [] x i = i
In-sort_by_order (row ∷ rows) x i = elim (In-insert_by_order row (sort_by_order rows) x i) [
  | inl s ↦ inl s
  | inr j ↦ inr (In-sort_by_order rows x j)
]

sort_by_order-IsAscending :
    (plan : String) (rows : List Item)
    → IsKeyed rows
    → All (λ row. row.plan_id ≡ plan) rows
    → IsAscending 0 (sort_by_order rows)
unfolding sort_by_order
sort_by_order-IsAscending plan [] k p = tt
sort_by_order-IsAscending plan (row ∷ rows) k p =
    insert_by_order-IsAscending row (sort_by_order rows) 0
      (sort_by_order-IsAscending plan rows k.1 p.1) (omega arith)
      (All-intro _ (sort_by_order rows) (λ x i.
        let j = In-sort_by_order rows x i in
        elim (All-In (Differ row) rows k.0 j).places [
          | inl d ↦ absurd (d (p.0 ∙ sym (All-In (λ r. r.plan_id ≡ plan) rows p.1 j)))
          | inr d ↦ λ e. d (sym e)
        ]))

pub find_items-IsAscending :
    (plan : String) (items : List Item) → IsKeyed items → IsAscending 0 (find_items plan items)
unfolding find_items
find_items-IsAscending plan items k =
    sort_by_order-IsAscending plan (keep (in_plan plan) items) (keep-IsKeyed (in_plan plan) items k)
      (All-intro (λ r. r.plan_id ≡ plan) (keep (in_plan plan) items)
        (λ x i. str_eq-eq x.plan_id plan (In-keep (in_plan plan) items i).1))

pub In-find_items :
    (plan : String) (items : List Item) (x : Item)
    → In x (find_items plan items)
    → In x items × (x.plan_id ≡ plan)
unfolding find_items
In-find_items plan items x i =
    let j = In-keep (in_plan plan) items (In-sort_by_order (keep (in_plan plan) items) x i) in
    (j.0, str_eq-eq x.plan_id plan j.1)

module _ (test : Item → Bool) where
  count-insert_by_order :
      (it : Item) (rows : List Item) → count test (insert_by_order it rows) ≡ count test (it ∷ rows)
  unfolding count insert_by_order
  count-insert_by_order it [] = refl
  count-insert_by_order it (row ∷ rows) = ground (arith, count-insert_by_order it rows)

  count-sort_by_order : (rows : List Item) → count test (sort_by_order rows) ≡ count test rows
  unfolding count sort_by_order
  count-sort_by_order [] = refl
  count-sort_by_order (row ∷ rows) =
      ground (arith, count-insert_by_order row (sort_by_order rows), count-sort_by_order rows)

  count-keep :
      (other : Item → Bool) (rows : List Item)
      → ((x : Item) → test x ≡ true → other x ≡ true)
      → count test (keep other rows) ≡ count test rows
  unfolding count keep
  count-keep other [] h = refl
  count-keep other (row ∷ rows) h = ground (arith, h row, count-keep other rows h)

-- Counting below an order reads the sorted list.
pub count_below-find_items :
    (plan : String) (n : ℕ) (items : List Item)
    → count (is_below plan n) (find_items plan items) ≡ count (is_below plan n) items
unfolding find_items
count_below-find_items plan n items =
    count-sort_by_order (is_below plan n) (keep (in_plan plan) items)
    ∙ count-keep (is_below plan n) (in_plan plan) items (λ x t. ground arith)

pub count-length :
    (test : Item → Bool) (rows : List Item)
    → All (λ x. test x ≡ true) rows
    → count test rows ≡ length rows
unfolding count
count-length test [] h = refl
count-length test (row ∷ rows) h = ground (arith, h.0, count-length test rows h.1)

pub count-find_items :
    (plan : String) (items : List Item)
    → count (in_plan plan) items ≡ length (find_items plan items)
unfolding find_items
count-find_items plan items =
    sym (
      count-sort_by_order (in_plan plan) (keep (in_plan plan) items)
      ∙ count-keep (in_plan plan) (in_plan plan) items (λ x t. t))
    ∙ count-length (in_plan plan) (sort_by_order (keep (in_plan plan) items)) (
        All-intro _ (sort_by_order (keep (in_plan plan) items)) (λ x i.
          (In-keep (in_plan plan) items (In-sort_by_order (keep (in_plan plan) items) x i)).1))
