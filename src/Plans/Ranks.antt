-- ===== src/Plans/Ranks.antt =====
-- The rank of an item in its plan, and the sorted list of a plan's items.
use church_presenter.Common.{
  ℕ, zero, suc, ◌≤◌, ◌<◌, String, ◌≡◌, refl, sym, ◌∙◌, inl, inr, Bool, ◌&&◌, List, [], ◌∷◌, eq_iff,
  arith, ltb, ◌==◌, All, In, All-In, count, count_strict, count_mono, Bool-cases,
}
use church_presenter.Plans.{Item, in_plan}
use church_presenter.Plans.Rows.{Differ, IsKeyed, same_place}
use church_presenter.Common.Texts.{str_eq-true}

abbrev pub is_below : String → ℕ → Item → Bool
is_below plan n it = in_plan plan it && ltb it.order n

unfoldable pub rank : String → List Item → Item → ℕ
rank plan items it = suc (count (is_below plan it.order) items)

pub rank_mono :
    (plan : String) (items : List Item) (a b : Item)
    → In a items
    → a.plan_id ≡ plan
    → a.order < b.order
    → rank plan items a < rank plan items b
unfolding rank
rank_mono plan items a b i p l =
    let smaller =
      count_strict (is_below plan a.order) (is_below plan b.order) items (λ y j t. ground arith) i
        (ground arith) (ground (arith, str_eq-true a.plan_id plan p)) in
    omega (arith, smaller)

-- At most one item stands at each order.
pub count_below_step :
    (plan : String) (n : ℕ) (items : List Item)
    → IsKeyed items
    → count (is_below plan (suc n)) items ≤ suc (count (is_below plan n) items)
unfolding count
count_below_step plan n [] k = omega arith
count_below_step plan n (it ∷ rest) k = elim (Bool-cases (in_plan plan it && (it.order == n))) [
  | inl e ↦
      let others = count_mono (is_below plan (suc n)) (is_below plan n) rest (λ y i t.
        let d = (All-In (Differ it) rest k.0 i).places in
        ground (arith, eq_iff it.plan_id plan, eq_iff y.plan_id plan)) in
      ground (arith, others)
  | inr e ↦ ground (arith, count_below_step plan n rest k.1)
]

abbrev pub IsPositive : Item → Type 0
IsPositive it = 1 ≤ it.order

pub count_below_zero :
    (plan : String) (items : List Item) → All IsPositive items → count (is_below plan 1) items ≡ 0
unfolding count
count_below_zero plan [] h = refl
count_below_zero plan (it ∷ rest) h = ground (arith, h.0, count_below_zero plan rest h.1)

count_below-lt :
    (plan : String) (n : ℕ) (items : List Item)
    → IsKeyed items
    → All IsPositive items
    → 1 ≤ n
    → count (is_below plan n) items < n
count_below-lt plan zero items k h p = omega (arith, p)
count_below-lt plan (suc zero) items k h p = rw (count_below_zero plan items h) (omega arith)
count_below-lt plan (suc (suc n)) items k h p = omega (
  arith,
  count_below_step plan (suc n) items k,
  count_below-lt plan (suc n) items k h (omega arith),
)

-- A rank is at most the order: moving to the ranks only moves items down.
pub rank-le-order :
    (plan : String) (items : List Item) (it : Item)
    → IsKeyed items
    → All IsPositive items
    → 1 ≤ it.order
    → rank plan items it ≤ it.order
unfolding rank
rank-le-order plan items it k h p = omega (arith, count_below-lt plan it.order items k h p)

-- Items of the plan of one rank are one item.
pub same_rank :
    (plan : String) (items : List Item) (a b : Item)
    → IsKeyed items
    → In a items
    → In b items
    → a.plan_id ≡ plan
    → b.plan_id ≡ plan
    → rank plan items a ≡ rank plan items b
    → a ≡ b
same_rank plan items a b k i j p q e =
    let forward = rank_mono plan items a b i p in
    let backward = rank_mono plan items b a j q in
    same_place items a b k i j (p ∙ sym q) (grind (arith, forward, backward, e))
