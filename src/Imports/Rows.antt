-- ===== src/Imports/Rows.antt =====
-- The rows that an import writes for plans.
use church_presenter.Common.{
  ℕ, suc, ◌<◌, ◌≡◌, ◌≢◌, refl, ap, ◌∙◌, Bool, false, List, [], ◌∷◌, ◌++◌, map, ◌==◌, arith, any,
  All, append_one,
}
use church_presenter.Common.Outcome.{done}
use church_presenter.Plans.{Item}
use church_presenter.Plans.Sorted.{IsAscending}
use church_presenter.Sync.{PlanRow, Tables, is_plan_date_taken}
use church_presenter.Imports.{Calendar}
use church_presenter.Imports.Write.{
  Draws, new_item, create_items, new_plan, create_plan_on, create_plan_with_items,
}
use church_presenter.Imports.Merge.{create_all}
use church_presenter.Imports.Plans.{IsPortablePlan, plan_content, carried, read_plan, midnight}
use church_presenter.Imports.Items.{item_content, carried_item, read_item}
use mathlib.Core.List.{append-nil}

-- The rows of the items of the n-th plan, from the place `k` on.
unfoldable pub restored_items : Draws → ℕ → ℕ → List Item → List Item
restored_items draws n k [] = []
restored_items draws n k (it ∷ rest) =
    new_item (draws.item_id n k) (draws.plan_id n) (read_item it)
    ∷ restored_items draws n (suc k) rest

abbrev is_taken : ℕ → List Item → Bool
is_taken order written = any (λ other. other.order == order) written

is_taken-append :
    (order : ℕ) (written : List Item) (it : Item)
    → is_taken order written ≡ false
    → (it.order == order) ≡ false
    → is_taken order (written ++ it ∷ []) ≡ false
unfolding any
is_taken-append order [] it h e = rw e refl
is_taken-append order (other ∷ written) it h e = ground (arith, is_taken-append order written it)

later_free :
    (low : ℕ) (rest written : List Item) (it : Item)
    → it.order < low
    → IsAscending low rest
    → All (λ (x : Item). is_taken x.order written ≡ false) rest
    → All (λ (x : Item). is_taken x.order (written ++ it ∷ []) ≡ false) rest
later_free low [] written it l a f = tt
later_free low (x ∷ rest) written it l a f = (
  is_taken-append x.order written it f.0 (ground arith),
  later_free (suc x.order) rest written it (omega arith) a.1 f.1,
)

module _ (draws : Draws) where
  create_items_ascending :
      (n k low : ℕ) (items written : List Item)
      → IsAscending low items
      → All (λ (x : Item). is_taken x.order written ≡ false) items
      → create_items draws n k (map read_item items) written
        ≡ done (written ++ restored_items draws n k items)
  unfolding create_items restored_items
  create_items_ascending n k low [] written a free = rw append-nil refl
  create_items_ascending n k low (it ∷ rest) written a free =
      let row = new_item (draws.item_id n k) (draws.plan_id n) (read_item it) in
      rw free.0 (
        create_items_ascending n (suc k) (suc it.order) rest (written ++ row ∷ []) a.1
          (later_free (suc it.order) rest written row (omega arith) a.1 free.1)
        ∙ ap done (append_one written row (restored_items draws n (suc k) rest)))

  free_at_first : (items : List Item) → All (λ (x : Item). is_taken x.order [] ≡ false) items
  unfolding any
  free_at_first [] = tt
  free_at_first (it ∷ rest) = (refl, free_at_first rest)

  restored_items-content :
      (n k : ℕ) (items : List Item)
      → map item_content (restored_items draws n k items)
        ≡ map carried_item (map item_content items)
  unfolding restored_items
  restored_items-content n k [] = refl
  restored_items-content n k (it ∷ rest) =
      ap (carried_item (item_content it) ∷◌) (restored_items-content n (suc k) rest)

-- No two plans are of one day, as the unique index has it.
abbrev pub AreDatesDistinct : List PlanRow → Type 0
AreDatesDistinct [] = Unit
AreDatesDistinct (p ∷ rest) =
    All (λ (q : PlanRow). p.plan.date ≢ q.plan.date) rest × AreDatesDistinct rest

is_plan_date_taken-append :
    (date : ℕ) (rows : List PlanRow) (p : PlanRow)
    → is_plan_date_taken date rows ≡ false
    → p.plan.date ≢ date
    → is_plan_date_taken date (rows ++ p ∷ []) ≡ false
unfolding any
is_plan_date_taken-append date [] p h ne = ground arith
is_plan_date_taken-append date (q ∷ rows) p h ne =
    ground (arith, is_plan_date_taken-append date rows p)

dates_free :
    (rest rows : List PlanRow) (p : PlanRow)
    → All (λ (q : PlanRow). p.plan.date ≢ q.plan.date) rest
    → All (λ (q : PlanRow). is_plan_date_taken q.plan.date rows ≡ false) rest
    → All (λ (q : PlanRow). is_plan_date_taken q.plan.date (rows ++ p ∷ []) ≡ false) rest
dates_free [] rows p d f = tt
dates_free (q ∷ rest) rows p d f =
    (is_plan_date_taken-append q.plan.date rows p f.0 d.0, dates_free rest rows p d.1 f.1)

module _ (calendar : Calendar) (draws : Draws) where
  abbrev restored_plan : ℕ → PlanRow → PlanRow
  restored_plan n p =
      new_plan draws n (read_plan calendar p) p.plan.date (restored_items draws n 0 p.items)

  -- The rows that an import writes for the plans, from the place `n` on.
  unfoldable pub restored_plans : ℕ → List PlanRow → List PlanRow
  restored_plans n [] = []
  restored_plans n (p ∷ rest) = restored_plan n p ∷ restored_plans (suc n) rest

  create_plan :
      (n : ℕ) (p : PlanRow) (t : Tables)
      → IsPortablePlan calendar p
      → is_plan_date_taken p.plan.date t.plans ≡ false
      → create_plan_with_items calendar draws n (read_plan calendar p) t
        ≡ done (record t { plans = t.plans ++ restored_plan n p ∷ [] })
  unfolding create_plan_with_items create_plan_on
  create_plan n p t h free =
      rw (midnight calendar p.plan.date h.date, create_plan_with_items)
        (rw
          (
            free,
            create_items_ascending draws n 0 0 p.items [] h.ascending (free_at_first draws p.items),
          )
          refl)

  pub create_plans :
      (n : ℕ) (plans : List PlanRow) (t : Tables)
      → All (IsPortablePlan calendar) plans
      → AreDatesDistinct plans
      → All (λ (q : PlanRow). is_plan_date_taken q.plan.date t.plans ≡ false) plans
      → create_all (create_plan_with_items calendar draws) n (map (read_plan calendar) plans) t
        ≡ done (record t { plans = t.plans ++ restored_plans n plans })
  unfolding create_all restored_plans
  create_plans n [] t h d free = rw append-nil refl
  create_plans n (p ∷ rest) t h d free =
      let row = restored_plan n p in
      rw (create_plan n p t h.0 free.0) (
        create_plans (suc n) rest (record t { plans = t.plans ++ row ∷ [] }) h.1 d.1
          (dates_free rest t.plans row d.0 free.1)
        ∙ ap (λ plans. done (record t { plans = plans }))
            (append_one t.plans row (restored_plans (suc n) rest)))

  -- What is no id and no time comes back, as a file carries it.
  pub restored_plans-content :
      (n : ℕ) (plans : List PlanRow)
      → map plan_content (restored_plans n plans) ≡ map carried (map plan_content plans)
  unfolding restored_plans
  restored_plans-content n [] = refl
  restored_plans-content n (p ∷ rest) =
      rw (restored_items-content draws n 0 p.items)
        (ap (carried (plan_content p) ∷◌) (restored_plans-content (suc n) rest))
