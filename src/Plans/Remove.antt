-- ===== src/Plans/Remove.antt =====
-- The removal of items: `plans:removeItem` and `plans:removeItems`.
use church_presenter.Common.{
  String, ◌≡◌, ◌≢◌, refl, sym, ◌∙◌, ◌⊎◌, inl, inr, Bool, not, ◌&&◌, none, Option-cases, List, [],
  ◌∷◌, if◌then◌else◌, In, any, find, keep, Bool-cases, is_empty,
}
use church_presenter.Common.Outcome.{done, thrown}
use church_presenter.Plans.{
  Item, has_id, in_plan, includes, remove_item, remove_items, renumber, other_plan,
}
use church_presenter.Plans.Rows.{In-find}
use church_presenter.Plans.Renumber.{compacted, renumber-compacted}
use church_presenter.Plans.Compact.{IsTable, IsCompact, keep-IsTable, compacted-IsCompact}

-- The table without some rows, the plan's items moved up over the gaps.
abbrev pub without : String → (Item → Bool) → List Item → List Item
without plan gone items = compacted plan (keep (λ it. not (gone it)) items)

renumber-without :
    (plan : String) (gone : Item → Bool) (items : List Item)
    → IsTable items
    → renumber plan (keep (λ it. not (gone it)) items) ≡ done (without plan gone items)
renumber-without plan gone items t =
    let rest = keep-IsTable (λ it. not (gone it)) items t in
    renumber-compacted plan (keep (λ it. not (gone it)) items) rest.keyed rest.positive

-- Removing an item of the plan takes its row out and moves the plan's items after it up, and it
-- is never refused; an item of another plan is refused, and an item that is gone changes nothing.
pub remove_item-without :
    (plan id : String) (items : List Item)
    → IsTable items
    → (remove_item plan id items ≡ done items × (find (has_id id) items ≡ none))
      ⊎ ((it : Item) × In it items
          × (it.id ≡ id)
          × (remove_item plan id items ≡ (
              if in_plan plan it
              then done (without plan (has_id id) items)
              else thrown other_plan)))
unfolding remove_item
remove_item-without plan id items t = elim (Option-cases (find (has_id id) items)) [
  | inl e ↦ inl (rw (e, remove_item) refl, e)
  | inr (it, e) ↦
      let row = In-find id items it e in
      inr (
        it,
        row.0,
        row.1,
        rw (e, remove_item) (rw (renumber-without plan (has_id id) items t) refl),
      )
]

-- Removing several items of the plan takes their rows out and moves the plan's other items up,
-- and it is never refused unless one of the items belongs to another plan.
pub remove_items-without :
    (plan : String) (ids : List String) (items : List Item)
    → IsTable items
    → remove_items plan ids items ≡ (
        if is_empty ids
        then done items
        else if any (λ it. includes ids it.id && not (in_plan plan it)) items
        then thrown other_plan
        else done (without plan (λ it. includes ids it.id) items))
unfolding remove_items
remove_items-without plan [] items t = refl
remove_items-without plan (id ∷ ids) items t =
    rw (renumber-without plan (λ it. includes (id ∷ ids) it.id) items t) refl

-- A removal of several items that goes through leaves the plan with the orders 1, 2, 3 and so on.
pub remove_items-IsCompact :
    (plan : String) (ids : List String) (items end : List Item)
    → IsTable items
    → ids ≢ []
    → remove_items plan ids items ≡ done end
    → IsCompact plan end
remove_items-IsCompact plan [] items end t n h = absurd (n refl)
remove_items-IsCompact plan (id ∷ ids) items end t n h =
    let runs = remove_items-without plan (id ∷ ids) items t in
    let gone = λ (it : Item). includes (id ∷ ids) it.id in
    let rest = keep-IsTable (λ it. not (gone it)) items t in
    elim (Bool-cases (any (λ it. includes (id ∷ ids) it.id && not (in_plan plan it)) items)) [
      | inl foreign ↦ cc (sym (rw foreign at runs) ∙ h)
      | inr own ↦
          let same : without plan gone items ≡ end = cc (sym (rw own at runs) ∙ h) in
          rw (sym same) (compacted-IsCompact plan (keep (λ it. not (gone it)) items) rest.keyed)
    ]
