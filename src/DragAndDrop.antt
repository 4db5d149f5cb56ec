-- ===== src/DragAndDrop.antt =====
-- The order of a plan after a drag and drop: apps/desktop/src/renderer/src/lib/reorder.ts.
pub mod Permutation
use church_presenter.Common.{
  ℕ, zero, suc, ◌+◌, String, Bool, true, false, Option, none, some, List, [], ◌∷◌, ◌++◌, map,
  str_eq, ◌==◌, if◌then◌else◌, any, length,
}
use church_presenter.Plans.{Item, has_id, ids_of, includes}
use mathlib.Core.Option

module _ {ℓ} {A : Type ℓ} where
  -- `splice(from, 1)`: the list without the element, and the element if there is one.
  unfoldable pub splice_out : ℕ → List A → List A × Option A
  splice_out from [] = ([], none)
  splice_out zero (x ∷ xs) = (xs, some x)
  splice_out (suc from) (x ∷ xs) = let (rest, moved) = splice_out from xs in (x ∷ rest, moved)

  -- `splice(to, 0, x)`, at the end where `to` is past it.
  unfoldable pub splice_in : ℕ → A → List A → List A
  splice_in zero x xs = x ∷ xs
  splice_in (suc to) x [] = x ∷ []
  splice_in (suc to) x (y ∷ ys) = y ∷ splice_in to x ys

  abbrev pub put_back : ℕ → List A × Option A → List A
  put_back to (rest, none) = rest
  put_back to (rest, some x) = splice_in to x rest

  unfoldable pub move_array : ℕ → ℕ → List A → List A
  move_array from to xs = put_back to (splice_out from xs)

unfoldable pub index_of : String → List String → Option ℕ
index_of id [] = none
index_of id (other ∷ ids) =
    let below = index_of id ids in if str_eq other id then some 0 else Option.map suc below

-- The ids with the visible ones replaced in turn; `none` where the turn has no id left.
unfoldable pub fill_visible : List String → List String → List String → Option (List String)
fill_visible visible turn [] = some []
fill_visible visible [] (id ∷ ids) =
    let rest = fill_visible visible [] ids in
    if includes visible id then none else Option.map (id ∷◌) rest
fill_visible visible (next ∷ turn) (id ∷ ids) =
    let hidden = fill_visible visible (next ∷ turn) ids in
    let shown = fill_visible visible turn ids in
    if includes visible id then Option.map (next ∷◌) shown else Option.map (id ∷◌) hidden

abbrev pub moved_ids : String → String → List String → Option (List String)
moved_ids active over ids = elim (index_of active ids) [
  | none ↦ none
  | some from ↦ elim (index_of over ids) [ none ↦ none | some to ↦ some (move_array from to ids) ]
]

unfoldable pub ordered_item_ids :
    List String → List String → Bool → String → String → Option (List String)
ordered_item_ids ids visible songs_only active over =
    if songs_only
    then elim (moved_ids active over visible) [
      | none ↦ none
      | some turn ↦ fill_visible visible turn ids
    ]
    else moved_ids active over ids

-- `byId.get(id)`: the last item of the id, as a `Map` is filled.
unfoldable pub by_id : String → List Item → Option Item
by_id id [] = none
by_id id (it ∷ items) =
    let later = by_id id items in
    elim later [ some found ↦ some found | none ↦ if has_id id it then some it else none ]

-- The items of the ids, numbered from `n` on.
unfoldable pub numbered : ℕ → List String → List Item → List Item
numbered n [] items = []
numbered n (id ∷ ids) items =
    let rest = numbered (n + 1) ids items in
    elim (by_id id items) [ none ↦ rest | some it ↦ record it { order = n } ∷ rest ]

unfoldable pub reorder_plan_items :
    List Item → List Item → Bool → String → String → Option (List String × List Item)
reorder_plan_items items visible songs_only active over =
    elim (ordered_item_ids (ids_of items) (ids_of visible) songs_only active over) [
      | none ↦ none
      | some ids ↦
          let new_items = numbered 1 ids items in
          if length new_items == length items then some (ids, new_items) else none
    ]
