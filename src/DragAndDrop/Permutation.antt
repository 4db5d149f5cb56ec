-- ===== src/DragAndDrop/Permutation.antt =====
-- A drag and drop only moves ids.
use mathlib.Core.Option
use church_presenter.Common.{
  ℕ, zero, suc, ◌+◌, String, ◌≡◌, refl, sym, ap, ◌∙◌, inl, inr, Bool, true, false, not, Option,
  none, some, List, [], ◌∷◌, str_eq, arith, ◌==◌, if◌then◌else◌, count, keep, length, Bool-cases,
  Option-cases,
}
use church_presenter.Plans.{Item, ids_of, includes}
use church_presenter.Plans.Requests.{IsPermutation, occurrences}
use church_presenter.DragAndDrop.{
  splice_out, splice_in, put_back, move_array, fill_visible, index_of, moved_ids, ordered_item_ids,
  reorder_plan_items, numbered,
}

count-splice_in :
    (test : String → Bool) (to : ℕ) (x : String) (xs : List String)
    → count test (splice_in to x xs) ≡ count test (x ∷ xs)
unfolding count splice_in
count-splice_in test zero x xs = refl
count-splice_in test (suc to) x [] = refl
count-splice_in test (suc to) x (y ∷ ys) = omega (arith, count-splice_in test to x ys)

length-splice_in :
    (to : ℕ) (x : String) (xs : List String) → length (splice_in to x xs) ≡ suc (length xs)
unfolding splice_in
length-splice_in zero x xs = refl
length-splice_in (suc to) x [] = refl
length-splice_in (suc to) x (y ∷ ys) = omega (arith, length-splice_in to x ys)

abbrev joined : List String × Option String → List String
joined (rest, none) = rest
joined (rest, some x) = x ∷ rest

map-cons :
    (x : String) (o : Option (List String)) (out : List String)
    → Option.map (x ∷◌) o ≡ some out
    → (rest : List String) × (o ≡ some rest) × (out ≡ x ∷ rest)
map-cons x none out h = cc
map-cons x (some rest) out h = (rest, refl, cc)

module _ (test : String → Bool) where
  count-joined :
      (x : String) (p : List String × Option String)
      → count test (joined (x ∷ p.0, p.1)) ≡ (if test x then 1 else 0) + count test (joined p)
  unfolding count
  count-joined x (rest, none) = refl
  count-joined x (rest, some y) = omega arith

  count-splice_out :
      (from : ℕ) (xs : List String) → count test (joined (splice_out from xs)) ≡ count test xs
  unfolding count splice_out
  count-splice_out from [] = refl
  count-splice_out zero (x ∷ xs) = refl
  count-splice_out (suc from) (x ∷ xs) =
      count-joined x (splice_out from xs)
      ∙ ap ((if test x then 1 else 0) +◌) (count-splice_out from xs)

  count-put_back :
      (to : ℕ) (p : List String × Option String)
      → count test (put_back to p) ≡ count test (joined p)
  count-put_back to (rest, none) = refl
  count-put_back to (rest, some x) = count-splice_in test to x rest

  -- Moving an element changes no count.
  count-move_array :
      (from to : ℕ) (xs : List String) → count test (move_array from to xs) ≡ count test xs
  unfolding move_array
  count-move_array from to xs = count-put_back to (splice_out from xs) ∙ count-splice_out from xs

  count-keep_both :
      (keeps : String → Bool) (ids : List String)
      → count test ids ≡ count test (keep keeps ids) + count test (keep (λ id. not (keeps id)) ids)
  unfolding count keep
  count-keep_both keeps [] = omega arith
  count-keep_both keeps (id ∷ ids) = ground (arith, count-keep_both keeps ids)

  count-fill_visible :
      (visible turn ids out : List String)
      → fill_visible visible turn ids ≡ some out
      → length turn ≡ count (includes visible) ids
      → count test out ≡ count test turn + count test (keep (λ id. not (includes visible id)) ids)
  unfolding count keep fill_visible
  count-fill_visible visible [] [] out h l = let same : [] ≡ out = cc in rw (sym same) refl
  count-fill_visible visible (next ∷ turn) [] out h l = ground arith
  count-fill_visible visible [] (id ∷ ids) out h l = elim (Bool-cases (includes visible id)) [
    | inl e ↦ cc (rw e at h)
    | inr e ↦
        let (rest, f, same) = map-cons id (fill_visible visible [] ids) out (rw e at h) in
        let below = count-fill_visible visible [] ids rest f (omega (arith, rw e at l)) in
        rw same (rw e (omega (arith, below)))
  ]
  count-fill_visible visible (next ∷ turn) (id ∷ ids) out h l =
      elim (Bool-cases (includes visible id)) [
        | inl e ↦
            let (rest, f, same) = map-cons next (fill_visible visible turn ids) out (rw e at h) in
            let less : length turn ≡ count (includes visible) ids = omega (arith, rw e at l) in
            let below = count-fill_visible visible turn ids rest f less in
            rw same (rw e (omega (arith, below)))
        | inr e ↦
            let (rest, f, same) =
              map-cons id (fill_visible visible (next ∷ turn) ids) out (rw e at h) in
            let below =
              count-fill_visible visible (next ∷ turn) ids rest f (omega (arith, rw e at l)) in
            rw same (rw e (omega (arith, below)))
      ]

length-count : (xs : List String) → length xs ≡ count (λ x. true) xs
unfolding count
length-count [] = refl
length-count (x ∷ xs) = omega (arith, length-count xs)

length-keep :
    (keeps : String → Bool) (ids : List String) → length (keep keeps ids) ≡ count keeps ids
unfolding keep count
length-keep keeps [] = refl
length-keep keeps (id ∷ ids) = ground (arith, length-keep keeps ids)

moved_ids-count :
    (active over : String) (ids out : List String)
    → moved_ids active over ids ≡ some out
    → (test : String → Bool) → count test out ≡ count test ids
moved_ids-count active over ids out h test = elim (Option-cases (index_of active ids)) [
  | inl e ↦ cc (rw (e, moved_ids) at h)
  | inr (from, e) ↦ elim (Option-cases (index_of over ids)) [
    | inl f ↦ cc (rw f at (rw (e, moved_ids) at h))
    | inr (to, f) ↦
        let same : move_array from to ids ≡ out = cc (rw f at (rw (e, moved_ids) at h)) in
        rw (sym same) (count-move_array test from to ids)
  ]
]

ordered_item_ids-IsPermutation :
    (ids visible out : List String) (songs_only : Bool) (active over : String)
    → visible ≡ keep (includes visible) ids
    → ordered_item_ids ids visible songs_only active over ≡ some out
    → IsPermutation out ids
unfolding ordered_item_ids
ordered_item_ids-IsPermutation ids visible out false active over v h id =
    moved_ids-count active over ids out h _
ordered_item_ids-IsPermutation ids visible out true active over v h id =
    elim (Option-cases (moved_ids active over visible)) [
      | inl e ↦ cc (rw e at h)
      | inr (turn, e) ↦
          let filled : fill_visible visible turn ids ≡ some out = rw e at h in
          let counts = moved_ids-count active over visible turn e in
          let size : length turn ≡ count (includes visible) ids =
            length-count turn
            ∙ counts (λ x. true)
            ∙ sym (length-count visible)
            ∙ ap length v
            ∙ length-keep (includes visible) ids in
          count-fill_visible (λ x. str_eq x id) visible turn ids out filled size
          ∙ ap (◌+ occurrences id (keep (λ x. not (includes visible x)) ids))
              (counts (λ x. str_eq x id) ∙ ap (occurrences id) v)
          ∙ sym (count-keep_both (λ x. str_eq x id) (includes visible) ids)
    ]

-- If the visible items are those of the plan that the filter shows, in their order, the ids that a
-- drag and drop yields hold each id as often as the plan does, and as many items come back.
pub reorder_plan_items-IsPermutation :
    (items visible : List Item) (songs_only : Bool) (active over : String) (ids : List String)
    (new_items : List Item)
    → ids_of visible ≡ keep (includes (ids_of visible)) (ids_of items)
    → reorder_plan_items items visible songs_only active over ≡ some (ids, new_items)
    → IsPermutation ids (ids_of items) × (length new_items ≡ length items)
unfolding reorder_plan_items
reorder_plan_items-IsPermutation items visible songs_only active over ids new_items v h =
    elim (Option-cases (ordered_item_ids (ids_of items) (ids_of visible) songs_only active over)) [
      | inl e ↦ cc (rw (e, reorder_plan_items) at h)
      | inr (out, e) ↦ elim (Bool-cases (length (numbered 1 out items) == length items)) [
        | inr f ↦ cc (rw f at (rw (e, reorder_plan_items) at h))
        | inl f ↦
            let same : out ≡ ids = cc (rw f at (rw (e, reorder_plan_items) at h)) in
            let same_items : numbered 1 out items ≡ new_items =
              cc (rw f at (rw (e, reorder_plan_items) at h)) in
            (
              rw (sym same) (
                  ordered_item_ids-IsPermutation (ids_of items) (ids_of visible) out songs_only
                    active over v e),
              rw (sym same_items) (ground arith),
            )
      ]
    ]
