-- ===== src/Plans/Requests.antt =====
-- What the validation of a reorder request accepts: validatePlanReorderPayload.
use church_presenter.Common.{
  ℕ, suc, ◌+◌, ◌≤◌, String, ◌≡◌, refl, sym, ◌↔◌, inl, inr, true, List, [], ◌∷◌, str_eq, arith, ltb,
  if◌then◌else◌, any, count, Bool-cases, length,
}
use mathlib.Core.Path.{subst}
use church_presenter.Common.Outcome.{done}
use church_presenter.Plans.{includes, is_distinct, all_included, validate_plan_reorder_payload}
use church_presenter.Common.Texts.{str_eq-true, str_eq-eq}

abbrev pub occurrences : String → List String → ℕ
occurrences id ids = count (λ other. str_eq other id) ids

-- Each id occurs as often in one list as in the other.
abbrev pub IsPermutation : List String → List String → Type 0
IsPermutation xs ys = (id : String) → occurrences id xs ≡ occurrences id ys

remove_first : String → List String → List String
remove_first id [] = []
remove_first id (other ∷ ids) =
    let below = remove_first id ids in if str_eq other id then ids else other ∷ below

includes-occurrences :
    (ids : List String) (id : String) → includes ids id ≡ ltb 0 (occurrences id ids)
unfolding includes any count
includes-occurrences [] id = refl
includes-occurrences (other ∷ ids) id = ground (arith, includes-occurrences ids id)

occurrences-remove_first :
    (ys : List String) (x id : String)
    → 1 ≤ occurrences x ys
    → occurrences id ys ≡ (if str_eq x id then 1 else 0) + occurrences id (remove_first x ys)
unfolding remove_first count
occurrences-remove_first [] x id h = omega (arith, h)
occurrences-remove_first (y ∷ ys) x id h = elim (Bool-cases (str_eq y x)) [
  | inl e ↦ rw e (rw (str_eq-eq y x e) refl)
  | inr e ↦ rw e (ground (arith, e, h, occurrences-remove_first ys x id))
]

length-remove_first :
    (ys : List String) (x : String)
    → 1 ≤ occurrences x ys
    → length ys ≡ suc (length (remove_first x ys))
unfolding remove_first count
length-remove_first [] x h = omega (arith, h)
length-remove_first (y ∷ ys) x h = ground (arith, length-remove_first ys x)

occurrences_self : (x : String) (xs : List String) → occurrences x (x ∷ xs) ≡ suc (occurrences x xs)
unfolding count
occurrences_self x xs = ground (arith, str_eq-true x x refl)

smaller_rest :
    (x : String) (xs ys : List String)
    → ((id : String) → occurrences id (x ∷ xs) ≤ occurrences id ys)
    → (1 ≤ occurrences x ys)
      × ((id : String) → occurrences id xs ≤ occurrences id (remove_first x ys))
unfolding count
smaller_rest x xs ys h =
    let here : 1 ≤ occurrences x ys = omega (arith, h x, occurrences_self x xs) in
    (here, λ id. omega (arith, h id, occurrences-remove_first ys x id here))

-- A list with no id more often than another is no longer, and at the same length has each as often.
smaller-length :
    (xs ys : List String)
    → ((id : String) → occurrences id xs ≤ occurrences id ys)
    → length xs ≤ length ys
smaller-length [] ys h = omega arith
smaller-length (x ∷ xs) ys h =
    let rest = smaller_rest x xs ys h in
    omega (arith, length-remove_first ys x rest.0, smaller-length xs (remove_first x ys) rest.1)

smaller-IsPermutation :
    (xs ys : List String)
    → ((id : String) → occurrences id xs ≤ occurrences id ys)
    → length xs ≡ length ys
    → IsPermutation xs ys
unfolding count
smaller-IsPermutation [] [] h l id = refl
smaller-IsPermutation [] (y ∷ ys) h l id = ground arith
smaller-IsPermutation (x ∷ xs) ys h l id =
    let rest = smaller_rest x xs ys h in
    let same =
      smaller-IsPermutation xs (remove_first x ys) rest.1
        (omega (arith, l, length-remove_first ys x rest.0)) id in
    omega (arith, same, occurrences-remove_first ys x id rest.0)

distinct-occurrences :
    (ids : List String) → is_distinct ids ≡ true → (id : String) → occurrences id ids ≤ 1
unfolding count is_distinct
distinct-occurrences [] h id = omega arith
distinct-occurrences (x ∷ ids) h id = elim (Bool-cases (str_eq x id)) [
  | inl e ↦
      let here : occurrences x (x ∷ ids) ≤ 1 =
        ground (arith, occurrences_self x ids, includes-occurrences ids x) in
      subst (λ z. occurrences z (x ∷ ids) ≤ 1) (str_eq-eq x id e) here
  | inr e ↦ ground (arith, e, distinct-occurrences ids (ground arith) id)
]

occurrences-distinct :
    (ids : List String) → ((id : String) → occurrences id ids ≤ 1) → is_distinct ids ≡ true
unfolding count is_distinct
occurrences-distinct [] h = refl
occurrences-distinct (x ∷ ids) h =
    let rest = occurrences-distinct ids (λ id. omega (arith, h id)) in
    ground (arith, rest, h x, occurrences_self x ids, includes-occurrences ids x)

included-occurrences :
    (current ids : List String)
    → all_included current ids ≡ true
    → (id : String) → 1 ≤ occurrences id ids
    → 1 ≤ occurrences id current
unfolding count all_included
included-occurrences current [] a id h = omega (arith, h)
included-occurrences current (x ∷ ids) a id h = elim (Bool-cases (str_eq x id)) [
  | inl e ↦ rw (sym (str_eq-eq x id e)) (ground (arith, a, includes-occurrences current x))
  | inr e ↦ included-occurrences current ids (ground arith) id (ground arith)
]

occurrences-included :
    (current ids : List String)
    → ((id : String) → occurrences id ids ≤ occurrences id current)
    → all_included current ids ≡ true
unfolding count all_included
occurrences-included current [] h = refl
occurrences-included current (x ∷ ids) h =
    let rest = occurrences-included current ids (λ id. omega (arith, h id)) in
    ground (arith, rest, h x, occurrences_self x ids, includes-occurrences current x)

-- The validation accepts a list of ids exactly if it holds each id as often as the list of the plan's
-- current ids does, where these are distinct.
pub validate_plan_reorder_payload-IsPermutation :
    (current requested : List String)
    → is_distinct current ≡ true
    → (validate_plan_reorder_payload current requested ≡ done tt) ↔ IsPermutation requested current
unfolding validate_plan_reorder_payload
validate_plan_reorder_payload-IsPermutation current requested d = (
  λ h.
      let same : length requested ≡ length current = ground arith in
      let distinct : is_distinct requested ≡ true = ground arith in
      let inside : all_included current requested ≡ true = ground arith in
      smaller-IsPermutation requested current
        (λ id. grind (
          arith,
          distinct-occurrences requested distinct id,
          included-occurrences current requested inside id,
        ))
        same,
  λ p.
      let up = smaller-length requested current (λ id. omega (arith, p id)) in
      let down = smaller-length current requested (λ id. omega (arith, p id)) in
      let distinct =
        occurrences-distinct requested
          (λ id. omega (arith, p id, distinct-occurrences current d id)) in
      let inside = occurrences-included current requested (λ id. omega (arith, p id)) in
      ground (arith, up, down, distinct, inside),
)
