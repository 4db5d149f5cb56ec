-- ===== src/Plans/Rows.antt =====
-- The keys of the table ServiceItem: the id, and the plan with the order.
use church_presenter.Common.{
  ℕ, String, ◌≡◌, ◌≢◌, refl, sym, ap, ◌∙◌, ◌⊎◌, inl, inr, Bool, true, false, some, List, [], ◌∷◌,
  map, str_eq, arith, All, In, All-In, All-intro, find, keep, In-keep, In-map, Bool-cases,
  Option-cases,
}
use church_presenter.Common.Texts.{str_eq-true, str_eq-false, str_eq-eq}
use church_presenter.Common.Outcome.{done, thrown}
use church_presenter.Plans.{Item, has_id, place, unique_constraint, is_order_taken, update_order}

pub record Differ (a b : Item) : Type 0 where
  pub ids : a.id ≢ b.id
  pub places : (a.plan_id ≢ b.plan_id) ⊎ (a.order ≢ b.order)

abbrev pub IsKeyed : List Item → Type 0
IsKeyed [] = Unit
IsKeyed (it ∷ rest) = All (Differ it) rest × IsKeyed rest

pub Differ-sym : (a b : Item) → Differ a b → Differ b a
Differ-sym a b d = grind (arith, d.ids, d.places)

-- Two rows of a table are one row, or they differ.
pub same_or_Differ :
    (items : List Item) (a b : Item)
    → IsKeyed items
    → In a items
    → In b items
    → (a ≡ b) ⊎ Differ a b
same_or_Differ [] a b k i j = absurd (i refl)
same_or_Differ (it ∷ rest) a b k (inl e) (inl f) = inl (e ∙ sym f)
same_or_Differ (it ∷ rest) a b k (inl e) (inr j) = inr (rw e (All-In (Differ it) rest k.0 j))
same_or_Differ (it ∷ rest) a b k (inr i) (inl f) =
    inr (rw f (Differ-sym it a (All-In (Differ it) rest k.0 i)))
same_or_Differ (it ∷ rest) a b k (inr i) (inr j) = same_or_Differ rest a b k.1 i j

pub same_id :
    (items : List Item) (a b : Item) → IsKeyed items → In a items → In b items → a.id ≡ b.id → a ≡ b
same_id items a b k i j e = elim (same_or_Differ items a b k i j) [
  | inl s ↦ s
  | inr d ↦ absurd (d.ids e)
]

pub same_place :
    (items : List Item) (a b : Item)
    → IsKeyed items
    → In a items
    → In b items
    → a.plan_id ≡ b.plan_id
    → a.order ≡ b.order
    → a ≡ b
same_place items a b k i j e f = elim (same_or_Differ items a b k i j) [
  | inl s ↦ s
  | inr d ↦ elim d.places [ inl p ↦ absurd (p e) | inr o ↦ absurd (o f) ]
]

pub keep-IsKeyed :
    (test : Item → Bool) (items : List Item) → IsKeyed items → IsKeyed (keep test items)
unfolding keep
keep-IsKeyed test [] k = tt
keep-IsKeyed test (it ∷ rest) k = elim (Bool-cases (test it)) [
  | inl e ↦ rw e (
    All-intro (Differ it) (keep test rest)
        (λ x i. All-In (Differ it) rest k.0 (In-keep test rest i).0),
    keep-IsKeyed test rest k.1,
  )
  | inr e ↦ rw e (keep-IsKeyed test rest k.1)
]

pub map-IsKeyed :
    (f : Item → Item) (items : List Item)
    → ((a b : Item) → In a items → In b items → Differ a b → Differ (f a) (f b))
    → IsKeyed items
    → IsKeyed (map f items)
map-IsKeyed f [] h k = tt
map-IsKeyed f (it ∷ rest) h k = (
  All-intro (Differ (f it)) (map f rest) (λ x i.
      let found = In-map f rest i in
      rw found.2 (h it found.0 (inl refl) (inr found.1) (All-In (Differ it) rest k.0 found.1))),
  map-IsKeyed f rest (λ a b i j. h a b (inr i) (inr j)) k.1,
)

-- A row is found by its id after a change that keeps the ids.
pub find-map :
    (f : Item → Item) (items : List Item) (row : Item)
    → ((x : Item) → (f x).id ≡ x.id)
    → IsKeyed items
    → In row items
    → find (has_id row.id) (map f items) ≡ some (f row)
unfolding find
find-map f [] row h k i = absurd (i refl)
find-map f (it ∷ rest) row h k (inl e) =
    rw (str_eq-true (f it).id row.id (h it ∙ ap (λ x. x.id) (sym e))) (rw e refl)
find-map f (it ∷ rest) row h k (inr i) =
    rw (str_eq-false (f it).id row.id (λ e. (All-In (Differ it) rest k.0 i).ids (sym (h it) ∙ e)))
      (find-map f rest row h k.1 i)

pub find-In :
    (items : List Item) (row : Item)
    → IsKeyed items
    → In row items
    → find (has_id row.id) items ≡ some row
unfolding find
find-In [] row k i = absurd (i refl)
find-In (it ∷ rest) row k (inl e) =
    rw (str_eq-true it.id row.id (ap (λ x. x.id) (sym e))) (rw e refl)
find-In (it ∷ rest) row k (inr i) =
    rw (str_eq-false it.id row.id (λ e. (All-In (Differ it) rest k.0 i).ids e))
      (find-In rest row k.1 i)

pub In-find :
    (id : String) (items : List Item) (row : Item)
    → find (has_id id) items ≡ some row
    → In row items × (row.id ≡ id)
unfolding find
In-find id [] row h = cc
In-find id (it ∷ rest) row h = elim (Bool-cases (str_eq it.id id)) [
  | inl e ↦
      let same : it ≡ row = ground arith in
      (inl (sym same), ap (λ x. x.id) (sym same) ∙ str_eq-eq it.id id e)
  | inr e ↦ let r = In-find id rest row (rw e at h) in (inr r.0, r.1)
]

module _ (id : String) (n : ℕ) (items : List Item) (it : Item)
    (found : find (has_id id) items ≡ some it) where
  pub update_order-done :
      is_order_taken it.plan_id n id items ≡ false
      → update_order id n items ≡ done (map (place id n) items)
  unfolding update_order
  update_order-done free = rw (found, update_order) (rw free refl)

  pub update_order-thrown :
      is_order_taken it.plan_id n id items ≡ true
      → update_order id n items ≡ thrown unique_constraint
  unfolding update_order
  update_order-thrown taken = rw (found, update_order) (rw taken refl)

-- An update that went through found its row, and the place was free.
pub update_order_inv :
    (id : String) (n : ℕ) (items end : List Item)
    → update_order id n items ≡ done end
    → (it : Item) × (find (has_id id) items ≡ some it)
      × (is_order_taken it.plan_id n id items ≡ false)
      × (map (place id n) items ≡ end)
unfolding update_order
update_order_inv id n items end h = elim (Option-cases (find (has_id id) items)) [
  | inl e ↦ cc (rw (e, update_order) at h)
  | inr (it, e) ↦ elim (Bool-cases (is_order_taken it.plan_id n id items)) [
    | inl taken ↦ cc (sym (update_order-thrown id n items it e taken) ∙ h)
    | inr free ↦ (it, e, free, cc (sym (update_order-done id n items it e free) ∙ h))
  ]
]
