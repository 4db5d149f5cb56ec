-- ===== src/Plans/Compact.antt =====
-- The invariant of the table ServiceItem, and plans without gaps.
use church_presenter.Common.{
  ℕ, suc, ◌≤◌, String, ◌≡◌, sym, ap, ◌∙◌, inl, inr, Bool, true, List, map, str_eq, eq_iff, arith,
  ltb, if◌then◌else◌, All, In, All-In, All-intro, In-map, In-keep, count_cong, count-map,
  Bool-cases, any-In, keep,
}
use church_presenter.Common.Outcome.{done}
use church_presenter.Plans.{Item, in_plan, place, is_order_taken, update_order}
use church_presenter.Plans.Rows.{
  Differ, IsKeyed, same_or_Differ, same_id, map-IsKeyed, keep-IsKeyed, In-find, update_order_inv,
}
use church_presenter.Common.Texts.{str_eq-true, str_eq-eq}
use church_presenter.Plans.Ranks.{is_below, rank, IsPositive, rank_mono}
use church_presenter.Plans.Renumber.{compacted, rank-positive}

-- Ids are unique, orders are unique in a plan, and orders start at 1.
pub record IsTable (items : List Item) : Type 0 where
  pub keyed : IsKeyed items
  pub positive : All IsPositive items

-- The plan's items have the orders 1, 2, 3 and so on: each stands at its rank.
abbrev pub IsCompact : String → List Item → Type 0
IsCompact plan items = All (λ it. in_plan plan it ≡ true → it.order ≡ rank plan items it) items

pub keep-IsTable :
    (test : Item → Bool) (items : List Item) → IsTable items → IsTable (keep test items)
keep-IsTable test items t = record {
  keyed = keep-IsKeyed test items t.keyed;
  positive =
      All-intro IsPositive (keep test items)
        (λ x i. All-In IsPositive items t.positive (In-keep test items i).0);
}

abbrev ranked : String → List Item → Item → Item
ranked plan items it = if in_plan plan it then record it { order = rank plan items it } else it

-- Different items of one plan have different ranks, in their order.
rank_lt_iff :
    (plan : String) (items : List Item) (a b : Item)
    → IsKeyed items
    → In a items
    → In b items
    → a.plan_id ≡ plan
    → b.plan_id ≡ plan
    → ltb (rank plan items a) (rank plan items b) ≡ ltb a.order b.order
rank_lt_iff plan items a b k i j p q =
    let forward = rank_mono plan items a b i p in
    let backward = rank_mono plan items b a j q in
    elim (same_or_Differ items a b k i j) [
      | inl s ↦ rw s (ground arith)
      | inr d ↦ elim d.places [
        | inl x ↦ absurd (x (p ∙ sym q))
        | inr x ↦ ground (arith, forward, backward)
      ]
    ]

ranked-Differ :
    (plan : String) (items : List Item) (a b : Item)
    → IsKeyed items
    → In a items
    → In b items
    → Differ a b
    → Differ (ranked plan items a) (ranked plan items b)
ranked-Differ plan items a b k i j d = record {
  ids = ground (arith, d.ids);
  places = elim (Bool-cases (in_plan plan a)) [
    | inr e ↦ ground (arith, d.places, eq_iff a.plan_id plan, eq_iff b.plan_id plan)
    | inl e ↦ elim (Bool-cases (in_plan plan b)) [
      | inr f ↦ ground (arith, d.places, eq_iff a.plan_id plan, eq_iff b.plan_id plan)
      | inl f ↦
          let p = str_eq-eq a.plan_id plan e in
          let q = str_eq-eq b.plan_id plan f in
          let forward = rank_lt_iff plan items a b k i j p q in
          let backward = rank_lt_iff plan items b a k j i q p in
          elim d.places [
            | inl x ↦ absurd (x (p ∙ sym q))
            | inr x ↦ inr (ground (arith, e, f, forward, backward, x))
          ]
    ]
  ];
}

pub compacted-IsTable :
    (plan : String) (items : List Item) → IsTable items → IsTable (compacted plan items)
unfolding compacted
compacted-IsTable plan items t = record {
  keyed =
      map-IsKeyed (ranked plan items) items (λ a b i j. ranked-Differ plan items a b t.keyed i j)
        t.keyed;
  positive = All-intro IsPositive (map (ranked plan items) items) (λ x i.
      let (it, j, e) = In-map (ranked plan items) items i in
      let before = All-In IsPositive items t.positive j in
      rw e (ground (arith, rank-positive plan items it, before)));
}

-- Compaction leaves the ranks as they are.
ranked-rank :
    (plan : String) (items : List Item) (it : Item)
    → IsKeyed items
    → In it items
    → it.plan_id ≡ plan
    → rank plan (compacted plan items) (ranked plan items it) ≡ rank plan items it
unfolding compacted rank
ranked-rank plan items it k i p = ap suc (
    count-map (is_below plan (ranked plan items it).order) (ranked plan items) items
    ∙ count_cong _ (is_below plan it.order) items (λ x j. elim (Bool-cases (in_plan plan x)) [
      | inr e ↦ ground arith
      | inl e ↦
          let less = rank_lt_iff plan items x it k j i (str_eq-eq x.plan_id plan e) p in
          ground (arith, str_eq-true it.plan_id plan p, less)
    ]))

In-compacted :
    (plan : String) (items : List Item) (x : Item)
    → In x (compacted plan items)
    → (it : Item) × In it items × (x ≡ ranked plan items it)
unfolding compacted
In-compacted plan items x i = In-map (ranked plan items) items i

pub compacted-IsCompact :
    (plan : String) (items : List Item) → IsKeyed items → IsCompact plan (compacted plan items)
compacted-IsCompact plan items k = All-intro _ (compacted plan items) (λ x i t.
    let (it, j, e) = In-compacted plan items x i in
    let same : it.plan_id ≡ plan =
      str_eq-eq it.plan_id plan (ground (arith, ap (λ y. y.plan_id) e)) in
    let here : (ranked plan items it).order ≡ rank plan items it =
      ground (arith, str_eq-true it.plan_id plan same) in
    ap (λ y. y.order) e
    ∙ here
    ∙ sym (ranked-rank plan items it k j same)
    ∙ ap (rank plan (compacted plan items)) (sym e))

-- An update of one order keeps the keys, since the index has been looked at.
pub update_order-IsTable :
    (id : String) (n : ℕ) (items end : List Item)
    → 1 ≤ n
    → IsTable items
    → update_order id n items ≡ done end
    → IsTable end
unfolding is_order_taken
update_order-IsTable id n items end l t h =
    let (it, found, free, e) = update_order_inv id n items end h in
    let row = In-find id items it found in
    let other = λ (x : Item) (i : In x items). any-In _ items x free i in
    rw (sym e) (record {
      keyed =
          map-IsKeyed (place id n) items
            (λ a b i j d. record {
              ids = ground (arith, d.ids);
              places = elim (Bool-cases (str_eq a.id id)) [
                | inl f ↦
                    let same =
                      same_id items a it t.keyed i row.0 (str_eq-eq a.id id f ∙ sym row.1) in
                    ground (
                      arith,
                      f,
                      ap (λ y. y.plan_id) same,
                      other b j,
                      d.ids,
                      eq_iff a.id id,
                      eq_iff b.id id,
                      eq_iff b.plan_id it.plan_id,
                    )
                | inr f ↦ elim (Bool-cases (str_eq b.id id)) [
                  | inl g ↦
                      let same =
                        same_id items b it t.keyed j row.0 (str_eq-eq b.id id g ∙ sym row.1) in
                      ground (
                        arith,
                        f,
                        g,
                        ap (λ y. y.plan_id) same,
                        other a i,
                        eq_iff a.plan_id it.plan_id,
                      )
                  | inr g ↦ ground (arith, f, g, d.places)
                ]
              ];
            })
            t.keyed;
      positive = All-intro IsPositive (map (place id n) items) (λ x i.
          let (y, j, f) = In-map (place id n) items i in
          let before = All-In IsPositive items t.positive j in rw f (ground arith));
    })
