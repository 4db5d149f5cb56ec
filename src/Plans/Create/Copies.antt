-- ===== src/Plans/Create/Copies.antt =====
-- The copy of a plan: duplicatePlanWithRetry.
use church_presenter.Common.{
  ℕ, zero, suc, ◌+◌, ◌≤◌, ◌<◌, String, ◌≡◌, ◌≢◌, refl, sym, ap, ◌∙◌, inl, inr, Bool, true, false,
  Option, some, List, [], ◌∷◌, ◌++◌, eq_iff, arith, ◌==◌, All, In, All-In, All-intro, any, find,
  length, or_else, Bool-cases, any-false, any-true, In-append_inv, In-append, append_one,
}
use mathlib.Core.List.{append-nil}
use church_presenter.Common.Outcome.{done, thrown}
use church_presenter.Plans.{Item, Plan, Database, unique_constraint, in_plan, find_items}
use church_presenter.Common.Texts.{str_eq-true}
use church_presenter.Plans.Ranks.{IsPositive}
use church_presenter.Plans.Sorted.{IsAscending, find_items-IsAscending, In-find_items}
use church_presenter.Plans.Compact.{IsTable}
use church_presenter.Plans.Create.{
  has_plan_id, has_song, is_date_taken, is_item_key_taken, is_plan_key_taken, new_plan, copied_item,
  copy_items, try_duplicate, duplicate_plan_with_retry, duplicate_plan, max_date_retries, text_or,
}
use church_presenter.Plans.Create.Items.{create_item-IsTable, create_item-free}
use church_presenter.Plans.Create.Dates.{
  IsFirstFree, first_free, taken-le, create_plan_row-free, create_plan_row-taken,
}

abbrev pub copies : String → (ℕ → String) → ℕ → List Item → List Item
copies plan ids n [] = []
copies plan ids n (it ∷ rest) = copied_item plan (ids n) it ∷ copies plan ids (n + 1) rest

-- What the rows of a table are to the next copies: their ids differ, and the new plan's rows stand
-- below the order `low`.
record IsRoomFor (plan : String) (ids : ℕ → String) (bound n low : ℕ) (items : List Item)
    : Type 0 where
  new_ids : (x : Item) (m : ℕ) → In x items → n ≤ m → m < bound → x.id ≢ ids m
  below : (x : Item) → In x items → in_plan plan x ≡ true → x.order < low

module _ (plan : String) (ids : ℕ → String) (bound : ℕ)
    (distinct : (m n : ℕ) → m < bound → n < bound → ids m ≡ ids n → m ≡ n) where
  grown-IsRoomFor :
      (n low : ℕ) (it : Item) (items : List Item)
      → low ≤ it.order
      → n < bound
      → IsRoomFor plan ids bound n low items
      → IsRoomFor plan ids bound (n + 1) (suc it.order) (items ++ copied_item plan (ids n) it ∷ [])
  grown-IsRoomFor n low it items l b r = record {
    new_ids = λ x m i a c. elim (In-append_inv items (copied_item plan (ids n) it) x i) [
      | inl j ↦ r.new_ids x m j (omega (arith, a)) c
      | inr e ↦ λ f. ground (arith, a, distinct n m b c (sym (ap (λ y. y.id) e) ∙ f))
    ];
    below = λ x i t. elim (In-append_inv items (copied_item plan (ids n) it) x i) [
      | inl j ↦ omega (arith, l, r.below x j t)
      | inr e ↦ omega (arith, ap (λ y. y.order) e)
    ];
  }

  room_free :
      (n low : ℕ) (it : Item) (items : List Item)
      → low ≤ it.order
      → n < bound
      → IsRoomFor plan ids bound n low items
      → is_item_key_taken (copied_item plan (ids n) it) items ≡ false
  unfolding is_item_key_taken
  room_free n low it items l b r = any-false _ items (λ x i.
      let other = r.new_ids x n i (omega arith) b in
      ground (arith, eq_iff x.id (ids n), other, r.below x i))

  copy_items-copies :
      (n low : ℕ) (rows : List Item) (db : Database)
      → IsTable db.items
      → any (has_plan_id plan) db.plans ≡ true
      → All IsPositive rows
      → All (λ row. has_song db row.song_id ≡ true) rows
      → IsAscending low rows
      → n + length rows ≤ bound
      → IsRoomFor plan ids bound n low db.items
      → (copy_items plan ids n rows db
          ≡ done (record db { items = db.items ++ copies plan ids n rows }))
        × IsTable (db.items ++ copies plan ids n rows)
  unfolding copy_items
  copy_items-copies n low [] db t p o s a b r = (
    ap (λ xs. done (record db { items = xs })) (sym (append-nil db.items)),
    rw (append-nil db.items) t,
  )
  copy_items-copies n low (it ∷ rows) db t p o s a b r =
      let copy = copied_item plan (ids n) it in
      let db' = record db { items = db.items ++ copy ∷ [] } in
      let wrote =
        create_item-free copy db (room_free n low it db.items a.0 (omega (arith, b)) r) p s.0 in
      let table = (create_item-IsTable copy db db' o.0 t wrote).0 in
      let rest =
        copy_items-copies (n + 1) (suc it.order) rows db' table p o.1 s.1 a.1 (omega (arith, b))
          (grown-IsRoomFor n low it db.items a.0 (omega (arith, b)) r) in
      let joined = append_one db.items copy (copies plan ids (n + 1) rows) in
      (
        rw wrote (rest.0 ∙ ap (λ xs. done (record db { items = xs })) joined),
        rw (sym joined) rest.1,
      )

-- The ids of the new rows are new and distinct, the new plan has no items, and the songs of the
-- copied plan's items are there.
pub record IsCopyable (plan id : String) (ids : ℕ → String) (db : Database) : Type 0 where
  pub table : IsTable db.items
  pub distinct :
      (m n : ℕ)
      → m < length (find_items plan db.items)
      → n < length (find_items plan db.items)
      → ids m ≡ ids n
      → m ≡ n
  pub new_ids :
      (x : Item) (m : ℕ) → In x db.items → m < length (find_items plan db.items) → x.id ≢ ids m
  pub no_items : (x : Item) → In x db.items → in_plan id x ≡ false
  pub new_plan_id : any (has_plan_id id) db.plans ≡ false
  pub songs : (x : Item) → In x db.items → x.plan_id ≡ plan → has_song db x.song_id ≡ true

abbrev pub duplicated : Plan → List Item → Database → Database
duplicated plan rows db = record db { plans = db.plans ++ plan ∷ []; items = db.items ++ rows }

any-append :
    {A : Type 0}
    → (test : A → Bool) (xs : List A) (x : A) → test x ≡ true
    → any test (xs ++ x ∷ []) ≡ true
any-append test xs x t = any-true test (xs ++ x ∷ []) (In-append xs x) t

module _ (base id : String) (ids : ℕ → String) (db : Database)
    (ready : IsCopyable base id ids db) where
  try_duplicate-free :
      (title background : Option String) (date : ℕ)
      → is_date_taken date db.plans ≡ false
      → (try_duplicate (new_plan id title background date) ids (find_items base db.items) db
          ≡ done (
              duplicated
                (new_plan id title background date)
                (copies id ids 0 (find_items base db.items))
                db))
        × IsTable (db.items ++ copies id ids 0 (find_items base db.items))
  unfolding try_duplicate is_plan_key_taken
  try_duplicate-free title background date f =
      let plan = new_plan id title background date in
      let rows = find_items base db.items in
      let wrote = create_plan_row-free plan db (rw ready.new_plan_id f) in
      let copied =
        copy_items-copies id ids (length rows) ready.distinct 0 0 rows
          (record db { plans = db.plans ++ plan ∷ [] }) ready.table
          (any-append (has_plan_id id) db.plans plan (str_eq-true id id refl))
          (All-intro IsPositive rows (λ x i.
            All-In IsPositive db.items ready.table.positive (In-find_items base db.items x i).0))
          (All-intro _ rows
            (λ x i. let found = In-find_items base db.items x i in ready.songs x found.0 found.1))
          (find_items-IsAscending base db.items ready.table.keyed) (omega arith)
          (record {
            new_ids = λ x m i a c. ready.new_ids x m i c;
            below = λ x i t. ground (arith, ready.no_items x i, t);
          }) in
      (rw wrote copied.0, copied.1)

  try_duplicate-taken :
      (title background : Option String) (date : ℕ)
      → is_date_taken date db.plans ≡ true
      → try_duplicate (new_plan id title background date) ids (find_items base db.items) db
        ≡ thrown unique_constraint
  unfolding try_duplicate is_plan_key_taken
  try_duplicate-taken title background date f =
      let refused =
        create_plan_row-taken (new_plan id title background date) db (rw ready.new_plan_id f) in
      rw refused refl

  duplicate-finds :
      (title background : Option String) (attempts date free : ℕ)
      → IsFirstFree db.plans date free
      → free < date + attempts
      → duplicate_plan_with_retry title background id ids
          (find_items base db.items)
          attempts
          date
          db
        ≡ done (
            duplicated
              (new_plan id title background free)
              (copies id ids 0 (find_items base db.items))
              db)
  unfolding duplicate_plan_with_retry
  duplicate-finds title background zero date free f l = ground (arith, f.from)
  duplicate-finds title background (suc attempts) date free f l = elim (Bool-cases (free == date)) [
    | inl e ↦
        let same : free ≡ date = ground arith in
        rw (sym same) (
          rw ((try_duplicate-free title background free f.is_free).0, duplicate_plan_with_retry)
            refl)
    | inr e ↦
        let later : date < free = ground (arith, f.from) in
        let next : IsFirstFree db.plans (date + 1) free = record {
          from = omega arith;
          is_free = f.is_free;
          taken_before = λ day a b. f.taken_before day (omega arith) b;
        } in
        let more : (attempts == 0) ≡ false = ground arith in
        rw
          (
            try_duplicate-taken title background date (f.taken_before date (omega arith) later),
            duplicate_plan_with_retry,
          )
          (rw more
            (duplicate-finds title background attempts (date + 1) free next (omega (arith, l))))
  ]

-- With fewer plans than the days that are tried, a copy of a plan is written on the first free day from
-- the requested day on, or from the plan's own day: its items are those of the plan in their order, with
-- new ids and the kinds brought to known ones, and the keys of the item table stay unique. Nothing else changes.
pub duplicate_plan-IsFirstFree :
    (base id : String) (title : Option String) (date : Option ℕ) (ids : ℕ → String) (db : Database)
    (plan : Plan)
    → IsCopyable base id ids db
    → find (has_plan_id base) db.plans ≡ some plan
    → length db.plans < max_date_retries
    → (free : ℕ) × IsFirstFree db.plans (or_else date plan.date) free
      × (duplicate_plan base title date id ids db
          ≡ done (
              duplicated
                (new_plan id
                  (text_or title (text_or plan.title (some "Culte")))
                  plan.background_config
                  free)
                (copies id ids 0 (find_items base db.items))
                db))
      × IsTable (db.items ++ copies id ids 0 (find_items base db.items))
unfolding duplicate_plan
duplicate_plan-IsFirstFree base id title date ids db plan ready found few =
    let day = or_else date plan.date in
    let name = text_or title (text_or plan.title (some "Culte")) in
    let (free, first, bound) =
      first_free db.plans max_date_retries day
        (omega (arith, few, taken-le day max_date_retries db.plans)) in
    (
      free,
      first,
      rw (found, duplicate_plan)
          (duplicate-finds base id ids db ready name plan.background_config max_date_retries day
            free first bound),
      (try_duplicate-free base id ids db ready name plan.background_config free first.is_free).1,
    )
