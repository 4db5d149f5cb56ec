-- ===== src/Plans/Create/Dates.antt =====
-- The first free day of a new plan: `plans:create`.
use church_presenter.Common.{
  ℕ, zero, suc, ◌+◌, ◌≤◌, ◌<◌, String, ◌≡◌, refl, sym, inl, inr, Bool, true, false, ◌&&◌, Option,
  none, some, List, [], ◌∷◌, ◌++◌, arith, ltb, leb, ◌==◌, any, count, count-le-length, length,
  or_else, Bool-cases,
}
use church_presenter.Common.Outcome.{done, thrown}
use church_presenter.Plans.{Plan, Database, unique_constraint}
use church_presenter.Plans.Create.{
  has_plan_id, is_date_taken, is_plan_key_taken, create_plan_row, new_plan, create_plan,
  max_date_retries,
}

-- `free` is the first day from `date` on that no plan has.
pub record IsFirstFree (plans : List Plan) (date free : ℕ) : Type 0 where
  pub from : date ≤ free
  pub is_free : is_date_taken free plans ≡ false
  pub taken_before : (day : ℕ) → date ≤ day → day < free → is_date_taken day plans ≡ true

abbrev pub has_date_in : ℕ → ℕ → Plan → Bool
has_date_in low high plan = leb low plan.date && ltb plan.date high

abbrev pub taken_in : ℕ → ℕ → List Plan → ℕ
taken_in low high plans = count (has_date_in low high) plans

taken_in_split :
    (low n : ℕ) (plans : List Plan)
    → taken_in low (low + suc n) plans
      ≡ taken_in low (low + 1) plans + taken_in (low + 1) (low + 1 + n) plans
unfolding count
taken_in_split low n [] = omega arith
taken_in_split low n (plan ∷ plans) = ground (arith, taken_in_split low n plans)

taken_in_one :
    (low : ℕ) (plans : List Plan)
    → is_date_taken low plans ≡ true
    → 1 ≤ taken_in low (low + 1) plans
unfolding count is_date_taken any
taken_in_one low [] h = cc
taken_in_one low (plan ∷ plans) h = ground (arith, taken_in_one low plans)

pub taken-le :
    (date attempts : ℕ) (plans : List Plan) → taken_in date (date + attempts) plans ≤ length plans
taken-le date attempts plans = count-le-length (has_date_in date (date + attempts)) plans

-- Fewer plans than days: one of the days is free, and the search finds the first one.
pub first_free :
    (plans : List Plan) (attempts date : ℕ)
    → taken_in date (date + attempts) plans < attempts
    → (free : ℕ) × IsFirstFree plans date free × (free < date + attempts)
first_free plans zero date l = ground arith
first_free plans (suc attempts) date l = elim (Bool-cases (is_date_taken date plans)) [
  | inr e ↦ (
    date,
    record { from = omega arith; is_free = e; taken_before = λ day a b. ground arith },
    omega arith,
  )
  | inl e ↦
      let (free, first, bound) =
        first_free plans attempts (date + 1)
          (omega (arith, l, taken_in_split date attempts plans, taken_in_one date plans e)) in
      (
        free,
        record {
          from = omega (arith, first.from);
          is_free = first.is_free;
          taken_before = λ day a b. elim (Bool-cases (day == date)) [
            | inl f ↦ let same : day ≡ date = ground arith in rw same e
            | inr f ↦ first.taken_before day (ground arith) b
          ];
        },
        omega (arith, bound),
      )
]

module _ (plan : Plan) (db : Database) where
  pub create_plan_row-free :
      is_plan_key_taken plan db.plans ≡ false
      → create_plan_row plan db ≡ done (record db { plans = db.plans ++ plan ∷ [] })
  unfolding create_plan_row
  create_plan_row-free e = rw e refl

  pub create_plan_row-taken :
      is_plan_key_taken plan db.plans ≡ true → create_plan_row plan db ≡ thrown unique_constraint
  unfolding create_plan_row
  create_plan_row-taken e = rw e refl

module _ (title : Option String) (id : String) (db : Database)
    (fresh : any (has_plan_id id) db.plans ≡ false) where
  abbrev created : ℕ → Database
  created date = record db {
    plans = db.plans ++ new_plan id (some (or_else title "Culte")) none date ∷ [];
  }

  create_plan-finds :
      (attempts date free : ℕ)
      → IsFirstFree db.plans date free
      → free < date + attempts
      → create_plan title id attempts date db ≡ done (created free)
  unfolding create_plan is_plan_key_taken
  create_plan-finds zero date free f l = ground (arith, f.from)
  create_plan-finds (suc attempts) date free f l = elim (Bool-cases (free == date)) [
    | inl e ↦
        let same : free ≡ date = ground arith in
        rw (sym same) (
          rw
            (
              create_plan_row-free (new_plan id (some (or_else title "Culte")) none free) db
                  (rw fresh f.is_free),
              create_plan,
            )
            refl)
    | inr e ↦
        let later : date < free = ground (arith, f.from) in
        let next : IsFirstFree db.plans (date + 1) free = record {
          from = omega arith;
          is_free = f.is_free;
          taken_before = λ day a b. f.taken_before day (omega arith) b;
        } in
        rw
          (
            create_plan_row-taken (new_plan id (some (or_else title "Culte")) none date) db
                (rw fresh (f.taken_before date (omega arith) later)),
            create_plan,
          )
          (create_plan-finds attempts (date + 1) free next (omega (arith, l)))
  ]

-- With fewer plans than the days that are tried, deleted ones included, a plan is created under a new id
-- on the first day from the requested one on that no plan has.
pub create_plan-IsFirstFree :
    (title : Option String) (id : String) (date : ℕ) (db : Database)
    → any (has_plan_id id) db.plans ≡ false
    → length db.plans < max_date_retries
    → (free : ℕ) × IsFirstFree db.plans date free
      × (create_plan title id max_date_retries date db
          ≡ done (record db {
            plans = db.plans ++ new_plan id (some (or_else title "Culte")) none free ∷ [];
          }))
create_plan-IsFirstFree title id date db fresh few =
    let (free, first, bound) =
      first_free db.plans max_date_retries date
        (omega (arith, few, taken-le date max_date_retries db.plans)) in
    (free, first, create_plan-finds title id db fresh max_date_retries date free first bound)
