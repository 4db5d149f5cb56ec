-- ===== src/Sync/Blocked.antt =====
-- A row that the server refuses at every attempt.
use church_presenter.Common.{
  ◌≡◌, ◌≢◌, refl, sym, ap, ◌∙◌, inl, inr, Bool, true, Option, none, List, [], ◌∷◌, ◌++◌, str_eq,
  arith, All, In, find, Bool-cases,
}
use church_presenter.Common.Texts.{str_eq-eq, str_ne}
use church_presenter.Sync.{
  Sync, Link, Table, Push, sync_error, is_row, push_row, push_rows, write_or_count, is_broken,
  push_offline_changes, set_state, push_and_pull,
}
use church_presenter.Sync.Merge.{push_rows-failed, find-append}
use church_presenter.Sync.Growth.{push_row-Adds}

-- `taken` is a property of the server's rows that more rows keep, and with which the row is refused.
module _ {A : Type 0} (t : Table A) (keeps : (x : A) → t.id (t.stored x) ≡ t.id x) (row : A)
    (taken : List A → Bool)
    (is_refused : (rows : List A) → taken rows ≡ true → t.is_refused row rows ≡ true)
    (stays : (rows more : List A) → taken rows ≡ true → taken (rows ++ more) ≡ true) where
  abbrev knows : List A → Option A
  knows rows = find (is_row t (t.id row)) rows

  -- The server does not know the row, and refuses it.
  pub record Blocks (rows : List A) : Type 0 where
    pub unknown : knows rows ≡ none
    pub is_taken : taken rows ≡ true

  -- The row itself stops a push.
  push_row-stops :
      (run : Push A)
      → Blocks run.rows
      → ((push_row t row run).has_failed ≡ true) × ((push_row t row run).rows ≡ run.rows)
  unfolding push_row write_or_count
  push_row-stops run b = elim (Bool-cases run.has_failed) [
    | inl e ↦ rw e (refl, refl)
    | inr e ↦ elim (Bool-cases (is_broken run.left)) [
      | inl l ↦ rw (e, l) (refl, refl)
      | inr l ↦
          let same : push_row t row run ≡ write_or_count t row run (knows run.rows) =
            ground arith in
          rw (same, b.unknown, write_or_count, is_refused run.rows b.is_taken) (refl, refl)
    ]
  ]

  -- A row of another id leaves it refused.
  push_row-Blocks :
      (local : A) (run : Push A)
      → t.id local ≢ t.id row
      → Blocks run.rows
      → Blocks (push_row t local run).rows
  push_row-Blocks local run ne b = elim (push_row-Adds t local run) [
    | inl e ↦ rw e b
    | inr e ↦ rw e (record {
      unknown =
          find-append t run.rows (t.stored local) (t.id row) (λ q. ne (sym (keeps local) ∙ q))
          ∙ b.unknown;
      is_taken = stays run.rows (t.stored local ∷ []) b.is_taken;
    })
  ]

  pub push_rows-stops :
      (locals : List A) (run : Push A)
      → All (λ (x : A). t.id x ≡ t.id row → x ≡ row) locals
      → In row locals
      → Blocks run.rows
      → ((push_rows t locals run).has_failed ≡ true) × Blocks (push_rows t locals run).rows
  unfolding push_rows
  push_rows-stops [] run same i b = absurd (i refl)
  push_rows-stops (x ∷ rest) run same i b = elim (Bool-cases (str_eq (t.id x) (t.id row))) [
    | inl e ↦
        let stops = push_row-stops run b in
        rw
          (
            same.0 (str_eq-eq (t.id x) (t.id row) e),
            push_rows-failed t rest (push_row t row run) stops.0,
          )
          (stops.0, rw stops.1 b)
    | inr e ↦
        let ne = str_ne (t.id x) (t.id row) e in
        let later : In row rest = elim i [
          | inl here ↦ absurd (ne (ap (λ (r : A). t.id r) (sym here)))
          | inr later ↦ later
        ] in
        push_rows-stops rest (push_row t x run) same.1 later (push_row-Blocks x run ne b)
  ]

-- After a push that has thrown, what the server got stays there, and nothing is pulled.
pub push_and_pull_failed :
    (link : Link) (w : Sync)
    → (push_offline_changes w link).has_failed ≡ true
    → push_and_pull link w
      ≡ set_state sync_error (record w { server = (push_offline_changes w link).server })
unfolding push_and_pull
push_and_pull_failed link w failed = rw failed refl
