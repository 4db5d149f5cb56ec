-- ===== src/Sync/Growth.antt =====
-- What a push adds to the rows of the server, and when no row is refused.
use church_presenter.Common.{
  String, ◌≡◌, ◌≢◌, refl, sym, ap, ◌∙◌, ◌⊎◌, inl, inr, Bool, false, Option, none, some, List, [],
  ◌∷◌, ◌++◌, str_eq, arith, All, find, keep, Bool-cases, All-In, All-intro, All-imp, In-keep,
}
use church_presenter.Sync.{Push, Table, is_row, is_broken, write_or_count, push_row, push_rows}
use mathlib.Core.List.{append-nil, append_assoc}
use church_presenter.Sync.Merge.{Grows, AreDistinct}

module _ {A : Type 0} (t : Table A) where
  pub keep-AreDistinct :
      (test : A → Bool) (rows : List A) → AreDistinct t rows → AreDistinct t (keep test rows)
  unfolding keep
  keep-AreDistinct test [] d = tt
  keep-AreDistinct test (row ∷ rest) d = elim (Bool-cases (test row)) [
    | inl e ↦ rw e (
      All-intro (λ (other : A). t.id row ≢ t.id other) (keep test rest)
          (λ x i. All-In (λ (other : A). t.id row ≢ t.id other) rest d.0 (In-keep test rest i).0),
      keep-AreDistinct test rest d.1,
    )
    | inr e ↦ rw e (keep-AreDistinct test rest d.1)
  ]

  -- A round leaves the rows, or writes the local row after them.
  abbrev pub Adds : List A → A → List A → Type 0
  Adds rows local after = (after ≡ rows) ⊎ (after ≡ rows ++ t.stored local ∷ [])

  write_or_count-Adds :
      (local : A) (run : Push A) (found : Option A)
      → Adds run.rows local (write_or_count t local run found).rows
  unfolding write_or_count
  write_or_count-Adds local run none = elim (Bool-cases (t.is_refused local run.rows)) [
    | inl e ↦ inl (rw e refl)
    | inr e ↦ inr (rw e refl)
  ]
  write_or_count-Adds local run (some remote) = inl (ground arith)

  -- The server's rows stay in place, whatever happens.
  pub push_row-Adds : (local : A) (run : Push A) → Adds run.rows local (push_row t local run).rows
  unfolding push_row
  push_row-Adds local run = elim (Bool-cases run.has_failed) [
    | inl e ↦ inl (rw e refl)
    | inr e ↦ elim (Bool-cases (is_broken run.left)) [
      | inl b ↦ inl (ground arith)
      | inr b ↦
          let found = find (is_row t (t.id local)) run.rows in
          let same : push_row t local run ≡ write_or_count t local run found = ground arith in
          rw same (write_or_count-Adds local run found)
    ]
  ]

  push_row-Grows : (local : A) (run : Push A) → Grows run.rows (push_row t local run).rows
  push_row-Grows local run = elim (push_row-Adds local run) [
    | inl e ↦ ([], e ∙ sym (append-nil run.rows))
    | inr e ↦ (t.stored local ∷ [], e)
  ]

  pub push_rows-Grows :
      (locals : List A) (run : Push A) → Grows run.rows (push_rows t locals run).rows
  unfolding push_rows
  push_rows-Grows [] run = ([], rw append-nil refl)
  push_rows-Grows (local ∷ rest) run =
      let (first, e) = push_row-Grows local run in
      let (others, f) = push_rows-Grows rest (push_row t local run) in
      (first ++ others, f ∙ ap (◌++ others) e ∙ append_assoc run.rows first others)

  -- A local row that the server has, or that it does not refuse, does not stop a push.
  abbrev pub Goes : List A → A → Type 0
  Goes rows local = ((find (is_row t (t.id local)) rows ≢ none) ⊎ (t.is_refused local rows ≡ false))

  -- Each of the rows goes, whatever the push of those before it has added.
  abbrev pub AllGo : List A → List A → Type 0
  AllGo rows [] = Unit
  AllGo rows (local ∷ rest) =
      Goes rows local × ((after : List A) → Adds rows local after → AllGo after rest)

  write_or_count-goes :
      (local : A) (run : Push A) (found : Option A)
      → run.has_failed ≡ false
      → run.left ≡ none
      → (found ≢ none) ⊎ (t.is_refused local run.rows ≡ false)
      → ((write_or_count t local run found).has_failed ≡ false)
        × ((write_or_count t local run found).left ≡ none)
  unfolding write_or_count
  write_or_count-goes local run none s l (inl g) = absurd (g refl)
  write_or_count-goes local run none s l (inr g) = rw (g, l) (s, refl)
  write_or_count-goes local run (some remote) s l g = ground arith

  push_row-Goes :
      (local : A) (run : Push A)
      → run.has_failed ≡ false
      → run.left ≡ none
      → Goes run.rows local
      → ((push_row t local run).has_failed ≡ false) × ((push_row t local run).left ≡ none)
  unfolding push_row
  push_row-Goes local run s l g =
      let found = find (is_row t (t.id local)) run.rows in
      let unbroken : is_broken run.left ≡ false = rw l refl in
      let same : push_row t local run ≡ write_or_count t local run found = ground arith in
      rw same (write_or_count-goes local run found s l g)

  -- An unbroken push of such rows does not throw.
  pub push_rows-AllGo :
      (locals : List A) (run : Push A)
      → run.has_failed ≡ false
      → run.left ≡ none
      → AllGo run.rows locals
      → ((push_rows t locals run).has_failed ≡ false) × ((push_rows t locals run).left ≡ none)
  unfolding push_rows
  push_rows-AllGo [] run s l g = (s, l)
  push_rows-AllGo (local ∷ rest) run s l g =
      let (s', l') = push_row-Goes local run s l g.0 in
      push_rows-AllGo rest (push_row t local run) s' l'
        (g.1 (push_row t local run).rows (push_row-Adds local run))

  find-grown :
      (rows more : List A) (id : String)
      → find (is_row t id) rows ≢ none
      → find (is_row t id) (rows ++ more) ≢ none
  unfolding find
  find-grown [] more id h = absurd (h refl)
  find-grown (row ∷ rows) more id h = elim (Bool-cases (str_eq (t.id row) id)) [
    | inl e ↦ rw e (λ q. cc)
    | inr e ↦ rw e (find-grown rows more id (rw e at h))
  ]

  -- A row that the server has stays there.
  pub found-Adds :
      (rows after : List A) (x y : A)
      → Adds rows x after
      → find (is_row t (t.id y)) rows ≢ none
      → find (is_row t (t.id y)) after ≢ none
  found-Adds rows after x y (inl e) h = rw e h
  found-Adds rows after x y (inr e) h = rw e (find-grown rows (t.stored x ∷ []) (t.id y) h)

  -- Rows that the server has go.
  pub found-AllGo :
      (locals rows : List A)
      → All (λ (x : A). find (is_row t (t.id x)) rows ≢ none) locals
      → AllGo rows locals
  found-AllGo [] rows h = tt
  found-AllGo (local ∷ rest) rows h = (
    inl h.0,
    λ after adds. found-AllGo rest after (
        All-imp (λ (x : A). find (is_row t (t.id x)) rows ≢ none)
          (λ (x : A). find (is_row t (t.id x)) after ≢ none) rest
          (λ x known. found-Adds rows after local x adds known) h.1),
  )
