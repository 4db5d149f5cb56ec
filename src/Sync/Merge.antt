-- ===== src/Sync/Merge.antt =====
-- What a push leaves on the server, and a pull in the local tables.
use church_presenter.Common.{
  ◌+◌, String, ◌≡◌, ◌≢◌, refl, sym, ap, ◌∙◌, inl, inr, Bool, true, false, not, Option, none, some,
  is_some, List, [], ◌∷◌, ◌++◌, map, str_eq, arith, ltb, All, find, keep, count, Bool-cases,
  append_one, keep_cong, count_cong, In, All-In, if◌then◌else◌,
}
use church_presenter.Common.Texts.{str_eq-false}
use church_presenter.Songs.{Song}
use church_presenter.Sync.{
  PlanRow, Tables, Push, Table, is_row, is_broken, write_or_count, push_row, push_rows,
  insert_songs, insert_plans, replace_all,
}
use mathlib.Core.List.{append-nil}

-- The rows, with others after them.
abbrev pub Grows : {A : Type 0} → List A → List A → Type 0
Grows {A} rows after = (more : List A) × (after ≡ rows ++ more)

module _ {A : Type 0} (t : Table A) where
  -- No two rows have one id.
  abbrev pub AreDistinct : List A → Type 0
  AreDistinct [] = Unit
  AreDistinct (row ∷ rest) = All (λ (other : A). t.id row ≢ t.id other) rest × AreDistinct rest

  pub same_row :
      (rows : List A) (x y : A) → AreDistinct rows → In x rows → In y rows → t.id x ≡ t.id y → x ≡ y
  same_row [] x y d i j e = absurd (i refl)
  same_row (row ∷ rest) x y d (inl i) (inl j) e = i ∙ sym j
  same_row (row ∷ rest) x y d (inl i) (inr j) e =
      absurd
        (All-In (λ (other : A). t.id row ≢ t.id other) rest d.0 j (ap (λ r. t.id r) (sym i) ∙ e))
  same_row (row ∷ rest) x y d (inr i) (inl j) e =
      absurd (
        All-In (λ (other : A). t.id row ≢ t.id other) rest d.0 i (ap (λ r. t.id r) (sym j) ∙ sym e))
  same_row (row ∷ rest) x y d (inr i) (inr j) e = same_row rest x y d.1 i j e

  -- The server has no row of the id.
  abbrev pub is_new : List A → A → Bool
  is_new rows local = not (is_some (find (is_row t (t.id local)) rows))

  abbrev older : A → Option A → Bool
  older local none = false
  older local (some remote) = ltb (t.updated_at remote) (t.updated_at local)

  -- The server has an older row of the id.
  abbrev pub is_conflict : List A → A → Bool
  is_conflict rows local = older local (find (is_row t (t.id local)) rows)

  pub push_rows-failed :
      (locals : List A) (run : Push A) → run.has_failed ≡ true → push_rows t locals run ≡ run
  unfolding push_rows push_row
  push_rows-failed [] run h = refl
  push_rows-failed (local ∷ rest) run h =
      let same : push_row t local run ≡ run = rw h refl in rw same (push_rows-failed rest run h)

  pub push_rows-started :
      (locals : List A) (run : Push A)
      → (push_rows t locals run).has_failed ≡ false
      → run.has_failed ≡ false
  push_rows-started locals run h = elim (Bool-cases run.has_failed) [
    | inl e ↦ cc (rw (push_rows-failed locals run e) at h)
    | inr e ↦ e
  ]

  -- A round that has not failed writes a new row, or leaves the rows and counts a conflict.
  abbrev Round : A → Push A → Option A → Push A → Type 0
  Round local run found after =
      (run.has_failed ≡ false)
      × (after.rows ≡ run.rows ++ (if is_some found then [] else t.stored local ∷ []))
      × (after.overwritten ≡ run.overwritten + (if older local found then 1 else 0))

  write_or_count-Round :
      (local : A) (run : Push A) (found : Option A)
      → run.has_failed ≡ false
      → (write_or_count t local run found).has_failed ≡ false
      → Round local run found (write_or_count t local run found)
  unfolding write_or_count
  write_or_count-Round local run none s h = (s, ground arith, ground arith)
  write_or_count-Round local run (some remote) s h = (s, rw append-nil (ground arith), ground arith)

  push_row-Round :
      (local : A) (run : Push A)
      → (push_row t local run).has_failed ≡ false
      → Round local run (find (is_row t (t.id local)) run.rows) (push_row t local run)
  unfolding push_row
  push_row-Round local run h = elim (Bool-cases run.has_failed) [
    | inl e ↦ cc (rw e at h)
    | inr e ↦ elim (Bool-cases (is_broken run.left)) [
      | inl b ↦ cc (rw (e, b) at h)
      | inr b ↦
          let found = find (is_row t (t.id local)) run.rows in
          let same : push_row t local run ≡ write_or_count t local run found = ground arith in
          rw same (write_or_count-Round local run found e (rw same at h))
    ]
  ]

  pub find-append :
      (rows : List A) (row : A) (id : String)
      → t.id row ≢ id
      → find (is_row t id) (rows ++ row ∷ []) ≡ find (is_row t id) rows
  unfolding find
  find-append [] row id ne = rw (str_eq-false (t.id row) id ne) refl
  find-append (x ∷ rows) row id ne =
      ap (λ found. if str_eq (t.id x) id then some x else found) (find-append rows row id ne)

  -- A row of another id is as new, and as much in conflict, after a round as before.
  found_after :
      (local other : A) (run : Push A)
      → ((x : A) → t.id (t.stored x) ≡ t.id x)
      → (push_row t local run).has_failed ≡ false
      → t.id local ≢ t.id other
      → find (is_row t (t.id other)) (push_row t local run).rows
        ≡ find (is_row t (t.id other)) run.rows
  found_after local other run keeps h ne =
      let round = push_row-Round local run h in
      rw round.1 (elim (Bool-cases (is_some (find (is_row t (t.id local)) run.rows))) [
        | inl e ↦ rw e (rw append-nil refl)
        | inr e ↦
            rw e
              (find-append run.rows (t.stored local) (t.id other) (λ q. ne (sym (keeps local) ∙ q)))
      ])

  joined :
      (rows : List A) (known : Bool) (local : A) (news : List A)
      → (rows ++ (if known then [] else t.stored local ∷ [])) ++ map t.stored news
        ≡ rows ++ map t.stored (if not known then local ∷ news else news)
  joined rows true local news = rw append-nil refl
  joined rows false local news = append_one rows (t.stored local) (map t.stored news)

  module _ (keeps : (x : A) → t.id (t.stored x) ≡ t.id x) where
    pub push_rows_lem :
        (locals : List A) (run : Push A)
        → AreDistinct locals
        → (push_rows t locals run).has_failed ≡ false
        → ((push_rows t locals run).rows ≡ run.rows ++ map t.stored (keep (is_new run.rows) locals))
          × ((push_rows t locals run).overwritten
              ≡ run.overwritten + count (is_conflict run.rows) locals)
    unfolding push_rows keep count
    push_rows_lem [] run d h = (rw append-nil refl, omega arith)
    push_rows_lem (local ∷ rest) run d h =
        let after = push_row t local run in
        let started = push_rows-started rest after h in
        let round = push_row-Round local run started in
        let ih = push_rows_lem rest after d.1 h in
        let same = λ (x : A) (i : In x rest).
          found_after local x run keeps started
            (All-In (λ (y : A). t.id local ≢ t.id y) rest d.0 i) in
        let news : keep (is_new after.rows) rest ≡ keep (is_new run.rows) rest =
          keep_cong (is_new after.rows) (is_new run.rows) rest
            (λ x i. ap (λ f. not (is_some f)) (same x i)) in
        let conflicts : count (is_conflict after.rows) rest ≡ count (is_conflict run.rows) rest =
          count_cong (is_conflict after.rows) (is_conflict run.rows) rest
            (λ x i. ap (older x) (same x i)) in
        (
          ih.0
              ∙ rw (news, round.1)
                  (joined run.rows (is_some (find (is_row t (t.id local)) run.rows)) local
                    (keep (is_new run.rows) rest)),
          omega (arith, ih.1, conflicts, round.2),
        )

insert_songs_lem :
    (songs : List Song) (tables : Tables)
    → insert_songs songs tables ≡ record tables { songs = tables.songs ++ songs }
unfolding insert_songs
insert_songs_lem [] tables = rw append-nil refl
insert_songs_lem (song ∷ rest) tables =
    insert_songs_lem rest (record tables { songs = tables.songs ++ song ∷ [] })
    ∙ ap (λ songs. record tables { songs = songs }) (append_one tables.songs song rest)

insert_plans_lem :
    (plans : List PlanRow) (tables : Tables)
    → insert_plans plans tables ≡ record tables { plans = tables.plans ++ plans }
unfolding insert_plans
insert_plans_lem [] tables = rw append-nil refl
insert_plans_lem (row ∷ rest) tables =
    insert_plans_lem rest (record tables { plans = tables.plans ++ row ∷ [] })
    ∙ ap (λ plans. record tables { plans = plans }) (append_one tables.plans row rest)

-- After a pull the local tables are the server's.
pub replace_all_lem : (server : Tables) → replace_all server ≡ server
unfolding replace_all
replace_all_lem server =
    ap (insert_plans server.plans)
      (insert_songs_lem server.songs (record { songs = []; plans = [] }))
    ∙ insert_plans_lem server.plans (record { songs = server.songs; plans = [] })
