-- ===== src/Imports/Counts.antt =====
-- What the writing of songs and plans adds to the tables, and how many it counts.
use church_presenter.Common.{
  ℕ, suc, ◌+◌, ◌≡◌, refl, sym, ap, ◌∙◌, List, [], ◌∷◌, ◌++◌, arith, length, length-append,
  Bool-cases, Option-cases, inl, inr,
}
use church_presenter.Common.Outcome.{Outcome, done, ◌>>=◌-done, Outcome-cases}
use church_presenter.Sync.{Tables, is_plan_date_taken}
use church_presenter.Sync.Merge.{Grows}
use church_presenter.Imports.{Calendar, NormalizedSong, NormalizedPlan, DatabaseError, ImportError}
use church_presenter.Imports.Write.{
  Draws, normalize_date_to_midnight, create_blocks, create_song_with_blocks, create_items,
  create_plan_on, create_plan_with_items, new_song, new_plan,
}
use church_presenter.Imports.Merge.{create_all, create_each}
use mathlib.Core.List.{append-nil, append_assoc}

-- Rows were added after those that were there: `n` songs and `m` plans.
pub record Added (n m : ℕ) (before after : Tables) : Type 0 where
  pub songs : Grows before.songs after.songs
  pub plans : Grows before.plans after.plans
  pub song_count : length after.songs ≡ length before.songs + n
  pub plan_count : length after.plans ≡ length before.plans + m

Grows-refl : {A : Type 0} (rows : List A) → Grows rows rows
Grows-refl rows = ([], sym (append-nil rows))

Grows-trans : {A : Type 0} (a b c : List A) → Grows a b → Grows b c → Grows a c
Grows-trans a b c (more, e) (others, f) =
    (more ++ others, f ∙ ap (◌++ others) e ∙ append_assoc a more others)

pub Added-refl : (t : Tables) → Added 0 0 t t
Added-refl t = record {
  songs = Grows-refl t.songs;
  plans = Grows-refl t.plans;
  song_count = omega arith;
  plan_count = omega arith;
}

pub Added-trans :
    (n m n' m' i j : ℕ) (a b c : Tables)
    → Added n m a b
    → Added n' m' b c
    → i ≡ n + n'
    → j ≡ m + m'
    → Added i j a c
Added-trans n m n' m' i j a b c p q e f = record {
  songs = Grows-trans a.songs b.songs c.songs p.songs q.songs;
  plans = Grows-trans a.plans b.plans c.plans p.plans q.plans;
  song_count = omega (arith, p.song_count, q.song_count);
  plan_count = omega (arith, p.plan_count, q.plan_count);
}

create_song_with_blocks-Added :
    (draws : Draws) (n : ℕ) (s : NormalizedSong) (t after : Tables)
    → create_song_with_blocks draws n s t ≡ done after
    → Added 1 0 t after
unfolding create_song_with_blocks
create_song_with_blocks-Added draws n s t after h =
    let (blocks, e, f) = ◌>>=◌-done (create_blocks s.blocks []) _ h in
    let same : record t { songs = t.songs ++ new_song draws n s blocks ∷ [] } ≡ after = cc f in
    rw (sym same) (record {
      songs = (new_song draws n s blocks ∷ [], refl);
      plans = Grows-refl t.plans;
      song_count = length-append t.songs (new_song draws n s blocks ∷ []);
      plan_count = omega arith;
    })

create_plan_on-Added :
    (draws : Draws) (n : ℕ) (p : NormalizedPlan) (date : ℕ) (t after : Tables)
    → create_plan_on draws n p date t ≡ done after
    → Added 0 1 t after
unfolding create_plan_on
create_plan_on-Added draws n p date t after h =
    elim (Bool-cases (is_plan_date_taken date t.plans)) [
      | inl e ↦ cc (rw e at h)
      | inr e ↦
          let (items, g, f) = ◌>>=◌-done (create_items draws n 0 p.items []) _ (rw e at h) in
          let row = new_plan draws n p date items in
          let same : record t { plans = t.plans ++ row ∷ [] } ≡ after = cc f in
          rw (sym same) (record {
            songs = Grows-refl t.songs;
            plans = (row ∷ [], refl);
            song_count = omega arith;
            plan_count = length-append t.plans (row ∷ []);
          })
    ]

create_plan_with_items-Added :
    (calendar : Calendar) (draws : Draws) (n : ℕ) (p : NormalizedPlan) (t after : Tables)
    → create_plan_with_items calendar draws n p t ≡ done after
    → Added 0 1 t after
unfolding create_plan_with_items
create_plan_with_items-Added calendar draws n p t after h =
    elim (Option-cases (normalize_date_to_midnight calendar p.date)) [
      | inl e ↦ cc (rw (e, create_plan_with_items) at h)
      | inr (date, e) ↦
          create_plan_on-Added draws n p date t after (rw (e, create_plan_with_items) at h)
    ]

-- The loops, for a relation that counts the steps.
module _ {A : Type 0} (create : ℕ → A → Tables → Outcome DatabaseError Tables)
    (R : ℕ → Tables → Tables → Type 0) (still : (t : Tables) → R 0 t t)
    (step : (n k : ℕ) (a : A) (t mid no_properties : Tables)
      → create n a t ≡ done mid
      → R k mid no_properties
      → R (suc k) t no_properties) where
  pub create_all-counts :
      (n : ℕ) (entries : List A) (t no_properties : Tables)
      → create_all create n entries t ≡ done no_properties
      → R (length entries) t no_properties
  unfolding create_all
  create_all-counts n [] t no_properties h =
      let same : t ≡ no_properties = cc h in rw (sym same) (still t)
  create_all-counts n (a ∷ rest) t no_properties h =
      let (mid, e, f) = ◌>>=◌-done (create n a t) _ h in
      step n (length rest) a t mid no_properties e
        (create_all-counts (suc n) rest mid no_properties f)

  pub create_each-counts :
      (error : A → DatabaseError → ImportError) (n : ℕ) (entries : List A) (t : Tables)
      → R (create_each create error n entries t).1 t (create_each create error n entries t).0
  unfolding create_each
  create_each-counts error n [] t = still t
  create_each-counts error n (a ∷ rest) t = elim (Outcome-cases (create n a t)) [
    | inl (why, e) ↦ rw (e, create_each) (create_each-counts error (suc n) rest t)
    | inr (mid, e) ↦
        rw (e, create_each)
          (step n (create_each create error (suc n) rest mid).1 a t mid
            (create_each create error (suc n) rest mid).0 e
            (create_each-counts error (suc n) rest mid))
  ]

pub songs_step :
    (draws : Draws) (n k : ℕ) (s : NormalizedSong) (t mid no_properties : Tables)
    → create_song_with_blocks draws n s t ≡ done mid
    → Added k 0 mid no_properties
    → Added (suc k) 0 t no_properties
songs_step draws n k s t mid no_properties e r =
    Added-trans 1 0 k 0 (suc k) 0 t mid no_properties
      (create_song_with_blocks-Added draws n s t mid e) r (omega arith) (omega arith)

pub plans_step :
    (calendar : Calendar) (draws : Draws) (n k : ℕ) (p : NormalizedPlan)
    (t mid no_properties : Tables)
    → create_plan_with_items calendar draws n p t ≡ done mid
    → Added 0 k mid no_properties
    → Added 0 (suc k) t no_properties
plans_step calendar draws n k p t mid no_properties e r =
    Added-trans 0 1 0 k 0 (suc k) t mid no_properties
      (create_plan_with_items-Added calendar draws n p t mid e) r (omega arith) (omega arith)
