-- ===== src/Plans/Create/Items.antt =====
-- A new item: createPlanItemWithRetry.
use church_presenter.Common.{
  ◌+◌, ◌≤◌, String, ◌≡◌, refl, sym, ap, ◌∙◌, inl, inr, true, false, List, [], ◌∷◌, ◌++◌, eq_iff,
  arith, leb, All, In, All-intro, any, keep, Bool-cases, any-In, any-false, All-append, In-keep,
  keep-append,
}
use church_presenter.Common.Outcome.{done, thrown}
use church_presenter.Plans.{
  Item, Database, unique_constraint, AddItemPayload, has_id, in_plan, find_items, sort_by_order,
  insert_by_order, last_order,
}
use church_presenter.Plans.Rows.{Differ, IsKeyed}
use church_presenter.Common.Texts.{str_eq-true}
use church_presenter.Plans.Ranks.{IsPositive}
use church_presenter.Plans.Compact.{IsTable}
use church_presenter.Plans.Create.{
  has_plan_id, has_song, is_item_key_taken, create_item, new_item, try_create_item,
}

-- The plan and the song of the payload are there, and the id is new.
pub record IsReady (p : AddItemPayload) (id : String) (db : Database) : Type 0 where
  pub table : IsTable db.items
  pub plan : any (has_plan_id p.plan_id) db.plans ≡ true
  pub song : has_song db (new_item p id 0).song_id ≡ true
  pub fresh : any (has_id id) db.items ≡ false

append-IsKeyed :
    (xs : List Item) (x : Item) → IsKeyed xs → All (λ y. Differ y x) xs → IsKeyed (xs ++ x ∷ [])
append-IsKeyed [] x k d = (tt, tt)
append-IsKeyed (y ∷ ys) x k d = (All-append (Differ y) ys x k.0 d.0, append-IsKeyed ys x k.1 d.1)

last_order-le :
    (plan : String) (items : List Item) (x : Item)
    → In x items
    → in_plan plan x ≡ true
    → x.order ≤ last_order plan items
unfolding last_order
last_order-le plan [] x i t = absurd (i refl)
last_order-le plan (it ∷ rest) x (inl e) t = rw e (ground (arith, ap (in_plan plan) (sym e) ∙ t))
last_order-le plan (it ∷ rest) x (inr i) t = ground (arith, last_order-le plan rest x i t)

-- A written row kept the keys.
pub create_item-IsTable :
    (it : Item) (db end : Database)
    → 1 ≤ it.order
    → IsTable db.items
    → create_item it db ≡ done end
    → IsTable end.items × (end ≡ record db { items = db.items ++ it ∷ [] })
unfolding create_item is_item_key_taken
create_item-IsTable it db end l t h = elim (Bool-cases (is_item_key_taken it db.items)) [
  | inl e ↦ ground arith
  | inr e ↦
      let grown : end ≡ record db { items = db.items ++ it ∷ [] } = ground arith in
      (
        rw grown (record {
          keyed = append-IsKeyed db.items it t.keyed (
              All-intro _ db.items (λ y i.
                let free = any-In _ db.items y e i in
                record {
                  ids = ground (arith, free, eq_iff y.id it.id);
                  places = ground (arith, free, eq_iff y.plan_id it.plan_id);
                }));
          positive = All-append IsPositive db.items it t.positive l;
        }),
        grown,
      )
]

pub create_item-taken :
    (it : Item) (db : Database)
    → is_item_key_taken it db.items ≡ true
    → create_item it db ≡ thrown unique_constraint
unfolding create_item
create_item-taken it db e = rw e refl

pub create_item-free :
    (it : Item) (db : Database)
    → is_item_key_taken it db.items ≡ false
    → any (has_plan_id it.plan_id) db.plans ≡ true
    → has_song db it.song_id ≡ true
    → create_item it db ≡ done (record db { items = db.items ++ it ∷ [] })
unfolding create_item
create_item-free it db e p s = rw e (rw p (rw s refl))

abbrev pub appended : AddItemPayload → String → Database → Database
appended p id db = record db {
  items = db.items ++ new_item p id (last_order p.plan_id db.items + 1) ∷ [];
}

pub try_create_item-calm :
    (p : AddItemPayload) (id : String) (db : Database)
    → IsReady p id db
    → try_create_item (λ x. x) p id db ≡ done (appended p id db)
unfolding try_create_item create_item is_item_key_taken
try_create_item-calm p id db r =
    let free : is_item_key_taken (new_item p id (last_order p.plan_id db.items + 1)) db.items
        ≡ false =
      any-false _ db.items (λ x i.
        ground (arith, any-In _ db.items x r.fresh i, last_order-le p.plan_id db.items x i)) in
    rw free (rw r.plan (rw r.song refl))

insert-greatest :
    (row it : Item) (rows : List Item)
    → row.order ≤ it.order
    → insert_by_order row (rows ++ it ∷ []) ≡ insert_by_order row rows ++ it ∷ []
unfolding insert_by_order
insert-greatest row it [] l = ground arith
insert-greatest row it (other ∷ rows) l = elim (Bool-cases (leb row.order other.order)) [
  | inl e ↦ rw e refl
  | inr e ↦ rw e (ap (other ∷◌) (insert-greatest row it rows l))
]

sort-greatest :
    (it : Item) (rows : List Item)
    → All (λ row. row.order ≤ it.order) rows
    → sort_by_order (rows ++ it ∷ []) ≡ sort_by_order rows ++ it ∷ []
unfolding sort_by_order insert_by_order
sort-greatest it [] h = refl
sort-greatest it (row ∷ rows) h =
    ap (insert_by_order row) (sort-greatest it rows h.1)
    ∙ insert-greatest row it (sort_by_order rows) h.0

pub find_items-appended :
    (p : AddItemPayload) (id : String) (db : Database)
    → find_items p.plan_id (appended p id db).items
      ≡ find_items p.plan_id db.items ++ new_item p id (last_order p.plan_id db.items + 1) ∷ []
unfolding find_items
find_items-appended p id db =
    let it = new_item p id (last_order p.plan_id db.items + 1) in
    ap sort_by_order
      (keep-append (in_plan p.plan_id) db.items it (str_eq-true p.plan_id p.plan_id refl))
    ∙ sort-greatest it (keep (in_plan p.plan_id) db.items) (
        All-intro _ (keep (in_plan p.plan_id) db.items) (λ x i.
          let j = In-keep (in_plan p.plan_id) db.items i in
          omega (arith, last_order-le p.plan_id db.items x j.0 j.1)))
