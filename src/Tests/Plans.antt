-- ===== src/Tests/Plans.antt =====
-- Runs on plans and their items.
use church_presenter.Common.{
  ℕ, zero, suc, ◌+◌, ◌<◌, String, ◌≡◌, ◌≢◌, ◌⊎◌, ◌↔◌, inl, inr, refl, true, false, not, ◌&&◌, none,
  some, List, [], ◌∷◌, ◌++◌, arith, In, any, find, All-In, str_eq, keep, count, All, if◌then◌else◌,
}
use church_presenter.Common.Outcome.{done, thrown}
use church_presenter.PlanKinds.{announcement_text, kind_name}
use church_presenter.Plans.{
  Item, Plan, Database, AddItemPayload, in_plan, has_id, includes, ids_of, find_items,
  sort_by_order, insert_by_order, is_order_taken, update_order, update_orders, renumber,
  remove_item, remove_items, is_distinct, all_included, validate_plan_reorder_payload, reorder,
  last_order, other_plan, unique_constraint,
}
use church_presenter.Common.Texts.{str_ne}
use church_presenter.Plans.Ranks.{rank}
use church_presenter.Plans.Renumber.{compacted}
use church_presenter.Plans.Compact.{IsTable, IsCompact}
use church_presenter.Plans.Remove.{
  without, remove_item-without, remove_items-without, remove_items-IsCompact,
}
use church_presenter.Plans.Reorder.{reorder-refused}
use church_presenter.Plans.Requests.{IsPermutation, validate_plan_reorder_payload-IsPermutation}
use church_presenter.Plans.Create.{
  has_plan_id, has_song, new_item, new_plan, create_plan, create_plan_item_with_retry,
  duplicate_plan, max_date_retries, text_or,
}
use church_presenter.Plans.Create.Items.{IsReady, appended}
use church_presenter.Plans.Create.Retry.{
  create_plan_item_with_retry-alone, create_plan_item_with_retry-writes,
}
use church_presenter.Plans.Create.Dates.{IsFirstFree, create_plan-IsFirstFree}
use church_presenter.Plans.Create.Copies.{
  IsCopyable, copies, duplicated, duplicate_plan-IsFirstFree,
}
use church_presenter.Plans.Commands.{
  PlanCommand, add_item, drop_item, reorder_items, delete_one, plan_commands,
}
use church_presenter.Plans.Commands.Keys.{plan_commands-IsTable}

abbrev row : String → String → ℕ → Item
row id plan n = record {
  id = id;
  plan_id = plan;
  order = n;
  kind = "TIMER";
  title = none;
  content = none;
  notes = none;
  ref_id = none;
  ref_sub_id = none;
  song_id = none;
  media_path = none;
  secondary_content = none;
  background_config = none;
}

abbrev rows : List Item
rows = row "a" "sunday" 1 ∷ row "b" "sunday" 2 ∷ row "x" "monday" 1 ∷ row "c" "sunday" 3 ∷ []

rows-IsTable : IsTable rows
rows-IsTable = record {
  keyed = (
    (
      record { ids = str_ne _ _ refl; places = inr (ground arith) },
      (
        record { ids = str_ne _ _ refl; places = inl (str_ne _ _ refl) },
        (record { ids = str_ne _ _ refl; places = inr (ground arith) }, tt),
      ),
    ),
    (
      (
        record { ids = str_ne _ _ refl; places = inl (str_ne _ _ refl) },
        (record { ids = str_ne _ _ refl; places = inr (ground arith) }, tt),
      ),
      ((record { ids = str_ne _ _ refl; places = inl (str_ne _ _ refl) }, tt), (tt, tt)),
    ),
  );
  positive = omega arith;
}

running : Unit {0}
unfolding remove_item remove_items renumber update_orders update_order is_order_taken find_items
    sort_by_order insert_by_order includes is_distinct all_included validate_plan_reorder_payload
    reorder last_order any find keep count compacted rank
running = tt

removed_b :
    remove_item "sunday" "b" rows
    ≡ done (row "a" "sunday" 1 ∷ row "x" "monday" 1 ∷ row "c" "sunday" 2 ∷ [])
unfolding running
removed_b = refl

remove_item-without_example :
    (remove_item "sunday" "b" rows ≡ done rows × (find (has_id "b") rows ≡ none))
    ⊎ ((it : Item) × In it rows
        × (it.id ≡ "b")
        × (remove_item "sunday" "b" rows ≡ (
            if in_plan "sunday" it
            then done (without "sunday" (has_id "b") rows)
            else thrown other_plan)))
remove_item-without_example = remove_item-without "sunday" "b" rows rows-IsTable

removed_two :
    remove_items "sunday" ("a" ∷ "c" ∷ []) rows
    ≡ done (row "b" "sunday" 1 ∷ row "x" "monday" 1 ∷ [])
unfolding running
removed_two = refl

remove_items-without_example : remove_items "sunday" ("a" ∷ "x" ∷ []) rows ≡ (
    if any (λ it. includes ("a" ∷ "x" ∷ []) it.id && not (in_plan "sunday" it)) rows
    then thrown other_plan
    else done (without "sunday" (λ it. includes ("a" ∷ "x" ∷ []) it.id) rows))
remove_items-without_example = remove_items-without "sunday" ("a" ∷ "x" ∷ []) rows rows-IsTable

remove_items-IsCompact_example : IsCompact "sunday" (row "b" "sunday" 1 ∷ row "x" "monday" 1 ∷ [])
remove_items-IsCompact_example =
    remove_items-IsCompact "sunday" ("a" ∷ "c" ∷ []) rows
      (row "b" "sunday" 1 ∷ row "x" "monday" 1 ∷ []) rows-IsTable (λ e. cc) removed_two

rows-IsCompact : IsCompact "sunday" rows
unfolding running
rows-IsCompact = (λ e. refl, (λ e. refl, (λ e. cc, (λ e. refl, tt))))

swap_valid :
    validate_plan_reorder_payload (ids_of (find_items "sunday" rows)) ("b" ∷ "a" ∷ "c" ∷ [])
    ≡ done tt
unfolding running
swap_valid = refl

reorder-refused_example :
    (("b" ∷ "a" ∷ "c" ∷ [] ≡ ids_of (find_items "sunday" rows))
      × (reorder "sunday" ("b" ∷ "a" ∷ "c" ∷ []) rows ≡ done rows))
    ⊎ (("b" ∷ "a" ∷ "c" ∷ [] ≢ ids_of (find_items "sunday" rows))
        × (reorder "sunday" ("b" ∷ "a" ∷ "c" ∷ []) rows ≡ thrown unique_constraint))
reorder-refused_example =
    reorder-refused "sunday" rows ("b" ∷ "a" ∷ "c" ∷ []) rows-IsTable rows-IsCompact swap_valid

abc_distinct : is_distinct ("a" ∷ "b" ∷ "c" ∷ []) ≡ true
unfolding running
abc_distinct = refl

validate_plan_reorder_payload-IsPermutation_example :
    (validate_plan_reorder_payload ("a" ∷ "b" ∷ "c" ∷ []) ("b" ∷ "a" ∷ "c" ∷ []) ≡ done tt)
    ↔ IsPermutation ("b" ∷ "a" ∷ "c" ∷ []) ("a" ∷ "b" ∷ "c" ∷ [])
validate_plan_reorder_payload-IsPermutation_example =
    validate_plan_reorder_payload-IsPermutation ("a" ∷ "b" ∷ "c" ∷ []) ("b" ∷ "a" ∷ "c" ∷ [])
      abc_distinct

swap_refused : reorder "sunday" ("b" ∷ "a" ∷ "c" ∷ []) rows ≡ thrown unique_constraint
unfolding running
swap_refused = refl

abbrev sunday : Plan
sunday = new_plan "sunday" (some "Culte") none 7

abbrev monday : Plan
monday = new_plan "monday" none none 8

abbrev base : Database
base = record { plans = sunday ∷ monday ∷ []; items = rows; songs = [] }

abbrev verse : AddItemPayload
verse = record {
  plan_id = "sunday";
  kind = announcement_text;
  title = some "Accueil";
  content = none;
  notes = none;
  ref_id = none;
  ref_sub_id = none;
  media_path = none;
  secondary_content = none;
  background_config = none;
}

-- The client draws "d", and then another id.
abbrev draws : ℕ → String
draws zero = "d"
draws (suc n) = "e"

base-IsReady : (k : ℕ) → IsReady verse (draws k) base
unfolding any kind_name
base-IsReady zero = record { table = rows-IsTable; plan = refl; song = refl; fresh = refl }
base-IsReady (suc k) = record { table = rows-IsTable; plan = refl; song = refl; fresh = refl }

create_plan_item_with_retry-alone_example :
    let end = appended verse "d" base in
    (create_plan_item_with_retry (λ n x. x) verse draws 20 0 base ≡ done end)
    × IsTable end.items
    × (find_items "sunday" end.items
        ≡ find_items "sunday" rows ++ new_item verse "d" (last_order "sunday" rows + 1) ∷ [])
create_plan_item_with_retry-alone_example =
    create_plan_item_with_retry-alone verse draws 19 base (base-IsReady 0)

-- Another writer adds a song in the first attempt.
abbrev other_writer : ℕ → Database → Database
other_writer zero db = record db { songs = "psaume" ∷ db.songs }
other_writer (suc n) db = db

other_writer-IsReady :
    (m : ℕ) (x : Database)
    → ((k : ℕ) → IsReady verse (draws k) x)
    → (k : ℕ) → IsReady verse (draws k) (other_writer m x)
unfolding kind_name
other_writer-IsReady zero x r k = record {
  table = (r k).table;
  plan = (r k).plan;
  song = refl;
  fresh = (r k).fresh;
}
other_writer-IsReady (suc n) x r k = r k

create_plan_item_with_retry-writes_example :
    (end : Database) × (attempt : ℕ) × (order : ℕ) × (create_plan_item_with_retry other_writer verse
        draws 20 0 base
      ≡ done end)
    × IsTable end.items
    × In (new_item verse (draws attempt) order) end.items
create_plan_item_with_retry-writes_example =
    create_plan_item_with_retry-writes other_writer verse draws 20 0 1 base other_writer-IsReady
      (λ x. refl) (omega arith) base-IsReady

week_fresh : any (has_plan_id "next") base.plans ≡ false
unfolding any
week_fresh = refl

create_plan-IsFirstFree_example :
    (free : ℕ) × IsFirstFree base.plans 7 free
    × (create_plan none "next" max_date_retries 7 base
        ≡ done
            (record base { plans = base.plans ++ new_plan "next" (some "Culte") none free ∷ [] }))
create_plan-IsFirstFree_example =
    create_plan-IsFirstFree none "next" 7 base week_fresh (omega arith)

abbrev copy_id : ℕ → String
copy_id zero = "k"
copy_id (suc zero) = "l"
copy_id (suc (suc n)) = "m"

copy_id_distinct : (m n : ℕ) → m < 3 → n < 3 → copy_id m ≡ copy_id n → m ≡ n
copy_id_distinct zero zero a b e = refl
copy_id_distinct zero (suc zero) a b e = absurd (str_ne "k" "l" refl e)
copy_id_distinct zero (suc (suc n)) a b e = absurd (str_ne "k" "m" refl e)
copy_id_distinct (suc zero) zero a b e = absurd (str_ne "l" "k" refl e)
copy_id_distinct (suc zero) (suc zero) a b e = refl
copy_id_distinct (suc zero) (suc (suc n)) a b e = absurd (str_ne "l" "m" refl e)
copy_id_distinct (suc (suc m)) zero a b e = absurd (str_ne "m" "k" refl e)
copy_id_distinct (suc (suc m)) (suc zero) a b e = absurd (str_ne "m" "l" refl e)
copy_id_distinct (suc (suc m)) (suc (suc n)) a b e = omega (arith, a, b)

-- The rows have ids of their own.
copy_id_new : All (λ x. (m : ℕ) → x.id ≢ copy_id m) rows
copy_id_new = (
  differs "a" refl refl refl,
  (differs "b" refl refl refl, (differs "x" refl refl refl, (differs "c" refl refl refl, tt))),
)
  where
    differs :
        (s : String)
        → str_eq s "k" ≡ false
        → str_eq s "l" ≡ false
        → str_eq s "m" ≡ false
        → (m : ℕ) → s ≢ copy_id m
    differs s k l m zero = str_ne s "k" k
    differs s k l m (suc zero) = str_ne s "l" l
    differs s k l m (suc (suc n)) = str_ne s "m" m

base-IsCopyable : IsCopyable "sunday" "next" copy_id base
unfolding running
base-IsCopyable = record {
  table = rows-IsTable;
  distinct = copy_id_distinct;
  new_ids = λ x m i l. All-In (λ y. (n : ℕ) → y.id ≢ copy_id n) rows copy_id_new i m;
  no_items =
      λ x i. All-In (λ y. in_plan "next" y ≡ false) rows (refl, (refl, (refl, (refl, tt)))) i;
  new_plan_id = refl;
  songs = λ x i e.
      All-In (λ y. has_song base y.song_id ≡ true) rows (refl, (refl, (refl, (refl, tt)))) i;
}

sunday_found : find (has_plan_id "sunday") base.plans ≡ some sunday
unfolding find
sunday_found = refl

duplicate_plan-IsFirstFree_example :
    (free : ℕ) × IsFirstFree base.plans 7 free
    × (duplicate_plan "sunday" none none "next" copy_id base
        ≡ done (
            duplicated
              (new_plan "next" (text_or none (text_or (some "Culte") (some "Culte"))) none free)
              (copies "next" copy_id 0 (find_items "sunday" rows))
              base))
    × IsTable (rows ++ copies "next" copy_id 0 (find_items "sunday" rows))
duplicate_plan-IsFirstFree_example =
    duplicate_plan-IsFirstFree "sunday" "next" none none copy_id base sunday base-IsCopyable
      sunday_found (omega arith)

abbrev week : List PlanCommand
week =
    add_item verse draws
    ∷ drop_item "sunday" "b"
    ∷ reorder_items "sunday" ("c" ∷ "a" ∷ [])
    ∷ delete_one "monday"
    ∷ []

plan_commands-IsTable_example : IsTable (plan_commands week base).items
plan_commands-IsTable_example = plan_commands-IsTable week base rows-IsTable
