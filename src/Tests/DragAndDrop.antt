-- ===== src/Tests/DragAndDrop.antt =====
-- A drag and drop among the songs of a plan.
use church_presenter.Common.{
  ℕ, String, ◌≡◌, refl, true, none, some, List, [], ◌∷◌, any, keep, length,
}
use church_presenter.Plans.{Item, ids_of, includes}
use church_presenter.Plans.Requests.{IsPermutation}
use church_presenter.DragAndDrop.{
  splice_out, splice_in, move_array, index_of, fill_visible, ordered_item_ids, by_id, numbered,
  reorder_plan_items,
}
use church_presenter.DragAndDrop.Permutation.{reorder_plan_items-IsPermutation}

abbrev item : String → ℕ → String → Item
item id n kind = record {
  id = id;
  plan_id = "sunday";
  order = n;
  kind = kind;
  title = none;
  content = none;
  notes = none;
  ref_id = none;
  ref_sub_id = none;
  song_id = none;
  media_path = none;
  secondary_content = none;
  background_config = none;
}

abbrev plan_items : List Item
plan_items = item "a" 1 "SONG_BLOCK" ∷ item "b" 2 "TIMER" ∷ item "c" 3 "SONG_BLOCK" ∷ []

abbrev song_items : List Item
song_items = item "a" 1 "SONG_BLOCK" ∷ item "c" 3 "SONG_BLOCK" ∷ []

running : Unit {0}
unfolding splice_out splice_in move_array index_of fill_visible ordered_item_ids by_id numbered
    reorder_plan_items includes any keep
running = tt

abbrev dropped : List Item
dropped = item "c" 1 "SONG_BLOCK" ∷ item "b" 2 "TIMER" ∷ item "a" 3 "SONG_BLOCK" ∷ []

songs_swapped :
    reorder_plan_items plan_items song_items true "a" "c" ≡ some ("c" ∷ "b" ∷ "a" ∷ [], dropped)
unfolding running
songs_swapped = refl

songs_visible : ids_of song_items ≡ keep (includes (ids_of song_items)) (ids_of plan_items)
unfolding running
songs_visible = refl

reorder_plan_items-IsPermutation_example :
    IsPermutation ("c" ∷ "b" ∷ "a" ∷ []) (ids_of plan_items) × (length dropped ≡ length plan_items)
reorder_plan_items-IsPermutation_example =
    reorder_plan_items-IsPermutation plan_items song_items true "a" "c" ("c" ∷ "b" ∷ "a" ∷ [])
      dropped songs_visible songs_swapped
