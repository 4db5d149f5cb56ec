-- ===== src/Imports/RoundTrip.antt =====
-- A file with all data that is exported from one database and imported into another.
use church_presenter.Common.{
  ℕ, suc, pos, ◌≡◌, refl, ap, false, none, List, [], ◌∷◌, map, any, length, All,
}
use church_presenter.Common.Texts.{trim}
use church_presenter.Common.Outcome.{done}
use church_presenter.Json.{Value, arr, get, has, array}
use church_presenter.RuntimeValidation.Names.{replace}
use church_presenter.RuntimeValidation.Plans.{ImportPayload, parse_data_import_payload}
use church_presenter.Plans.{Item}
use church_presenter.Sync.{PlanRow, Tables, is_plan_date_taken}
use church_presenter.Imports.{Calendar, as_string_like}
use church_presenter.Imports.Write.{Draws}
use church_presenter.Imports.Merge.{create_data, imported, import_replace}
use church_presenter.Imports.Files.{
  chosen, migrate_fields, migrate_imported_data_payload, import_value, import_all,
}
use church_presenter.Imports.Export.{song_value, plan_value, live_songs, live_plans, export_value}
use church_presenter.Imports.Songs.{IsPortableSong, song_content, normalize_songs-values}
use church_presenter.Imports.Restored.{restored_songs, create_songs, restored_songs-content}
use church_presenter.Imports.Plans.{
  IsPortablePlan, plan_content, carried, read_plan, normalize_plans-values,
}
use church_presenter.Imports.Rows.{
  restored_items, AreDatesDistinct, restored_plans, create_plans, restored_plans-content,
}

-- The tables can be carried over by a file: see IsPortableSong and IsPortablePlan for what is not deleted.
pub record IsPortable (calendar : Calendar) (t : Tables) : Type 0 where
  pub songs : All IsPortableSong (live_songs t)
  pub plans : All (IsPortablePlan calendar) (live_plans t)
  pub dates : AreDatesDistinct (live_plans t)

length-map : {A B : Type 0} (f : A → B) (xs : List A) → length (map f xs) ≡ length xs
length-map f [] = refl
length-map f (x ∷ xs) = ap suc (length-map f xs)

no_songs_in_items :
    (draws : Draws) (n k : ℕ) (items : List Item)
    → All (λ (it : Item). it.song_id ≡ none) (restored_items draws n k items)
unfolding restored_items
no_songs_in_items draws n k [] = tt
no_songs_in_items draws n k (it ∷ rest) = (refl, no_songs_in_items draws n (suc k) rest)

-- No item of the plans names a song in the column songId.
abbrev pub NameNoSong : List PlanRow → Type 0
NameNoSong plans = All (λ (p : PlanRow). All (λ (it : Item). it.song_id ≡ none) p.items) plans

module _ (calendar : Calendar) (draws : Draws) where
  restored_plans-NameNoSong :
      (n : ℕ) (plans : List PlanRow) → NameNoSong (restored_plans calendar draws n plans)
  unfolding restored_plans
  restored_plans-NameNoSong n [] = tt
  restored_plans-NameNoSong n (p ∷ rest) =
      (no_songs_in_items draws n 0 p.items, restored_plans-NameNoSong (suc n) rest)

  free_at_first :
      (plans : List PlanRow)
      → All (λ (q : PlanRow). is_plan_date_taken q.plan.date [] ≡ false) plans
  unfolding any
  free_at_first [] = tt
  free_at_first (p ∷ rest) = (refl, free_at_first rest)

  -- The rows that an import of the exported tables writes.
  restored : Tables → Tables
  restored source = record {
    songs = restored_songs draws 0 (live_songs source);
    plans = restored_plans calendar draws 0 (live_plans source);
  }

  create_data-restored :
      (source : Tables)
      → IsPortable calendar source
      → create_data calendar draws
          (map song_content (live_songs source))
          (map (read_plan calendar) (live_plans source))
          (record { songs = []; plans = [] })
        ≡ done (restored source)
  unfolding create_data restored
  create_data-restored source h =
      rw (create_songs draws 0 (live_songs source) (record { songs = []; plans = [] }) h.songs) (
        create_plans calendar draws 0 (live_plans source) _ h.plans h.dates
          (free_at_first (live_plans source)))

module _ (calendar : Calendar) (source : Tables) where
  abbrev file_songs : Value
  file_songs = arr (array (map song_value (live_songs source)))

  abbrev file_plans : Value
  file_plans = arr (array (map (plan_value calendar) (live_plans source)))

  migrate-export_value :
      migrate_imported_data_payload (export_value calendar source)
      ≡ done
          (record { songs = file_songs; plans = file_plans; schema_version = pos 2; warnings = [] })
  unfolding migrate_imported_data_payload migrate_fields export_value as_string_like get has trim
  migrate-export_value = refl

module _ (calendar : Calendar) (draws : Draws) (raw : Value) (options : ImportPayload)
    (parsed : parse_data_import_payload raw ≡ done options) (mode : options.mode ≡ replace)
    (source target : Tables) (portable : IsPortable calendar source) where
  import_restored :
      import_all calendar draws false raw (chosen (export_value calendar source)) target ≡ (
        restored calendar draws source,
        imported false
            (record { songs = length (live_songs source); plans = length (live_plans source) })
            [],
      )
  unfolding import_all import_value import_replace
  import_restored =
      rw (parsed, import_all)
        (rw (migrate-export_value calendar source, import_value)
          (rw
            (
              normalize_songs-values (live_songs source) portable.songs,
              normalize_plans-values calendar (live_plans source) portable.plans,
              mode,
              create_data-restored calendar draws source portable,
              length-map song_content (live_songs source),
              length-map (read_plan calendar) (live_plans source),
            )
            refl))

  -- If the data of a database is exported and the file is imported, in the mode REPLACE, into any database, the
  -- import succeeds in full, and the songs and plans that were not deleted are there again, in their order, with all
  -- that is no id and no time, except that no item names its song in songId any more, a plan without a title has the
  -- title "Culte" and an item of an unknown kind is an ANNOUNCEMENT_TEXT. The copy of the database file
  -- must succeed, the texts must have no white space at their ends, the blocks and items must be listed by their
  -- different orders, which are at least 1, a date must be read back as it is written, and no two plans are of one
  -- day.
  pub import_all-export_value :
      let (after, result) =
        import_all calendar draws false raw (chosen (export_value calendar source)) target in
      (map song_content after.songs ≡ map song_content (live_songs source))
      × (map plan_content after.plans ≡ map carried (map plan_content (live_plans source)))
      × NameNoSong after.plans
      × (result
          ≡ imported false
              (record { songs = length (live_songs source); plans = length (live_plans source) })
              [])
  unfolding restored
  import_all-export_value = rw import_restored (
    restored_songs-content draws 0 (live_songs source) portable.songs,
    restored_plans-content calendar draws 0 (live_plans source),
    restored_plans-NameNoSong calendar draws 0 (live_plans source),
    refl,
  )
