-- ===== src/Imports/Atomicity.antt =====
-- What an import reports of the tables, and what it leaves of them.
use church_presenter.Common.{
  ◌≡◌, refl, Bool, true, false, not, List, [], arith, is_empty, length, inl, inr,
}
use church_presenter.Common.Outcome.{done, thrown, ◌>>=◌-done, Outcome-cases}
use church_presenter.Json.{Value}
use church_presenter.RuntimeValidation.{Parsed}
use church_presenter.RuntimeValidation.Names.{ImportMode, merge, replace, Atomicity, entity, strict}
use church_presenter.RuntimeValidation.Plans.{ImportPayload, parse_data_import_payload}
use church_presenter.Sync.{Tables}
use church_presenter.Imports.{
  Calendar, NormalizedSong, NormalizedPlan, ImportError, normalize_songs, normalize_plans,
}
use church_presenter.Imports.Write.{Draws, create_song_with_blocks, create_plan_with_items}
use church_presenter.Imports.Merge.{
  create_all, create_each, create_data, ImportResult, imported, settle, song_error, plan_error,
  import_normalized_data_merge, import_replace,
}
use church_presenter.Imports.Files.{
  FileChoice, nothing_chosen, unreadable, chosen, migrate_imported_data_payload, write_in,
  import_value, import_choice, import_all,
}
use church_presenter.Imports.Counts.{
  Added, Added-refl, Added-trans, create_all-counts, create_each-counts, songs_step, plans_step,
}

-- What an import reports is true of the tables: `base` is what they hold when the writing starts, `before` what they
-- held at first.
abbrev pub IsReported : Tables → Tables → Tables × ImportResult → Type 0
IsReported base before (after, imported partial counts errors) =
    Added counts.songs counts.plans base after × (partial ≡ not (is_empty errors))
IsReported base before (after, _) = after ≡ before

module _ (calendar : Calendar) (draws : Draws) where
  create_data-Added :
      (songs : List NormalizedSong) (plans : List NormalizedPlan) (t no_properties : Tables)
      → create_data calendar draws songs plans t ≡ done no_properties
      → Added (length songs) (length plans) t no_properties
  unfolding create_data
  create_data-Added songs plans t no_properties h =
      let (mid, e, f) = ◌>>=◌-done (create_all (create_song_with_blocks draws) 0 songs t) _ h in
      Added-trans (length songs) 0 0 (length plans) (length songs) (length plans) t mid
        no_properties
        (create_all-counts (create_song_with_blocks draws) (λ k. Added k 0) Added-refl
          (songs_step draws) 0 songs t mid e)
        (create_all-counts (create_plan_with_items calendar draws) (λ k. Added 0 k) Added-refl
          (plans_step calendar draws) 0 plans mid no_properties f)
        (omega arith) (omega arith)

  settle-IsReported :
      (songs : List NormalizedSong) (plans : List NormalizedPlan) (errors : List ImportError)
      (base before : Tables)
      → IsReported base before (
          settle calendar draws before
            (create_data calendar draws songs plans base)
            (record { songs = length songs; plans = length plans })
            errors)
  settle-IsReported songs plans errors base before =
      elim (Outcome-cases (create_data calendar draws songs plans base)) [
        | inl (why, e) ↦ rw e refl
        | inr (no_properties, e) ↦ rw e (create_data-Added songs plans base no_properties e, refl)
      ]

  merge-IsReported :
      (songs : List NormalizedSong) (plans : List NormalizedPlan) (atomicity : Atomicity)
      (errors : List ImportError) (t : Tables)
      → IsReported t t (import_normalized_data_merge calendar draws songs plans atomicity errors t)
  unfolding import_normalized_data_merge
  merge-IsReported songs plans strict errors t = settle-IsReported songs plans errors t t
  merge-IsReported songs plans entity errors t =
      let first = create_each (create_song_with_blocks draws) song_error 0 songs t in
      let second = create_each (create_plan_with_items calendar draws) plan_error 0 plans first.0 in
      (
        Added-trans first.1 0 0 second.1 first.1 second.1 t first.0 second.0
            (create_each-counts (create_song_with_blocks draws) (λ k. Added k 0) Added-refl
              (songs_step draws) song_error 0 songs t)
            (create_each-counts (create_plan_with_items calendar draws) (λ k. Added 0 k) Added-refl
              (plans_step calendar draws) plan_error 0 plans first.0)
            (omega arith) (omega arith),
        refl,
      )

  replace-IsReported :
      (backup_fails : Bool) (songs : List NormalizedSong) (plans : List NormalizedPlan)
      (errors : List ImportError) (t : Tables)
      → IsReported
          (record { songs = []; plans = [] })
          t
          (import_replace calendar draws backup_fails songs plans errors t)
  unfolding import_replace
  replace-IsReported true songs plans errors t = refl
  replace-IsReported false songs plans errors t =
      settle-IsReported songs plans errors (record { songs = []; plans = [] }) t

-- What the tables hold when the writing starts: nothing in the mode REPLACE.
abbrev pub base_of_mode : ImportMode → Tables → Tables
base_of_mode replace t = record { songs = []; plans = [] }
base_of_mode merge t = t

abbrev pub base_of : Parsed ImportPayload → Tables → Tables
base_of (thrown why) t = t
base_of (done options) t = base_of_mode options.mode t

module _ (calendar : Calendar) (draws : Draws) (backup_fails : Bool) where
  write_in-IsReported :
      (mode : ImportMode) (atomicity : Atomicity) (songs : List NormalizedSong)
      (plans : List NormalizedPlan) (errors : List ImportError) (t : Tables)
      → IsReported
          (base_of_mode mode t)
          t
          (write_in calendar draws backup_fails mode atomicity songs plans errors t)
  write_in-IsReported replace atomicity songs plans errors t =
      replace-IsReported calendar draws backup_fails songs plans errors t
  write_in-IsReported merge atomicity songs plans errors t =
      merge-IsReported calendar draws songs plans atomicity errors t

  import_value-IsReported :
      (options : ImportPayload) (file : Value) (t : Tables)
      → IsReported
          (base_of_mode options.mode t)
          t
          (import_value calendar draws backup_fails options file t)
  unfolding import_value
  import_value-IsReported options file t =
      elim (Outcome-cases (migrate_imported_data_payload file)) [
        | inl (why, e) ↦ rw (e, import_value) refl
        | inr (read, e) ↦
            rw (e, import_value)
              (write_in-IsReported options.mode options.atomicity (normalize_songs read.songs).0
                (normalize_plans calendar read.plans).0 _ t)
      ]

  import_choice-IsReported :
      (options : ImportPayload) (choice : FileChoice) (t : Tables)
      → IsReported
          (base_of_mode options.mode t)
          t
          (import_choice calendar draws backup_fails options choice t)
  import_choice-IsReported options nothing_chosen t = refl
  import_choice-IsReported options unreadable t = refl
  import_choice-IsReported options (chosen file) t = import_value-IsReported options file t

  -- An import either reports that it wrote, or leaves the tables as they were. If it reports that it wrote, the
  -- tables hold what they held when the writing started (nothing in the mode REPLACE) and after it as many songs
  -- and plans as it counts, and the import is partial exactly if it reports errors.
  pub import_all-IsReported :
      (raw : Value) (choice : FileChoice) (t : Tables)
      → IsReported
          (base_of (parse_data_import_payload raw) t)
          t
          (import_all calendar draws backup_fails raw choice t)
  unfolding import_all
  import_all-IsReported raw choice t = elim (Outcome-cases (parse_data_import_payload raw)) [
    | inl (why, e) ↦ rw (e, import_all) refl
    | inr (options, e) ↦ rw (e, import_all) (import_choice-IsReported options choice t)
  ]
