-- ===== src/SettingsFile/Refinement.antt =====
-- The settings file as a store of sections: what the commands make of the file is what they mean for the settings.
use church_presenter.Common.{
  ℕ, ◌≡◌, refl, ap, inl, inr, Option, none, some, List, [], ◌∷◌, map, is_some, not, ◌&&◌,
  Bool-cases, Option-cases, or_else,
}
use church_presenter.Ipc.{PerScreen, ProjectionState}
use church_presenter.Profiles.{
  ScreenPrefs, some_screen, build_projection_snapshot_from_runtime,
  pick_projection_appearance_prefs,
}
use church_presenter.Json.{Value, arr, obj, array, get, given}
use church_presenter.Sanitizers.{
  named, sanitize_projection_config, sanitize_shortcut_overrides, sanitize_plan_templates,
  screens_of, some_keys, has_keys,
}
use church_presenter.SettingsFile.{
  read_theme, SettingsConfig, read_settings_config, write_settings_config, patch_settings_config,
  shortcuts_properties, template_value, settings_version, projection_value, screens_value,
  settings_value, shortcuts_given, templates_given,
}
use church_presenter.SettingsFile.Bindings.{given-Back}
use church_presenter.SettingsFile.Screens.{sanitize_prefs_lem, sanitize_projection_config-Back}
use church_presenter.SettingsFile.RoundTrip.{
  IsReadable, read_settings_config-write, read_settings_config-IsReadable, sanitize_shortcuts_twice,
  sanitize_templates_twice,
}
use church_presenter.SettingsFile.Commands.{
  Legacy, read_legacy_projection_config, given_screens, migrate_projection, migrate,
  migrate_legacy_settings_if_needed, SettingsCommand, set_theme, set_shortcuts, set_templates,
  set_library_dir, set_projection, write_app_config, write_files_config, write_projection_config,
  write_shortcuts_config, write_templates_config, run_settings_command, run_settings_commands,
}

-- What a command means: one section is set, the others stay.
unfoldable pub meaning : SettingsCommand → SettingsConfig → SettingsConfig
meaning (set_theme raw) cfg = elim (named read_theme raw) [
  | none ↦ cfg
  | some theme ↦ record cfg { theme = some theme }
]
meaning (set_shortcuts raw) cfg = record cfg { shortcuts = some (sanitize_shortcut_overrides raw) }
meaning (set_templates raw) cfg = record cfg { templates = some (sanitize_plan_templates raw) }
meaning (set_library_dir path) cfg = record cfg { library_dir = some path }
meaning (set_projection states) cfg = record cfg {
  projection = some (build_projection_snapshot_from_runtime states);
}

unfoldable pub meanings : List ((ℕ → ℕ) × SettingsCommand) → SettingsConfig → SettingsConfig
meanings [] cfg = cfg
meanings ((clock, command) ∷ rest) cfg = meanings rest (meaning command cfg)

-- Whenever the file is read it gives the settings, under the current version, and they can be written.
record Holds (file : Option Value) (cfg : SettingsConfig) : Type 0 where
  pub reads :
      (clock : ℕ → ℕ) → read_settings_config clock file ≡ record cfg { version = settings_version }
  pub readable : (clock : ℕ → ℕ) → IsReadable clock cfg

write-Holds :
    (cfg : SettingsConfig)
    → ((clock : ℕ → ℕ) → IsReadable clock cfg)
    → Holds (write_settings_config cfg) cfg
write-Holds cfg r = record {
  reads = λ clock. read_settings_config-write clock cfg (r clock);
  readable = r;
}

patch-Holds :
    (clock : ℕ → ℕ) (patcher : SettingsConfig → SettingsConfig) (file : Option Value)
    (cfg next : SettingsConfig)
    → read_settings_config clock file ≡ cfg
    → patcher cfg ≡ record next { version = settings_version }
    → ((later : ℕ → ℕ) → IsReadable later next)
    → Holds (patch_settings_config clock patcher file) next
unfolding patch_settings_config write_settings_config settings_value
patch-Holds clock patcher file cfg next e p r = rw e (rw p (write-Holds next r))

snapshot-IsReadable :
    (states : PerScreen ProjectionState)
    → sanitize_projection_config
        (given projection_value (some (build_projection_snapshot_from_runtime states)))
      ≡ some (build_projection_snapshot_from_runtime states)
unfolding sanitize_projection_config projection_value screens_of screens_value get
    build_projection_snapshot_from_runtime pick_projection_appearance_prefs some_screen some_keys
    has_keys
snapshot-IsReadable states =
    rw
      (
        sanitize_prefs_lem (pick_projection_appearance_prefs states.at_a),
        sanitize_prefs_lem (pick_projection_appearance_prefs states.at_b),
        sanitize_prefs_lem (pick_projection_appearance_prefs states.at_c),
      )
      refl

sanitized_shortcuts :
    (v : Value)
    → sanitize_shortcut_overrides (obj (shortcuts_properties (sanitize_shortcut_overrides v)))
      ≡ sanitize_shortcut_overrides v
unfolding shortcuts_given
sanitized_shortcuts v = ap (λ o. or_else o []) (sanitize_shortcuts_twice v)

sanitized_templates :
    (v : Value)
    → sanitize_plan_templates (arr (array (map template_value (sanitize_plan_templates v))))
      ≡ sanitize_plan_templates v
unfolding templates_given
sanitized_templates v = ap (λ o. or_else o []) (sanitize_templates_twice v)

run_settings_command-Holds :
    (clock : ℕ → ℕ) (command : SettingsCommand) (file : Option Value) (cfg : SettingsConfig)
    → Holds file cfg
    → Holds (run_settings_command clock command file) (meaning command cfg)
unfolding run_settings_command meaning write_app_config write_files_config write_projection_config
    write_shortcuts_config write_templates_config
run_settings_command-Holds clock (set_theme raw) file cfg h =
    elim (Option-cases (named read_theme raw)) [
      | inl e ↦ rw (e, meaning, run_settings_command) h
      | inr (theme, e) ↦
          rw (e, meaning, run_settings_command)
            (patch-Holds clock (λ c. record c { theme = some theme }) file
              (record cfg { version = settings_version }) (record cfg { theme = some theme })
              (h.reads clock) refl h.readable)
    ]
run_settings_command-Holds clock (set_shortcuts raw) file cfg h =
    let s = sanitize_shortcut_overrides raw in
    rw (sanitized_shortcuts raw) (
      patch-Holds clock (λ c. record c { shortcuts = some s }) file
        (record cfg { version = settings_version }) (record cfg { shortcuts = some s })
        (h.reads clock) refl
        (λ later. let r = h.readable later in (r.0, sanitize_shortcuts_twice raw, r.2, r.3)))
run_settings_command-Holds clock (set_templates raw) file cfg h =
    let ts = sanitize_plan_templates raw in
    rw (sanitized_templates raw) (
      patch-Holds clock (λ c. record c { templates = some ts }) file
        (record cfg { version = settings_version }) (record cfg { templates = some ts })
        (h.reads clock) refl
        (λ later. let r = h.readable later in (r.0, r.1, sanitize_templates_twice raw, r.3)))
run_settings_command-Holds clock (set_library_dir path) file cfg h =
    patch-Holds clock (λ c. record c { library_dir = some path }) file
      (record cfg { version = settings_version }) (record cfg { library_dir = some path })
      (h.reads clock) refl h.readable
run_settings_command-Holds clock (set_projection states) file cfg h =
    let p = build_projection_snapshot_from_runtime states in
    patch-Holds clock (λ c. record c { projection = some p }) file
      (record cfg { version = settings_version }) (record cfg { projection = some p })
      (h.reads clock) refl
      (λ later. let r = h.readable later in (snapshot-IsReadable states, r.1, r.2, r.3))

run_settings_commands-Holds :
    (commands : List ((ℕ → ℕ) × SettingsCommand)) (file : Option Value) (cfg : SettingsConfig)
    → Holds file cfg
    → Holds (run_settings_commands commands file) (meanings commands cfg)
unfolding run_settings_commands meanings
run_settings_commands-Holds [] file cfg h = h
run_settings_commands-Holds ((clock, command) ∷ rest) file cfg h =
    run_settings_commands-Holds rest (run_settings_command clock command file) (meaning command cfg)
      (run_settings_command-Holds clock command file cfg h)

legacy-IsReadable :
    (old : Option Value)
    → sanitize_projection_config (given projection_value (read_legacy_projection_config old))
      ≡ read_legacy_projection_config old
unfolding read_legacy_projection_config sanitize_projection_config
legacy-IsReadable none = refl
legacy-IsReadable (some v) =
    given-Back sanitize_projection_config projection_value (sanitize_projection_config v) refl
      (sanitize_projection_config-Back v)

migrated_projection :
    (old : Legacy) (p : Option ScreenPrefs)
    → sanitize_projection_config (given projection_value p) ≡ p
    → sanitize_projection_config (given projection_value (migrate_projection old p))
      ≡ migrate_projection old p
unfolding migrate_projection
migrated_projection old p h =
    let found = read_legacy_projection_config old.projection in
    elim (Bool-cases (not (is_some (given_screens p)) && is_some (given_screens found))) [
      | inl e ↦ rw e (legacy-IsReadable old.projection)
      | inr e ↦ rw e h
    ]

migrate-Holds :
    (clock : ℕ → ℕ) (old : Legacy) (file : Option Value)
    → Holds
        (migrate_legacy_settings_if_needed clock old file)
        (migrate old (read_settings_config clock file))
unfolding migrate_legacy_settings_if_needed migrate
migrate-Holds clock old file =
    let cfg = read_settings_config clock file in
    patch-Holds clock (migrate old) file cfg (migrate old cfg) refl refl (λ later.
      let r = read_settings_config-IsReadable clock later file in
      (migrated_projection old cfg.projection r.0, r.1, r.2, r.3))

-- Whatever the settings file holds when the application starts, once the older files were migrated any sequence of the
-- handlers that set the theme, the shortcuts and the templates, and of calls of writeFilesConfig and of
-- writeProjectionConfig with a snapshot of the screens, has the effect on what is read of the file that it means for
-- the settings: each sets one section, the shortcuts and the templates to their sanitized values, and a value that is
-- no theme changes nothing; the version is the current one.
pub run_settings_commands-meanings :
    (start later : ℕ → ℕ) (old : Legacy) (commands : List ((ℕ → ℕ) × SettingsCommand))
    (file : Option Value)
    → let cfg = migrate old (read_settings_config start file) in
      read_settings_config later
        (run_settings_commands commands (migrate_legacy_settings_if_needed start old file))
      ≡ record (meanings commands cfg) { version = settings_version }
run_settings_commands-meanings start later old commands file =
    let cfg = migrate old (read_settings_config start file) in
    let migrated = migrate_legacy_settings_if_needed start old file in
    (run_settings_commands-Holds commands migrated cfg (migrate-Holds start old file)).reads later
