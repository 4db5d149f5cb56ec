-- ===== src/Sanitizers.antt =====
-- The sanitizers of apps/desktop/src/main/settings.ts, which keep what is well-formed of the value that settings.json holds.
use church_presenter.Common.{
  ℕ, suc, ℤ, pos, String, Bool, ◌||◌, Option, none, some, List, [], ◌∷◌, str_eq, if◌then◌else◌,
  or_else, is_some, is_empty,
}
use church_presenter.Common.Texts.{trim}
use mathlib.Core.Option
use church_presenter.Ipc.{Number, MirrorMode, free, mirror, PerScreen}
use church_presenter.PlanKinds.{PlanItemKind, read_kind}
use church_presenter.RuntimeValidation.Names.{
  read_screen_key, read_background_fill, read_foreground_fill, read_logo_position,
}
use church_presenter.Screens.Patch.{Appearance}
use church_presenter.Profiles.{
  Profile, ProfilesState, Prefs, ScreenPrefs, some_screen, normalize_profiles_config,
}
use church_presenter.Json.{
  Value, null, num, str, bool, arr, obj, Properties, no_properties, property, get, elements, trunc,
}

pub record KeyBinding : Type 0 where
  pub key : String
  pub ctrl_key : Option Bool
  pub shift_key : Option Bool

abbrev pub Shortcuts : Type 0
Shortcuts = List (String × List KeyBinding)

-- A text of a template may be missing, `null` or there.
pub record TemplateItem : Type 0 where
  pub kind : PlanItemKind
  pub title : Option (Option String)
  pub content : Option (Option String)
  pub ref_id : Option (Option String)
  pub ref_sub_id : Option (Option String)
  pub media_path : Option (Option String)

pub record PlanTemplate : Type 0 where
  pub id : String
  pub name : String
  pub items : List TemplateItem
  pub created_at : String

-- `typeof value === "string"`, and so on.
abbrev pub string_of : Value → Option String
string_of (str s) = some s
string_of _ = none

abbrev pub boolean_of : Value → Option Bool
boolean_of (bool b) = some b
boolean_of _ = none

abbrev pub finite_of : Value → Option Number
finite_of (num n) = some n
finite_of _ = none

abbrev pub elements_of : Value → Option (List Value)
elements_of (arr xs) = some (elements xs)
elements_of _ = none

-- A constant that a text names.
unfoldable pub named {ℓ} : {A : Type ℓ} → (String → Option A) → Value → Option A
named read (str s) = read s
named read _ = none

-- A text that is not empty.
unfoldable pub filled : String → Option String
filled s = if str_eq s "" then none else some s

-- A text that is not empty without the white space at its ends, which is cut off.
unfoldable pub filled_trimmed : String → Option String
filled_trimmed s = filled (trim s)

-- `map(f).filter(Boolean)`
unfoldable pub sift {ℓ κ} : {A : Type ℓ} {B : Type κ} → (A → Option B) → List A → List B
sift f [] = []
sift f (x ∷ xs) = let rest = sift f xs in elim (f x) [ none ↦ rest | some y ↦ y ∷ rest ]

unfoldable pub sanitize_nullable_string : Value → Option (Option String)
sanitize_nullable_string null = some none
sanitize_nullable_string (str s) = some (some s)
sanitize_nullable_string _ = none

unfoldable pub sanitize_key_binding : Value → Option KeyBinding
sanitize_key_binding (obj rec) =
    Option.map
      (λ key. record {
        key = key;
        ctrl_key = boolean_of (get "ctrlKey" rec);
        shift_key = boolean_of (get "shiftKey" rec);
      })
      (named filled (get "key" rec))
sanitize_key_binding _ = none

unfoldable pub bindings_of : Value → List KeyBinding
bindings_of (arr bindings) = sift sanitize_key_binding (elements bindings)
bindings_of _ = []

-- The entries of an object, those without a binding left out.
unfoldable pub shortcuts_of : Properties → Shortcuts
shortcuts_of no_properties = []
shortcuts_of (property action v rest) =
    let others = shortcuts_of rest in
    let bindings = bindings_of v in
    if is_empty bindings then others else (action, bindings) ∷ others

unfoldable pub sanitize_shortcut_overrides : Value → Shortcuts
sanitize_shortcut_overrides (obj rec) = shortcuts_of rec
sanitize_shortcut_overrides _ = []

unfoldable pub sanitize_template_item : Value → Option TemplateItem
sanitize_template_item (obj rec) =
    Option.map
      (λ kind. record {
        kind = kind;
        title = sanitize_nullable_string (get "title" rec);
        content = sanitize_nullable_string (get "content" rec);
        ref_id = sanitize_nullable_string (get "refId" rec);
        ref_sub_id = sanitize_nullable_string (get "refSubId" rec);
        media_path = sanitize_nullable_string (get "mediaPath" rec);
      })
      (named read_kind (get "kind" rec))
sanitize_template_item _ = none

unfoldable pub plan_template :
    Option String → Option String → Option (List Value) → Option String → Option PlanTemplate
plan_template (some id) (some name) (some items) (some time) =
    some
      record { id = id; name = name; items = sift sanitize_template_item items; created_at = time }
plan_template _ _ _ _ = none

unfoldable pub sanitize_plan_template : Value → Option PlanTemplate
sanitize_plan_template (obj rec) =
    plan_template (named filled (get "id" rec)) (named filled (get "name" rec))
      (elements_of (get "items" rec)) (named filled (get "createdAt" rec))
sanitize_plan_template _ = none

unfoldable pub sanitize_plan_templates : Value → List PlanTemplate
sanitize_plan_templates (arr xs) = sift sanitize_plan_template (elements xs)
sanitize_plan_templates _ = []

unfoldable pub appearance_of : Properties → Appearance
appearance_of rec = record {
  text_scale = finite_of (get "textScale" rec);
  title_text_scale = finite_of (get "titleTextScale" rec);
  text_font = string_of (get "textFont" rec);
  text_font_path = string_of (get "textFontPath" rec);
  background = string_of (get "background" rec);
  background_mode = named read_background_fill (get "backgroundMode" rec);
  background_gradient_from = string_of (get "backgroundGradientFrom" rec);
  background_gradient_to = string_of (get "backgroundGradientTo" rec);
  background_gradient_angle = finite_of (get "backgroundGradientAngle" rec);
  background_image = string_of (get "backgroundImage" rec);
  logo_path = string_of (get "logoPath" rec);
  logo_position = named read_logo_position (get "logoPosition" rec);
  logo_opacity = finite_of (get "logoOpacity" rec);
  logo_scale = finite_of (get "logoScale" rec);
  foreground_mode = named read_foreground_fill (get "foregroundMode" rec);
  foreground_gradient_from = string_of (get "foregroundGradientFrom" rec);
  foreground_gradient_to = string_of (get "foregroundGradientTo" rec);
  foreground = string_of (get "foreground" rec);
}

-- `Object.keys(out).length > 0`
unfoldable pub has_keys : Appearance → Bool
has_keys p =
    is_some p.text_scale
    || is_some p.title_text_scale
    || is_some p.text_font
    || is_some p.text_font_path
    || is_some p.background
    || is_some p.background_mode
    || is_some p.background_gradient_from
    || is_some p.background_gradient_to
    || is_some p.background_gradient_angle
    || is_some p.background_image
    || is_some p.logo_path
    || is_some p.logo_position
    || is_some p.logo_opacity
    || is_some p.logo_scale
    || is_some p.foreground
    || is_some p.foreground_mode
    || is_some p.foreground_gradient_from
    || is_some p.foreground_gradient_to

unfoldable pub some_keys : Appearance → Option Prefs
some_keys p = if has_keys p then some p else none

unfoldable pub sanitize_projection_appearance_prefs : Value → Option Prefs
sanitize_projection_appearance_prefs (obj rec) = some_keys (appearance_of rec)
sanitize_projection_appearance_prefs _ = none

-- What is kept of an object with an entry for each screen, if any is.
unfoldable pub screens_of {ℓ} :
    {A : Type ℓ} → (Value → Option A) → Value → Option (PerScreen (Option A))
screens_of sanitize (obj rec) = some_screen record {
  at_a = sanitize (get "A" rec);
  at_b = sanitize (get "B" rec);
  at_c = sanitize (get "C" rec);
}
screens_of sanitize _ = none

unfoldable pub sanitize_projection_config : Value → Option ScreenPrefs
sanitize_projection_config (obj rec) =
    screens_of sanitize_projection_appearance_prefs (get "screens" rec)
sanitize_projection_config _ = none

unfoldable pub read_mirror : Value → String → Option MirrorMode
read_mirror from kind =
    if str_eq kind "FREE"
    then some free
    else if str_eq kind "MIRROR"
    then Option.map mirror (named read_screen_key from)
    else none

unfoldable pub sanitize_screen_mirror_mode : Value → Option MirrorMode
sanitize_screen_mirror_mode (obj rec) = named (read_mirror (get "from" rec)) (get "kind" rec)
sanitize_screen_mirror_mode _ = none

unfoldable pub sanitize_mirrors_config : Value → Option (PerScreen (Option MirrorMode))
sanitize_mirrors_config v = screens_of sanitize_screen_mirror_mode v

-- A library directory that is not only white space.
unfoldable pub directory : String → Option String
directory s = if str_eq (trim s) "" then none else some s

unfoldable pub files_of : (String → Option String) → Value → Option String
files_of keep (obj rec) = named keep (get "libraryDir" rec)
files_of keep _ = none

unfoldable pub truncated : Value → Option ℤ
truncated v = Option.map trunc (finite_of v)

unfoldable pub profile_of : ℕ → Properties → Option String → Option String → Option Profile
profile_of now rec (some id) (some name) =
    let created_at = or_else (truncated (get "createdAt" rec)) (pos now) in
    some record {
      id = id;
      name = name;
      library_dir = files_of directory (get "files" rec);
      projection = sanitize_projection_config (get "projection" rec);
      mirrors = sanitize_mirrors_config (get "mirrors" rec);
      created_at = created_at;
      updated_at = or_else (truncated (get "updatedAt" rec)) created_at;
    }
profile_of now rec _ _ = none

-- `now` is what `Date.now()` gives.
unfoldable pub sanitize_settings_profile : ℕ → Value → Option Profile
sanitize_settings_profile now (obj rec) =
    profile_of now rec (named filled_trimmed (get "id" rec)) (named filled_trimmed (get "name" rec))
sanitize_settings_profile now _ = none

-- `Date.now()` gives `clock k` for the entry `k`.
unfoldable pub sanitize_entries : (ℕ → ℕ) → ℕ → List Value → List Profile
sanitize_entries clock k [] = []
sanitize_entries clock k (v ∷ rest) =
    let others = sanitize_entries clock (suc k) rest in
    elim (sanitize_settings_profile (clock k) v) [ none ↦ others | some entry ↦ entry ∷ others ]

unfoldable pub sanitize_profiles_config : (ℕ → ℕ) → Value → Option ProfilesState
sanitize_profiles_config clock (obj rec) = some (
    normalize_profiles_config (
      some record {
        active = string_of (get "activeProfileId" rec);
        entries = sanitize_entries clock 0 (or_else (elements_of (get "entries" rec)) []);
      }))
sanitize_profiles_config clock _ = none
