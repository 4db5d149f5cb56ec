-- ===== src/SettingsFile/Screens.antt =====
-- The appearance and the mirrors of the screens in the settings file, written and read again.
use church_presenter.Common.{
  String, ◌≡◌, refl, ◌∙◌, inl, inr, Option, none, some, Bool-cases, Option-cases, is_some, ◌||◌,
}
use church_presenter.Ipc.{Number, MirrorMode, free, mirror}
use church_presenter.RuntimeValidation.Names.{
  background_fill_name, read_background_fill, foreground_fill_name, read_foreground_fill,
  logo_position_name, read_logo_position,
}
use church_presenter.RuntimeValidation.ReadNames.{
  read_screen_key-screen_key_name, read_background_fill-background_fill_name,
  read_foreground_fill-foreground_fill_name, read_logo_position-logo_position_name,
}
use church_presenter.Profiles.{Prefs, ScreenPrefs, some_screen}
use church_presenter.Json.{Value, undefined, str, num, obj, get, given}
use church_presenter.Sanitizers.{
  string_of, finite_of, named, appearance_of, has_keys, some_keys,
  sanitize_projection_appearance_prefs, screens_of, sanitize_projection_config, read_mirror,
  sanitize_screen_mirror_mode, sanitize_mirrors_config,
}
use church_presenter.SettingsFile.{prefs_value, screens_value, projection_value, mirror_value}
use church_presenter.SettingsFile.Bindings.{Back, given-Back}

string_of-given : (o : Option String) → string_of (given str o) ≡ o
string_of-given none = refl
string_of-given (some s) = refl

finite_of-given : (o : Option Number) → finite_of (given num o) ≡ o
finite_of-given none = refl
finite_of-given (some n) = refl

module _ {A : Type 0} (read : String → Option A) (name : A → String) where
  named-given :
      ((a : A) → read (name a) ≡ some a)
      → (o : Option A) → named read (given (λ a. str (name a)) o) ≡ o
  unfolding named
  named-given h none = refl
  named-given h (some a) = h a

pub sanitize_prefs_lem :
    (p : Prefs) → sanitize_projection_appearance_prefs (prefs_value p) ≡ some_keys p
unfolding sanitize_projection_appearance_prefs prefs_value appearance_of get
sanitize_prefs_lem p =
    rw
      (
        finite_of-given p.text_scale,
        finite_of-given p.title_text_scale,
        string_of-given p.text_font,
        string_of-given p.text_font_path,
        string_of-given p.background,
        named-given read_background_fill background_fill_name
            read_background_fill-background_fill_name p.background_mode,
        string_of-given p.background_gradient_from,
        string_of-given p.background_gradient_to,
        finite_of-given p.background_gradient_angle,
        string_of-given p.background_image,
        string_of-given p.logo_path,
        named-given read_logo_position logo_position_name read_logo_position-logo_position_name
            p.logo_position,
        finite_of-given p.logo_opacity,
        finite_of-given p.logo_scale,
        string_of-given p.foreground,
        named-given read_foreground_fill foreground_fill_name
            read_foreground_fill-foreground_fill_name p.foreground_mode,
        string_of-given p.foreground_gradient_from,
        string_of-given p.foreground_gradient_to,
      )
      refl

some_keys-Back : (p : Prefs) → Back sanitize_projection_appearance_prefs prefs_value (some_keys p)
unfolding some_keys
some_keys-Back p = elim (Bool-cases (has_keys p)) [
  | inl e ↦ rw e (sanitize_prefs_lem p ∙ rw (some_keys, e) refl)
  | inr e ↦ rw e tt
]

sanitize_prefs-Back :
    (v : Value)
    → Back sanitize_projection_appearance_prefs prefs_value (sanitize_projection_appearance_prefs v)
unfolding sanitize_projection_appearance_prefs
sanitize_prefs-Back (obj rec) = some_keys-Back (appearance_of rec)
sanitize_prefs-Back _ = tt

module _ {A : Type 0} (read : Value → Option A) (write : A → Value) (u : read undefined ≡ none)
    (h : (v : Value) → Back read write (read v)) where
  some_screen-Back :
      (a b c : Value)
      → Back
          (screens_of read)
          (screens_value write)
          (some_screen record { at_a = read a; at_b = read b; at_c = read c })
  unfolding some_screen screens_of screens_value get
  some_screen-Back a b c =
      elim (Bool-cases (is_some (read a) || is_some (read b) || is_some (read c))) [
        | inl e ↦ rw e (
            rw
              (
                given-Back read write (read a) u (h a),
                given-Back read write (read b) u (h b),
                given-Back read write (read c) u (h c),
              )
              (rw (some_screen, e) refl))
        | inr e ↦ rw e tt
      ]

  screens_of-Back : (v : Value) → Back (screens_of read) (screens_value write) (screens_of read v)
  unfolding screens_of
  screens_of-Back (obj rec) = some_screen-Back (get "A" rec) (get "B" rec) (get "C" rec)
  screens_of-Back _ = tt

projection_of-Back :
    (o : Option ScreenPrefs)
    → Back (screens_of sanitize_projection_appearance_prefs) (screens_value prefs_value) o
    → Back sanitize_projection_config projection_value o
unfolding sanitize_projection_config projection_value get
projection_of-Back none h = tt
projection_of-Back (some p) h = h

pub sanitize_projection_config-Back :
    (v : Value) → Back sanitize_projection_config projection_value (sanitize_projection_config v)
unfolding sanitize_projection_config sanitize_projection_appearance_prefs
sanitize_projection_config-Back (obj rec) =
    projection_of-Back (screens_of sanitize_projection_appearance_prefs (get "screens" rec)) (
      screens_of-Back sanitize_projection_appearance_prefs prefs_value refl sanitize_prefs-Back
        (get "screens" rec))
sanitize_projection_config-Back _ = tt

sanitize_mirror_lem : (m : MirrorMode) → sanitize_screen_mirror_mode (mirror_value m) ≡ some m
unfolding sanitize_screen_mirror_mode mirror_value read_mirror named get
sanitize_mirror_lem free = refl
sanitize_mirror_lem (mirror from) = rw (read_screen_key-screen_key_name from) refl

sanitize_mirror-Back :
    (v : Value) → Back sanitize_screen_mirror_mode mirror_value (sanitize_screen_mirror_mode v)
sanitize_mirror-Back v = elim (Option-cases (sanitize_screen_mirror_mode v)) [
  | inl e ↦ rw e tt
  | inr (m, e) ↦ rw e (sanitize_mirror_lem m)
]

pub sanitize_mirrors_config-Back :
    (v : Value)
    → Back sanitize_mirrors_config (screens_value mirror_value) (sanitize_mirrors_config v)
unfolding sanitize_mirrors_config sanitize_screen_mirror_mode
sanitize_mirrors_config-Back v =
    screens_of-Back sanitize_screen_mirror_mode mirror_value refl sanitize_mirror-Back v
