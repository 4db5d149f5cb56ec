-- ===== src/SettingsFile/Bindings.antt =====
-- The keyboard shortcuts and the templates of the settings file, written and read again.
use church_presenter.Common.{
  String, ◌≡◌, refl, ap, inl, inr, Bool, Option, none, some, List, [], ◌∷◌, map, is_empty,
  Bool-cases, Option-cases, arith,
}
use mathlib.Core.Path.{subst}
use church_presenter.Imports.Songs.{elements-array}
use church_presenter.PlanKinds.Names.{read_kind-kind_name}
use church_presenter.Json.{
  Value, undefined, bool, str, obj, arr, Properties, no_properties, property, get, elements, given,
}
use church_presenter.Sanitizers.{
  TemplateItem, named, filled, boolean_of, sift, bindings_of, shortcuts_of, elements_of,
  sanitize_key_binding, sanitize_nullable_string, sanitize_template_item, sanitize_plan_template,
  plan_template,
}
use church_presenter.SettingsFile.{
  binding_value, shortcuts_properties, nullable, template_item_value, template_value,
}

-- What was read is read again from what is written of it.
abbrev pub Back : {A : Type 0} → (Value → Option A) → (A → Value) → Option A → Type 0
Back read write none = Unit
Back read write (some a) = read (write a) ≡ some a

module _ {A : Type 0} (read : Value → Option A) (write : A → Value) where
  pub sift_twice :
      (vs : List Value)
      → ((v : Value) → Back read write (read v))
      → sift read (map write (sift read vs)) ≡ sift read vs
  unfolding sift
  sift_twice [] h = refl
  sift_twice (v ∷ vs) h = elim (Option-cases (read v)) [
    | inl e ↦ rw (e, sift) (sift_twice vs h)
    | inr (a, e) ↦
        let back : read (write a) ≡ some a = subst (Back read write) e (h v) in
        rw (e, sift) (rw (back, sift) (ap (a ∷◌) (sift_twice vs h)))
  ]

  pub given-Back :
      (o : Option A) → read undefined ≡ none → Back read write o → read (given write o) ≡ o
  given-Back none u h = u
  given-Back (some a) u h = h

pub named-filled : (v : Value) (s : String) → named filled v ≡ some s → filled s ≡ some s
unfolding named filled
named-filled (str t) s e = ground arith
named-filled _ s e = ground arith

boolean_of-given : (o : Option Bool) → boolean_of (given bool o) ≡ o
boolean_of-given none = refl
boolean_of-given (some b) = refl

sanitize_key_binding-Back :
    (v : Value) → Back sanitize_key_binding binding_value (sanitize_key_binding v)
unfolding sanitize_key_binding binding_value get named
sanitize_key_binding-Back (obj rec) = elim (Option-cases (named filled (get "key" rec))) [
  | inl e ↦ rw e tt
  | inr (key, e) ↦ rw e (
      rw
        (
          named-filled (get "key" rec) key e,
          boolean_of-given (boolean_of (get "ctrlKey" rec)),
          boolean_of-given (boolean_of (get "shiftKey" rec)),
        )
        refl)
]
sanitize_key_binding-Back _ = tt

bindings_of_twice :
    (v : Value) → sift sanitize_key_binding (map binding_value (bindings_of v)) ≡ bindings_of v
unfolding bindings_of sift
bindings_of_twice (arr xs) =
    sift_twice sanitize_key_binding binding_value (elements xs) sanitize_key_binding-Back
bindings_of_twice _ = refl

pub shortcuts_of_twice :
    (rec : Properties) → shortcuts_of (shortcuts_properties (shortcuts_of rec)) ≡ shortcuts_of rec
unfolding shortcuts_of shortcuts_properties bindings_of
shortcuts_of_twice no_properties = refl
shortcuts_of_twice (property action v rest) = elim (Bool-cases (is_empty (bindings_of v))) [
  | inl e ↦ rw e (shortcuts_of_twice rest)
  | inr e ↦ rw e (
      rw (elements-array (map binding_value (bindings_of v))) (
        rw (bindings_of_twice v)
          (rw e (ap ((action, bindings_of v) ∷◌) (shortcuts_of_twice rest)))))
]

nullable_back : (o : Option (Option String)) → sanitize_nullable_string (given nullable o) ≡ o
unfolding sanitize_nullable_string
nullable_back none = refl
nullable_back (some none) = refl
nullable_back (some (some s)) = refl

sanitize_template_item_lem :
    (it : TemplateItem) → sanitize_template_item (template_item_value it) ≡ some it
unfolding sanitize_template_item template_item_value get named
sanitize_template_item_lem it =
    rw
      (
        read_kind-kind_name it.kind,
        nullable_back it.title,
        nullable_back it.content,
        nullable_back it.ref_id,
        nullable_back it.ref_sub_id,
        nullable_back it.media_path,
      )
      refl

sanitize_template_item-Back :
    (v : Value) → Back sanitize_template_item template_item_value (sanitize_template_item v)
sanitize_template_item-Back v = elim (Option-cases (sanitize_template_item v)) [
  | inl e ↦ rw e tt
  | inr (it, e) ↦ rw e (sanitize_template_item_lem it)
]

plan_template-Back :
    (id name items time : Value)
    → Back sanitize_plan_template template_value (
        plan_template (named filled id) (named filled name) (elements_of items) (named filled time))
unfolding sanitize_plan_template template_value plan_template get named
plan_template-Back id name items time = elim (Option-cases (named filled id)) [
  | inl e ↦ rw e tt
  | inr (i, e) ↦ elim (Option-cases (named filled name)) [
    | inl f ↦ rw (e, f) tt
    | inr (n, f) ↦ elim (Option-cases (elements_of items)) [
      | inl g ↦ rw (e, f, g) tt
      | inr (vs, g) ↦ elim (Option-cases (named filled time)) [
        | inl k ↦ rw (e, f, g, k) tt
        | inr (t, k) ↦
            rw (e, f, g, k)
              (rw
                (
                  named-filled id i e,
                  named-filled name n f,
                  named-filled time t k,
                  elements-array (map template_item_value (sift sanitize_template_item vs)),
                  sift_twice sanitize_template_item template_item_value vs
                      sanitize_template_item-Back,
                )
                refl)
      ]
    ]
  ]
]

pub sanitize_plan_template-Back :
    (v : Value) → Back sanitize_plan_template template_value (sanitize_plan_template v)
unfolding sanitize_plan_template
sanitize_plan_template-Back (obj rec) =
    plan_template-Back (get "id" rec) (get "name" rec) (get "items" rec) (get "createdAt" rec)
sanitize_plan_template-Back _ = tt
