-- ===== src/RuntimeValidation.antt =====
-- The checks of apps/desktop/src/main/ipc/runtimeValidation.ts on a value of unknown type. A refusal carries the
-- reason of the source's message, without the label of the place.
pub mod Names
pub mod ReadNames
pub mod Screens
pub mod Live
pub mod Records
pub mod Plans
pub mod RoundTrip
use church_presenter.Common.{
  ℤ, pos, negsuc, String, Bool, true, false, not, ◌&&◌, Option, none, some, List, [], ◌∷◌, str_eq,
  ltb, is_some, if◌then◌else◌,
}
use church_presenter.Common.Texts.{trim}
use church_presenter.Common.Outcome.{Outcome, done, thrown, ◌>>=◌}
use church_presenter.Ipc.{Number}
use church_presenter.Json.{
  Value, undefined, null, nan, bool, num, str, arr, obj, Properties, elements, is_nullish,
  is_undefined, is_integer,
}

pub data Problem : Type 0 where
  not_an_object not_an_array not_a_string not_a_boolean not_a_finite_number : Problem
  must_not_be_empty not_an_integer below_the_minimum above_the_maximum not_one_of : Problem

abbrev pub Parsed : Type 0 → Type 0
Parsed A = Outcome Problem A

pub record StringOptions : Type 0 where
  pub trim : Bool
  pub allow_empty : Bool
  pub empty_as_undefined : Bool

-- No options: the text is trimmed, and must not be empty where it is required.
abbrev pub trimmed : StringOptions
trimmed = record { trim = true; allow_empty = false; empty_as_undefined = true }

-- `{ allowEmpty: true }`
abbrev pub may_be_empty : StringOptions
may_be_empty = record { trim = true; allow_empty = true; empty_as_undefined = true }

-- `{ trim: false, allowEmpty: true }`
abbrev pub raw : StringOptions
raw = record { trim = false; allow_empty = true; empty_as_undefined = true }

pub record NumberOptions : Type 0 where
  pub integer : Bool
  pub min : Option Number
  pub max : Option Number

abbrev pub any_number : NumberOptions
any_number = record { integer = false; min = none; max = none }

abbrev pub an_integer : NumberOptions
an_integer = record { integer = true; min = none; max = none }

unfoldable pub expect_record : Value → Parsed Properties
expect_record (obj fields) = done fields
expect_record _ = thrown not_an_object

unfoldable pub expect_array : Value → Parsed (List Value)
unfolding elements
expect_array (arr items) = done (elements items)
expect_array _ = thrown not_an_array

-- A text under the options, once it is known to be one.
unfoldable pub check_string : StringOptions → String → Parsed String
check_string options s =
    let text = if options.trim then trim s else s in
    if not options.allow_empty && str_eq text "" then thrown must_not_be_empty else done text

unfoldable pub expect_string : StringOptions → Value → Parsed String
unfolding check_string
expect_string options (str s) = check_string options s
expect_string options _ = thrown not_a_string

abbrev optional_text : StringOptions → String → Parsed (Option String)
optional_text options text =
    if not (str_eq text "")
    then done (some text)
    else if options.allow_empty
    then done (some text)
    else if options.empty_as_undefined
    then done none
    else thrown must_not_be_empty

unfoldable pub expect_optional_string : StringOptions → Value → Parsed (Option String)
expect_optional_string options undefined = done none
expect_optional_string options null = done none
expect_optional_string options v =
    expect_string (record options { allow_empty = true }) v >>= optional_text options

unfoldable pub expect_boolean : Value → Parsed Bool
expect_boolean (bool b) = done b
expect_boolean _ = thrown not_a_boolean

abbrev pub is_below : Number → Number → Bool
is_below (pos a) (pos b) = ltb a b
is_below (pos a) (negsuc b) = false
is_below (negsuc a) (pos b) = true
is_below (negsuc a) (negsuc b) = ltb b a

abbrev is_below_min : Number → Option Number → Bool
is_below_min n none = false
is_below_min n (some low) = is_below n low

abbrev is_above_max : Number → Option Number → Bool
is_above_max n none = false
is_above_max n (some high) = is_below high n

unfoldable pub check_number : NumberOptions → Number → Parsed Number
check_number options n =
    if options.integer && not (is_integer n)
    then thrown not_an_integer
    else if is_below_min n options.min
    then thrown below_the_minimum
    else if is_above_max n options.max
    then thrown above_the_maximum
    else done n

unfoldable pub expect_number : NumberOptions → Value → Parsed Number
unfolding check_number
expect_number options (num n) = check_number options n
expect_number options _ = thrown not_a_finite_number

module _ {A : Type 0} where
  abbrev one_of : Option A → Parsed A
  one_of none = thrown not_one_of
  one_of (some a) = done a

  -- `read` is the membership in the allowed names, with what the name stands for.
  unfoldable pub expect_enum : (String → Option A) → Value → Parsed A
  expect_enum read v = expect_string trimmed v >>= λ text. one_of (read text)

  -- `if (rec.key !== undefined) patch.key = …`
  unfoldable pub unless_undefined : (Value → Parsed A) → Value → Parsed (Option A)
  unless_undefined parse undefined = done none
  unless_undefined parse v = parse v >>= λ a. done (some a)

  -- `rec.key == null ? undefined : …`
  unfoldable pub unless_nullish : (Value → Parsed A) → Value → Parsed (Option A)
  unless_nullish parse undefined = done none
  unless_nullish parse null = done none
  unless_nullish parse v = parse v >>= λ a. done (some a)

  -- `rec.key === null ? null : …`
  unfoldable pub or_null : (Value → Parsed (Option A)) → Value → Parsed (Option (Option A))
  or_null parse null = done (some none)
  or_null parse v = parse v >>= λ found. done (elim found [ none ↦ none | some a ↦ some (some a) ])

  -- `values.map(parse)`, which stops at the first refusal.
  unfoldable pub parse_all : (Value → Parsed A) → List Value → Parsed (List A)
  parse_all parse [] = done []
  parse_all parse (v ∷ rest) = do a ← parse v; others ← parse_all parse rest; done (a ∷ others)
