-- ===== src/Json.antt =====
-- The values of type `unknown` that the program reads: JSON files, and the messages of the renderer.
-- A missing property reads as `undefined`. Numbers count thousandths; `nan` stands for the numbers that
-- are not finite.
use church_presenter.Common.{
  ℕ, zero, suc, ◌+◌, ℤ, pos, negsuc, String, Bool, true, false, ◌||◌, Option, none, some, List, [],
  ◌∷◌, str_eq, ltb, ◌==◌, ◌≡◌, refl, if◌then◌else◌,
}
use church_presenter.Ipc.{Number}
use Prim.Native.Nat.{◌/◌, ◌%◌, ◌*◌, ◌-◌}
use Prim.Native.String.{slice, ◌++◌ as ◌<>◌}

mutual
  -- The properties of an object in their order, the elements of an array, and the values.
  pub data Properties : Type 0 where
    property : String → Value → Properties → Properties
    no_properties : Properties

  pub data Elements : Type 0 where
    element : Value → Elements → Elements
    no_elements : Elements

  pub data Value : Type 0 where
    undefined null nan : Value
    obj : Properties → Value
    arr : Elements → Value
    str : String → Value
    num : Number → Value
    bool : Bool → Value

-- `record.key`
unfoldable pub get : String → Properties → Value
get key no_properties = undefined
get key (property name v rest) = if str_eq name key then v else get key rest

-- `"key" in record`
unfoldable pub has : String → Properties → Bool
has key no_properties = false
has key (property name v rest) = str_eq name key || has key rest

unfoldable pub elements : Elements → List Value
elements no_elements = []
elements (element v rest) = v ∷ elements rest

unfoldable pub array : List Value → Elements
array [] = no_elements
array (v ∷ rest) = element v (array rest)

-- `value == null`
abbrev pub is_nullish : Value → Bool
is_nullish undefined = true
is_nullish null = true
is_nullish _ = false

abbrev pub is_undefined : Value → Bool
is_undefined undefined = true
is_undefined _ = false

-- `Number.isInteger(value)`
abbrev pub is_integer : Number → Bool
is_integer (pos n) = n % 1000 == 0
is_integer (negsuc n) = (n + 1) % 1000 == 0

-- `Math.trunc(value)`, counted in ones.
abbrev pub trunc : Number → ℤ
trunc (pos n) = pos (n / 1000)
trunc (negsuc n) = if ltb n 999 then pos 0 else negsuc ((n + 1) / 1000 - 1)

-- The number that counts `n` ones.
abbrev pub ones : ℕ → Number
ones n = pos (n * 1000)

-- The number that counts `z` ones.
unfoldable pub integer : ℤ → Number
integer (pos n) = pos (n * 1000)
integer (negsuc n) = negsuc (n * 1000 + 999)

-- A property that may be missing: JSON.stringify does not write one that is `undefined`.
abbrev pub given {ℓ} : {A : Type ℓ} → (A → Value) → Option A → Value
given write none = undefined
given write (some a) = write a

abbrev digit : ℕ → String
digit n = slice "0123456789" n (n + 1)

-- The decimal digits of a number: no number has more digits than it counts, plus one.
decimal : ℕ → ℕ → String
decimal zero n = ""
decimal (suc more) n =
    let front = decimal more (n / 10) in if ltb n 10 then digit n else front <> digit (n % 10)

fraction : ℕ → String
fraction n =
    if n == 0
    then ""
    else if n % 100 == 0
    then "." <> digit (n / 100)
    else if n % 10 == 0
    then "." <> (digit (n / 100) <> digit (n / 10 % 10))
    else "." <> (digit (n / 100) <> (digit (n / 10 % 10) <> digit (n % 10)))

thousandths : ℕ → String
unfolding decimal fraction
thousandths n = decimal (n / 1000 + 1) (n / 1000) <> fraction (n % 1000)

-- `String(value)` of a number.
unfoldable pub number_text : Number → String
unfolding thousandths
number_text (pos n) = thousandths n
number_text (negsuc n) = "-" <> thousandths (n + 1)

-- `String(value)`
unfoldable mutual
  unfolding number_text

  pub text_of : Value → String
  text_of undefined = "undefined"
  text_of null = "null"
  text_of nan = "NaN"
  text_of (bool true) = "true"
  text_of (bool false) = "false"
  text_of (num n) = number_text n
  text_of (str s) = s
  text_of (arr xs) = text_of_items xs
  text_of (obj fields) = "[object Object]"

  -- In an array, a missing value is written as the empty text.
  pub text_of_items : Elements → String
  text_of_items no_elements = ""
  text_of_items (element v no_elements) = if is_nullish v then "" else text_of v
  text_of_items (element v (element w rest)) =
      (if is_nullish v then "" else text_of v) <> ("," <> text_of_items (element w rest))

number_text_test : number_text (negsuc 12499) ≡ "-12.5"
unfolding number_text
number_text_test = refl
