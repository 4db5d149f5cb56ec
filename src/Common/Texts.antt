-- ===== src/Common/Texts.antt =====
-- Texts: equality as a test and as a path, and the removal of white space at the ends.
use mathlib.Core.Path.{◌≡◌, refl}
use mathlib.Core.Logic.{◌≢◌, inl, inr}
use mathlib.Core.Bool.{Bool, true, false, ◌&&◌, ◌||◌}
use Prim.Native.Char.{Char, code}
use Prim.Native.String.{String, [], ◌∷◌}
use church_presenter.Common.Tests.{if◌then◌else◌, leb, ◌==◌, Bool-cases}
use native.Mathlib.Omega.{arith}
use text.Mathlib.Text.{◌==◌ as str_eq}
use text.Mathlib.TextEquality.{eq_iff}

pub str_eq-true : (s t : String) → s ≡ t → str_eq s t ≡ true
str_eq-true s t e = ground (arith, eq_iff s t)

pub str_eq-false : (s t : String) → s ≢ t → str_eq s t ≡ false
str_eq-false s t e = ground (arith, eq_iff s t)

pub str_eq-eq : (s t : String) → str_eq s t ≡ true → s ≡ t
str_eq-eq s t e = ground (arith, eq_iff s t)

pub str_ne : (s t : String) → str_eq s t ≡ false → s ≢ t
str_ne s t e = ground (arith, eq_iff s t)

-- The white space and the line ends of JavaScript.
unfoldable is_space : Char → Bool
is_space c =
    let n = code c in
    leb 9 n && leb n 13
    || n == 32
    || n == 160
    || n == 5760
    || leb 8192 n && leb n 8202
    || n == 8232
    || n == 8233
    || n == 8239
    || n == 8287
    || n == 12288
    || n == 65279

unfoldable trim_start : String → String
trim_start [] = []
trim_start (c ∷ s) = let rest = trim_start s in if is_space c then rest else c ∷ s

-- A character before the end of a text, unless it is white space before nothing else.
unfoldable before : Char → String → String
before c [] = if is_space c then [] else c ∷ []
before c (d ∷ s) = c ∷ d ∷ s

unfoldable trim_end : String → String
trim_end [] = []
trim_end (c ∷ s) = before c (trim_end s)

unfoldable pub trim : String → String
unfolding trim_start trim_end before is_space
trim s = trim_end (trim_start s)

trim_test : trim "  Culte du soir \n" ≡ "Culte du soir"
unfolding trim
trim_test = refl

-- A text that starts with no white space.
abbrev IsStarted : String → Type 0
IsStarted [] = Unit
IsStarted (c ∷ s) = is_space c ≡ false

trim_start-IsStarted : (s : String) → IsStarted (trim_start s)
unfolding trim_start
trim_start-IsStarted [] = tt
trim_start-IsStarted (c ∷ s) = elim (Bool-cases (is_space c)) [
  | inl e ↦ rw e (trim_start-IsStarted s)
  | inr e ↦ rw e e
]

trim_start_started : (s : String) → IsStarted s → trim_start s ≡ s
unfolding trim_start
trim_start_started [] h = refl
trim_start_started (c ∷ s) h = rw h refl

before-IsStarted : (c : Char) (s : String) → is_space c ≡ false → IsStarted (before c s)
unfolding before
before-IsStarted c [] e = rw e e
before-IsStarted c (d ∷ s) e = e

trim_end-IsStarted : (s : String) → IsStarted s → IsStarted (trim_end s)
unfolding trim_end
trim_end-IsStarted [] h = tt
trim_end-IsStarted (c ∷ s) h = before-IsStarted c (trim_end s) h

trim_end-before : (c : Char) (s : String) → trim_end s ≡ s → trim_end (before c s) ≡ before c s
unfolding trim_end before
trim_end-before c [] e = elim (Bool-cases (is_space c)) [
  | inl f ↦ rw f refl
  | inr f ↦ rw f (rw f refl)
]
trim_end-before c (d ∷ s) e = rw e refl

trim_end_twice : (s : String) → trim_end (trim_end s) ≡ trim_end s
unfolding trim_end
trim_end_twice [] = refl
trim_end_twice (c ∷ s) = trim_end-before c (trim_end s) (trim_end_twice s)

pub trim_twice : (s : String) → trim (trim s) ≡ trim s
unfolding trim
trim_twice s =
    rw
      (trim_start_started (trim_end (trim_start s))
        (trim_end-IsStarted (trim_start s) (trim_start-IsStarted s)))
      (trim_end_twice (trim_start s))
