-- ===== src/Common/Lists.antt =====
-- Lists measured by native numbers, under the library's names.
use Prim.Native.Nat.{ℕ, suc, ◌+◌, ◌≤◌, ◌<◌}
use mathlib.Core.Path.{◌≡◌, refl, sym, ap}
use mathlib.Core.Bool.{Bool, true, false, ◌||◌}
use mathlib.Core.Logic.{◌≢◌, ◌⊎◌, inl, inr}
use mathlib.Core.Option.{Option, none, some}
use mathlib.Core.List.{List, [], ◌∷◌, ◌++◌, map}
use native.Mathlib.Omega.{arith}
use church_presenter.Common.Tests.{if◌then◌else◌, Bool-cases}

module _ {ℓ} {A : Type ℓ} where
  abbrev pub length : List A → ℕ
  length [] = 0
  length (x ∷ xs) = suc (length xs)

  pub length-append : (xs ys : List A) → length (xs ++ ys) ≡ length xs + length ys
  length-append [] ys = omega arith
  length-append (x ∷ xs) ys = omega (arith, length-append xs ys)

-- A predicate on every element, by recursion.
abbrev pub All {ℓ κ} : {A : Type ℓ} → (A → Type κ) → List A → Type κ
All P [] = Unit
All P (x ∷ xs) = P x × All P xs

-- An element with its place. Nothing is in the empty list.
abbrev pub In {ℓ} : {A : Type ℓ} → A → List A → Type ℓ
In x [] = x ≢ x
In x (y ∷ ys) = (x ≡ y) ⊎ In x ys

module _ {ℓ} {A : Type ℓ} where
  unfoldable pub any : (A → Bool) → List A → Bool
  any test [] = false
  any test (x ∷ xs) = test x || any test xs

  unfoldable pub find : (A → Bool) → List A → Option A
  find test [] = none
  find test (x ∷ xs) = if test x then some x else find test xs

  unfoldable pub keep : (A → Bool) → List A → List A
  keep test [] = []
  keep test (x ∷ xs) = if test x then x ∷ keep test xs else keep test xs

  unfoldable pub count : (A → Bool) → List A → ℕ
  count test [] = 0
  count test (x ∷ xs) = (if test x then 1 else 0) + count test xs

  pub All-In {κ} : (P : A → Type κ) (xs : List A) → All P xs → {x : A} → In x xs → P x
  All-In P [] h i = absurd (i refl)
  All-In P (y ∷ ys) h (inl e) = rw e h.0
  All-In P (y ∷ ys) h (inr i) = All-In P ys h.1 i

  pub All-intro {κ} : (P : A → Type κ) (xs : List A) → ((x : A) → In x xs → P x) → All P xs
  All-intro P [] h = tt
  All-intro P (y ∷ ys) h = (h y (inl refl), All-intro P ys (λ x i. h x (inr i)))

  pub In-keep :
      (test : A → Bool) (xs : List A) {x : A} → In x (keep test xs) → In x xs × (test x ≡ true)
  unfolding keep
  In-keep test [] i = absurd (i refl)
  In-keep test (y ∷ ys) {x} i = elim (Bool-cases (test y)) [
    | inl e ↦ elim (rw e at i) [
      | inl same ↦ (inl same, rw same e)
      | inr rest ↦ let r = In-keep test ys rest in (inr r.0, r.1)
    ]
    | inr e ↦ let r = In-keep test ys (rw e at i) in (inr r.0, r.1)
  ]

  pub keep-In :
      (test : A → Bool) (xs : List A) {x : A} → In x xs → test x ≡ true → In x (keep test xs)
  unfolding keep
  keep-In test [] i t = absurd (i refl)
  keep-In test (y ∷ ys) (inl e) t = rw (sym e) (rw t (inl refl))
  keep-In test (y ∷ ys) (inr i) t = elim (Bool-cases (test y)) [
    | inl e ↦ rw e (inr (keep-In test ys i t))
    | inr e ↦ rw e (keep-In test ys i t)
  ]

  pub count-le-length : (test : A → Bool) (xs : List A) → count test xs ≤ length xs
  unfolding count
  count-le-length test [] = omega arith
  count-le-length test (x ∷ xs) = ground (arith, count-le-length test xs)

  pub count_mono :
      (test other : A → Bool) (xs : List A)
      → ((x : A) → In x xs → test x ≡ true → other x ≡ true)
      → count test xs ≤ count other xs
  unfolding count
  count_mono test other [] h = omega arith
  count_mono test other (x ∷ xs) h =
      ground (arith, h x (inl refl), count_mono test other xs (λ y i. h y (inr i)))

  -- A test that passes on fewer elements counts fewer.
  pub count_strict :
      (test other : A → Bool) (xs : List A) {x : A}
      → ((y : A) → In y xs → test y ≡ true → other y ≡ true)
      → In x xs
      → test x ≡ false
      → other x ≡ true
      → count test xs < count other xs
  unfolding count
  count_strict test other [] h i t o = absurd (i refl)
  count_strict test other (y ∷ ys) h (inl e) t o =
      let smaller = count_mono test other ys (λ z i. h z (inr i)) in
      let t' = rw e at t in let o' = rw e at o in rw t' (rw o' (omega (arith, smaller)))
  count_strict test other (y ∷ ys) h (inr i) t o =
      ground (arith, h y (inl refl), count_strict test other ys (λ z j. h z (inr j)) i t o)

  pub any-false :
      (test : A → Bool) (xs : List A) → ((x : A) → In x xs → test x ≡ false) → any test xs ≡ false
  unfolding any
  any-false test [] h = refl
  any-false test (x ∷ xs) h = rw (h x (inl refl)) (any-false test xs (λ y i. h y (inr i)))

  pub any-true :
      (test : A → Bool) (xs : List A) {x : A} → In x xs → test x ≡ true → any test xs ≡ true
  unfolding any
  any-true test [] i t = absurd (i refl)
  any-true test (y ∷ ys) (inl e) t = rw (sym e) (rw t refl)
  any-true test (y ∷ ys) (inr i) t = ground (arith, any-true test ys i t)

module _ {ℓ κ} {A : Type ℓ} {B : Type κ} where
  pub map-cong : (f g : A → B) (xs : List A) → ((x : A) → In x xs → f x ≡ g x) → map f xs ≡ map g xs
  map-cong f g [] h = refl
  map-cong f g (x ∷ xs) h = rw (h x (inl refl)) (ap (g x ∷◌) (map-cong f g xs (λ y i. h y (inr i))))

  pub any-map :
      (test : B → Bool) (f : A → B) (xs : List A) → any test (map f xs) ≡ any (λ x. test (f x)) xs
  unfolding any
  any-map test f [] = refl
  any-map test f (x ∷ xs) = ap (test (f x) ||◌) (any-map test f xs)

  pub In-map : (f : A → B) (xs : List A) {y : B} → In y (map f xs) → (x : A) × In x xs × (y ≡ f x)
  In-map f [] i = absurd (i refl)
  In-map f (x ∷ xs) (inl e) = (x, inl refl, e)
  In-map f (x ∷ xs) (inr i) = let r = In-map f xs i in (r.0, inr r.1, r.2)

  pub map-In : (f : A → B) (xs : List A) (x : A) → In x xs → In (f x) (map f xs)
  map-In f [] x i = absurd (i refl)
  map-In f (y ∷ ys) x (inl e) = inl (ap f e)
  map-In f (y ∷ ys) x (inr i) = inr (map-In f ys x i)

pub map-map {ℓ κ ι} :
    {A : Type ℓ} {B : Type κ} {C : Type ι} (g : B → C) (f : A → B) (xs : List A)
    → map g (map f xs) ≡ map (λ x. g (f x)) xs
map-map g f [] = refl
map-map g f (x ∷ xs) = ap (g (f x) ∷◌) (map-map g f xs)

pub map_self {ℓ} :
    {A : Type ℓ} (f : A → A) (xs : List A) → ((x : A) → In x xs → f x ≡ x) → map f xs ≡ xs
map_self f [] h = refl
map_self f (x ∷ xs) h = rw (h x (inl refl)) (ap (x ∷◌) (map_self f xs (λ y i. h y (inr i))))

module _ {ℓ} {A : Type ℓ} where
  pub any-In :
      (test : A → Bool) (xs : List A) (x : A) → any test xs ≡ false → In x xs → test x ≡ false
  unfolding any
  any-In test [] x h i = absurd (i refl)
  any-In test (y ∷ ys) x h (inl e) = rw e (ground arith)
  any-In test (y ∷ ys) x h (inr i) = any-In test ys x (ground arith) i

  pub count_cong :
      (test other : A → Bool) (xs : List A)
      → ((x : A) → In x xs → test x ≡ other x)
      → count test xs ≡ count other xs
  unfolding count
  count_cong test other [] h = refl
  count_cong test other (x ∷ xs) h =
      rw (h x (inl refl))
        (ap ((if other x then 1 else 0) +◌) (count_cong test other xs (λ y i. h y (inr i))))

  pub count-map {κ} :
      {B : Type κ} (test : A → Bool) (f : B → A) (xs : List B)
      → count test (map f xs) ≡ count (λ x. test (f x)) xs
  unfolding count
  count-map test f [] = refl
  count-map test f (x ∷ xs) = ap ((if test (f x) then 1 else 0) +◌) (count-map test f xs)

abbrev pub is_empty {ℓ} : {A : Type ℓ} → List A → Bool
is_empty [] = true
is_empty (x ∷ xs) = false

module _ {ℓ} {A : Type ℓ} where
  pub All-append {κ} :
      (P : A → Type κ) (xs : List A) (x : A) → All P xs → P x → All P (xs ++ x ∷ [])
  All-append P [] x h p = (p, tt)
  All-append P (y ∷ ys) x h p = (h.0, All-append P ys x h.1 p)

  pub keep-append :
      (test : A → Bool) (xs : List A) (x : A)
      → test x ≡ true
      → keep test (xs ++ x ∷ []) ≡ keep test xs ++ x ∷ []
  unfolding keep
  keep-append test [] x t = rw t refl
  keep-append test (y ∷ ys) x t = elim (Bool-cases (test y)) [
    | inl e ↦ rw e (ap (y ∷◌) (keep-append test ys x t))
    | inr e ↦ rw e (keep-append test ys x t)
  ]

  pub In-append : (xs : List A) (x : A) → In x (xs ++ x ∷ [])
  In-append [] x = inl refl
  In-append (y ∷ ys) x = inr (In-append ys x)

  pub In-append_inv : (xs : List A) (y x : A) → In x (xs ++ y ∷ []) → In x xs ⊎ (x ≡ y)
  In-append_inv [] y x (inl e) = inr e
  In-append_inv [] y x (inr i) = absurd (i refl)
  In-append_inv (z ∷ zs) y x (inl e) = inl (inl e)
  In-append_inv (z ∷ zs) y x (inr i) = elim (In-append_inv zs y x i) [
    | inl j ↦ inl (inr j)
    | inr e ↦ inr e
  ]

  pub append_one : (xs : List A) (y : A) (ys : List A) → (xs ++ y ∷ []) ++ ys ≡ xs ++ y ∷ ys
  append_one [] y ys = refl
  append_one (x ∷ xs) y ys = ap (x ∷◌) (append_one xs y ys)

pub List-cases {ℓ} :
    {A : Type ℓ} (xs : List A) → (xs ≡ []) ⊎ ((x : A) × (rest : List A) × (xs ≡ x ∷ rest))
List-cases [] = inl refl
List-cases (x ∷ rest) = inr (x, rest, refl)

pub find-found {ℓ} :
    {A : Type ℓ} (test : A → Bool) (xs : List A) (x : A)
    → find test xs ≡ some x
    → In x xs × (test x ≡ true)
unfolding find
find-found test [] x h = cc
find-found test (y ∷ ys) x h = elim (Bool-cases (test y)) [
  | inl e ↦ let same : y ≡ x = cc (rw e at h) in (inl (sym same), rw (sym same) e)
  | inr e ↦ let r = find-found test ys x (rw e at h) in (inr r.0, r.1)
]

module _ {ℓ} {A : Type ℓ} where
  pub All-imp {κ ι} :
      (P : A → Type κ) (Q : A → Type ι) (xs : List A) → ((x : A) → P x → Q x) → All P xs → All Q xs
  All-imp P Q [] f h = tt
  All-imp P Q (x ∷ xs) f h = (f x h.0, All-imp P Q xs f h.1)

  pub keep_cong :
      (test other : A → Bool) (xs : List A)
      → ((x : A) → In x xs → test x ≡ other x)
      → keep test xs ≡ keep other xs
  unfolding keep
  keep_cong test other [] h = refl
  keep_cong test other (x ∷ xs) h = rw (h x (inl refl)) (
      ap (λ rest. if other x then x ∷ rest else rest)
        (keep_cong test other xs (λ y i. h y (inr i))))
