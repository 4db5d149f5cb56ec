-- ===== src/Ipc/Keys.antt =====
-- The test of two screen keys, and the laws of a record with one value for each screen.
use church_presenter.Common.{◌≡◌, ◌≢◌, refl, true, false, if◌then◌else◌}
use church_presenter.Ipc.{ScreenKey, screen_a, screen_b, screen_c, PerScreen, get, put, same_key}

pub eq_of_same_key : (j k : ScreenKey) → same_key j k ≡ true → j ≡ k
eq_of_same_key screen_a screen_a h = refl
eq_of_same_key screen_b screen_b h = refl
eq_of_same_key screen_c screen_c h = refl
eq_of_same_key _ _ h = cc

pub same_key_comm : (j k : ScreenKey) → same_key j k ≡ same_key k j
same_key_comm screen_a screen_a = refl
same_key_comm _ screen_a = refl
same_key_comm screen_b screen_b = refl
same_key_comm _ _ = refl

pub same_key_refl : (k : ScreenKey) → same_key k k ≡ true
same_key_refl screen_a = refl
same_key_refl _ = refl

pub get-put {ℓ} :
    {A : Type ℓ} (p : PerScreen A) (k : ScreenKey) (v : A) (j : ScreenKey)
    → get (put p k v) j ≡ (if same_key k j then v else get p j)
get-put p screen_a v screen_a = refl
get-put p screen_b v screen_b = refl
get-put p screen_b v screen_a = refl
get-put p screen_b v screen_c = refl
get-put p _ v screen_b = refl
get-put p _ v screen_a = refl
get-put p _ v screen_c = refl

-- A property that tells two values of a record apart tells their keys apart.
pub same_key-eq-false_of_ne {ℓ} :
    {A : Type ℓ} (p : PerScreen A) (j k : ScreenKey) → get p j ≢ get p k → same_key j k ≡ false
same_key-eq-false_of_ne p screen_a screen_a h = absurd (h refl)
same_key-eq-false_of_ne p screen_b screen_b h = absurd (h refl)
same_key-eq-false_of_ne p screen_c screen_c h = absurd (h refl)
same_key-eq-false_of_ne p _ _ h = refl
