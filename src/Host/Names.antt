-- ===== src/Host/Names.antt =====
-- The names, models and temperatures that src/lib/host-metrics.ts lets through, said without its
-- tests.
use voidstation_app.Prelude.{
  All, Bool, List, [], ◌∷◌, all, arith, length, true, false, ℕ, ◌*◌, ◌^◌, ◌≡◌, ◌≢◌, ◌≤◌, ◌⊎◌,
  =b_iff, any, leb→le, sym, ◌=b◌, ◌∙◌, and_iff, not_iff, or_false_iff,
}
use voidstation_app.Values.{Number, finite, infinite}
use voidstation_app.Downloads.Text.{text_length}
use voidstation_app.Host.Drives.{
  is_alphanumeric, is_control, is_device_char, is_device_name, is_model, is_name, is_package_char,
  is_package_name, is_temperature,
}
use voidstation_app.Host.Status.{all_different}

-- A letter or a digit of ASCII
abbrev pub IsAlphanumeric : ℕ → Type 0
IsAlphanumeric c = ((b'A' ≤ c) × (c ≤ b'Z')) ⊎ ((b'a' ≤ c) × (c ≤ b'z')) ⊎ ((b'0' ≤ c) × (c ≤ b'9'))

abbrev pub IsPackageChar : ℕ → Type 0
IsPackageChar c =
    IsAlphanumeric c ⊎ (c ≡ b'+') ⊎ (c ≡ b'.') ⊎ (c ≡ b':') ⊎ (c ≡ b'~') ⊎ (c ≡ b'_') ⊎ (c ≡ b'-')

abbrev pub IsDeviceChar : ℕ → Type 0
IsDeviceChar c =
    IsAlphanumeric c ⊎ (c ≡ b'_') ⊎ (c ≡ b'.') ⊎ (c ≡ b':') ⊎ (c ≡ b',') ⊎ (c ≡ b'/') ⊎ (c ≡ b'-')

-- A name begins with a letter or a digit, and has at most so many further characters, of one kind.
abbrev pub IsName : (ℕ → Type 0) → ℕ → List ℕ → Type 0
IsName P most [] = ⊥
IsName P most (c ∷ t) = IsAlphanumeric c × (length t ≤ most) × All P t

-- Of 1 to 128 UTF-16 units, none of which is a control character of ASCII
pub record IsModel (t : List ℕ) : Type 0 where
  pub some_text : 1 ≤ text_length t
  pub short : text_length t ≤ 128
  pub no_control : All (λ c. (32 ≤ c) × (c ≢ 127)) t

-- From -40 to 200 degrees
abbrev pub IsTemperature : Number → Type 0
IsTemperature (finite true digits scale) = digits ≤ 40 * 10 ^ scale
IsTemperature (finite false digits scale) = digits ≤ 200 * 10 ^ scale
IsTemperature (infinite negative) = ⊥

-- No two texts are the same.
abbrev pub AreDifferent : List (List ℕ) → Type 0
AreDifferent [] = Unit
AreDifferent (t ∷ ts) = All (λ u. u ≢ t) ts × AreDifferent ts

all-All :
    (test : ℕ → Bool) (P : ℕ → Type 0) (t : List ℕ)
    → ((c : ℕ) → test c ≡ true → P c)
    → all test t ≡ true
    → All P t
all-All test P [] f h = tt
all-All test P (c ∷ t) f h = let both = (and_iff _ _).0 h in (f c both.0, all-All test P t f both.1)

is_alphanumeric-IsAlphanumeric : (c : ℕ) → is_alphanumeric c ≡ true → IsAlphanumeric c
unfolding is_alphanumeric
is_alphanumeric-IsAlphanumeric c h = ground arith

is_package_char-IsPackageChar : (c : ℕ) → is_package_char c ≡ true → IsPackageChar c
unfolding is_package_char is_alphanumeric
is_package_char-IsPackageChar c h = ground arith

is_device_char-IsDeviceChar : (c : ℕ) → is_device_char c ≡ true → IsDeviceChar c
unfolding is_device_char is_alphanumeric
is_device_char-IsDeviceChar c h = ground arith

is_name-IsName :
    (test : ℕ → Bool) (P : ℕ → Type 0) (most : ℕ) (t : List ℕ)
    → ((c : ℕ) → test c ≡ true → P c)
    → is_name test most t ≡ true
    → IsName P most t
is_name-IsName test P most [] f h = cc
is_name-IsName test P most (c ∷ t) f h =
    let (front, rest) = (and_iff _ _).0 h in
    let (first, short) = (and_iff _ _).0 front in
    (is_alphanumeric-IsAlphanumeric c first, leb→le _ _ short, all-All test P t f rest)

pub is_package_name-IsName : (t : List ℕ) → is_package_name t ≡ true → IsName IsPackageChar 127 t
unfolding is_package_name
is_package_name-IsName t h =
    is_name-IsName is_package_char IsPackageChar 127 t is_package_char-IsPackageChar h

pub is_device_name-IsName : (t : List ℕ) → is_device_name t ≡ true → IsName IsDeviceChar 63 t
unfolding is_device_name
is_device_name-IsName t h =
    is_name-IsName is_device_char IsDeviceChar 63 t is_device_char-IsDeviceChar h

no_control-All : (t : List ℕ) → any is_control t ≡ false → All (λ c. (32 ≤ c) × (c ≢ 127)) t
no_control-All [] h = tt
no_control-All (c ∷ t) h =
    let (here, rest) = (or_false_iff _ _).0 h in (printable c here, no_control-All t rest)
  where
    printable : (d : ℕ) → is_control d ≡ false → (32 ≤ d) × (d ≢ 127)
    printable d k = ground arith

pub is_model-IsModel : (t : List ℕ) → is_model t ≡ true → IsModel t
unfolding is_model
is_model-IsModel t h =
    let (front, clear) = (and_iff _ _).0 h in
    let (one, short) = (and_iff _ _).0 front in
    record {
      some_text = leb→le _ _ one;
      short = leb→le _ _ short;
      no_control = no_control-All t ((not_iff _).0 clear);
    }

pub is_temperature-IsTemperature : (n : Number) → is_temperature n ≡ true → IsTemperature n
unfolding is_temperature
is_temperature-IsTemperature (finite true digits scale) h = leb→le _ _ h
is_temperature-IsTemperature (finite false digits scale) h = leb→le _ _ h
is_temperature-IsTemperature (infinite negative) h = cc

unlike-All : (t : List ℕ) (ts : List (List ℕ)) → any (λ u. u =b t) ts ≡ false → All (λ u. u ≢ t) ts
unlike-All t [] h = tt
unlike-All t (u ∷ ts) h =
    let (here, rest) = (or_false_iff _ _).0 h in
    (λ e. cc (sym here ∙ (=b_iff u t).1 e), unlike-All t ts rest)

pub all_different-AreDifferent : (ts : List (List ℕ)) → all_different ts ≡ true → AreDifferent ts
unfolding all_different
all_different-AreDifferent [] h = tt
all_different-AreDifferent (t ∷ ts) h =
    let (here, rest) = (and_iff _ _).0 h in
    (unlike-All t ts ((not_iff _).0 here), all_different-AreDifferent ts rest)
