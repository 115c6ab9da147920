-- ===== src/Host/Results.antt =====
-- Parsers of src/lib/host-metrics.ts that return or throw: none is a thrown error.
use voidstation_app.Prelude.{Bool, List, Option, false, none, refl, some, subst, true, ℕ, ◌≡◌}

infixl 5 ◌>>=◌ ◌>>◌
abbrev pub ◌>>=◌ {ℓ κ} : {A : Type ℓ} {B : Type κ} → Option A → (A → Option B) → Option B
none >>= f = none
some a >>= f = f a

abbrev pub ◌>>◌ {ℓ} : {B : Type ℓ} → Option (Unit {0}) → Option B → Option B
m >> k = m >>= λ _. k

-- if (!test) throw
abbrev pub check : Bool → Option (Unit {0})
check true = some tt
check false = none

-- It throws, or what it returns has the property.
abbrev pub Ensures {ℓ κ} : {A : Type ℓ} → (A → Type κ) → Option A → Type κ
Ensures P none = Unit
Ensures P (some a) = P a

pub check-Ensures {ℓ κ} :
    {A : Type ℓ} (P : A → Type κ) (b : Bool) (k : Option A)
    → (b ≡ true → Ensures P k)
    → Ensures P (check b >> k)
check-Ensures P true k h = h refl
check-Ensures P false k h = tt

pub bind-Ensures {ℓ κ λ'} :
    {A : Type ℓ} {B : Type κ} (P : B → Type λ') (m : Option A) (f : A → Option B)
    → ((a : A) → m ≡ some a → Ensures P (f a))
    → Ensures P (m >>= f)
bind-Ensures P none f h = tt
bind-Ensures P (some a) f h = h a refl

pub Ensures-of {ℓ κ} :
    {A : Type ℓ} (P : A → Type κ) (m : Option A) (a : A) → Ensures P m → m ≡ some a → P a
Ensures-of P m a h e = subst (Ensures P) e h

-- The measurement of a source: `unavailable` where the source or its parser fails
pub data Measurement {ℓ} (A : Type ℓ) : Type ℓ where
  available : A → List ℕ → Measurement A
  unavailable : Measurement A

-- The value, if there is one, has the property.
abbrev pub Measures {ℓ κ} : {A : Type ℓ} → (A → Type κ) → Measurement A → Type κ
Measures P (available a observed_at) = P a
Measures P unavailable = Unit

pub record HostSample : Type 0 where
  pub text : List ℕ
  pub observed_at : List ℕ

abbrev pub measured {ℓ} : {A : Type ℓ} → Option A → List ℕ → Measurement A
measured none observed_at = unavailable
measured (some a) observed_at = available a observed_at

-- `derive`, and `measure`
abbrev pub derive {ℓ} : {A : Type ℓ} → Option HostSample → (List ℕ → Option A) → Measurement A
derive none parse = unavailable
derive (some sample) parse = measured (parse sample.text) sample.observed_at

pub measured-Measures {ℓ κ} :
    {A : Type ℓ} (P : A → Type κ) (o : Option A) (at : List ℕ)
    → Ensures P o
    → Measures P (measured o at)
measured-Measures P none at h = tt
measured-Measures P (some a) at h = h

pub derive-Measures {ℓ κ} :
    {A : Type ℓ} (P : A → Type κ) (sample : Option HostSample) (parse : List ℕ → Option A)
    → ((text : List ℕ) → Ensures P (parse text))
    → Measures P (derive sample parse)
derive-Measures P none parse h = tt
derive-Measures P (some sample) parse h =
    measured-Measures P (parse sample.text) sample.observed_at (h sample.text)
