-- ===== src/Downloads/Plain.antt =====
-- What `plainText` of worker/src/downloads.ts leaves of a text.
use voidstation_app.Prelude.{
  All, All-append, Bool, Bool-cases, List, Option, [], any, arith, false, if◌then◌else◌, inl, inr,
  is_space, leb, leb→le, length, ltb, map, max, none, refl, some, trim, trim_start, true, ℕ, ◌++◌,
  ◌+◌, ◌-◌, ◌||◌, ◌∷◌, ◌≡◌, ◌≤◌,
}
use voidstation_app.Downloads.Text.{
  as_space, clean, fitting, is_control_or_format, is_line_separator, one_spaces, plain_text,
  shortened, text_length, trim_end, units,
}
use voidstation_app.Downloads.Contract.{is_plain}
use mathlib.Core.List.{reverse, reverse-append}

abbrev pub HasNoControl : List ℕ → Type 0
HasNoControl t = All (λ c. is_control_or_format c ≡ false) t

pub any-control : (t : List ℕ) → HasNoControl t → any is_control_or_format t ≡ false
any-control [] h = refl
any-control (c ∷ t) (h, hs) = ground (arith, any-control t hs)

pub text_length-append : (s t : List ℕ) → text_length (s ++ t) ≡ text_length s + text_length t
text_length-append [] t = omega arith
text_length-append (c ∷ s) t = omega (arith, text_length-append s t)

pub text_length-reverse : (t : List ℕ) → text_length (reverse t) ≡ text_length t
text_length-reverse [] = refl
text_length-reverse (c ∷ t) =
    rw (reverse-append (c ∷ []) t)
      (omega (arith, text_length-append (reverse t) (c ∷ []), text_length-reverse t))

pub All-reverse {ℓ κ} : {A : Type ℓ} (P : A → Type κ) (xs : List A) → All P xs → All P (reverse xs)
All-reverse P [] h = tt
All-reverse P (x ∷ xs) (h, hs) =
    rw (reverse-append (x ∷ []) xs)
      (All-append P (reverse xs) (x ∷ []) (All-reverse P xs hs) (h, tt))

as_space_control : (c : ℕ) → is_control_or_format (as_space c) ≡ false
unfolding is_control_or_format
as_space_control c = elim (Bool-cases (is_control_or_format c || is_line_separator c)) [
  | inl h ↦ rw h refl
  | inr h ↦ rw h (ground arith)
]

spaces-HasNoControl : (t : List ℕ) → HasNoControl (map as_space t)
spaces-HasNoControl [] = tt
spaces-HasNoControl (c ∷ t) = (as_space_control c, spaces-HasNoControl t)

space_control : is_control_or_format 32 ≡ false
unfolding is_control_or_format
space_control = refl

if-HasNoControl :
    (b : Bool) (s t : List ℕ) → HasNoControl s → HasNoControl t → HasNoControl (if b then s else t)
if-HasNoControl true s t h k = h
if-HasNoControl false s t h k = k

one_spaces-HasNoControl :
    (after : Bool) (t : List ℕ) → HasNoControl t → HasNoControl (one_spaces after t)
unfolding one_spaces
one_spaces-HasNoControl after [] h = tt
one_spaces-HasNoControl after (c ∷ t) (h, hs) =
    let rest = one_spaces-HasNoControl (is_space c) t hs in
    if-HasNoControl (is_space c) _ _ (if-HasNoControl after _ _ rest (space_control, rest))
      (h, rest)

trim_start-HasNoControl : (t : List ℕ) → HasNoControl t → HasNoControl (trim_start t)
unfolding trim_start
trim_start-HasNoControl [] h = tt
trim_start-HasNoControl (c ∷ t) (h, hs) =
    if-HasNoControl (is_space c) _ _ (trim_start-HasNoControl t hs) (h, hs)

trim_end-HasNoControl : (t : List ℕ) → HasNoControl t → HasNoControl (trim_end t)
trim_end-HasNoControl t h =
    All-reverse _ _ (trim_start-HasNoControl (reverse t) (All-reverse _ t h))

trim-HasNoControl : (t : List ℕ) → HasNoControl t → HasNoControl (trim t)
unfolding trim
trim-HasNoControl t h = trim_end-HasNoControl (trim_start t) (trim_start-HasNoControl t h)

clean-HasNoControl : (t : List ℕ) → HasNoControl (clean t)
clean-HasNoControl t = trim-HasNoControl _ (one_spaces-HasNoControl false _ (spaces-HasNoControl t))

fitting-HasNoControl :
    (limit used : ℕ) (t : List ℕ) → HasNoControl t → HasNoControl (fitting limit used t)
unfolding fitting
fitting-HasNoControl limit used [] h = tt
fitting-HasNoControl limit used (c ∷ t) (h, hs) =
    if-HasNoControl (ltb limit (used + units c)) _ _ tt
      (h, fitting-HasNoControl limit (used + units c) t hs)

fitting-le :
    (limit used : ℕ) (t : List ℕ) → used ≤ limit → used + text_length (fitting limit used t) ≤ limit
unfolding fitting
fitting-le limit used [] h = omega arith
fitting-le limit used (c ∷ t) h = elim (Bool-cases (ltb limit (used + units c))) [
  | inl e ↦ rw e (omega arith)
  | inr e ↦ rw e (ground (arith, fitting-le limit (used + units c) t (ground arith)))
]

trim_start-le : (t : List ℕ) → text_length (trim_start t) ≤ text_length t
unfolding trim_start
trim_start-le [] = omega arith
trim_start-le (c ∷ t) = elim (Bool-cases (is_space c)) [
  | inl e ↦ rw e (omega (arith, trim_start-le t))
  | inr e ↦ rw e (omega arith)
]

trim_end-le : (t : List ℕ) → text_length (trim_end t) ≤ text_length t
trim_end-le t = omega (
  arith,
  text_length-reverse (trim_start (reverse t)),
  text_length-reverse t,
  trim_start-le (reverse t),
)

ellipsis_control : is_control_or_format 0x2026 ≡ false
unfolding is_control_or_format
ellipsis_control = refl

abbrev pub IsPlain : ℕ → List ℕ → Type 0
IsPlain max t = (1 ≤ text_length t) × (text_length t ≤ max) × HasNoControl t

abbrev pub IsPlainOrNone : ℕ → Option (List ℕ) → Type 0
IsPlainOrNone max none = Unit
IsPlainOrNone max (some t) = IsPlain max t

cut-IsPlain :
    (max : ℕ) (t : List ℕ)
    → 1 ≤ max
    → HasNoControl t
    → IsPlain max (trim_end (fitting (max - 1) 0 t) ++ 0x2026 ∷ [])
cut-IsPlain max t h k =
    let cut = trim_end (fitting (max - 1) 0 t) in
    let sum = text_length-append cut (0x2026 ∷ []) in
    let short = trim_end-le (fitting (max - 1) 0 t) in
    let fits = fitting-le (max - 1) 0 t (omega arith) in
    (
      omega (arith, sum),
      omega (arith, sum, short, fits, h),
      All-append _ cut _ (trim_end-HasNoControl _ (fitting-HasNoControl (max - 1) 0 t k))
          (ellipsis_control, tt),
    )

text_length-ge-one : (t : List ℕ) → leb (length t) 0 ≡ false → 1 ≤ text_length t
text_length-ge-one [] h = ground arith
text_length-ge-one (c ∷ t) h = ground arith

shortened-IsPlainOrNone :
    (max : ℕ) (t : List ℕ) → 1 ≤ max → HasNoControl t → IsPlainOrNone max (shortened max t)
shortened-IsPlainOrNone max t h k = elim (Bool-cases (leb (length t) 0)) [
  | inl e ↦ rw e tt
  | inr e ↦ rw e (elim (Bool-cases (leb (text_length t) max)) [
    | inl f ↦ rw f (text_length-ge-one t e, leb→le _ _ f, k)
    | inr f ↦ rw f (cut-IsPlain max t h k)
  ])
]

-- A text is left out, or is one that has no control or format characters and fits in the length.
pub plain_text-IsPlainOrNone :
    (t : Option (List ℕ)) (max : ℕ) → 1 ≤ max → IsPlainOrNone max (plain_text t max)
unfolding plain_text
plain_text-IsPlainOrNone none max h = tt
plain_text-IsPlainOrNone (some t) max h =
    shortened-IsPlainOrNone max (clean t) h (clean-HasNoControl t)

pub is_plain-IsPlain : (t : List ℕ) (max : ℕ) → IsPlain max t → is_plain t max ≡ true
unfolding is_plain
is_plain-IsPlain t max (h, k, c) = ground (arith, any-control t c)
