-- ===== src/Downloads/Fitting.antt =====
-- Texts that fit in a length and have no control or format character, for the titles of
-- worker/src/downloads.ts.
use voidstation_app.Prelude.{
  All-append, Bool, Bool-cases, List, Option, [], any, arith, codes, false, if◌then◌else◌, inl, inr,
  is_digit, leb, ltb, max, none, refl, some, suc, true, ℕ, ◌&&◌, ◌++◌, ◌+◌, ◌<◌, ◌∷◌, ◌≡◌, ◌≤◌,
}
use voidstation_app.Downloads.Text.{is_control_or_format, text_length}
use voidstation_app.Downloads.Items.{number_text, or_text, pad, with_year}
use voidstation_app.Downloads.Plain.{HasNoControl, IsPlain, IsPlainOrNone, text_length-append}
use voidstation_app.Downloads.Numbers.{
  AreDigits, length-number_text-le, length-number_text-le_digits, number_text-AreDigits,
  power_of_ten, text_length-AreDigits,
}

abbrev pub Fits : ℕ → List ℕ → Type 0
Fits max t = (text_length t ≤ max) × HasNoControl t

pub Fits-append : (m n : ℕ) (s t : List ℕ) → Fits m s → Fits n t → Fits (m + n) (s ++ t)
Fits-append m n s t (h, hs) (k, ks) =
    (omega (arith, text_length-append s t, h, k), All-append _ s t hs ks)

digits-HasNoControl : (t : List ℕ) → AreDigits t → HasNoControl t
unfolding is_control_or_format is_digit
digits-HasNoControl [] h = tt
digits-HasNoControl (c ∷ t) (h, hs) = (ground arith, digits-HasNoControl t hs)

number_text-Fits : (n : ℕ) → Fits 16 (number_text n)
number_text-Fits n =
    let digits = number_text-AreDigits n in
    (
      omega (arith, text_length-AreDigits (number_text n) digits, length-number_text-le n),
      digits-HasNoControl (number_text n) digits,
    )

-- Numbers of at most d + 1 digits
pub number_text-Fits_digits : (d n : ℕ) → n < power_of_ten (suc d) → Fits (suc d) (number_text n)
number_text-Fits_digits d n h =
    let digits = number_text-AreDigits n in
    (
      omega
          (arith, text_length-AreDigits (number_text n) digits, length-number_text-le_digits d n h),
      digits-HasNoControl (number_text n) digits,
    )

pub pad-Fits : (n : ℕ) → Fits 17 (pad n)
unfolding is_control_or_format
pad-Fits n = elim (Bool-cases (ltb n 10)) [
  | inl e ↦
      rw e
        (Fits-append 1 16 (48 ∷ []) (number_text n) (omega arith, (refl, tt)) (number_text-Fits n))
  | inr e ↦ let fits = number_text-Fits n in rw e (omega (arith, fits.0), fits.1)
]

pub IsPlain-append :
    (m n max : ℕ) (s t : List ℕ) → IsPlain m s → Fits n t → m + n ≤ max → IsPlain max (s ++ t)
IsPlain-append m n max s t (p, h, hs) k l =
    let fits = Fits-append m n s t (h, hs) k in
    (omega (arith, text_length-append s t, p), omega (arith, fits.0, l), fits.1)

pub IsPlain-more : (m max : ℕ) (t : List ℕ) → IsPlain m t → m ≤ max → IsPlain max t
IsPlain-more m max t (p, h, hs) l = (p, omega (arith, h, l), hs)

pub or_text-IsPlain :
    (max : ℕ) (name : Option (List ℕ)) (t : List ℕ)
    → IsPlainOrNone max name
    → IsPlain max t
    → IsPlain max (or_text name t)
or_text-IsPlain max none t h k = k
or_text-IsPlain max (some name) t h k = h

literal-HasNoControl : (t : List ℕ) → any is_control_or_format t ≡ false → HasNoControl t
literal-HasNoControl [] h = tt
literal-HasNoControl (c ∷ t) h = (ground arith, literal-HasNoControl t (ground arith))

pub literal-Fits :
    (max : ℕ) (t : List ℕ) → text_length t ≤ max → any is_control_or_format t ≡ false → Fits max t
literal-Fits max t h k = (h, literal-HasNoControl t k)

pub literal-IsPlain :
    (max : ℕ) (t : List ℕ)
    → 1 ≤ text_length t
    → text_length t ≤ max
    → any is_control_or_format t ≡ false
    → IsPlain max t
literal-IsPlain max t h k l = (h, k, literal-HasNoControl t l)

if-IsPlain :
    (max : ℕ) (b : Bool) (s t : List ℕ)
    → IsPlain max s
    → IsPlain max t
    → IsPlain max (if b then s else t)
if-IsPlain max true s t h k = h
if-IsPlain max false s t h k = k

pub with_year-IsPlain :
    (movie : List ℕ) (year : Option ℕ) → IsPlain 260 movie → IsPlain 300 (with_year movie year)
unfolding is_control_or_format
with_year-IsPlain movie none h = IsPlain-more 260 300 movie h (omega arith)
with_year-IsPlain movie (some year) h =
    let end =
      Fits-append 16 1 (number_text year) (codes ")") (number_text-Fits year)
        (literal-Fits 1 (codes ")") (omega arith) refl) in
    let both =
      Fits-append 2 17 (codes " (") _ (literal-Fits 2 (codes " (") (omega arith) refl) end in
    if-IsPlain 300 (leb 1800 year && leb year 3000) _ _
      (IsPlain-append 260 19 300 movie _ h both (omega arith))
      (IsPlain-more 260 300 movie h (omega arith))

pub if-Fits :
    (max : ℕ) (b : Bool) (s t : List ℕ) → Fits max s → Fits max t → Fits max (if b then s else t)
if-Fits max true s t h k = h
if-Fits max false s t h k = k
