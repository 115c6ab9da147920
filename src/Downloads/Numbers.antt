-- ===== src/Downloads/Numbers.antt =====
-- The decimal digits in the titles and identifiers of worker/src/downloads.ts.
use voidstation_app.Prelude.{
  All, Bool-cases, List, [], ap, arith, inl, inr, length, length-append, ltb, ltb→lt, lt→ltb, refl,
  suc, sym, true, zero, ℕ, ◌*◌, ◌+◌, ◌-◌, ◌/◌, ◌<◌, ◌∙◌, ◌∷◌, ◌≡◌, ◌≤◌, is_digit,
}
use voidstation_app.Downloads.Text.{text_length}
use voidstation_app.Downloads.Items.{low_digits, number_text}
use voidstation_app.Downloads.Plain.{All-reverse}
use mathlib.Core.List.{reverse, reverse-append, reverse-reverse}

abbrev pub AreDigits : List ℕ → Type 0
AreDigits t = All (λ c. is_digit c ≡ true) t

low_digits-AreDigits : (fuel n : ℕ) → AreDigits (low_digits fuel n)
unfolding low_digits is_digit
low_digits-AreDigits zero n = tt
low_digits-AreDigits (suc fuel) n = (
  ground arith,
  elim (Bool-cases (ltb n 10)) [
    | inl e ↦ rw e tt
    | inr e ↦ rw e (low_digits-AreDigits fuel (n / 10))
  ],
)

pub number_text-AreDigits : (n : ℕ) → AreDigits (number_text n)
unfolding number_text
number_text-AreDigits n = All-reverse _ _ (low_digits-AreDigits 16 n)

pub text_length-AreDigits : (t : List ℕ) → AreDigits t → text_length t ≡ length t
unfolding is_digit
text_length-AreDigits [] h = refl
text_length-AreDigits (c ∷ t) (h, hs) = ground (arith, text_length-AreDigits t hs)

length-reverse {ℓ} : {A : Type ℓ} (xs : List A) → length (reverse xs) ≡ length xs
length-reverse [] = refl
length-reverse (x ∷ xs) =
    rw (reverse-append (x ∷ []) xs)
      (omega (arith, length-append (reverse xs) (x ∷ []), length-reverse xs))

-- 10 ^ d
unfoldable pub power_of_ten : ℕ → ℕ
power_of_ten zero = 1
power_of_ten (suc d) = 10 * power_of_ten d

length-low_digits-le :
    (fuel d n : ℕ) → n < power_of_ten (suc d) → length (low_digits fuel n) ≤ suc d
unfolding low_digits power_of_ten
length-low_digits-le zero d n h = omega arith
length-low_digits-le (suc fuel) zero n h = rw (lt→ltb n 10 (omega arith)) (omega arith)
length-low_digits-le (suc fuel) (suc d) n h = elim (Bool-cases (ltb n 10)) [
  | inl e ↦ rw e (omega arith)
  | inr e ↦ rw e (omega (arith, length-low_digits-le fuel d (n / 10) (omega arith)))
]

length-low_digits-le_fuel : (fuel n : ℕ) → length (low_digits fuel n) ≤ fuel
unfolding low_digits
length-low_digits-le_fuel zero n = omega arith
length-low_digits-le_fuel (suc fuel) n = elim (Bool-cases (ltb n 10)) [
  | inl e ↦ rw e (omega arith)
  | inr e ↦ rw e (omega (arith, length-low_digits-le_fuel fuel (n / 10)))
]

pub length-number_text-le : (n : ℕ) → length (number_text n) ≤ 16
unfolding number_text
length-number_text-le n =
    omega (arith, length-reverse {0} (low_digits 16 n), length-low_digits-le_fuel 16 n)

pub length-number_text-le_digits :
    (d n : ℕ) → n < power_of_ten (suc d) → length (number_text n) ≤ suc d
unfolding number_text
length-number_text-le_digits d n h =
    omega (arith, length-reverse {0} (low_digits 16 n), length-low_digits-le 16 d n h)

pub length-number_text-pos : (n : ℕ) → 1 ≤ length (number_text n)
unfolding number_text low_digits
length-number_text-pos n =
    omega (arith, length-reverse {0} (low_digits 16 n), length-low_digits-pos n)
  where
    length-low_digits-pos : (n : ℕ) → 1 ≤ length (low_digits 16 n)
    length-low_digits-pos n = omega arith

value_of : List ℕ → ℕ
value_of [] = 0
value_of (c ∷ t) = (c - 48) + 10 * value_of t

value_of-low_digits : (fuel n : ℕ) → n < power_of_ten fuel → value_of (low_digits fuel n) ≡ n
unfolding low_digits value_of power_of_ten
value_of-low_digits zero n h = omega arith
value_of-low_digits (suc fuel) n h = elim (Bool-cases (ltb n 10)) [
  | inl e ↦ rw e (let small = ltb→lt n 10 e in omega arith)
  | inr e ↦ rw e (omega (arith, value_of-low_digits fuel (n / 10) (omega arith)))
]

-- Two numbers of at most 16 digits have different texts.
pub number_text_injective :
    (m n : ℕ) → m < power_of_ten 16 → n < power_of_ten 16 → number_text m ≡ number_text n → m ≡ n
unfolding number_text
number_text_injective m n h k e =
    sym (value_of-low_digits 16 m h)
    ∙ ap value_of
        (sym (reverse-reverse (low_digits 16 m)) ∙ ap reverse e ∙ reverse-reverse (low_digits 16 n))
    ∙ value_of-low_digits 16 n k
