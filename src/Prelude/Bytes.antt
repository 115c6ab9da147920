-- ===== src/Prelude/Bytes.antt =====
-- Byte strings and texts that the program walks, as lists of numbers.
use Prim.Native.Char.{code}
use Prim.Native.Nat.{ℕ, zero, suc, ◌+◌, ◌/◌, ◌%◌}
use Prim.Native.String
use mathlib.Core.Option.{none, some}
use voidstation_app.Prelude.Tests.{if◌then◌else◌, leb, ltb, ◌==◌}
use voidstation_app.Prelude.Lists.{get_elem?}
use Prim.Native.String.{String}
use mathlib.Core.Bool.{Bool, true, false, ◌&&◌, ◌||◌}
use mathlib.Core.List.{List, [], ◌∷◌, reverse}
use mathlib.Core.Logic.{◌↔◌}
use mathlib.Core.Path.{◌≡◌, refl}
use native.Mathlib.Omega.{arith}

-- The code points of a literal: its UTF-16 units and its bytes, if it is ASCII.
abbrev pub codes : String → List ℕ
codes String.[] = []
codes (String.◌∷◌ c s) = code c ∷ codes s

infix 50 ◌=b◌
unfoldable pub ◌=b◌ : List ℕ → List ℕ → Bool
[] =b [] = true
(x ∷ xs) =b (y ∷ ys) = x == y && xs =b ys
_ =b _ = false

pub =b_refl : (xs : List ℕ) → (xs =b xs) ≡ true
unfolding ◌=b◌
=b_refl [] = refl
=b_refl (x ∷ xs) = ground (arith, =b_refl xs)

pub =b→eq : (xs ys : List ℕ) → (xs =b ys) ≡ true → xs ≡ ys
unfolding ◌=b◌
=b→eq [] [] h = refl
=b→eq (x ∷ xs) (y ∷ ys) h = ground (arith, =b→eq xs ys)
=b→eq [] (y ∷ ys) h = cc
=b→eq (x ∷ xs) [] h = cc

pub =b_iff : (xs ys : List ℕ) → ((xs =b ys) ≡ true) ↔ (xs ≡ ys)
=b_iff xs ys = (=b→eq xs ys, λ e. rw e (=b_refl ys))

-- The order of BLOB columns: byte by byte, a prefix first.
unfoldable pub bytes_leb : List ℕ → List ℕ → Bool
bytes_leb [] ys = true
bytes_leb (x ∷ xs) [] = false
bytes_leb (x ∷ xs) (y ∷ ys) = ltb x y || (x == y && bytes_leb xs ys)

pub bytes_leb_total : (xs ys : List ℕ) → bytes_leb xs ys ≡ false → bytes_leb ys xs ≡ true
unfolding bytes_leb
bytes_leb_total [] ys h = cc
bytes_leb_total (x ∷ xs) [] h = refl
bytes_leb_total (x ∷ xs) (y ∷ ys) h = ground (arith, bytes_leb_total xs ys)

pub bytes_leb_trans :
    (xs ys zs : List ℕ) → bytes_leb xs ys ≡ true → bytes_leb ys zs ≡ true → bytes_leb xs zs ≡ true
unfolding bytes_leb
bytes_leb_trans [] ys zs h k = refl
bytes_leb_trans (x ∷ xs) [] zs h k = cc
bytes_leb_trans (x ∷ xs) (y ∷ ys) [] h k = cc
bytes_leb_trans (x ∷ xs) (y ∷ ys) (z ∷ zs) h k = ground (arith, bytes_leb_trans xs ys zs)

pub =b_sym : (xs ys : List ℕ) → (xs =b ys) ≡ (ys =b xs)
unfolding ◌=b◌
=b_sym [] [] = refl
=b_sym (x ∷ xs) (y ∷ ys) = ground (arith, =b_sym xs ys)
=b_sym [] (y ∷ ys) = refl
=b_sym (x ∷ xs) [] = refl

digits : List String
digits = "0" ∷ "1" ∷ "2" ∷ "3" ∷ "4" ∷ "5" ∷ "6" ∷ "7" ∷ "8" ∷ "9" ∷ []

digit : ℕ → String
unfolding digits
digit d = elim (get_elem? digits d) [ none ↦ "" | some s ↦ s ]

decimal_from : ℕ → ℕ → String → String
unfolding digit
decimal_from zero n rest = rest
decimal_from (suc fuel) n rest =
    let longer = decimal_from fuel (n / 10) (String.◌++◌ (digit (n % 10)) rest) in
    if ltb n 10 then String.◌++◌ (digit n) rest else longer

-- `String(n)`: a number has no more digits than its value plus one.
unfoldable pub decimal : ℕ → String
unfolding decimal_from
decimal n = decimal_from (n + 1) n ""

decimal_example : decimal 28800 ≡ "28800"
unfolding decimal
decimal_example = refl

-- \d
unfoldable pub is_digit : ℕ → Bool
is_digit c = leb 48 c && leb c 57

-- The white space that `trim` takes off and `\s` matches, by code unit.
unfoldable pub is_space : ℕ → Bool
is_space c =
    (leb 9 c && leb c 13)
    || c == 32
    || c == 0xA0
    || c == 0x1680
    || (leb 0x2000 c && leb c 0x200A)
    || c == 0x2028
    || c == 0x2029
    || c == 0x202F
    || c == 0x205F
    || c == 0x3000
    || c == 0xFEFF

unfoldable pub trim_start : List ℕ → List ℕ
unfolding is_space
trim_start [] = []
trim_start (c ∷ text) = if is_space c then trim_start text else c ∷ text

-- `text.trim()`
unfoldable pub trim : List ℕ → List ℕ
unfolding trim_start
trim text = reverse (trim_start (reverse (trim_start text)))
