-- ===== src/Host/Text.antt =====
-- The regular expressions of src/lib/host-metrics.ts, on texts as lists of code units.
use voidstation_app.Prelude.{
  Bool, List, Option, [], all, false, if◌then◌else◌, is_space, leb, length, none, some, trim, true,
  ℕ, ◌&&◌, ◌*◌, ◌++◌, ◌+◌, ◌-◌, ◌==◌, ◌^◌, ◌||◌, ◌∷◌, is_digit,
}
use voidstation_app.Values.{max_safe_integer}

-- What ends a line for ^ and $ under the flag m
abbrev pub ends_line : ℕ → Bool
ends_line c = c == 10 || c == 13 || c == 0x2028 || c == 0x2029

abbrev pub is_line_end : List ℕ → Bool
is_line_end [] = true
is_line_end (c ∷ t) = ends_line c

abbrev pub starts_crlf : ℕ → List ℕ → Bool
starts_crlf c [] = false
starts_crlf c (d ∷ t) = c == 13 && d == 10

-- .split(/\r?\n/): the line that is being read comes first.
unfoldable pub lines_from : List ℕ → List ℕ → List (List ℕ)
lines_from line [] = line ∷ []
lines_from line (c ∷ t) =
    let next = lines_from [] t in
    let more = lines_from (line ++ c ∷ []) t in
    let same = lines_from line t in
    if c == 10 then line ∷ next else if starts_crlf c t then same else more

abbrev pub lines_of : List ℕ → List (List ℕ)
lines_of t = lines_from [] t

-- .split(/\s+/) of a trimmed text: the word that is being read comes first.
unfoldable pub words_from : List ℕ → List ℕ → List (List ℕ)
words_from word [] = word ∷ []
words_from word (c ∷ t) =
    let next = words_from [] t in
    let more = words_from (word ++ c ∷ []) t in
    let same = words_from word t in
    if is_space c then (if leb (length word) 0 then same else word ∷ next) else more

abbrev pub words_of : List ℕ → List (List ℕ)
words_of t = words_from [] (trim t)

-- The text after a start, if it has it
unfoldable pub after_prefix : List ℕ → List ℕ → Option (List ℕ)
after_prefix [] t = some t
after_prefix (c ∷ start) [] = none
after_prefix (c ∷ start) (d ∷ t) = if c == d then after_prefix start t else none

-- The longest start of which every character passes, and what follows it
unfoldable pub span : (ℕ → Bool) → List ℕ → List ℕ × List ℕ
span test [] = ([], [])
span test (c ∷ t) = let (run, rest) = span test t in if test c then (c ∷ run, rest) else ([], c ∷ t)

-- x+ for a class x that what follows does not begin with
abbrev pub some_of : (ℕ → Bool) → List ℕ → Option (List ℕ × List ℕ)
some_of test t = if leb 1 (length (span test t).0) then some (span test t) else none

-- `Number` of digits
unfoldable pub digits_value : ℕ → List ℕ → ℕ
digits_value n [] = n
digits_value n (c ∷ t) = digits_value (n * 10 + (c - 48)) t

-- /^\d+$/
abbrev pub is_digits : List ℕ → Bool
is_digits t = leb 1 (length t) && all is_digit t

abbrev pub safe_number : List ℕ → Option ℕ
safe_number t =
    let n = digits_value 0 t in if is_digits t && leb n max_safe_integer then some n else none

-- A decimal: digits / 10 ^ scale. It is kept exactly, where the program has the nearest double.
pub record Decimal : Type 0 where
  pub digits : ℕ
  pub scale : ℕ

abbrev pub is_at_most : Decimal → ℕ → Bool
is_at_most d n = leb d.digits (n * 10 ^ d.scale)

-- (?:\.\d+)?$
abbrev pub fraction_of : List ℕ → Option (List ℕ)
fraction_of [] = some []
fraction_of (c ∷ t) = if c == 46 && is_digits t then some t else none

abbrev pub decimal_of : List ℕ → Option (List ℕ) → Option Decimal
decimal_of whole_part none = none
decimal_of whole_part (some fraction) =
    some (record { digits = digits_value 0 (whole_part ++ fraction); scale = length fraction })

abbrev pub bounded_decimal : Option Decimal → Option Decimal
bounded_decimal none = none
bounded_decimal (some d) = if is_at_most d max_safe_integer then some d else none

-- /^\d+(?:\.\d+)?$/ and what `parseDecimal` and `parseUptime` demand of the number
unfoldable pub parse_decimal : List ℕ → Option Decimal
parse_decimal t =
    let (whole_part, rest) = span is_digit t in
    if leb 1 (length whole_part)
    then bounded_decimal (decimal_of whole_part (fraction_of rest))
    else none

-- The first line start at which a parser succeeds: `exec` with ^ and the flag m
unfoldable pub find_line {ℓ} : {A : Type ℓ} → (List ℕ → Option A) → Bool → List ℕ → Option A
find_line parse at_start [] = if at_start then parse [] else none
find_line parse at_start (c ∷ t) =
    let rest = find_line parse (ends_line c) t in
    if at_start then elim (parse (c ∷ t)) [ none ↦ rest | some a ↦ some a ] else rest
