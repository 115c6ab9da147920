-- ===== src/Downloads/Text.antt =====
-- `text` and `plainText` of worker/src/downloads.ts, on texts as lists of code points.
use voidstation_app.Prelude.{
  Bool, List, Option, [], codes, false, if◌then◌else◌, is_space, leb, length, ltb, map, max, none,
  refl, some, trim, trim_start, ℕ, ◌&&◌, ◌++◌, ◌+◌, ◌-◌, ◌==◌, ◌||◌, ◌∷◌, ◌≡◌,
}
use mathlib.Core.List.{reverse}

-- `.length` counts UTF-16 units.
abbrev pub units : ℕ → ℕ
units c = if ltb c 0x10000 then 1 else 2

abbrev pub text_length : List ℕ → ℕ
text_length [] = 0
text_length (c ∷ t) = units c + text_length t

-- [\p{Cc}\p{Cf}]
unfoldable pub is_control_or_format : ℕ → Bool
is_control_or_format c =
    ltb c 0x20
    || (leb 0x7F c && leb c 0x9F)
    || c == 0xAD
    || (leb 0x600 c && leb c 0x605)
    || c == 0x61C
    || c == 0x6DD
    || c == 0x70F
    || (leb 0x890 c && leb c 0x891)
    || c == 0x8E2
    || c == 0x180E
    || (leb 0x200B c && leb c 0x200F)
    || (leb 0x202A c && leb c 0x202E)
    || (leb 0x2060 c && leb c 0x2064)
    || (leb 0x2066 c && leb c 0x206F)
    || c == 0xFEFF
    || (leb 0xFFF9 c && leb c 0xFFFB)
    || c == 0x110BD
    || c == 0x110CD
    || (leb 0x13430 c && leb c 0x1343F)
    || (leb 0x1BCA0 c && leb c 0x1BCA3)
    || (leb 0x1D173 c && leb c 0x1D17A)
    || c == 0xE0001
    || (leb 0xE0020 c && leb c 0xE007F)

-- [\p{Zl}\p{Zp}]
abbrev pub is_line_separator : ℕ → Bool
is_line_separator c = c == 0x2028 || c == 0x2029

abbrev pub as_space : ℕ → ℕ
as_space c = if is_control_or_format c || is_line_separator c then 32 else c

-- .replace(/\s+/g, " "): `after` is whether the character before was white space.
unfoldable pub one_spaces : Bool → List ℕ → List ℕ
one_spaces after [] = []
one_spaces after (c ∷ t) =
    let rest = one_spaces (is_space c) t in
    if is_space c then (if after then rest else 32 ∷ rest) else c ∷ rest

abbrev pub clean : List ℕ → List ℕ
clean t = trim (one_spaces false (map as_space t))

-- The loop over the characters: it stops before one that would not fit in `limit`.
unfoldable pub fitting : ℕ → ℕ → List ℕ → List ℕ
fitting limit used [] = []
fitting limit used (c ∷ t) =
    let rest = fitting limit (used + units c) t in
    if ltb limit (used + units c) then [] else c ∷ rest

-- `trimEnd`
abbrev pub trim_end : List ℕ → List ℕ
trim_end t = reverse (trim_start (reverse t))

abbrev pub shortened : ℕ → List ℕ → Option (List ℕ)
shortened max cleaned =
    if leb (length cleaned) 0
    then none
    else if leb (text_length cleaned) max
    then some cleaned
    else some (trim_end (fitting (max - 1) 0 cleaned) ++ 0x2026 ∷ [])

unfoldable pub plain_text : Option (List ℕ) → ℕ → Option (List ℕ)
plain_text none max = none
plain_text (some t) max = shortened max (clean t)

plain_text_example : plain_text (some (codes "  a\tb  ")) 200 ≡ some (codes "a b")
unfolding plain_text one_spaces is_control_or_format is_space trim trim_start
plain_text_example = refl

cut_example : plain_text (some (codes "abc defg")) 5 ≡ some (codes "abc…")
unfolding plain_text one_spaces is_control_or_format is_space trim trim_start fitting
cut_example = refl
