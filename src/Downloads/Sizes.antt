-- ===== src/Downloads/Sizes.antt =====
-- The sizes, the progress, the status and the problem of an item of worker/src/downloads.ts.
use voidstation_app.Prelude.{
  All, Bool-cases, List, Option, [], arith, inl, inr, leb, ltb, none, not, refl, some, true, ℕ, ◌%◌,
  ◌&&◌, ◌++◌, ◌/◌, ◌==◌, ◌=b◌, ◌^◌, ◌||◌, ◌∷◌, ◌≡◌, ◌≤◌,
}
use voidstation_app.Values.{
  Members, Number, Value, array, boolean, finite, infinite, max_safe_integer, member_of, natural?,
  natural?-whole, null, number, object, text,
}
use voidstation_app.Downloads.Text.{plain_text}
use voidstation_app.Downloads.Records.{
  DownloadStatus, QueueRecord, completed, delayed, downloading, failed, importing, natural_value,
  paused, queued, record_of, warning,
}
use voidstation_app.Downloads.Items.{
  error_messages, first_left, first_plain, larger, max_problem_length, percent, problem, progress,
  size_left_of, size_of, sized_from, status_texts, status_titles,
}
use voidstation_app.Downloads.Contract.{is_bytes, is_percentage, is_status, null_or, status_text}
use voidstation_app.Downloads.Snapshot.{tenths_or_null, whole_or_null}
use voidstation_app.Downloads.Plain.{IsPlainOrNone, plain_text-IsPlainOrNone}

abbrev pub IsSafe : Option ℕ → Type 0
IsSafe none = Unit
IsSafe (some n) = n ≤ max_safe_integer

-- The sizes are safe integers, as those of a parsed record are.
pub record HasSafeSizes (r : QueueRecord) : Type 0 where
  pub safe_size : IsSafe r.size
  pub safe_left : IsSafe r.size_left

natural?-IsSafe : (n : Number) → IsSafe (natural? n)
unfolding natural?
natural?-IsSafe (infinite negative) = tt
natural?-IsSafe (finite negative digits scale) =
    elim (Bool-cases (
      digits % 10 ^ scale == 0
      && leb (digits / 10 ^ scale) max_safe_integer
      && (not negative || (digits / 10 ^ scale) == 0))) [
        | inl e ↦ rw e (ground arith)
        | inr e ↦ rw e tt
      ]

pub natural_value-IsSafe : (v : Option Value) → IsSafe (natural_value v)
natural_value-IsSafe none = tt
natural_value-IsSafe (some null) = tt
natural_value-IsSafe (some (boolean b)) = tt
natural_value-IsSafe (some (number n)) = natural?-IsSafe n
natural_value-IsSafe (some (text t)) = tt
natural_value-IsSafe (some (array vs)) = tt
natural_value-IsSafe (some (object ms)) = tt

pub record_of-HasSafeSizes : (members : Members) → HasSafeSizes (record_of members)
record_of-HasSafeSizes members = record {
  safe_size = natural_value-IsSafe (member_of "size" members);
  safe_left = natural_value-IsSafe (member_of "sizeLeft" members);
}

IsSafeBest : Option (ℕ × Option ℕ) → Type 0
IsSafeBest none = Unit
IsSafeBest (some (size, left)) = (size ≤ max_safe_integer) × IsSafe left

larger-IsSafeBest :
    (best : Option (ℕ × Option ℕ)) (size left : Option ℕ)
    → IsSafeBest best
    → IsSafe size
    → IsSafe left
    → IsSafeBest (larger best size left)
unfolding IsSafeBest
larger-IsSafeBest none none left h k l = tt
larger-IsSafeBest (some (m, n)) none left h k l = h
larger-IsSafeBest none (some s) left h k l = (k, l)
larger-IsSafeBest (some (m, n)) (some s) left h k l = elim (Bool-cases (ltb m s)) [
  | inl e ↦ rw e (k, l)
  | inr e ↦ rw e h
]

sized_from-IsSafeBest :
    (best : Option (ℕ × Option ℕ)) (rs : List QueueRecord)
    → IsSafeBest best
    → All HasSafeSizes rs
    → IsSafeBest (sized_from best rs)
sized_from-IsSafeBest best [] h k = h
sized_from-IsSafeBest best (r ∷ rs) h (k, ks) =
    sized_from-IsSafeBest (larger best r.size r.size_left) rs
      (larger-IsSafeBest best r.size r.size_left h k.safe_size k.safe_left) ks

-- `a ?? b`
pub or_else-holds {ℓ} :
    {A : Type ℓ} (P : Option A → Type 0) (a b : Option A)
    → P a
    → P b
    → P (elim a [ none ↦ b | some x ↦ some x ])
or_else-holds P none b h k = k
or_else-holds P (some x) b h k = h

first_left-IsSafe : (rs : List QueueRecord) → All HasSafeSizes rs → IsSafe (first_left rs)
first_left-IsSafe [] h = tt
first_left-IsSafe (r ∷ rs) (h, hs) =
    or_else-holds IsSafe r.size_left (first_left rs) h.safe_left (first_left-IsSafe rs hs)

pub size_of-IsSafe : (rs : List QueueRecord) → All HasSafeSizes rs → IsSafe (size_of rs)
unfolding IsSafeBest
size_of-IsSafe rs h = go (sized_from none rs) (sized_from-IsSafeBest none rs tt h)
  where
    go :
        (o : Option (ℕ × Option ℕ))
        → IsSafeBest o
        → IsSafe (elim o [ none ↦ none | some (size, left) ↦ some size ])
    go none k = tt
    go (some (size, left)) k = k.0

pub size_left_of-IsSafe : (rs : List QueueRecord) → All HasSafeSizes rs → IsSafe (size_left_of rs)
unfolding IsSafeBest
size_left_of-IsSafe rs h = go (sized_from none rs) (sized_from-IsSafeBest none rs tt h)
  where
    go :
        (o : Option (ℕ × Option ℕ))
        → IsSafeBest o
        → IsSafe (elim o [ none ↦ first_left rs | some (size, left) ↦ left ])
    go none k = first_left-IsSafe rs h
    go (some (size, left)) k = k.1

pub whole_or_null-is_bytes :
    (n : Option ℕ) → IsSafe n → null_or is_bytes (some (whole_or_null n)) ≡ true
whole_or_null-is_bytes none h = refl
whole_or_null-is_bytes (some n) h = rw (natural?-whole n h) refl

-- 100.0 at most
abbrev pub IsAtMostAll : Option ℕ → Type 0
IsAtMostAll none = Unit
IsAtMostAll (some tenths) = tenths ≤ 1000

percent-IsAtMostAll : (size left : ℕ) → IsAtMostAll (percent size left)
percent-IsAtMostAll size left = elim (Bool-cases (ltb 0 size)) [
  | inl e ↦ rw e (grind arith)
  | inr e ↦ rw e tt
]

pub progress-IsAtMostAll : (size left : Option ℕ) → IsAtMostAll (progress size left)
unfolding progress
progress-IsAtMostAll none left = tt
progress-IsAtMostAll (some size) none = tt
progress-IsAtMostAll (some size) (some left) = percent-IsAtMostAll size left

pub tenths_or_null-is_percentage :
    (n : Option ℕ) → IsAtMostAll n → null_or is_percentage (some (tenths_or_null n)) ≡ true
tenths_or_null-is_percentage none h = refl
tenths_or_null-is_percentage (some n) h = ground arith

pub status_text-is_status : (status : DownloadStatus) → is_status (status_text status) ≡ true
unfolding ◌=b◌
status_text-is_status downloading = refl
status_text-is_status queued = refl
status_text-is_status paused = refl
status_text-is_status delayed = refl
status_text-is_status importing = refl
status_text-is_status completed = refl
status_text-is_status warning = refl
status_text-is_status failed = refl

first_plain-IsPlainOrNone : (ts : List (Option (List ℕ))) → IsPlainOrNone 200 (first_plain ts)
first_plain-IsPlainOrNone [] = tt
first_plain-IsPlainOrNone (t ∷ ts) =
    or_else-holds (IsPlainOrNone 200) (plain_text t max_problem_length) (first_plain ts)
      (plain_text-IsPlainOrNone t 200 (omega arith)) (first_plain-IsPlainOrNone ts)

pub problem-IsPlainOrNone : (rs : List QueueRecord) → IsPlainOrNone 200 (problem rs)
unfolding problem
problem-IsPlainOrNone rs =
    first_plain-IsPlainOrNone (error_messages rs ++ (status_texts rs ++ status_titles rs))
