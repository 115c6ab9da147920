-- ===== src/Downloads/WellFormed.antt =====
-- What worker/src/downloads.ts puts in an item passes the checks of src/lib/downloads.ts.
use voidstation_app.Prelude.{
  Bool, Bool-cases, List, Option, [], all, arith, codes, inl, inr, length, length-append, none,
  refl, some, true, ℕ, ◌++◌, ◌=b◌, ◌∷◌, ◌≡◌, ◌≤◌, is_digit,
}
use voidstation_app.Downloads.Text.{text_length}
use voidstation_app.Downloads.Records.{MediaService, QueueRecord, radarr, sonarr}
use voidstation_app.Downloads.Items.{number_text}
use voidstation_app.Downloads.Queue.{
  candidates, download_candidate, find_unused, id_for, is_id_char, is_safe_id, is_used, item_id,
  prefixed, record_candidate,
}
use voidstation_app.Downloads.Contract.{after_letters, is_item_id}
use voidstation_app.Downloads.Numbers.{
  AreDigits, length-number_text-le, length-number_text-pos, number_text-AreDigits,
}

text_length-id_chars : (t : List ℕ) → all is_id_char t ≡ true → text_length t ≡ length t
unfolding is_id_char
text_length-id_chars [] h = refl
text_length-id_chars (c ∷ t) h = ground (arith, text_length-id_chars t)

prefixed-is_item_id :
    (service : MediaService) (t : List ℕ)
    → all is_id_char t ≡ true
    → 1 ≤ length t
    → length t ≤ 153
    → is_item_id service (prefixed service t) ≡ true
unfolding ◌=b◌ after_letters
prefixed-is_item_id radarr t h k l = ground (arith, text_length-id_chars t h)
prefixed-is_item_id sonarr t h k l = ground (arith, text_length-id_chars t h)

digits-id_chars : (t : List ℕ) → AreDigits t → all is_id_char t ≡ true
unfolding is_id_char is_digit
digits-id_chars [] h = refl
digits-id_chars (c ∷ t) (h, hs) = ground (arith, digits-id_chars t hs)

all-append {ℓ} :
    {A : Type ℓ} (test : A → Bool) (xs ys : List A)
    → all test xs ≡ true
    → all test ys ≡ true
    → all test (xs ++ ys) ≡ true
all-append test [] ys h k = k
all-append test (x ∷ xs) ys h k = ground (arith, all-append test xs ys)

number_text-id_chars : (n : ℕ) → all is_id_char (number_text n) ≡ true
number_text-id_chars n = digits-id_chars (number_text n) (number_text-AreDigits n)

item_id-id_chars : (index : ℕ) → all is_id_char (item_id index) ≡ true
unfolding is_id_char
item_id-id_chars index =
    all-append is_id_char (codes "item-") (number_text index) refl (number_text-id_chars index)

fallback-id_chars :
    (index used : ℕ) → all is_id_char (item_id index ++ 45 ∷ number_text used) ≡ true
unfolding is_id_char
fallback-id_chars index used =
    all-append is_id_char (item_id index) _ (item_id-id_chars index)
      (all-append is_id_char (45 ∷ []) (number_text used) refl (number_text-id_chars used))

abbrev AreItemIds : MediaService → List (Option (List ℕ)) → Type 0
AreItemIds service [] = Unit
AreItemIds service (none ∷ cs) = AreItemIds service cs
AreItemIds service (some c ∷ cs) = (is_item_id service c ≡ true) × AreItemIds service cs

download_candidate-AreItemIds :
    (service : MediaService) (id : Option (List ℕ)) (cs : List (Option (List ℕ)))
    → AreItemIds service cs
    → AreItemIds service (download_candidate service id ∷ cs)
download_candidate-AreItemIds service none cs h = h
download_candidate-AreItemIds service (some id) cs h = elim (Bool-cases (is_safe_id id)) [
  | inl e ↦ rw e (prefixed-is_item_id service id (ground arith) (ground arith) (ground arith), h)
  | inr e ↦ rw e h
]

record_candidate-AreItemIds :
    (service : MediaService) (id : Option ℕ) (cs : List (Option (List ℕ)))
    → AreItemIds service cs
    → AreItemIds service (record_candidate service id ∷ cs)
record_candidate-AreItemIds service none cs h = h
record_candidate-AreItemIds service (some n) cs h = (
  prefixed-is_item_id service (number_text n) (number_text-id_chars n) (length-number_text-pos n)
      (omega (arith, length-number_text-le n)),
  h,
)

candidates-AreItemIds :
    (service : MediaService) (index : ℕ) (first : QueueRecord)
    → AreItemIds service (candidates service index first)
candidates-AreItemIds service index first =
    download_candidate-AreItemIds service first.download_id _ (
      record_candidate-AreItemIds service first.id _ (
        prefixed-is_item_id service (item_id index) (item_id-id_chars index) (omega arith)
            (omega (arith, length-number_text-le index)),
        tt,
      ))

found-is_item_id :
    (service : MediaService) (used : List (List ℕ)) (cs : List (Option (List ℕ))) (other : List ℕ)
    → AreItemIds service cs
    → is_item_id service other ≡ true
    → is_item_id service (elim (find_unused used cs) [ none ↦ other | some id ↦ id ]) ≡ true
found-is_item_id service used [] other h k = k
found-is_item_id service used (none ∷ cs) other h k = found-is_item_id service used cs other h k
found-is_item_id service used (some c ∷ cs) other (h, hs) k = elim (Bool-cases (is_used used c)) [
  | inl e ↦ rw e (found-is_item_id service used cs other hs k)
  | inr e ↦ rw e h
]

-- Every identifier passes, also one that an earlier item has.
pub id_for-is_item_id :
    (service : MediaService) (index : ℕ) (used : List (List ℕ)) (first : QueueRecord)
    → is_item_id service (id_for service index used first) ≡ true
unfolding id_for
id_for-is_item_id service index used first =
    found-is_item_id service used (candidates service index first) _
      (candidates-AreItemIds service index first)
      (prefixed-is_item_id service _ (fallback-id_chars index (length used)) (omega arith) (
        omega (
          arith,
          length-append (item_id index) (45 ∷ number_text (length used)),
          length-number_text-le index,
          length-number_text-le (length used),
        )))
