-- ===== src/Downloads/Ids.antt =====
-- The identifiers that `projectQueue` of worker/src/downloads.ts gives its items.
use voidstation_app.Prelude.{
  =b→eq, All, Bool-cases, List, Option, [], ap, arith, codes, drop, false, inl, inr, none, refl,
  some, subst, suc, true, ℕ, ◌++◌, ◌<◌, ◌=b◌, ◌||◌, ◌∷◌, ◌≡◌, ◌≢◌, ◌≤◌, length, sym, is_digit,
}
use voidstation_app.Downloads.Records.{MediaService, QueueRecord, radarr, sonarr}
use voidstation_app.Downloads.Items.{number_text}
use voidstation_app.Downloads.Queue.{
  candidates, download_candidate, find_unused, id_for, is_safe_id, is_used, item_id, prefixed,
  record_candidate,
}
use voidstation_app.Downloads.Contract.{has_prefix}
use voidstation_app.Downloads.Numbers.{
  AreDigits, number_text-AreDigits, number_text_injective, power_of_ten,
}

-- No download id begins as the identifiers do that the worker makes up.
abbrev pub IsOwnId : Option (List ℕ) → Type 0
IsOwnId none = Unit
IsOwnId (some id) = has_prefix (codes "item-") id ≡ false

abbrev pub max_groups : ℕ
max_groups = 1000000

-- It is not what the worker makes up for an index from this one on.
abbrev pub IsForeign : MediaService → ℕ → List ℕ → Type 0
IsForeign service index id =
    (j : ℕ) → index ≤ j → j < max_groups → id ≢ prefixed service (item_id j)

prefixed_injective :
    (service : MediaService) (x y : List ℕ) → prefixed service x ≡ prefixed service y → x ≡ y
prefixed_injective radarr x y e = ap (drop 7) e
prefixed_injective sonarr x y e = ap (drop 7) e

item_id_prefix : (j : ℕ) → has_prefix (codes "item-") (item_id j) ≡ true
unfolding ◌=b◌
item_id_prefix j = refl

download-IsForeign :
    (service : MediaService) (index : ℕ) (id : List ℕ)
    → has_prefix (codes "item-") id ≡ false
    → IsForeign service index (prefixed service id)
download-IsForeign service index id h j l m e =
    let same = ap (has_prefix (codes "item-")) (prefixed_injective service id (item_id j) e) in
    cc (h, item_id_prefix j, same)

digit_i : is_digit 105 ≡ false
unfolding is_digit
digit_i = refl

record-IsForeign :
    (service : MediaService) (index n : ℕ)
    → IsForeign service index (prefixed service (number_text n))
record-IsForeign service index n j l m e =
    let same = prefixed_injective service (number_text n) (item_id j) e in
    let digits : AreDigits (item_id j) = subst AreDigits same (number_text-AreDigits n) in
    cc (digits.0, digit_i)

item-IsForeign :
    (service : MediaService) (index : ℕ)
    → index < max_groups
    → IsForeign service (suc index) (prefixed service (item_id index))
unfolding power_of_ten
item-IsForeign service index h j l m e =
    let same = ap (drop 5) (prefixed_injective service (item_id index) (item_id j) e) in
    omega (arith, number_text_injective index j (omega (arith, h)) (omega (arith, m)) same)

pub is_used-append :
    (used : List (List ℕ)) (u id : List ℕ)
    → is_used (used ++ u ∷ []) id ≡ (is_used used id || u =b id)
unfolding is_used
is_used-append [] u id = ground arith
is_used-append (v ∷ used) u id = ground (arith, is_used-append used u id)

foreign-is_used :
    (service : MediaService) (index j : ℕ) (used : List (List ℕ))
    → All (IsForeign service index) used
    → index ≤ j
    → j < max_groups
    → is_used used (prefixed service (item_id j)) ≡ false
unfolding is_used
foreign-is_used service index j [] h l m = refl
foreign-is_used service index j (u ∷ used) (h, hs) l m =
    elim (Bool-cases (u =b prefixed service (item_id j))) [
      | inl e ↦ absurd (h j l m (=b→eq _ _ e))
      | inr e ↦ rw e (foreign-is_used service index j used hs l m)
    ]

-- A candidate is taken that is new, and that is no made-up identifier of a later index.
record Taken (service : MediaService) (index : ℕ) (used : List (List ℕ))
    (cs : List (Option (List ℕ))) : Type 0 where
  id : List ℕ
  found : find_unused used cs ≡ some id
  unused : is_used used id ≡ false
  foreign : IsForeign service (suc index) id

Taken-none :
    (service : MediaService) (index : ℕ) (used : List (List ℕ)) (cs : List (Option (List ℕ)))
    → Taken service index used cs
    → Taken service index used (none ∷ cs)
Taken-none service index used cs t = record {
  id = t.id;
  found = t.found;
  unused = t.unused;
  foreign = t.foreign;
}

Taken-some :
    (service : MediaService) (index : ℕ) (used : List (List ℕ)) (cs : List (Option (List ℕ)))
    (c : List ℕ)
    → IsForeign service (suc index) c
    → Taken service index used cs
    → Taken service index used (some c ∷ cs)
Taken-some service index used cs c h t = elim (Bool-cases (is_used used c)) [
  | inl e ↦ record { id = t.id; found = rw e t.found; unused = t.unused; foreign = t.foreign }
  | inr e ↦ record { id = c; found = rw e refl; unused = e; foreign = h }
]

Taken-download :
    (service : MediaService) (index : ℕ) (used : List (List ℕ)) (cs : List (Option (List ℕ)))
    (id : Option (List ℕ))
    → IsOwnId id
    → Taken service index used cs
    → Taken service index used (download_candidate service id ∷ cs)
Taken-download service index used cs none h t = Taken-none service index used cs t
Taken-download service index used cs (some id) h t = elim (Bool-cases (is_safe_id id)) [
  | inl e ↦ rw e (
      Taken-some service index used cs (prefixed service id)
        (download-IsForeign service (suc index) id h) t)
  | inr e ↦ rw e (Taken-none service index used cs t)
]

Taken-record :
    (service : MediaService) (index : ℕ) (used : List (List ℕ)) (cs : List (Option (List ℕ)))
    (id : Option ℕ)
    → Taken service index used cs
    → Taken service index used (record_candidate service id ∷ cs)
Taken-record service index used cs none t = Taken-none service index used cs t
Taken-record service index used cs (some id) t =
    Taken-some service index used cs (prefixed service (number_text id))
      (record-IsForeign service (suc index) id) t

Taken-candidates :
    (service : MediaService) (index : ℕ) (used : List (List ℕ)) (first : QueueRecord)
    → All (IsForeign service index) used
    → index < max_groups
    → IsOwnId first.download_id
    → Taken service index used (candidates service index first)
Taken-candidates service index used first h l k =
    let item = prefixed service (item_id index) in
    let unused = foreign-is_used service index index used h (omega arith) l in
    let last : Taken service index used (some item ∷ []) = record {
      id = item;
      found = rw unused refl;
      unused = unused;
      foreign = item-IsForeign service index l;
    } in
    Taken-download service index used _ first.download_id k
      (Taken-record service index used _ first.id last)

pub record IsNewId (service : MediaService) (index : ℕ) (used : List (List ℕ)) (id : List ℕ)
    : Type 0 where
  pub unused : is_used used id ≡ false
  pub foreign : IsForeign service (suc index) id

chosen : MediaService → ℕ → List (List ℕ) → Option (List ℕ) → List ℕ
chosen service index used o = elim o [
  | none ↦ prefixed service (item_id index ++ 45 ∷ number_text (length used))
  | some id ↦ id
]

pub id_for-IsNewId :
    (service : MediaService) (index : ℕ) (used : List (List ℕ)) (first : QueueRecord)
    → All (IsForeign service index) used
    → index < max_groups
    → IsOwnId first.download_id
    → IsNewId service index used (id_for service index used first)
unfolding id_for chosen
id_for-IsNewId service index used first h l k =
    let t = Taken-candidates service index used first h l k in
    subst (λ o. IsNewId service index used (chosen service index used o)) (sym t.found)
      (record { unused = t.unused; foreign = t.foreign })
