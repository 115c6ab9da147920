-- ===== src/Downloads/Distinct.antt =====
-- The items of a queue in worker/src/downloads.ts have different identifiers.
use voidstation_app.Prelude.{
  =b_sym, All, All-append, Bool, List, [], any, ap, arith, false, insert_by, length, map, refl,
  sort_by, suc, take, true, zero, ℕ, ◌++◌, ◌+◌, ◌=b◌, ◌||◌, ◌∙◌, ◌∷◌, ◌≡◌, ◌≤◌,
}
use voidstation_app.Downloads.Records.{MediaService, Platform}
use voidstation_app.Downloads.Items.{DownloadItem, item_for}
use voidstation_app.Downloads.Queue.{
  Group, add_used, comes_first, id_for, is_used, items_from, max_items,
}
use voidstation_app.Downloads.Contract.{are_distinct}
use voidstation_app.Downloads.Ids.{IsOwnId, max_groups, IsForeign, id_for-IsNewId, is_used-append}

abbrev pub ids_of : List DownloadItem → List (List ℕ)
ids_of items = map (λ item. item.id) items

IsForeign-suc :
    (service : MediaService) (index : ℕ) (used : List (List ℕ))
    → All (IsForeign service index) used
    → All (IsForeign service (suc index)) used
IsForeign-suc service index [] h = tt
IsForeign-suc service index (u ∷ used) (h, hs) =
    (λ j l m. h j (omega (arith, l)) m, IsForeign-suc service index used hs)

add_used-new :
    (used : List (List ℕ)) (id : List ℕ)
    → is_used used id ≡ false
    → add_used used id ≡ used ++ id ∷ []
add_used-new used id h = rw h refl

-- Identifiers that are none of the used ones
abbrev AreUnused : List (List ℕ) → List (List ℕ) → Type 0
AreUnused used ids = All (λ id. is_used used id ≡ false) ids

AreUnused-tail :
    (used ids : List (List ℕ)) (id : List ℕ) → AreUnused (used ++ id ∷ []) ids → AreUnused used ids
AreUnused-tail used [] id h = tt
AreUnused-tail used (i ∷ ids) id (h, hs) =
    (ground (arith, is_used-append used id i), AreUnused-tail used ids id hs)

AreUnused-head :
    (used ids : List (List ℕ)) (id : List ℕ)
    → AreUnused (used ++ id ∷ []) ids
    → any (λ i. i =b id) ids ≡ false
AreUnused-head used [] id h = refl
AreUnused-head used (i ∷ ids) id (h, hs) =
    ground (arith, is_used-append used id i, =b_sym id i, AreUnused-head used ids id hs)

abbrev pub HasOwnIds : List Group → Type 0
HasOwnIds groups = All (λ group. IsOwnId group.records.first.download_id) groups

items_from-distinct :
    (p : Platform) (service : MediaService) (index : ℕ) (used : List (List ℕ)) (groups : List Group)
    → All (IsForeign service index) used
    → index + length groups ≤ max_groups
    → HasOwnIds groups
    → AreUnused used (ids_of (items_from p service index used groups))
      × (are_distinct (ids_of (items_from p service index used groups)) ≡ true)
unfolding items_from are_distinct item_for
items_from-distinct p service index used [] h l o = (tt, refl)
items_from-distinct p service index used (group ∷ groups) h l (o, os) =
    let id = id_for service index used group.records.first in
    let new = id_for-IsNewId service index used group.records.first h (omega (arith, l)) o in
    let foreign =
      All-append (IsForeign service (suc index)) used (id ∷ []) (IsForeign-suc service index used h)
        (new.foreign, tt) in
    let rest =
      items_from-distinct p service (suc index) (used ++ id ∷ []) groups foreign (omega (arith, l))
        os in
    rw (add_used-new used id new.unused)
      ((new.unused, AreUnused-tail used _ id rest.0), (rw (AreUnused-head used _ id rest.0) rest.1))

any-ids-insert_by :
    (le : DownloadItem → DownloadItem → Bool) (test : List ℕ → Bool) (item : DownloadItem)
    (items : List DownloadItem)
    → any test (ids_of (insert_by le item items)) ≡ any test (ids_of (item ∷ items))
unfolding insert_by
any-ids-insert_by le test item [] = refl
any-ids-insert_by le test item (i ∷ items) = ground (arith, any-ids-insert_by le test item items)

distinct-insert_by :
    (le : DownloadItem → DownloadItem → Bool) (item : DownloadItem) (items : List DownloadItem)
    → are_distinct (ids_of (item ∷ items)) ≡ true
    → are_distinct (ids_of (insert_by le item items)) ≡ true
unfolding insert_by are_distinct
distinct-insert_by le item [] h = refl
distinct-insert_by le item (i ∷ items) h = ground (
  arith,
  distinct-insert_by le item items,
  any-ids-insert_by le (λ (id : List ℕ). id =b i.id) item items,
  =b_sym i.id item.id,
)

any-ids-sort_by :
    (le : DownloadItem → DownloadItem → Bool) (test : List ℕ → Bool) (items : List DownloadItem)
    → any test (ids_of (sort_by le items)) ≡ any test (ids_of items)
unfolding sort_by
any-ids-sort_by le test [] = refl
any-ids-sort_by le test (i ∷ items) =
    any-ids-insert_by le test i (sort_by le items)
    ∙ ap (λ b. test i.id || b) (any-ids-sort_by le test items)

distinct-sort_by :
    (le : DownloadItem → DownloadItem → Bool) (items : List DownloadItem)
    → are_distinct (ids_of items) ≡ true
    → are_distinct (ids_of (sort_by le items)) ≡ true
unfolding sort_by are_distinct
distinct-sort_by le [] h = refl
distinct-sort_by le (i ∷ items) h = distinct-insert_by le i (sort_by le items) (
    ground
      (arith, distinct-sort_by le items, any-ids-sort_by le (λ (id : List ℕ). id =b i.id) items))

any-ids-take :
    (test : List ℕ → Bool) (n : ℕ) (items : List DownloadItem)
    → any test (ids_of items) ≡ false
    → any test (ids_of (take n items)) ≡ false
any-ids-take test zero items h = refl
any-ids-take test (suc n) [] h = refl
any-ids-take test (suc n) (i ∷ items) h = ground (arith, any-ids-take test n items)

distinct-take :
    (n : ℕ) (items : List DownloadItem)
    → are_distinct (ids_of items) ≡ true
    → are_distinct (ids_of (take n items)) ≡ true
unfolding are_distinct
distinct-take zero items h = refl
distinct-take (suc n) [] h = refl
distinct-take (suc n) (i ∷ items) h =
    ground (arith, distinct-take n items, any-ids-take (λ (id : List ℕ). id =b i.id) n items)

pub shown-distinct :
    (p : Platform) (service : MediaService) (groups : List Group)
    → length groups ≤ max_groups
    → HasOwnIds groups
    → are_distinct
        (ids_of (take max_items (sort_by (comes_first p) (items_from p service 0 [] groups))))
      ≡ true
shown-distinct p service groups l o = distinct-take max_items _ (
    distinct-sort_by (comes_first p) _
      (items_from-distinct p service 0 [] groups tt (omega (arith, l)) o).1)
