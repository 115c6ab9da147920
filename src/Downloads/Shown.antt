-- ===== src/Downloads/Shown.antt =====
-- The queue that worker/src/downloads.ts makes of records against the check of src/lib/downloads.ts.
use voidstation_app.Prelude.{
  All, All-sort_by, List, [], all, ap, arith, false, leb, length, length-sort_by, length-take,
  le→leb, map, none, refl, some, sort_by, subst, suc, sym, take, true, zero, ℕ, ◌+◌, ◌-◌, ◌=b◌, ◌∷◌,
  ◌≡◌, ◌≤◌,
}
use voidstation_app.Values.{max_safe_integer, natural?-whole, values_list-values_of, whole}
use voidstation_app.Downloads.Records.{MediaService, Platform, QueueRecord}
use voidstation_app.Downloads.Items.{DownloadItem}
use voidstation_app.Downloads.Queue.{
  Group, add_used, comes_first, group_from, id_for, items_from, max_items, project_records,
}
use voidstation_app.Downloads.Contract.{
  are_distinct, has_total, id_of, is_iso_time, is_item, is_service_queue,
}
use voidstation_app.Downloads.Snapshot.{available, item_value, projected, service_value}
use voidstation_app.Downloads.Numbers.{power_of_ten}
use voidstation_app.Downloads.Distinct.{HasOwnIds, ids_of, shown-distinct}
use voidstation_app.Downloads.Groups.{members_of}
use voidstation_app.Downloads.Members.{
  group_from-All, length-group_from, members-All, members-short,
}
use voidstation_app.Downloads.WellFormed.{id_for-is_item_id}
use voidstation_app.Downloads.Accepted.{
  IsAccepted, IsSound, WritesFourDigits, and_true, item_for-IsAccepted,
}

HasOwnIds-of :
    (p : Platform) (groups : List Group)
    → All (λ group. All (IsSound p) (members_of group)) groups
    → HasOwnIds groups
HasOwnIds-of p [] h = tt
HasOwnIds-of p (group ∷ groups) (h, hs) = (h.0.ordinary.own_id, HasOwnIds-of p groups hs)

items_from-IsAccepted :
    (p : Platform) (service : MediaService) (index : ℕ) (used : List (List ℕ)) (groups : List Group)
    → WritesFourDigits p
    → All (λ group. All (IsSound p) (members_of group)) groups
    → All (λ group. length (members_of group) ≤ 999999) groups
    → All (IsAccepted p service) (items_from p service index used groups)
unfolding items_from power_of_ten
items_from-IsAccepted p service index used [] w h l = tt
items_from-IsAccepted p service index used (group ∷ groups) w (h, hs) (l, ls) =
    let id = id_for service index used group.records.first in
    (
      item_for-IsAccepted p service group.records id w h (omega (arith, l))
          (id_for-is_item_id service index used group.records.first),
      items_from-IsAccepted p service (suc index) (add_used used id) groups w hs ls,
    )

length-items_from :
    (p : Platform) (service : MediaService) (index : ℕ) (used : List (List ℕ)) (groups : List Group)
    → length (items_from p service index used groups) ≡ length groups
unfolding items_from
length-items_from p service index used [] = refl
length-items_from p service index used (group ∷ groups) = ap suc (
    length-items_from p service (suc index)
      (add_used used (id_for service index used group.records.first)) groups)

All-take {ℓ κ} : {A : Type ℓ} (P : A → Type κ) (n : ℕ) (xs : List A) → All P xs → All P (take n xs)
All-take P zero xs h = tt
All-take P (suc n) [] h = tt
All-take P (suc n) (x ∷ xs) (h, hs) = (h, All-take P n xs hs)

all-is_item :
    (p : Platform) (service : MediaService) (items : List DownloadItem)
    → All (IsAccepted p service) items
    → all (is_item p service) (map item_value items) ≡ true
all-is_item p service [] h = refl
all-is_item p service (item ∷ items) (h, hs) = and_true _ _ h (all-is_item p service items hs)

map-id_of : (items : List DownloadItem) → map id_of (map item_value items) ≡ ids_of items
map-id_of [] = refl
map-id_of (item ∷ items) = ap (λ ids. item.id ∷ ids) (map-id_of items)

length-map {ℓ κ} :
    {A : Type ℓ} {B : Type κ} (f : A → B) (xs : List A) → length (map f xs) ≡ length xs
length-map f [] = refl
length-map f (x ∷ xs) = ap suc (length-map f xs)

has_total-whole :
    (shown total : ℕ)
    → shown ≤ total
    → total ≤ max_safe_integer
    → has_total shown (some (whole total)) ≡ true
has_total-whole shown total h k =
    subst (λ n. (elim n [ none ↦ false | some m ↦ leb shown m ]) ≡ true)
      (sym (natural?-whole total k)) (le→leb shown total h)

-- A list of items that pass one by one passes as a queue.
available-accepted :
    (p : Platform) (service : MediaService) (items : List DownloadItem) (total : ℕ) (at : List ℕ)
    → All (IsAccepted p service) items
    → length items ≤ 50
    → are_distinct (ids_of items) ≡ true
    → length items ≤ total
    → total ≤ max_safe_integer
    → is_iso_time p at ≡ true
    → is_service_queue p service (some (service_value (available items total at))) ≡ true
unfolding is_service_queue ◌=b◌
available-accepted p service items total at h l d t s i =
    rw (values_list-values_of (map item_value items), length-map item_value items, map-id_of items)
      (and_true _ _ i (
        and_true _ _ (and_true _ _ (and_true _ _ (le→leb _ _ l) (all-is_item p service items h)) d)
          (has_total-whole (length items) total t s)))

shown : Platform → MediaService → List QueueRecord → List DownloadItem
shown p service rs =
    take max_items (sort_by (comes_first p) (items_from p service 0 [] (group_from service [] rs)))

pub project_records-accepted :
    (p : Platform) (service : MediaService) (rs : List QueueRecord) (total : ℕ) (at : List ℕ)
    → WritesFourDigits p
    → All (IsSound p) rs
    → length rs ≤ 999999
    → total ≤ max_safe_integer
    → is_iso_time p at ≡ true
    → is_service_queue p service
        (some (service_value (projected at (some (project_records p service rs total)))))
      ≡ true
unfolding project_records
project_records-accepted p service rs total at w s l t i =
    let groups = group_from service [] rs in
    let lengths = length-group_from service [] rs in
    let sound = members-All (IsSound p) groups (group_from-All (IsSound p) service [] rs tt s) in
    let short = members-short groups 999999 (omega (arith, lengths.1, l)) in
    let items = items_from p service 0 [] groups in
    let sorted = sort_by (comes_first p) items in
    let count = length-take max_items sorted in
    let same = length-sort_by (comes_first p) items in
    let made = length-items_from p service 0 [] groups in
    available-accepted p service (take max_items sorted) (length groups + (total - length rs)) at
      (All-take _ max_items sorted (
        All-sort_by (comes_first p) _ items
          (items_from-IsAccepted p service 0 [] groups w sound short)))
      (omega (arith, count))
      (shown-distinct p service groups (omega (arith, lengths.0, l)) (HasOwnIds-of p groups sound))
      (omega (arith, count, same, made)) (omega (arith, lengths.0, l, t)) i
