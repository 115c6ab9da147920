-- ===== src/Downloads/OneDownload.antt =====
-- What a group of `projectQueue` in worker/src/downloads.ts stands for.
use mathlib.Core.List.{Perm}
use voidstation_app.Prelude.{
  =b_sym, =b→eq, All, All-append, Bool-cases, List, Option, [], any, ap, arith, false, inl, inr,
  none, refl, some, subst, sym, true, ℕ, ◌++◌, ◌=b◌, ◌||◌, ◌∙◌, ◌∷◌, ◌≡◌,
}
use voidstation_app.Downloads.Records.{MediaService, QueueRecord}
use voidstation_app.Downloads.Queue.{
  Group, add_keyed, add_record, alone, group_from, group_key, grown, has_group_key, push_to,
}
use voidstation_app.Downloads.Groups.{group_from-perm, members_of, ungrouped}

-- All of a group's records are of one download, and a record of none stands alone.
pub record IsOneDownload (service : MediaService) (group : Group) : Type 0 where
  pub same_key : All (λ r. group_key service r ≡ group.key) (members_of group)
  pub stands_alone : group.key ≡ none → group.records.others ≡ []

-- No other group has the key.
abbrev pub HasOneGroup : Option (List ℕ) → List Group → Type 0
HasOneGroup none groups = Unit
HasOneGroup (some key) groups = any (has_group_key key) groups ≡ false

abbrev pub HaveOwnKeys : List Group → Type 0
HaveOwnKeys [] = Unit
HaveOwnKeys (group ∷ groups) = HasOneGroup group.key groups × HaveOwnKeys groups

has_group_key-key :
    (key : List ℕ) (group : Group) → has_group_key key group ≡ true → group.key ≡ some key
has_group_key-key key group h = go group.key h
  where
    go : (k : Option (List ℕ)) → (elim k [ none ↦ false | some l ↦ l =b key ]) ≡ true → k ≡ some key
    go none e = cc
    go (some l) e = ap some (=b→eq l key e)

any-keys-push_to :
    (k key : List ℕ) (r : QueueRecord) (groups : List Group)
    → any (has_group_key k) (push_to key r groups) ≡ any (has_group_key k) groups
any-keys-push_to k key r [] = refl
any-keys-push_to k key r (group ∷ groups) = elim (Bool-cases (has_group_key key group)) [
  | inl e ↦ rw e refl
  | inr e ↦ rw e (ap (λ b. has_group_key k group || b) (any-keys-push_to k key r groups))
]

HasOneGroup-push_to :
    (o : Option (List ℕ)) (key : List ℕ) (r : QueueRecord) (groups : List Group)
    → HasOneGroup o groups
    → HasOneGroup o (push_to key r groups)
HasOneGroup-push_to none key r groups h = tt
HasOneGroup-push_to (some k) key r groups h = any-keys-push_to k key r groups ∙ h

push_to-HaveOwnKeys :
    (key : List ℕ) (r : QueueRecord) (groups : List Group)
    → HaveOwnKeys groups
    → HaveOwnKeys (push_to key r groups)
push_to-HaveOwnKeys key r [] h = tt
push_to-HaveOwnKeys key r (group ∷ groups) (h, hs) = elim (Bool-cases (has_group_key key group)) [
  | inl e ↦ rw e (h, hs)
  | inr e ↦ rw e (HasOneGroup-push_to group.key key r groups h, push_to-HaveOwnKeys key r groups hs)
]

any-keys-snoc :
    (k : List ℕ) (groups : List Group) (o : Option (List ℕ)) (r : QueueRecord)
    → any (has_group_key k) groups ≡ false
    → (elim o [ none ↦ false | some l ↦ l =b k ]) ≡ false
    → any (has_group_key k) (groups ++ alone o r ∷ []) ≡ false
any-keys-snoc k [] o r h e = ground arith
any-keys-snoc k (group ∷ groups) o r h e = ground (arith, any-keys-snoc k groups o r)

HasOneGroup-snoc :
    (o : Option (List ℕ)) (groups : List Group) (new : Option (List ℕ)) (r : QueueRecord)
    → HasOneGroup o groups
    → ((k key : List ℕ) → o ≡ some k → new ≡ some key → (key =b k) ≡ false)
    → HasOneGroup o (groups ++ alone new r ∷ [])
HasOneGroup-snoc none groups new r h e = tt
HasOneGroup-snoc (some k) groups none r h e = any-keys-snoc k groups none r h refl
HasOneGroup-snoc (some k) groups (some key) r h e =
    any-keys-snoc k groups (some key) r h (e k key refl refl)

-- The key is new, if there is one.
abbrev IsNewKey : Option (List ℕ) → List Group → Type 0
IsNewKey o groups = HasOneGroup o groups

other_key :
    (group : Group) (k key : List ℕ)
    → group.key ≡ some k
    → has_group_key key group ≡ false
    → (key =b k) ≡ false
other_key group k key e h =
    =b_sym key k ∙ (subst (λ o. (elim o [ none ↦ false | some l ↦ l =b key ]) ≡ false) e h)

snoc-HaveOwnKeys :
    (groups : List Group) (new : Option (List ℕ)) (r : QueueRecord)
    → HaveOwnKeys groups
    → IsNewKey new groups
    → HaveOwnKeys (groups ++ alone new r ∷ [])
snoc-HaveOwnKeys [] none r h n = (tt, tt)
snoc-HaveOwnKeys [] (some key) r h n = (refl, tt)
snoc-HaveOwnKeys (group ∷ groups) none r (h, hs) n = (
  HasOneGroup-snoc group.key groups none r h (λ k key e f. cc),
  snoc-HaveOwnKeys groups none r hs tt,
)
snoc-HaveOwnKeys (group ∷ groups) (some new) r (h, hs) n = (
  HasOneGroup-snoc group.key groups (some new) r h (λ k key e f.
      subst (λ x. (x =b k) ≡ false) (some-eq new key f) (other_key group k new e (ground arith))),
  snoc-HaveOwnKeys groups (some new) r hs (ground arith),
)
  where
    some-eq : (x y : List ℕ) → some x ≡ some y → x ≡ y
    some-eq x y e = cc

grown-IsOneDownload :
    (service : MediaService) (group : Group) (r : QueueRecord) (key : List ℕ)
    → group_key service r ≡ some key
    → group.key ≡ some key
    → IsOneDownload service group
    → IsOneDownload service (grown group r)
grown-IsOneDownload service group r key e f v = record {
  same_key = (
    v.same_key.0,
    All-append (λ s. group_key service s ≡ group.key) group.records.others (r ∷ []) v.same_key.1
        (e ∙ sym f, tt),
  );
  stands_alone = λ n. cc;
}

push_to-IsOneDownload :
    (service : MediaService) (key : List ℕ) (r : QueueRecord) (groups : List Group)
    → group_key service r ≡ some key
    → All (IsOneDownload service) groups
    → All (IsOneDownload service) (push_to key r groups)
push_to-IsOneDownload service key r [] e h = tt
push_to-IsOneDownload service key r (group ∷ groups) e (h, hs) =
    elim (Bool-cases (has_group_key key group)) [
      | inl f ↦
          rw f (grown-IsOneDownload service group r key e (has_group_key-key key group f) h, hs)
      | inr f ↦ rw f (h, push_to-IsOneDownload service key r groups e hs)
    ]

record AreGrouped (service : MediaService) (groups : List Group) : Type 0 where
  one_download : All (IsOneDownload service) groups
  own_keys : HaveOwnKeys groups

snoc-AreGrouped :
    (service : MediaService) (groups : List Group) (r : QueueRecord) (key : Option (List ℕ))
    → group_key service r ≡ key
    → IsNewKey key groups
    → AreGrouped service groups
    → AreGrouped service (groups ++ alone key r ∷ [])
snoc-AreGrouped service groups r key e n v = record {
  one_download =
      All-append (IsOneDownload service) groups (alone key r ∷ []) v.one_download
        (record { same_key = (e, tt); stands_alone = λ _. refl }, tt);
  own_keys = snoc-HaveOwnKeys groups key r v.own_keys n;
}

add_keyed-AreGrouped :
    (service : MediaService) (groups : List Group) (r : QueueRecord) (key : Option (List ℕ))
    → group_key service r ≡ key
    → AreGrouped service groups
    → AreGrouped service (add_keyed groups r key)
add_keyed-AreGrouped service groups r none e v = snoc-AreGrouped service groups r none e tt v
add_keyed-AreGrouped service groups r (some key) e v =
    elim (Bool-cases (any (has_group_key key) groups)) [
      | inl f ↦ rw f (record {
        one_download = push_to-IsOneDownload service key r groups e v.one_download;
        own_keys = push_to-HaveOwnKeys key r groups v.own_keys;
      })
      | inr f ↦ rw f (snoc-AreGrouped service groups r (some key) e f v)
    ]

group_from-AreGrouped :
    (service : MediaService) (groups : List Group) (rs : List QueueRecord)
    → AreGrouped service groups
    → AreGrouped service (group_from service groups rs)
unfolding group_from
group_from-AreGrouped service groups [] v = v
group_from-AreGrouped service groups (r ∷ rs) v =
    group_from-AreGrouped service (add_record service groups r) rs
      (add_keyed-AreGrouped service groups r (group_key service r) refl v)

pub record IsGrouping (service : MediaService) (rs : List QueueRecord) (groups : List Group)
    : Type 0 where
  pub each_once : Perm (ungrouped groups) rs
  pub one_download : All (IsOneDownload service) groups
  pub own_keys : HaveOwnKeys groups

-- Every record is in exactly one group and once there; the records of a group have one and the same
-- download id, no two groups the same one, and a record without a download id, or of Radarr, is a
-- group by itself.
pub group_from-IsGrouping :
    (service : MediaService) (rs : List QueueRecord)
    → IsGrouping service rs (group_from service [] rs)
group_from-IsGrouping service rs =
    let v = group_from-AreGrouped service [] rs (record { one_download = tt; own_keys = tt }) in
    record {
      each_once = group_from-perm service [] rs;
      one_download = v.one_download;
      own_keys = v.own_keys;
    }
