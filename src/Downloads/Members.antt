-- ===== src/Downloads/Members.antt =====
-- What holds of the records holds of the groups that worker/src/downloads.ts makes of them.
use voidstation_app.Prelude.{
  All, All-append, Bool-cases, List, Option, [], any, arith, inl, inr, length, length-append, none,
  refl, some, ℕ, ◌++◌, ◌+◌, ◌∷◌, ◌≡◌, ◌≤◌,
}
use voidstation_app.Downloads.Records.{MediaService, QueueRecord}
use voidstation_app.Downloads.Queue.{
  Group, add_keyed, add_record, alone, group_from, group_key, has_group_key, push_to,
}
use voidstation_app.Downloads.Groups.{members_of, ungrouped}

module _ (P : QueueRecord → Type 0) where
  All-left : (xs ys : List QueueRecord) → All P (xs ++ ys) → All P xs
  All-left [] ys h = tt
  All-left (x ∷ xs) ys (h, hs) = (h, All-left xs ys hs)

  All-right : (xs ys : List QueueRecord) → All P (xs ++ ys) → All P ys
  All-right [] ys h = h
  All-right (x ∷ xs) ys (h, hs) = All-right xs ys hs

  push_to-All :
      (key : List ℕ) (r : QueueRecord) (groups : List Group)
      → P r
      → All P (ungrouped groups)
      → All P (ungrouped (push_to key r groups))
  push_to-All key r [] q h = tt
  push_to-All key r (group ∷ groups) q h =
      let mine = All-left (members_of group) (ungrouped groups) h in
      let others = All-right (members_of group) (ungrouped groups) h in
      elim (Bool-cases (has_group_key key group)) [
        | inl e ↦ rw e (
            All-append P (members_of group ++ r ∷ []) (ungrouped groups)
              (All-append P (members_of group) (r ∷ []) mine (q, tt)) others)
        | inr e ↦ rw e (
            All-append P (members_of group) (ungrouped (push_to key r groups)) mine
              (push_to-All key r groups q others))
      ]

  snoc-All :
      (groups : List Group) (key : Option (List ℕ)) (r : QueueRecord)
      → P r
      → All P (ungrouped groups)
      → All P (ungrouped (groups ++ alone key r ∷ []))
  snoc-All [] key r q h = (q, tt)
  snoc-All (group ∷ groups) key r q h =
      All-append P (members_of group) (ungrouped (groups ++ alone key r ∷ []))
        (All-left (members_of group) (ungrouped groups) h)
        (snoc-All groups key r q (All-right (members_of group) (ungrouped groups) h))

  add_keyed-All :
      (groups : List Group) (r : QueueRecord) (key : Option (List ℕ))
      → P r
      → All P (ungrouped groups)
      → All P (ungrouped (add_keyed groups r key))
  add_keyed-All groups r none q h = snoc-All groups none r q h
  add_keyed-All groups r (some key) q h = elim (Bool-cases (any (has_group_key key) groups)) [
    | inl e ↦ rw e (push_to-All key r groups q h)
    | inr e ↦ rw e (snoc-All groups (some key) r q h)
  ]

  pub group_from-All :
      (service : MediaService) (groups : List Group) (rs : List QueueRecord)
      → All P (ungrouped groups)
      → All P rs
      → All P (ungrouped (group_from service groups rs))
  unfolding group_from
  group_from-All service groups [] h k = h
  group_from-All service groups (r ∷ rs) h (k, ks) =
      group_from-All service (add_record service groups r) rs
        (add_keyed-All groups r (group_key service r) k h) ks

  pub members-All :
      (groups : List Group)
      → All P (ungrouped groups)
      → All (λ group. All P (members_of group)) groups
  members-All [] h = tt
  members-All (group ∷ groups) h = (
    All-left (members_of group) (ungrouped groups) h,
    members-All groups (All-right (members_of group) (ungrouped groups) h),
  )

length-push_to :
    (key : List ℕ) (r : QueueRecord) (groups : List Group)
    → (length (push_to key r groups) ≡ length groups)
      × (length (ungrouped (push_to key r groups)) ≤ length (ungrouped groups) + 1)
length-push_to key r [] = (refl, omega arith)
length-push_to key r (group ∷ groups) =
    let ih = length-push_to key r groups in
    elim (Bool-cases (has_group_key key group)) [
      | inl e ↦ rw e (
        refl,
        omega (
          arith,
          length-append (group.records.others ++ r ∷ []) (ungrouped groups),
          length-append group.records.others (r ∷ []),
          length-append group.records.others (ungrouped groups),
        ),
      )
      | inr e ↦ rw e (
        omega (arith, ih.0),
        omega (
          arith,
          ih.1,
          length-append group.records.others (ungrouped (push_to key r groups)),
          length-append group.records.others (ungrouped groups),
        ),
      )
    ]

length-ungrouped-snoc :
    (groups : List Group) (key : Option (List ℕ)) (r : QueueRecord)
    → length (ungrouped (groups ++ alone key r ∷ [])) ≡ length (ungrouped groups) + 1
length-ungrouped-snoc [] key r = omega arith
length-ungrouped-snoc (group ∷ groups) key r = omega (
  arith,
  length-ungrouped-snoc groups key r,
  length-append group.records.others (ungrouped (groups ++ alone key r ∷ [])),
  length-append group.records.others (ungrouped groups),
)

length-add_keyed :
    (groups : List Group) (r : QueueRecord) (key : Option (List ℕ))
    → (length (add_keyed groups r key) ≤ length groups + 1)
      × (length (ungrouped (add_keyed groups r key)) ≤ length (ungrouped groups) + 1)
length-add_keyed groups r none = (
  omega (arith, length-append groups (alone none r ∷ [])),
  omega (arith, length-ungrouped-snoc groups none r),
)
length-add_keyed groups r (some key) = elim (Bool-cases (any (has_group_key key) groups)) [
  | inl e ↦ let pushed = length-push_to key r groups in rw e (omega (arith, pushed.0), pushed.1)
  | inr e ↦ rw e (
    omega (arith, length-append groups (alone (some key) r ∷ [])),
    omega (arith, length-ungrouped-snoc groups (some key) r),
  )
]

-- There are no more groups than records, and no group has more records than there are.
pub length-group_from :
    (service : MediaService) (groups : List Group) (rs : List QueueRecord)
    → (length (group_from service groups rs) ≤ length groups + length rs)
      × (length (ungrouped (group_from service groups rs)) ≤ length (ungrouped groups) + length rs)
unfolding group_from
length-group_from service groups [] = (omega arith, omega arith)
length-group_from service groups (r ∷ rs) =
    let ih = length-group_from service (add_record service groups r) rs in
    let one = length-add_keyed groups r (group_key service r) in
    (omega (arith, ih.0, one.0), omega (arith, ih.1, one.1))

pub members-short :
    (groups : List Group) (n : ℕ)
    → length (ungrouped groups) ≤ n
    → All (λ group. length (members_of group) ≤ n) groups
members-short [] n h = tt
members-short (group ∷ groups) n h =
    let sum = length-append group.records.others (ungrouped groups) in
    (omega (arith, sum, h), members-short groups n (omega (arith, sum, h)))
