-- ===== src/Downloads/Groups.antt =====
-- The groups of `projectQueue` in worker/src/downloads.ts.
use mathlib.Core.List.{Perm, append-nil, perm_append_comm}
use mathlib.Core.List.Perm
use voidstation_app.Prelude.{
  Bool-cases, List, [], any, append_assoc, inl, inr, sym, true, ℕ, ◌++◌, ◌∷◌, ◌≡◌, Option, arith,
  false, none, some, subst,
}
use voidstation_app.Downloads.Records.{QueueRecord, MediaService}
use voidstation_app.Downloads.Items.{all_records}
use voidstation_app.Downloads.Queue.{
  Group, has_group_key, push_to, add_keyed, add_record, alone, group_from, group_key,
}

abbrev pub members_of : Group → List QueueRecord
members_of group = all_records group.records

abbrev pub ungrouped : List Group → List QueueRecord
ungrouped [] = []
ungrouped (group ∷ groups) = members_of group ++ ungrouped groups

ungrouped-append :
    (groups : List Group) (group : Group)
    → ungrouped (groups ++ group ∷ []) ≡ ungrouped groups ++ members_of group
ungrouped-append [] group = append-nil (members_of group)
ungrouped-append (g ∷ groups) group =
    rw (ungrouped-append groups group)
      (sym (append_assoc (members_of g) (ungrouped groups) (members_of group)))

perm_snoc :
    (r : QueueRecord) (rs ss : List QueueRecord)
    → Perm ((rs ++ r ∷ []) ++ ss) ((rs ++ ss) ++ r ∷ [])
perm_snoc r rs ss =
    rw (append_assoc rs (r ∷ []) ss, append_assoc rs ss (r ∷ []))
      (Perm.append_left rs (perm_append_comm (r ∷ []) ss))

-- Only lists with such a key are asked to grow.
push_to-perm :
    (key : List ℕ) (r : QueueRecord) (groups : List Group)
    → any (has_group_key key) groups ≡ true
    → Perm (ungrouped (push_to key r groups)) (ungrouped groups ++ r ∷ [])
push_to-perm key r [] h = absurd (false-ne-true h)
  where
    false-ne-true : false ≡ true → ⊥
    false-ne-true e = cc
push_to-perm key r (group ∷ groups) h = elim (Bool-cases (has_group_key key group)) [
  | inl e ↦ rw e (perm_snoc r (members_of group) (ungrouped groups))
  | inr e ↦ rw e (
      rw (append_assoc (members_of group) (ungrouped groups) (r ∷ []))
        (Perm.append_left (members_of group) (push_to-perm key r groups (ground arith))))
]

snoc-perm :
    (groups : List Group) (key : Option (List ℕ)) (r : QueueRecord)
    → Perm (ungrouped (groups ++ alone key r ∷ [])) (ungrouped groups ++ r ∷ [])
snoc-perm groups key r = rw (ungrouped-append groups (alone key r)) (Perm.refl _)

add_keyed-perm :
    (groups : List Group) (r : QueueRecord) (key : Option (List ℕ))
    → Perm (ungrouped (add_keyed groups r key)) (ungrouped groups ++ r ∷ [])
add_keyed-perm groups r none = snoc-perm groups none r
add_keyed-perm groups r (some key) = elim (Bool-cases (any (has_group_key key) groups)) [
  | inl e ↦ rw e (push_to-perm key r groups e)
  | inr e ↦ rw e (snoc-perm groups (some key) r)
]

-- Each record is in one group, once.
pub group_from-perm :
    (service : MediaService) (groups : List Group) (rs : List QueueRecord)
    → Perm (ungrouped (group_from service groups rs)) (ungrouped groups ++ rs)
unfolding group_from
group_from-perm service groups [] = rw (append-nil (ungrouped groups)) (Perm.refl _)
group_from-perm service groups (r ∷ rs) =
    Perm.trans (group_from-perm service (add_record service groups r) rs) (
      subst (λ l. Perm (ungrouped (add_record service groups r) ++ rs) l)
        (append_assoc (ungrouped groups) (r ∷ []) rs)
        (Perm.append_right rs (add_keyed-perm groups r (group_key service r))))
