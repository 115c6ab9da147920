-- ===== src/Thread/Grouping.antt =====
-- `groupThreadEntries` of src/components/assistant-thread.ts keeps every entry and its place.
use voidstation_app.Prelude.{
  All, All-append, Bool, Bool-cases, List, String, [], ap, append-nil, append_assoc, eq_refl, false,
  inl, inr, refl, subst, sym, true, ◌++◌, ◌=s◌, ◌∙◌, ◌∷◌, ◌≡◌,
}
use voidstation_app.Thread.Entries.{
  Message, Reference, ThreadEntry, media_result, message, tool_call,
}
use voidstation_app.Thread.Groups.{
  ThreadGroup, activity, group_from, group_thread_entries, is_of_turn, message_group, new_group,
  push_entry,
}

abbrev pub entries_of : ThreadGroup → List ThreadEntry
entries_of (message_group value) = message value ∷ []
entries_of (activity id turn entries) = entries

abbrev pub ungroup : List ThreadGroup → List ThreadEntry
ungroup [] = []
ungroup (group ∷ groups) = entries_of group ++ ungroup groups

-- The entries of an activity are of its turn.
abbrev pub IsOneTurn : ThreadGroup → Type 0
IsOneTurn (message_group value) = Unit
IsOneTurn (activity id turn entries) = All (λ entry. is_of_turn turn entry ≡ true) entries

-- A group that `next` could have gone on with.
abbrev pub continues : ThreadGroup → ThreadGroup → Bool
continues (activity id turn entries) (activity id' turn' entries') = turn =s turn'
continues _ _ = false

-- Neighbouring activities are of different turns.
abbrev pub IsSplit : List ThreadGroup → Type 0
IsSplit [] = Unit
IsSplit (group ∷ []) = Unit
IsSplit (group ∷ next ∷ groups) = (continues group next ≡ false) × IsSplit (next ∷ groups)

new_group-entries : (entry : ThreadEntry) → entries_of (new_group entry) ≡ entry ∷ []
new_group-entries (message value) = refl
new_group-entries (tool_call value) = refl
new_group-entries (media_result value) = refl

new_group-IsOneTurn : (entry : ThreadEntry) → IsOneTurn (new_group entry)
new_group-IsOneTurn (message value) = tt
new_group-IsOneTurn (tool_call value) = (eq_refl value.turn_id, tt)
new_group-IsOneTurn (media_result value) = (eq_refl value.turn_id, tt)

continues-new :
    (id : Reference) (turn : String) (entries : List ThreadEntry) (entry : ThreadEntry)
    → is_of_turn turn entry ≡ false
    → continues (activity id turn entries) (new_group entry) ≡ false
continues-new id turn entries (message value) h = refl
continues-new id turn entries (tool_call value) h = h
continues-new id turn entries (media_result value) h = h

message-continues :
    (value : Message) (entry : ThreadEntry)
    → continues (message_group value) (new_group entry) ≡ false
message-continues value (message v) = refl
message-continues value (tool_call v) = refl
message-continues value (media_result v) = refl

-- What a round of the loop keeps of the last groups.
push-ungroup :
    (entry : ThreadEntry) (groups : List ThreadGroup)
    → ungroup (push_entry entry groups) ≡ ungroup groups ++ entry ∷ []
unfolding push_entry
push-ungroup entry [] = rw (new_group-entries entry) refl
push-ungroup entry (message_group value ∷ []) = rw (new_group-entries entry) refl
push-ungroup entry (activity id turn entries ∷ []) = elim (Bool-cases (is_of_turn turn entry)) [
  | inl h ↦ rw (h, append-nil entries, append-nil (entries ++ entry ∷ [])) refl
  | inr h ↦ rw (h, append-nil entries, new_group-entries entry) refl
]
push-ungroup entry (group ∷ next ∷ groups) =
    rw (push-ungroup entry (next ∷ groups))
      (sym (append_assoc (entries_of group) (ungroup (next ∷ groups)) (entry ∷ [])))

push-All :
    (entry : ThreadEntry) (groups : List ThreadGroup)
    → All IsOneTurn groups
    → All IsOneTurn (push_entry entry groups)
unfolding push_entry
push-All entry [] v = (new_group-IsOneTurn entry, tt)
push-All entry (message_group value ∷ []) v = (tt, (new_group-IsOneTurn entry, tt))
push-All entry (activity id turn entries ∷ []) (p, v) = elim (Bool-cases (is_of_turn turn entry)) [
  | inl h ↦ rw h (All-append (λ e. is_of_turn turn e ≡ true) entries (entry ∷ []) p (h, tt), tt)
  | inr h ↦ rw h (p, (new_group-IsOneTurn entry, tt))
]
push-All entry (group ∷ next ∷ groups) (p, v) = (p, push-All entry (next ∷ groups) v)

same-continues :
    (id : Reference) (turn : String) (some_entries others : List ThreadEntry) (group : ThreadGroup)
    → continues group (activity id turn some_entries) ≡ false
    → continues group (activity id turn others) ≡ false
same-continues id turn some_entries others (message_group value) h = refl
same-continues id turn some_entries others (activity i t es) h = h

-- The first group of what a round makes of `next ∷ groups` continues what `next` does.
push-continues :
    (entry : ThreadEntry) (group next : ThreadGroup) (groups : List ThreadGroup)
    → IsSplit (group ∷ next ∷ groups)
    → IsSplit (push_entry entry (next ∷ groups))
    → IsSplit (group ∷ push_entry entry (next ∷ groups))
unfolding push_entry
push-continues entry group (message_group value) [] (p, v) w = (p, w)
push-continues entry group (activity id turn entries) [] (p, v) w =
    elim (Bool-cases (is_of_turn turn entry)) [
      | inl h ↦ rw h (same-continues id turn entries (entries ++ entry ∷ []) group p, tt)
      | inr h ↦ rw h (p, (continues-new id turn entries entry h, tt))
    ]
push-continues entry group next (other ∷ groups) (p, v) w = (p, w)

push-IsSplit :
    (entry : ThreadEntry) (groups : List ThreadGroup)
    → IsSplit groups
    → IsSplit (push_entry entry groups)
unfolding push_entry
push-IsSplit entry [] v = tt
push-IsSplit entry (message_group value ∷ []) v = (message-continues value entry, tt)
push-IsSplit entry (activity id turn entries ∷ []) v = elim (Bool-cases (is_of_turn turn entry)) [
  | inl h ↦ rw h tt
  | inr h ↦ rw h (continues-new id turn entries entry h, tt)
]
push-IsSplit entry (group ∷ next ∷ groups) (p, v) =
    push-continues entry group next groups (p, v) (push-IsSplit entry (next ∷ groups) v)

-- The groups are the entries.
pub record IsGrouping (entries : List ThreadEntry) (groups : List ThreadGroup) : Type 0 where
  pub all_there : ungroup groups ≡ entries
  pub one_turn : All IsOneTurn groups
  pub split : IsSplit groups

group_from-IsGrouping :
    (before : List ThreadEntry) (groups : List ThreadGroup) (entries : List ThreadEntry)
    → IsGrouping before groups
    → IsGrouping (before ++ entries) (group_from groups entries)
unfolding group_from
group_from-IsGrouping before groups [] v =
    subst (λ x. IsGrouping x groups) (sym (append-nil before)) v
group_from-IsGrouping before groups (entry ∷ entries) v =
    subst (λ x. IsGrouping x (group_from (push_entry entry groups) entries))
      (append_assoc before (entry ∷ []) entries)
      (group_from-IsGrouping (before ++ entry ∷ []) (push_entry entry groups) entries (record {
        all_there =
            push-ungroup entry groups ∙ ap (λ (x : List ThreadEntry). x ++ entry ∷ []) v.all_there;
        one_turn = push-All entry groups v.one_turn;
        split = push-IsSplit entry groups v.split;
      }))

-- The groups hold all entries in their order, each activity those of one turn, and no activity
-- follows another of the same turn.
pub group_thread_entries-IsGrouping :
    (entries : List ThreadEntry) → IsGrouping entries (group_thread_entries entries)
unfolding group_thread_entries
group_thread_entries-IsGrouping entries =
    group_from-IsGrouping [] [] entries (record { all_there = refl; one_turn = tt; split = tt })
