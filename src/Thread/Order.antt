-- ===== src/Thread/Order.antt =====
-- `conversationEntries` of src/components/assistant-thread.ts shows every entry once.
use mathlib.Core.List.{Perm}
use mathlib.Core.List.Perm
use voidstation_app.Prelude.{
  Bool, Bool-cases, List, Option, Option-cases, [], any, ap, append-nil, append_assoc, arith,
  eq_refl, false, filter, filter-append, find, inl, inr, length, length-append, none, not, refl,
  some, subst, sym, true, ◌++◌, ◌∙◌, ◌∷◌, ◌≡◌, ◌≤◌,
}
use voidstation_app.Conversations.Rules.{length-filter-filter}
use voidstation_app.Thread.Entries.{
  Conversation, EntryType, Reference, ThreadEntry, all_entries, by_timeline, conversation_entries,
  has_key, key_of, map_of, media_result, media_result_type, message, message_type, order, same_type,
  set_entry, tool_call, tool_call_type,
}

-- No two entries have one type and one identifier.
abbrev pub HasDistinctKeys : List ThreadEntry → Type 0
HasDistinctKeys entries = (key : Reference) → length (filter (has_key key) entries) ≤ 1

all-kept :
    (p : ThreadEntry → Bool) (entries : List ThreadEntry)
    → length (filter p entries) ≤ 0
    → filter (λ e. not (p e)) entries ≡ entries
all-kept p [] h = refl
all-kept p (e ∷ entries) h = ground (arith, all-kept p entries)

find-Perm :
    (p : ThreadEntry → Bool) (entries : List ThreadEntry) (entry : ThreadEntry)
    → length (filter p entries) ≤ 1
    → find p entries ≡ some entry
    → Perm (entry ∷ filter (λ e. not (p e)) entries) entries
find-Perm p [] entry d f = absurd (ground arith)
find-Perm p (e ∷ entries) entry d f = elim (Bool-cases (p e)) [
  | inl h ↦
      let same : e ≡ entry = ground arith in
      let kept : filter (λ e. not (p e)) entries ≡ entries = all-kept p entries (ground arith) in
      rw (h, kept) (subst (λ x. Perm (x ∷ entries) (e ∷ entries)) same (Perm.refl _))
  | inr h ↦ rw h (
      Perm.trans (Perm.swap e entry (filter (λ e. not (p e)) entries))
        (Perm.cons e (find-Perm p entries entry (ground arith) (ground arith))))
]

order-Perm :
    (references : List Reference) (remaining : List ThreadEntry)
    → HasDistinctKeys remaining
    → Perm (order references remaining) remaining
unfolding order
order-Perm [] remaining d = Perm.refl _
order-Perm (reference ∷ references) remaining d =
    let rest = filter (λ e. not (has_key reference e)) remaining in
    let later : HasDistinctKeys rest = λ key. omega (
      arith,
      d key,
      length-filter-filter (has_key key) (λ e. not (has_key reference e)) remaining,
    ) in
    let after : Option ThreadEntry → List ThreadEntry = λ o. elim o [
      | none ↦ order references remaining
      | some entry ↦ entry ∷ order references rest
    ] in
    elim (Option-cases (find (has_key reference) remaining)) [
      | inl h ↦ subst (λ o. Perm (after o) remaining) (sym h) (order-Perm references remaining d)
      | inr (entry, h) ↦
          subst (λ o. Perm (after o) remaining) (sym h)
            (Perm.trans (Perm.cons entry (order-Perm references rest later))
              (find-Perm (has_key reference) remaining entry (d reference) h))
    ]

same_type_refl : (kind : EntryType) → same_type kind kind ≡ true
same_type_refl message_type = refl
same_type_refl tool_call_type = refl
same_type_refl media_result_type = refl

own-key : (entry : ThreadEntry) → has_key (key_of entry) entry ≡ true
own-key (message value) = eq_refl value.id
own-key (tool_call value) = eq_refl value.id
own-key (media_result value) = eq_refl value.id

not-any :
    (p : ThreadEntry → Bool) (entries : List ThreadEntry)
    → length (filter p entries) ≤ 0
    → any p entries ≡ false
not-any p [] h = refl
not-any p (e ∷ entries) h = ground (arith, not-any p entries)

-- An entry whose key is new goes to the end.
set_entry-new :
    (entry : ThreadEntry) (entries rest : List ThreadEntry)
    → HasDistinctKeys (entries ++ entry ∷ rest)
    → set_entry entry entries ≡ entries ++ entry ∷ []
set_entry-new entry entries rest d =
    let count = d (key_of entry) in
    let whole = filter-append (has_key (key_of entry)) entries (entry ∷ rest) in
    let p = has_key (key_of entry) in
    let hit : filter p (entry ∷ rest) ≡ entry ∷ filter p rest = rw (own-key entry) refl in
    let few : length (filter (has_key (key_of entry)) entries) ≤ 0 = omega (
      arith,
      count,
      ap length (whole ∙ ap (λ x. filter p entries ++ x) hit),
      length-append (filter p entries) (entry ∷ filter p rest),
    ) in
    rw (not-any (has_key (key_of entry)) entries few) refl

map_of-same :
    (entries rest : List ThreadEntry)
    → HasDistinctKeys (entries ++ rest)
    → map_of entries rest ≡ entries ++ rest
unfolding map_of
map_of-same entries [] d = sym (append-nil entries)
map_of-same entries (entry ∷ rest) d = rw (set_entry-new entry entries rest d) (
    map_of-same (entries ++ entry ∷ []) rest
      (subst HasDistinctKeys (sym (append_assoc entries (entry ∷ []) rest)) d)
    ∙ append_assoc entries (entry ∷ []) rest)

by_timeline-Perm :
    (timeline : Option (List Reference)) (entries : List ThreadEntry)
    → HasDistinctKeys entries
    → Perm (by_timeline timeline entries) entries
by_timeline-Perm none entries d = Perm.refl _
by_timeline-Perm (some timeline) entries d =
    subst (λ x. Perm (order timeline x) entries) (sym (map_of-same [] entries d))
      (order-Perm timeline entries d)

-- If no two entries of a type have one identifier, the thread shows every message, tool call and
-- media result exactly once, whatever the timeline lists, leaves out or repeats.
pub conversation_entries-Perm :
    (conversation : Conversation)
    → HasDistinctKeys (all_entries conversation)
    → Perm (conversation_entries conversation) (all_entries conversation)
unfolding conversation_entries
conversation_entries-Perm conversation d =
    by_timeline-Perm conversation.timeline (all_entries conversation) d
