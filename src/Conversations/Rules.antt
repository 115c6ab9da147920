-- ===== src/Conversations/Rules.antt =====
-- What the operations of worker/src/store.ts keep of the turns and the timeline: the list lemmas.
use voidstation_app.Prelude.{
  All, All-append, All-filter, Bool, Bool-cases, List, String, [], any, append-nil, arith, eq_iff,
  false, filter, filter-append, inl, inr, length, map, refl, sym, true, ◌++◌, ◌+◌, ◌<◌, ◌=s◌, ◌∷◌,
  ◌≡◌, ◌≤◌,
}
use voidstation_app.Conversations.Tables.{
  ItemType, TimelineRow, max_position, media_result, message, refers_to, same_type, tool_call,
}

module _ {ℓ} {A : Type ℓ} where
  pub filter_comm : (p q : A → Bool) (xs : List A) → filter p (filter q xs) ≡ filter q (filter p xs)
  filter_comm p q [] = refl
  filter_comm p q (x ∷ xs) = ground (arith, filter_comm p q xs)

  pub any-false : (p : A → Bool) (xs : List A) → any p xs ≡ false → filter p xs ≡ []
  any-false p [] h = refl
  any-false p (x ∷ xs) h = ground (arith, any-false p xs)

  pub length-filter-map :
      (p : A → Bool) (f : A → A) (xs : List A)
      → ((x : A) → p (f x) ≡ true → p x ≡ true)
      → length (filter p (map f xs)) ≤ length (filter p xs)
  length-filter-map p f [] h = omega arith
  length-filter-map p f (x ∷ xs) h = ground (arith, h x, length-filter-map p f xs h)

  pub length-filter-filter :
      (p q : A → Bool) (xs : List A) → length (filter p (filter q xs)) ≤ length (filter p xs)
  length-filter-filter p q [] = omega arith
  length-filter-filter p q (x ∷ xs) = ground (arith, length-filter-filter p q xs)

  pub All-map {κ μ} :
      (P : A → Type κ) (Q : A → Type μ) (xs : List A) → ((x : A) → P x → Q x) → All P xs → All Q xs
  All-map P Q [] f h = tt
  All-map P Q (x ∷ xs) f (p, h) = (f x p, All-map P Q xs f h)

-- The positions rise along the list.
abbrev pub IsRising : List TimelineRow → Type 0
IsRising [] = Unit
IsRising (row ∷ rows) = All (λ later. row.position < later.position) rows × IsRising rows

pub filter-IsRising :
    (p : TimelineRow → Bool) (rows : List TimelineRow) → IsRising rows → IsRising (filter p rows)
filter-IsRising p [] h = tt
filter-IsRising p (row ∷ rows) (q, h) =
    ground (
      arith,
      All-filter (λ later. row.position < later.position) p rows q,
      filter-IsRising p rows h,
    )

append-IsRising :
    (rows : List TimelineRow) (last : TimelineRow)
    → IsRising rows
    → All (λ row. row.position < last.position) rows
    → IsRising (rows ++ last ∷ [])
append-IsRising [] last h k = (tt, tt)
append-IsRising (row ∷ rows) last (q, h) (below, k) = (
  All-append (λ later. row.position < later.position) rows (last ∷ []) q (below, tt),
  append-IsRising rows last h k,
)

pub max_position-All :
    (rows : List TimelineRow)
    → All (λ row. row.position < max_position (map (λ (r : TimelineRow). r.position) rows) + 1) rows
unfolding max_position
max_position-All [] = tt
max_position-All (row ∷ rows) = (
  omega arith,
  All-map (λ r. r.position < max_position (map (λ (r : TimelineRow). r.position) rows) + 1) _ rows
      (λ r h. omega arith) (max_position-All rows),
)

abbrev pub belongs : String → TimelineRow → Bool
belongs c row = row.conversation_id =s c

-- One conversation's timeline: in the order of its positions, no item twice.
pub record IsTimeline (rows : List TimelineRow) : Type 0 where
  pub rising : IsRising rows
  pub once : (kind : ItemType) (ref : String) → length (filter (refers_to kind ref) rows) ≤ 1

pub filter-IsTimeline :
    (p : TimelineRow → Bool) (rows : List TimelineRow)
    → IsTimeline rows
    → IsTimeline (filter p rows)
filter-IsTimeline p rows v = record {
  rising = filter-IsRising p rows v.rising;
  once =
      λ kind ref. omega (arith, length-filter-filter (refers_to kind ref) p rows, v.once kind ref);
}

same_type→eq : (a b : ItemType) → same_type a b ≡ true → a ≡ b
same_type→eq message message h = refl
same_type→eq tool_call tool_call h = refl
same_type→eq media_result media_result h = refl
same_type→eq message tool_call h = ground arith
same_type→eq message media_result h = ground arith
same_type→eq tool_call message h = ground arith
same_type→eq tool_call media_result h = ground arith
same_type→eq media_result message h = ground arith
same_type→eq media_result tool_call h = ground arith

-- An item that matches a row matches what the row matches.
once_more :
    (rows : List TimelineRow) (row : TimelineRow) (kind : ItemType) (ref : String)
    → any (refers_to row.item_type row.ref_id) rows ≡ false
    → refers_to kind ref row ≡ true
    → filter (refers_to kind ref) rows ≡ []
once_more rows row kind ref h k =
    let same_kind : kind ≡ row.item_type = same_type→eq kind row.item_type (ground arith) in
    let same_ref : row.ref_id ≡ ref = (eq_iff row.ref_id ref).0 (ground arith) in
    rw (same_kind, sym same_ref) (any-false (refers_to row.item_type row.ref_id) rows h)

pub append-IsTimeline :
    (rows : List TimelineRow) (row : TimelineRow)
    → IsTimeline rows
    → any (refers_to row.item_type row.ref_id) rows ≡ false
    → All (λ earlier. earlier.position < row.position) rows
    → IsTimeline (rows ++ row ∷ [])
append-IsTimeline rows row v h k = record {
  rising = append-IsRising rows row v.rising k;
  once = λ kind ref. elim (Bool-cases (refers_to kind ref row)) [
    | inl e ↦
        rw (filter-append (refers_to kind ref) rows (row ∷ []), once_more rows row kind ref h e, e)
          (omega arith)
    | inr e ↦
        rw
          (
            filter-append (refers_to kind ref) rows (row ∷ []),
            e,
            append-nil (filter (refers_to kind ref) rows),
          )
          (v.once kind ref)
  ];
}
