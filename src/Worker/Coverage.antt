-- ===== src/Worker/Coverage.antt =====
-- Which task of worker/src/server.ts stands behind a running turn of the store, and how `settle`,
-- `activeTurns.set` and `activeTurns.delete` keep that.
use voidstation_app.Prelude.{
  All, Bool, Bool-cases, List, Option, String, [], all, any, ap, arith, eq_iff, false, filter, find,
  if◌then◌else◌, inl, inr, length, map, not, refl, some, subst, sym, true, ℕ, ◌&&◌, ◌=s◌, ◌||◌, ◌∙◌,
  ◌∷◌, ◌≡◌, ◌≤◌, ◌⊎◌,
}
use voidstation_app.Conversations.Tables.{TurnRow, TurnStatus, is_running}
use voidstation_app.Worker.Tasks.{ActiveTurn, has_turn_id, mark_settled}
use voidstation_app.Conversations.Turns.{close_turn, is_open_turn}
use voidstation_app.Conversations.Erasure.{any-map}

-- The task of a turn that is still to be settled.
abbrev pub covers : TurnRow → ActiveTurn → Bool
covers row task =
    task.turn_id =s row.id && task.conversation_id =s row.conversation_id && not task.settled

abbrev pub is_covered : List ActiveTurn → TurnRow → Bool
is_covered active row = not (is_running row.status) || any (covers row) active

abbrev pub IsCovered : List ActiveTurn → List TurnRow → Type 0
IsCovered active rows = All (λ row. is_covered active row ≡ true) rows

-- No turn has two tasks, only settled ones are aborted before the worker stops, and till then a
-- running turn has a task that is still to be settled.
pub record IsGuarded (active : List ActiveTurn) (stopping : Bool) (rows : List TurnRow)
    : Type 0 where
  pub distinct : (turn : String) → length (filter (has_turn_id turn) active) ≤ 1
  pub aborted : (stopping ≡ true) ⊎ All (λ task. (not task.aborted || task.settled) ≡ true) active
  pub covered : (stopping ≡ true) ⊎ IsCovered active rows

-- Every task of the turn is settled.
abbrev pub IsSettled : String → List ActiveTurn → Type 0
IsSettled turn active = all (λ task. not (has_turn_id turn task) || task.settled) active ≡ true

pub map-All :
    {A B : Type 0} (P : A → Type 0) (Q : B → Type 0) (f : A → B) (xs : List A)
    → ((x : A) → P x → Q (f x))
    → All P xs
    → All Q (map f xs)
map-All P Q f [] h v = tt
map-All P Q f (x ∷ xs) h (p, v) = (h x p, map-All P Q f xs h v)

pub other_text : (a b c : String) → (a =s b) ≡ true → (c =s b) ≡ false → (a =s c) ≡ false
other_text a b c h k = elim (Bool-cases (a =s c)) [
  | inr e ↦ e
  | inl e ↦
      let same : (c =s b) ≡ true = (eq_iff c b).1 (sym ((eq_iff a c).0 e) ∙ (eq_iff a b).0 h) in
      absurd (ground arith)
]

none-IsSettled :
    (turn : String) (active : List ActiveTurn)
    → length (filter (has_turn_id turn) active) ≤ 0
    → IsSettled turn active
none-IsSettled turn [] d = refl
none-IsSettled turn (t ∷ active) d = ground (arith, none-IsSettled turn active)

none-covers :
    (row : TurnRow) (active : List ActiveTurn)
    → length (filter (has_turn_id row.id) active) ≤ 0
    → any (covers row) active ≡ false
none-covers row [] d = refl
none-covers row (t ∷ active) d = ground (arith, none-covers row active)

-- One task with the turn, and that one settled.
pub one-IsSettled :
    (turn : String) (active : List ActiveTurn) (task : ActiveTurn)
    → length (filter (has_turn_id turn) active) ≤ 1
    → find (has_turn_id turn) active ≡ some task
    → task.settled ≡ true
    → IsSettled turn active
one-IsSettled turn [] task d f s = refl
one-IsSettled turn (t ∷ active) task d f s = elim (Bool-cases (has_turn_id turn t)) [
  | inl h ↦
      let same : t ≡ task = ground arith in
      ground (arith, none-IsSettled turn active, ap (λ (x : ActiveTurn). x.settled) same)
  | inr h ↦ ground (arith, one-IsSettled turn active task)
]

-- One task with the turn, and a task that covers a row of it: they are in one conversation.
one-covers :
    (row : TurnRow) (active : List ActiveTurn) (task : ActiveTurn)
    → length (filter (has_turn_id row.id) active) ≤ 1
    → find (has_turn_id row.id) active ≡ some task
    → any (covers row) active ≡ true
    → (task.conversation_id =s row.conversation_id) ≡ true
one-covers row [] task d f s = absurd (ground arith)
one-covers row (t ∷ active) task d f s = elim (Bool-cases (has_turn_id row.id t)) [
  | inl h ↦
      let same : t ≡ task = ground arith in
      ground (arith, none-covers row active, ap (λ (x : ActiveTurn). x.conversation_id) same)
  | inr h ↦ ground (arith, one-covers row active task)
]

settled-covers :
    (row : TurnRow) (active : List ActiveTurn)
    → IsSettled row.id active
    → any (covers row) active ≡ false
settled-covers row [] h = refl
settled-covers row (t ∷ active) h = ground (arith, settled-covers row active)

-- Tasks of other turns cover what they covered.
pub drop-covers :
    (turn : String) (row : TurnRow) (active : List ActiveTurn)
    → (row.id =s turn) ≡ false
    → any (covers row) (filter (λ t. not (has_turn_id turn t)) active) ≡ any (covers row) active
drop-covers turn row [] h = refl
drop-covers turn row (t ∷ active) h = elim (Bool-cases (has_turn_id turn t)) [
  | inl k ↦
      let other : (t.turn_id =s row.id) ≡ false = other_text t.turn_id turn row.id k h in
      ground (arith, drop-covers turn row active h)
  | inr k ↦ ground (arith, drop-covers turn row active h)
]

-- A write to the task of another turn that keeps its turn.
pub update-covers :
    (f : ActiveTurn → ActiveTurn) (turn : String) (row : TurnRow) (active : List ActiveTurn)
    → ((t : ActiveTurn) → (f t).turn_id ≡ t.turn_id)
    → (row.id =s turn) ≡ false
    → any (covers row) (map (λ t. if has_turn_id turn t then f t else t) active)
      ≡ any (covers row) active
update-covers f turn row active keeps h =
    any-map (covers row) (λ t. if has_turn_id turn t then f t else t) active
      (λ t. elim (Bool-cases (has_turn_id turn t)) [
        | inl k ↦
            let other : (t.turn_id =s row.id) ≡ false = other_text t.turn_id turn row.id k h in
            rw (k, keeps t, other) refl
        | inr k ↦ rw k refl
      ])

-- `activeTurns.delete` of a turn whose task is settled
pub delete-IsCovered :
    (turn : String) (active : List ActiveTurn) (rows : List TurnRow)
    → IsSettled turn active
    → IsCovered active rows
    → IsCovered (filter (λ t. not (has_turn_id turn t)) active) rows
delete-IsCovered turn active [] s v = tt
delete-IsCovered turn active (row ∷ rows) s (p, v) = (
  elim (Bool-cases (row.id =s turn)) [
    | inl e ↦
        let none_left : any (covers row) active ≡ false =
          settled-covers row active
            (subst (λ x. IsSettled x active) (sym ((eq_iff row.id turn).0 e)) s) in
        ground arith
    | inr e ↦ rw (drop-covers turn row active e) p
  ],
  delete-IsCovered turn active rows s v,
)

-- The row of a settled task that is not closed was not running.
own-is_covered :
    (status : TurnStatus) (error : Option (List ℕ)) (now : ℕ) (task : ActiveTurn)
    (active : List ActiveTurn) (row : TurnRow)
    → length (filter (has_turn_id task.turn_id) active) ≤ 1
    → find (has_turn_id task.turn_id) active ≡ some task
    → is_open_turn task.conversation_id task.turn_id row ≡ false
    → (row.id =s task.turn_id) ≡ true
    → is_covered active row ≡ true
    → is_covered (map (λ t. if has_turn_id task.turn_id t then mark_settled t else t) active) row
      ≡ true
own-is_covered status error now task active row d f e k p =
    elim (Bool-cases (is_running row.status)) [
      | inr n ↦ ground arith
      | inl n ↦
          let same : task.turn_id ≡ row.id = sym ((eq_iff row.id task.turn_id).0 k) in
          let conv : (task.conversation_id =s row.conversation_id) ≡ true =
            one-covers row active task
              (subst (λ x. length (filter (has_turn_id x) active) ≤ 1) same d)
              (subst (λ x. find (has_turn_id x) active ≡ some task) same f) (ground arith) in
          let back : (row.conversation_id =s task.conversation_id) ≡ true =
            (eq_iff row.conversation_id task.conversation_id).1
              (sym ((eq_iff task.conversation_id row.conversation_id).0 conv)) in
          absurd (ground arith)
    ]

-- `settle`: the row that is closed is not running, and no other one loses its task.
pub settle-IsCovered :
    (status : TurnStatus) (error : Option (List ℕ)) (now : ℕ) (task : ActiveTurn)
    (active : List ActiveTurn) (rows : List TurnRow)
    → is_running status ≡ false
    → length (filter (has_turn_id task.turn_id) active) ≤ 1
    → find (has_turn_id task.turn_id) active ≡ some task
    → IsCovered active rows
    → IsCovered (map (λ t. if has_turn_id task.turn_id t then mark_settled t else t) active) (
        map
          (λ row.
            if is_open_turn task.conversation_id task.turn_id row
            then close_turn status error now row
            else row)
          rows)
settle-IsCovered status error now task active [] r d f v = tt
settle-IsCovered status error now task active (row ∷ rows) r d f (p, v) = (
  elim (Bool-cases (is_open_turn task.conversation_id task.turn_id row)) [
    | inl e ↦ rw e (rw r refl)
    | inr e ↦ rw e (elim (Bool-cases (row.id =s task.turn_id)) [
      | inr k ↦ rw (update-covers mark_settled task.turn_id row active (λ t. refl) k) p
      | inl k ↦ own-is_covered status error now task active row d f e k p
    ])
  ],
  settle-IsCovered status error now task active rows r d f v,
)
