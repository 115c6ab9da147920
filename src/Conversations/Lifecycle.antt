-- ===== src/Conversations/Lifecycle.antt =====
-- What `startTurn`, `finishTurn` and `interruptRunningTurns` of worker/src/store.ts answer and change.
use voidstation_app.Sqlite.{Outcome, bind_done, close_transaction, done, threw, transaction}
use voidstation_app.Prelude.{
  Bool, Bool-cases, List, Option, String, [], any, ap, arith, eq_refl, false, if◌then◌else◌, inl,
  inr, map, not, refl, some, true, ℕ, ◌++◌, ◌=s◌, ◌||◌, ◌∙◌, ◌∷◌, ◌≡◌, ◌⊎◌,
}
use voidstation_app.Conversations.Tables.{
  Db, ItemType, TurnRow, TurnStatus, has_conversation, has_deletion, has_running_turn, is_running,
  message, runs_in, user,
}
use voidstation_app.Conversations.Timeline.{
  append_timeline, has_turn, insert_message, insert_message_row,
}
use voidstation_app.Conversations.Turns.{
  Started, busy, changes, close_turn, fill_turn, finish_turn, interrupt_running_turns, is_open_turn,
  missing, new_turn, start_rows, start_turn, started, title_of, update_conversation,
}
use voidstation_app.Conversations.Deletion.{World}
use voidstation_app.Conversations.Calls.{restarts, step}

-- What `startTurn` answers when its identifiers are new.
abbrev pub start_answer : String → TurnRow → Db → Started
start_answer conversation turn db =
    if not (has_conversation conversation db)
    then missing
    else if has_deletion conversation db || has_running_turn conversation db
    then busy
    else started turn

pub any-append :
    {A : Type 0} (p : A → Bool) (xs : List A) (x : A) → any p (xs ++ x ∷ []) ≡ (any p xs || p x)
any-append p [] x = ground arith
any-append p (y ∷ xs) x = ground (arith, any-append p xs x)

append_timeline-done :
    (c : String) (kind : ItemType) (ref : String) (db : Db)
    → has_conversation c db ≡ true
    → (append_timeline c kind ref db).0 ≡ done tt
unfolding append_timeline
append_timeline-done c kind ref db h = ground arith

close_transaction-answer :
    {A : Type 0} (before : Db) (r : Outcome A × Db) → (close_transaction before r).0 ≡ r.0
close_transaction-answer before (done a, after) = refl
close_transaction-answer before (threw, after) = refl

close_transaction-unchanged :
    {A : Type 0} (before : Db) (r : Outcome A × Db) (P : Type 0)
    → P ⊎ (r.1 ≡ before)
    → P ⊎ ((close_transaction before r).1 ≡ before)
close_transaction-unchanged before (done a, after) P o = o
close_transaction-unchanged before (threw, after) P o = inr refl

module _ (conversation : String) (text : List ℕ) (provider model turn id : String) (now : ℕ)
    (db : Db) where
  abbrev opened : Db
  opened = record db { turns = db.turns ++ new_turn turn conversation provider model now ∷ [] }

  abbrev filled : Outcome (Unit {0}) × Db
  filled = insert_message_row conversation turn user text id now opened

  insert_message_row-done :
      has_conversation conversation db ≡ true
      → any (λ row. row.id =s id) db.messages ≡ false
      → (filled.0 ≡ done tt) × (has_conversation conversation filled.1 ≡ true)
  unfolding insert_message_row has_conversation
  insert_message_row-done h k =
      let known : has_turn (some turn) opened ≡ true =
        any-append (λ row. row.id =s turn) db.turns (new_turn turn conversation provider model now)
        ∙ rw (eq_refl turn) (ground arith) in
      rw (h, known, k) (refl, h)

  insert_message-done :
      has_conversation conversation db ≡ true
      → any (λ row. row.id =s id) db.messages ≡ false
      → (insert_message conversation turn user text id now opened).0 ≡ done tt
  unfolding insert_message
  insert_message-done h k =
      let (e, c) = insert_message_row-done h k in
      ap (λ (r : Outcome (Unit {0}) × Db). r.0)
        (bind_done (insert_message_row conversation turn user text id now)
          (λ u. append_timeline conversation message id) opened tt e)
      ∙ append_timeline-done conversation message id filled.1 c

  fill_turn-done :
      has_conversation conversation db ≡ true
      → any (λ row. row.id =s id) db.messages ≡ false
      → (fill_turn conversation text provider model turn id now opened).0
        ≡ done (started (new_turn turn conversation provider model now))
  unfolding fill_turn
  fill_turn-done h k =
      ap (λ (r : Outcome Started × Db). r.0)
        (bind_done (insert_message conversation turn user text id now)
          (λ u db. (
            done (started (new_turn turn conversation provider model now)),
            update_conversation (λ row. record row { title = title_of text; updated_at = now })
                conversation db,
          ))
          opened tt (insert_message-done h k))

  start_rows-answer :
      any (λ row. row.id =s turn) db.turns ≡ false
      → any (λ row. row.id =s id) db.messages ≡ false
      → (start_rows conversation text provider model turn id now db).0
        ≡ done (start_answer conversation (new_turn turn conversation provider model now) db)
  unfolding start_rows
  start_rows-answer h k = elim (Bool-cases (has_conversation conversation db)) [
    | inr a ↦ rw a refl
    | inl a ↦ elim (Bool-cases (has_deletion conversation db)) [
      | inl b ↦ rw (a, b) refl
      | inr b ↦ elim (Bool-cases (has_running_turn conversation db)) [
        | inl c ↦ rw (a, b, h, c) refl
        | inr c ↦ rw (a, b, h, c) (fill_turn-done a k)
      ]
    ]
  ]

  start_rows-unchanged :
      (start_answer conversation (new_turn turn conversation provider model now) db
        ≡ started (new_turn turn conversation provider model now))
      ⊎ ((start_rows conversation text provider model turn id now db).1 ≡ db)
  unfolding start_rows
  start_rows-unchanged = elim (Bool-cases (has_conversation conversation db)) [
    | inr a ↦ inr (rw a refl)
    | inl a ↦ elim (Bool-cases (has_deletion conversation db)) [
      | inl b ↦ inr (rw (a, b) refl)
      | inr b ↦ elim (Bool-cases (has_running_turn conversation db)) [
        | inl c ↦ inr (rw (a, b, c) (ground arith))
        | inr c ↦ inl (rw (a, b, c) refl)
      ]
    ]
  ]

  -- `startTurn` with new identifiers does not throw; it answers "missing" if there is no such
  -- conversation, "running" if that is being deleted or has a running turn, and a running turn of it
  -- otherwise. If it answers anything but a turn, the tables are as they were.
  pub start_turn-start_answer :
      any (λ row. row.id =s turn) db.turns ≡ false
      → any (λ row. row.id =s id) db.messages ≡ false
      → ((start_turn conversation text provider model turn id now db).0
          ≡ done (start_answer conversation (new_turn turn conversation provider model now) db))
        × ((start_answer conversation (new_turn turn conversation provider model now) db
              ≡ started (new_turn turn conversation provider model now))
            ⊎ ((start_turn conversation text provider model turn id now db).1 ≡ db))
  unfolding start_turn transaction
  start_turn-start_answer h k =
      let r = start_rows conversation text provider model turn id now db in
      (
        close_transaction-answer db r ∙ start_rows-answer h k,
        close_transaction-unchanged db r _ start_rows-unchanged,
      )

module _ (p : TurnRow → Bool) (f : TurnRow → TurnRow) where
  map-if_none :
      (rows : List TurnRow)
      → any p rows ≡ false
      → map (λ row. if p row then f row else row) rows ≡ rows
  map-if_none [] h = refl
  map-if_none (row ∷ rows) h = ground (arith, map-if_none rows)

  any-map_if :
      (rows : List TurnRow)
      → ((row : TurnRow) → p (f row) ≡ false)
      → any p (map (λ row. if p row then f row else row) rows) ≡ false
  any-map_if [] h = refl
  any-map_if (row ∷ rows) h = elim (Bool-cases (p row)) [
    | inl e ↦ rw (e, h row, any-map_if rows h) refl
    | inr e ↦ rw (e, e, any-map_if rows h) refl
  ]

module _ (conversation turn : String) (status : TurnStatus) (error : Option (List ℕ)) (now : ℕ)
    (db : Db) where
  finish_turn-none :
      changes conversation turn db ≡ false → finish_turn conversation turn status error now db ≡ db
  unfolding finish_turn
  finish_turn-none h =
      rw (h, map-if_none (is_open_turn conversation turn) (close_turn status error now) db.turns h)
        refl

  finish_turn-closes :
      is_running status ≡ false
      → changes conversation turn (finish_turn conversation turn status error now db) ≡ false
  unfolding finish_turn
  finish_turn-closes h =
      let closed =
        any-map_if (is_open_turn conversation turn) (close_turn status error now) db.turns
          (λ row. ground arith) in
      elim (Bool-cases (changes conversation turn db)) [ inl e ↦ rw e closed | inr e ↦ rw e closed ]

-- A turn is finished once: after that, finishing it again under whatever status, error and time
-- changes nothing.
pub finish_turn-finish_turn :
    (conversation turn : String) (status again : TurnStatus) (error later : Option (List ℕ))
    (now much_later : ℕ) (db : Db)
    → is_running status ≡ false
    → finish_turn conversation turn again later much_later
        (finish_turn conversation turn status error now db)
      ≡ finish_turn conversation turn status error now db
finish_turn-finish_turn conversation turn status again error later now much_later db h =
    finish_turn-none conversation turn again later much_later
      (finish_turn conversation turn status error now db)
      (finish_turn-closes conversation turn status error now db h)

pub any-map_all :
    {A : Type 0} (p : A → Bool) (f : A → A) (xs : List A)
    → ((x : A) → p (f x) ≡ false)
    → any p (map f xs) ≡ false
any-map_all p f [] h = refl
any-map_all p f (x ∷ xs) h = rw (h x, any-map_all p f xs h) refl

-- After a start of the worker no conversation has a running turn.
pub restarts-none_running :
    (trash_of : String → String → String) (now : ℕ) (world : World) (id : String)
    → has_running_turn id (step trash_of world (restarts now)).db ≡ false
unfolding step has_running_turn interrupt_running_turns
restarts-none_running trash_of now world id = any-map_all (runs_in id) _ _ (λ row. ground arith)
