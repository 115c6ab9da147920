-- ===== src/Worker/Starts.antt =====
-- What `startTurn` of worker/src/store.ts does to the turns, and the task that
-- worker/src/server.ts makes for the turn.
use voidstation_app.Sqlite.{Outcome, bind_keeps, close_transaction, done, threw, transaction, ◌>>=◌}
use voidstation_app.Prelude.{
  Bool-cases, List, String, [], any, arith, false, if◌then◌else◌, inl, inr, refl, subst, sym, true,
  ℕ, ◌++◌, ◌=s◌, ◌∙◌, ◌∷◌, ◌≡◌,
}
use voidstation_app.Conversations.Tables.{
  ConversationRow, Db, ItemType, Role, has_conversation, has_deletion, message, user,
}
use voidstation_app.Conversations.Timeline.{append_timeline, insert_message, insert_message_row}
use voidstation_app.Conversations.Turns.{
  Started, busy, fill_turn, may_start, missing, new_turn, start_rows, start_turn, started, title_of,
  update_conversation,
}
use voidstation_app.Conversations.Erasure.{any-map}
use voidstation_app.Worker.Writes.{insert_message-turns}

abbrev HasConversations : List ConversationRow → Db → Type 0
HasConversations rows db = db.conversations ≡ rows

append_timeline-conversations :
    (id : String) (kind : ItemType) (ref : String) (db : Db)
    → (append_timeline id kind ref db).1.conversations ≡ db.conversations
unfolding append_timeline
append_timeline-conversations id kind ref db = ground arith

insert_message-conversations :
    (conversation turn : String) (role : Role) (text : List ℕ) (id : String) (now : ℕ) (db : Db)
    → (insert_message conversation turn role text id now db).1.conversations ≡ db.conversations
unfolding insert_message insert_message_row
insert_message-conversations conversation turn role text id now db =
    bind_keeps (HasConversations db.conversations)
      (insert_message_row conversation turn role text id now)
      (λ u. append_timeline conversation message id) db (ground arith)
      (λ u h. append_timeline-conversations conversation message id _ ∙ h)

-- Nothing, or one running turn more, under a new identifier, of a conversation that stays.
pub data StartCases (conversation turn provider model : String) (now : ℕ) (db : Db)
    : Outcome Started × Db → Type 0 where
  start_threw :
      (after : Db)
      → after.turns ≡ db.turns
      → StartCases conversation turn provider model now db (threw, after)
  start_missing :
      (after : Db)
      → after.turns ≡ db.turns
      → StartCases conversation turn provider model now db (done missing, after)
  start_busy :
      (after : Db)
      → after.turns ≡ db.turns
      → StartCases conversation turn provider model now db (done busy, after)
  start_begun :
      (after : Db)
      → after.turns ≡ db.turns ++ new_turn turn conversation provider model now ∷ []
      → any (λ row. row.id =s turn) db.turns ≡ false
      → has_conversation conversation after ≡ true
      → StartCases conversation turn provider model now db
          (done (started (new_turn turn conversation provider model now)), after)

module _ (conversation : String) (text : List ℕ) (provider model turn id : String) (now : ℕ)
    (db : Db) where
  abbrev Cases : Outcome Started × Db → Type 0
  Cases r = StartCases conversation turn provider model now db r

  abbrev finish_start : Unit {0} → Db → Outcome Started × Db
  finish_start u after = (
    done (started (new_turn turn conversation provider model now)),
    update_conversation (λ row. record row { title = title_of text; updated_at = now }) conversation
        after,
  )

  update-has_conversation :
      (after : Db)
      → after.conversations ≡ db.conversations
      → has_conversation conversation db ≡ true
      → has_conversation conversation (finish_start tt after).1 ≡ true
  unfolding has_conversation
  update-has_conversation after e h =
      any-map (λ row. row.id =s conversation)
        (λ row.
          if row.id =s conversation
          then record row { title = title_of text; updated_at = now }
          else row)
        after.conversations
        (λ row. elim (Bool-cases (row.id =s conversation)) [
          | inl k ↦ rw (k, k) refl
          | inr k ↦ rw (k, k) refl
        ])
      ∙ subst (λ rows. any (λ row. row.id =s conversation) rows ≡ true) (sym e) h

  filled-Cases :
      (r : Outcome (Unit {0})) (mid : Db)
      → mid.turns ≡ db.turns ++ new_turn turn conversation provider model now ∷ []
      → mid.conversations ≡ db.conversations
      → any (λ row. row.id =s turn) db.turns ≡ false
      → has_conversation conversation db ≡ true
      → Cases (
          close_transaction db
            (((λ (x : Db). let y : Outcome (Unit {0}) × Db = (r, x) in y) >>= finish_start) mid))
  filled-Cases (done u) mid t c n h = start_begun _ t n (update-has_conversation mid c h)
  filled-Cases threw mid t c n h = start_threw db refl

  fill_turn-Cases :
      may_start turn conversation db ≡ true
      → has_conversation conversation db ≡ true
      → Cases (
          close_transaction db (
            fill_turn conversation text provider model turn id now (record db {
              turns = db.turns ++ new_turn turn conversation provider model now ∷ [];
            })))
  unfolding fill_turn
  fill_turn-Cases m h =
      let opened = record db {
        turns = db.turns ++ new_turn turn conversation provider model now ∷ [];
      } in
      filled-Cases (insert_message conversation turn user text id now opened).0
        (insert_message conversation turn user text id now opened).1
        (insert_message-turns conversation turn user text id now opened)
        (insert_message-conversations conversation turn user text id now opened) (ground arith) h

  pub start_turn-Cases : Cases (start_turn conversation text provider model turn id now db)
  unfolding start_turn start_rows transaction
  start_turn-Cases = elim (Bool-cases (has_conversation conversation db)) [
    | inr a ↦ rw a (start_missing db refl)
    | inl a ↦ elim (Bool-cases (has_deletion conversation db)) [
      | inl b ↦ rw (a, b) (start_busy db refl)
      | inr b ↦ elim (Bool-cases (may_start turn conversation db)) [
        | inr c ↦ rw (a, b, c) (start_busy db refl)
        | inl c ↦ rw (a, b, c) (fill_turn-Cases c a)
      ]
    ]
  ]
