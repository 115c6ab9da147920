-- ===== src/Worker/Writes.antt =====
-- The statements of worker/src/store.ts that leave the turns as they are.
use voidstation_app.Sqlite.{bind_keeps}
use voidstation_app.Prelude.{List, String, [], arith, refl, ℕ, ◌∙◌, ◌∷◌, ◌≡◌}
use voidstation_app.Conversations.Tables.{
  Db, ItemType, Role, ToolCallRow, TurnRow, assistant, media_result, message, tool_call,
}
use voidstation_app.Conversations.Timeline.{append_timeline, insert_message, insert_message_row}
use voidstation_app.Conversations.Turns.{create_conversation}
use voidstation_app.Conversations.Evidence.{
  insert_media, reserve_tool_call, save_assistant_message, save_media_result, save_tool_call,
  upsert_tool_call,
}

abbrev HasTurns : List TurnRow → Db → Type 0
HasTurns turns db = db.turns ≡ turns

append_timeline-turns :
    (id : String) (kind : ItemType) (ref : String) (db : Db)
    → (append_timeline id kind ref db).1.turns ≡ db.turns
unfolding append_timeline
append_timeline-turns id kind ref db = ground arith

pub insert_message-turns :
    (conversation turn : String) (role : Role) (text : List ℕ) (id : String) (now : ℕ) (db : Db)
    → (insert_message conversation turn role text id now db).1.turns ≡ db.turns
unfolding insert_message insert_message_row
insert_message-turns conversation turn role text id now db =
    bind_keeps (HasTurns db.turns) (insert_message_row conversation turn role text id now)
      (λ u. append_timeline conversation message id) db (ground arith)
      (λ u h. append_timeline-turns conversation message id _ ∙ h)

pub save_assistant_message-turns :
    (conversation turn id : String) (text : List ℕ) (now : ℕ) (db : Db)
    → (save_assistant_message conversation turn id text now db).1.turns ≡ db.turns
unfolding save_assistant_message
save_assistant_message-turns conversation turn id [] now db = refl
save_assistant_message-turns conversation turn id (x ∷ text) now db =
    insert_message-turns conversation turn assistant (x ∷ text) id now db

pub save_media_result-turns :
    (conversation turn id result : String) (db : Db)
    → (save_media_result conversation turn id result db).1.turns ≡ db.turns
unfolding save_media_result insert_media
save_media_result-turns conversation turn id result db =
    bind_keeps (HasTurns db.turns) (insert_media conversation turn id result)
      (λ u. append_timeline conversation media_result id) db (ground arith)
      (λ u h. append_timeline-turns conversation media_result id _ ∙ h)

pub reserve_tool_call-turns :
    (conversation id : String) (db : Db) → (reserve_tool_call conversation id db).1.turns ≡ db.turns
unfolding reserve_tool_call
reserve_tool_call-turns conversation id db = append_timeline-turns conversation tool_call id db

pub save_tool_call-turns :
    (call : ToolCallRow) (db : Db) → (save_tool_call call db).1.turns ≡ db.turns
unfolding save_tool_call upsert_tool_call
save_tool_call-turns call db =
    bind_keeps (HasTurns db.turns) (reserve_tool_call call.conversation_id call.id)
      (λ u. upsert_tool_call call) db (reserve_tool_call-turns call.conversation_id call.id db)
      (λ u h. ground arith)

pub create_conversation-turns :
    (id : String) (now : ℕ) (path : String) (db : Db)
    → (create_conversation id now path db).1.turns ≡ db.turns
unfolding create_conversation
create_conversation-turns id now path db = ground arith
