-- ===== src/Conversations/Timeline.antt =====
-- `appendTimeline` and `insertMessage` of worker/src/store.ts.
use voidstation_app.Sqlite.{done, threw, ◌>>◌}
use voidstation_app.Prelude.{
  Bool, List, Option, String, [], any, if◌then◌else◌, map, none, not, some, true, ℕ, ◌&&◌, ◌++◌,
  ◌+◌, ◌=s◌, ◌∷◌,
}
use voidstation_app.Conversations.Tables.{
  Db, ItemType, MessageRow, Role, Sql, has_conversation, is_listed, max_position, message,
  messages_of, timeline_row,
}

-- INSERT OR IGNORE: a second entry of an item is ignored, a missing conversation is not.
unfoldable pub append_timeline : String → ItemType → String → Sql (Unit {0})
append_timeline id kind ref db =
    if has_conversation id db
    then (if is_listed id kind ref db then (done tt, db) else (
      done tt,
      record db { timeline_items = db.timeline_items ++ timeline_row id kind ref db ∷ [] },
    ))
    else (threw, db)

-- FOREIGN KEY of turn_id: NULL, or a turn.
abbrev pub has_turn : Option String → Db → Bool
has_turn none db = true
has_turn (some turn) db = any (λ row. row.id =s turn) db.turns

abbrev pub next_message : String → Db → ℕ
next_message id db = max_position (map (λ (row : MessageRow). row.position) (messages_of id db)) + 1

unfoldable pub insert_message_row : String → String → Role → List ℕ → String → ℕ → Sql (Unit {0})
insert_message_row conversation turn role text id now db =
    if has_conversation conversation db
      && has_turn (some turn) db
      && not (any (λ row. row.id =s id) db.messages)
    then (
      done tt,
      record db {
        messages =
            db.messages
            ++ record {
              id = id;
              conversation_id = conversation;
              turn_id = some turn;
              role = role;
              text = text;
              position = next_message conversation db;
              created_at = now;
            }
              ∷ [];
      },
    )
    else (threw, db)

unfoldable pub insert_message : String → String → Role → List ℕ → String → ℕ → Sql (Unit {0})
unfolding insert_message_row append_timeline
insert_message conversation turn role text id now = do
  insert_message_row conversation turn role text id now
  append_timeline conversation message id
