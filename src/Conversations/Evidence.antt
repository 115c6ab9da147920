-- ===== src/Conversations/Evidence.antt =====
-- What a turn leaves behind: `saveAssistantMessage`, `saveMediaResult`, `reserveToolCall` and
-- `saveToolCall` of worker/src/store.ts.
use voidstation_app.Sqlite.{done, threw, ◌>>◌}
use voidstation_app.Prelude.{
  List, String, [], any, if◌then◌else◌, map, not, some, ℕ, ◌&&◌, ◌++◌, ◌+◌, ◌=s◌, ◌∷◌,
}
use voidstation_app.Conversations.Tables.{
  Db, MediaRow, Sql, ToolCallRow, assistant, has_conversation, max_position, media_result,
  tool_call, tool_calls_of,
}
use voidstation_app.Conversations.Timeline.{append_timeline, has_turn, insert_message}

unfoldable pub save_assistant_message : String → String → String → List ℕ → ℕ → Sql (Unit {0})
save_assistant_message conversation turn id [] now db = (done tt, db)
save_assistant_message conversation turn id (c ∷ text) now db =
    insert_message conversation turn assistant (c ∷ text) id now db

-- The AUTOINCREMENT key of media_results, above all that stand there.
abbrev pub next_media : Db → ℕ
next_media db = max_position (map (λ (row : MediaRow). row.position) db.media_results) + 1

unfoldable pub insert_media : String → String → String → String → Sql (Unit {0})
insert_media conversation turn id result db =
    if has_conversation conversation db
      && has_turn (some turn) db
      && not (any (λ row. row.id =s id) db.media_results)
    then (
      done tt,
      record db {
        media_results =
            db.media_results
            ++ record {
              position = next_media db;
              id = id;
              conversation_id = conversation;
              turn_id = turn;
              result = result;
            }
              ∷ [];
      },
    )
    else (threw, db)

unfoldable pub save_media_result : String → String → String → String → Sql (Unit {0})
unfolding insert_media
save_media_result conversation turn id result = do
  insert_media conversation turn id result
  append_timeline conversation media_result id

unfoldable pub reserve_tool_call : String → String → Sql (Unit {0})
reserve_tool_call conversation id = append_timeline conversation tool_call id

-- `ON CONFLICT(id) DO UPDATE`: the position and the owners of the old row stay.
abbrev pub overwrite : ToolCallRow → ToolCallRow → ToolCallRow
overwrite call row =
    if row.id =s call.id
    then record row {
      name = call.name;
      parameters = call.parameters;
      result = call.result;
      status = call.status;
    }
    else row

abbrev pub next_tool_call : String → Db → ℕ
next_tool_call id db =
    max_position (map (λ (row : ToolCallRow). row.position) (tool_calls_of id db)) + 1

-- The call's position is chosen here; the one that it comes with is not looked at.
unfoldable pub upsert_tool_call : ToolCallRow → Sql (Unit {0})
upsert_tool_call call db =
    if any (λ row. row.id =s call.id) db.tool_calls
    then (done tt, record db { tool_calls = map (overwrite call) db.tool_calls })
    else if has_conversation call.conversation_id db && has_turn (some call.turn_id) db
    then (
      done tt,
      record db {
        tool_calls =
            db.tool_calls ++ record call { position = next_tool_call call.conversation_id db } ∷ [];
      },
    )
    else (threw, db)

unfoldable pub save_tool_call : ToolCallRow → Sql (Unit {0})
unfolding upsert_tool_call
save_tool_call call = do reserve_tool_call call.conversation_id call.id; upsert_tool_call call
