-- ===== src/Conversations/Listing.antt =====
-- `listConversations`, `getConversation` and `toConversation` of worker/src/store.ts.
use voidstation_app.Prelude.{
  Bool, List, Option, String, filter, find, head?, ltb, map, none, some, sort_by, str_leb, ◌&&◌,
  ◌==◌, ◌=s◌, ◌||◌,
}
use voidstation_app.Conversations.Tables.{ConversationRow, Db, TurnRow}

-- ORDER BY started_at DESC, id DESC
abbrev pub newer_turn : TurnRow → TurnRow → Bool
newer_turn a b =
    ltb b.started_at a.started_at || (a.started_at == b.started_at && str_leb b.id a.id)

-- `toConversation`: the latest turn
unfoldable pub latest_turn : String → Db → Option TurnRow
latest_turn id db = head? (sort_by newer_turn (filter (λ row. row.conversation_id =s id) db.turns))

-- ORDER BY updated_at DESC, id DESC
abbrev pub newer_conversation : ConversationRow → ConversationRow → Bool
newer_conversation a b =
    ltb b.updated_at a.updated_at || (a.updated_at == b.updated_at && str_leb b.id a.id)

unfoldable pub list_conversations : Db → List (ConversationRow × Option TurnRow)
list_conversations db =
    map (λ row. (row, latest_turn row.id db)) (sort_by newer_conversation db.conversations)

unfoldable pub get_conversation : String → Db → Option (ConversationRow × Option TurnRow)
get_conversation id db = elim (find (λ row. row.id =s id) db.conversations) [
  | none ↦ none
  | some row ↦ some (row, latest_turn row.id db)
]
