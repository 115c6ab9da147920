-- ===== src/Conversations/Tables.antt =====
-- The tables of the conversation database, and the queries that its operations share: the schema in
-- worker/src/store.ts. Identifiers and times are arguments where the code calls `randomUUID()` and
-- `now()`; a time is the number of its ISO text, which orders as it does. JSON columns hold their text.
use voidstation_app.Sqlite.{Statement}
use voidstation_app.Prelude.{
  Bool, List, Option, String, [], any, false, filter, map, max, none, true, ℕ, ◌&&◌, ◌+◌, ◌=s◌, ◌∷◌,
}

pub data TurnStatus : Type 0 where
  running complete interrupted failure : TurnStatus

pub data Role : Type 0 where
  user assistant : Role

pub data ItemType : Type 0 where
  message tool_call media_result : ItemType

pub data ToolStatus : Type 0 where
  completed errored : ToolStatus

pub record ConversationRow : Type 0 where
  pub id : String
  pub title : List ℕ
  pub created_at : ℕ
  pub updated_at : ℕ
  pub transcript_path : String

pub record TurnRow : Type 0 where
  pub id : String
  pub conversation_id : String
  pub status : TurnStatus
  pub error : Option (List ℕ)
  pub provider : String
  pub model : String
  pub started_at : ℕ
  pub finished_at : Option ℕ

pub record MessageRow : Type 0 where
  pub id : String
  pub conversation_id : String
  pub turn_id : Option String
  pub role : Role
  pub text : List ℕ
  pub position : ℕ
  pub created_at : ℕ

pub record MediaRow : Type 0 where
  pub position : ℕ
  pub id : String
  pub conversation_id : String
  pub turn_id : String
  pub result : String

pub record ToolCallRow : Type 0 where
  pub id : String
  pub conversation_id : String
  pub turn_id : String
  pub name : String
  pub parameters : String
  pub result : String
  pub status : ToolStatus
  pub position : ℕ

pub record TimelineRow : Type 0 where
  pub conversation_id : String
  pub position : ℕ
  pub item_type : ItemType
  pub ref_id : String

pub record DeletionRow : Type 0 where
  pub conversation_id : String
  pub transcript_path : String
  pub trash_path : String

pub record SettingsRow : Type 0 where
  pub provider : String
  pub model : String
  pub codex_model : String
  pub openrouter_model : String

pub record Db : Type 0 where
  pub conversations : List ConversationRow
  pub turns : List TurnRow
  pub messages : List MessageRow
  pub media_results : List MediaRow
  pub tool_calls : List ToolCallRow
  pub timeline_items : List TimelineRow
  pub deletions : List DeletionRow
  pub assistant_settings : Option SettingsRow

abbrev pub empty_db : Db
empty_db = record {
  conversations = [];
  turns = [];
  messages = [];
  media_results = [];
  tool_calls = [];
  timeline_items = [];
  deletions = [];
  assistant_settings = none;
}

abbrev pub Sql : Type 0 → Type 0
Sql A = Statement Db A

abbrev pub is_running : TurnStatus → Bool
is_running running = true
is_running _ = false

abbrev pub same_type : ItemType → ItemType → Bool
same_type message message = true
same_type tool_call tool_call = true
same_type media_result media_result = true
same_type _ _ = false

-- SELECT … FROM conversations WHERE id = ?
unfoldable pub has_conversation : String → Db → Bool
has_conversation id db = any (λ row. row.id =s id) db.conversations

-- SELECT 1 FROM deletions WHERE conversation_id = ?
unfoldable pub has_deletion : String → Db → Bool
has_deletion id db = any (λ row. row.conversation_id =s id) db.deletions

abbrev pub runs_in : String → TurnRow → Bool
runs_in id row = row.conversation_id =s id && is_running row.status

-- SELECT 1 FROM turns WHERE conversation_id = ? AND status = 'running'
unfoldable pub has_running_turn : String → Db → Bool
has_running_turn id db = any (runs_in id) db.turns

-- COALESCE(MAX(position), 0)
unfoldable pub max_position : List ℕ → ℕ
max_position [] = 0
max_position (p ∷ ps) = max p (max_position ps)

abbrev pub timeline_of : String → Db → List TimelineRow
timeline_of id db = filter (λ row. row.conversation_id =s id) db.timeline_items

abbrev pub messages_of : String → Db → List MessageRow
messages_of id db = filter (λ row. row.conversation_id =s id) db.messages

abbrev pub tool_calls_of : String → Db → List ToolCallRow
tool_calls_of id db = filter (λ row. row.conversation_id =s id) db.tool_calls

abbrev pub media_of : String → Db → List MediaRow
media_of id db = filter (λ row. row.conversation_id =s id) db.media_results

abbrev pub refers_to : ItemType → String → TimelineRow → Bool
refers_to kind ref row = same_type kind row.item_type && row.ref_id =s ref

-- The rows of a conversation that UNIQUE(conversation_id, type, ref_id) compares with.
abbrev pub is_listed : String → ItemType → String → Db → Bool
is_listed id kind ref db = any (refers_to kind ref) (timeline_of id db)

abbrev pub next_timeline : String → Db → ℕ
next_timeline id db =
    max_position (map (λ (row : TimelineRow). row.position) (timeline_of id db)) + 1

abbrev pub timeline_row : String → ItemType → String → Db → TimelineRow
timeline_row id kind ref db = record {
  conversation_id = id;
  position = next_timeline id db;
  item_type = kind;
  ref_id = ref;
}
