-- ===== src/Thread/Entries.antt =====
-- `conversationEntries` of src/components/assistant-thread.ts, over the fields that the file reads.
use voidstation_app.Prelude.{
  Bool, List, Option, String, [], any, false, filter, find, if◌then◌else◌, map, none, not, some,
  true, ℕ, ◌&&◌, ◌++◌, ◌=s◌, ◌∷◌,
}

pub record Message : Type 0 where
  pub id : String
  pub text : List ℕ

-- `MediaResult`, by its kind; of an item, whether it is a movie.
pub data MediaResult : Type 0 where
  found looked_up discovered configured searched : MediaResult
  details_of status_of : Bool → MediaResult
  failed_at : List ℕ → MediaResult

pub record ToolCall : Type 0 where
  pub id : String
  pub turn_id : String
  pub name : String
  pub parameter_type : Option String
  pub parameter_url : Option String
  pub result_kind : Option String
  pub has_error_status : Bool

pub record MediaRecord : Type 0 where
  pub id : String
  pub turn_id : String
  pub result : MediaResult

pub data ThreadEntry : Type 0 where
  message : Message → ThreadEntry
  tool_call : ToolCall → ThreadEntry
  media_result : MediaRecord → ThreadEntry

pub data EntryType : Type 0 where
  message_type tool_call_type media_result_type : EntryType

pub record Reference : Type 0 where
  pub kind : EntryType
  pub id : String

pub record Conversation : Type 0 where
  pub messages : List Message
  pub tool_calls : List ToolCall
  pub media_results : List MediaRecord
  pub timeline : Option (List Reference)

abbrev pub same_type : EntryType → EntryType → Bool
same_type message_type message_type = true
same_type tool_call_type tool_call_type = true
same_type media_result_type media_result_type = true
same_type _ _ = false

-- `${entry.type}-${entry.value.id}`; no type has a dash.
abbrev pub key_of : ThreadEntry → Reference
key_of (message value) = record { kind = message_type; id = value.id }
key_of (tool_call value) = record { kind = tool_call_type; id = value.id }
key_of (media_result value) = record { kind = media_result_type; id = value.id }

abbrev pub has_key : Reference → ThreadEntry → Bool
has_key key entry = same_type key.kind (key_of entry).kind && (key_of entry).id =s key.id

abbrev pub all_entries : Conversation → List ThreadEntry
all_entries conversation =
    map message conversation.messages
    ++ map tool_call conversation.tool_calls
    ++ map media_result conversation.media_results

-- A Map keeps the place of a key that is set again.
abbrev pub set_entry : ThreadEntry → List ThreadEntry → List ThreadEntry
set_entry entry entries =
    if any (has_key (key_of entry)) entries
    then map (λ e. if has_key (key_of entry) e then entry else e) entries
    else entries ++ entry ∷ []

unfoldable pub map_of : List ThreadEntry → List ThreadEntry → List ThreadEntry
map_of entries [] = entries
map_of entries (entry ∷ rest) = map_of (set_entry entry entries) rest

-- The loop over the timeline, and what remains.
unfoldable pub order : List Reference → List ThreadEntry → List ThreadEntry
order [] remaining = remaining
order (reference ∷ references) remaining = elim (find (has_key reference) remaining) [
  | none ↦ order references remaining
  | some entry ↦ entry ∷ order references (filter (λ e. not (has_key reference e)) remaining)
]

abbrev pub by_timeline : Option (List Reference) → List ThreadEntry → List ThreadEntry
by_timeline none entries = entries
by_timeline (some timeline) entries = order timeline (map_of [] entries)

unfoldable pub conversation_entries : Conversation → List ThreadEntry
conversation_entries conversation = by_timeline conversation.timeline (all_entries conversation)
