-- ===== src/Thread/Examples.antt =====
-- A short conversation in the thread of src/components/assistant-thread.ts.
use mathlib.Core.List.{Perm}
use voidstation_app.Prelude.{
  String, [], arith, codes, false, filter, length, none, refl, some, ◌=b◌, ◌∷◌, ◌≡◌, ◌≤◌,
}
use voidstation_app.Thread.Entries.{
  Conversation, EntryType, Message, ToolCall, all_entries, conversation_entries, found, has_key,
  map_of, media_result, media_result_type, message, message_type, order, tool_call, tool_call_type,
}
use voidstation_app.Thread.Groups.{
  activity_has_error, activity_summary, group_thread_entries, label_of,
}
use voidstation_app.Thread.Order.{HasDistinctKeys, conversation_entries-Perm}
use voidstation_app.Thread.Grouping.{IsGrouping, group_thread_entries-IsGrouping}

abbrev lookup_call : ToolCall
lookup_call = record {
  id = "k";
  turn_id = "t";
  name = "web_search";
  parameter_type = none;
  parameter_url = none;
  result_kind = none;
  has_error_status = false;
}

abbrev question : Message
question = record { id = "u"; text = codes "Hello" }

abbrev short_conversation : Conversation
short_conversation = record {
  messages = question ∷ [];
  tool_calls = lookup_call ∷ [];
  media_results = record { id = "p"; turn_id = "t"; result = found } ∷ [];
  timeline = some (
      record { kind = tool_call_type; id = "k" }
      ∷ record { kind = tool_call_type; id = "k" }
      ∷ record { kind = message_type; id = "u" }
      ∷ []);
}

-- One entry of each type.
one_of_each :
    (kind : EntryType) (id : String)
    → length (filter (has_key (record { kind = kind; id = id })) (all_entries short_conversation))
      ≤ 1
one_of_each message_type id = ground arith
one_of_each tool_call_type id = ground arith
one_of_each media_result_type id = ground arith

short-HasDistinctKeys : HasDistinctKeys (all_entries short_conversation)
short-HasDistinctKeys key = one_of_each key.kind key.id

shown :
    conversation_entries short_conversation
    ≡ tool_call lookup_call
      ∷ message question
      ∷ media_result (record { id = "p"; turn_id = "t"; result = found })
      ∷ []
unfolding conversation_entries order map_of
shown = refl

summary :
    activity_summary (λ url. none) (tool_call lookup_call ∷ tool_call lookup_call ∷ [])
    ≡ codes "Searched the web"
unfolding activity_summary label_of activity_has_error ◌=b◌
summary = refl

conversation_entries-Perm_example :
    Perm (conversation_entries short_conversation) (all_entries short_conversation)
conversation_entries-Perm_example =
    conversation_entries-Perm short_conversation short-HasDistinctKeys

group_thread_entries-IsGrouping_example :
    IsGrouping
      (all_entries short_conversation)
      (group_thread_entries (all_entries short_conversation))
group_thread_entries-IsGrouping_example =
    group_thread_entries-IsGrouping (all_entries short_conversation)
