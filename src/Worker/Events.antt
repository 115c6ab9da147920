-- ===== src/Worker/Events.antt =====
-- What happens to the worker of worker/src/server.ts, in any order.
use voidstation_app.Prelude.{
  Bool, List, Option, String, [], false, if◌then◌else◌, leb, length, none, true, ℕ, ◌&&◌, ◌∷◌,
}
use voidstation_app.Conversations.Tables.{Db, ToolStatus}
use voidstation_app.Conversations.Turns.{create_conversation, interrupt_running_turns}
use voidstation_app.Conversations.Settings.{Provider, openai_codex, set_assistant_settings}
use voidstation_app.Conversations.Deletion.{FileName}
use voidstation_app.Worker.Tasks.{ActiveTurn, Runtime, Worker}
use voidstation_app.Worker.Submission.{begin_submit, continue_submit, delete_by_worker}
use voidstation_app.Worker.Session.{
  message_end, message_update, on_task, prompt_ended, save_media, session_created, shutdown,
  timed_out, tool_execution_end, tool_execution_start, turn_threw,
}

-- An event of the run of one turn.
pub data TurnEvent : Type 0 where
  updates_message : String → List ℕ → TurnEvent
  ends_message : String → List ℕ → ℕ → TurnEvent
  starts_tool : String → String → String → TurnEvent
  ends_tool : String → String → String → String → ToolStatus → TurnEvent
  saves_media : String → String → TurnEvent
  creates_session : TurnEvent
  ends_prompt : ℕ → Option (List ℕ) → TurnEvent
  throws : ℕ → List ℕ → TurnEvent
  times_out : ℕ → TurnEvent

pub data Event : Type 0 where
  creates : String → ℕ → String → Event
  begins_submit : String → ℕ → Event
  continues_submit : String → List ℕ → Provider → String → Bool → String → String → ℕ → Event
  deletes : Bool → List FileName → String → Event
  selects : Provider → String → Event
  runs : String → TurnEvent → Event
  stops : ℕ → Event
  closes : Event

unfoldable pub turn_step : Runtime → TurnEvent → ActiveTurn → Worker → Worker
turn_step runtime (updates_message id delta) = message_update id delta
turn_step runtime (ends_message id text now) = message_end id text now
turn_step runtime (starts_tool call_id id parameters) = tool_execution_start call_id id parameters
turn_step runtime (ends_tool call_id id name result status) =
    tool_execution_end call_id id name result status
turn_step runtime (saves_media id result) = save_media id result
turn_step runtime creates_session = session_created
turn_step runtime (ends_prompt now error) = prompt_ended runtime now error
turn_step runtime (throws now error) = turn_threw runtime now error
turn_step runtime (times_out now) = timed_out runtime now

-- `updateAssistantSettings`
unfoldable pub update_settings : Runtime → Provider → String → Worker → Worker
update_settings runtime provider model worker =
    if runtime.has_model provider model
    then record worker {
      provider = provider;
      model = model;
      db = set_assistant_settings provider model worker.db;
    }
    else worker

-- The end of `shutdown`, when all tasks have ended
unfoldable pub close_store : Worker → Worker
close_store worker =
    if worker.stopping && leb (length worker.active_turns) 0
    then record worker { closed = true }
    else worker

unfoldable pub step : Runtime → (String → String → String) → Worker → Event → Worker
step runtime trash_of worker (creates id now path) = record worker {
  db = (create_conversation id now path worker.db).1;
}
step runtime trash_of worker (begins_submit conversation now) =
    (begin_submit conversation now worker).1
step runtime trash_of worker (continues_submit conversation text provider model auth turn id now) =
    (continue_submit runtime conversation text provider model auth turn id now worker).1
step runtime trash_of worker (deletes renames files conversation) =
    (delete_by_worker trash_of renames files conversation worker).2
step runtime trash_of worker (selects provider model) =
    update_settings runtime provider model worker
step runtime trash_of worker (runs turn event) = on_task (turn_step runtime event) turn worker
step runtime trash_of worker (stops now) = shutdown now worker
step runtime trash_of worker closes = close_store worker

unfoldable pub run : Runtime → (String → String → String) → Worker → List Event → Worker
run runtime trash_of worker [] = worker
run runtime trash_of worker (event ∷ events) =
    run runtime trash_of (step runtime trash_of worker event) events

-- A worker that has just started on a store.
abbrev pub fresh_worker : ℕ → Db → Worker
fresh_worker now db = record {
  active_turns = [];
  codex_gate = none;
  openrouter_gate = none;
  stopping = false;
  closed = false;
  provider = openai_codex;
  model = "gpt-5.5";
  db = interrupt_running_turns now db;
}
