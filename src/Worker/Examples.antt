-- ===== src/Worker/Examples.antt =====
-- Runs of the worker of worker/src/server.ts.
use voidstation_app.Sqlite.{transaction}
use voidstation_app.Prelude.{
  List, String, [], codes, false, if◌then◌else◌, map, refl, true, ◌∷◌, ◌≡◌, ◌⊎◌,
}
use voidstation_app.Conversations.Tables.{
  empty_db, has_conversation, has_deletion, has_running_turn, max_position,
}
use voidstation_app.Conversations.Timeline.{append_timeline, insert_message, insert_message_row}
use voidstation_app.Conversations.Turns.{
  create_conversation, fill_turn, finish_turn, interrupt_running_turns, start_rows, start_turn,
  title_of,
}
use voidstation_app.Conversations.Evidence.{save_assistant_message}
use voidstation_app.Conversations.Settings.{openai_codex, openrouter}
use voidstation_app.Worker.Failures.{
  Failure, ascii_lower, limits, provider_failure, provider_failure-provider_failure,
}
use voidstation_app.Worker.Gates.{begin_submit-set_gate, blocks}
use voidstation_app.Worker.Tasks.{Runtime, Worker, has_active_turn, set_gate, settle}
use voidstation_app.Worker.Submission.{
  answered, asks, begin_submit, continue_submit, provider_error,
}
use voidstation_app.Worker.Session.{
  message_end, message_update, prompt_ended, session_created, shutdown,
}
use voidstation_app.Worker.Events.{
  Event, begins_submit, continues_submit, creates, creates_session, ends_message, fresh_worker, run,
  runs, step, turn_step, updates_message,
}
use voidstation_app.Worker.Coverage.{IsCovered}
use voidstation_app.Worker.Stop.{run-IsCovered, shutdown-none_running}

abbrev trash_name : String → String → String
trash_name id path = id

abbrev toy : Runtime
toy = record { has_model = λ provider model. true; to_lower = map ascii_lower; cooldown_ms = 1000 }

abbrev replying_events : List Event
replying_events =
    creates "c" 1 "c.jsonl"
    ∷ begins_submit "c" 2
    ∷ continues_submit "c" (codes "Hello") openrouter "m" true "t" "u" 2
    ∷ runs "t" creates_session
    ∷ runs "t" (updates_message "a" (codes "Hi."))
    ∷ runs "t" (ends_message "b" (codes "Hi.") 3)
    ∷ []

abbrev replying_worker : Worker
unfolding run step turn_step create_conversation interrupt_running_turns begin_submit
    continue_submit has_active_turn start_turn transaction start_rows fill_turn insert_message
    insert_message_row append_timeline session_created message_update message_end
    save_assistant_message has_conversation has_deletion has_running_turn max_position title_of
    settle finish_turn prompt_ended
replying_worker = run toy trash_name (fresh_worker 0 empty_db) replying_events

replying-task : map (λ task. task.turn_id) replying_worker.active_turns ≡ "t" ∷ []
unfolding replying_worker
replying-task = refl

run-IsCovered_example :
    ((run toy trash_name (fresh_worker 0 empty_db) replying_events).stopping ≡ true)
    ⊎ IsCovered
        (run toy trash_name (fresh_worker 0 empty_db) replying_events).active_turns
        (run toy trash_name (fresh_worker 0 empty_db) replying_events).db.turns
run-IsCovered_example = run-IsCovered toy trash_name 0 empty_db replying_events

shutdown-none_running_example :
    has_running_turn "c"
      (shutdown 9 (run toy trash_name (fresh_worker 0 empty_db) replying_events)).db
    ≡ false
unfolding run step turn_step create_conversation interrupt_running_turns begin_submit
    continue_submit has_active_turn start_turn transaction start_rows fill_turn insert_message
    insert_message_row append_timeline session_created message_update message_end
    save_assistant_message has_conversation has_deletion max_position title_of has_running_turn
shutdown-none_running_example =
    shutdown-none_running toy trash_name 0 9 empty_db replying_events "c" refl refl

provider_failure-provider_failure_example :
    provider_failure
      (map ascii_lower)
      openrouter
      (provider_failure (map ascii_lower) openrouter (codes "HTTP 429: Quota")).message
    ≡ provider_failure (map ascii_lower) openrouter (codes "HTTP 429: Quota")
provider_failure-provider_failure_example =
    provider_failure-provider_failure (map ascii_lower) openrouter (codes "HTTP 429: Quota")
      (λ text h. refl)

abbrev limited : Failure
limited = record { kind = limits; message = codes "Provider limits are currently exhausted." }

begin_submit-set_gate_example :
    (begin_submit "c" 500 (set_gate toy 100 openai_codex limited (fresh_worker 0 empty_db))).0 ≡ (
      if blocks toy 100 500 limits
      then answered (provider_error limited.message)
      else asks openai_codex "gpt-5.5")
unfolding has_active_turn
begin_submit-set_gate_example =
    begin_submit-set_gate toy 100 500 "c" limited (fresh_worker 0 empty_db) refl refl
