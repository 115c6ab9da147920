-- ===== src/Worker/Session.antt =====
-- `runTurn` of worker/src/server.ts after its first wait, event by event, and `shutdown`. An event of a
-- turn comes between `activeTurns.set` and `activeTurns.delete`: `finally` unsubscribes and clears the
-- timers. Identifiers that the code draws are arguments.
use voidstation_app.Sqlite.{Outcome, done, threw}
use voidstation_app.Prelude.{
  Bool, List, Option, String, [], codes, filter, find, if◌then◌else◌, none, not, some, true, ℕ,
  ◌++◌, ◌=s◌, ◌||◌, ◌∷◌,
}
use voidstation_app.Conversations.Tables.{Db, ToolStatus, complete, failure, interrupted}
use voidstation_app.Conversations.Evidence.{
  reserve_tool_call, save_assistant_message, save_media_result, save_tool_call,
}
use voidstation_app.Conversations.Settings.{openai_codex}
use voidstation_app.Worker.Failures.{provider_failure}
use voidstation_app.Worker.Tasks.{
  ActiveTurn, LiveMessage, Runtime, ToolRun, Worker, delete_task, find_task, set_gate, settle,
  update_task,
}

abbrev pub on_found : (ActiveTurn → Worker → Worker) → Option ActiveTurn → Worker → Worker
on_found f none worker = worker
on_found f (some task) worker = f task worker

abbrev pub on_task : (ActiveTurn → Worker → Worker) → String → Worker → Worker
on_task f turn worker = on_found f (find_task turn worker) worker

-- `if (task.settled) return;` of the subscriber
abbrev pub unless_settled : (ActiveTurn → Worker → Worker) → ActiveTurn → Worker → Worker
unless_settled f task worker = if task.settled then worker else f task worker

abbrev pub with_delta : String → List ℕ → Option LiveMessage → LiveMessage
with_delta id delta none = record { id = id; text = delta }
with_delta id delta (some live) = record live { text = live.text ++ delta }

-- "message_update"
unfoldable pub message_update : String → List ℕ → ActiveTurn → Worker → Worker
message_update id delta =
    unless_settled (λ task.
      update_task (λ t. record t { live = some (with_delta id delta t.live) }) task.turn_id)

abbrev pub live_id : String → Option LiveMessage → String
live_id id none = id
live_id id (some live) = live.id

-- A statement of the store, and what follows if it does not throw.
abbrev pub then_task : {A : Type 0} → Outcome A × Db → (Worker → Worker) → Worker → Worker
then_task (done a, db) f worker = f (record worker { db = db })
then_task (threw, db) f worker = record worker { db = db }

-- "message_end" of the assistant
unfoldable pub message_end : String → List ℕ → ℕ → ActiveTurn → Worker → Worker
message_end id text now = unless_settled (λ task worker.
    then_task
      (save_assistant_message task.conversation_id task.turn_id (live_id id task.live) text now
        worker.db)
      (update_task (λ t. record t { live = none }) task.turn_id) worker)

abbrev pub same_call : String → ToolRun → Bool
same_call call_id run = run.call_id =s call_id

-- "tool_execution_start"
unfoldable pub tool_execution_start : String → String → String → ActiveTurn → Worker → Worker
tool_execution_start call_id id parameters = unless_settled (λ task worker.
    then_task (reserve_tool_call task.conversation_id id worker.db) (λ w. w)
      (update_task
        (λ t. record t {
          tools =
              filter (λ run. not (same_call call_id run)) t.tools
              ++ record { call_id = call_id; id = id; parameters = parameters } ∷ [];
        })
        task.turn_id worker))

abbrev pub started_tool : String → String → Option ToolRun → ToolRun
started_tool call_id id none = record { call_id = call_id; id = id; parameters = "{}" }
started_tool call_id id (some run) = run

-- "tool_execution_end"
unfoldable pub tool_execution_end :
    String → String → String → String → ToolStatus → ActiveTurn → Worker → Worker
tool_execution_end call_id id name result status = unless_settled (λ task worker.
    let run = started_tool call_id id (find (same_call call_id) task.tools) in
    then_task
      (save_tool_call
        (record {
          id = run.id;
          conversation_id = task.conversation_id;
          turn_id = task.turn_id;
          name = name;
          parameters = run.parameters;
          result = result;
          status = status;
          position = 0;
        })
        worker.db)
      (λ w. w) worker)

-- The callback of `createMediaTools`
unfoldable pub save_media : String → String → ActiveTurn → Worker → Worker
save_media id result task worker =
    then_task (save_media_result task.conversation_id task.turn_id id result worker.db) (λ w. w)
      worker

-- After `createAgentSession`
unfoldable pub session_created : ActiveTurn → Worker → Worker
session_created task worker =
    if task.settled || worker.stopping || task.aborted
    then delete_task task.turn_id worker
    else worker

abbrev pub stop_message : List ℕ
stop_message = codes "The worker stopped before this reply finished."

abbrev pub fail_task : Runtime → ℕ → List ℕ → ActiveTurn → Worker → Worker
fail_task runtime now error task worker =
    let fault = provider_failure runtime.to_lower task.provider error in
    settle failure (some fault.message) now task (set_gate runtime now task.provider fault worker)

abbrev pub end_prompt : Runtime → ℕ → Option (List ℕ) → ActiveTurn → Worker → Worker
end_prompt runtime now error task worker =
    if task.settled
    then worker
    else if worker.stopping
    then settle interrupted (some stop_message) now task worker
    else elim error [
      | none ↦ settle complete none now task worker
      | some e ↦ fail_task runtime now e task worker
    ]

-- After `prompt`; `error` is `assistantError` of the session.
unfoldable pub prompt_ended : Runtime → ℕ → Option (List ℕ) → ActiveTurn → Worker → Worker
prompt_ended runtime now error task worker =
    delete_task task.turn_id (end_prompt runtime now error task worker)

abbrev pub end_thrown : Runtime → ℕ → List ℕ → ActiveTurn → Worker → Worker
end_thrown runtime now error task worker =
    if task.settled
    then worker
    else let fault = provider_failure runtime.to_lower task.provider error in
      let gated = set_gate runtime now task.provider fault worker in
      if worker.stopping
      then settle interrupted (some stop_message) now task gated
      else settle failure (some fault.message) now task gated

-- `catch` and `finally`
unfoldable pub turn_threw : Runtime → ℕ → List ℕ → ActiveTurn → Worker → Worker
turn_threw runtime now error task worker =
    delete_task task.turn_id (end_thrown runtime now error task worker)

abbrev pub abort_task : ActiveTurn → ActiveTurn
abort_task task = record task { aborted = true }

-- The timer of `turnTimeoutMs`
unfoldable pub timed_out : Runtime → ℕ → ActiveTurn → Worker → Worker
timed_out runtime now task worker =
    settle failure (some (codes "The assistant took too long to reply.")) now task (
      set_gate runtime now task.provider
        (provider_failure runtime.to_lower openai_codex (codes "timeout"))
        (update_task abort_task task.turn_id worker))

unfoldable pub interrupt_tasks : ℕ → List ActiveTurn → Worker → Worker
interrupt_tasks now [] worker = worker
interrupt_tasks now (task ∷ tasks) worker =
    interrupt_tasks now tasks
      (settle interrupted (some stop_message) now task (update_task abort_task task.turn_id worker))

-- `shutdown` up to its wait for the tasks
unfoldable pub shutdown : ℕ → Worker → Worker
unfolding interrupt_tasks
shutdown now worker =
    if worker.closed
    then worker
    else interrupt_tasks now worker.active_turns (record worker { stopping = true })
