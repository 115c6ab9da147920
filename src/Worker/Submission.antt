-- ===== src/Worker/Submission.antt =====
-- `submitTurn` and `providerBlocked` of worker/src/server.ts, in the two halves that the wait for
-- `checkAuth` separates, and `deleteConversation`.
use voidstation_app.Sqlite.{Outcome, done, threw}
use voidstation_app.Prelude.{
  Bool, List, Option, String, [], codes, false, if◌then◌else◌, ltb, none, not, some, ℕ, ◌&&◌,
}
use voidstation_app.Conversations.Tables.{Db, TurnRow, has_conversation}
use voidstation_app.Conversations.Turns.{Started, busy, missing, start_turn, started}
use voidstation_app.Conversations.Settings.{Provider, provider_name}
use voidstation_app.Conversations.Deletion.{Deleted, FileName, delete_conversation, still_running}
use voidstation_app.Worker.Failures.{Failure, provider_failure}
use voidstation_app.Worker.Tasks.{
  ActiveTurn, ProviderGate, Runtime, Worker, delete_task, gate_of, has_active_turn, put_gate,
  set_gate, set_task,
}

pub data Submission : Type 0 where
  accepted : TurnRow → Submission
  no_conversation : Submission
  already_running : Submission
  provider_error : List ℕ → Submission

pub data Begun : Type 0 where
  answered : Submission → Begun
  asks : Provider → String → Begun

abbrev pub is_closed_gate : ℕ → Option ProviderGate → Option (List ℕ)
is_closed_gate now none = none
is_closed_gate now (some gate) = elim gate.until [
  | none ↦ some gate.error
  | some until ↦ (if ltb now until then some gate.error else none)
]

abbrev pub past_gate : Worker → Option (List ℕ) → Begun × Worker
past_gate worker (some error) = (answered (provider_error error), worker)
past_gate worker none = (asks worker.provider worker.model, put_gate worker.provider none worker)

-- `submitTurn` up to the answer of `checkAuth`.
unfoldable pub begin_submit : String → ℕ → Worker → Begun × Worker
begin_submit conversation now worker =
    if has_active_turn conversation worker
    then (answered already_running, worker)
    else past_gate worker (is_closed_gate now (gate_of worker.provider worker))

abbrev pub new_task : TurnRow → Provider → String → ActiveTurn
new_task turn provider model = record {
  conversation_id = turn.conversation_id;
  turn_id = turn.id;
  provider = provider;
  model = model;
  live = none;
  tools = [];
  aborted = false;
  settled = false;
}

-- `runTurn` up to its first wait: without a transcript, or while stopping, the task ends at once.
abbrev pub launch : ActiveTurn → Worker → Worker
launch task worker =
    if has_conversation task.conversation_id worker.db && not worker.stopping
    then set_task task worker
    else delete_task task.turn_id (set_task task worker)

abbrev pub after_start :
    Provider → String → Worker → Outcome Started × Db → Outcome Submission × Worker
after_start provider model worker (threw, db) = (threw, record worker { db = db })
after_start provider model worker (done missing, db) =
    (done no_conversation, record worker { db = db })
after_start provider model worker (done busy, db) =
    (done already_running, record worker { db = db })
after_start provider model worker (done (started turn), db) =
    (done (accepted turn), launch (new_task turn provider model) (record worker { db = db }))

abbrev pub refused : Runtime → ℕ → Provider → Failure → Worker → Outcome Submission × Worker
refused runtime now provider fault worker =
    (done (provider_error fault.message), set_gate runtime now provider fault worker)

-- The rest of `submitTurn`: `auth` is the answer of `checkAuth`.
unfoldable pub continue_submit :
    Runtime
    → String
    → List ℕ
    → Provider
    → String
    → Bool
    → String
    → String
    → ℕ
    → Worker
    → Outcome Submission × Worker
continue_submit runtime conversation text provider model auth turn message_id now worker =
    if not auth
    then refused runtime now provider
        (provider_failure runtime.to_lower provider (codes "authentication")) worker
    else if not (runtime.has_model provider model)
    then (done (provider_error (codes "The selected model is unavailable.")), worker)
    else after_start provider model worker
        (start_turn conversation text (provider_name provider) model turn message_id now worker.db)

-- `deleteConversation`
unfoldable pub delete_by_worker :
    (String → String → String)
    → Bool
    → List FileName
    → String
    → Worker
    → Deleted × List FileName × Worker
delete_by_worker trash_of renames files conversation worker =
    if has_active_turn conversation worker
    then (still_running, files, worker)
    else let (answer, world) =
        delete_conversation trash_of renames conversation
          (record { db = worker.db; files = files }) in
      (answer, world.files, record worker { db = world.db })
