-- ===== src/Conversations/Calls.antt =====
-- The operations of worker/src/store.ts as the calls that the worker makes on one store, in any order,
-- deletions that a crash cuts off and restarts of the worker included.
use voidstation_app.Sqlite.{Outcome, done}
use voidstation_app.Prelude.{Bool, List, Option, String, [], ℕ, ◌∷◌}
use voidstation_app.Conversations.Tables.{Db, Sql, ToolCallRow, TurnStatus, empty_db}
use voidstation_app.Conversations.Turns.{
  create_conversation, finish_turn, interrupt_running_turns, start_turn,
}
use voidstation_app.Conversations.Evidence.{
  reserve_tool_call, save_assistant_message, save_media_result, save_tool_call,
}
use voidstation_app.Conversations.Settings.{Provider, set_assistant_settings}
use voidstation_app.Conversations.Deletion.{
  FileName, Marked, World, delete_conversation, delete_steps, mark_deletion, marked,
  recover_pending_deletes,
}

pub record NewTurn : Type 0 where
  pub conversation : String
  pub text : List ℕ
  pub provider : String
  pub model : String
  pub turn : String
  pub message_id : String
  pub now : ℕ

pub data Call : Type 0 where
  creates : String → ℕ → String → Call
  starts : NewTurn → Call
  finishes : String → String → TurnStatus → Option (List ℕ) → ℕ → Call
  answers : String → String → String → List ℕ → ℕ → Call
  shows : String → String → String → String → Call
  reserves : String → String → Call
  records : ToolCallRow → Call
  chooses : Provider → String → Call
  deletes : Bool → String → Call
  dies_deleting : ℕ → String → Call
  restarts : ℕ → Call

abbrev pub on_tables : {A : Type 0} → Sql A → World → World
on_tables m world = record world { db = (m world.db).1 }

abbrev pub on_db : (Db → Db) → World → World
on_db f world = record world { db = f world.db }

-- What a crash leaves that comes `n` steps after the mark of a deletion.
abbrev pub cut_off : ℕ → List FileName → Outcome Marked × Db → World
cut_off n files (done (marked row), db) = delete_steps n row (record { db = db; files = files })
cut_off n files (_, db) = record { db = db; files = files }

-- The tables and files after a call.
unfoldable pub step : (String → String → String) → World → Call → World
step trash_of world (creates id now path) = on_tables (create_conversation id now path) world
step trash_of world (starts t) =
    on_tables (start_turn t.conversation t.text t.provider t.model t.turn t.message_id t.now) world
step trash_of world (finishes conversation turn status error now) =
    on_db (finish_turn conversation turn status error now) world
step trash_of world (answers conversation turn id text now) =
    on_tables (save_assistant_message conversation turn id text now) world
step trash_of world (shows conversation turn id result) =
    on_tables (save_media_result conversation turn id result) world
step trash_of world (reserves conversation id) = on_tables (reserve_tool_call conversation id) world
step trash_of world (records call) = on_tables (save_tool_call call) world
step trash_of world (chooses provider model) = on_db (set_assistant_settings provider model) world
step trash_of world (deletes renames id) = (delete_conversation trash_of renames id world).1
step trash_of world (dies_deleting n id) =
    cut_off n world.files (mark_deletion trash_of id world.db)
step trash_of world (restarts now) =
    on_db (interrupt_running_turns now) (recover_pending_deletes world)

unfoldable pub run : (String → String → String) → World → List Call → World
run trash_of world [] = world
run trash_of world (c ∷ cs) = run trash_of (step trash_of world c) cs

abbrev pub empty_world : World
empty_world = record { db = empty_db; files = [] }
