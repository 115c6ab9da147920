-- ===== src/Worker/Tasks.antt =====
-- The state of the worker in worker/src/server.ts: its active turns, the gates of its providers and its
-- store. The Pi runtime says which models can be used; a task is found by its turn, as in `activeTurns`.
use voidstation_app.Prelude.{
  Bool, List, Option, String, [], any, filter, find, if◌then◌else◌, map, none, not, some, true, ℕ,
  ◌++◌, ◌+◌, ◌=s◌, ◌∷◌,
}
use voidstation_app.Conversations.Tables.{Db, TurnStatus}
use voidstation_app.Conversations.Turns.{finish_turn}
use voidstation_app.Conversations.Settings.{Provider, openai_codex, openrouter}
use voidstation_app.Worker.Failures.{Failure, FailureKind, authentication, unknown}

-- `task.live`
pub record LiveMessage : Type 0 where
  pub id : String
  pub text : List ℕ

-- An entry of `toolIds` and `toolArgs`.
pub record ToolRun : Type 0 where
  pub call_id : String
  pub id : String
  pub parameters : String

pub record ActiveTurn : Type 0 where
  pub conversation_id : String
  pub turn_id : String
  pub provider : Provider
  pub model : String
  pub live : Option LiveMessage
  pub tools : List ToolRun
  pub aborted : Bool
  pub settled : Bool

pub record ProviderGate : Type 0 where
  pub error : List ℕ
  pub until : Option ℕ

-- What the worker takes from the Pi runtime, from JavaScript and from its configuration.
pub record Runtime : Type 0 where
  pub has_model : Provider → String → Bool
  pub to_lower : List ℕ → List ℕ
  pub cooldown_ms : ℕ

pub record Worker : Type 0 where
  pub active_turns : List ActiveTurn
  pub codex_gate : Option ProviderGate
  pub openrouter_gate : Option ProviderGate
  pub stopping : Bool
  pub closed : Bool
  pub provider : Provider
  pub model : String
  pub db : Db

abbrev pub has_turn_id : String → ActiveTurn → Bool
has_turn_id turn task = task.turn_id =s turn

abbrev pub find_task : String → Worker → Option ActiveTurn
find_task turn worker = find (has_turn_id turn) worker.active_turns

-- `activeTurns.set`
abbrev pub set_task : ActiveTurn → Worker → Worker
set_task task worker = record worker {
  active_turns = filter (λ t. not (has_turn_id task.turn_id t)) worker.active_turns ++ task ∷ [];
}

-- `activeTurns.delete`
abbrev pub delete_task : String → Worker → Worker
delete_task turn worker = record worker {
  active_turns = filter (λ t. not (has_turn_id turn t)) worker.active_turns;
}

-- A write to the task object of a turn.
abbrev pub update_task : (ActiveTurn → ActiveTurn) → String → Worker → Worker
update_task f turn worker = record worker {
  active_turns = map (λ t. if has_turn_id turn t then f t else t) worker.active_turns;
}

-- `hasActiveTurn`
unfoldable pub has_active_turn : String → Worker → Bool
has_active_turn conversation worker =
    any (λ t. t.conversation_id =s conversation) worker.active_turns

abbrev pub gate_of : Provider → Worker → Option ProviderGate
gate_of openai_codex worker = worker.codex_gate
gate_of openrouter worker = worker.openrouter_gate

abbrev pub put_gate : Provider → Option ProviderGate → Worker → Worker
put_gate openai_codex gate worker = record worker { codex_gate = gate }
put_gate openrouter gate worker = record worker { openrouter_gate = gate }

-- `Date.now() + providerCooldownMs`, or never, for a failed authentication
abbrev pub gate_until : Runtime → ℕ → FailureKind → Option ℕ
gate_until runtime now authentication = none
gate_until runtime now _ = some (now + runtime.cooldown_ms)

unfoldable pub gate_by_kind : Runtime → ℕ → Provider → List ℕ → FailureKind → Worker → Worker
gate_by_kind runtime now provider error unknown worker = worker
gate_by_kind runtime now provider error kind worker =
    put_gate provider (some (record { error = error; until = gate_until runtime now kind })) worker

-- `setGate`
unfoldable pub set_gate : Runtime → ℕ → Provider → Failure → Worker → Worker
unfolding gate_by_kind
set_gate runtime now provider fault worker =
    gate_by_kind runtime now provider fault.message fault.kind worker

abbrev pub mark_settled : ActiveTurn → ActiveTurn
mark_settled task = record task { settled = true }

-- `settle`
unfoldable pub settle : TurnStatus → Option (List ℕ) → ℕ → ActiveTurn → Worker → Worker
settle status error now task worker =
    if task.settled then worker else record (update_task mark_settled task.turn_id worker) {
      db = finish_turn task.conversation_id task.turn_id status error now worker.db;
    }
