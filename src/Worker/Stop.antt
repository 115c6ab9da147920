-- ===== src/Worker/Stop.antt =====
-- Runs of the worker of worker/src/server.ts from its start to `shutdown`.
use voidstation_app.Prelude.{
  Bool-cases, List, String, [], any, arith, codes, eq_iff, false, if◌then◌else◌, inl, inr, map,
  refl, some, sym, true, ℕ, ◌=s◌, ◌∷◌, ◌≡◌, ◌⊎◌,
}
use voidstation_app.Conversations.Tables.{
  Db, TurnRow, has_running_turn, interrupted, is_running, runs_in,
}
use voidstation_app.Conversations.Turns.{close_turn, interrupt_running_turns, is_open_turn}
use voidstation_app.Worker.Tasks.{ActiveTurn, Runtime, Worker, settle, update_task}
use voidstation_app.Worker.Session.{abort_task, interrupt_tasks, shutdown, stop_message}
use voidstation_app.Worker.Events.{Event, fresh_worker, run, step}
use voidstation_app.Worker.Coverage.{IsCovered, covers, is_covered}
use voidstation_app.Worker.Guard.{IsSafe, finish_turn-turns}
use voidstation_app.Worker.TurnRuns.{if-keeps}
use voidstation_app.Worker.Reach.{step-IsSafe}

run-IsSafe :
    (runtime : Runtime) (trash_of : String → String → String) (events : List Event)
    (worker : Worker)
    → IsSafe worker
    → IsSafe (run runtime trash_of worker events)
unfolding run
run-IsSafe runtime trash_of [] worker v = v
run-IsSafe runtime trash_of (event ∷ events) worker v =
    run-IsSafe runtime trash_of events (step runtime trash_of worker event)
      (step-IsSafe runtime trash_of worker event v)

interrupted-IsCovered :
    (now : ℕ) (rows : List TurnRow)
    → IsCovered [] (
        map
          (λ (row : TurnRow).
            if is_running row.status
            then close_turn interrupted
                (some (codes "The worker restarted before this reply finished."))
                now
                row
            else row)
          rows)
interrupted-IsCovered now [] = tt
interrupted-IsCovered now (row ∷ rows) = (ground arith, interrupted-IsCovered now rows)

fresh_worker-IsSafe : (now : ℕ) (db : Db) → IsSafe (fresh_worker now db)
unfolding interrupt_running_turns
fresh_worker-IsSafe now db = record {
  distinct = λ turn. omega arith;
  aborted = inr tt;
  covered = inr (interrupted-IsCovered now db.turns);
}

-- Whatever happens after the worker's start on a store, each turn that the store has as running is
-- the turn of an active task of the same conversation that is still to be settled, until the worker
-- is told to stop.
pub run-IsCovered :
    (runtime : Runtime) (trash_of : String → String → String) (now : ℕ) (db : Db)
    (events : List Event)
    → ((run runtime trash_of (fresh_worker now db) events).stopping ≡ true)
      ⊎ IsCovered
          (run runtime trash_of (fresh_worker now db) events).active_turns
          (run runtime trash_of (fresh_worker now db) events).db.turns
run-IsCovered runtime trash_of now db events =
    (run-IsSafe runtime trash_of events (fresh_worker now db) (fresh_worker-IsSafe now db)).covered

text_sym : (a b : String) → (a =s b) ≡ true → (b =s a) ≡ true
text_sym a b h = (eq_iff b a).1 (sym ((eq_iff a b).0 h))

finish-is_covered :
    (now : ℕ) (task : ActiveTurn) (tasks : List ActiveTurn) (row : TurnRow)
    → is_covered (task ∷ tasks) row ≡ true
    → is_covered tasks (
        if is_open_turn task.conversation_id task.turn_id row
        then close_turn interrupted (some stop_message) now row
        else row)
      ≡ true
finish-is_covered now task tasks row p =
    elim (Bool-cases (is_open_turn task.conversation_id task.turn_id row)) [
      | inl e ↦ rw e refl
      | inr e ↦ rw e (elim (Bool-cases (covers row task)) [
        | inr k ↦ ground arith
        | inl k ↦
            let same_turn = text_sym task.turn_id row.id (ground arith) in
            let same_conversation =
              text_sym task.conversation_id row.conversation_id (ground arith) in
            ground arith
      ])
    ]

-- The tasks that are left cover the rows that `settle` leaves running.
finish-IsCovered :
    (now : ℕ) (task : ActiveTurn) (tasks : List ActiveTurn) (rows : List TurnRow)
    → IsCovered (task ∷ tasks) rows
    → IsCovered tasks (
        map
          (λ row.
            if is_open_turn task.conversation_id task.turn_id row
            then close_turn interrupted (some stop_message) now row
            else row)
          rows)
finish-IsCovered now task tasks [] v = tt
finish-IsCovered now task tasks (row ∷ rows) (p, v) =
    (finish-is_covered now task tasks row p, finish-IsCovered now task tasks rows v)

settled-IsCovered :
    (task : ActiveTurn) (tasks : List ActiveTurn) (rows : List TurnRow)
    → task.settled ≡ true
    → IsCovered (task ∷ tasks) rows
    → IsCovered tasks rows
settled-IsCovered task tasks [] h v = tt
settled-IsCovered task tasks (row ∷ rows) h (p, v) =
    (ground arith, settled-IsCovered task tasks rows h v)

interrupt_one-IsCovered :
    (now : ℕ) (task : ActiveTurn) (tasks : List ActiveTurn) (worker : Worker)
    → IsCovered (task ∷ tasks) worker.db.turns
    → IsCovered tasks (settle interrupted (some stop_message) now task worker).db.turns
unfolding settle
interrupt_one-IsCovered now task tasks worker v = elim (Bool-cases task.settled) [
  | inl h ↦ rw h (settled-IsCovered task tasks worker.db.turns h v)
  | inr h ↦ rw h (
      rw
        (finish_turn-turns task.conversation_id task.turn_id interrupted (some stop_message) now
          worker.db)
        (finish-IsCovered now task tasks worker.db.turns v))
]

none-running :
    (id : String) (rows : List TurnRow) → IsCovered [] rows → any (runs_in id) rows ≡ false
none-running id [] v = refl
none-running id (row ∷ rows) (p, v) = ground (arith, none-running id rows v)

interrupt_tasks-none_running :
    (now : ℕ) (id : String) (tasks : List ActiveTurn) (worker : Worker)
    → IsCovered tasks worker.db.turns
    → any (runs_in id) (interrupt_tasks now tasks worker).db.turns ≡ false
unfolding interrupt_tasks
interrupt_tasks-none_running now id [] worker v = none-running id worker.db.turns v
interrupt_tasks-none_running now id (task ∷ tasks) worker v =
    interrupt_tasks-none_running now id tasks _
      (interrupt_one-IsCovered now task tasks (update_task abort_task task.turn_id worker) v)

-- When a worker that is neither stopping nor closed is told to stop, whatever happened since its
-- start, its store has no running turn left, in any conversation.
pub shutdown-none_running :
    (runtime : Runtime) (trash_of : String → String → String) (start now : ℕ) (db : Db)
    (events : List Event) (id : String)
    → (run runtime trash_of (fresh_worker start db) events).stopping ≡ false
    → (run runtime trash_of (fresh_worker start db) events).closed ≡ false
    → has_running_turn id (shutdown now (run runtime trash_of (fresh_worker start db) events)).db
      ≡ false
unfolding shutdown has_running_turn
shutdown-none_running runtime trash_of start now db events id s c =
    let worker = run runtime trash_of (fresh_worker start db) events in
    elim (run-IsCovered runtime trash_of start db events) [
      | inl t ↦ absurd (ground arith)
      | inr v ↦
          if-keeps (λ w. any (runs_in id) w.db.turns ≡ false) worker.closed worker _
            (λ h. absurd (ground arith))
            (λ h.
              interrupt_tasks-none_running now id worker.active_turns
                (record worker { stopping = true }) v)
    ]
