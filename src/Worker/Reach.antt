-- ===== src/Worker/Reach.antt =====
-- Every event of worker/src/server.ts keeps the guard of the running turns.
use voidstation_app.Sqlite.{Outcome, done, threw, transaction_keeps}
use voidstation_app.Prelude.{
  All-filter, Bool, Bool-cases, List, Option, Option-cases, String, ap, arith, eq_iff, false,
  filter, find, inl, inr, leb, length, none, not, refl, some, subst, sym, true, ℕ, ◌&&◌, ◌=s◌, ◌≡◌,
  ◌⊎◌,
}
use voidstation_app.Conversations.Tables.{ConversationRow, Db, DeletionRow, TurnRow}
use voidstation_app.Conversations.Settings.{Provider, provider_name, set_assistant_settings}
use voidstation_app.Conversations.Deletion.{
  FileName, Marked, World, after_mark, delete_conversation, delete_rows, delete_steps,
  finish_deletion, has_file, mark_deletion, mark_row, marked, not_there, rename_transcript,
  replying, transcript,
}
use voidstation_app.Worker.Tasks.{
  ActiveTurn, Runtime, Worker, find_task, gate_of, has_active_turn, has_turn_id,
}
use voidstation_app.Worker.Submission.{
  begin_submit, continue_submit, delete_by_worker, is_closed_gate, past_gate,
}
use voidstation_app.Worker.Session.{on_found, on_task}
use voidstation_app.Worker.Events.{
  Event, TurnEvent, begins_submit, close_store, closes, continues_submit, creates, creates_session,
  deletes, ends_message, ends_prompt, ends_tool, runs, saves_media, selects, starts_tool, step,
  stops, throws, times_out, turn_step, update_settings, updates_message,
}
use voidstation_app.Worker.Coverage.{IsCovered, IsGuarded, is_covered}
use voidstation_app.Worker.Guard.{IsSafe, find-has, put_gate-keeps, set_gate-keeps}
use voidstation_app.Worker.TurnRuns.{
  if-keeps, prompt_ended-IsSafe, session_created-IsSafe, turn_threw-IsSafe,
}
use voidstation_app.Worker.Lives.{
  message_end-IsSafe, message_update-IsSafe, same_turns-IsSafe, save_media-IsSafe, shutdown-IsSafe,
  timed_out-IsSafe, tool_execution_end-IsSafe, tool_execution_start-IsSafe,
}
use voidstation_app.Worker.Starts.{start_turn-Cases}
use voidstation_app.Worker.Accepted.{after_start-IsSafe}
use voidstation_app.Conversations.Turns.{create_conversation}
use voidstation_app.Worker.Writes.{create_conversation-turns}

-- A step that leaves the turns or drops some of them.
abbrev IsFewer : List TurnRow → List TurnRow → Type 0
IsFewer before after = (after ≡ before) ⊎ ((p : TurnRow → Bool) × (after ≡ filter p before))

mark_row-turns :
    (trash_of : String → String → String) (id : String) (row : Option ConversationRow) (db : Db)
    → (mark_row trash_of id row db).1.turns ≡ db.turns
unfolding mark_row
mark_row-turns trash_of id none db = refl
mark_row-turns trash_of id (some row) db = ground arith

mark_deletion-turns :
    (trash_of : String → String → String) (id : String) (db : Db)
    → (mark_deletion trash_of id db).1.turns ≡ db.turns
unfolding mark_deletion
mark_deletion-turns trash_of id db =
    transaction_keeps (λ (d : Db). d.turns ≡ db.turns)
      (λ (d : Db). mark_row trash_of id (find (λ row. row.id =s id) d.conversations) d) db refl
      (mark_row-turns trash_of id (find (λ row. row.id =s id) db.conversations) db)

rename-turns :
    (row : DeletionRow) (world : World) → (rename_transcript row world).db.turns ≡ world.db.turns
rename-turns row world = elim (Bool-cases (has_file (transcript row.transcript_path) world)) [
  | inl h ↦ rw h refl
  | inr h ↦ rw h refl
]

after_mark-IsFewer :
    (renames : Bool) (files : List FileName) (r : Outcome Marked × Db)
    → IsFewer r.1.turns (after_mark renames files r).1.db.turns
unfolding after_mark finish_deletion delete_steps delete_rows
after_mark-IsFewer renames files (threw, db) = inl refl
after_mark-IsFewer renames files (done not_there, db) = inl refl
after_mark-IsFewer renames files (done replying, db) = inl refl
after_mark-IsFewer false files (done (marked row), db) = inl refl
after_mark-IsFewer true files (done (marked row), db) = inr (
  λ turn. not (turn.conversation_id =s row.conversation_id),
  ap (filter (λ (turn : TurnRow). not (turn.conversation_id =s row.conversation_id)))
      (rename-turns row (record { db = db; files = files })),
)

fewer-IsSafe :
    (db : Db) (worker : Worker)
    → IsFewer worker.db.turns db.turns
    → IsSafe worker
    → IsSafe (record worker { db = db })
fewer-IsSafe db worker (inl e) v = same_turns-IsSafe db worker e v
fewer-IsSafe db worker (inr (p, e)) v = record {
  distinct = v.distinct;
  aborted = v.aborted;
  covered = elim v.covered [
    | inl s ↦ inl s
    | inr c ↦ inr (
        subst (λ rows. IsCovered worker.active_turns rows) (sym e)
          (All-filter (λ row. is_covered worker.active_turns row ≡ true) p worker.db.turns c))
  ];
}

delete-IsSafe :
    (trash_of : String → String → String) (renames : Bool) (files : List FileName) (id : String)
    (worker : Worker)
    → IsSafe worker
    → IsSafe (delete_by_worker trash_of renames files id worker).2
unfolding delete_by_worker delete_conversation
delete-IsSafe trash_of renames files id worker v = elim (Bool-cases (has_active_turn id worker)) [
  | inl h ↦ rw h v
  | inr h ↦ rw h (
      fewer-IsSafe (after_mark renames files (mark_deletion trash_of id worker.db)).1.db worker
        (subst
          (λ rows.
            IsFewer rows
              (after_mark renames files (mark_deletion trash_of id worker.db)).1.db.turns)
          (mark_deletion-turns trash_of id worker.db)
          (after_mark-IsFewer renames files (mark_deletion trash_of id worker.db)))
        v)
]

past_gate-IsSafe :
    (worker : Worker) (error : Option (List ℕ)) → IsSafe worker → IsSafe (past_gate worker error).1
past_gate-IsSafe worker (some error) v = v
past_gate-IsSafe worker none v = put_gate-keeps IsGuarded worker.provider none worker v

begin_submit-IsSafe :
    (conversation : String) (now : ℕ) (worker : Worker)
    → IsSafe worker
    → IsSafe (begin_submit conversation now worker).1
unfolding begin_submit
begin_submit-IsSafe conversation now worker v =
    elim (Bool-cases (has_active_turn conversation worker)) [
      | inl h ↦ rw h v
      | inr h ↦
          rw h (past_gate-IsSafe worker (is_closed_gate now (gate_of worker.provider worker)) v)
    ]

continue_submit-IsSafe :
    (runtime : Runtime) (conversation : String) (text : List ℕ) (provider : Provider)
    (model : String) (auth : Bool) (turn id : String) (now : ℕ) (worker : Worker)
    → IsSafe worker
    → IsSafe (continue_submit runtime conversation text provider model auth turn id now worker).1
unfolding continue_submit
continue_submit-IsSafe runtime conversation text provider model false turn id now worker v =
    set_gate-keeps IsGuarded runtime now provider _ worker v
continue_submit-IsSafe runtime conversation text provider model true turn id now worker v =
    elim (Bool-cases (runtime.has_model provider model)) [
      | inr h ↦ rw h v
      | inl h ↦ rw h (
          after_start-IsSafe conversation turn provider model now worker _
            (start_turn-Cases conversation text (provider_name provider) model turn id now
              worker.db)
            v)
    ]

turn_step-IsSafe :
    (runtime : Runtime) (event : TurnEvent) (task : ActiveTurn) (worker : Worker)
    → find_task task.turn_id worker ≡ some task
    → IsSafe worker
    → IsSafe (turn_step runtime event task worker)
unfolding turn_step
turn_step-IsSafe runtime (updates_message id delta) task worker f v =
    message_update-IsSafe task worker v id delta
turn_step-IsSafe runtime (ends_message id text now) task worker f v =
    message_end-IsSafe task worker v id text now
turn_step-IsSafe runtime (starts_tool call_id id parameters) task worker f v =
    tool_execution_start-IsSafe task worker v call_id id parameters
turn_step-IsSafe runtime (ends_tool call_id id name result status) task worker f v =
    tool_execution_end-IsSafe task worker v call_id id name result status
turn_step-IsSafe runtime (saves_media id result) task worker f v =
    save_media-IsSafe task worker v id result
turn_step-IsSafe runtime creates_session task worker f v =
    session_created-IsSafe runtime 0 task worker f v
turn_step-IsSafe runtime (ends_prompt now error) task worker f v =
    prompt_ended-IsSafe runtime now task worker f v error
turn_step-IsSafe runtime (throws now error) task worker f v =
    turn_threw-IsSafe runtime now task worker f v error
turn_step-IsSafe runtime (times_out now) task worker f v =
    timed_out-IsSafe runtime now task worker f v

on_task-IsSafe :
    (runtime : Runtime) (event : TurnEvent) (turn : String) (worker : Worker)
    → IsSafe worker
    → IsSafe (on_task (turn_step runtime event) turn worker)
on_task-IsSafe runtime event turn worker v = elim (Option-cases (find_task turn worker)) [
  | inl e ↦ subst (λ o. IsSafe (on_found (turn_step runtime event) o worker)) (sym e) v
  | inr (task, e) ↦
      let same : task.turn_id ≡ turn =
        (eq_iff task.turn_id turn).0 (find-has (has_turn_id turn) worker.active_turns task e) in
      subst (λ o. IsSafe (on_found (turn_step runtime event) o worker)) (sym e)
        (turn_step-IsSafe runtime event task worker
          (subst (λ t. find_task t worker ≡ some task) (sym same) e) v)
]

pub step-IsSafe :
    (runtime : Runtime) (trash_of : String → String → String) (worker : Worker) (event : Event)
    → IsSafe worker
    → IsSafe (step runtime trash_of worker event)
unfolding step update_settings set_assistant_settings close_store
step-IsSafe runtime trash_of worker (creates id now path) v =
    same_turns-IsSafe (create_conversation id now path worker.db).1 worker
      (create_conversation-turns id now path worker.db) v
step-IsSafe runtime trash_of worker (begins_submit conversation now) v =
    begin_submit-IsSafe conversation now worker v
step-IsSafe runtime trash_of worker
      (continues_submit conversation text provider model auth turn id now) v =
    continue_submit-IsSafe runtime conversation text provider model auth turn id now worker v
step-IsSafe runtime trash_of worker (deletes renames files conversation) v =
    delete-IsSafe trash_of renames files conversation worker v
step-IsSafe runtime trash_of worker (selects provider model) v =
    if-keeps IsSafe (runtime.has_model provider model) _ worker (λ h. v) (λ h. v)
step-IsSafe runtime trash_of worker (runs turn event) v = on_task-IsSafe runtime event turn worker v
step-IsSafe runtime trash_of worker (stops now) v = shutdown-IsSafe now worker v
step-IsSafe runtime trash_of worker closes v =
    if-keeps IsSafe (worker.stopping && leb (length worker.active_turns) 0) _ worker (λ h. v)
      (λ h. v)
