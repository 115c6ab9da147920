-- ===== src/Conversations/Runs.antt =====
-- Every run of the calls of worker/src/store.ts keeps the invariant of the conversation store.
use voidstation_app.Prelude.{
  Bool, Bool-cases, List, Option, String, [], arith, codes, false, find, if◌then◌else◌, inl, inr,
  map, none, not, some, suc, true, zero, ℕ, ◌=s◌, ◌∷◌,
}
use voidstation_app.Conversations.Tables.{
  ConversationRow, Db, DeletionRow, TurnRow, TurnStatus, interrupted, is_running, runs_in,
  timeline_of, tool_call,
}
use voidstation_app.Conversations.Turns.{
  changes, close_turn, finish_turn, interrupt_running_turns, is_open_turn,
}
use voidstation_app.Conversations.Deletion.{
  FileName, Marked, World, after_mark, delete_conversation, delete_rows, delete_steps,
  finish_deletion, has_file, mark_deletion, mark_row, marked, not_there, recover_one,
  recover_pending_deletes, recover_rows, rename_transcript, replying, transcript,
}
use voidstation_app.Conversations.Rules.{
  belongs, filter-IsTimeline, filter_comm, length-filter-filter, length-filter-map,
}
use voidstation_app.Conversations.Invariant.{
  IsConsistent, IsValid, append_timeline-IsValid, create_conversation-IsValid, empty_db-IsValid,
  save_assistant_message-IsValid, save_media_result-IsValid, save_tool_call-IsValid,
  start_turn-IsValid,
}
use voidstation_app.Sqlite.{Outcome, done, threw, transaction_keeps}
use voidstation_app.Conversations.Evidence.{reserve_tool_call}
use voidstation_app.Conversations.Settings.{set_assistant_settings}
use voidstation_app.Conversations.Calls.{
  Call, answers, chooses, creates, cut_off, deletes, dies_deleting, empty_world, finishes, records,
  reserves, restarts, run, shows, starts, step,
}

finish_turn-IsValid :
    (conversation turn : String) (status : TurnStatus) (error : Option (List ℕ)) (now : ℕ) (db : Db)
    → IsValid db
    → IsValid (finish_turn conversation turn status error now db)
unfolding finish_turn
finish_turn-IsValid conversation turn status error now db v =
    let close : TurnRow → TurnRow =
      λ row. if is_open_turn conversation turn row then close_turn status error now row else row in
    let closed : IsConsistent (map close db.turns) db.timeline_items = record {
      one_running = λ c. omega (
        arith,
        length-filter-map (runs_in c) close db.turns (λ row h. ground arith),
        v.one_running c,
      );
      timelines = v.timelines;
    } in
    elim (Bool-cases (changes conversation turn db)) [ inl h ↦ rw h closed | inr h ↦ rw h closed ]

interrupt-IsValid : (now : ℕ) (db : Db) → IsValid db → IsValid (interrupt_running_turns now db)
unfolding interrupt_running_turns
interrupt-IsValid now db v =
    let close : TurnRow → TurnRow = λ row.
      if is_running row.status
      then close_turn interrupted (some (codes "The worker restarted before this reply finished."))
          now row
      else row in
    record {
      one_running = λ c. omega (
        arith,
        length-filter-map (runs_in c) close db.turns (λ row h. ground arith),
        v.one_running c,
      );
      timelines = v.timelines;
    }

delete_rows-IsValid : (id : String) (db : Db) → IsValid db → IsValid (delete_rows id db)
unfolding delete_rows
delete_rows-IsValid id db v = record {
  one_running = λ c. omega (
    arith,
    length-filter-filter (runs_in c) (λ row. not (row.conversation_id =s id)) db.turns,
    v.one_running c,
  );
  timelines = λ c.
      rw (filter_comm (belongs c) (λ row. not (row.conversation_id =s id)) db.timeline_items) (
        filter-IsTimeline (λ row. not (row.conversation_id =s id)) (timeline_of c db)
          (v.timelines c));
}

rename-IsValid :
    (row : DeletionRow) (world : World)
    → IsValid world.db
    → IsValid (rename_transcript row world).db
rename-IsValid row world v = elim (Bool-cases (has_file (transcript row.transcript_path) world)) [
  | inl h ↦ rw h v
  | inr h ↦ rw h v
]

delete_steps-IsValid :
    (n : ℕ) (row : DeletionRow) (world : World)
    → IsValid world.db
    → IsValid (delete_steps n row world).db
unfolding delete_steps
delete_steps-IsValid n row world v =
    let w = rename-IsValid row world v in
    let d = delete_rows-IsValid row.conversation_id (rename_transcript row world).db w in
    elim n as (λ k. IsValid (delete_steps k row world).db) [
      | zero ↦ v
      | suc zero ↦ w
      | suc (suc zero) ↦ d
      | suc (suc (suc zero)) ↦ d
      | suc (suc (suc (suc zero))) ↦ d
      | suc (suc (suc (suc (suc k)))) ↦ d
    ]

mark_row-IsValid :
    (trash_of : String → String → String) (id : String) (row : Option ConversationRow) (db : Db)
    → IsValid db
    → IsValid (mark_row trash_of id row db).1
unfolding mark_row
mark_row-IsValid trash_of id none db v = v
mark_row-IsValid trash_of id (some row) db v = ground arith

mark_deletion-IsValid :
    (trash_of : String → String → String) (id : String) (db : Db)
    → IsValid db
    → IsValid (mark_deletion trash_of id db).1
unfolding mark_deletion mark_row
mark_deletion-IsValid trash_of id db v =
    transaction_keeps IsValid
      (λ (db : Db). mark_row trash_of id (find (λ row. row.id =s id) db.conversations) db) db v
      (mark_row-IsValid trash_of id (find (λ row. row.id =s id) db.conversations) db v)

cut_off-IsValid :
    (n : ℕ) (files : List FileName) (r : Outcome Marked × Db)
    → IsValid r.1
    → IsValid (cut_off n files r).db
cut_off-IsValid n files (threw, db) v = v
cut_off-IsValid n files (done not_there, db) v = v
cut_off-IsValid n files (done replying, db) v = v
cut_off-IsValid n files (done (marked row), db) v = delete_steps-IsValid n row _ v

after_mark-IsValid :
    (renames : Bool) (files : List FileName) (r : Outcome Marked × Db)
    → IsValid r.1
    → IsValid (after_mark renames files r).1.db
unfolding after_mark finish_deletion
after_mark-IsValid renames files (threw, db) v = v
after_mark-IsValid renames files (done not_there, db) v = v
after_mark-IsValid renames files (done replying, db) v = v
after_mark-IsValid true files (done (marked row), db) v = delete_steps-IsValid 5 row _ v
after_mark-IsValid false files (done (marked row), db) v = v

recover_rows-IsValid :
    (rows : List DeletionRow) (world : World)
    → IsValid world.db
    → IsValid (recover_rows rows world).db
unfolding recover_rows
recover_rows-IsValid [] world v = v
recover_rows-IsValid (row ∷ rows) world v =
    recover_rows-IsValid rows (recover_one row world)
      (delete_rows-IsValid row.conversation_id world.db v)

step-IsValid :
    (trash_of : String → String → String) (world : World) (c : Call)
    → IsValid world.db
    → IsValid (step trash_of world c).db
unfolding step set_assistant_settings delete_conversation recover_pending_deletes reserve_tool_call
step-IsValid trash_of world (creates id now path) v =
    create_conversation-IsValid id now path world.db v
step-IsValid trash_of world (starts t) v =
    start_turn-IsValid t.conversation t.text t.provider t.model t.turn t.message_id t.now world.db v
step-IsValid trash_of world (finishes conversation turn status error now) v =
    finish_turn-IsValid conversation turn status error now world.db v
step-IsValid trash_of world (answers conversation turn id text now) v =
    save_assistant_message-IsValid conversation turn id text now world.db v
step-IsValid trash_of world (shows conversation turn id result) v =
    save_media_result-IsValid conversation turn id result world.db v
step-IsValid trash_of world (reserves conversation id) v =
    append_timeline-IsValid conversation tool_call id world.db v
step-IsValid trash_of world (records call) v = save_tool_call-IsValid call world.db v
step-IsValid trash_of world (chooses provider model) v = v
step-IsValid trash_of world (deletes renames id) v =
    after_mark-IsValid renames world.files _ (mark_deletion-IsValid trash_of id world.db v)
step-IsValid trash_of world (dies_deleting n id) v =
    cut_off-IsValid n world.files _ (mark_deletion-IsValid trash_of id world.db v)
step-IsValid trash_of world (restarts now) v =
    interrupt-IsValid now _ (recover_rows-IsValid world.db.deletions world v)

run-IsValid :
    (trash_of : String → String → String) (cs : List Call) (world : World)
    → IsValid world.db
    → IsValid (run trash_of world cs).db
unfolding run
run-IsValid trash_of [] world v = v
run-IsValid trash_of (c ∷ cs) world v =
    run-IsValid trash_of cs (step trash_of world c) (step-IsValid trash_of world c v)

-- From the empty store, whatever calls, cut-off deletions and restarts are made in whatever order,
-- each conversation has at most one running turn, and its timeline lists rising positions and no item
-- twice.
pub run-empty_world-IsConsistent :
    (trash_of : String → String → String) (cs : List Call)
    → IsConsistent
        (run trash_of empty_world cs).db.turns
        (run trash_of empty_world cs).db.timeline_items
run-empty_world-IsConsistent trash_of cs = run-IsValid trash_of cs empty_world empty_db-IsValid
