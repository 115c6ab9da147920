-- ===== src/Conversations/Examples.antt =====
-- Runs of the conversation store of worker/src/store.ts.
use voidstation_app.Sqlite.{done, transaction}
use voidstation_app.Prelude.{List, String, [], codes, false, map, none, refl, some, ◌∷◌, ◌≡◌, ◌⊎◌}
use voidstation_app.Conversations.Tables.{
  Db, DeletionRow, complete, empty_db, failure, has_conversation, has_deletion, has_running_turn,
  max_position,
}
use voidstation_app.Conversations.Timeline.{append_timeline, insert_message, insert_message_row}
use voidstation_app.Conversations.Turns.{
  close_turn, create_conversation, fill_turn, finish_turn, new_turn, start_rows, start_turn,
  started, title_of,
}
use voidstation_app.Conversations.Evidence.{
  insert_media, reserve_tool_call, save_assistant_message, save_media_result,
}
use voidstation_app.Conversations.Deletion.{World, mark_deletion, mark_row, transcript}
use voidstation_app.Conversations.Calls.{
  Call, NewTurn, answers, creates, dies_deleting, empty_world, finishes, reserves, restarts, run,
  shows, starts, step,
}
use voidstation_app.Conversations.Erasure.{IsGone}
use voidstation_app.Conversations.Invariant.{IsConsistent}
use voidstation_app.Conversations.Runs.{run-empty_world-IsConsistent}
use voidstation_app.Conversations.Recovery.{cut_off-IsGone}
use voidstation_app.Conversations.Lifecycle.{
  finish_turn-finish_turn, restarts-none_running, start_answer, start_turn-start_answer,
}

abbrev trash_name : String → String → String
trash_name id path = id

abbrev first_turn : NewTurn
first_turn = record {
  conversation = "c";
  text = codes " Hello ";
  provider = "openrouter";
  model = "m";
  turn = "t";
  message_id = "u";
  now = 2;
}

abbrev answered : List Call
answered =
    creates "c" 1 "c.jsonl"
    ∷ starts first_turn
    ∷ starts first_turn
    ∷ reserves "c" "k"
    ∷ answers "c" "t" "a" (codes "Hi.") 3
    ∷ shows "c" "t" "p" "{}"
    ∷ finishes "c" "t" complete none 4
    ∷ []

abbrev answered_world : World
unfolding run step create_conversation start_turn transaction start_rows fill_turn insert_message
    insert_message_row append_timeline reserve_tool_call save_assistant_message save_media_result
    insert_media finish_turn has_conversation has_deletion has_running_turn max_position title_of
answered_world = run trash_name empty_world answered

answered-timeline :
    map (λ row. row.ref_id) answered_world.db.timeline_items ≡ "u" ∷ "k" ∷ "a" ∷ "p" ∷ []
unfolding answered_world
answered-timeline = refl

run-empty_world-IsConsistent_example :
    IsConsistent
      (run trash_name empty_world answered).db.turns
      (run trash_name empty_world answered).db.timeline_items
run-empty_world-IsConsistent_example = run-empty_world-IsConsistent trash_name answered

abbrev stored : World
stored = record {
  db = record empty_db {
    conversations =
        record { id = "c"; title = []; created_at = 1; updated_at = 1; transcript_path = "c.jsonl" }
        ∷ [];
    turns = close_turn complete none 3 (new_turn "t" "c" "openrouter" "m" 2) ∷ [];
  };
  files = transcript "c.jsonl" ∷ transcript "d.jsonl" ∷ [];
}

abbrev stored_mark : DeletionRow
stored_mark = record { conversation_id = "c"; transcript_path = "c.jsonl"; trash_path = "c" }

cut_off-IsGone_example :
    (stored_mark.conversation_id ≡ "c")
    × IsGone stored_mark
        (step trash_name (step trash_name stored (dies_deleting 1 "c")) (restarts 9))
unfolding mark_deletion mark_row transaction has_running_turn has_deletion
cut_off-IsGone_example = cut_off-IsGone trash_name 1 9 "c" stored stored_mark refl

start_turn-start_answer_example :
    ((start_turn "c" [] "openrouter" "m" "t2" "u2" 5 stored.db).0
      ≡ done (start_answer "c" (new_turn "t2" "c" "openrouter" "m" 5) stored.db))
    × ((start_answer "c" (new_turn "t2" "c" "openrouter" "m" 5) stored.db
          ≡ started (new_turn "t2" "c" "openrouter" "m" 5))
        ⊎ ((start_turn "c" [] "openrouter" "m" "t2" "u2" 5 stored.db).1 ≡ stored.db))
start_turn-start_answer_example =
    start_turn-start_answer "c" [] "openrouter" "m" "t2" "u2" 5 stored.db refl refl

abbrev running_db : Db
running_db = record stored.db { turns = new_turn "t" "c" "openrouter" "m" 2 ∷ [] }

finish_turn-finish_turn_example :
    finish_turn "c" "t" failure
      (some (codes "late"))
      7
      (finish_turn "c" "t" complete none 6 running_db)
    ≡ finish_turn "c" "t" complete none 6 running_db
finish_turn-finish_turn_example =
    finish_turn-finish_turn "c" "t" complete failure none (some (codes "late")) 6 7 running_db refl

restarts-none_running_example :
    has_running_turn "c" (step trash_name (record { db = running_db; files = [] }) (restarts 8)).db
    ≡ false
restarts-none_running_example =
    restarts-none_running trash_name 8 (record { db = running_db; files = [] }) "c"
