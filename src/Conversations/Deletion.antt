-- ===== src/Conversations/Deletion.antt =====
-- `deleteConversation` and `recoverPendingDeletes` of worker/src/store.ts, step by step, over the
-- tables and the files. Paths are taken apart by the platform: `trash_of` names the trash file of a
-- transcript, and each of the two directories has its own names.
use voidstation_app.Sqlite.{Outcome, done, threw, transaction}
use voidstation_app.Prelude.{
  Bool, List, Option, String, [], any, false, filter, find, if◌then◌else◌, map, none, not, some,
  suc, zero, ℕ, ◌&&◌, ◌++◌, ◌=s◌, ◌∷◌,
}
use voidstation_app.Conversations.Tables.{
  ConversationRow, Db, DeletionRow, MessageRow, Sql, has_deletion, has_running_turn,
}

pub data FileName : Type 0 where
  transcript trash : String → FileName

abbrev pub same_file : FileName → FileName → Bool
same_file (transcript p) (transcript q) = p =s q
same_file (trash p) (trash q) = p =s q
same_file _ _ = false

pub record World : Type 0 where
  pub db : Db
  pub files : List FileName

abbrev pub has_file : FileName → World → Bool
has_file file world = any (λ f. same_file f file) world.files

pub data Marked : Type 0 where
  marked : DeletionRow → Marked
  not_there : Marked
  replying : Marked

-- INSERT INTO deletions, whose primary key is the conversation.
abbrev pub insert_deletion : DeletionRow → Sql Marked
insert_deletion row db =
    if has_deletion row.conversation_id db
    then (threw, db)
    else (done (marked row), record db { deletions = db.deletions ++ row ∷ [] })

unfoldable pub mark_row : (String → String → String) → String → Option ConversationRow → Sql Marked
mark_row trash_of id none db = (done not_there, db)
mark_row trash_of id (some row) db =
    if has_running_turn id db
    then (done replying, db)
    else insert_deletion
        (record {
          conversation_id = id;
          transcript_path = row.transcript_path;
          trash_path = trash_of id row.transcript_path;
        })
        db

-- The first transaction of `deleteConversation`.
unfoldable pub mark_deletion : (String → String → String) → String → Sql Marked
unfolding mark_row transaction
mark_deletion trash_of id =
    transaction (λ db. mark_row trash_of id (find (λ row. row.id =s id) db.conversations) db)

-- The turns that DELETE FROM conversations takes with it.
abbrev pub goes_with : String → Db → String → Bool
goes_with id db turn = any (λ row. row.id =s turn && row.conversation_id =s id) db.turns

-- ON DELETE SET NULL
abbrev pub clear_turn : String → Db → MessageRow → MessageRow
clear_turn id db row = elim row.turn_id [
  | none ↦ row
  | some turn ↦ (if goes_with id db turn then record row { turn_id = none } else row)
]

-- DELETE FROM conversations WHERE id = ?, with its ON DELETE clauses
unfoldable pub delete_rows : String → Db → Db
delete_rows id db = record db {
  conversations = filter (λ row. not (row.id =s id)) db.conversations;
  turns = filter (λ row. not (row.conversation_id =s id)) db.turns;
  messages = map (clear_turn id db) (filter (λ row. not (row.conversation_id =s id)) db.messages);
  media_results =
      filter (λ row. not (row.conversation_id =s id) && not (goes_with id db row.turn_id))
        db.media_results;
  tool_calls =
      filter (λ row. not (row.conversation_id =s id) && not (goes_with id db row.turn_id))
        db.tool_calls;
  timeline_items = filter (λ row. not (row.conversation_id =s id)) db.timeline_items;
}

-- rmSync(…, { force: true })
abbrev pub remove_file : FileName → World → World
remove_file file world = record world { files = filter (λ f. not (same_file f file)) world.files }

-- DELETE FROM deletions WHERE conversation_id = ?
abbrev pub unmark : String → World → World
unmark id world = record world {
  db = record world.db {
    deletions = filter (λ row. not (row.conversation_id =s id)) world.db.deletions;
  };
}

abbrev pub erase_rows : String → World → World
erase_rows id world = record world { db = delete_rows id world.db }

-- renameSync: a not_there transcript (ENOENT) is passed over.
abbrev pub rename_transcript : DeletionRow → World → World
rename_transcript row world =
    if has_file (transcript row.transcript_path) world
    then record world {
      files =
          filter (λ f. not (same_file f (transcript row.transcript_path))) world.files
          ++ trash row.trash_path ∷ [];
    }
    else world

-- What `deleteConversation` does after its first transaction, up to a crash after `n` of its steps.
unfoldable pub delete_steps : ℕ → DeletionRow → World → World
delete_steps zero row world = world
delete_steps (suc zero) row world = rename_transcript row world
delete_steps (suc (suc zero)) row world =
    erase_rows row.conversation_id (rename_transcript row world)
delete_steps (suc (suc (suc zero))) row world =
    remove_file (trash row.trash_path)
      (erase_rows row.conversation_id (rename_transcript row world))
delete_steps (suc (suc (suc (suc zero)))) row world = remove_file (transcript row.transcript_path) (
    remove_file (trash row.trash_path)
      (erase_rows row.conversation_id (rename_transcript row world)))
delete_steps _ row world = unmark row.conversation_id (
    remove_file (transcript row.transcript_path) (
      remove_file (trash row.trash_path)
        (erase_rows row.conversation_id (rename_transcript row world))))

pub data Deleted : Type 0 where
  deleted not_found still_running failed : Deleted

-- `deleteConversation`: `renames` says whether renameSync works; another failure than ENOENT takes
-- the mark back.
unfoldable pub finish_deletion : Bool → World → Marked → Deleted × World
finish_deletion renames world not_there = (not_found, world)
finish_deletion renames world replying = (still_running, world)
finish_deletion renames world (marked row) =
    if renames
    then (deleted, delete_steps 5 row world)
    else (failed, unmark row.conversation_id world)

unfoldable pub after_mark : Bool → List FileName → Outcome Marked × Db → Deleted × World
after_mark renames files (threw, db) = (failed, record { db = db; files = files })
after_mark renames files (done m, db) =
    finish_deletion renames (record { db = db; files = files }) m

unfoldable pub delete_conversation :
    (String → String → String) → Bool → String → World → Deleted × World
unfolding after_mark finish_deletion
delete_conversation trash_of renames id world =
    after_mark renames world.files (mark_deletion trash_of id world.db)

-- One round of `recoverPendingDeletes`
abbrev pub recover_one : DeletionRow → World → World
recover_one row world = unmark row.conversation_id (
    remove_file (transcript row.transcript_path)
      (remove_file (trash row.trash_path) (erase_rows row.conversation_id world)))

unfoldable pub recover_rows : List DeletionRow → World → World
recover_rows [] world = world
recover_rows (row ∷ rows) world = recover_rows rows (recover_one row world)

-- `recoverPendingDeletes`, when the worker starts
unfoldable pub recover_pending_deletes : World → World
unfolding recover_rows
recover_pending_deletes world = recover_rows world.db.deletions world
