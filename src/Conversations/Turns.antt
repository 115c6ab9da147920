-- ===== src/Conversations/Turns.antt =====
-- Conversations and their turns: `createConversation`, `startTurn`, `finishTurn` and
-- `interruptRunningTurns` of worker/src/store.ts.
use voidstation_app.Sqlite.{done, threw, transaction, ◌>>◌}
use voidstation_app.Prelude.{
  Bool, List, Option, String, [], any, codes, if◌then◌else◌, map, none, not, some, take, trim, ℕ,
  ◌&&◌, ◌++◌, ◌=s◌, ◌∷◌,
}
use voidstation_app.Conversations.Tables.{
  ConversationRow, Db, Sql, TurnRow, TurnStatus, has_conversation, has_deletion, has_running_turn,
  interrupted, is_running, running, user,
}
use voidstation_app.Conversations.Timeline.{insert_message}

unfoldable pub create_conversation : String → ℕ → String → Sql (Unit {0})
create_conversation id now path db = if has_conversation id db then (threw, db) else (
  done tt,
  record db {
    conversations =
        db.conversations
        ++ record {
          id = id;
          title = codes "New conversation";
          created_at = now;
          updated_at = now;
          transcript_path = path;
        }
          ∷ [];
  },
)

-- `text.trim().slice(0, 80) || "New conversation"`
abbrev pub or_default : List ℕ → List ℕ
or_default [] = codes "New conversation"
or_default title = title

unfoldable pub title_of : List ℕ → List ℕ
title_of text = or_default (take 80 (trim text))

-- UPDATE conversations SET … WHERE id = ?
abbrev pub update_conversation : (ConversationRow → ConversationRow) → String → Db → Db
update_conversation f id db = record db {
  conversations = map (λ row. if row.id =s id then f row else row) db.conversations;
}

pub data Started : Type 0 where
  started : TurnRow → Started
  missing : Started
  busy : Started

abbrev pub new_turn : String → String → String → String → ℕ → TurnRow
new_turn id conversation provider model now = record {
  id = id;
  conversation_id = conversation;
  status = running;
  error = none;
  provider = provider;
  model = model;
  started_at = now;
  finished_at = none;
}

-- The INSERT of a running turn, with its primary key and one_running_turn_per_conversation.
abbrev pub may_start : String → String → Db → Bool
may_start id conversation db =
    not (any (λ row. row.id =s id) db.turns) && not (has_running_turn conversation db)

module _ (conversation : String) (text : List ℕ) (provider model turn message_id : String)
    (now : ℕ) where
  -- After the turn's INSERT.
  unfoldable pub fill_turn : Sql Started
  fill_turn = do
    insert_message conversation turn user text message_id now
    λ db. (
      done (started (new_turn turn conversation provider model now)),
      update_conversation (λ row. record row { title = title_of text; updated_at = now })
          conversation db,
    )

  -- A ROLLBACK with a result of its own: nothing has been written.
  unfoldable pub start_rows : Sql Started
  unfolding fill_turn
  start_rows db =
      if not (has_conversation conversation db)
      then (done missing, db)
      else if has_deletion conversation db
      then (done busy, db)
      else if not (may_start turn conversation db)
      then (done busy, db)
      else fill_turn
          (record db { turns = db.turns ++ new_turn turn conversation provider model now ∷ [] })

  unfoldable pub start_turn : Sql Started
  unfolding start_rows transaction
  start_turn = transaction start_rows

-- UPDATE turns SET status, error, finished_at WHERE …
abbrev pub close_turn : TurnStatus → Option (List ℕ) → ℕ → TurnRow → TurnRow
close_turn status error now row = record row {
  status = status;
  error = error;
  finished_at = some now;
}

abbrev pub is_open_turn : String → String → TurnRow → Bool
is_open_turn conversation turn row =
    row.id =s turn && row.conversation_id =s conversation && is_running row.status

-- `result.changes`, which is one at most by the primary key.
abbrev pub changes : String → String → Db → Bool
changes conversation turn db = any (is_open_turn conversation turn) db.turns

unfoldable pub finish_turn : String → String → TurnStatus → Option (List ℕ) → ℕ → Db → Db
finish_turn conversation turn status error now db =
    let closed = record db {
      turns =
          map
            (λ row.
              if is_open_turn conversation turn row then close_turn status error now row else row)
            db.turns;
    } in
    if changes conversation turn db
    then update_conversation (λ row. record row { updated_at = now }) conversation closed
    else closed

-- `interruptRunningTurns`, when the worker starts
unfoldable pub interrupt_running_turns : ℕ → Db → Db
interrupt_running_turns now db = record db {
  turns =
      map
        (λ row.
          if is_running row.status
          then close_turn interrupted
              (some (codes "The worker restarted before this reply finished.")) now row
          else row)
        db.turns;
}
