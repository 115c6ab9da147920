-- ===== src/Conversations/Recovery.antt =====
-- `recoverPendingDeletes` of worker/src/store.ts after a deletion that a crash cuts off.
use mathlib.Core.List.{Memᴰ}
use mathlib.Core.List.Memᴰ
use voidstation_app.Prelude.{
  Bool-cases, List, Option, String, [], ap, arith, false, find, inl, inr, none, not, refl, some,
  subst, suc, sym, zero, ℕ, ◌++◌, ◌=s◌, ◌∙◌, ◌∷◌, ◌≡◌, ◌⊎◌,
}
use voidstation_app.Conversations.Tables.{
  ConversationRow, Db, DeletionRow, has_conversation, has_deletion, has_running_turn,
}
use voidstation_app.Conversations.Deletion.{
  FileName, Marked, World, delete_rows, delete_steps, erase_rows, has_file, mark_deletion, mark_row,
  marked, recover_one, recover_pending_deletes, recover_rows, remove_file, rename_transcript,
  same_file, transcript, trash,
}
use voidstation_app.Conversations.Erasure.{
  IsGone, any-filter, any-filter-none, any-map, delete_rows-HasNoRows, delete_rows-keeps,
  remark-HasNoRows,
}
use voidstation_app.Sqlite.{Outcome, close_transaction, done, threw, transaction}
use voidstation_app.Conversations.Turns.{interrupt_running_turns}
use voidstation_app.Conversations.Calls.{dies_deleting, on_db, restarts, step}

removed_file : (file : FileName) (world : World) → has_file file (remove_file file world) ≡ false
removed_file file world =
    any-filter-none (λ f. same_file f file) (λ f. not (same_file f file)) world.files
      (λ f h. ground arith)

remove_file-keeps :
    (file other : FileName) (world : World)
    → has_file file world ≡ false
    → has_file file (remove_file other world) ≡ false
remove_file-keeps file other world h =
    any-filter (λ f. same_file f file) (λ f. not (same_file f other)) world.files h

recover_one-IsGone : (row : DeletionRow) (world : World) → IsGone row (recover_one row world)
unfolding has_deletion delete_rows
recover_one-IsGone row world = record {
  rows =
      remark-HasNoRows row.conversation_id (delete_rows row.conversation_id world.db) _
        (delete_rows-HasNoRows row.conversation_id world.db);
  mark = any-filter-none _ _ world.db.deletions (λ r h. ground arith);
  transcript_file =
      removed_file (transcript row.transcript_path)
        (remove_file (trash row.trash_path) (erase_rows row.conversation_id world));
  trash_file =
      remove_file-keeps (trash row.trash_path) (transcript row.transcript_path)
        (remove_file (trash row.trash_path) (erase_rows row.conversation_id world))
        (removed_file (trash row.trash_path) (erase_rows row.conversation_id world));
}

recover_one-keeps :
    (row other : DeletionRow) (world : World)
    → IsGone row world
    → IsGone row (recover_one other world)
unfolding has_deletion delete_rows
recover_one-keeps row other world v =
    let keeps_file : (file : FileName)
        → has_file file world ≡ false
        → has_file file (recover_one other world) ≡ false =
      λ file h.
        remove_file-keeps file (transcript other.transcript_path)
          (remove_file (trash other.trash_path) (erase_rows other.conversation_id world))
          (remove_file-keeps file (trash other.trash_path) (erase_rows other.conversation_id world)
            h) in
    record {
      rows =
          remark-HasNoRows row.conversation_id (delete_rows other.conversation_id world.db) _
            (delete_rows-keeps row.conversation_id other.conversation_id world.db v.rows);
      mark = any-filter _ _ world.db.deletions v.mark;
      transcript_file = keeps_file (transcript row.transcript_path) v.transcript_file;
      trash_file = keeps_file (trash row.trash_path) v.trash_file;
    }

recover_rows-keeps :
    (row : DeletionRow) (rows : List DeletionRow) (world : World)
    → IsGone row world
    → IsGone row (recover_rows rows world)
unfolding recover_rows
recover_rows-keeps row [] world v = v
recover_rows-keeps row (other ∷ rows) world v =
    recover_rows-keeps row rows (recover_one other world) (recover_one-keeps row other world v)

recover_rows-IsGone :
    (row : DeletionRow) (rows : List DeletionRow) (world : World)
    → Memᴰ row rows
    → IsGone row (recover_rows rows world)
unfolding recover_rows
recover_rows-IsGone row [] world m = absurd (Memᴰ.not-nil m)
recover_rows-IsGone row (other ∷ rows) world m = elim (Memᴰ.cases_cons m) [
  | inl e ↦
      subst (λ x. IsGone row (recover_rows rows (recover_one x world))) e
        (recover_rows-keeps row rows (recover_one row world) (recover_one-IsGone row world))
  | inr d ↦ recover_rows-IsGone row rows _ d
]

interrupt-IsGone :
    (now : ℕ) (row : DeletionRow) (world : World)
    → IsGone row world
    → IsGone row (on_db (interrupt_running_turns now) world)
unfolding interrupt_running_turns has_conversation has_deletion
interrupt-IsGone now row world v = record {
  rows = record {
    conversations = v.rows.conversations;
    turns = any-map _ _ world.db.turns (λ turn. ground arith) ∙ v.rows.turns;
    messages = v.rows.messages;
    media_results = v.rows.media_results;
    tool_calls = v.rows.tool_calls;
    timeline_items = v.rows.timeline_items;
  };
  mark = v.mark;
  transcript_file = v.transcript_file;
  trash_file = v.trash_file;
}

-- Up to the last step the mark stands; after it everything is gone already.
abbrev IsPending : DeletionRow → World → Type 0
IsPending row world = Memᴰ row world.db.deletions ⊎ IsGone row world

rename-pending :
    (row : DeletionRow) (world : World)
    → Memᴰ row world.db.deletions
    → Memᴰ row (rename_transcript row world).db.deletions
rename-pending row world m = elim (Bool-cases (has_file (transcript row.transcript_path) world)) [
  | inl h ↦ rw h m
  | inr h ↦ rw h m
]

delete_steps-IsPending :
    (n : ℕ) (row : DeletionRow) (world : World)
    → Memᴰ row world.db.deletions
    → IsPending row (delete_steps n row world)
unfolding delete_steps delete_rows
delete_steps-IsPending n row world m =
    let r = rename-pending row world m in
    elim n as (λ k. IsPending row (delete_steps k row world)) [
      | zero ↦ inl m
      | suc zero ↦ inl r
      | suc (suc zero) ↦ inl r
      | suc (suc (suc zero)) ↦ inl r
      | suc (suc (suc (suc zero))) ↦ inl r
      | suc (suc (suc (suc (suc k)))) ↦ inr (recover_one-IsGone row (rename_transcript row world))
    ]

recover-IsGone :
    (row : DeletionRow) (world : World)
    → IsPending row world
    → IsGone row (recover_pending_deletes world)
unfolding recover_pending_deletes
recover-IsGone row world (inl m) = recover_rows-IsGone row world.db.deletions world m
recover-IsGone row world (inr v) = recover_rows-keeps row world.db.deletions world v

row_of : DeletionRow → Outcome Marked → DeletionRow
row_of row (done (marked r)) = r
row_of row _ = row

mark_row-marks :
    (trash_of : String → String → String) (id : String) (found : Option ConversationRow) (db : Db)
    (row : DeletionRow)
    → (mark_row trash_of id found db).0 ≡ done (marked row)
    → (row.conversation_id ≡ id)
      × (mark_row trash_of id found db
          ≡ (done (marked row), record db { deletions = db.deletions ++ row ∷ [] }))
unfolding mark_row
mark_row-marks trash_of id none db row e = ground arith
mark_row-marks trash_of id (some found) db row e = elim (Bool-cases (has_running_turn id db)) [
  | inl h ↦ absurd (ground arith)
  | inr h ↦ elim (Bool-cases (has_deletion id db)) [
    | inl k ↦ absurd (ground arith)
    | inr k ↦
        let new : DeletionRow = record {
          conversation_id = id;
          transcript_path = found.transcript_path;
          trash_path = trash_of id found.transcript_path;
        } in
        let same : new ≡ row = ground arith in
        (
          sym (ap (λ (r : DeletionRow). r.conversation_id) same),
          rw (h, k)
              (λ i.
                (done (marked (same i)), record db { deletions = db.deletions ++ same i ∷ [] })),
        )
  ]
]

close_transaction_done :
    (before : Db) (r : Outcome Marked × Db) (row : DeletionRow)
    → (close_transaction before r).0 ≡ done (marked row)
    → (r.0 ≡ done (marked row)) × (close_transaction before r ≡ r)
close_transaction_done before (done m, after) row e = (e, refl)
close_transaction_done before (threw, after) row e = absurd (ground arith)

-- A deletion that has marked a conversation and that a crash cuts off after any number `n` of its
-- further steps is finished by the next start: no row of the conversation is left in any table, the
-- mark is gone, and so are the transcript and its copy in the trash.
pub cut_off-IsGone :
    (trash_of : String → String → String) (n now : ℕ) (id : String) (world : World)
    (row : DeletionRow)
    → (mark_deletion trash_of id world.db).0 ≡ done (marked row)
    → (row.conversation_id ≡ id)
      × IsGone row (step trash_of (step trash_of world (dies_deleting n id)) (restarts now))
unfolding mark_deletion step transaction
cut_off-IsGone trash_of n now id world row e =
    let found = find (λ row. row.id =s id) world.db.conversations in
    let (e1, e2) = close_transaction_done world.db (mark_row trash_of id found world.db) row e in
    let (same, m) = mark_row-marks trash_of id found world.db row e1 in
    let marked_world : World = record {
      db = record world.db { deletions = world.db.deletions ++ row ∷ [] };
      files = world.files;
    } in
    (
      same,
      rw (e2, m)
          (interrupt-IsGone now row _ (
            recover-IsGone row _ (
              delete_steps-IsPending n row marked_world
                (Memᴰ.append_right world.db.deletions (Memᴰ.head refl))))),
    )
