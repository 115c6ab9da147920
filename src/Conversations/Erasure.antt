-- ===== src/Conversations/Erasure.antt =====
-- A deletion of worker/src/store.ts that a crash cuts off is completed by the next start.
use voidstation_app.Prelude.{
  Bool, Bool-cases, List, Option-cases, String, [], any, arith, false, filter, inl, inr, map, not,
  refl, true, ◌=s◌, ◌∙◌, ◌∷◌, ◌≡◌,
}
use voidstation_app.Conversations.Tables.{
  Db, DeletionRow, MediaRow, MessageRow, ToolCallRow, TurnRow, has_conversation, has_deletion,
}
use voidstation_app.Conversations.Deletion.{
  World, clear_turn, delete_rows, goes_with, has_file, transcript, trash,
}
use voidstation_app.Conversations.Rules.{belongs}

module _ {ℓ} {A : Type ℓ} (p : A → Bool) where
  pub any-filter : (q : A → Bool) (xs : List A) → any p xs ≡ false → any p (filter q xs) ≡ false
  any-filter q [] h = refl
  any-filter q (x ∷ xs) h = ground (arith, any-filter q xs)

  pub any-filter-none :
      (q : A → Bool) (xs : List A)
      → ((x : A) → q x ≡ true → p x ≡ false)
      → any p (filter q xs) ≡ false
  any-filter-none q [] h = refl
  any-filter-none q (x ∷ xs) h = ground (arith, h x, any-filter-none q xs h)

  pub any-map : (f : A → A) (xs : List A) → ((x : A) → p (f x) ≡ p x) → any p (map f xs) ≡ any p xs
  any-map f [] h = refl
  any-map f (x ∷ xs) h = rw (h x, any-map f xs h) refl

-- The rows of a conversation are gone from every table, and so is the row that marks its deletion.
pub record HasNoRows (id : String) (db : Db) : Type 0 where
  pub conversations : has_conversation id db ≡ false
  pub turns : any (λ (row : TurnRow). row.conversation_id =s id) db.turns ≡ false
  pub messages : any (λ (row : MessageRow). row.conversation_id =s id) db.messages ≡ false
  pub media_results : any (λ (row : MediaRow). row.conversation_id =s id) db.media_results ≡ false
  pub tool_calls : any (λ (row : ToolCallRow). row.conversation_id =s id) db.tool_calls ≡ false
  pub timeline_items : any (belongs id) db.timeline_items ≡ false

pub record IsGone (row : DeletionRow) (world : World) : Type 0 where
  pub rows : HasNoRows row.conversation_id world.db
  pub mark : has_deletion row.conversation_id world.db ≡ false
  pub transcript_file : has_file (transcript row.transcript_path) world ≡ false
  pub trash_file : has_file (trash row.trash_path) world ≡ false

clear_turn-same :
    (id : String) (db : Db) (other : String) (row : MessageRow)
    → ((clear_turn id db row).conversation_id =s other) ≡ (row.conversation_id =s other)
clear_turn-same id db other row = elim (Option-cases row.turn_id) [
  | inl h ↦ rw h refl
  | inr (turn, h) ↦
      rw h (elim (Bool-cases (goes_with id db turn)) [ inl k ↦ rw k refl | inr k ↦ rw k refl ])
]

pub delete_rows-HasNoRows : (id : String) (db : Db) → HasNoRows id (delete_rows id db)
unfolding delete_rows has_conversation
delete_rows-HasNoRows id db = record {
  conversations = any-filter-none _ _ db.conversations (λ row h. ground arith);
  turns = any-filter-none _ _ db.turns (λ row h. ground arith);
  messages =
      any-map (λ row. row.conversation_id =s id) (clear_turn id db)
        (filter (λ row. not (row.conversation_id =s id)) db.messages) (clear_turn-same id db id)
      ∙ any-filter-none _ _ db.messages (λ row h. ground arith);
  media_results = any-filter-none _ _ db.media_results (λ row h. ground arith);
  tool_calls = any-filter-none _ _ db.tool_calls (λ row h. ground arith);
  timeline_items = any-filter-none _ _ db.timeline_items (λ row h. ground arith);
}

pub delete_rows-keeps :
    (id other : String) (db : Db) → HasNoRows id db → HasNoRows id (delete_rows other db)
unfolding delete_rows has_conversation
delete_rows-keeps id other db v = record {
  conversations = any-filter _ _ db.conversations v.conversations;
  turns = any-filter _ _ db.turns v.turns;
  messages =
      any-map (λ row. row.conversation_id =s id) (clear_turn other db)
        (filter (λ row. not (row.conversation_id =s other)) db.messages)
        (clear_turn-same other db id)
      ∙ any-filter _ _ db.messages v.messages;
  media_results = any-filter _ _ db.media_results v.media_results;
  tool_calls = any-filter _ _ db.tool_calls v.tool_calls;
  timeline_items = any-filter _ _ db.timeline_items v.timeline_items;
}

pub remark-HasNoRows :
    (id : String) (db : Db) (deletions : List DeletionRow)
    → HasNoRows id db
    → HasNoRows id (record db { deletions = deletions })
unfolding has_conversation
remark-HasNoRows id db deletions v = record {
  conversations = v.conversations;
  turns = v.turns;
  messages = v.messages;
  media_results = v.media_results;
  tool_calls = v.tool_calls;
  timeline_items = v.timeline_items;
}
