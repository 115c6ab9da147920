-- ===== src/Conversations/Invariant.antt =====
-- The invariant of the conversation store, kept by every call of worker/src/store.ts.
use voidstation_app.Prelude.{
  Bool-cases, List, String, [], any, append-nil, arith, eq_iff, eq_refl, false, filter,
  filter-append, inl, inr, length, refl, sym, true, ℕ, ◌++◌, ◌=s◌, ◌∷◌, ◌≡◌, ◌≤◌,
}
use voidstation_app.Conversations.Tables.{
  Db, ItemType, Role, TimelineRow, ToolCallRow, TurnRow, assistant, empty_db, has_conversation,
  has_deletion, has_running_turn, is_listed, media_result, message, runs_in, timeline_of,
  timeline_row, tool_call, user,
}
use voidstation_app.Conversations.Timeline.{append_timeline, insert_message, insert_message_row}
use voidstation_app.Conversations.Rules.{
  IsTimeline, any-false, append-IsTimeline, belongs, max_position-All,
}
use voidstation_app.Sqlite.{bind_keeps, done, transaction_keeps}
use voidstation_app.Conversations.Turns.{
  create_conversation, fill_turn, may_start, new_turn, start_rows, start_turn, started, title_of,
  update_conversation,
}
use voidstation_app.Conversations.Evidence.{
  insert_media, reserve_tool_call, save_assistant_message, save_media_result, save_tool_call,
  upsert_tool_call,
}

-- Of each conversation one turn runs at most, and its timeline is in order, without repetition.
pub record IsConsistent (turns : List TurnRow) (items : List TimelineRow) : Type 0 where
  pub one_running : (c : String) → length (filter (runs_in c) turns) ≤ 1
  pub timelines : (c : String) → IsTimeline (filter (belongs c) items)

abbrev pub IsValid : Db → Type 0
IsValid db = IsConsistent db.turns db.timeline_items

pub empty_db-IsValid : IsValid empty_db
empty_db-IsValid = record {
  one_running = λ c. omega arith;
  timelines = λ c. record { rising = tt; once = λ kind ref. omega arith };
}

-- The rows of another conversation are as they were.
append-belongs :
    (rows : List TimelineRow) (row : TimelineRow) (c : String)
    → (belongs c row ≡ false)
    → filter (belongs c) (rows ++ row ∷ []) ≡ filter (belongs c) rows
append-belongs rows row c h =
    rw (filter-append (belongs c) rows (row ∷ []), h, append-nil (filter (belongs c) rows)) refl

append-belongs_own :
    (rows : List TimelineRow) (row : TimelineRow)
    → filter (belongs row.conversation_id) (rows ++ row ∷ [])
      ≡ filter (belongs row.conversation_id) rows ++ row ∷ []
append-belongs_own rows row =
    rw (filter-append (belongs row.conversation_id) rows (row ∷ []), eq_refl row.conversation_id)
      refl

timeline_row-IsTimeline :
    (id : String) (kind : ItemType) (ref : String) (db : Db) (c : String)
    → IsTimeline (timeline_of id db)
    → IsTimeline (timeline_of c db)
    → is_listed id kind ref db ≡ false
    → IsTimeline (filter (belongs c) (db.timeline_items ++ timeline_row id kind ref db ∷ []))
timeline_row-IsTimeline id kind ref db c own v h =
    let row = timeline_row id kind ref db in
    elim (Bool-cases (belongs c row)) [
      | inr k ↦ rw (append-belongs db.timeline_items row c k) v
      | inl k ↦
          rw (sym ((eq_iff id c).0 k), append-belongs_own db.timeline_items row)
            (append-IsTimeline (timeline_of id db) row own h (max_position-All (timeline_of id db)))
    ]

pub append_timeline-IsValid :
    (id : String) (kind : ItemType) (ref : String) (db : Db)
    → IsValid db
    → IsValid (append_timeline id kind ref db).1
unfolding append_timeline
append_timeline-IsValid id kind ref db v = elim (Bool-cases (has_conversation id db)) [
  | inr h ↦ rw h v
  | inl h ↦ rw h (elim (Bool-cases (is_listed id kind ref db)) [
    | inl k ↦ rw k v
    | inr k ↦ rw k (record {
      one_running = v.one_running;
      timelines = λ c. timeline_row-IsTimeline id kind ref db c (v.timelines id) (v.timelines c) k;
    })
  ])
]

insert_message-IsValid :
    (conversation turn : String) (role : Role) (text : List ℕ) (id : String) (now : ℕ) (db : Db)
    → IsValid db
    → IsValid (insert_message conversation turn role text id now db).1
unfolding insert_message insert_message_row
insert_message-IsValid conversation turn role text id now db v =
    bind_keeps IsValid (insert_message_row conversation turn role text id now)
      (λ u. append_timeline conversation message id) db (ground arith)
      (λ u w. append_timeline-IsValid conversation message id _ w)

pub save_assistant_message-IsValid :
    (conversation turn id : String) (text : List ℕ) (now : ℕ) (db : Db)
    → IsValid db
    → IsValid (save_assistant_message conversation turn id text now db).1
unfolding save_assistant_message
save_assistant_message-IsValid conversation turn id [] now db v = v
save_assistant_message-IsValid conversation turn id (x ∷ text) now db v =
    insert_message-IsValid conversation turn assistant (x ∷ text) id now db v

pub save_media_result-IsValid :
    (conversation turn id result : String) (db : Db)
    → IsValid db
    → IsValid (save_media_result conversation turn id result db).1
unfolding save_media_result insert_media
save_media_result-IsValid conversation turn id result db v =
    bind_keeps IsValid (insert_media conversation turn id result)
      (λ u. append_timeline conversation media_result id) db (ground arith)
      (λ u w. append_timeline-IsValid conversation media_result id _ w)

pub save_tool_call-IsValid :
    (call : ToolCallRow) (db : Db) → IsValid db → IsValid (save_tool_call call db).1
unfolding save_tool_call upsert_tool_call reserve_tool_call
save_tool_call-IsValid call db v =
    bind_keeps IsValid (reserve_tool_call call.conversation_id call.id) (λ u. upsert_tool_call call)
      db (append_timeline-IsValid call.conversation_id tool_call call.id db v) (λ u w. ground arith)

pub create_conversation-IsValid :
    (id : String) (now : ℕ) (path : String) (db : Db)
    → IsValid db
    → IsValid (create_conversation id now path db).1
unfolding create_conversation
create_conversation-IsValid id now path db v = ground arith

-- A conversation without a running turn gets one, another conversation none.
new_turn-one :
    (t : TurnRow) (turns : List TurnRow) (c : String)
    → any (runs_in t.conversation_id) turns ≡ false
    → length (filter (runs_in c) turns) ≤ 1
    → length (filter (runs_in c) (turns ++ t ∷ [])) ≤ 1
new_turn-one t turns c h v = elim (Bool-cases (t.conversation_id =s c)) [
  | inl e ↦
      rw
        (
          sym ((eq_iff t.conversation_id c).0 e),
          filter-append (runs_in t.conversation_id) turns (t ∷ []),
          any-false (runs_in t.conversation_id) turns h,
        )
        (ground arith)
  | inr e ↦
      rw (filter-append (runs_in c) turns (t ∷ []), e, append-nil (filter (runs_in c) turns)) v
]

fill_turn-IsValid :
    (conversation : String) (text : List ℕ) (provider model turn id : String) (now : ℕ) (db : Db)
    → IsValid db
    → may_start turn conversation db ≡ true
    → IsValid
        (fill_turn conversation text provider model turn id now
          (record db { turns = db.turns ++ new_turn turn conversation provider model now ∷ [] })).1
unfolding fill_turn has_running_turn
fill_turn-IsValid conversation text provider model turn id now db v m =
    let t = new_turn turn conversation provider model now in
    let free : any (runs_in conversation) db.turns ≡ false = ground arith in
    let opened = record db { turns = db.turns ++ t ∷ [] } in
    bind_keeps IsValid (insert_message conversation turn user text id now)
      (λ u db. (
        done (started t),
        update_conversation (λ row. record row { title = title_of text; updated_at = now })
            conversation db,
      ))
      opened
      (insert_message-IsValid conversation turn user text id now opened (record {
        one_running = λ c. new_turn-one t db.turns c free (v.one_running c);
        timelines = v.timelines;
      }))
      (λ u w. w)

start_rows-IsValid :
    (conversation : String) (text : List ℕ) (provider model turn id : String) (now : ℕ) (db : Db)
    → IsValid db
    → IsValid (start_rows conversation text provider model turn id now db).1
unfolding start_rows fill_turn
start_rows-IsValid conversation text provider model turn id now db v =
    elim (Bool-cases (has_conversation conversation db)) [
      | inr h ↦ rw h v
      | inl h ↦ rw h (elim (Bool-cases (has_deletion conversation db)) [
        | inl k ↦ rw k v
        | inr k ↦ rw k (elim (Bool-cases (may_start turn conversation db)) [
          | inr m ↦ rw m v
          | inl m ↦ rw m (fill_turn-IsValid conversation text provider model turn id now db v m)
        ])
      ])
    ]

pub start_turn-IsValid :
    (conversation : String) (text : List ℕ) (provider model turn id : String) (now : ℕ) (db : Db)
    → IsValid db
    → IsValid (start_turn conversation text provider model turn id now db).1
unfolding start_turn
start_turn-IsValid conversation text provider model turn id now db v =
    transaction_keeps IsValid (start_rows conversation text provider model turn id now) db v
      (start_rows-IsValid conversation text provider model turn id now db v)
