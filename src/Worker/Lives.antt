-- ===== src/Worker/Lives.antt =====
-- The events of worker/src/server.ts that write to a task and to the store, and `shutdown`.
use voidstation_app.Sqlite.{Outcome, done, threw}
use voidstation_app.Prelude.{
  Bool-cases, List, Option, String, [], ap, arith, codes, filter, find, if◌then◌else◌, inl, inr,
  length, map, not, refl, some, subst, sym, true, ℕ, ◌||◌, ◌∷◌, ◌≡◌, ◌≤◌,
}
use voidstation_app.Conversations.Tables.{Db, ToolStatus, TurnRow, TurnStatus, failure, interrupted}
use voidstation_app.Conversations.Erasure.{any-map}
use voidstation_app.Worker.Tasks.{
  ActiveTurn, Runtime, Worker, find_task, has_turn_id, mark_settled, settle, update_task,
}
use voidstation_app.Worker.Session.{
  abort_task, interrupt_tasks, live_id, message_end, message_update, save_media, shutdown,
  stop_message, then_task, timed_out, tool_execution_end, tool_execution_start,
}
use voidstation_app.Worker.Coverage.{IsCovered, IsGuarded, covers, map-All}
use voidstation_app.Worker.Guard.{
  IsSafe, IsSettling, IsSettlingIn, set_gate-keeps, settle-IsSafe, update-distinct,
}
use voidstation_app.Worker.TurnRuns.{if-keeps}
use voidstation_app.Worker.Writes.{
  reserve_tool_call-turns, save_assistant_message-turns, save_media_result-turns,
  save_tool_call-turns,
}
use voidstation_app.Conversations.Settings.{openai_codex}
use voidstation_app.Worker.Failures.{provider_failure}

map-IsCovered :
    (g : ActiveTurn → ActiveTurn) (active : List ActiveTurn) (rows : List TurnRow)
    → ((row : TurnRow) (t : ActiveTurn) → covers row (g t) ≡ covers row t)
    → IsCovered active rows
    → IsCovered (map g active) rows
map-IsCovered g active [] h v = tt
map-IsCovered g active (row ∷ rows) h (p, v) =
    (rw (any-map (covers row) g active (h row)) p, map-IsCovered g active rows h v)

-- A write to a task that keeps its turn, its conversation and its flags.
update_task-IsSafe :
    (f : ActiveTurn → ActiveTurn) (turn : String) (worker : Worker)
    → ((t : ActiveTurn) → (f t).turn_id ≡ t.turn_id)
    → ((t : ActiveTurn) → (not (f t).aborted || (f t).settled) ≡ (not t.aborted || t.settled))
    → ((row : TurnRow) (t : ActiveTurn) → covers row (f t) ≡ covers row t)
    → IsSafe worker
    → IsSafe (update_task f turn worker)
update_task-IsSafe f turn worker keeps flags same v = record {
  distinct = update-distinct f turn worker.active_turns keeps v.distinct;
  aborted = elim v.aborted [
    | inl s ↦ inl s
    | inr a ↦ inr (
        map-All _ _ _ worker.active_turns
          (λ t q. elim (Bool-cases (has_turn_id turn t)) [
            | inl h ↦ rw (h, flags t) q
            | inr h ↦ rw h q
          ])
          a)
  ];
  covered = elim v.covered [
    | inl s ↦ inl s
    | inr c ↦ inr (
        map-IsCovered (λ t. if has_turn_id turn t then f t else t) worker.active_turns
          worker.db.turns
          (λ row t. elim (Bool-cases (has_turn_id turn t)) [
            | inl h ↦ rw (h, same row t) refl
            | inr h ↦ rw h refl
          ])
          c)
  ];
}

pub same_turns-IsSafe :
    (db : Db) (worker : Worker)
    → db.turns ≡ worker.db.turns
    → IsSafe worker
    → IsSafe (record worker { db = db })
same_turns-IsSafe db worker e v =
    subst (λ rows. IsGuarded worker.active_turns worker.stopping rows) (sym e) v

then_task-IsSafe :
    {A : Type 0} (r : Outcome A × Db) (f : Worker → Worker) (worker : Worker)
    → r.1.turns ≡ worker.db.turns
    → ((w : Worker) → IsSafe w → IsSafe (f w))
    → IsSafe worker
    → IsSafe (then_task r f worker)
then_task-IsSafe (done a, db) f worker e h v = h _ (same_turns-IsSafe db worker e v)
then_task-IsSafe (threw, db) f worker e h v = same_turns-IsSafe db worker e v

module _ (task : ActiveTurn) (worker : Worker) (v : IsSafe worker) where
  pub message_update-IsSafe :
      (id : String) (delta : List ℕ) → IsSafe (message_update id delta task worker)
  unfolding message_update
  message_update-IsSafe id delta =
      if-keeps IsSafe task.settled worker _ (λ h. v)
        (λ h. update_task-IsSafe _ task.turn_id worker (λ t. refl) (λ t. refl) (λ row t. refl) v)

  pub message_end-IsSafe :
      (id : String) (text : List ℕ) (now : ℕ) → IsSafe (message_end id text now task worker)
  unfolding message_end
  message_end-IsSafe id text now =
      if-keeps IsSafe task.settled worker _ (λ h. v)
        (λ h.
          then_task-IsSafe _ _ worker
            (save_assistant_message-turns task.conversation_id task.turn_id (live_id id task.live)
              text now worker.db)
            (λ w k. update_task-IsSafe _ task.turn_id w (λ t. refl) (λ t. refl) (λ row t. refl) k)
            v)

  pub tool_execution_start-IsSafe :
      (call_id id parameters : String)
      → IsSafe (tool_execution_start call_id id parameters task worker)
  unfolding tool_execution_start
  tool_execution_start-IsSafe call_id id parameters =
      if-keeps IsSafe task.settled worker _ (λ h. v)
        (λ h.
          then_task-IsSafe _ _ (update_task _ task.turn_id worker)
            (reserve_tool_call-turns task.conversation_id id worker.db) (λ w k. k)
            (update_task-IsSafe _ task.turn_id worker (λ t. refl) (λ t. refl) (λ row t. refl) v))

  pub tool_execution_end-IsSafe :
      (call_id id name result : String) (status : ToolStatus)
      → IsSafe (tool_execution_end call_id id name result status task worker)
  unfolding tool_execution_end
  tool_execution_end-IsSafe call_id id name result status =
      if-keeps IsSafe task.settled worker _ (λ h. v)
        (λ h. then_task-IsSafe _ _ worker (save_tool_call-turns _ worker.db) (λ w k. k) v)

  pub save_media-IsSafe : (id result : String) → IsSafe (save_media id result task worker)
  unfolding save_media
  save_media-IsSafe id result =
      then_task-IsSafe _ _ worker
        (save_media_result-turns task.conversation_id task.turn_id id result worker.db) (λ w k. k) v

find-abort :
    (turn : String) (active : List ActiveTurn) (task : ActiveTurn)
    → find (has_turn_id turn) active ≡ some task
    → find (has_turn_id turn) (map (λ t. if has_turn_id turn t then abort_task t else t) active)
      ≡ some (abort_task task)
find-abort turn [] task e = absurd (ground arith)
find-abort turn (t ∷ active) task e = elim (Bool-cases (has_turn_id turn t)) [
  | inl h ↦
      let same : t ≡ task = ground arith in
      rw (h, h) (ap (λ (x : ActiveTurn). some (abort_task x)) same)
  | inr h ↦ rw (h, h) (find-abort turn active task (ground arith))
]

abort-IsSettling :
    (task : ActiveTurn) (worker : Worker)
    → find_task task.turn_id worker ≡ some task
    → IsSafe worker
    → IsSettlingIn (abort_task task) (update_task abort_task task.turn_id worker)
abort-IsSettling task worker f v = record {
  distinct = update-distinct abort_task task.turn_id worker.active_turns (λ t. refl) v.distinct;
  found = find-abort task.turn_id worker.active_turns task f;
  aborted = elim v.aborted [
    | inl s ↦ inl s
    | inr a ↦ inr (map-All _ _ _ worker.active_turns (λ t q. ground arith) a)
  ];
  covered = elim v.covered [
    | inl s ↦ inl s
    | inr c ↦ inr (
        map-IsCovered (λ t. if has_turn_id task.turn_id t then abort_task t else t)
          worker.active_turns worker.db.turns
          (λ row t. elim (Bool-cases (has_turn_id task.turn_id t)) [
            | inl h ↦ rw h refl
            | inr h ↦ rw h refl
          ])
          c)
  ];
}

pub timed_out-IsSafe :
    (runtime : Runtime) (now : ℕ) (task : ActiveTurn) (worker : Worker)
    → find_task task.turn_id worker ≡ some task
    → IsSafe worker
    → IsSafe (timed_out runtime now task worker)
unfolding timed_out settle
timed_out-IsSafe runtime now task worker f v =
    settle-IsSafe failure (some (codes "The assistant took too long to reply.")) now
      (abort_task task) _ refl
      (set_gate-keeps (IsSettling (abort_task task)) runtime now task.provider
        (provider_failure runtime.to_lower openai_codex (codes "timeout"))
        (update_task abort_task task.turn_id worker) (abort-IsSettling task worker f v))

-- While the worker stops, only the tasks' identifiers matter.
pub record IsStopping (worker : Worker) : Type 0 where
  pub stopping : worker.stopping ≡ true
  pub distinct : (turn : String) → length (filter (has_turn_id turn) worker.active_turns) ≤ 1

settle-IsStopping :
    (status : TurnStatus) (error : Option (List ℕ)) (now : ℕ) (task : ActiveTurn) (worker : Worker)
    → IsStopping worker
    → IsStopping (settle status error now task worker)
unfolding settle
settle-IsStopping status error now task worker v = elim (Bool-cases task.settled) [
  | inl h ↦ rw h v
  | inr h ↦ rw h (record {
    stopping = v.stopping;
    distinct = update-distinct mark_settled task.turn_id worker.active_turns (λ t. refl) v.distinct;
  })
]

interrupt_tasks-IsStopping :
    (now : ℕ) (tasks : List ActiveTurn) (worker : Worker)
    → IsStopping worker
    → IsStopping (interrupt_tasks now tasks worker)
unfolding interrupt_tasks
interrupt_tasks-IsStopping now [] worker v = v
interrupt_tasks-IsStopping now (task ∷ tasks) worker v = interrupt_tasks-IsStopping now tasks _ (
    settle-IsStopping interrupted (some stop_message) now task
      (update_task abort_task task.turn_id worker)
      (record {
        stopping = v.stopping;
        distinct =
            update-distinct abort_task task.turn_id worker.active_turns (λ t. refl) v.distinct;
      }))

pub shutdown-IsSafe : (now : ℕ) (worker : Worker) → IsSafe worker → IsSafe (shutdown now worker)
unfolding shutdown
shutdown-IsSafe now worker v =
    if-keeps IsSafe worker.closed worker _ (λ h. v)
      (λ h.
        let s =
          interrupt_tasks-IsStopping now worker.active_turns (record worker { stopping = true })
            (record { stopping = refl; distinct = v.distinct }) in
        record { distinct = s.distinct; aborted = inl s.stopping; covered = inl s.stopping })
