-- ===== src/Worker/Accepted.antt =====
-- A turn that `submitTurn` of worker/src/server.ts starts gets a task.
use voidstation_app.Prelude.{
  All-append, All-filter, Bool-cases, List, String, [], any, append-nil, arith, eq_iff, eq_refl,
  false, filter, filter-append, inl, inr, length, not, refl, subst, sym, true, ℕ, ◌&&◌, ◌++◌, ◌=s◌,
  ◌||◌, ◌∷◌, ◌≡◌, ◌≤◌,
}
use voidstation_app.Conversations.Tables.{Db, TurnRow, has_conversation}
use voidstation_app.Conversations.Settings.{Provider, provider_name}
use voidstation_app.Conversations.Rules.{length-filter-filter}
use voidstation_app.Conversations.Lifecycle.{any-append}
use voidstation_app.Worker.Tasks.{ActiveTurn, Worker, has_turn_id, set_task}
use voidstation_app.Worker.Submission.{after_start, launch, new_task}
use voidstation_app.Worker.Coverage.{IsCovered, covers, drop-covers, is_covered}
use voidstation_app.Sqlite.{Outcome}
use voidstation_app.Conversations.Turns.{Started, new_turn}
use voidstation_app.Worker.Guard.{IsSafe}
use voidstation_app.Worker.TurnRuns.{delete_task-IsSafe, if-keeps}
use voidstation_app.Worker.Lives.{same_turns-IsSafe}
use voidstation_app.Worker.Starts.{StartCases, start_begun, start_busy, start_missing, start_threw}

none_kept :
    (turn : String) (active : List ActiveTurn)
    → filter (has_turn_id turn) (filter (λ t. not (has_turn_id turn t)) active) ≡ []
none_kept turn [] = refl
none_kept turn (t ∷ active) = elim (Bool-cases (has_turn_id turn t)) [
  | inl h ↦ rw h (none_kept turn active)
  | inr h ↦ rw (h, h) (none_kept turn active)
]

set-distinct :
    (task : ActiveTurn) (active : List ActiveTurn)
    → ((turn : String) → length (filter (has_turn_id turn) active) ≤ 1)
    → (turn : String)
    → length (
        filter
          (has_turn_id turn)
          (filter (λ t. not (has_turn_id task.turn_id t)) active ++ task ∷ []))
      ≤ 1
set-distinct task active d turn =
    let kept = filter (λ t. not (has_turn_id task.turn_id t)) active in
    elim (Bool-cases (has_turn_id turn task)) [
      | inr h ↦
          rw
            (
              filter-append (has_turn_id turn) kept (task ∷ []),
              h,
              append-nil (filter (has_turn_id turn) kept),
            )
            (omega (
              arith,
              d turn,
              length-filter-filter (has_turn_id turn) (λ t. not (has_turn_id task.turn_id t))
                  active,
            ))
      | inl h ↦
          subst (λ x. length (filter (has_turn_id x) (kept ++ task ∷ [])) ≤ 1)
            ((eq_iff task.turn_id turn).0 h)
            (rw
              (
                filter-append (has_turn_id task.turn_id) kept (task ∷ []),
                none_kept task.turn_id active,
                eq_refl task.turn_id,
              )
              (omega arith))
    ]

-- The rows of other turns keep their tasks when a task is set.
set-IsCovered :
    (task : ActiveTurn) (active : List ActiveTurn) (rows : List TurnRow)
    → any (λ row. row.id =s task.turn_id) rows ≡ false
    → IsCovered active rows
    → IsCovered (filter (λ t. not (has_turn_id task.turn_id t)) active ++ task ∷ []) rows
set-IsCovered task active [] n v = tt
set-IsCovered task active (row ∷ rows) n (p, v) = (
  rw
      (
        any-append (covers row) (filter (λ t. not (has_turn_id task.turn_id t)) active) task,
        drop-covers task.turn_id row active (ground arith),
      )
      (ground arith),
  set-IsCovered task active rows (ground arith) v,
)

fresh-IsCovered :
    (row : TurnRow) (provider : Provider) (model : String) (active : List ActiveTurn)
    → is_covered (active ++ new_task row provider model ∷ []) row ≡ true
fresh-IsCovered row provider model active =
    rw
      (
        any-append (covers row) active (new_task row provider model),
        eq_refl row.id,
        eq_refl row.conversation_id,
      )
      (ground arith)

All-append_rows :
    (active : List ActiveTurn) (rows : List TurnRow) (row : TurnRow)
    → IsCovered active rows
    → is_covered active row ≡ true
    → IsCovered active (rows ++ row ∷ [])
All-append_rows active rows row v p =
    All-append (λ r. is_covered active r ≡ true) rows (row ∷ []) v (p, tt)

module _ (row : TurnRow) (provider : Provider) (model : String) (worker : Worker) (db : Db)
    (turns : db.turns ≡ worker.db.turns ++ row ∷ [])
    (new : any (λ r. r.id =s row.id) worker.db.turns ≡ false) (v : IsSafe worker) where
  abbrev kept_tasks : List ActiveTurn
  kept_tasks = filter (λ t. not (has_turn_id row.id t)) worker.active_turns

  set_task-IsSafe : IsSafe (set_task (new_task row provider model) (record worker { db = db }))
  set_task-IsSafe = record {
    distinct = set-distinct (new_task row provider model) worker.active_turns v.distinct;
    aborted = elim v.aborted [
      | inl s ↦ inl s
      | inr a ↦ inr (
          All-append (λ t. (not t.aborted || t.settled) ≡ true) kept_tasks
            (new_task row provider model ∷ [])
            (All-filter (λ t. (not t.aborted || t.settled) ≡ true) (λ t. not (has_turn_id row.id t))
              worker.active_turns a)
            (refl, tt))
    ];
    covered = elim v.covered [
      | inl s ↦ inl s
      | inr c ↦ inr (
          subst (λ rows. IsCovered (kept_tasks ++ new_task row provider model ∷ []) rows)
            (sym turns)
            (All-append_rows (kept_tasks ++ new_task row provider model ∷ []) worker.db.turns row
              (set-IsCovered (new_task row provider model) worker.active_turns worker.db.turns new
                c)
              (fresh-IsCovered row provider model kept_tasks)))
    ];
  }

  -- A task that ends at once ends because the worker stops: its conversation is there.
  launch-IsSafe :
      has_conversation row.conversation_id db ≡ true
      → IsSafe (launch (new_task row provider model) (record worker { db = db }))
  launch-IsSafe h =
      if-keeps IsSafe (has_conversation row.conversation_id db && not worker.stopping) _ _
        (λ e. set_task-IsSafe)
        (λ e.
          delete_task-IsSafe row.id
            (set_task (new_task row provider model) (record worker { db = db }))
            (inl (ground arith)) set_task-IsSafe)

pub after_start-IsSafe :
    (conversation turn : String) (provider : Provider) (model : String) (now : ℕ) (worker : Worker)
    (r : Outcome Started × Db)
    → StartCases conversation turn (provider_name provider) model now worker.db r
    → IsSafe worker
    → IsSafe (after_start provider model worker r).1
after_start-IsSafe conversation turn provider model now worker r (start_threw after e) v =
    same_turns-IsSafe after worker e v
after_start-IsSafe conversation turn provider model now worker r (start_missing after e) v =
    same_turns-IsSafe after worker e v
after_start-IsSafe conversation turn provider model now worker r (start_busy after e) v =
    same_turns-IsSafe after worker e v
after_start-IsSafe conversation turn provider model now worker r (start_begun after e n h) v =
    launch-IsSafe (new_turn turn conversation (provider_name provider) model now) provider model
      worker after e n v h
