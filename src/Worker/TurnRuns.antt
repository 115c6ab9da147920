-- ===== src/Worker/TurnRuns.antt =====
-- Every event of the run of a turn in worker/src/server.ts keeps the guard of the running turns.
use voidstation_app.Prelude.{
  All, All-filter, Bool, Bool-cases, List, Option, String, [], all, arith, false, find,
  if◌then◌else◌, inl, inr, map, none, not, refl, some, subst, true, ℕ, ◌||◌, ◌∷◌, ◌≡◌, ◌⊎◌,
}
use voidstation_app.Conversations.Tables.{TurnStatus, complete, failure, interrupted, is_running}
use voidstation_app.Conversations.Rules.{All-map, length-filter-filter}
use voidstation_app.Worker.Failures.{Failure}
use voidstation_app.Worker.Tasks.{
  ActiveTurn, Runtime, Worker, delete_task, find_task, has_turn_id, mark_settled, set_gate, settle,
}
use voidstation_app.Worker.Session.{
  fail_task, prompt_ended, session_created, stop_message, turn_threw,
}
use voidstation_app.Worker.Coverage.{IsSettled, delete-IsCovered, one-IsSettled}
use voidstation_app.Worker.Guard.{IsSafe, IsSettling, IsSettlingIn, set_gate-keeps, settle-IsSafe}

pub found-IsSettling :
    (task : ActiveTurn) (worker : Worker)
    → find_task task.turn_id worker ≡ some task
    → IsSafe worker
    → IsSettlingIn task worker
found-IsSettling task worker f v = record {
  distinct = v.distinct;
  found = f;
  aborted = elim v.aborted [
    | inl s ↦ inl s
    | inr a ↦ inr (All-map _ _ worker.active_turns (λ t q. ground arith) a)
  ];
  covered = v.covered;
}

pub delete_task-IsSafe :
    (turn : String) (worker : Worker)
    → (worker.stopping ≡ true) ⊎ IsSettled turn worker.active_turns
    → IsSafe worker
    → IsSafe (delete_task turn worker)
delete_task-IsSafe turn worker s v = record {
  distinct = λ x. omega (
    arith,
    v.distinct x,
    length-filter-filter (has_turn_id x) (λ t. not (has_turn_id turn t)) worker.active_turns,
  );
  aborted = elim v.aborted [
    | inl h ↦ inl h
    | inr a ↦ inr (
        All-filter (λ t. (not t.aborted || t.settled) ≡ true) (λ t. not (has_turn_id turn t))
          worker.active_turns a)
  ];
  covered = elim s [
    | inl h ↦ inl h
    | inr k ↦ elim v.covered [
      | inl h ↦ inl h
      | inr c ↦ inr (delete-IsCovered turn worker.active_turns worker.db.turns k c)
    ]
  ];
}

all-map-true :
    {A B : Type 0} (p : B → Bool) (f : A → B) (xs : List A)
    → ((x : A) → p (f x) ≡ true)
    → all p (map f xs) ≡ true
all-map-true p f [] h = refl
all-map-true p f (x ∷ xs) h = rw (h x, all-map-true p f xs h) refl

settle-IsSettled :
    (status : TurnStatus) (error : Option (List ℕ)) (now : ℕ) (task : ActiveTurn) (worker : Worker)
    → IsSettlingIn task worker
    → IsSettled task.turn_id (settle status error now task worker).active_turns
unfolding settle
settle-IsSettled status error now task worker v = elim (Bool-cases task.settled) [
  | inl h ↦
      rw h (one-IsSettled task.turn_id worker.active_turns task (v.distinct task.turn_id) v.found h)
  | inr h ↦ rw h (
      all-map-true (λ t. not (has_turn_id task.turn_id t) || t.settled)
        (λ t. if has_turn_id task.turn_id t then mark_settled t else t) worker.active_turns
        (λ t. ground arith))
]

-- After `settle` the task may go.
settle-delete :
    (status : TurnStatus) (error : Option (List ℕ)) (now : ℕ) (task : ActiveTurn) (worker : Worker)
    → is_running status ≡ false
    → IsSettlingIn task worker
    → IsSafe (delete_task task.turn_id (settle status error now task worker))
settle-delete status error now task worker r v =
    delete_task-IsSafe task.turn_id (settle status error now task worker)
      (inr (settle-IsSettled status error now task worker v))
      (settle-IsSafe status error now task worker r v)

settled-delete :
    (task : ActiveTurn) (worker : Worker)
    → find_task task.turn_id worker ≡ some task
    → task.settled ≡ true
    → IsSafe worker
    → IsSafe (delete_task task.turn_id worker)
settled-delete task worker f h v =
    delete_task-IsSafe task.turn_id worker
      (inr (one-IsSettled task.turn_id worker.active_turns task (v.distinct task.turn_id) f h)) v

pub if-keeps :
    (P : Worker → Type 0) (b : Bool) (x y : Worker)
    → (b ≡ true → P x)
    → (b ≡ false → P y)
    → P (if b then x else y)
if-keeps P true x y p q = p refl
if-keeps P false x y p q = q refl

All-find :
    {A : Type 0} (P : A → Type 0) (p : A → Bool) (xs : List A) (x : A)
    → All P xs
    → find p xs ≡ some x
    → P x
All-find P p [] x v h = absurd (ground arith)
All-find P p (y ∷ xs) x (q, v) h = elim (Bool-cases (p y)) [
  | inl e ↦ let same : y ≡ x = ground arith in subst P same q
  | inr e ↦ All-find P p xs x v (ground arith)
]

module _ (runtime : Runtime) (now : ℕ) (task : ActiveTurn) (worker : Worker)
    (f : find_task task.turn_id worker ≡ some task) (v : IsSafe worker) where
  gated-IsSettling :
      (fault : Failure) → IsSettlingIn task (set_gate runtime now task.provider fault worker)
  gated-IsSettling fault =
      set_gate-keeps (IsSettling task) runtime now task.provider fault worker
        (found-IsSettling task worker f v)

  abbrev IsSafeWithout : Worker → Type 0
  IsSafeWithout w = IsSafe (delete_task task.turn_id w)

  error-cases :
      (error : Option (List ℕ))
      → IsSafeWithout (elim error [
        | none ↦ settle complete none now task worker
        | some e ↦ fail_task runtime now e task worker
      ])
  error-cases none =
      settle-delete complete none now task worker refl (found-IsSettling task worker f v)
  error-cases (some e) = settle-delete failure _ now task _ refl (gated-IsSettling _)

  pub prompt_ended-IsSafe :
      (error : Option (List ℕ)) → IsSafe (prompt_ended runtime now error task worker)
  unfolding prompt_ended
  prompt_ended-IsSafe error =
      if-keeps IsSafeWithout task.settled worker _ (λ h. settled-delete task worker f h v)
        (λ h.
          if-keeps IsSafeWithout worker.stopping _ _
            (λ s.
              settle-delete interrupted (some stop_message) now task worker refl
                (found-IsSettling task worker f v))
            (λ s. error-cases error))

  pub turn_threw-IsSafe : (error : List ℕ) → IsSafe (turn_threw runtime now error task worker)
  unfolding turn_threw
  turn_threw-IsSafe error =
      if-keeps IsSafeWithout task.settled worker _ (λ h. settled-delete task worker f h v)
        (λ h.
          if-keeps IsSafeWithout worker.stopping _ _
            (λ s.
              settle-delete interrupted (some stop_message) now task _ refl (gated-IsSettling _))
            (λ s. settle-delete failure _ now task _ refl (gated-IsSettling _)))

  pub session_created-IsSafe : IsSafe (session_created task worker)
  unfolding session_created
  session_created-IsSafe =
      if-keeps IsSafe (task.settled || worker.stopping || task.aborted) _ worker
        (λ h. elim (Bool-cases worker.stopping) [
          | inl s ↦ delete_task-IsSafe task.turn_id worker (inl s) v
          | inr s ↦ elim v.aborted [
            | inl t ↦ delete_task-IsSafe task.turn_id worker (inl t) v
            | inr a ↦
                let kept = All-find _ (has_turn_id task.turn_id) worker.active_turns task a f in
                settled-delete task worker f (ground arith) v
          ]
        ])
        (λ h. v)
