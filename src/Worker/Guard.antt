-- ===== src/Worker/Guard.antt =====
-- What the steps on the tasks of worker/src/server.ts keep: `settle`, `setGate`, writes to a task,
-- `activeTurns.set` and `activeTurns.delete`.
use voidstation_app.Prelude.{
  All, Bool, Bool-cases, List, Option, String, [], all, arith, false, filter, find, if◌then◌else◌,
  inl, inr, length, map, not, refl, some, subst, true, ℕ, ◌||◌, ◌∷◌, ◌≡◌, ◌≤◌, ◌⊎◌,
}
use voidstation_app.Conversations.Tables.{Db, TurnRow, TurnStatus, is_running}
use voidstation_app.Conversations.Turns.{changes, close_turn, finish_turn, is_open_turn}
use voidstation_app.Conversations.Settings.{Provider, openai_codex, openrouter}
use voidstation_app.Conversations.Rules.{length-filter-map}
use voidstation_app.Worker.Failures.{
  Failure, FailureKind, authentication, limits, unavailable, unknown,
}
use voidstation_app.Worker.Tasks.{
  ActiveTurn, ProviderGate, Runtime, Worker, gate_by_kind, has_turn_id, mark_settled, put_gate,
  set_gate, settle,
}
use voidstation_app.Worker.Coverage.{IsCovered, IsGuarded, map-All, one-IsSettled, settle-IsCovered}

abbrev pub IsSafe : Worker → Type 0
IsSafe worker = IsGuarded worker.active_turns worker.stopping worker.db.turns

module _ (P : List ActiveTurn → Bool → List TurnRow → Type 0) where
  pub put_gate-keeps :
      (provider : Provider) (gate : Option ProviderGate) (worker : Worker)
      → P worker.active_turns worker.stopping worker.db.turns
      → P
          (put_gate provider gate worker).active_turns
          (put_gate provider gate worker).stopping
          (put_gate provider gate worker).db.turns
  put_gate-keeps openai_codex gate worker v = v
  put_gate-keeps openrouter gate worker v = v

  gate_by_kind-keeps :
      (runtime : Runtime) (now : ℕ) (provider : Provider) (error : List ℕ) (kind : FailureKind)
      (worker : Worker)
      → P worker.active_turns worker.stopping worker.db.turns
      → P
          (gate_by_kind runtime now provider error kind worker).active_turns
          (gate_by_kind runtime now provider error kind worker).stopping
          (gate_by_kind runtime now provider error kind worker).db.turns
  unfolding gate_by_kind
  gate_by_kind-keeps runtime now provider error unknown worker v = v
  gate_by_kind-keeps runtime now provider error authentication worker v =
      put_gate-keeps provider _ worker v
  gate_by_kind-keeps runtime now provider error limits worker v = put_gate-keeps provider _ worker v
  gate_by_kind-keeps runtime now provider error unavailable worker v =
      put_gate-keeps provider _ worker v

  pub set_gate-keeps :
      (runtime : Runtime) (now : ℕ) (provider : Provider) (fault : Failure) (worker : Worker)
      → P worker.active_turns worker.stopping worker.db.turns
      → P
          (set_gate runtime now provider fault worker).active_turns
          (set_gate runtime now provider fault worker).stopping
          (set_gate runtime now provider fault worker).db.turns
  unfolding set_gate
  set_gate-keeps runtime now provider fault worker v =
      gate_by_kind-keeps runtime now provider fault.message fault.kind worker v

pub find-has : {A : Type 0} (p : A → Bool) (xs : List A) (x : A) → find p xs ≡ some x → p x ≡ true
find-has p [] x h = absurd (ground arith)
find-has p (y ∷ xs) x h = elim (Bool-cases (p y)) [
  | inl e ↦ let same : y ≡ x = ground arith in subst (λ z. p z ≡ true) same e
  | inr e ↦ ground (arith, find-has p xs x)
]

pub finish_turn-turns :
    (conversation turn : String) (status : TurnStatus) (error : Option (List ℕ)) (now : ℕ) (db : Db)
    → (finish_turn conversation turn status error now db).turns
      ≡ map
          (λ row.
            if is_open_turn conversation turn row then close_turn status error now row else row)
          db.turns
unfolding finish_turn
finish_turn-turns conversation turn status error now db =
    elim (Bool-cases (changes conversation turn db)) [ inl h ↦ rw h refl | inr h ↦ rw h refl ]

pub update-distinct :
    (f : ActiveTurn → ActiveTurn) (turn : String) (active : List ActiveTurn)
    → ((t : ActiveTurn) → (f t).turn_id ≡ t.turn_id)
    → ((x : String) → length (filter (has_turn_id x) active) ≤ 1)
    → (x : String)
    → length (filter (has_turn_id x) (map (λ t. if has_turn_id turn t then f t else t) active)) ≤ 1
update-distinct f turn active keeps d x = omega (
  arith,
  d x,
  length-filter-map (has_turn_id x) (λ t. if has_turn_id turn t then f t else t) active
      (λ t. elim (Bool-cases (has_turn_id turn t)) [
        | inl h ↦ rw (h, keeps t) (λ e. e)
        | inr h ↦ rw h (λ e. e)
      ]),
)

-- What `settle` needs of the worker: the task may be aborted already.
pub record IsSettling (task : ActiveTurn) (active : List ActiveTurn) (stopping : Bool)
    (rows : List TurnRow) : Type 0 where
  pub distinct : (turn : String) → length (filter (has_turn_id turn) active) ≤ 1
  pub found : find (has_turn_id task.turn_id) active ≡ some task
  pub aborted :
      (stopping ≡ true)
      ⊎ All (λ t. (has_turn_id task.turn_id t || not t.aborted || t.settled) ≡ true) active
  pub covered : (stopping ≡ true) ⊎ IsCovered active rows

all-All :
    {A : Type 0} (p : A → Bool) (P Q : A → Type 0) (xs : List A)
    → ((x : A) → p x ≡ true → P x → Q x)
    → all p xs ≡ true
    → All P xs
    → All Q xs
all-All p P Q [] f h v = tt
all-All p P Q (x ∷ xs) f h (q, v) = (f x (ground arith) q, all-All p P Q xs f (ground arith) v)

abbrev pub IsSettlingIn : ActiveTurn → Worker → Type 0
IsSettlingIn task worker = IsSettling task worker.active_turns worker.stopping worker.db.turns

pub settle-IsSafe :
    (status : TurnStatus) (error : Option (List ℕ)) (now : ℕ) (task : ActiveTurn) (worker : Worker)
    → is_running status ≡ false
    → IsSettlingIn task worker
    → IsSafe (settle status error now task worker)
unfolding settle
settle-IsSafe status error now task worker r v = elim (Bool-cases task.settled) [
  | inl h ↦ rw h (record {
    distinct = v.distinct;
    aborted = elim v.aborted [
      | inl s ↦ inl s
      | inr a ↦ inr (
          all-All _ _ _ worker.active_turns (λ t k q. ground arith)
            (one-IsSettled task.turn_id worker.active_turns task (v.distinct task.turn_id) v.found
              h)
            a)
    ];
    covered = v.covered;
  })
  | inr h ↦ rw h (record {
    distinct = update-distinct mark_settled task.turn_id worker.active_turns (λ t. refl) v.distinct;
    aborted = elim v.aborted [
      | inl s ↦ inl s
      | inr a ↦ inr (map-All _ _ _ worker.active_turns (λ t q. ground arith) a)
    ];
    covered = elim v.covered [
      | inl s ↦ inl s
      | inr c ↦ inr (
          rw (finish_turn-turns task.conversation_id task.turn_id status error now worker.db) (
            settle-IsCovered status error now task worker.active_turns worker.db.turns r
              (v.distinct task.turn_id) v.found c))
    ];
  })
]
