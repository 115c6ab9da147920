-- ===== src/Sqlite.antt =====
-- SQLite as src/lib/auth-store.ts and worker/src/store.ts use it: an operation on the tables `S`
-- returns or throws, and a transaction takes back what a throwing operation wrote.
use voidstation_app.Prelude.{ap, arith, refl, ◌≡◌}

-- What an operation returns, or that it threw.
pub data Outcome {ℓ} (A : Type ℓ) : Type ℓ where
  done : A → Outcome A
  threw : Outcome A

abbrev pub Statement : Type 0 → Type 0 → Type 0
Statement S A = S → Outcome A × S

infixl 5 ◌>>=◌ ◌>>◌
abbrev pub ◌>>=◌ : {S A B : Type 0} → Statement S A → (A → Statement S B) → Statement S B
◌>>=◌ m f db = let (r, db') = m db in elim r [ done a ↦ f a db' | threw ↦ (threw, db') ]

abbrev pub ◌>>◌ : {S B : Type 0} → Statement S (Unit {0}) → Statement S B → Statement S B
m >> k = m >>= λ _. k

abbrev pub pure : {S A : Type 0} → A → Statement S A
pure a db = (done a, db)

-- COMMIT, or ROLLBACK and the error again.
abbrev pub close_transaction : {S A : Type 0} → S → Outcome A × S → Outcome A × S
close_transaction before (done a, after) = (done a, after)
close_transaction before (threw, after) = (threw, before)

unfoldable pub transaction : {S A : Type 0} → Statement S A → Statement S A
transaction operation db = close_transaction db (operation db)

-- A result that is only repackaged leaves the tables as they are.
pub state-bind_pure :
    {S A B : Type 0} (m : Statement S A) (f : A → B) (db : S)
    → ((m >>= λ a. pure (f a)) db).1 ≡ (m db).1
state-bind_pure m f db = ground arith

bind_result_cases :
    {S A B : Type 0} (r : Outcome A) (mid : S) (f : A → Statement S B) (b : B) (after : S)
    → ((λ (x : S). let y : Outcome A × S = (r, x) in y) >>= f) mid ≡ (done b, after)
    → (a : A) × (r ≡ done a) × (f a mid ≡ (done b, after))
bind_result_cases (done a) mid f b after e = (a, refl, e)
bind_result_cases {S} {A} {B} threw mid f b after e = cc (ap (λ (r : Outcome B × S). r.0) e)

-- A sequence that returns is a first step that returns and a second one, from where it ended.
pub bind_cases :
    {S A B : Type 0} (m : Statement S A) (f : A → Statement S B) (db : S) (b : B) (after : S)
    → (m >>= f) db ≡ (done b, after)
    → (a : A) × (m db ≡ (done a, (m db).1)) × (f a (m db).1 ≡ (done b, after))
bind_cases m f db b after e =
    let (a, h, k) = bind_result_cases (m db).0 (m db).1 f b after e in (a, λ i. (h i, (m db).1), k)

bind_result_done :
    {S A B : Type 0} (r : Outcome A) (mid : S) (f : A → Statement S B) (a : A)
    → r ≡ done a
    → ((λ (x : S). let y : Outcome A × S = (r, x) in y) >>= f) mid ≡ f a mid
bind_result_done {S} {A} {B} r mid f a e = rw e refl

-- After a first step that returns, the second one runs from where it ended.
pub bind_done :
    {S A B : Type 0} (m : Statement S A) (f : A → Statement S B) (db : S) (a : A)
    → (m db).0 ≡ done a
    → (m >>= f) db ≡ f a (m db).1
bind_done m f db a e = bind_result_done (m db).0 (m db).1 f a e

module _ {ℓ} {S : Type 0} (P : S → Type ℓ) where
  close_transaction_keeps :
      {A : Type 0} (db : S) (r : Outcome A × S) → P db → P r.1 → P (close_transaction db r).1
  close_transaction_keeps db (done a, after) v w = w
  close_transaction_keeps db (threw, after) v w = v

  pub transaction_keeps :
      {A : Type 0} (operation : Statement S A) (db : S)
      → P db
      → P (operation db).1
      → P (transaction operation db).1
  unfolding transaction
  transaction_keeps operation db v w = close_transaction_keeps db (operation db) v w

  bind_result_keeps :
      {A B : Type 0} (r : Outcome A) (db : S) (f : A → Statement S B)
      → P db
      → ((a : A) → P (f a db).1)
      → P (((λ (x : S). let y : Outcome A × S = (r, x) in y) >>= f) db).1
  bind_result_keeps (done a) db f v w = w a
  bind_result_keeps threw db f v w = v

  -- What each step keeps, their sequence keeps.
  pub bind_keeps :
      {A B : Type 0} (m : Statement S A) (f : A → Statement S B) (db : S)
      → P (m db).1
      → ((a : A) → P (m db).1 → P (f a (m db).1).1)
      → P ((m >>= f) db).1
  bind_keeps m f db v w = bind_result_keeps (m db).0 (m db).1 f v (λ a. w a v)
