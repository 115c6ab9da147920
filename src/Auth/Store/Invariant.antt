-- ===== src/Auth/Store/Invariant.antt =====
-- The invariant of the authentication database, kept by every call of src/lib/auth-store.ts.
use voidstation_app.Sqlite.{state-bind_pure}
use voidstation_app.Auth.Store.Calls.{
  Call, begins_login, begins_recovery, bootstraps, finishes_login, finishes_recovery, revokes, run,
  step, validates,
}
use voidstation_app.Auth.Store.Rules.{
  finish_login_keeps, is_valid_session_keeps, revoke_session_keeps,
}
use voidstation_app.Auth.Store.Limit.{length-within_limit}
use voidstation_app.Prelude.{
  =b_sym, All, All-append, All-filter, Bool, Bool-cases, List, Option, [], arith, false, filter,
  inl, inr, length, length-append, length-filter-le, none, not, refl, some, ℕ, ◌++◌, ◌-◌, ◌=b◌, ◌∷◌,
  ◌≡◌, ◌≤◌,
}
use voidstation_app.Auth.Store.{
  begin_login, begin_recovery, bootstrap_owner, create_session, finish_login, finish_recovery,
  is_valid_session, revoke_session,
}
use voidstation_app.Auth.Tables.{
  Account, Crypto, Db, SessionRow, beyond_limit, empty_db, has_hash_in, insert_session, is_live,
  is_recent, kept_sessions, may_insert, new_session, rate_limit_attempts, reserve_login_attempt,
  session_limit,
}

-- No two sessions have one token hash.
abbrev pub HasDistinctHashes : List SessionRow → Type 0
HasDistinctHashes [] = Unit
HasDistinctHashes (row ∷ rows) = (has_hash_in rows row ≡ false) × HasDistinctHashes rows

-- The session was opened under the account as it is now.
abbrev pub IsCurrent : Option Account → SessionRow → Type 0
IsCurrent none row = ⊥
IsCurrent (some account) row = row.account_revision ≡ account.revision

abbrev pub revision_of : Option Account → ℕ
revision_of none = 1
revision_of (some account) = account.revision

pub record IsValid (db : Db) : Type 0 where
  pub few_attempts : length db.login_attempt ≤ rate_limit_attempts
  pub few_sessions : length db.owner_session ≤ session_limit
  pub distinct : HasDistinctHashes db.owner_session
  pub current : All (IsCurrent db.owner_account) db.owner_session
  pub positive : 1 ≤ revision_of db.owner_account

has_hash_in-filter :
    (p : SessionRow → Bool) (rows : List SessionRow) (x : SessionRow)
    → has_hash_in rows x ≡ false
    → has_hash_in (filter p rows) x ≡ false
has_hash_in-filter p [] x h = refl
has_hash_in-filter p (r ∷ rows) x h = ground (arith, has_hash_in-filter p rows x)

pub filter-HasDistinctHashes :
    (p : SessionRow → Bool) (rows : List SessionRow)
    → HasDistinctHashes rows
    → HasDistinctHashes (filter p rows)
filter-HasDistinctHashes p [] h = tt
filter-HasDistinctHashes p (r ∷ rows) (q, h) =
    ground (arith, has_hash_in-filter p rows r q, filter-HasDistinctHashes p rows h)

has_hash_in-append :
    (rows : List SessionRow) (x r : SessionRow)
    → has_hash_in rows r ≡ false
    → (x.token_hash =b r.token_hash) ≡ false
    → has_hash_in (rows ++ x ∷ []) r ≡ false
has_hash_in-append [] x r h k = ground arith
has_hash_in-append (y ∷ rows) x r h k = ground (arith, has_hash_in-append rows x r)

append-HasDistinctHashes :
    (rows : List SessionRow) (x : SessionRow)
    → HasDistinctHashes rows
    → has_hash_in rows x ≡ false
    → HasDistinctHashes (rows ++ x ∷ [])
append-HasDistinctHashes [] x h k = (refl, tt)
append-HasDistinctHashes (r ∷ rows) x (q, h) k = (
  has_hash_in-append rows x r q (ground (arith, =b_sym x.token_hash r.token_hash)),
  append-HasDistinctHashes rows x h (ground arith),
)

reserve-IsValid : (now : ℕ) (db : Db) → IsValid db → IsValid (reserve_login_attempt now db).1
unfolding reserve_login_attempt
reserve-IsValid now db v = record {
  few_attempts = ground (
    arith,
    v.few_attempts,
    length-append (filter (is_recent now) db.login_attempt) (now ∷ []),
    length-filter-le (is_recent now) db.login_attempt,
  );
  few_sessions = ground (arith, v.few_sessions);
  distinct = ground (arith, v.distinct);
  current = ground (arith, v.current);
  positive = ground (arith, v.positive);
}

-- The rest of the first half of a login reads only.
pub begin_login-reserve :
    (password : List ℕ) (now : ℕ) (db : Db)
    → (begin_login password now db).1 ≡ (reserve_login_attempt now db).1
unfolding begin_login
begin_login-reserve password now db = ground arith

begin_login-IsValid :
    (password : List ℕ) (now : ℕ) (db : Db) → IsValid db → IsValid (begin_login password now db).1
unfolding begin_login
begin_login-IsValid password now db v =
    rw (begin_login-reserve password now db) (reserve-IsValid now db v)

filter_sessions-IsValid :
    (p : SessionRow → Bool) (db : Db)
    → IsValid db
    → IsValid (record db { owner_session = filter p db.owner_session })
filter_sessions-IsValid p db v = record {
  few_attempts = v.few_attempts;
  few_sessions = omega (arith, v.few_sessions, length-filter-le p db.owner_session);
  distinct = filter-HasDistinctHashes p db.owner_session v.distinct;
  current = All-filter (IsCurrent db.owner_account) p db.owner_session v.current;
  positive = v.positive;
}

insert-IsValid :
    (row : SessionRow) (db : Db)
    → length db.owner_session ≤ session_limit - 1
    → IsCurrent db.owner_account row
    → IsValid db
    → IsValid (insert_session row db).1
unfolding insert_session
insert-IsValid row db room now v = elim (Bool-cases (may_insert row db.owner_session)) [
  | inr e ↦ rw (e, insert_session) v
  | inl e ↦
      rw (e, insert_session)
        (record {
          few_attempts = v.few_attempts;
          few_sessions = omega (arith, length-append db.owner_session (row ∷ []));
          distinct = append-HasDistinctHashes db.owner_session row v.distinct (ground arith);
          current =
              All-append (IsCurrent db.owner_account) db.owner_session (row ∷ []) v.current
                (now, tt);
          positive = v.positive;
        })
]

kept_sessions-IsValid :
    (now : ℕ) (db : Db)
    → IsValid db
    → IsValid (record db { owner_session = kept_sessions now db.owner_session })
kept_sessions-IsValid now db v =
    filter_sessions-IsValid
      (λ row. not (has_hash_in (beyond_limit (filter (is_live now) db.owner_session)) row)) _
      (filter_sessions-IsValid (is_live now) db v)

module _ (crypto : Crypto) where
  create_session-IsValid :
      (account : Account) (random : List ℕ) (now : ℕ) (db : Db)
      → db.owner_account ≡ some account
      → IsValid db
      → IsValid (create_session crypto account.revision random now db).1
  unfolding create_session
  create_session-IsValid account random now db e v =
      let token = crypto.base64url random in
      let row = new_session (crypto.sha256 token) account.revision now in
      let kept = record db { owner_session = kept_sessions now db.owner_session } in
      rw (state-bind_pure (insert_session row) (λ _. token) kept) (
        insert-IsValid row kept (length-within_limit (filter (is_live now) db.owner_session))
          (rw e refl) (kept_sessions-IsValid now db v))

  finish_login-IsValid :
      (password : List ℕ) (account : Account) (random : List ℕ) (now : ℕ) (db : Db)
      → IsValid db
      → IsValid (finish_login crypto password account random now db).1
  finish_login-IsValid password account random now db v =
      finish_login_keeps IsValid crypto account random now password db v
        (λ c _ e _. create_session-IsValid c random now db e v)

  is_valid_session-IsValid :
      (token : Option (List ℕ)) (now : ℕ) (db : Db)
      → IsValid db
      → IsValid (is_valid_session crypto token now db).1
  is_valid_session-IsValid token now db v =
      is_valid_session_keeps IsValid crypto db v token now
        (filter_sessions-IsValid (is_live now) db v)

  revoke_session-IsValid :
      (token : Option (List ℕ)) (db : Db) → IsValid db → IsValid (revoke_session crypto token db).1
  revoke_session-IsValid token db v =
      revoke_session_keeps IsValid crypto db v token
        (λ digest. filter_sessions-IsValid (λ row. not (row.token_hash =b digest)) db v)

  bootstrap_owner-IsValid :
      (password salt : List ℕ) (db : Db)
      → IsValid db
      → IsValid (bootstrap_owner crypto password salt db).1
  unfolding bootstrap_owner
  bootstrap_owner-IsValid password salt db v = ground arith

  begin_recovery-IsValid :
      (password : List ℕ) (db : Db) → IsValid db → IsValid (begin_recovery password db).1
  unfolding begin_recovery
  begin_recovery-IsValid password db v = ground arith

  finish_recovery-IsValid :
      (password salt : List ℕ) (db : Db)
      → IsValid db
      → IsValid (finish_recovery crypto password salt db).1
  unfolding finish_recovery
  finish_recovery-IsValid password salt db v = ground arith

  pub step-IsValid : (db : Db) (c : Call) → IsValid db → IsValid (step crypto db c)
  unfolding step
  step-IsValid db (begins_login password now) v = begin_login-IsValid password now db v
  step-IsValid db (finishes_login password account random now) v =
      finish_login-IsValid password account random now db v
  step-IsValid db (validates token now) v = is_valid_session-IsValid token now db v
  step-IsValid db (revokes token) v = revoke_session-IsValid token db v
  step-IsValid db (bootstraps password salt) v = bootstrap_owner-IsValid password salt db v
  step-IsValid db (begins_recovery password) v = begin_recovery-IsValid password db v
  step-IsValid db (finishes_recovery password salt) v = finish_recovery-IsValid password salt db v

  pub run-IsValid : (db : Db) (cs : List Call) → IsValid db → IsValid (run crypto db cs)
  unfolding run
  run-IsValid db [] v = v
  run-IsValid db (c ∷ cs) v = run-IsValid (step crypto db c) cs (step-IsValid db c v)

  -- From the empty database, whatever calls are made in whatever order and at whatever times: at
  -- most five login attempts and thirty-two sessions are stored, the sessions' token hashes are
  -- distinct, and every session was opened under the account's present revision.
  pub run-empty_db-IsValid : (cs : List Call) → IsValid (run crypto empty_db cs)
  run-empty_db-IsValid cs = run-IsValid empty_db cs (record {
    few_attempts = omega arith;
    few_sessions = omega arith;
    distinct = tt;
    current = tt;
    positive = omega arith;
  })
