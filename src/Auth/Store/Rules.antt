-- ===== src/Auth/Store/Rules.antt =====
-- Rules for the transactions of src/lib/auth-store.ts: what an operation may leave behind.
use voidstation_app.Sqlite.{
  Outcome, close_transaction, done, pure, state-bind_pure, threw, transaction_keeps, ◌>>=◌,
}
use voidstation_app.Prelude.{
  =b→eq, Bool-cases, List, Option, Option-cases, [], ap, arith, false, filter, inl, inr, none, refl,
  some, sym, true, ℕ, ◌++◌, ◌==◌, ◌∙◌, ◌∷◌, ◌≡◌,
}
use voidstation_app.Auth.Store.{
  LoginResult, create_session, finish_login, grant_session, is_valid_session, ok, revoke_digest,
  revoke_session, token_digest, validate_digest, without_digest,
}
use voidstation_app.Auth.Tables.{
  Account, Crypto, Db, SessionRow, Sql, insert_session, is_live, kept_sessions, may_insert,
  new_session, read_account, same_hash,
}

module _ {ℓ} (P : Db → Type ℓ) where
  module _ (crypto : Crypto) (account : Account) (random : List ℕ) (now : ℕ) where
    grant_session_keeps :
        (current : Option Account) (db : Db)
        → db.owner_account ≡ current
        → P db
        → ((c : Account)
            → db.owner_account ≡ some c
            → c.revision ≡ account.revision
            → P (create_session crypto c.revision random now db).1)
        → P (grant_session crypto account random now current db).1
    unfolding grant_session
    grant_session_keeps none db e v w = v
    grant_session_keeps (some c) db e v w = elim (Bool-cases (c.revision == account.revision)) [
      | inr miss ↦ rw miss v
      | inl hit ↦
          rw (hit, state-bind_pure (create_session crypto c.revision random now) ok db)
            (w c e (ground arith))
    ]

    -- A login's second half changes the tables by `createSession` alone, and calls it only if the
    -- password's hash is that of the account it read, whose revision is still the present one.
    pub finish_login_keeps :
        (password : List ℕ) (db : Db)
        → P db
        → ((c : Account)
            → crypto.scrypt password account.salt ≡ some account.password_hash
            → db.owner_account ≡ some c
            → c.revision ≡ account.revision
            → P (create_session crypto c.revision random now db).1)
        → P (finish_login crypto password account random now db).1
    unfolding finish_login
    finish_login_keeps password db v w = elim (Option-cases (crypto.scrypt password account.salt)) [
      | inl e ↦ rw (e, finish_login) v
      | inr (d, e) ↦ elim (Bool-cases (same_hash d account.password_hash)) [
        | inr miss ↦ rw (e, finish_login, miss) v
        | inl hit ↦
            let same : d ≡ account.password_hash = =b→eq d account.password_hash (ground arith) in
            rw (e, finish_login, hit)
              (transaction_keeps P
                (read_account >>= λ current. grant_session crypto account random now current) db v
                (grant_session_keeps db.owner_account db refl v (λ c. w c (e ∙ ap some same))))
      ]
    ]

-- What a successful login has found and done.
pub record Granted (crypto : Crypto) (account : Account) (random : List ℕ) (now : ℕ)
    (password token : List ℕ) (db after : Db) : Type 0 where
  pub present : Account
  pub found : db.owner_account ≡ some present
  pub hashed : crypto.scrypt password account.salt ≡ some account.password_hash
  pub same_revision : present.revision ≡ account.revision
  pub token_lem : token ≡ crypto.base64url random
  pub inserted :
      may_insert
        (new_session (crypto.sha256 token) present.revision now)
        (kept_sessions now db.owner_session)
      ≡ true
  pub after_lem : after ≡ record db {
    owner_session =
        kept_sessions now db.owner_session
        ++ new_session (crypto.sha256 token) present.revision now ∷ [];
  }

insert_session_done :
    (row : SessionRow) (db : Db)
    → may_insert row db.owner_session ≡ true
    → insert_session row db ≡ (done tt, record db { owner_session = db.owner_session ++ row ∷ [] })
unfolding insert_session
insert_session_done row db h = rw h refl

insert_session_threw :
    (row : SessionRow) (db : Db)
    → may_insert row db.owner_session ≡ false
    → insert_session row db ≡ (threw, db)
unfolding insert_session
insert_session_threw row db h = rw h refl

module _ (crypto : Crypto) (random : List ℕ) (now : ℕ) where
  abbrev row_of : ℕ → SessionRow
  row_of revision = new_session (crypto.sha256 (crypto.base64url random)) revision now

  abbrev opened : ℕ → Db → Db
  opened revision db = record db {
    owner_session = kept_sessions now db.owner_session ++ row_of revision ∷ [];
  }

  pub create_session_done :
      (revision : ℕ) (db : Db)
      → may_insert (row_of revision) (kept_sessions now db.owner_session) ≡ true
      → create_session crypto revision random now db
        ≡ (done (crypto.base64url random), opened revision db)
  unfolding create_session
  create_session_done revision db h = ground (
    arith,
    insert_session_done (row_of revision)
        (record db { owner_session = kept_sessions now db.owner_session }) h,
  )

  create_session_threw :
      (revision : ℕ) (db : Db)
      → may_insert (row_of revision) (kept_sessions now db.owner_session) ≡ false
      → create_session crypto revision random now db
        ≡ (threw, record db { owner_session = kept_sessions now db.owner_session })
  unfolding create_session
  create_session_threw revision db h = ground (
    arith,
    insert_session_threw (row_of revision)
        (record db { owner_session = kept_sessions now db.owner_session }) h,
  )

  create_session_ok :
      (revision : ℕ) (token : List ℕ) (db after : Db)
      → create_session crypto revision random now db ≡ (done token, after)
      → (token ≡ crypto.base64url random)
        × (may_insert (row_of revision) (kept_sessions now db.owner_session) ≡ true)
        × (after ≡ opened revision db)
  create_session_ok revision token db after e =
      elim (Bool-cases (may_insert (row_of revision) (kept_sessions now db.owner_session))) [
        | inl h ↦ let q = sym e ∙ create_session_done revision db h in (cc q, h, cc q)
        | inr h ↦
            cc
              (ap (λ (r : Outcome (List ℕ) × Db). r.0) (sym e ∙ create_session_threw revision db h))
      ]

module _ (crypto : Crypto) (account : Account) (random : List ℕ) (now : ℕ) where
  bind_ok :
      (m : Sql (List ℕ)) (token : List ℕ) (db after : Db)
      → (m >>= λ t. pure (ok t)) db ≡ (done (ok token), after)
      → m db ≡ (done token, after)
  bind_ok m token db after e = ground arith

  close_transaction_ok :
      (before after : Db) (r : Outcome LoginResult × Db) (token : List ℕ)
      → close_transaction before r ≡ (done (ok token), after)
      → r ≡ (done (ok token), after)
  close_transaction_ok before after (done a, x) token e = e
  close_transaction_ok before after (threw, x) token e =
      cc (ap (λ (r : Outcome LoginResult × Db). r.0) e)

  grant_session_ok :
      (current : Option Account) (token : List ℕ) (db after : Db)
      → grant_session crypto account random now current db ≡ (done (ok token), after)
      → (c : Account) × (current ≡ some c)
        × (c.revision ≡ account.revision)
        × (create_session crypto c.revision random now db ≡ (done token, after))
  unfolding grant_session
  grant_session_ok none token db after e = cc (ap (λ (r : Outcome LoginResult × Db). r.0) e)
  grant_session_ok (some c) token db after e = elim (Bool-cases (c.revision == account.revision)) [
    | inr miss ↦ cc (ap (λ (r : Outcome LoginResult × Db). r.0) (rw miss at e))
    | inl hit ↦ (
      c,
      refl,
      ground arith,
      bind_ok (create_session crypto c.revision random now) token db after (rw hit at e),
    )
  ]

  pub finish_login_ok :
      (password token : List ℕ) (db after : Db)
      → finish_login crypto password account random now db ≡ (done (ok token), after)
      → Granted crypto account random now password token db after
  unfolding finish_login
  finish_login_ok password token db after e =
      elim (Option-cases (crypto.scrypt password account.salt)) [
        | inl f ↦ cc (ap (λ (r : Outcome LoginResult × Db). r.0) (rw (f, finish_login) at e))
        | inr (d, f) ↦ elim (Bool-cases (same_hash d account.password_hash)) [
          | inr miss ↦
              cc (ap (λ (r : Outcome LoginResult × Db). r.0) (rw (f, finish_login, miss) at e))
          | inl hit ↦
              let (c, found, same, made) = grant_session_ok db.owner_account token db after (
                close_transaction_ok db after
                  (grant_session crypto account random now db.owner_account db) token
                  (rw (f, finish_login, hit) at e)) in
              let (t, inserted, final) =
                create_session_ok crypto random now c.revision token db after made in
              record {
                present = c;
                found = found;
                hashed = f ∙ ap some (=b→eq d account.password_hash (ground arith));
                same_revision = same;
                token_lem = t;
                inserted = rw t inserted;
                after_lem = rw t final;
              }
        ]
      ]

module _ {ℓ} (P : Db → Type ℓ) (crypto : Crypto) (db : Db) (v : P db) where
  pub is_valid_session_keeps :
      (token : Option (List ℕ)) (now : ℕ)
      → P (record db { owner_session = filter (is_live now) db.owner_session })
      → P (is_valid_session crypto token now db).1
  unfolding is_valid_session
  is_valid_session_keeps token now w = elim (Option-cases (token_digest crypto token)) [
    | inl e ↦ rw (e, validate_digest) v
    | inr (d, e) ↦ rw (e, validate_digest) w
  ]

  pub revoke_session_keeps :
      (token : Option (List ℕ))
      → ((digest : List ℕ)
          → P (record db { owner_session = without_digest digest db.owner_session }))
      → P (revoke_session crypto token db).1
  unfolding revoke_session
  revoke_session_keeps token w = elim (Option-cases (token_digest crypto token)) [
    | inl e ↦ rw (e, revoke_digest) v
    | inr (d, e) ↦ rw (e, revoke_digest) (w d)
  ]

  pub create_session_keeps :
      (revision : ℕ) (random : List ℕ) (now : ℕ)
      → P (record db { owner_session = kept_sessions now db.owner_session })
      → P (record db {
        owner_session =
            kept_sessions now db.owner_session
            ++ new_session (crypto.sha256 (crypto.base64url random)) revision now ∷ [];
      })
      → P (create_session crypto revision random now db).1
  create_session_keeps revision random now kept made =
      elim (Bool-cases
        (may_insert (row_of crypto random now revision) (kept_sessions now db.owner_session))) [
          | inl h ↦ rw (create_session_done crypto random now revision db h) made
          | inr h ↦ rw (create_session_threw crypto random now revision db h) kept
        ]
