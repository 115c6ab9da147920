-- ===== src/Auth/Store/Recovery.antt =====
-- Recovery of the owner's account shuts out sessions and logins that began before it
-- (`recoverOwner` and `authenticateOwner` in src/lib/auth-store.ts).
use voidstation_app.Prelude.{
  List, Option, Option-cases, [], ap, arith, false, inl, inr, refl, some, ℕ, ◌+◌, ◌<◌, ◌∷◌, ◌≡◌,
  ◌≢◌, ◌≤◌,
}
use voidstation_app.Auth.Store.{
  begin_login, begin_recovery, bootstrap_owner, done, finish_login, finish_recovery,
  is_valid_session, ok, recovered, token_digest, validate_digest,
}
use voidstation_app.Auth.Tables.{Account, Crypto, Db}
use voidstation_app.Auth.Store.Rules.{
  create_session_keeps, finish_login_keeps, finish_login_ok, is_valid_session_keeps,
  revoke_session_keeps,
}
use voidstation_app.Auth.Store.Calls.{
  Call, begins_login, begins_recovery, bootstraps, finishes_login, finishes_recovery, revokes, run,
  step, validates,
}
use voidstation_app.Auth.Store.Invariant.{revision_of}

module _ (crypto : Crypto) where
  begin_login-owner_account :
      (password : List ℕ) (now : ℕ) (db : Db)
      → (begin_login password now db).1.owner_account ≡ db.owner_account
  unfolding begin_login
  begin_login-owner_account password now db = ground arith

  begin_recovery-owner_account :
      (password : List ℕ) (db : Db)
      → (begin_recovery password db).1.owner_account ≡ db.owner_account
  unfolding begin_recovery
  begin_recovery-owner_account password db = ground arith

  bootstrap-revision :
      (password salt : List ℕ) (db : Db)
      → revision_of db.owner_account
        ≤ revision_of (bootstrap_owner crypto password salt db).1.owner_account
  unfolding bootstrap_owner
  bootstrap-revision password salt db = ground arith

  finish_recovery-revision :
      (password salt : List ℕ) (db : Db)
      → revision_of db.owner_account
        ≤ revision_of (finish_recovery crypto password salt db).1.owner_account
  unfolding finish_recovery
  finish_recovery-revision password salt db = ground arith

  same_revision : {a b : Option Account} → b ≡ a → revision_of a ≤ revision_of b
  same_revision {a} e = rw e (omega arith)

  -- No call lowers the account's revision.
  step-revision :
      (db : Db) (c : Call)
      → revision_of db.owner_account ≤ revision_of (step crypto db c).owner_account
  unfolding step
  step-revision db (begins_login password now) =
      same_revision (begin_login-owner_account password now db)
  step-revision db (finishes_login password account random now) =
      finish_login_keeps (λ after. revision_of db.owner_account ≤ revision_of after.owner_account)
        crypto account random now password db (omega arith)
        (λ c _ _ _.
          create_session_keeps
            (λ after. revision_of db.owner_account ≤ revision_of after.owner_account) crypto db
            (omega arith) c.revision random now (omega arith) (omega arith))
  step-revision db (validates token now) =
      is_valid_session_keeps
        (λ after. revision_of db.owner_account ≤ revision_of after.owner_account) crypto db
        (omega arith) token now (omega arith)
  step-revision db (revokes token) =
      revoke_session_keeps (λ after. revision_of db.owner_account ≤ revision_of after.owner_account)
        crypto db (omega arith) token (λ digest. omega arith)
  step-revision db (bootstraps password salt) = bootstrap-revision password salt db
  step-revision db (begins_recovery password) =
      same_revision (begin_recovery-owner_account password db)
  step-revision db (finishes_recovery password salt) = finish_recovery-revision password salt db

  run-revision :
      (cs : List Call) (db : Db)
      → revision_of db.owner_account ≤ revision_of (run crypto db cs).owner_account
  unfolding run
  run-revision [] db = omega arith
  run-revision (c ∷ cs) db = omega (arith, step-revision db c, run-revision cs (step crypto db c))

  recovered_lem :
      (password salt : List ℕ) (db after : Db)
      → finish_recovery crypto password salt db ≡ (done recovered, after)
      → (after.owner_session ≡ [])
        × (after.login_attempt ≡ [])
        × (revision_of after.owner_account ≡ revision_of db.owner_account + 1)
  unfolding finish_recovery
  recovered_lem password salt db after e = ground arith

  -- A login that read its account before a recovery succeeded cannot end well after it, whatever
  -- calls run in between and whatever the password: it changes nothing and returns no token.
  pub finish_login-recovered :
      (db mid : Db) (account : Account) (before later : List Call)
      (new_password salt password random : List ℕ) (now : ℕ)
      → db.owner_account ≡ some account
      → finish_recovery crypto new_password salt (run crypto db before) ≡ (done recovered, mid)
      → ((finish_login crypto password account random now (run crypto mid later)).1
          ≡ run crypto mid later)
        × ((token : List ℕ)
            → (finish_login crypto password account random now (run crypto mid later)).0
              ≢ done (ok token))
  finish_login-recovered db mid account before later new_password salt password random now read e =
      let end = run crypto mid later in
      let ahead : account.revision < revision_of end.owner_account = omega (
        arith,
        ap revision_of read,
        run-revision before db,
        (recovered_lem new_password salt (run crypto db before) mid e).2,
        run-revision later mid,
      ) in
      let stale : (c : Account) → end.owner_account ≡ some c → c.revision ≡ account.revision → ⊥ =
        λ c found same. omega (arith, ap revision_of found) in
      (
        finish_login_keeps (λ after. after ≡ end) crypto account random now password end refl
            (λ c _ found same. absurd (stale c found same)),
        λ token won.
            let g =
              finish_login_ok crypto account random now password token end _
                (λ i. (won i, (finish_login crypto password account random now end).1)) in
            stale g.present g.found g.same_revision,
      )

  -- A recovery that succeeds leaves no session that `isValidSession` accepts, at any time and for
  -- any token, and empties the login limiter.
  pub is_valid_session-recovered :
      (password salt : List ℕ) (db after : Db) (token : Option (List ℕ)) (now : ℕ)
      → finish_recovery crypto password salt db ≡ (done recovered, after)
      → ((is_valid_session crypto token now after).0 ≡ done false) × (after.login_attempt ≡ [])
  unfolding is_valid_session
  is_valid_session-recovered password salt db after token now e =
      let (none_left, no_attempts, _) = recovered_lem password salt db after e in
      (
        elim (Option-cases (token_digest crypto token)) [
          | inl f ↦ rw (f, validate_digest) refl
          | inr (d, f) ↦ rw (f, validate_digest, none_left) refl
        ],
        no_attempts,
      )
