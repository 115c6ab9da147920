-- ===== src/Auth/Store/Provenance.antt =====
-- Where sessions come from: only a login with the right password opens one (src/lib/auth-store.ts).
use voidstation_app.Prelude.{
  =b_refl, All, All-append, All-filter, List, [], arith, filter, inl, inr, not, some, true, ℕ, ◌=b◌,
  ◌∷◌, ◌≡◌, ◌⊎◌,
}
use voidstation_app.Auth.Store.{
  begin_login, begin_recovery, bootstrap_owner, create_session, finish_recovery,
}
use voidstation_app.Auth.Tables.{
  Account, Crypto, Db, SessionRow, beyond_limit, has_hash_in, is_live, kept_sessions,
}
use voidstation_app.Auth.Store.Calls.{
  Call, begins_login, begins_recovery, bootstraps, finishes_login, finishes_recovery, revokes, step,
  validates,
}
use voidstation_app.Auth.Store.Rules.{
  create_session_keeps, finish_login_keeps, is_valid_session_keeps, revoke_session_keeps,
}

-- The session stood in the table before.
abbrev pub WasThere : List SessionRow → SessionRow → Type 0
WasThere rows row = has_hash_in rows row ≡ true

All-mono {ℓ κ} :
    {A : Type ℓ} (P Q : A → Type κ) (xs : List A) → ((a : A) → P a → Q a) → All P xs → All Q xs
All-mono P Q [] f h = tt
All-mono P Q (x ∷ xs) f (p, h) = (f x p, All-mono P Q xs f h)

All-WasThere : (rows : List SessionRow) → All (WasThere rows) rows
All-WasThere [] = tt
All-WasThere (r ∷ rows) = (
  ground (arith, =b_refl r.token_hash),
  All-mono (WasThere rows) (WasThere (r ∷ rows)) rows (λ a h. ground arith) (All-WasThere rows),
)

-- The call is the second half of a login whose password hashes, under the salt of the account that
-- it has read, to that account's hash, while the account's revision is still the present one.
abbrev pub IsGoodLogin : Crypto → Db → Call → Type 0
IsGoodLogin crypto db (finishes_login password account random now) =
    (crypto.scrypt password account.salt ≡ some account.password_hash)
    × ((c : Account) × (db.owner_account ≡ some c) × (c.revision ≡ account.revision))
IsGoodLogin crypto db _ = ⊥

old_rows : (G : Type 0) (rows : List SessionRow) → All (λ row. WasThere rows row ⊎ G) rows
old_rows G rows =
    All-mono (WasThere rows) (λ row. WasThere rows row ⊎ G) rows (λ a h. inl h) (All-WasThere rows)

module _ (crypto : Crypto) where
  abbrev pub Explained : Db → Call → Db → Type 0
  Explained db c after =
      All (λ row. WasThere db.owner_session row ⊎ IsGoodLogin crypto db c) after.owner_session

  begin_login-owner_session :
      (password : List ℕ) (now : ℕ) (db : Db)
      → (begin_login password now db).1.owner_session ≡ db.owner_session
  unfolding begin_login
  begin_login-owner_session password now db = ground arith

  begin_recovery-owner_session :
      (password : List ℕ) (db : Db)
      → (begin_recovery password db).1.owner_session ≡ db.owner_session
  unfolding begin_recovery
  begin_recovery-owner_session password db = ground arith

  bootstrap-owner_session :
      (password salt : List ℕ) (db : Db)
      → ((bootstrap_owner crypto password salt db).1.owner_session ≡ db.owner_session)
        ⊎ ((bootstrap_owner crypto password salt db).1.owner_session ≡ [])
  unfolding bootstrap_owner
  bootstrap-owner_session password salt db = ground arith

  finish_recovery-owner_session :
      (password salt : List ℕ) (db : Db)
      → ((finish_recovery crypto password salt db).1.owner_session ≡ db.owner_session)
        ⊎ ((finish_recovery crypto password salt db).1.owner_session ≡ [])
  unfolding finish_recovery
  finish_recovery-owner_session password salt db = ground arith

  kept_rows :
      (G : Type 0) (now : ℕ) (rows : List SessionRow)
      → All (λ row. WasThere rows row ⊎ G) (kept_sessions now rows)
  kept_rows G now rows =
      All-filter (λ row. WasThere rows row ⊎ G)
        (λ row. not (has_hash_in (beyond_limit (filter (is_live now) rows)) row))
        (filter (is_live now) rows)
        (All-filter (λ row. WasThere rows row ⊎ G) (is_live now) rows (old_rows G rows))

  create_session-Explained :
      (db : Db) (c : Call) (revision : ℕ) (random : List ℕ) (now : ℕ)
      → IsGoodLogin crypto db c
      → Explained db c (create_session crypto revision random now db).1
  create_session-Explained db c revision random now good =
      let kept = kept_rows (IsGoodLogin crypto db c) now db.owner_session in
      create_session_keeps (Explained db c) crypto db (old_rows _ db.owner_session) revision random
        now kept
        (All-append (λ row. WasThere db.owner_session row ⊎ IsGoodLogin crypto db c)
          (kept_sessions now db.owner_session) _ kept (inr good, tt))

  -- Whatever the call: each session after it stood in the table before, or the call ends a login with
  -- a password whose hash is that of the account it has read, at the account's present revision.
  pub step-Explained : (db : Db) (c : Call) → Explained db c (step crypto db c)
  unfolding step
  step-Explained db (begins_login password now) =
      rw (begin_login-owner_session password now db) (old_rows _ db.owner_session)
  step-Explained db (finishes_login password account random now) =
      finish_login_keeps (Explained db (finishes_login password account random now)) crypto account
        random now password db (old_rows _ db.owner_session)
        (λ c h found same.
          create_session-Explained db (finishes_login password account random now) c.revision random
            now (h, (c, found, same)))
  step-Explained db (validates token now) =
      is_valid_session_keeps (Explained db (validates token now)) crypto db
        (old_rows _ db.owner_session) token now
        (All-filter
          (λ row. WasThere db.owner_session row ⊎ IsGoodLogin crypto db (validates token now))
          (is_live now) db.owner_session (old_rows _ db.owner_session))
  step-Explained db (revokes token) =
      revoke_session_keeps (Explained db (revokes token)) crypto db (old_rows _ db.owner_session)
        token
        (λ digest.
          All-filter (λ row. WasThere db.owner_session row ⊎ IsGoodLogin crypto db (revokes token))
            (λ row. not (row.token_hash =b digest)) db.owner_session (old_rows _ db.owner_session))
  step-Explained db (bootstraps password salt) = elim (bootstrap-owner_session password salt db) [
    | inl e ↦ rw e (old_rows _ db.owner_session)
    | inr e ↦ rw e tt
  ]
  step-Explained db (begins_recovery password) =
      rw (begin_recovery-owner_session password db) (old_rows _ db.owner_session)
  step-Explained db (finishes_recovery password salt) =
      elim (finish_recovery-owner_session password salt db) [
        | inl e ↦ rw e (old_rows _ db.owner_session)
        | inr e ↦ rw e tt
      ]
