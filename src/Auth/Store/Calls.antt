-- ===== src/Auth/Store/Calls.antt =====
-- The operations of src/lib/auth-store.ts as the calls that server processes make on one database,
-- in any order: the halves of logins and recoveries interleave with all others.
use voidstation_app.Prelude.{List, Option, [], ℕ, ◌∷◌}
use voidstation_app.Auth.Store.{
  begin_login, begin_recovery, bootstrap_owner, finish_login, finish_recovery, is_valid_session,
  revoke_session,
}
use voidstation_app.Auth.Tables.{Account, Crypto, Db}

pub data Call : Type 0 where
  begins_login : List ℕ → ℕ → Call
  finishes_login : List ℕ → Account → List ℕ → ℕ → Call
  validates : Option (List ℕ) → ℕ → Call
  revokes : Option (List ℕ) → Call
  bootstraps : List ℕ → List ℕ → Call
  begins_recovery : List ℕ → Call
  finishes_recovery : List ℕ → List ℕ → Call

-- The database after a call.
unfoldable pub step : Crypto → Db → Call → Db
step crypto db (begins_login password now) = (begin_login password now db).1
step crypto db (finishes_login password account random now) =
    (finish_login crypto password account random now db).1
step crypto db (validates token now) = (is_valid_session crypto token now db).1
step crypto db (revokes token) = (revoke_session crypto token db).1
step crypto db (bootstraps password salt) = (bootstrap_owner crypto password salt db).1
step crypto db (begins_recovery password) = (begin_recovery password db).1
step crypto db (finishes_recovery password salt) = (finish_recovery crypto password salt db).1

unfoldable pub run : Crypto → Db → List Call → Db
run crypto db [] = db
run crypto db (c ∷ cs) = run crypto (step crypto db c) cs
