-- ===== src/Auth/Store.antt =====
-- src/lib/auth-store.ts: the operations on the authentication database. Times are milliseconds, read
-- once where the code calls `Date.now()`, and passed as arguments; a password is its UTF-8 bytes, a
-- token its code units. The awaited scrypt call cuts a login and a recovery in two, and other calls
-- may run between the halves.
pub mod Calls
pub mod Rules
pub mod Retry
pub mod Sessions
pub mod Provenance
pub mod Recovery
mod Examples
pub mod Limit
pub mod RateLimit
pub mod Invariant
pub use voidstation_app.Sqlite.{Outcome, done, threw, Statement, ◌>>=◌, ◌>>◌, pure}
unfoldable pub use voidstation_app.Sqlite.{transaction}
use voidstation_app.Prelude.{
  Bool, List, Option, [], all, any, false, filter, if◌then◌else◌, leb, length, none, not, some, ℕ,
  ◌&&◌, ◌+◌, ◌==◌, ◌=b◌, ◌||◌,
}
use voidstation_app.Auth.Tables.{
  Account, Crypto, Reservation, SessionRow, Sql, accepts_password, insert_session, is_live,
  kept_sessions, limited, new_session, read_account, reserve_login_attempt, reserved, same_hash,
  scrypt_key_bytes, scrypt_salt_bytes, session_token_length,
}

-- [A-Za-z0-9_-]
abbrev pub is_token_char : ℕ → Bool
is_token_char c =
    (leb b'A' c && leb c b'Z')
    || (leb b'a' c && leb c b'z')
    || (leb b'0' c && leb c b'9')
    || c == b'_'
    || c == b'-'

pub data LoginResult : Type 0 where
  ok : List ℕ → LoginResult
  invalid : LoginResult
  too_many : ℕ → LoginResult

-- The first half of `authenticateOwner` ends, or waits for the hash of the password with the salt of
-- the account that it has read.
pub data Begun : Type 0 where
  ended : LoginResult → Begun
  waiting : Account → Begun

pub data OwnerAccountResult : Type 0 where
  created exists recovered missing refused : OwnerAccountResult

-- The CHECKs of owner_account.
abbrev pub fits_account : List ℕ → List ℕ → Bool
fits_account hash salt = length hash == scrypt_key_bytes && length salt == scrypt_salt_bytes

begin_account : Option Account → Begun
begin_account none = ended invalid
begin_account (some account) = waiting account

after_reservation : List ℕ → Reservation → Sql Begun
after_reservation password (limited n) = pure (ended (too_many n))
after_reservation password reserved =
    if accepts_password password
    then (read_account >>= λ account. pure (begin_account account))
    else pure (ended invalid)

-- `authenticateOwner`, up to `await deriveHash`.
unfoldable pub begin_login : List ℕ → ℕ → Sql Begun
unfolding after_reservation begin_account reserve_login_attempt
begin_login password now = do
  reservation ← reserve_login_attempt now
  after_reservation password reservation

unfoldable pub create_session : Crypto → ℕ → List ℕ → ℕ → Sql (List ℕ)
create_session crypto revision random now db =
    let token = crypto.base64url random in
    let row = new_session (crypto.sha256 token) revision now in
    let db' = record db { owner_session = kept_sessions now db.owner_session } in
    (insert_session row >>= λ _. pure token) db'

grant_session : Crypto → Account → List ℕ → ℕ → Option Account → Sql LoginResult
grant_session crypto account random now none = pure invalid
grant_session crypto account random now (some current) =
    if current.revision == account.revision
    then (create_session crypto current.revision random now >>= λ token. pure (ok token))
    else pure invalid

-- `authenticateOwner` from the derived hash on, for the account that the first half has read.
unfoldable pub finish_login : Crypto → List ℕ → Account → List ℕ → ℕ → Sql LoginResult
unfolding grant_session transaction create_session
finish_login crypto password account random now = elim (crypto.scrypt password account.salt) [
  | none ↦ (λ db. (threw, db))
  | some derived ↦
      if same_hash derived account.password_hash
      then (transaction
          (read_account >>= λ current. grant_session crypto account random now current))
      else pure invalid
]

-- `tokenDigest`; `undefined` and a malformed token have none.
unfoldable pub token_digest : Crypto → Option (List ℕ) → Option (List ℕ)
token_digest crypto none = none
token_digest crypto (some token) =
    if all is_token_char token && length token == session_token_length
    then some (crypto.sha256 token)
    else none

-- The SELECT of `isValidSession`, with its join on the account's revision.
abbrev pub admits : Option Account → List ℕ → ℕ → SessionRow → Bool
admits none digest now row = false
admits (some account) digest now row =
    account.revision == row.account_revision && row.token_hash =b digest && is_live now row

validate_digest : ℕ → Option (List ℕ) → Sql Bool
validate_digest now none db = (done false, db)
validate_digest now (some digest) db =
    let live = filter (is_live now) db.owner_session in
    (done (any (admits db.owner_account digest now) live), record db { owner_session = live })

unfoldable pub is_valid_session : Crypto → Option (List ℕ) → ℕ → Sql Bool
unfolding validate_digest
is_valid_session crypto token now = validate_digest now (token_digest crypto token)

-- DELETE FROM owner_session WHERE token_hash = ?
abbrev pub without_digest : List ℕ → List SessionRow → List SessionRow
without_digest digest rows = filter (λ row. not (row.token_hash =b digest)) rows

revoke_digest : Option (List ℕ) → Sql (Unit {0})
revoke_digest none db = (done tt, db)
revoke_digest (some digest) db =
    (done tt, record db { owner_session = without_digest digest db.owner_session })

unfoldable pub revoke_session : Crypto → Option (List ℕ) → Sql (Unit {0})
unfolding revoke_digest
revoke_session crypto token = revoke_digest (token_digest crypto token)

-- The INSERT of `bootstrapOwner` with its two DELETEs.
create_account : List ℕ → List ℕ → Option Account → Sql OwnerAccountResult
create_account hash salt (some _) db = (done exists, db)
create_account hash salt none db =
    if fits_account hash salt
    then (
      done created,
      record {
        owner_account = some (record { password_hash = hash; salt = salt; revision = 1 });
        login_attempt = [];
        owner_session = [];
      },
    )
    else (threw, db)

unfoldable pub bootstrap_owner : Crypto → List ℕ → List ℕ → Sql OwnerAccountResult
unfolding create_account transaction
bootstrap_owner crypto password salt =
    if accepts_password password
    then (elim (crypto.scrypt password salt) [
      | none ↦ (λ db. (threw, db))
      | some hash ↦ transaction (read_account >>= λ account. create_account hash salt account)
    ])
    else pure refused

-- `recoverOwner`, up to `await deriveHash`; `none` waits for the hash.
unfoldable pub begin_recovery : List ℕ → Sql (Option OwnerAccountResult)
begin_recovery password db =
    if accepts_password password
    then elim db.owner_account [ none ↦ (done (some missing), db) | some _ ↦ (done none, db) ]
    else (done (some refused), db)

replace_account : List ℕ → List ℕ → Option Account → Sql OwnerAccountResult
replace_account hash salt none db = (done missing, db)
replace_account hash salt (some account) db =
    if fits_account hash salt
    then (
      done recovered,
      record {
        owner_account =
            some (record { password_hash = hash; salt = salt; revision = account.revision + 1 });
        login_attempt = [];
        owner_session = [];
      },
    )
    else (threw, db)

unfoldable pub finish_recovery : Crypto → List ℕ → List ℕ → Sql OwnerAccountResult
unfolding replace_account transaction
finish_recovery crypto password salt = elim (crypto.scrypt password salt) [
  | none ↦ (λ db. (threw, db))
  | some hash ↦ transaction (read_account >>= λ account. replace_account hash salt account)
]

-- `authenticateOwner` where nothing runs between its halves.
continue_login : Crypto → List ℕ → List ℕ → ℕ → Begun → Sql LoginResult
continue_login crypto password random now (ended r) = pure r
continue_login crypto password random now (waiting account) =
    finish_login crypto password account random now

unfoldable pub authenticate_owner : Crypto → List ℕ → List ℕ → ℕ → ℕ → Sql LoginResult
unfolding continue_login
authenticate_owner crypto password random start end = do
  begun ← begin_login password start
  continue_login crypto password random end begun
