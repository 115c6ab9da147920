-- ===== src/Auth/Tables.antt =====
-- The three tables of src/lib/auth-store.ts: their rows, the limits on them, and the statements that
-- the operations are made of.
use voidstation_app.Sqlite.{Statement, done, threw, transaction}
use voidstation_app.Prelude.{
  Bool, List, Option, [], any, bytes_leb, drop, filter, if◌then◌else◌, leb, length, ltb, none, not,
  sort_by, ℕ, ◌&&◌, ◌*◌, ◌++◌, ◌+◌, ◌-◌, ◌/◌, ◌==◌, ◌=b◌, ◌||◌, ◌∷◌,
}

pub record Account : Type 0 where
  pub password_hash : List ℕ
  pub salt : List ℕ
  pub revision : ℕ

pub record SessionRow : Type 0 where
  pub token_hash : List ℕ
  pub expires_at_ms : ℕ
  pub issued_at_ms : ℕ
  pub account_revision : ℕ

-- `owner_account` has at most one row, whose name is 'owner'.
pub record Db : Type 0 where
  pub owner_account : Option Account
  pub login_attempt : List ℕ
  pub owner_session : List SessionRow

-- node:crypto. `none` is the error that scrypt's callback reports.
pub record Crypto : Type 0 where
  pub scrypt : List ℕ → List ℕ → Option (List ℕ)
  pub sha256 : List ℕ → List ℕ
  pub base64url : List ℕ → List ℕ

abbrev pub session_max_age_seconds : ℕ
session_max_age_seconds = 28800

abbrev pub password_minimum_bytes : ℕ
password_minimum_bytes = 12

abbrev pub password_maximum_bytes : ℕ
password_maximum_bytes = 1024

abbrev pub session_limit : ℕ
session_limit = 32

abbrev pub session_token_bytes : ℕ
session_token_bytes = 32

abbrev pub session_token_length : ℕ
session_token_length = 43

abbrev pub rate_limit_attempts : ℕ
rate_limit_attempts = 5

abbrev pub rate_limit_window_ms : ℕ
rate_limit_window_ms = 15 * 60 * 1000

abbrev pub scrypt_key_bytes : ℕ
scrypt_key_bytes = 64

abbrev pub scrypt_salt_bytes : ℕ
scrypt_salt_bytes = 16

abbrev pub empty_db : Db
empty_db = record { owner_account = none; login_attempt = []; owner_session = [] }

abbrev pub Sql : Type 0 → Type 0
Sql A = Statement Db A

-- SELECT password_hash, salt, revision FROM owner_account WHERE name = 'owner'
abbrev pub read_account : Sql (Option Account)
read_account db = (done db.owner_account, db)

abbrev pub accepts_password : List ℕ → Bool
accepts_password password =
    leb password_minimum_bytes (length password) && leb (length password) password_maximum_bytes

-- `timingSafeEqual` compares buffers of one length.
abbrev pub same_hash : List ℕ → List ℕ → Bool
same_hash left right = length left == length right && left =b right

-- DELETE FROM login_attempt WHERE attempted_at_ms <= now - window
abbrev pub is_recent : ℕ → ℕ → Bool
is_recent now attempt = ltb now (attempt + rate_limit_window_ms)

-- ceil(ms / 1000), and at least 1
abbrev pub retry_after : ℕ → ℕ → ℕ
retry_after now first =
    let wait : ℕ = (first + rate_limit_window_ms - now + 999) / 1000 in
    if leb wait 1 then 1 else wait

pub data Reservation : Type 0 where
  reserved : Reservation
  limited : ℕ → Reservation

-- The oldest attempt, by ORDER BY attempted_at_ms ASC; there is one wherever the list is full.
abbrev pub oldest : List ℕ → ℕ
oldest attempts = elim (sort_by leb attempts) [ [] ↦ 0 | first ∷ _ ↦ first ]

unfoldable pub reserve_rows : ℕ → Sql Reservation
reserve_rows now db =
    let recent = filter (is_recent now) db.login_attempt in
    if leb rate_limit_attempts (length recent)
    then (done (limited (retry_after now (oldest recent))), record db { login_attempt = recent })
    else (done reserved, record db { login_attempt = recent ++ now ∷ [] })

unfoldable pub reserve_login_attempt : ℕ → Sql Reservation
unfolding reserve_rows transaction
reserve_login_attempt now = transaction (reserve_rows now)

-- ORDER BY issued_at_ms ASC, token_hash ASC
abbrev pub issued_before : SessionRow → SessionRow → Bool
issued_before a b =
    ltb a.issued_at_ms b.issued_at_ms
    || (a.issued_at_ms == b.issued_at_ms && bytes_leb a.token_hash b.token_hash)

-- `token_hash IN (…)`
abbrev pub has_hash_in : List SessionRow → SessionRow → Bool
has_hash_in rows row = any (λ r. r.token_hash =b row.token_hash) rows

abbrev pub is_live : ℕ → SessionRow → Bool
is_live now row = ltb now row.expires_at_ms

-- The rows past the first `session_limit - 1` of the order.
abbrev pub beyond_limit : List SessionRow → List SessionRow
beyond_limit rows = drop (session_limit - 1) (sort_by issued_before rows)

abbrev pub within_limit : List SessionRow → List SessionRow
within_limit rows = filter (λ row. not (has_hash_in (beyond_limit rows) row)) rows

-- The CHECKs of owner_session, and its primary key.
abbrev pub may_insert : SessionRow → List SessionRow → Bool
may_insert row rows =
    length row.token_hash == session_token_bytes
    && leb 1 row.account_revision
    && not (has_hash_in rows row)

unfoldable pub insert_session : SessionRow → Sql (Unit {0})
insert_session row db =
    if may_insert row db.owner_session
    then (done tt, record db { owner_session = db.owner_session ++ row ∷ [] })
    else (threw, db)

abbrev pub new_session : List ℕ → ℕ → ℕ → SessionRow
new_session hash revision now = record {
  token_hash = hash;
  expires_at_ms = now + session_max_age_seconds * 1000;
  issued_at_ms = now;
  account_revision = revision;
}

-- The sessions that a login leaves in place.
abbrev pub kept_sessions : ℕ → List SessionRow → List SessionRow
kept_sessions now rows = within_limit (filter (is_live now) rows)
