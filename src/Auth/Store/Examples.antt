-- ===== src/Auth/Store/Examples.antt =====
-- A small instance of node:crypto, and the theorems on the authentication database at inputs.
use voidstation_app.Prelude.{
  List, [], all, ap, arith, codes, false, filter, length, length-append, length-take, ltb, map,
  refl, replicate, some, sort_by, suc, take, true, ℕ, ◌%◌, ◌*◌, ◌++◌, ◌+◌, ◌=b◌, ◌∷◌, ◌≡◌, ◌≢◌, ◌≤◌,
}
use voidstation_app.Auth.Store.{
  begin_login, done, finish_login, finish_recovery, is_token_char, is_valid_session, ok,
  revoke_session, token_digest,
}
use voidstation_app.Auth.Tables.{
  Account, Crypto, Db, empty_db, insert_session, is_recent, new_session, reserve_login_attempt,
  reserved,
}
use voidstation_app.Auth.Store.Calls.{
  Call, begins_login, bootstraps, finishes_login, revokes, run, step, validates,
}
use voidstation_app.Auth.Store.Invariant.{IsValid, run-empty_db-IsValid}
use voidstation_app.Auth.Store.RateLimit.{
  AtMostFive, hash_of, login_hashes, login_hashes-AtMostFive,
}
use voidstation_app.Auth.Store.Retry.{reserve-retry_after}
use voidstation_app.Auth.Store.Sessions.{
  IsBase64url, is_valid_session-finish_login, is_valid_session-revoke_session,
}
use voidstation_app.Auth.Store.Provenance.{Explained, step-Explained}
use voidstation_app.Auth.Store.Recovery.{finish_login-recovered, is_valid_session-recovered}

abbrev letter : ℕ → ℕ
letter b = b'a' + b % 26

abbrev toy : Crypto
toy = record {
  scrypt = λ password salt. some (replicate 64 (length password));
  sha256 = λ token. take 32 token;
  base64url = λ random. map letter (random ++ take 11 random);
}

all-letters : (bytes : List ℕ) → all is_token_char (map letter bytes) ≡ true
all-letters [] = refl
all-letters (b ∷ bytes) = ground (arith, all-letters bytes)

length-letters : (bytes : List ℕ) → length (map letter bytes) ≡ length bytes
length-letters [] = refl
length-letters (b ∷ bytes) = ap suc (length-letters bytes)

toy-IsBase64url : IsBase64url toy
toy-IsBase64url = record {
  alphabet = λ random h. all-letters (random ++ take 11 random);
  size = λ random h. omega (
    arith,
    length-letters (random ++ take 11 random),
    length-append random (take 11 random),
    length-take 11 random,
  );
}

abbrev lead : List ℕ → ℕ
lead [] = 0
lead (b ∷ bytes) = b

abbrev password : List ℕ
password = codes "correct horse"

abbrev salt : List ℕ
salt = replicate 16 7

abbrev owner : Account
owner = record { password_hash = replicate 64 13; salt = salt; revision = 1 }

abbrev random : List ℕ
random = replicate 32 4

abbrev token : List ℕ
token = replicate 43 b'e'

abbrev bare : Db
bare = record { owner_account = some owner; login_attempt = []; owner_session = [] }

abbrev signed_in : Db
signed_in = record bare { owner_session = new_session (replicate 32 b'e') 1 1000 ∷ [] }

abbrev script : List Call
script =
    bootstraps password salt
    ∷ begins_login password 10
    ∷ finishes_login password owner random 12
    ∷ validates (some token) 20
    ∷ revokes (some token)
    ∷ []

run-empty_db-IsValid_example : IsValid (run toy empty_db script)
run-empty_db-IsValid_example = run-empty_db-IsValid toy script

abbrev burst : List Call
burst =
    begins_login password 1
    ∷ begins_login password 2
    ∷ begins_login password 3
    ∷ begins_login password 4
    ∷ begins_login password 5
    ∷ begins_login password 6
    ∷ []

-- The sixth login of the burst is not hashed.
burst_hashes : login_hashes toy bare burst [] ≡ 5 ∷ 4 ∷ 3 ∷ 2 ∷ 1 ∷ []
unfolding login_hashes step begin_login hash_of sort_by
burst_hashes = refl

login_hashes-AtMostFive_example : AtMostFive (login_hashes toy bare burst [])
login_hashes-AtMostFive_example = login_hashes-AtMostFive toy bare burst 0 (omega arith)

abbrev crowded : Db
crowded = record bare { login_attempt = 1000 ∷ 2000 ∷ 3000 ∷ 4000 ∷ 5000 ∷ [] }

crowded-IsValid : IsValid crowded
crowded-IsValid = record {
  few_attempts = omega arith;
  few_sessions = omega arith;
  distinct = tt;
  current = tt;
  positive = omega arith;
}

reserve-retry_after_example :
    (1 ≤ 891)
    × ((reserve_login_attempt 10000 crowded).1
        ≡ record crowded { login_attempt = filter (is_recent 10000) crowded.login_attempt })
    × ((reserve_login_attempt (10000 + 891 * 1000) (reserve_login_attempt 10000 crowded).1).0
        ≡ done reserved)
unfolding reserve_login_attempt sort_by
reserve-retry_after_example = reserve-retry_after 10000 crowded 891 crowded-IsValid refl

is_valid_session-finish_login_example :
    (is_valid_session toy (some token) 2000 signed_in).0 ≡ done (ltb 2000 (1000 + 28800 * 1000))
unfolding finish_login insert_session ◌=b◌ sort_by
is_valid_session-finish_login_example =
    is_valid_session-finish_login toy password owner random 1000 token bare signed_in 2000
      toy-IsBase64url refl refl

is_valid_session-revoke_session_example :
    ((is_valid_session toy (some token) 2000 (revoke_session toy (some token) signed_in).1).0
      ≡ done false)
    × ((is_valid_session toy
          (some (replicate 43 b'f'))
          2000
          (revoke_session toy (some token) signed_in).1).0
        ≡ (is_valid_session toy (some (replicate 43 b'f')) 2000 signed_in).0)
unfolding token_digest
is_valid_session-revoke_session_example =
    is_valid_session-revoke_session toy token (replicate 32 b'e') signed_in refl 2000
      (replicate 43 b'f') (replicate 32 b'f') refl (λ e. omega (arith, ap lead e))

step-Explained_example :
    Explained toy bare
      (finishes_login password owner random 1000)
      (step toy bare (finishes_login password owner random 1000))
step-Explained_example = step-Explained toy bare (finishes_login password owner random 1000)

abbrev reset : Db
reset = record {
  owner_account = some (record { password_hash = replicate 64 13; salt = salt; revision = 2 });
  login_attempt = [];
  owner_session = [];
}

finish_login-recovered_example :
    ((finish_login toy password owner random 50 (run toy reset [])).1 ≡ run toy reset [])
    × ((t : List ℕ)
        → (finish_login toy password owner random 50 (run toy reset [])).0 ≢ done (ok t))
unfolding finish_recovery run
finish_login-recovered_example =
    finish_login-recovered toy signed_in reset owner [] [] password salt password random 50 refl
      refl

is_valid_session-recovered_example :
    ((is_valid_session toy (some token) 2000 reset).0 ≡ done false) × (reset.login_attempt ≡ [])
unfolding finish_recovery
is_valid_session-recovered_example =
    is_valid_session-recovered toy password salt signed_in reset (some token) 2000 refl
