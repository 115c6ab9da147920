-- ===== src/Auth/Store/Sessions.antt =====
-- The life of a session: opened by `authenticateOwner`, checked by `isValidSession`, closed by
-- `revokeSession` or by time (src/lib/auth-store.ts).
use voidstation_app.Prelude.{
  =b_iff, =b_refl, Bool, List, Option, [], all, any, ap, arith, false, filter, filter-append,
  length, ltb, none, refl, some, sym, true, ℕ, ◌*◌, ◌++◌, ◌+◌, ◌||◌, ◌∙◌, ◌∷◌, ◌≡◌, ◌≢◌,
}
use voidstation_app.Auth.Store.{
  admits, done, finish_login, is_token_char, is_valid_session, ok, revoke_digest, revoke_session,
  token_digest, validate_digest, without_digest,
}
use voidstation_app.Auth.Tables.{
  Account, Crypto, Db, SessionRow, has_hash_in, is_live, kept_sessions, new_session,
  session_token_bytes, session_token_length,
}
use voidstation_app.Auth.Store.Rules.{finish_login_ok}

-- node:crypto as documented: base64url spells 32 bytes by 43 characters of its alphabet.
pub record IsBase64url (crypto : Crypto) : Type 0 where
  pub alphabet :
      (random : List ℕ)
      → length random ≡ session_token_bytes
      → all is_token_char (crypto.base64url random) ≡ true
  pub size :
      (random : List ℕ)
      → length random ≡ session_token_bytes
      → length (crypto.base64url random) ≡ session_token_length

-- The answer of `isValidSession` for a digest.
abbrev pub answer : Db → List ℕ → ℕ → Bool
answer db digest now =
    any (admits db.owner_account digest now) (filter (is_live now) db.owner_session)

module _ (crypto : Crypto) where
  pub is_valid_session-digest :
      (token digest : List ℕ) (now : ℕ) (db : Db)
      → token_digest crypto (some token) ≡ some digest
      → (is_valid_session crypto (some token) now db).0 ≡ done (answer db digest now)
  unfolding is_valid_session
  is_valid_session-digest token digest now db e = rw (e, validate_digest) refl

  token_digest-base64url :
      (random : List ℕ)
      → IsBase64url crypto
      → length random ≡ session_token_bytes
      → token_digest crypto (some (crypto.base64url random))
        ≡ some (crypto.sha256 (crypto.base64url random))
  unfolding token_digest
  token_digest-base64url random law h = rw (law.alphabet random h, law.size random h) refl

-- Rows of another hash do not answer for a digest.
any-admits_miss :
    (account : Option Account) (row : SessionRow) (now : ℕ) (rows : List SessionRow)
    → has_hash_in rows row ≡ false
    → any (admits account row.token_hash now) (filter (is_live now) rows) ≡ false
any-admits_miss account row now [] h = refl
any-admits_miss none row now (r ∷ rows) h = ground (arith, any-admits_miss none row now rows)
any-admits_miss (some a) row now (r ∷ rows) h =
    ground (arith, any-admits_miss (some a) row now rows)

any-append {ℓ} :
    {A : Type ℓ} (p : A → Bool) (xs ys : List A) → any p (xs ++ ys) ≡ (any p xs || any p ys)
any-append p [] ys = refl
any-append p (x ∷ xs) ys = ground (arith, any-append p xs ys)

answer_new :
    (account : Account) (row : SessionRow) (rows : List SessionRow) (attempts : List ℕ) (now : ℕ)
    → has_hash_in rows row ≡ false
    → row.account_revision ≡ account.revision
    → answer
        (record {
          owner_account = some account;
          login_attempt = attempts;
          owner_session = rows ++ row ∷ [];
        })
        row.token_hash
        now
      ≡ is_live now row
answer_new account row rows attempts now h e = rw (filter-append (is_live now) rows (row ∷ [])) (
    rw
      (any-append (admits (some account) row.token_hash now) (filter (is_live now) rows)
        (filter (is_live now) (row ∷ [])))
      (rw (any-admits_miss (some account) row now rows h) (ground (arith, =b_refl row.token_hash))))

module _ (crypto : Crypto) where
  -- A token that a login returns is valid from then on for eight hours to the millisecond, and no
  -- longer: until another call touches the database, `isValidSession` answers true exactly at the
  -- times before the login's plus 28800 seconds.
  pub is_valid_session-finish_login :
      (password : List ℕ) (account : Account) (random : List ℕ) (now : ℕ) (token : List ℕ)
      (db after : Db) (later : ℕ)
      → IsBase64url crypto
      → length random ≡ session_token_bytes
      → finish_login crypto password account random now db ≡ (done (ok token), after)
      → (is_valid_session crypto (some token) later after).0 ≡ done (ltb later (now + 28800 * 1000))
  is_valid_session-finish_login password account random now token db after later law size e =
      let g = finish_login_ok crypto account random now password token db after e in
      let digest : token_digest crypto (some token) ≡ some (crypto.sha256 token) =
        rw g.token_lem (token_digest-base64url crypto random law size) in
      is_valid_session-digest crypto token (crypto.sha256 token) later after digest
      ∙ ap done (
          rw (g.after_lem, g.found)
            (answer_new g.present (new_session (crypto.sha256 token) g.present.revision now)
              (kept_sessions now db.owner_session) db.login_attempt later
              (ground (arith, g.inserted)) refl))

-- The rows of other hashes answer as before.
answer-without_digest :
    (account : Option Account) (digest other : List ℕ) (now : ℕ) (rows : List SessionRow)
    → digest ≢ other
    → any (admits account other now) (filter (is_live now) (without_digest digest rows))
      ≡ any (admits account other now) (filter (is_live now) rows)
answer-without_digest account digest other now [] h = refl
answer-without_digest none digest other now (r ∷ rows) h =
    ground (arith, answer-without_digest none digest other now rows h)
answer-without_digest (some a) digest other now (r ∷ rows) h = ground (
  arith,
  answer-without_digest (some a) digest other now rows h,
  =b_iff r.token_hash digest,
  =b_iff r.token_hash other,
)

answer-without_self :
    (account : Option Account) (digest : List ℕ) (now : ℕ) (rows : List SessionRow)
    → any (admits account digest now) (filter (is_live now) (without_digest digest rows)) ≡ false
answer-without_self account digest now [] = refl
answer-without_self none digest now (r ∷ rows) =
    ground (arith, answer-without_self none digest now rows)
answer-without_self (some a) digest now (r ∷ rows) =
    ground (arith, answer-without_self (some a) digest now rows)

module _ (crypto : Crypto) (token digest : List ℕ) (db : Db)
    (hashes : token_digest crypto (some token) ≡ some digest) where
  revoke_lem :
      (revoke_session crypto (some token) db).1
      ≡ record db { owner_session = without_digest digest db.owner_session }
  unfolding revoke_session
  revoke_lem = rw (hashes, revoke_digest) refl

  -- After `revokeSession` of a well-formed token no check of it succeeds at any time; a token with
  -- another digest gets the answer that it got before.
  pub is_valid_session-revoke_session :
      (now : ℕ) (other other_digest : List ℕ)
      → token_digest crypto (some other) ≡ some other_digest
      → digest ≢ other_digest
      → ((is_valid_session crypto (some token) now (revoke_session crypto (some token) db).1).0
          ≡ done false)
        × ((is_valid_session crypto (some other) now (revoke_session crypto (some token) db).1).0
            ≡ (is_valid_session crypto (some other) now db).0)
  is_valid_session-revoke_session now other other_digest f ne = (
    is_valid_session-digest crypto token digest now _ hashes
        ∙ ap done
            (rw revoke_lem (answer-without_self db.owner_account digest now db.owner_session)),
    is_valid_session-digest crypto other other_digest now _ f
        ∙ ap done (
            rw revoke_lem
              (answer-without_digest db.owner_account digest other_digest now db.owner_session ne))
        ∙ sym (is_valid_session-digest crypto other other_digest now db f),
  )
