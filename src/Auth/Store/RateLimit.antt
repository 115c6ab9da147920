-- ===== src/Auth/Store/RateLimit.antt =====
-- The owner-wide login limiter of src/lib/auth-store.ts over whole histories of calls.
use voidstation_app.Auth.Store.Rules.{create_session_keeps, finish_login_keeps}
use voidstation_app.Auth.Store.Calls.{
  Call, begins_login, begins_recovery, bootstraps, finishes_login, finishes_recovery, revokes, step,
  validates,
}
use voidstation_app.Prelude.{
  Bool-cases, List, Option, [], arith, false, filter, filter-append, inl, inr, leb, length,
  length-append, refl, true, ℕ, ◌++◌, ◌+◌, ◌∙◌, ◌∷◌, ◌≡◌, ◌≤◌,
}
use voidstation_app.Auth.Store.{
  Begun, Outcome, begin_login, begin_recovery, done, ended, finish_login, is_valid_session,
  revoke_session, threw, too_many, waiting,
}
use voidstation_app.Auth.Tables.{
  Account, Crypto, Db, is_recent, oldest, rate_limit_attempts, reserve_login_attempt, retry_after,
}
use voidstation_app.Auth.Store.Invariant.{begin_login-reserve}

-- The calls after which `deriveHash` runs for a login, by their times, newest first.
unfoldable pub hash_of : Outcome Begun → ℕ → List ℕ → List ℕ
hash_of (done (waiting account)) now times = now ∷ times
hash_of (done (ended r)) now times = times
hash_of threw now times = times

abbrev hashed : Db → Call → List ℕ → List ℕ
hashed db (begins_login password now) times = hash_of (begin_login password now db).0 now times
hashed db _ times = times

unfoldable pub login_hashes : Crypto → Db → List Call → List ℕ → List ℕ
login_hashes crypto db [] times = times
login_hashes crypto db (c ∷ cs) times =
    login_hashes crypto (step crypto db c) cs (hashed db c times)

-- Each hash, with those of the fifteen minutes before it, makes five at most.
abbrev pub AtMostFive : List ℕ → Type 0
AtMostFive [] = Unit
AtMostFive (now ∷ times) =
    (length (filter (is_recent now) (now ∷ times)) ≤ rate_limit_attempts) × AtMostFive times

-- Logins begin in the order of their clock readings, and no call resets the limiter.
abbrev pub InOrder : ℕ → List Call → Type 0
InOrder clock [] = Unit
InOrder clock (begins_login password now ∷ cs) = (clock ≤ now) × InOrder now cs
InOrder clock (finishes_login _ _ _ _ ∷ cs) = InOrder clock cs
InOrder clock (validates _ _ ∷ cs) = InOrder clock cs
InOrder clock (revokes _ ∷ cs) = InOrder clock cs
InOrder clock (begins_recovery _ ∷ cs) = InOrder clock cs
InOrder clock (bootstraps _ _ ∷ cs) = ⊥
InOrder clock (finishes_recovery _ _ ∷ cs) = ⊥

-- The table holds all hashes of the window, from `clock` on.
abbrev Covers : ℕ → List ℕ → List ℕ → Type 0
Covers clock attempts times =
    (later : ℕ)
    → clock ≤ later
    → length (filter (is_recent later) times) ≤ length (filter (is_recent later) attempts)

filter_recent_twice :
    (now later : ℕ) (xs : List ℕ)
    → now ≤ later
    → filter (is_recent later) (filter (is_recent now) xs) ≡ filter (is_recent later) xs
filter_recent_twice now later [] h = refl
filter_recent_twice now later (x ∷ xs) h = ground (arith, filter_recent_twice now later xs)

abbrev recent_of : ℕ → Db → List ℕ
recent_of now db = filter (is_recent now) db.login_attempt

begin_limited :
    (password : List ℕ) (now : ℕ) (db : Db)
    → leb rate_limit_attempts (length (recent_of now db)) ≡ true
    → begin_login password now db ≡ (
      done (ended (too_many (retry_after now (oldest (recent_of now db))))),
      record db { login_attempt = recent_of now db },
    )
unfolding begin_login
begin_limited password now db h = ground arith

begin_reserved :
    (password : List ℕ) (now : ℕ) (db : Db)
    → leb rate_limit_attempts (length (recent_of now db)) ≡ false
    → (begin_login password now db).1 ≡ record db { login_attempt = recent_of now db ++ now ∷ [] }
unfolding reserve_login_attempt
begin_reserved password now db h = begin_login-reserve password now db ∙ ground arith

-- At most the call's own time joins the hashes.
length-filter-hash_of :
    (o : Outcome Begun) (now later : ℕ) (times : List ℕ)
    → length (filter (is_recent later) (hash_of o now times))
      ≤ length (filter (is_recent later) (now ∷ times))
unfolding hash_of
length-filter-hash_of (done (waiting account)) now later times = ground arith
length-filter-hash_of (done (ended r)) now later times = ground arith
length-filter-hash_of threw now later times = ground arith

hash_of-AtMostFive :
    (o : Outcome Begun) (now : ℕ) (times : List ℕ)
    → length (filter (is_recent now) (now ∷ times)) ≤ rate_limit_attempts
    → AtMostFive times
    → AtMostFive (hash_of o now times)
unfolding hash_of
hash_of-AtMostFive (done (waiting account)) now times h k = (h, k)
hash_of-AtMostFive (done (ended r)) now times h k = k
hash_of-AtMostFive threw now times h k = k

length-filter_cons :
    (later now : ℕ) (times : List ℕ)
    → length (filter (is_recent later) (now ∷ times))
      ≡ length (filter (is_recent later) times) + length (filter (is_recent later) (now ∷ []))
length-filter_cons later now times = ground arith

filter_recent-append :
    (now later : ℕ) (xs : List ℕ)
    → now ≤ later
    → length (filter (is_recent later) (filter (is_recent now) xs ++ now ∷ []))
      ≡ length (filter (is_recent later) xs) + length (filter (is_recent later) (now ∷ []))
filter_recent-append now later xs h =
    rw (filter-append (is_recent later) (filter (is_recent now) xs) (now ∷ [])) (
      rw
        (length-append (filter (is_recent later) (filter (is_recent now) xs))
          (filter (is_recent later) (now ∷ [])))
        (rw (filter_recent_twice now later xs h) refl))

begin-Covers :
    (password : List ℕ) (now clock : ℕ) (db : Db) (times : List ℕ)
    → clock ≤ now
    → Covers clock db.login_attempt times
    → Covers now
        (begin_login password now db).1.login_attempt
        (hash_of (begin_login password now db).0 now times)
unfolding hash_of
begin-Covers password now clock db times le covers later h =
    elim (Bool-cases (leb rate_limit_attempts (length (recent_of now db)))) [
      | inl full ↦
          rw (begin_limited password now db full)
            (rw (filter_recent_twice now later db.login_attempt h) (covers later (omega arith)))
      | inr room ↦ rw (begin_reserved password now db room) (
          rw (filter_recent-append now later db.login_attempt h) (
            omega (
              arith,
              length-filter-hash_of (begin_login password now db).0 now later times,
              length-filter_cons later now times,
              covers later (omega arith),
            )))
    ]

begin-AtMostFive :
    (password : List ℕ) (now clock : ℕ) (db : Db) (times : List ℕ)
    → clock ≤ now
    → Covers clock db.login_attempt times
    → AtMostFive times
    → AtMostFive (hash_of (begin_login password now db).0 now times)
unfolding hash_of
begin-AtMostFive password now clock db times le covers h =
    elim (Bool-cases (leb rate_limit_attempts (length (recent_of now db)))) [
      | inl full ↦ rw (begin_limited password now db full) h
      | inr room ↦
          hash_of-AtMostFive (begin_login password now db).0 now times
            (ground (arith, length-filter_cons now now times, covers now le)) h
    ]

module _ (crypto : Crypto) where
  -- The other calls leave the limiter's table alone.
  finish-login_attempt :
      (password : List ℕ) (account : Account) (random : List ℕ) (now : ℕ) (db : Db)
      → (finish_login crypto password account random now db).1.login_attempt ≡ db.login_attempt
  finish-login_attempt password account random now db =
      finish_login_keeps (λ after. after.login_attempt ≡ db.login_attempt) crypto account random now
        password db refl
        (λ c _ _ _.
          create_session_keeps (λ after. after.login_attempt ≡ db.login_attempt) crypto db refl
            c.revision random now refl refl)

  validate-login_attempt :
      (token : Option (List ℕ)) (now : ℕ) (db : Db)
      → (is_valid_session crypto token now db).1.login_attempt ≡ db.login_attempt
  unfolding is_valid_session
  validate-login_attempt token now db = ground arith

  revoke-login_attempt :
      (token : Option (List ℕ)) (db : Db)
      → (revoke_session crypto token db).1.login_attempt ≡ db.login_attempt
  unfolding revoke_session
  revoke-login_attempt token db = ground arith

  begin_recovery-login_attempt :
      (password : List ℕ) (db : Db)
      → (begin_recovery password db).1.login_attempt ≡ db.login_attempt
  unfolding begin_recovery
  begin_recovery-login_attempt password db = ground arith

  login_hashes-AtMostFive_from :
      (cs : List Call) (db : Db) (clock : ℕ) (times : List ℕ)
      → Covers clock db.login_attempt times
      → AtMostFive times
      → InOrder clock cs
      → AtMostFive (login_hashes crypto db cs times)
  unfolding login_hashes step
  login_hashes-AtMostFive_from [] db clock times c h o = h
  login_hashes-AtMostFive_from (begins_login password now ∷ cs) db clock times c h o =
      login_hashes-AtMostFive_from cs _ now _ (begin-Covers password now clock db times o.0 c)
        (begin-AtMostFive password now clock db times o.0 c h) o.1
  login_hashes-AtMostFive_from (finishes_login password account random now ∷ cs) db clock times c h
        o =
      login_hashes-AtMostFive_from cs _ clock times
        (rw (finish-login_attempt password account random now db) c) h o
  login_hashes-AtMostFive_from (validates token now ∷ cs) db clock times c h o =
      login_hashes-AtMostFive_from cs _ clock times (rw (validate-login_attempt token now db) c) h o
  login_hashes-AtMostFive_from (revokes token ∷ cs) db clock times c h o =
      login_hashes-AtMostFive_from cs _ clock times (rw (revoke-login_attempt token db) c) h o
  login_hashes-AtMostFive_from (begins_recovery password ∷ cs) db clock times c h o =
      login_hashes-AtMostFive_from cs _ clock times
        (rw (begin_recovery-login_attempt password db) c) h o
  login_hashes-AtMostFive_from (bootstraps password salt ∷ cs) db clock times c h o = absurd o
  login_hashes-AtMostFive_from (finishes_recovery password salt ∷ cs) db clock times c h o =
      absurd o

  -- In a history of calls, logins' halves interleaved as they come, in which logins begin in the
  -- order of their clock readings and no bootstrap or recovery comes to its end, a password is hashed
  -- for at most five logins of any fifteen minutes that end at such a hash.
  pub login_hashes-AtMostFive :
      (db : Db) (cs : List Call) (clock : ℕ)
      → InOrder clock cs
      → AtMostFive (login_hashes crypto db cs [])
  login_hashes-AtMostFive db cs clock o =
      login_hashes-AtMostFive_from cs db clock [] (λ later h. omega arith) tt o
