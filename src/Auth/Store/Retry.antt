-- ===== src/Auth/Store/Retry.antt =====
-- The `Retry-After` answer of a full login limiter: `reserveLoginAttempt` in src/lib/auth-store.ts.
use voidstation_app.Prelude.{
  List, [], arith, false, filter, leb, length, length-filter-le, length-filter-sort_by,
  length-sort_by, sort_by, ℕ, ◌*◌, ◌+◌, ◌<◌, ◌∷◌, ◌≡◌, ◌≤◌,
}
use voidstation_app.Auth.Store.{done}
use voidstation_app.Auth.Tables.{
  Db, is_recent, limited, oldest, rate_limit_attempts, reserve_login_attempt, reserved, retry_after,
}
use voidstation_app.Auth.Store.Invariant.{IsValid}

reserve_limited :
    (now : ℕ) (db : Db) (n : ℕ)
    → (reserve_login_attempt now db).0 ≡ done (limited n)
    → (rate_limit_attempts ≤ length (filter (is_recent now) db.login_attempt))
      × (n ≡ retry_after now (oldest (filter (is_recent now) db.login_attempt)))
      × ((reserve_login_attempt now db).1
          ≡ record db { login_attempt = filter (is_recent now) db.login_attempt })
unfolding reserve_login_attempt
reserve_limited now db n e = ground arith

reserve_room :
    (now : ℕ) (db : Db)
    → length (filter (is_recent now) db.login_attempt) < rate_limit_attempts
    → (reserve_login_attempt now db).0 ≡ done reserved
unfolding reserve_login_attempt
reserve_room now db h = ground arith

retry_after_pos : (now first : ℕ) → 1 ≤ retry_after now first
retry_after_pos now first = ground arith

-- The wait runs past the end of the oldest attempt's window.
retry_after-IsPast : (now first : ℕ) → is_recent (now + retry_after now first * 1000) first ≡ false
retry_after-IsPast now first = ground arith

-- At that time the oldest of the recent attempts is gone.
length-recent_later :
    (now : ℕ) (sorted : List ℕ)
    → 1 ≤ length sorted
    → length (
        filter
          (is_recent (now + retry_after now (elim sorted [ [] ↦ 0 | x ∷ _ ↦ x ]) * 1000))
          sorted)
      < length sorted
length-recent_later now [] h = absurd (omega arith)
length-recent_later now (x ∷ xs) h =
    rw (retry_after-IsPast now x)
      (omega (arith, length-filter-le (is_recent (now + retry_after now x * 1000)) xs))

length-filter-oldest :
    (now : ℕ) (recent : List ℕ)
    → 1 ≤ length recent
    → length (filter (is_recent (now + retry_after now (oldest recent) * 1000)) recent)
      < length recent
length-filter-oldest now recent h =
    let wait = now + retry_after now (oldest recent) * 1000 in
    omega (
      arith,
      length-sort_by leb recent,
      length-filter-sort_by leb (is_recent wait) recent,
      length-recent_later now (sort_by leb recent) (omega (arith, length-sort_by leb recent)),
    )

-- A limited attempt is told to wait at least a second, stores nothing and drops only what has left
-- the window; and the wait is enough: an attempt made when it is over, with no other in between, is
-- let through.
pub reserve-retry_after :
    (now : ℕ) (db : Db) (n : ℕ)
    → IsValid db
    → (reserve_login_attempt now db).0 ≡ done (limited n)
    → (1 ≤ n)
      × ((reserve_login_attempt now db).1
          ≡ record db { login_attempt = filter (is_recent now) db.login_attempt })
      × ((reserve_login_attempt (now + n * 1000) (reserve_login_attempt now db).1).0
          ≡ done reserved)
reserve-retry_after now db n v e =
    let (full, wait, after) = reserve_limited now db n e in
    let recent = filter (is_recent now) db.login_attempt in
    (
      rw wait (retry_after_pos now (oldest recent)),
      after,
      rw (after, wait)
          (reserve_room (now + retry_after now (oldest recent) * 1000)
            (record db { login_attempt = recent })
            (omega (
              arith,
              length-filter-oldest now recent (omega arith),
              length-filter-le (is_recent now) db.login_attempt,
              v.few_attempts,
            ))),
    )
