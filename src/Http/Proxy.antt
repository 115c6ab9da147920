-- ===== src/Http/Proxy.antt =====
-- src/proxy.ts: the default-deny gate in front of every page, route handler and public file.
use voidstation_app.Prelude.{
  Bool, Bool-cases, List, Option, String, any, ap, arith, false, if◌then◌else◌, inl, inr, none, not,
  refl, some, starts_with, true, ℕ, ◌&&◌, ◌=s◌, ◌||◌, ◌↔◌, ◌≡◌, ◌⊎◌,
}
use voidstation_app.Auth.Store.{Outcome, done, threw}
use voidstation_app.Auth.Tables.{Crypto, Db, Sql}
use voidstation_app.Http.Origins.{
  Environment, ParseUrl, Request, Response, Url, application_origin, auth_error, has_session,
  has_valid_origin, passes, plain, redirects, secure_response,
}

-- `isLoginAsset`: by prefix under the dev compiler, else by the build's manifest.
pub data Assets : Type 0 where
  development : Assets
  manifest : List String → Assets

unfoldable pub is_login_asset : Assets → String → Bool
is_login_asset development pathname =
    starts_with pathname "/_next/static/" || starts_with pathname "/_next/webpack-hmr"
is_login_asset (manifest files) pathname = any (λ file. file =s pathname) files

unfoldable pub is_safe : Request → Bool
is_safe request = request.method =s "GET" || request.method =s "HEAD"

-- The pages that need no session.
unfoldable pub is_public : Assets → Request → Bool
is_public assets request =
    (is_safe request && (request.pathname =s "/login" || is_login_asset assets request.pathname))
    || (request.pathname =s "/api/auth/login" && request.method =s "POST")

abbrev pub turned_away : Request → Url → Response
turned_away request origin =
    if starts_with request.pathname "/api/" || not (is_safe request)
    then auth_error "Sign in required." 401
    else plain (redirects "/login" origin.origin 307)

abbrev pub by_session : Request → Url → Outcome Bool × Db → Outcome Response × Db
by_session request origin (threw, db) = (threw, db)
by_session request origin (done false, db) =
    (done (secure_response (turned_away request origin)), db)
by_session request origin (done true, db) = (done (secure_response (plain passes)), db)

module _ (parse : ParseUrl) (crypto : Crypto) (env : Environment) (assets : Assets) where
  unfoldable pub past_origin : Request → Url → ℕ → Sql Response
  past_origin request origin now db =
      if is_public assets request
      then (done (secure_response (plain passes)), db)
      else by_session request origin (has_session crypto env request now db)

  abbrev pub checked_origin : Request → Url → ℕ → Outcome Bool → Sql Response
  checked_origin request origin now threw db = (threw, db)
  checked_origin request origin now (done valid) db =
      if not (is_safe request) && not valid
      then (done (secure_response (auth_error "Request origin rejected." 403)), db)
      else past_origin request origin now db

  -- `!safe && !hasValidOrigin(request)`: the origin of a safe request is not looked at.
  abbrev pub origin_check : Request → Outcome Bool
  origin_check request = if is_safe request then done true else has_valid_origin parse env request

  abbrev pub guarded : Request → ℕ → Outcome (Option Url) → Sql Response
  guarded request now threw db = (threw, db)
  guarded request now (done none) db =
      (done (secure_response (auth_error "Unrecognized host." 421)), db)
  guarded request now (done (some origin)) db =
      checked_origin request origin now (origin_check request) db

  -- `catch`
  abbrev pub recovered_response : Outcome Response × Db → Response × Db
  recovered_response (done response, db) = (response, db)
  recovered_response (threw, db) =
      (secure_response (auth_error "Authentication is unavailable." 503), db)

  unfoldable pub proxy : Request → ℕ → Db → Response × Db
  unfolding past_origin
  proxy request now db =
      recovered_response (guarded request now (application_origin parse env request) db)

-- What the proxy lets through, and how it answers everything else.
module _ (parse : ParseUrl) (crypto : Crypto) (env : Environment) (assets : Assets) where
  abbrev IsSignedIn : Request → ℕ → Db → Type 0
  IsSignedIn request now db = (has_session crypto env request now db).0 ≡ done true

  -- The host names a configured origin, and a request that may change something comes from it.
  abbrev IsFromOrigin : Request → Type 0
  IsFromOrigin request =
      (url : Url) × (application_origin parse env request ≡ done (some url))
      × ((is_safe request ≡ true) ⊎ (has_valid_origin parse env request ≡ done true))

  -- What the proxy passes on carries the secured empty response and nothing else does.
  abbrev Passed : Outcome Response → Type 0
  Passed r = r ≡ done (secure_response (plain passes))

  by_session-passes :
      (request : Request) (origin : Url) (r : Outcome Bool × Db)
      → Passed (by_session request origin r).0 ↔ (r.0 ≡ done true)
  unfolding secure_response
  by_session-passes request origin (threw, db) = (λ e. cc e, λ e. cc e)
  by_session-passes request origin (done false, db) = (λ e. ground arith, λ e. cc e)
  by_session-passes request origin (done true, db) = (λ e. refl, λ e. refl)

  past_origin-passes :
      (request : Request) (origin : Url) (now : ℕ) (db : Db)
      → Passed (past_origin parse crypto env assets request origin now db).0
        ↔ ((is_public assets request ≡ true) ⊎ IsSignedIn request now db)
  unfolding past_origin
  past_origin-passes request origin now db =
      let session = by_session-passes request origin (has_session crypto env request now db) in
      elim (Bool-cases (is_public assets request)) [
        | inl h ↦ rw (h, past_origin) (λ _. inl refl, λ _. refl)
        | inr h ↦
            rw (h, past_origin)
              (λ e. inr (session.0 e), elim [ inl e ↦ cc e | inr e ↦ session.1 e ])
      ]

  unsafe-passes :
      {P : Type 0} (request : Request) (origin : Url) (now : ℕ) (db : Db) (valid : Outcome Bool)
      → is_safe request ≡ false
      → (Passed (past_origin parse crypto env assets request origin now db).0 ↔ P)
      → Passed (checked_origin parse crypto env assets request origin now valid db).0
        ↔ (((false ≡ true) ⊎ (valid ≡ done true)) × P)
  unfolding secure_response
  unsafe-passes request origin now db threw s past =
      (λ e. cc e, λ h. elim h.0 [ inl a ↦ cc a | inr b ↦ cc b ])
  unsafe-passes request origin now db (done true) s past =
      rw s (λ e. (inr refl, past.0 e), λ h. past.1 h.1)
  unsafe-passes request origin now db (done false) s past =
      rw s (λ e. cc e, λ h. elim h.0 [ inl a ↦ cc a | inr b ↦ cc b ])

  checked_origin-valid :
      (request : Request) (origin : Url) (now : ℕ) (db : Db)
      → checked_origin parse crypto env assets request origin now (done true) db
        ≡ past_origin parse crypto env assets request origin now db
  checked_origin-valid request origin now db = ground arith

  checked_origin-passes :
      (request : Request) (origin : Url) (now : ℕ) (db : Db)
      → Passed
          (checked_origin parse crypto env assets request origin now
            (origin_check parse crypto env assets request)
            db).0
        ↔ (((is_safe request ≡ true) ⊎ (has_valid_origin parse env request ≡ done true))
            × ((is_public assets request ≡ true) ⊎ IsSignedIn request now db))
  checked_origin-passes request origin now db =
      let past = past_origin-passes request origin now db in
      elim (Bool-cases (is_safe request)) [
        | inl s ↦ rw s (
            rw (checked_origin-valid request origin now db)
              (λ e. (inl refl, past.0 e), λ h. past.1 h.1))
        | inr s ↦
            rw (s, checked_origin)
              (unsafe-passes request origin now db (has_valid_origin parse env request) s past)
      ]

  guarded-passes :
      (request : Request) (now : ℕ) (db : Db) (found : Outcome (Option Url))
      → Passed (guarded parse crypto env assets request now found db).0 ↔ (
          (url : Url) × (found ≡ done (some url))
          × ((is_safe request ≡ true) ⊎ (has_valid_origin parse env request ≡ done true))
          × ((is_public assets request ≡ true) ⊎ IsSignedIn request now db))
  unfolding secure_response
  guarded-passes request now db threw = (λ e. cc e, λ h. cc h.1)
  guarded-passes request now db (done none) = (λ e. cc e, λ h. cc h.1)
  guarded-passes request now db (done (some url)) =
      let checked = checked_origin-passes request url now db in
      (λ e. (url, refl, (checked.0 e).0, (checked.0 e).1), λ h. checked.1 (h.2, h.3))

  recovered-passes :
      (r : Outcome Response × Db)
      → ((recovered_response parse crypto env assets r).0 ≡ secure_response (plain passes))
        ↔ Passed r.0
  unfolding secure_response
  recovered-passes (done response, db) = (λ e. ap done e, λ e. cc e)
  recovered-passes (threw, db) = (λ e. cc e, λ e. cc e)

  -- The guards in their order
  pub proxy_iff :
      (request : Request) (now : ℕ) (db : Db)
      → ((proxy parse crypto env assets request now db).0 ≡ secure_response (plain passes)) ↔ (
          (url : Url) × (application_origin parse env request ≡ done (some url))
          × ((is_safe request ≡ true) ⊎ (has_valid_origin parse env request ≡ done true))
          × ((is_public assets request ≡ true) ⊎ IsSignedIn request now db))
  unfolding proxy
  proxy_iff request now db =
      let last =
        recovered-passes
          (guarded parse crypto env assets request now (application_origin parse env request) db) in
      let first = guarded-passes request now db (application_origin parse env request) in
      (λ e. first.0 (last.0 e), λ h. last.1 (first.1 h))
