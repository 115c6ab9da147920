-- ===== src/Http/Secured.antt =====
-- The security headers of src/lib/auth-http.ts on the answers of the proxy and of the sign-in and
-- sign-out routes.
use voidstation_app.Prelude.{
  Bool, Bool-cases, List, Option, false, inl, inr, none, not, refl, some, true, ℕ, ◌&&◌, ◌≡◌,
}
use voidstation_app.Auth.Store.{LoginResult, Outcome, done, invalid, ok, threw, too_many}
use voidstation_app.Auth.Tables.{Crypto, Db}
use voidstation_app.Http.Origins.{
  Environment, ParseUrl, Request, Response, Url, application_origin, header, secure_response,
}
use voidstation_app.Http.Proxy.{
  Assets, by_session, checked_origin, guarded, is_public, is_safe, past_origin, proxy,
  recovered_response,
}
use voidstation_app.Http.Login.{
  Form, after_form, after_origin, after_session, answer_login, early, login_route, logout_route,
  password,
}

-- Not cached, not sniffed, not framed, no referrer, HTTPS only, and no foreign frame, base or form.
pub record HasSecurityHeaders (response : Response) : Type 0 where
  pub cache : header "Cache-Control" response.headers ≡ some "no-store"
  pub sniffing : header "X-Content-Type-Options" response.headers ≡ some "nosniff"
  pub framing : header "X-Frame-Options" response.headers ≡ some "DENY"
  pub referrer : header "Referrer-Policy" response.headers ≡ some "no-referrer"
  pub transport : header "Strict-Transport-Security" response.headers ≡ some "max-age=31536000"
  pub content :
      header "Content-Security-Policy" response.headers
      ≡ some "frame-ancestors 'none'; base-uri 'self'; form-action 'self'; object-src 'none'"

-- They hold whatever headers the answer had before.
secured : (response : Response) → HasSecurityHeaders (secure_response response)
unfolding secure_response
secured response = record {
  cache = refl;
  sniffing = refl;
  framing = refl;
  referrer = refl;
  transport = refl;
  content = refl;
}

answer_login-secured : (r : Outcome LoginResult × Db) → HasSecurityHeaders (answer_login r).0
answer_login-secured (threw, db) = secured _
answer_login-secured (done (too_many n), db) = secured _
answer_login-secured (done invalid, db) = secured _
answer_login-secured (done (ok token), db) = secured _

module _ (parse : ParseUrl) (crypto : Crypto) (env : Environment) (assets : Assets)
    (passwords : List ℕ → List (List ℕ)) where
  abbrev IsSecured : Outcome Response → Type 0
  IsSecured threw = Unit
  IsSecured (done response) = HasSecurityHeaders response

  by_session-IsSecured :
      (request : Request) (origin : Url) (r : Outcome Bool × Db)
      → IsSecured (by_session request origin r).0
  by_session-IsSecured request origin (threw, db) = tt
  by_session-IsSecured request origin (done false, db) = secured _
  by_session-IsSecured request origin (done true, db) = secured _

  past_origin-IsSecured :
      (request : Request) (origin : Url) (now : ℕ) (db : Db)
      → IsSecured (past_origin parse crypto env assets request origin now db).0
  unfolding past_origin
  past_origin-IsSecured request origin now db = elim (Bool-cases (is_public assets request)) [
    | inl h ↦ rw (h, past_origin) (secured _)
    | inr h ↦ rw (h, past_origin) (by_session-IsSecured request origin _)
  ]

  checked_origin-IsSecured :
      (request : Request) (origin : Url) (now : ℕ) (db : Db) (valid : Outcome Bool)
      → IsSecured (checked_origin parse crypto env assets request origin now valid db).0
  checked_origin-IsSecured request origin now db threw = tt
  checked_origin-IsSecured request origin now db (done valid) =
      elim (Bool-cases (not (is_safe request) && not valid)) [
        | inl h ↦ rw h (secured _)
        | inr h ↦ rw h (past_origin-IsSecured request origin now db)
      ]

  guarded-IsSecured :
      (request : Request) (now : ℕ) (db : Db) (found : Outcome (Option Url))
      → IsSecured (guarded parse crypto env assets request now found db).0
  guarded-IsSecured request now db threw = tt
  guarded-IsSecured request now db (done none) = secured _
  guarded-IsSecured request now db (done (some url)) = checked_origin-IsSecured request url now db _

  recovered-IsSecured :
      (r : Outcome Response × Db)
      → IsSecured r.0
      → HasSecurityHeaders (recovered_response parse crypto env assets r).0
  recovered-IsSecured (done response, db) h = h
  recovered-IsSecured (threw, db) h = secured _

  after_form-secured :
      (random : List ℕ) (start end : ℕ) (db : Db) (form : Outcome Form)
      → HasSecurityHeaders (after_form parse crypto env passwords random start end db form).0
  after_form-secured random start end db threw = secured _
  after_form-secured random start end db (done (early error status)) = secured _
  after_form-secured random start end db (done (password p)) = answer_login-secured _

  after_session-secured :
      (request : Request) (r : Outcome Bool × Db)
      → HasSecurityHeaders (after_session parse crypto env request r).0
  after_session-secured request (threw, db) = secured _
  after_session-secured request (done false, db) = secured _
  after_session-secured request (done true, db) = secured _

  after_origin-secured :
      (request : Request) (now : ℕ) (db : Db) (valid : Outcome Bool)
      → HasSecurityHeaders (after_origin parse crypto env request now db valid).0
  after_origin-secured request now db threw = secured _
  after_origin-secured request now db (done false) = secured _
  after_origin-secured request now db (done true) = after_session-secured request _

  -- Every answer of the proxy, of the login route and of the logout route, errors and exceptions
  -- included, carries the six security headers with their values.
  pub responses-HasSecurityHeaders :
      (request : Request) (random : List ℕ) (start end : ℕ) (db : Db)
      → HasSecurityHeaders (proxy parse crypto env assets request start db).0
        × HasSecurityHeaders (login_route parse crypto env passwords request random start end db).0
        × HasSecurityHeaders (logout_route parse crypto env request start db).0
  unfolding proxy login_route logout_route
  responses-HasSecurityHeaders request random start end db = (
    recovered-IsSecured _
        (guarded-IsSecured request start db (application_origin parse env request)),
    after_form-secured random start end db _,
    after_origin-secured request start db _,
  )
