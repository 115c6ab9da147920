-- ===== src/Http/Login.antt =====
-- The routes of src/app/api: auth/login/route.ts, auth/logout/route.ts, and the session check of
-- metrics/route.ts and downloads/route.ts. `URLSearchParams.getAll` is the platform's: a parameter.
pub mod MediaType
pub mod Laws
use Prim.Native.Char.{code}
use voidstation_app.Prelude.{
  Bool, List, Option, String, [], decimal, false, if◌then◌else◌, none, some, true, ℕ, ◌==◌, ◌=s◌,
  ◌∷◌,
}
use voidstation_app.Auth.Store.{
  LoginResult, Outcome, authenticate_owner, done, invalid, ok, revoke_session, threw, too_many,
}
use voidstation_app.Auth.Tables.{Crypto, Db, Sql, session_max_age_seconds}
use voidstation_app.Http.Origins.{
  Environment, ParseUrl, Request, Response, auth_error, has_session, has_valid_origin, passes,
  plain, secure_response, set_header, sets_cookie,
}
use voidstation_app.Http.Body.{read_bounded}

-- `text.split(";")[0]`
pub before_semicolon : String → String
before_semicolon String.[] = String.[]
before_semicolon (String.◌∷◌ c text) =
    if code c == b';' then String.[] else String.◌∷◌ c (before_semicolon text)

-- `request.headers.get("content-type")?.split(";")[0] === type`
unfoldable pub has_type : String → Option String → Bool
unfolding before_semicolon
has_type type none = false
has_type type (some text) = before_semicolon text =s type

-- What the handler finds before it turns to the account: an early answer, or the password.
pub data Form : Type 0 where
  early : String → ℕ → Form
  password : List ℕ → Form

abbrev pub login_limit : ℕ
login_limit = 8192

abbrev pub one_password : List (List ℕ) → Form
one_password (p ∷ []) = password p
one_password _ = early "Password required." 400

abbrev pub of_body : (List ℕ → List (List ℕ)) → Option (List ℕ) → Form
of_body passwords none = early "Login form is too large." 413
of_body passwords (some bytes) = one_password (passwords bytes)

abbrev pub of_stream : (List ℕ → List (List ℕ)) → Option (List (List ℕ)) → Form
of_stream passwords none = early "Password required." 400
of_stream passwords (some chunks) = of_body passwords (read_bounded login_limit 0 [] chunks)

abbrev pub of_origin : (List ℕ → List (List ℕ)) → Request → Outcome Bool → Outcome Form
of_origin passwords request threw = threw
of_origin passwords request (done false) = done (early "Request origin rejected." 403)
of_origin passwords request (done true) =
    if has_type "application/x-www-form-urlencoded" request.content_type
    then done (of_stream passwords request.chunks)
    else done (early "Use a URL-encoded login form." 415)

abbrev pub answer_login : Outcome LoginResult × Db → Response × Db
answer_login (threw, db) =
    (secure_response (auth_error "Sign-in is unavailable. Try again later." 503), db)
answer_login (done (too_many n), db) = (
  secure_response (
      set_header "Retry-After" (decimal n)
        (auth_error "Too many sign-in attempts. Try again later." 429)),
  db,
)
answer_login (done invalid, db) = (secure_response (auth_error "Incorrect password." 401), db)
answer_login (done (ok token), db) =
    (secure_response (plain (sets_cookie token session_max_age_seconds)), db)

module _ (parse : ParseUrl) (crypto : Crypto) (env : Environment)
    (passwords : List ℕ → List (List ℕ)) where
  unfoldable pub read_form : Request → Outcome Form
  read_form request = of_origin passwords request (has_valid_origin parse env request)

  -- `authenticateOwner`, which opens the database first
  abbrev pub authenticated : List ℕ → List ℕ → ℕ → ℕ → Sql LoginResult
  authenticated p random start end db =
      let result = authenticate_owner crypto p random start end db in
      if env.opens_database then result else (threw, db)

  abbrev pub after_form : List ℕ → ℕ → ℕ → Db → Outcome Form → Response × Db
  after_form random start end db threw =
      (secure_response (auth_error "Sign-in is unavailable. Try again later." 503), db)
  after_form random start end db (done (early error status)) =
      (secure_response (auth_error error status), db)
  after_form random start end db (done (password p)) =
      answer_login (authenticated p random start end db)

  -- POST of login/route.ts
  unfoldable pub login_route : Request → List ℕ → ℕ → ℕ → Db → Response × Db
  unfolding read_form
  login_route request random start end db = after_form random start end db (read_form request)

module _ (parse : ParseUrl) (crypto : Crypto) (env : Environment) where
  abbrev pub after_session : Request → Outcome Bool × Db → Response × Db
  after_session request (threw, db) =
      (secure_response (auth_error "Sign-out is unavailable. Try again later." 503), db)
  after_session request (done false, db) =
      (secure_response (auth_error "Sign in required." 401), db)
  after_session request (done true, db) = (
    secure_response (set_header "Clear-Site-Data" "\"cache\"" (plain (sets_cookie [] 0))),
    (revoke_session crypto request.session_cookie db).1,
  )

  abbrev pub after_origin : Request → ℕ → Db → Outcome Bool → Response × Db
  after_origin request now db threw =
      (secure_response (auth_error "Sign-out is unavailable. Try again later." 503), db)
  after_origin request now db (done false) =
      (secure_response (auth_error "Request origin rejected." 403), db)
  after_origin request now db (done true) =
      after_session request (has_session crypto env request now db)

  -- POST of logout/route.ts
  unfoldable pub logout_route : Request → ℕ → Db → Response × Db
  logout_route request now db = after_origin request now db (has_valid_origin parse env request)

module _ (crypto : Crypto) (env : Environment) where
  abbrev session_answer : Outcome Bool × Db → Response × Db
  session_answer (threw, db) = (auth_error "Authentication is unavailable." 503, db)
  session_answer (done false, db) = (auth_error "Sign in required." 401, db)
  session_answer (done true, db) = (plain passes, db)

  -- The check in front of the body of GET in metrics/route.ts and downloads/route.ts.
  unfoldable pub session_gate : Request → ℕ → Db → Response × Db
  session_gate request now db = session_answer (has_session crypto env request now db)
