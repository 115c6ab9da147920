-- ===== src/Http/Origins.antt =====
-- src/lib/auth-http.ts: the configured origins, the session and origin checks of a request, and the
-- headers of its answers. `new URL` is the platform's: a parameter.
use voidstation_app.Prelude.{
  Bool, List, Option, String, [], false, find, if◌then◌else◌, none, not, some, true, ℕ, ◌&&◌, ◌=s◌,
  ◌||◌, ◌∷◌,
}
use voidstation_app.Auth.Store.{Outcome, done, is_valid_session, threw, token_digest}
use voidstation_app.Auth.Tables.{Crypto, Sql}

pub record Url : Type 0 where
  pub protocol : String
  pub origin : String
  pub host : String
  pub username : String
  pub password : String

-- `new URL(text)`; `none` where it throws.
abbrev pub ParseUrl : Type 0
ParseUrl = String → Option Url

-- VOIDSTATION_ORIGIN and VOIDSTATION_LAN_ORIGIN, and whether the database of the sessions opens.
pub record Environment : Type 0 where
  pub voidstation_origin : Option String
  pub voidstation_lan_origin : Option String
  pub opens_database : Bool

pub record Request : Type 0 where
  pub method : String
  pub pathname : String
  pub host : Option String
  pub origin : Option String
  pub sec_fetch_site : Option String
  pub content_type : Option String
  pub session_cookie : Option (List ℕ)
  pub chunks : Option (List (List ℕ))

abbrev pub is_text : Option String → String → Bool
is_text none t = false
is_text (some s) t = s =s t

abbrev pub is_exact : String → Url → Bool
is_exact value url =
    url.protocol =s "https:" && url.origin =s value && url.username =s "" && url.password =s ""

-- `exactHttpsOrigin` of a set variable.
abbrev pub exact_url : String → Option Url → Outcome (Option Url)
exact_url value none = threw
exact_url value (some url) = if is_exact value url then done (some url) else threw

unfoldable pub exact_https_origin : ParseUrl → Option String → Bool → Outcome (Option Url)
exact_https_origin parse none required = if required then threw else done none
exact_https_origin parse (some value) required =
    if value =s "" then (if required then threw else done none) else exact_url value (parse value)

abbrev pub both_origins : Outcome (Option Url) → Outcome (Option Url) → Outcome (List Url)
both_origins (done (some primary)) (done (some lan)) =
    if lan.host =s primary.host then threw else done (primary ∷ lan ∷ [])
both_origins (done (some primary)) (done none) = done (primary ∷ [])
both_origins _ _ = threw

unfoldable pub application_origins : ParseUrl → Environment → Outcome (List Url)
application_origins parse env =
    both_origins (exact_https_origin parse env.voidstation_origin true)
      (exact_https_origin parse env.voidstation_lan_origin false)

-- `applicationOrigins().find((configured) => configured.host === host)`
abbrev pub of_host : Option String → Outcome (List Url) → Outcome (Option Url)
of_host host threw = threw
of_host host (done urls) = done (find (λ url. is_text host url.host) urls)

unfoldable pub application_origin : ParseUrl → Environment → Request → Outcome (Option Url)
application_origin parse env request = of_host request.host (application_origins parse env)

-- `hasSession`: a token that is missing or malformed has no session, whether or not the database opens;
-- for any other one it throws where the database does not open.
abbrev pub session_of : Crypto → Environment → Request → ℕ → Option (List ℕ) → Sql Bool
session_of crypto env request now none db = (done false, db)
session_of crypto env request now (some digest) db =
    let answer = is_valid_session crypto request.session_cookie now db in
    if env.opens_database then answer else (threw, db)

unfoldable pub has_session : Crypto → Environment → Request → ℕ → Sql Bool
has_session crypto env request now db =
    session_of crypto env request now (token_digest crypto request.session_cookie) db

-- ["cross-site", "same-site"].includes(…)
abbrev pub is_foreign : Option String → Bool
is_foreign site = is_text site "cross-site" || is_text site "same-site"

abbrev pub origin_matches : Request → Outcome (Option Url) → Outcome Bool
origin_matches request threw = threw
origin_matches request (done none) = done false
origin_matches request (done (some url)) =
    done (is_text request.origin url.origin && not (is_foreign request.sec_fetch_site))

unfoldable pub has_valid_origin : ParseUrl → Environment → Request → Outcome Bool
has_valid_origin parse env request = origin_matches request (application_origin parse env request)

-- A response: what it says, and its headers, a later value of a name in front.
pub data Answer : Type 0 where
  -- `NextResponse.next()`, or the route's own response
  passes : Answer
  -- `authError(error, status)`
  fails : String → ℕ → Answer
  -- `NextResponse.redirect(new URL(path, origin), status)`
  redirects : String → String → ℕ → Answer
  -- `NextResponse.json({ ok: true })` with the session cookie and its age
  sets_cookie : List ℕ → ℕ → Answer

pub record Response : Type 0 where
  pub answer : Answer
  pub headers : List (String × String)

abbrev pub set_header : String → String → Response → Response
set_header name value response = record response { headers = (name, value) ∷ response.headers }

abbrev pub header : String → List (String × String) → Option String
header name [] = none
header name ((n, v) ∷ rest) = if n =s name then some v else header name rest

abbrev pub plain : Answer → Response
plain answer = record { answer = answer; headers = [] }

abbrev pub auth_error : String → ℕ → Response
auth_error error status = record {
  answer = fails error status;
  headers = ("Cache-Control", "no-store") ∷ [];
}

unfoldable pub secure_response : Response → Response
secure_response response =
    set_header "Content-Security-Policy"
      "frame-ancestors 'none'; base-uri 'self'; form-action 'self'; object-src 'none'"
      (set_header "Strict-Transport-Security" "max-age=31536000" (
        set_header "Referrer-Policy" "no-referrer" (
          set_header "X-Frame-Options" "DENY" (
            set_header "X-Content-Type-Options" "nosniff"
              (set_header "Cache-Control" "no-store" response)))))
