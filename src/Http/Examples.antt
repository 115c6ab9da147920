-- ===== src/Http/Examples.antt =====
-- The theorems on the HTTP layer at inputs.
use voidstation_app.Prelude.{
  List, [], arith, codes, if◌then◌else◌, inl, inr, leb, length, map, none, refl, replicate, some,
  take, true, ℕ, ◌%◌, ◌++◌, ◌+◌, ◌=s◌, ◌∷◌, ◌≡◌, ◌=b◌,
}
use voidstation_app.Auth.Store.{
  authenticate_owner, begin_login, create_session, done, finish_login, ok, token_digest,
  transaction,
}
use voidstation_app.Auth.Tables.{
  Account, Crypto, Db, insert_session, new_session, reserve_login_attempt,
}
use voidstation_app.Http.Origins.{
  Environment, ParseUrl, Request, Url, passes, plain, secure_response, sets_cookie,
}
use voidstation_app.Http.Configured.{ComesFrom, IsOriginOf, NamesOrigin}
use voidstation_app.Http.Body.{concat, read_bounded, read_bounded_whole}
use voidstation_app.Http.Proxy.{manifest, proxy}
use voidstation_app.Http.Passes.{proxy-passes}
use voidstation_app.Http.Login.{login_route, logout_route}
use voidstation_app.Http.Login.Laws.{IsLoginForm, login_route_iff}
use voidstation_app.Http.Secured.{HasSecurityHeaders, responses-HasSecurityHeaders}

abbrev here : Url
here = record {
  protocol = "https:";
  origin = "https://void.test";
  host = "void.test";
  username = "";
  password = "";
}

abbrev parse : ParseUrl
parse text = if text =s "https://void.test" then some here else none

abbrev env : Environment
env = record {
  voidstation_origin = some "https://void.test";
  voidstation_lan_origin = none;
  opens_database = true;
}

abbrev letter : ℕ → ℕ
letter b = b'a' + b % 26

abbrev crypto : Crypto
crypto = record {
  scrypt = λ password salt. some (replicate 64 (length password));
  sha256 = λ token. take 32 token;
  base64url = λ random. map letter (random ++ take 11 random);
}

abbrev owner : Account
owner = record { password_hash = replicate 64 13; salt = replicate 16 7; revision = 1 }

abbrev owned : Db
owned = record { owner_account = some owner; login_attempt = []; owner_session = [] }

abbrev request : Request
request = record {
  method = "POST";
  pathname = "/api/auth/login";
  host = some "void.test";
  origin = some "https://void.test";
  sec_fetch_site = some "same-origin";
  content_type = some "application/x-www-form-urlencoded; charset=utf-8";
  session_cookie = none;
  chunks = some (codes "correct " ∷ codes "horse" ∷ []);
}

abbrev passwords : List ℕ → List (List ℕ)
passwords bytes = bytes ∷ []

read_bounded_whole_example : read_bounded 2 0 [] ((112 ∷ []) ∷ (113 ∷ 114 ∷ []) ∷ []) ≡ (
    if leb (length (concat ((112 ∷ []) ∷ (113 ∷ 114 ∷ []) ∷ []))) 2
    then some (concat ((112 ∷ []) ∷ (113 ∷ 114 ∷ []) ∷ []))
    else none)
read_bounded_whole_example = read_bounded_whole 2 ((112 ∷ []) ∷ (113 ∷ 114 ∷ []) ∷ [])

request-NamesOrigin : NamesOrigin parse env request here
request-NamesOrigin = (here, here-IsOriginOf, inl (inl refl, refl), refl)
  where
    here-IsOriginOf : IsOriginOf parse (some "https://void.test") here
    here-IsOriginOf = (
      "https://void.test",
      refl,
      λ e. cc,
      refl,
      record { secure = refl; whole = refl; no_user = refl; no_password = refl },
    )

request-ComesFrom : ComesFrom request here
request-ComesFrom = record { same_origin = refl; not_cross = λ e. cc; not_same = λ e. cc }

-- A signed-out client reaches the login route.
proxy-passes_example :
    (proxy parse crypto env (manifest []) request 5 owned).0 ≡ secure_response (plain passes)
proxy-passes_example =
    (proxy-passes parse crypto env (manifest []) request 5 owned).1
      (here, request-NamesOrigin, inr request-ComesFrom, inl (inr (refl, refl)))

abbrev random : List ℕ
random = replicate 32 4

abbrev token : List ℕ
token = replicate 43 b'e'

abbrev signed_in : Db
signed_in = record {
  owner_account = some owner;
  login_attempt = 5 ∷ [];
  owner_session = new_session (replicate 32 b'e') 1 6 ∷ [];
}

request-IsLoginForm : IsLoginForm parse crypto env passwords request (codes "correct horse")
request-IsLoginForm = record {
  from = (here, request-NamesOrigin, request-ComesFrom);
  encoded = ground arith;
  content = (_, refl, record { fits = omega arith; one = refl });
}

gives_token :
    authenticate_owner crypto (codes "correct horse") random 5 6 owned
    ≡ (done (ok token), signed_in)
unfolding authenticate_owner begin_login finish_login create_session reserve_login_attempt
    insert_session transaction token_digest ◌=b◌
gives_token = refl

login_route_iff_example :
    login_route parse crypto env passwords request random 5 6 owned
    ≡ (secure_response (plain (sets_cookie token 28800)), signed_in)
login_route_iff_example =
    (login_route_iff parse crypto env passwords request random token 5 6 owned signed_in).1
      (codes "correct horse", request-IsLoginForm, refl, gives_token)

responses-HasSecurityHeaders_example :
    HasSecurityHeaders (proxy parse crypto env (manifest []) request 5 owned).0
    × HasSecurityHeaders (login_route parse crypto env passwords request [] 5 6 owned).0
    × HasSecurityHeaders (logout_route parse crypto env request 5 owned).0
responses-HasSecurityHeaders_example =
    responses-HasSecurityHeaders parse crypto env (manifest []) passwords request [] 5 6 owned
