-- ===== src/Http/Login/Laws.antt =====
-- When the login route of src/app/api/auth/login/route.ts opens a session, and when it leaves the
-- database alone; and what the logout route closes.
use voidstation_app.Prelude.{
  Bool, Bool-cases, List, Option, [], ap, arith, dec_le, false, inl, inr, length, none, refl, some,
  subst, sym, true, ℕ, ◌↔◌, ◌∙◌, ◌∷◌, ◌≡◌, ◌≤◌,
}
use voidstation_app.Auth.Store.{
  LoginResult, Outcome, authenticate_owner, done, invalid, ok, threw, too_many,
}
use voidstation_app.Auth.Tables.{Crypto, Db, session_max_age_seconds}
use voidstation_app.Http.Origins.{
  Environment, ParseUrl, Request, Response, has_valid_origin, plain, secure_response, sets_cookie,
  Url,
}
use voidstation_app.Http.Configured.{ComesFrom, NamesOrigin}
use voidstation_app.Http.Sender.{has_valid_origin_iff}
use voidstation_app.Http.Login.MediaType.{HasMediaType, has_form_type_iff}
use voidstation_app.Http.Body.{concat, read_bounded_fits, read_bounded_large}
use voidstation_app.Http.Login.{
  Form, after_form, answer_login, early, has_type, login_limit, login_route, of_body, of_origin,
  of_stream, one_password, password, read_form, authenticated,
}

one_password_iff :
    (found : List (List ℕ)) (p : List ℕ) → (one_password found ≡ password p) ↔ (found ≡ p ∷ [])
one_password_iff [] p = (λ e. cc e, λ e. cc e)
one_password_iff (q ∷ []) p = (λ e. cc e, λ e. cc e)
one_password_iff (q ∷ r ∷ rest) p = (λ e. cc e, λ e. cc e)

module _ (parse : ParseUrl) (crypto : Crypto) (env : Environment)
    (passwords : List ℕ → List (List ℕ)) where
  -- The body has at most 8192 bytes, and one password.
  pub record HasPassword (chunks : List (List ℕ)) (p : List ℕ) : Type 0 where
    pub fits : length (concat chunks) ≤ 8192
    pub one : passwords (concat chunks) ≡ p ∷ []

  -- A form that asks for a login comes from a configured origin and is URL-encoded.
  pub record IsLoginForm (request : Request) (p : List ℕ) : Type 0 where
    pub from : (url : Url) × NamesOrigin parse env request url × ComesFrom request url
    pub encoded : HasMediaType "application/x-www-form-urlencoded" request.content_type
    pub content : (chunks : List (List ℕ)) × (request.chunks ≡ some chunks) × HasPassword chunks p

  of_stream_iff :
      (chunks : Option (List (List ℕ))) (p : List ℕ)
      → (of_stream passwords chunks ≡ password p) ↔ (
          (cs : List (List ℕ)) × (chunks ≡ some cs)
          × (length (concat cs) ≤ login_limit)
          × (passwords (concat cs) ≡ p ∷ []))
  of_stream_iff none p = (λ e. cc e, λ h. cc h.1)
  of_stream_iff (some cs) p = elim (dec_le (length (concat cs)) login_limit) [
    | yes fits ↦
        let read = ap (of_body passwords) (read_bounded_fits login_limit cs fits) in
        (
          λ e. (cs, refl, fits, (one_password_iff (passwords (concat cs)) p).0 (sym read ∙ e)),
          λ h.
              read
              ∙ (one_password_iff (passwords (concat cs)) p).1
                  (ap (λ x. passwords (concat x)) (let same : cs ≡ h.0 = cc h.1 in same) ∙ h.3),
        )
    | no large ↦
        let read = ap (of_body passwords) (read_bounded_large login_limit cs (omega arith)) in
        (
          λ e. cc (sym read ∙ e),
          λ h. absurd (
              large (
                subst (λ x. length (concat x) ≤ login_limit)
                  (sym (let same : cs ≡ h.0 = cc h.1 in same)) h.2)),
        )
  ]

  of_origin_iff :
      (request : Request) (p : List ℕ) (valid : Outcome Bool)
      → (of_origin passwords request valid ≡ done (password p)) ↔ (
          (valid ≡ done true)
          × (has_type "application/x-www-form-urlencoded" request.content_type ≡ true)
          × (of_stream passwords request.chunks ≡ password p))
  of_origin_iff request p threw = (λ e. cc e, λ h. cc h.0)
  of_origin_iff request p (done false) = (λ e. cc e, λ h. cc h.0)
  of_origin_iff request p (done true) =
      elim (Bool-cases (has_type "application/x-www-form-urlencoded" request.content_type)) [
        | inl t ↦ rw t (λ e. (refl, refl, cc e), λ h. ap done h.2)
        | inr t ↦ rw t (λ e. cc e, λ h. cc h.1)
      ]

  read_form_iff :
      (request : Request) (p : List ℕ)
      → (read_form parse crypto env passwords request ≡ done (password p)) ↔ IsLoginForm request p
  unfolding read_form
  read_form_iff request p =
      let a = of_origin_iff request p (has_valid_origin parse env request) in
      let b = of_stream_iff request.chunks p in
      let origin = has_valid_origin_iff parse env request in
      let type = has_form_type_iff request.content_type in
      (
        λ e.
            let (chunks, c, fits, one) = b.0 (a.0 e).2 in
            record {
              from = origin.0 (a.0 e).0;
              encoded = type.0 (a.0 e).1;
              content = (chunks, c, record { fits = fits; one = one });
            },
        λ h.
            let (chunks, c, form) = h.content in
            a.1 (origin.1 h.from, type.1 h.encoded, b.1 (chunks, c, form.fits, form.one)),
      )

  answer_login_iff :
      (r : Outcome LoginResult × Db) (token : List ℕ) (after : Db)
      → (answer_login r
          ≡ (secure_response (plain (sets_cookie token session_max_age_seconds)), after))
        ↔ (r ≡ (done (ok token), after))
  unfolding secure_response
  answer_login_iff (threw, db) token after = (
    λ e. cc (ap (λ (r : Response × Db). r.0) e),
    λ e. cc (ap (λ (r : Outcome LoginResult × Db). r.0) e),
  )
  answer_login_iff (done (too_many n), db) token after = (
    λ e. cc (ap (λ (r : Response × Db). r.0) e),
    λ e. cc (ap (λ (r : Outcome LoginResult × Db). r.0) e),
  )
  answer_login_iff (done invalid, db) token after = (
    λ e. cc (ap (λ (r : Response × Db). r.0) e),
    λ e. cc (ap (λ (r : Outcome LoginResult × Db). r.0) e),
  )
  answer_login_iff (done (ok t), db) token after = (λ e. ground arith, λ e. ap answer_login e)

  authenticated_iff :
      (p random : List ℕ) (start end : ℕ) (db after : Db) (token : List ℕ)
      → (authenticated parse crypto env passwords p random start end db ≡ (done (ok token), after))
        ↔ ((env.opens_database ≡ true)
            × (authenticate_owner crypto p random start end db ≡ (done (ok token), after)))
  authenticated_iff p random start end db after token = elim (Bool-cases env.opens_database) [
    | inl o ↦ rw o (λ e. (refl, e), λ h. h.1)
    | inr o ↦ rw o (λ e. cc (ap (λ (r : Outcome LoginResult × Db). r.0) e), λ h. cc h.0)
  ]

  after_form_iff :
      (random : List ℕ) (start end : ℕ) (db after : Db) (token : List ℕ) (form : Outcome Form)
      → (after_form parse crypto env passwords random start end db form
          ≡ (secure_response (plain (sets_cookie token session_max_age_seconds)), after))
        ↔ ((p : List ℕ) × (form ≡ done (password p))
            × (env.opens_database ≡ true)
            × (authenticate_owner crypto p random start end db ≡ (done (ok token), after)))
  unfolding secure_response
  after_form_iff random start end db after token threw =
      (λ e. cc (ap (λ (r : Response × Db). r.0) e), λ h. cc h.1)
  after_form_iff random start end db after token (done (early error status)) =
      (λ e. cc (ap (λ (r : Response × Db). r.0) e), λ h. cc h.1)
  after_form_iff random start end db after token (done (password p)) =
      let a =
        answer_login_iff (authenticated parse crypto env passwords p random start end db) token
          after in
      let b = authenticated_iff p random start end db after token in
      (
        λ e. let (opens, given) = b.0 (a.0 e) in (p, refl, opens, given),
        λ h. a.1 (
            b.1 (
              h.2,
              let same : p ≡ h.0 = cc h.1 in
                  ap (λ x. authenticate_owner crypto x random start end db) same ∙ h.3,
            )),
      )

  -- The login route sets a session cookie exactly when the request is a login form, the database
  -- opens and `authenticateOwner` gives a token for the password of the form; the cookie holds that
  -- token for 28,800 seconds, and the database after it is the one that `authenticateOwner` leaves.
  pub login_route_iff :
      (request : Request) (random token : List ℕ) (start end : ℕ) (db after : Db)
      → (login_route parse crypto env passwords request random start end db
          ≡ (secure_response (plain (sets_cookie token 28800)), after))
        ↔ ((p : List ℕ) × IsLoginForm request p
            × (env.opens_database ≡ true)
            × (authenticate_owner crypto p random start end db ≡ (done (ok token), after)))
  unfolding login_route
  login_route_iff request random token start end db after =
      let a =
        after_form_iff random start end db after token
          (read_form parse crypto env passwords request) in
      (
        λ e. ((a.0 e).0, (read_form_iff request (a.0 e).0).0 (a.0 e).1, (a.0 e).2, (a.0 e).3),
        λ h. a.1 (h.0, (read_form_iff request h.0).1 h.1, h.2, h.3),
      )
