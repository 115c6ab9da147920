-- ===== src/Http/Passes.antt =====
-- What the proxy of src/proxy.ts passes on, said without its tests.
use voidstation_app.Prelude.{
  List, String, [], any, eq_iff, inl, inr, some, starts_with, subst, sym, true, ℕ, ◌=s◌, ◌↔◌, ◌∙◌,
  ◌∷◌, ◌≡◌, ◌⊎◌, and_iff, or_iff,
}
use voidstation_app.Auth.Store.{done}
use voidstation_app.Auth.Tables.{Crypto, Db}
use voidstation_app.Http.Origins.{
  Environment, ParseUrl, Request, Url, application_origin, has_session, has_valid_origin, passes,
  plain, secure_response,
}
use voidstation_app.Http.Hosts.{application_origin_iff}
use voidstation_app.Http.Configured.{ComesFrom, NamesOrigin}
use voidstation_app.Http.Sender.{has_valid_origin_iff}
use voidstation_app.Http.Proxy.{
  Assets, development, is_login_asset, is_public, is_safe, manifest, proxy, proxy_iff,
}

abbrev pub IsRead : Request → Type 0
IsRead request = (request.method ≡ "GET") ⊎ (request.method ≡ "HEAD")

abbrev pub IsListed : String → List String → Type 0
IsListed pathname [] = ⊥
IsListed pathname (file ∷ files) = (file ≡ pathname) ⊎ IsListed pathname files

abbrev pub IsLoginAsset : Assets → String → Type 0
IsLoginAsset development pathname =
    (starts_with pathname "/_next/static/" ≡ true)
    ⊎ (starts_with pathname "/_next/webpack-hmr" ≡ true)
IsLoginAsset (manifest files) pathname = IsListed pathname files

-- The login page and its assets may be read, and the login route posted to.
abbrev pub IsOpen : Assets → Request → Type 0
IsOpen assets request =
    (IsRead request × ((request.pathname ≡ "/login") ⊎ IsLoginAsset assets request.pathname))
    ⊎ ((request.pathname ≡ "/api/auth/login") × (request.method ≡ "POST"))

is_safe_iff : (request : Request) → (is_safe request ≡ true) ↔ IsRead request
unfolding is_safe
is_safe_iff request = (
  λ h. elim ((or_iff _ _).0 h) [ inl e ↦ inl ((eq_iff _ _).0 e) | inr e ↦ inr ((eq_iff _ _).0 e) ],
  λ h. (or_iff _ _).1 (elim h [ inl e ↦ inl ((eq_iff _ _).1 e) | inr e ↦ inr ((eq_iff _ _).1 e) ]),
)

IsListed-any :
    (pathname : String) (files : List String)
    → (any (λ file. file =s pathname) files ≡ true) ↔ IsListed pathname files
IsListed-any pathname [] = (λ h. cc, λ h. absurd h)
IsListed-any pathname (file ∷ files) = (
  λ h. elim ((or_iff _ _).0 h) [
    | inl e ↦ inl ((eq_iff _ _).0 e)
    | inr e ↦ inr ((IsListed-any pathname files).0 e)
  ],
  λ h.
      (or_iff _ _).1 (elim h [
        | inl e ↦ inl ((eq_iff _ _).1 e)
        | inr e ↦ inr ((IsListed-any pathname files).1 e)
      ]),
)

is_login_asset_iff :
    (assets : Assets) (pathname : String)
    → (is_login_asset assets pathname ≡ true) ↔ IsLoginAsset assets pathname
unfolding is_login_asset
is_login_asset_iff development pathname = or_iff _ _
is_login_asset_iff (manifest files) pathname = IsListed-any pathname files

is_public_iff :
    (assets : Assets) (request : Request)
    → (is_public assets request ≡ true) ↔ IsOpen assets request
unfolding is_public
is_public_iff assets request = (
  λ h. elim ((or_iff _ _).0 h) [
    | inl e ↦
        let (safe, page) = (and_iff _ _).0 e in
        inl (
          (is_safe_iff request).0 safe,
          elim ((or_iff _ _).0 page) [
            | inl p ↦ inl ((eq_iff _ _).0 p)
            | inr a ↦ inr ((is_login_asset_iff assets request.pathname).0 a)
          ],
        )
    | inr e ↦
        let (path, method) = (and_iff _ _).0 e in inr ((eq_iff _ _).0 path, (eq_iff _ _).0 method)
  ],
  λ h. (or_iff _ _).1 (elim h [
    | inl (safe, page) ↦ inl (
        (and_iff _ _).1 (
          (is_safe_iff request).1 safe,
          (or_iff _ _).1 (elim page [
            | inl p ↦ inl ((eq_iff _ _).1 p)
            | inr a ↦ inr ((is_login_asset_iff assets request.pathname).1 a)
          ]),
        ))
    | inr (path, method) ↦ inr ((and_iff _ _).1 ((eq_iff _ _).1 path, (eq_iff _ _).1 method))
  ]),
)

module _ (parse : ParseUrl) (crypto : Crypto) (env : Environment) (assets : Assets) where
  from_origin_iff :
      (request : Request) (url : Url)
      → application_origin parse env request ≡ done (some url)
      → ((is_safe request ≡ true) ⊎ (has_valid_origin parse env request ≡ done true))
        ↔ (IsRead request ⊎ ComesFrom request url)
  from_origin_iff request url found = (
    λ h. elim h [
      | inl s ↦ inl ((is_safe_iff request).0 s)
      | inr v ↦
          let (u, n, c) = (has_valid_origin_iff parse env request).0 v in
          let same : u ≡ url =
            cc (sym ((application_origin_iff parse env request u).1 n) ∙ found) in
          inr (subst (ComesFrom request) same c)
    ],
    λ h. elim h [
      | inl s ↦ inl ((is_safe_iff request).1 s)
      | inr c ↦ inr (
          (has_valid_origin_iff parse env request).1
            (url, (application_origin_iff parse env request url).0 found, c))
    ],
  )

  IsOpen-is_public :
      (request : Request) (P : Type 0)
      → ((is_public assets request ≡ true) ⊎ P) ↔ (IsOpen assets request ⊎ P)
  IsOpen-is_public request P = (
    λ h. elim h [ inl e ↦ inl ((is_public_iff assets request).0 e) | inr e ↦ inr e ],
    λ h. elim h [ inl e ↦ inl ((is_public_iff assets request).1 e) | inr e ↦ inr e ],
  )

  -- The proxy passes a request on exactly when its host is that of a configured origin, it is a read
  -- or its Origin header is that origin and no other site has sent it, and it reads the login page or
  -- a login asset, posts to the login route, or has a valid session.
  pub proxy-passes :
      (request : Request) (now : ℕ) (db : Db)
      → ((proxy parse crypto env assets request now db).0 ≡ secure_response (plain passes)) ↔ (
          (url : Url) × NamesOrigin parse env request url
          × (IsRead request ⊎ ComesFrom request url)
          × (IsOpen assets request ⊎ ((has_session crypto env request now db).0 ≡ done true)))
  proxy-passes request now db =
      let guards = proxy_iff parse crypto env assets request now db in
      (
        λ h.
            let (url, found, from, allowed) = guards.0 h in
            (
              url,
              (application_origin_iff parse env request url).0 found,
              (from_origin_iff request url found).0 from,
              (IsOpen-is_public request _).0 allowed,
            ),
        λ (url, named, from, allowed).
            let found = (application_origin_iff parse env request url).1 named in
            guards.1 (
              url,
              found,
              (from_origin_iff request url found).1 from,
              (IsOpen-is_public request _).1 allowed,
            ),
      )
