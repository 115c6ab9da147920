-- ===== src/Http/Sender.antt =====
-- When `hasValidOrigin` of src/lib/auth-http.ts accepts a request.
use voidstation_app.Prelude.{
  Bool-cases, Option, String, ap, false, inl, inr, none, not, refl, some, subst, sym, true, ◌&&◌,
  ◌↔◌, ◌∙◌, ◌≡◌, ◌≢◌, and_iff, not_iff, or_false_iff,
}
use voidstation_app.Auth.Store.{Outcome, done, threw}
use voidstation_app.Http.Origins.{
  Environment, ParseUrl, Request, Url, application_origin, has_valid_origin, is_foreign, is_text,
  origin_matches,
}
use voidstation_app.Http.Hosts.{application_origin_iff}
use voidstation_app.Http.Configured.{ComesFrom, NamesOrigin, is_text_iff}

is_not_iff : (o : Option String) (t : String) → (is_text o t ≡ false) ↔ (o ≢ some t)
is_not_iff o t = (
  λ h e. cc (sym h ∙ (is_text_iff o t).1 e),
  λ n. elim (Bool-cases (is_text o t)) [ inl e ↦ absurd (n ((is_text_iff o t).0 e)) | inr e ↦ e ],
)

origin_matches_iff :
    (request : Request) (url : Url)
    → (origin_matches request (done (some url)) ≡ done true) ↔ ComesFrom request url
origin_matches_iff request url = (
  λ h.
      let e : (is_text request.origin url.origin && not (is_foreign request.sec_fetch_site))
          ≡ true =
        cc in
      let (o, f) = (and_iff _ _).0 e in
      let (c, s) = (or_false_iff _ _).0 ((not_iff _).0 f) in
      record {
        same_origin = (is_text_iff _ _).0 o;
        not_cross = (is_not_iff _ _).0 c;
        not_same = (is_not_iff _ _).0 s;
      },
  λ h.
      let f =
        (or_false_iff _ _).1 ((is_not_iff _ _).1 h.not_cross, (is_not_iff _ _).1 h.not_same) in
      ap done ((and_iff _ _).1 ((is_text_iff _ _).1 h.same_origin, ap not f)),
)

pub has_valid_origin_iff :
    (parse : ParseUrl) (env : Environment) (request : Request)
    → (has_valid_origin parse env request ≡ done true)
      ↔ ((url : Url) × NamesOrigin parse env request url × ComesFrom request url)
unfolding has_valid_origin
has_valid_origin_iff parse env request =
    of_found (application_origin parse env request) (application_origin_iff parse env request)
  where
    of_found :
        (o : Outcome (Option Url))
        → ((url : Url) → (o ≡ done (some url)) ↔ NamesOrigin parse env request url)
        → (origin_matches request o ≡ done true)
          ↔ ((url : Url) × NamesOrigin parse env request url × ComesFrom request url)
    of_found threw f = (λ h. cc, λ (url, n, c). cc ((f url).1 n))
    of_found (done none) f = (λ h. cc, λ (url, n, c). cc ((f url).1 n))
    of_found (done (some u)) f = (
      λ h. (u, (f u).0 refl, (origin_matches_iff request u).0 h),
      λ (url, n, c).
          let same : u ≡ url = cc ((f url).1 n) in
          (origin_matches_iff request u).1 (subst (ComesFrom request) (sym same) c),
    )
