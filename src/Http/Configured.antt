-- ===== src/Http/Configured.antt =====
-- What src/lib/auth-http.ts accepts as the origin of a request, said without its functions.
use voidstation_app.Prelude.{
  Bool, Bool-cases, Option, String, ap, eq_iff, false, if◌then◌else◌, inl, inr, none, refl, some,
  subst, sym, true, ◌=s◌, ◌↔◌, ◌∙◌, ◌≡◌, ◌≢◌, ◌⊎◌, and_iff,
}
use voidstation_app.Auth.Store.{done, threw}
use voidstation_app.Http.Origins.{
  Environment, ParseUrl, Request, Url, exact_https_origin, exact_url, is_exact, is_text,
}

-- The value is an HTTPS origin and nothing more.
pub record IsExact (value : String) (url : Url) : Type 0 where
  pub secure : url.protocol ≡ "https:"
  pub whole : url.origin ≡ value
  pub no_user : url.username ≡ ""
  pub no_password : url.password ≡ ""

-- The variable is set to the URL of an HTTPS origin and to nothing more.
abbrev pub IsOriginOf : ParseUrl → Option String → Url → Type 0
IsOriginOf parse variable url =
    (value : String) × (variable ≡ some value)
    × (value ≢ "")
    × (parse value ≡ some url)
    × IsExact value url

abbrev pub IsUnset : Option String → Type 0
IsUnset variable = (variable ≡ none) ⊎ (variable ≡ some "")

-- The host of the request is that of the first origin, or of a second one on another host, if a
-- second one is set.
abbrev pub NamesOrigin : ParseUrl → Environment → Request → Url → Type 0
NamesOrigin parse env request url =
    (primary : Url) × IsOriginOf parse env.voidstation_origin primary
    × ((IsUnset env.voidstation_lan_origin × (url ≡ primary))
        ⊎ ((lan : Url) × IsOriginOf parse env.voidstation_lan_origin lan
            × (lan.host ≢ primary.host)
            × ((url ≡ primary) ⊎ (url ≡ lan))))
    × (request.host ≡ some url.host)

-- The Origin header is the origin, and Sec-Fetch-Site does not say that another site has sent it.
pub record ComesFrom (request : Request) (url : Url) : Type 0 where
  pub same_origin : request.origin ≡ some url.origin
  pub not_cross : request.sec_fetch_site ≢ some "cross-site"
  pub not_same : request.sec_fetch_site ≢ some "same-site"

pub =s→eq : (s t : String) → (s =s t) ≡ true → s ≡ t
=s→eq s t h = (eq_iff s t).0 h

pub =s→ne : (s t : String) → (s =s t) ≡ false → s ≢ t
=s→ne s t h e = cc (sym h ∙ (eq_iff s t).1 e)

pub is_text_iff : (o : Option String) (t : String) → (is_text o t ≡ true) ↔ (o ≡ some t)
is_text_iff none t = (λ h. cc, λ h. cc)
is_text_iff (some s) t = (λ h. ap some (=s→eq s t h), λ h. (eq_iff s t).1 (let e : s ≡ t = cc in e))

is_exact_iff : (value : String) (url : Url) → (is_exact value url ≡ true) ↔ IsExact value url
is_exact_iff value url = (
  λ h.
      let (front, p) = (and_iff _ _).0 h in
      let (front2, u) = (and_iff _ _).0 front in
      let (s, o) = (and_iff _ _).0 front2 in
      record {
        secure = =s→eq _ _ s;
        whole = =s→eq _ _ o;
        no_user = =s→eq _ _ u;
        no_password = =s→eq _ _ p;
      },
  λ h. (and_iff _ _).1 (
    (and_iff _ _).1 (
      (and_iff _ _).1 ((eq_iff _ _).1 h.secure, (eq_iff _ _).1 h.whole),
      (eq_iff _ _).1 h.no_user,
    ),
    (eq_iff _ _).1 h.no_password,
  ),
)

exact_url_iff :
    (value : String) (parsed : Option Url) (url : Url)
    → (exact_url value parsed ≡ done (some url)) ↔ ((parsed ≡ some url) × IsExact value url)
exact_url_iff value none url = (λ h. cc, λ h. cc h.0)
exact_url_iff value (some u) url = elim (Bool-cases (is_exact value u)) [
  | inl e ↦ rw e (
    λ h.
        let same : u ≡ url = cc in
        (ap some same, (is_exact_iff value url).0 (subst (λ x. is_exact value x ≡ true) same e)),
    λ h. ap done h.0,
  )
  | inr e ↦ rw e (
    λ h. cc,
    λ (h, rest).
        absurd
          (let same : u ≡ url = cc in let k = (is_exact_iff value url).1 rest in not_both same k e),
  )
]
  where
    not_both : u ≡ url → is_exact value url ≡ true → is_exact value u ≡ false → ⊥
    not_both same k e = cc (sym e ∙ ap (is_exact value) same ∙ k)

pub exact_iff :
    (parse : ParseUrl) (variable : Option String) (required : Bool) (url : Url)
    → (exact_https_origin parse variable required ≡ done (some url)) ↔ IsOriginOf parse variable url
unfolding exact_https_origin
exact_iff parse none true url = (λ h. cc, λ h. cc h.1)
exact_iff parse none false url = (λ h. cc, λ h. cc h.1)
exact_iff parse (some value) required url = elim (Bool-cases (value =s "")) [
  | inl e ↦ rw e (
    λ h. absurd (no_url required h),
    λ (v, o, n, p, x). absurd (n (let same : value ≡ v = cc in sym same ∙ =s→eq value "" e)),
  )
  | inr e ↦ rw e (
    λ h.
        let (p, x) = (exact_url_iff value (parse value) url).0 h in
        (value, refl, =s→ne value "" e, p, x),
    λ (v, o, n, p, x).
        let same : v ≡ value = cc in
        (exact_url_iff value (parse value) url).1
          (ap parse (sym same) ∙ p, subst (λ y. IsExact y url) same x),
  )
]
  where
    no_url : (required : Bool) → (if required then threw else done none) ≡ done (some url) → ⊥
    no_url true h = cc
    no_url false h = cc

pub IsUnset-exact_https_origin :
    (parse : ParseUrl) (variable : Option String)
    → (exact_https_origin parse variable false ≡ done none) ↔ IsUnset variable
unfolding exact_https_origin
IsUnset-exact_https_origin parse none = (λ h. inl refl, λ h. refl)
IsUnset-exact_https_origin parse (some value) = elim (Bool-cases (value =s "")) [
  | inl e ↦ rw e (λ h. inr (ap some (=s→eq value "" e)), λ h. refl)
  | inr e ↦ rw e (
    λ h. absurd (no_none (parse value) h),
    λ h. absurd (elim h [ inl k ↦ cc | inr k ↦ =s→ne value "" e cc ]),
  )
]
  where
    no_none : (parsed : Option Url) → exact_url value parsed ≡ done none → ⊥
    no_none none h = cc
    no_none (some u) h = elim (Bool-cases (is_exact value u)) [ inl e ↦ cc | inr e ↦ cc ]
