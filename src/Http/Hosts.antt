-- ===== src/Http/Hosts.antt =====
-- When `applicationOrigin` of src/lib/auth-http.ts finds the origin of a request.
use voidstation_app.Prelude.{
  Bool-cases, Option, String, [], ap, false, find, if◌then◌else◌, inl, inr, none, refl, some, sym,
  true, ◌=s◌, ◌↔◌, ◌∙◌, ◌∷◌, ◌≡◌, ◌≢◌, ◌⊎◌,
}
use voidstation_app.Auth.Store.{Outcome, done, threw}
use voidstation_app.Http.Origins.{
  Environment, ParseUrl, Request, Url, application_origin, application_origins, both_origins,
  exact_https_origin, is_text, of_host,
}
use voidstation_app.Http.Configured.{
  =s→eq, =s→ne, NamesOrigin, exact_iff, is_text_iff, IsUnset-exact_https_origin,
}

with_host_iff :
    (host : Option String) (u url : Url)
    → ((if is_text host u.host then some u else none) ≡ some url)
      ↔ ((url ≡ u) × (host ≡ some url.host))
with_host_iff host u url = elim (Bool-cases (is_text host u.host)) [
  | inl e ↦ rw e (
    λ h.
        let same : u ≡ url = cc in
        (sym same, (is_text_iff host u.host).0 e ∙ ap (λ (x : Url). some x.host) same),
    λ (same, h). ap some (sym same),
  )
  | inr e ↦ rw e (λ h. cc, λ (same, h). absurd (differ same h e))
]
  where
    differ : url ≡ u → host ≡ some url.host → is_text host u.host ≡ false → ⊥
    differ same h e =
        cc (sym e ∙ (is_text_iff host u.host).1 (h ∙ ap (λ (x : Url). some x.host) same))

either_host_iff :
    (host : Option String) (primary lan url : Url)
    → lan.host ≢ primary.host
    → (find (λ (u : Url). is_text host u.host) (primary ∷ lan ∷ []) ≡ some url)
      ↔ (((url ≡ primary) ⊎ (url ≡ lan)) × (host ≡ some url.host))
either_host_iff host primary lan url n = elim (Bool-cases (is_text host primary.host)) [
  | inl e ↦ rw e (
    λ h.
        let same : primary ≡ url = cc in
        (inl (sym same), (is_text_iff host primary.host).0 e ∙ ap (λ (x : Url). some x.host) same),
    λ (which, h). elim which [
      | inl same ↦ ap some (sym same)
      | inr same ↦ absurd (n (other same h ((is_text_iff host primary.host).0 e)))
    ],
  )
  | inr e ↦ rw e (
    λ h. let (same, k) = (with_host_iff host lan url).0 h in (inr same, k),
    λ (which, h). elim which [
      | inl same ↦ absurd (differ same h e)
      | inr same ↦ (with_host_iff host lan url).1 (same, h)
    ],
  )
]
  where
    other : url ≡ lan → host ≡ some url.host → host ≡ some primary.host → lan.host ≡ primary.host
    other same h k =
        let both : some url.host ≡ some primary.host = sym h ∙ k in
        let hosts : url.host ≡ primary.host = cc in ap (λ (x : Url). x.host) (sym same) ∙ hosts

    differ : url ≡ primary → host ≡ some url.host → is_text host primary.host ≡ false → ⊥
    differ same h e =
        cc (sym e ∙ (is_text_iff host primary.host).1 (h ∙ ap (λ (x : Url). some x.host) same))

-- Of one origin or of two on different hosts, the one with the request's host
found_iff :
    (host : Option String) (a b : Outcome (Option Url)) (url : Url)
    → (of_host host (both_origins a b) ≡ done (some url)) ↔ (
        (primary : Url) × (a ≡ done (some primary))
        × (((b ≡ done none) × (url ≡ primary))
            ⊎ ((lan : Url) × (b ≡ done (some lan))
                × (lan.host ≢ primary.host)
                × ((url ≡ primary) ⊎ (url ≡ lan))))
        × (host ≡ some url.host))
found_iff host threw b url = (λ h. cc, λ h. cc h.1)
found_iff host (done none) b url = (λ h. cc, λ h. cc h.1)
found_iff host (done (some primary)) threw url =
    (λ h. cc, λ h. elim h.2 [ inl k ↦ cc k.0 | inr k ↦ cc k.1 ])
found_iff host (done (some primary)) (done none) url = (
  λ h.
      let (same, k) =
        (with_host_iff host primary url).0 (
          let e : (if is_text host primary.host then some primary else none) ≡ some url = cc in
          e) in
      (primary, refl, inl (refl, same), k),
  λ (first, e, which, k).
      let same : primary ≡ first = cc in
      elim which [
        | inl w ↦ ap done ((with_host_iff host primary url).1 (w.1 ∙ sym same, k))
        | inr w ↦ cc w.1
      ],
)
found_iff host (done (some primary)) (done (some lan)) url =
    elim (Bool-cases (lan.host =s primary.host)) [
      | inl e ↦ rw e (
        λ h. cc,
        λ (first, f, which, k).
            let same : primary ≡ first = cc in
            elim which [
              | inl w ↦ cc w.0
              | inr w ↦
                  let lans : lan ≡ w.0 = cc w.1 in absurd (w.2 (one_host first w.0 same lans e))
            ],
      )
      | inr e ↦
          let n = =s→ne lan.host primary.host e in
          rw e (
            λ h.
                let (which, k) = (either_host_iff host primary lan url n).0 (
                  let f : find (λ (u : Url). is_text host u.host) (primary ∷ lan ∷ []) ≡ some url =
                    cc in
                  f) in
                (primary, refl, inr (lan, refl, n, which), k),
            λ (first, f, which, k).
                let same : primary ≡ first = cc in
                elim which [
                  | inl w ↦ cc w.0
                  | inr w ↦
                      let lans : lan ≡ w.0 = cc w.1 in
                      ap done (
                        (either_host_iff host primary lan url n).1
                          (elim w.3 [ inl u ↦ inl (u ∙ sym same) | inr u ↦ inr (u ∙ sym lans) ], k))
                ],
          )
    ]
  where
    one_host :
        (first second : Url)
        → primary ≡ first
        → lan ≡ second
        → (lan.host =s primary.host) ≡ true
        → second.host ≡ first.host
    one_host first second p l e =
        ap (λ (x : Url). x.host) (sym l)
        ∙ =s→eq lan.host primary.host e
        ∙ ap (λ (x : Url). x.host) p

pub application_origin_iff :
    (parse : ParseUrl) (env : Environment) (request : Request) (url : Url)
    → (application_origin parse env request ≡ done (some url)) ↔ NamesOrigin parse env request url
unfolding application_origin application_origins
application_origin_iff parse env request url =
    let found =
      found_iff request.host (exact_https_origin parse env.voidstation_origin true)
        (exact_https_origin parse env.voidstation_lan_origin false) url in
    let first = exact_iff parse env.voidstation_origin true in
    let second = exact_iff parse env.voidstation_lan_origin false in
    let without = IsUnset-exact_https_origin parse env.voidstation_lan_origin in
    (
      λ h.
          let (primary, p, which, k) = found.0 h in
          (
            primary,
            (first primary).0 p,
            elim which [
              | inl (b, same) ↦ inl (without.0 b, same)
              | inr (lan, b, n, w) ↦ inr (lan, (second lan).0 b, n, w)
            ],
            k,
          ),
      λ (primary, p, which, k). found.1 (
        primary,
        (first primary).1 p,
        elim which [
          | inl (b, same) ↦ inl (without.1 b, same)
          | inr (lan, b, n, w) ↦ inr (lan, (second lan).1 b, n, w)
        ],
        k,
      ),
    )
