-- ===== src/Gateway/Agreement.antt =====
-- What src/lib/assistant-worker.ts sends, worker/src/server.ts takes for what it is.
use voidstation_app.Prelude.{
  =b→eq, Bool, Bool-cases, List, Option, String, [], ap, arith, codes, eq_iff, false, if◌then◌else◌,
  inl, inr, refl, subst, sym, true, ℕ, ◌&&◌, ◌=b◌, ◌=s◌, ◌∙◌, ◌∷◌, ◌≡◌,
}
use voidstation_app.Http.Origins.{Request}
use voidstation_app.Gateway.Json.{Json}
use voidstation_app.Gateway.Routes.{body}
use voidstation_app.Gateway.Forward.{
  Aimed, Content, Target, aim, allows, at_aimed, at_target, conversations_target, empty_content,
  events_target, is_uuid, misses, no_content, one_target, operation_target, sends, settings_content,
  settings_target, turn_content, turns_target, with_body,
}
use voidstation_app.Gateway.Decisions.{
  IsFit, bodiless, creates_one, deletes_one, lists, posted, posts_turn, put, reads_one,
  reads_settings, settings_submission_lem, streams, submission_empty_lem, submission_turn_lem,
  writes_settings,
}

recast :
    (t to : Target) (m method : String) (c sent : Content)
    → t ≡ to
    → method ≡ m
    → sent ≡ c
    → IsFit t m c
    → IsFit to method sent
recast t to m method c sent p q r v =
    subst (λ x. IsFit to method x) (sym r)
      (subst (λ x. IsFit to x c) (sym q) (subst (λ x. IsFit x m c) p v))

module _ (parse : List ℕ → Option Json) (request : Request) (to : Target) (sent : Content) where
  abbrev IsMethod : String → Type 0
  IsMethod m = request.method ≡ m

  is_method : (m : String) → (request.method =s m) ≡ true → IsMethod m
  is_method m h = (eq_iff request.method m).0 h

  is_other : (m n : String) → IsMethod m → (m =s n) ≡ false → (request.method =s n) ≡ false
  is_other m n e h = ap (λ x. x =s n) e ∙ h

  -- A target that is asked for by a method without a body.
  bodiless-IsFit :
      (target : Target) (m : String)
      → (m =s "POST") ≡ false
      → (m =s "PUT") ≡ false
      → IsMethod m
      → IsFit target m no_content
      → with_body parse request target ≡ sends to sent
      → IsFit to request.method sent
  bodiless-IsFit target m a b e v h =
      let (t, c) =
        bodiless parse request to sent target (is_other m "POST" e a) (is_other m "PUT" e b) h in
      recast target to m request.method no_content sent t e c v

  pub at_target-IsFit :
      (target : Target)
      → allows target request.method ≡ true
      → with_body parse request target ≡ sends to sent
      → IsFit to request.method sent
  at_target-IsFit settings_target a h = elim (Bool-cases (request.method =s "GET")) [
    | inl g ↦ bodiless-IsFit settings_target "GET" refl refl (is_method "GET" g) reads_settings h
    | inr g ↦
        let e = is_method "PUT" (ground arith) in
        let (t, found) =
          put parse request to sent settings_target (is_other "PUT" "POST" e refl) (ground arith)
            h in
        let (value, k) = found in
        let (provider, model, c) = settings_submission_lem value sent k in
        recast settings_target to "PUT" request.method (settings_content provider model) sent t e c
          (writes_settings provider model)
  ]
  at_target-IsFit conversations_target a h = elim (Bool-cases (request.method =s "GET")) [
    | inl g ↦ bodiless-IsFit conversations_target "GET" refl refl (is_method "GET" g) lists h
    | inr g ↦
        let e = is_method "POST" (ground arith) in
        let (t, found) = posted parse request to sent conversations_target (ground arith) h in
        let (value, k) = found in
        recast conversations_target to "POST" request.method empty_content sent t e
          (submission_empty_lem value sent k) creates_one
  ]
  at_target-IsFit (one_target id) a h = elim (Bool-cases (request.method =s "GET")) [
    | inl g ↦ bodiless-IsFit (one_target id) "GET" refl refl (is_method "GET" g) (reads_one id) h
    | inr g ↦
        bodiless-IsFit (one_target id) "DELETE" refl refl (is_method "DELETE" (ground arith))
          (deletes_one id) h
  ]
  at_target-IsFit (turns_target id) a h =
      let (t, found) = posted parse request to sent (turns_target id) a h in
      let (value, k) = found in
      let (body, b, c) = submission_turn_lem value sent k in
      recast (turns_target id) to "POST" request.method (turn_content body) sent t
        (is_method "POST" a) c (posts_turn id body b)
  at_target-IsFit (events_target id) a h =
      bodiless-IsFit (events_target id) "GET" refl refl (is_method "GET" a) (streams id) h

  pub with_body-target :
      (target : Target) → with_body parse request target ≡ sends to sent → target ≡ to
  with_body-target target h = elim (Bool-cases (request.method =s "POST")) [
    | inl a ↦ (posted parse request to sent target a h).0
    | inr a ↦ elim (Bool-cases (request.method =s "PUT")) [
      | inl b ↦ (put parse request to sent target a b h).0
      | inr b ↦ (bodiless parse request to sent target a b h).0
    ]
  ]

  pub allowed-cases :
      (target : Target)
      → at_aimed parse request (at_target target) ≡ sends to sent
      → (target ≡ to) × IsFit to request.method sent
  allowed-cases target e = elim (Bool-cases (allows target request.method)) [
    | inl a ↦
        let h : with_body parse request target ≡ sends to sent = ground arith in
        (with_body-target target h, at_target-IsFit target a h)
    | inr a ↦ absurd (ground arith)
  ]

-- The segments that a target stands for.
abbrev pub segments_of : Target → List (List ℕ)
segments_of settings_target = codes "settings" ∷ []
segments_of conversations_target = codes "conversations" ∷ []
segments_of (one_target id) = codes "conversations" ∷ id ∷ []
segments_of (turns_target id) = codes "conversations" ∷ id ∷ codes "turns" ∷ []
segments_of (events_target id) = codes "conversations" ∷ id ∷ codes "events" ∷ []

abbrev pub HasUuid : Target → Type 0
HasUuid settings_target = Unit
HasUuid conversations_target = Unit
HasUuid (one_target id) = is_uuid id ≡ true
HasUuid (turns_target id) = is_uuid id ≡ true
HasUuid (events_target id) = is_uuid id ≡ true

abbrev pub IsAt : List (List ℕ) → Aimed → Type 0
IsAt segments (misses error) = Unit
IsAt segments (at_target target) = (segments ≡ segments_of target) × HasUuid target

and_left : (a b : Bool) → (a && b) ≡ true → a ≡ true
and_left a b h = ground arith

pick :
    (segments : List (List ℕ)) (b : Bool) (x y : Aimed)
    → (b ≡ true → IsAt segments x)
    → (b ≡ false → IsAt segments y)
    → IsAt segments (if b then x else y)
pick segments true x y p q = p refl
pick segments false x y p q = q refl

conversation_id-IsAt :
    (c id op : List ℕ)
    → (c =b codes "conversations" && is_uuid id) ≡ true
    → IsAt (c ∷ id ∷ op ∷ []) (operation_target id op)
conversation_id-IsAt c id op h =
    let same : c ≡ codes "conversations" = =b→eq c (codes "conversations") (ground arith) in
    let uuid : is_uuid id ≡ true = ground arith in
    pick (c ∷ id ∷ op ∷ []) (op =b codes "turns") _ _
      (λ t. (λ i. same i ∷ id ∷ =b→eq op (codes "turns") t i ∷ [], uuid))
      (λ t.
        pick (c ∷ id ∷ op ∷ []) (op =b codes "events") _ _
          (λ v. (λ i. same i ∷ id ∷ =b→eq op (codes "events") v i ∷ [], uuid)) (λ v. tt))

pub aim-IsAt : (segments : List (List ℕ)) → IsAt segments (aim segments)
unfolding aim
aim-IsAt [] = tt
aim-IsAt (c ∷ []) =
    pick (c ∷ []) (c =b codes "settings") _ _ (λ h. (λ i. =b→eq c (codes "settings") h i ∷ [], tt))
      (λ h.
        pick (c ∷ []) (c =b codes "conversations") _ _
          (λ k. (λ i. =b→eq c (codes "conversations") k i ∷ [], tt)) (λ k. tt))
aim-IsAt (c ∷ id ∷ []) =
    pick (c ∷ id ∷ []) (c =b codes "settings") _ _ (λ h. tt)
      (λ h.
        pick (c ∷ id ∷ []) (c =b codes "conversations" && is_uuid id) _ _
          (λ k. (λ i. =b→eq c (codes "conversations") (and_left _ _ k) i ∷ id ∷ [], ground arith))
          (λ k. tt))
aim-IsAt (c ∷ id ∷ op ∷ []) =
    pick (c ∷ id ∷ op ∷ []) (c =b codes "settings") _ _ (λ h. tt)
      (λ h.
        pick (c ∷ id ∷ op ∷ []) (c =b codes "conversations" && is_uuid id) _ _
          (λ k. conversation_id-IsAt c id op k) (λ k. tt))
aim-IsAt (c ∷ id ∷ op ∷ x ∷ rest) =
    pick (c ∷ id ∷ op ∷ x ∷ rest) (c =b codes "settings") _ _ (λ h. tt) (λ h. tt)
