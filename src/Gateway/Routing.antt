-- ===== src/Gateway/Routing.antt =====
-- The router of worker/src/server.ts on the requests that src/lib/assistant-worker.ts makes.
use voidstation_app.Prelude.{
  =b_refl, All, List, Option, String, [], ap, append-nil, arith, codes, if◌then◌else◌, length, none,
  refl, some, subst, sym, true, ℕ, ◌++◌, ◌=b◌, ◌=s◌, ◌∙◌, ◌∷◌, ◌≡◌, ◌≤◌,
}
use voidstation_app.Conversations.Settings.{Provider, openai_codex, openrouter, provider_name}
use voidstation_app.Http.Body.{concat, read_bounded, read_bounded_fits}
use voidstation_app.Gateway.Json.{Json, field, max_body_bytes, no_field, object, text}
use voidstation_app.Gateway.Routes.{
  Action, InternalRequest, authorized, bad_turn, body, bounded_text, create, create_action,
  delete_one, is_empty_object, list_all, no_route, parse_body, parse_raw, parts_action, parts_of,
  push_part, read_detail, read_events, read_settings, route, settings_action, settings_body,
  split_from, submit, turn_action, turn_body, valid_id, write_settings,
}
use voidstation_app.Gateway.Forward.{
  Aimed, Content, Target, aim, at_aimed, at_target, content_bytes, conversations_target, decide,
  empty_content, events_target, is_uuid, join, misses, no_content, one_target, sends,
  settings_content, settings_target, turn_content, turns_target, upstream, uuid_pattern,
}
use voidstation_app.Gateway.Paths.{HasNoSlash, matches-lem, split_from-end, split_from-slash}
use voidstation_app.Gateway.Decisions.{
  IsFit, creates_one, deletes_one, lists, posts_turn, reads_one, reads_settings, streams,
  writes_settings,
}
use voidstation_app.Gateway.Agreement.{HasUuid, IsAt, aim-IsAt, allowed-cases, segments_of}
use voidstation_app.Http.Origins.{Request}

-- What the application means by what it sends.
unfoldable pub action_of : Target → String → Content → Action
action_of settings_target method (settings_content provider model) = write_settings provider model
action_of settings_target method sent = read_settings
action_of conversations_target method empty_content = create
action_of conversations_target method sent = list_all
action_of (one_target id) method sent = if method =s "DELETE" then delete_one id else read_detail id
action_of (turns_target id) method (turn_content t) = submit id t
action_of (turns_target id) method sent = no_route
action_of (events_target id) method sent = read_events id

push_part-solid :
    (id : List ℕ) (parts : List (List ℕ)) → length id ≡ 36 → push_part id parts ≡ id ∷ parts
push_part-solid [] parts h = absurd (omega (arith, h))
push_part-solid (c ∷ id) parts h = refl

parts_of-one :
    (id : List ℕ)
    → HasNoSlash id
    → length id ≡ 36
    → parts_of (join (codes "conversations" ∷ id ∷ [])) ≡ codes "conversations" ∷ id ∷ []
unfolding split_from
parts_of-one id n h =
    split_from-slash (codes "conversations") [] (id ++ []) refl
    ∙ ap (λ (x : List (List ℕ)). codes "conversations" ∷ x)
        (rw (append-nil id) (split_from-end id [] n ∙ push_part-solid id [] h))

parts_of-operation :
    (id op : List ℕ)
    → HasNoSlash id
    → length id ≡ 36
    → HasNoSlash op
    → parts_of (join (codes "conversations" ∷ id ∷ op ∷ []))
      ≡ codes "conversations" ∷ id ∷ push_part op []
unfolding split_from
parts_of-operation id op n h k =
    split_from-slash (codes "conversations") [] (id ++ (47 ∷ (op ++ []))) refl
    ∙ ap (λ (x : List (List ℕ)). codes "conversations" ∷ x)
        (rw (append-nil op) (
          split_from-slash id [] op n
          ∙ ap (push_part id) (split_from-end op [] k)
          ∙ push_part-solid id (push_part op []) h))

upstream-authorized :
    (stringify : Json → List ℕ) (token : List ℕ) (method : String) (segments : List (List ℕ))
    (sent : Content)
    → authorized token (upstream stringify token method segments sent) ≡ true
unfolding authorized upstream ◌=b◌
upstream-authorized stringify token method segments sent = =b_refl token

-- What is relied on of JSON: what is written is not empty and is read back.
pub record ReadsBack (parse : List ℕ → Option Json) (stringify : Json → List ℕ) : Type 0 where
  pub reads : (sent : Content) → All (λ bytes. (1 ≤ length bytes)) (content_bytes stringify sent)
  pub empty : parse (codes "{}") ≡ some (object no_field)
  pub turn :
      (t : List ℕ)
      → parse (stringify (object (field "text" (text t) no_field)))
        ≡ some (object (field "text" (text t) no_field))
  pub settings :
      (provider : Provider) (model : List ℕ)
      → parse (
          stringify (
            object (
              field "provider"
                (text (codes (provider_name provider)))
                (field "model" (text model) no_field))))
        ≡ some (
            object (
              field "provider"
                (text (codes (provider_name provider)))
                (field "model" (text model) no_field)))

parse_raw-lem :
    (parse : List ℕ → Option Json) (bytes : List ℕ)
    → 1 ≤ length bytes
    → parse_raw parse bytes ≡ parse bytes
parse_raw-lem parse [] h = absurd (omega (arith, h))
parse_raw-lem parse (b ∷ bytes) h = refl

body-lem :
    (parse : List ℕ → Option Json) (request : InternalRequest) (bytes : List ℕ)
    → request.chunks ≡ bytes ∷ []
    → length bytes ≤ max_body_bytes
    → 1 ≤ length bytes
    → body parse request ≡ parse bytes
unfolding body
body-lem parse request bytes e l n =
    ap (λ chunks. parse_body parse (read_bounded max_body_bytes 0 [] chunks)) e
    ∙ ap (parse_body parse)
        (read_bounded_fits max_body_bytes (bytes ∷ []) (rw (append-nil bytes) l))
    ∙ rw (append-nil bytes) (parse_raw-lem parse bytes n)

module _ (parse : List ℕ → Option Json) (stringify : Json → List ℕ) (token : List ℕ)
    (json : ReadsBack parse stringify) where
  abbrev sent_request : Target → String → Content → InternalRequest
  sent_request target method sent = upstream stringify token method (segments_of target) sent

  authorize :
      (target : Target) (method : String) (sent : Content)
      → authorized token (sent_request target method sent) ≡ true
  authorize target method sent =
      upstream-authorized stringify token method (segments_of target) sent

  -- Up to the parts of the path nothing else matches a path below /conversations/.
  abbrev IsRouted : Target → String → Content → Type 0
  IsRouted target method sent =
      length (concat (content_bytes stringify sent)) ≤ max_body_bytes
      → route parse token (sent_request target method sent) ≡ action_of target method sent

  bytes-lem :
      (target : Target) (method : String) (sent : Content) (bytes : List ℕ)
      → content_bytes stringify sent ≡ bytes ∷ []
      → length (concat (content_bytes stringify sent)) ≤ max_body_bytes
      → body parse (sent_request target method sent) ≡ parse bytes
  unfolding upstream
  bytes-lem target method sent bytes e l =
      body-lem parse (sent_request target method sent) bytes e
        (subst (λ x. length x ≤ max_body_bytes) (append-nil bytes)
          (subst (λ x. length (concat x) ≤ max_body_bytes) e l))
        (subst (All (λ b. 1 ≤ length b)) e (json.reads sent)).0

  settings-IsRouted :
      (provider : Provider) (model : List ℕ)
      → IsRouted settings_target "PUT" (settings_content provider model)
  unfolding route action_of upstream ◌=b◌ settings_body
  settings-IsRouted openai_codex model l =
      rw (authorize settings_target "PUT" (settings_content openai_codex model)) (
        ap settings_action (
          bytes-lem settings_target "PUT" (settings_content openai_codex model) _ refl l
          ∙ json.settings openai_codex model))
  settings-IsRouted openrouter model l =
      rw (authorize settings_target "PUT" (settings_content openrouter model)) (
        ap settings_action (
          bytes-lem settings_target "PUT" (settings_content openrouter model) _ refl l
          ∙ json.settings openrouter model))

  -- A valid identifier leads to the last tests of the router.
  uuid-valid_id :
      (id : List ℕ) → is_uuid id ≡ true → (valid_id id ≡ true) × HasNoSlash id × (length id ≡ 36)
  unfolding valid_id
  uuid-valid_id id u = let (l, n, v) = matches-lem uuid_pattern id u in (rw (l, v) refl, n, l)

  turn_action-lem :
      (id t : List ℕ)
      → bounded_text (some t) ≡ some t
      → turn_action id (some (object (field "text" (text t) no_field))) ≡ submit id t
  unfolding turn_body
  turn_action-lem id t b =
      ap (λ (o : Option (List ℕ)). elim o [ none ↦ bad_turn | some x ↦ submit id x ]) b

  aimed-cases :
      (request : Request) (segments : List (List ℕ)) (target : Target) (sent : Content)
      (aimed : Aimed)
      → aim segments ≡ aimed
      → at_aimed parse request aimed ≡ sends target sent
      → (aim segments ≡ at_target target) × IsFit target request.method sent
  aimed-cases request segments target sent (misses error) p e = absurd (ground arith)
  aimed-cases request segments target sent (at_target t) p e =
      let (same, fit) = allowed-cases parse request target sent t e in (p ∙ ap at_target same, fit)

  routed :
      (target : Target) (method : String) (sent : Content)
      → IsFit target method sent
      → HasUuid target
      → IsRouted target method sent
  unfolding route action_of upstream ◌=b◌ parts_action is_empty_object turn_body
  routed _ _ _ reads_settings u l = rw (authorize settings_target "GET" no_content) refl
  routed _ _ _ (writes_settings provider model) u l = settings-IsRouted provider model l
  routed _ _ _ lists u l = rw (authorize conversations_target "GET" no_content) refl
  routed _ _ _ creates_one u l =
      rw (authorize conversations_target "POST" empty_content) (
        ap create_action
          (bytes-lem conversations_target "POST" empty_content _ refl l ∙ json.empty))
  routed _ _ _ (reads_one id) u l =
      let (v, n, k) = uuid-valid_id id u in
      rw (authorize (one_target id) "GET" no_content, parts_of-one id n k, v) refl
  routed _ _ _ (deletes_one id) u l =
      let (v, n, k) = uuid-valid_id id u in
      rw (authorize (one_target id) "DELETE" no_content, parts_of-one id n k, v) refl
  routed _ _ _ (posts_turn id t b) u l =
      let (v, n, k) = uuid-valid_id id u in
      rw
        (
          authorize (turns_target id) "POST" (turn_content t),
          parts_of-operation id (codes "turns") n k refl,
          v,
        )
        (ap (turn_action id)
            (bytes-lem (turns_target id) "POST" (turn_content t) _ refl l ∙ json.turn t)
          ∙ turn_action-lem id t b)
  routed _ _ _ (streams id) u l =
      let (v, n, k) = uuid-valid_id id u in
      rw
        (
          authorize (events_target id) "GET" no_content,
          parts_of-operation id (codes "events") n k refl,
          v,
        )
        refl

  -- If JSON reads back what it writes, and the body has at most 20,000 bytes, then what
  -- `assistantRequest` sends upstream is never turned away by the worker's router: it is authorized by
  -- the shared token, and routed to the operation, the conversation, and the text or the selection that
  -- the application checked.
  pub decide-route :
      (request : Request) (segments : List (List ℕ)) (target : Target) (sent : Content)
      → decide parse request segments ≡ sends target sent
      → length (concat (content_bytes stringify sent)) ≤ max_body_bytes
      → route parse token (upstream stringify token request.method segments sent)
        ≡ action_of target request.method sent
  unfolding decide
  decide-route request segments target sent e l =
      let (a, h) = aimed-cases request segments target sent (aim segments) refl e in
      let found : IsAt segments (at_target target) = subst (IsAt segments) a (aim-IsAt segments) in
      subst
        (λ x.
          route parse token (upstream stringify token request.method x sent)
          ≡ action_of target request.method sent)
        (sym found.0) (routed target request.method sent h found.1 l)
