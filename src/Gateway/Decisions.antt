-- ===== src/Gateway/Decisions.antt =====
-- What a request that src/lib/assistant-worker.ts sends on looks like.
use voidstation_app.Prelude.{
  Bool-cases, List, Option, Option-cases, String, [], ap, arith, false, inl, inr, leb, length, none,
  not, refl, some, subst, sym, true, ℕ, ◌&&◌, ◌==◌, ◌=s◌, ◌∙◌, ◌≡◌,
}
use voidstation_app.Conversations.Settings.{Provider}
use voidstation_app.Http.Origins.{Request}
use voidstation_app.Http.Login.{has_type}
use voidstation_app.Http.Body.{read_bounded}
use voidstation_app.Gateway.Json.{
  Json, array, count, first_key, is_blank, lookup, max_body_bytes, max_text_length, null, object,
  scalar, text, text_of,
}
use voidstation_app.Gateway.Routes.{bounded_text, settings_body}
use voidstation_app.Gateway.Forward.{
  Content, Target, after_parse, after_read, after_stream, bounded_settings, conversations_target,
  empty_content, events_target, is_turns, max_model_length, no_content, one_target, read_content,
  sends, settings_content, settings_submission, settings_target, submission_content,
  submission_error, turn_content, turn_value, turns_target, with_body, with_content,
}

-- The method and the sent that a target goes with.
pub data IsFit : Target → String → Content → Type 0 where
  reads_settings : IsFit settings_target "GET" no_content
  writes_settings :
      (provider : Provider) (model : List ℕ)
      → IsFit settings_target "PUT" (settings_content provider model)
  lists : IsFit conversations_target "GET" no_content
  creates_one : IsFit conversations_target "POST" empty_content
  reads_one : (id : List ℕ) → IsFit (one_target id) "GET" no_content
  deletes_one : (id : List ℕ) → IsFit (one_target id) "DELETE" no_content
  posts_turn :
      (id t : List ℕ)
      → bounded_text (some t) ≡ some t
      → IsFit (turns_target id) "POST" (turn_content t)
  streams : (id : List ℕ) → IsFit (events_target id) "GET" no_content

module _ (parse : List ℕ → Option Json) (f : Json → Option Content) where
  after_parse-some :
      (o : Option Json) (sent : Content)
      → after_parse f o ≡ some sent
      → (value : Json) × (f value ≡ some sent)
  after_parse-some none sent e = absurd (ground arith)
  after_parse-some (some value) sent e = (value, e)

  after_stream-some :
      (o : Option (List (List ℕ))) (sent : Content)
      → after_stream parse f o ≡ some sent
      → (value : Json) × (f value ≡ some sent)
  after_stream-some none sent e = absurd (ground arith)
  after_stream-some (some chunks) sent e =
      elim (Option-cases (read_bounded max_body_bytes 0 [] chunks)) [
        | inl h ↦ absurd (ground arith)
        | inr (bytes, h) ↦ after_parse-some (parse bytes) sent (ap (after_read parse f) (sym h) ∙ e)
      ]

  pub read_content-some :
      (request : Request) (sent : Content)
      → read_content parse f request ≡ some sent
      → (value : Json) × (f value ≡ some sent)
  unfolding read_content
  read_content-some request sent e =
      elim (Bool-cases (has_type "application/json" request.content_type)) [
        | inl h ↦ after_stream-some request.chunks sent (ground arith)
        | inr h ↦ absurd (ground arith)
      ]

pub submission_empty_lem :
    (value : Json) (sent : Content)
    → submission_content false value ≡ some sent
    → sent ≡ empty_content
unfolding submission_content
submission_empty_lem null sent e = absurd (ground arith)
submission_empty_lem (scalar s) sent e = absurd (ground arith)
submission_empty_lem (text t) sent e = absurd (ground arith)
submission_empty_lem (array items) sent e = absurd (ground arith)
submission_empty_lem (object fields) sent e = elim (Bool-cases (count fields == 0)) [
  | inl h ↦ ground arith
  | inr h ↦ absurd (ground arith)
]

bounded_text-some :
    (o : Option (List ℕ)) (t : List ℕ) → bounded_text o ≡ some t → bounded_text (some t) ≡ some t
bounded_text-some none t e = absurd (ground arith)
bounded_text-some (some s) t e =
    elim (Bool-cases (not (is_blank s) && leb (length s) max_text_length)) [
      | inl h ↦
          let same : s ≡ t = ground arith in
          subst (λ x. bounded_text (some x) ≡ some x) same (rw h refl)
      | inr h ↦ absurd (ground arith)
    ]

turn_value-some :
    (key : Option String) (o : Option (List ℕ)) (sent : Content)
    → turn_value key o ≡ some sent
    → (t : List ℕ) × (o ≡ some t) × (sent ≡ turn_content t)
turn_value-some none o sent e = absurd (ground arith)
turn_value-some (some key) none sent e = absurd (ground arith)
turn_value-some (some key) (some t) sent e = elim (Bool-cases (key =s "text")) [
  | inl h ↦ (t, refl, ground arith)
  | inr h ↦ absurd (ground arith)
]

pub submission_turn_lem :
    (value : Json) (sent : Content)
    → submission_content true value ≡ some sent
    → (t : List ℕ) × (bounded_text (some t) ≡ some t) × (sent ≡ turn_content t)
unfolding submission_content
submission_turn_lem null sent e = absurd (ground arith)
submission_turn_lem (scalar s) sent e = absurd (ground arith)
submission_turn_lem (text t) sent e = absurd (ground arith)
submission_turn_lem (array items) sent e = absurd (ground arith)
submission_turn_lem (object fields) sent e = elim (Bool-cases (count fields == 1)) [
  | inl h ↦
      let (t, k, c) =
        turn_value-some (first_key fields) (bounded_text (text_of (lookup "text" fields))) sent
          (ground arith) in
      (t, bounded_text-some _ t k, c)
  | inr h ↦ absurd (ground arith)
]

bounded_settings-some :
    (provider : Provider) (model : List ℕ) (sent : Content)
    → bounded_settings (some (provider, model)) ≡ some sent
    → sent ≡ settings_content provider model
bounded_settings-some provider model sent e =
    elim (Bool-cases (leb 1 (length model) && leb (length model) max_model_length)) [
      | inl h ↦ ground arith
      | inr h ↦ absurd (ground arith)
    ]

pub settings_submission_lem :
    (value : Json) (sent : Content)
    → settings_submission value ≡ some sent
    → (provider : Provider) × (model : List ℕ) × (sent ≡ settings_content provider model)
unfolding settings_submission
settings_submission_lem value sent e = elim (Option-cases (settings_body value)) [
  | inl h ↦ absurd (ground arith)
  | inr ((provider, model), h) ↦
      (provider, model, bounded_settings-some provider model sent (ap bounded_settings (sym h) ∙ e))
]

with_content-sends :
    (target to : Target) (error : String) (o : Option Content) (sent : Content)
    → with_content target error o ≡ sends to sent
    → (target ≡ to) × (o ≡ some sent)
with_content-sends target to error none sent e = absurd (ground arith)
with_content-sends target to error (some c) sent e = (ground arith, ground arith)

module _ (parse : List ℕ → Option Json) (request : Request) (to : Target) (sent : Content) where
  -- With a method that has no body.
  pub bodiless :
      (target : Target)
      → (request.method =s "POST") ≡ false
      → (request.method =s "PUT") ≡ false
      → with_body parse request target ≡ sends to sent
      → (target ≡ to) × (sent ≡ no_content)
  bodiless target a b e = (ground arith, ground arith)

  pub posted :
      (target : Target)
      → (request.method =s "POST") ≡ true
      → with_body parse request target ≡ sends to sent
      → (target ≡ to) × ((value : Json) × (submission_content (is_turns target) value ≡ some sent))
  posted target a e =
      let (t, o) =
        with_content-sends target to submission_error
          (read_content parse (submission_content (is_turns target)) request) sent (ground arith) in
      (t, read_content-some parse (submission_content (is_turns target)) request sent o)

  pub put :
      (target : Target)
      → (request.method =s "POST") ≡ false
      → (request.method =s "PUT") ≡ true
      → with_body parse request target ≡ sends to sent
      → (target ≡ to) × ((value : Json) × (settings_submission value ≡ some sent))
  put target a b e =
      let (t, o) =
        with_content-sends target to "Choose a supported provider and model."
          (read_content parse settings_submission request) sent (ground arith) in
      (t, read_content-some parse settings_submission request sent o)
