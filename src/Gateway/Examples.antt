-- ===== src/Gateway/Examples.antt =====
-- A turn on its way from the browser to the worker.
use voidstation_app.Prelude.{
  All, List, Option, [], arith, codes, false, if◌then◌else◌, length, map, none, refl, some, trim, ℕ,
  ◌==◌, ◌=b◌, ◌∷◌, ◌≡◌, ◌≤◌,
}
use voidstation_app.Conversations.Settings.{Provider, openai_codex, openrouter, provider_name}
use voidstation_app.Http.Origins.{Request}
use voidstation_app.Http.Body.{read_bounded}
use voidstation_app.Http.Login.{has_type}
use voidstation_app.Worker.Failures.{ascii_lower, provider_failure}
use voidstation_app.Gateway.Json.{Json, field, no_field, object, text}
use voidstation_app.Gateway.Routes.{route}
use voidstation_app.Gateway.Forward.{
  Content, aim, content_bytes, decide, empty_content, matches, no_content, read_content,
  settings_content, submission_content, turn_content, turns_target, upstream,
}
use voidstation_app.Gateway.Routing.{ReadsBack, action_of, decide-route}
use voidstation_app.Gateway.Relay.{
  explains, is_unknown, relay, relay-provider_failure, worker_unavailable,
}

-- A short notation in the place of JSON's.
abbrev toy_stringify : Json → List ℕ
toy_stringify (object (field key (text t) no_field)) = 1 ∷ t
toy_stringify (object (field key (text p) (field other (text m) no_field))) = 2 ∷ length p ∷ m
toy_stringify _ = 0 ∷ []

abbrev toy_settings : List ℕ → Option Json
toy_settings [] = none
toy_settings (n ∷ m) = some (
    object (
      field "provider" (text (if n == 12 then codes "openai-codex" else codes "openrouter"))
        (field "model" (text m) no_field)))

abbrev toy_parse : List ℕ → Option Json
toy_parse [] = none
toy_parse (c ∷ t) =
    if c == 1
    then some (object (field "text" (text t) no_field))
    else if c == 2
    then toy_settings t
    else some (object no_field)

settings_back :
    (provider : Provider) (model : List ℕ)
    → toy_parse (
        toy_stringify (
          object (
            field "provider"
              (text (codes (provider_name provider)))
              (field "model" (text model) no_field))))
      ≡ some (
          object (
            field "provider"
              (text (codes (provider_name provider)))
              (field "model" (text model) no_field)))
settings_back openai_codex model = refl
settings_back openrouter model = refl

reads_bytes :
    (sent : Content) → All (λ bytes. (1 ≤ length bytes)) (content_bytes toy_stringify sent)
reads_bytes no_content = tt
reads_bytes empty_content = (omega arith, tt)
reads_bytes (turn_content t) = (omega arith, tt)
reads_bytes (settings_content provider model) = (omega arith, tt)

toy-ReadsBack : ReadsBack toy_parse toy_stringify
toy-ReadsBack = record {
  reads = reads_bytes;
  empty = refl;
  turn = λ t. refl;
  settings = settings_back;
}

abbrev uuid : List ℕ
uuid = codes "01234567-89ab-cdef-0123-456789abcdef"

abbrev turn_segments : List (List ℕ)
turn_segments = codes "conversations" ∷ uuid ∷ codes "turns" ∷ []

abbrev turn_request : Request
turn_request = record {
  method = "POST";
  pathname = "/api/assistant/conversations/01234567-89ab-cdef-0123-456789abcdef/turns";
  host = none;
  origin = none;
  sec_fetch_site = none;
  content_type = some "application/json";
  session_cookie = none;
  chunks = some ((1 ∷ codes "Hel") ∷ codes "lo" ∷ []);
}

decide-route_example :
    route toy_parse
      (codes "token")
      (upstream toy_stringify (codes "token") "POST" turn_segments (turn_content (codes "Hello")))
    ≡ action_of (turns_target uuid) "POST" (turn_content (codes "Hello"))
unfolding decide aim matches read_content read_bounded submission_content has_type trim ◌=b◌
decide-route_example =
    decide-route toy_parse toy_stringify (codes "token") toy-ReadsBack turn_request turn_segments
      (turns_target uuid) (turn_content (codes "Hello")) refl (omega arith)

relay-provider_failure_example :
    relay false 503
      (some (provider_failure (map ascii_lower) openrouter (codes "HTTP 429")).message)
      false
    ≡ (if is_unknown (provider_failure (map ascii_lower) openrouter (codes "HTTP 429")).kind
        then worker_unavailable
        else explains (provider_failure (map ascii_lower) openrouter (codes "HTTP 429")).message)
relay-provider_failure_example =
    relay-provider_failure (map ascii_lower) openrouter (codes "HTTP 429") false false
