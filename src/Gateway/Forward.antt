-- ===== src/Gateway/Forward.antt =====
-- `assistantRequest` of src/lib/assistant-worker.ts: which requests go to the worker, with what, and what
-- comes back. `parse` and `stringify` are JSON's, over UTF-8.
use voidstation_app.Prelude.{
  Bool, List, Option, String, [], codes, false, if◌then◌else◌, leb, length, none, replicate, some,
  true, ℕ, ◌&&◌, ◌++◌, ◌==◌, ◌=b◌, ◌=s◌, ◌||◌, ◌∷◌,
}
use voidstation_app.Auth.Store.{Outcome, done, threw}
use voidstation_app.Auth.Tables.{Crypto, Db}
use voidstation_app.Http.Origins.{Environment, ParseUrl, Request, has_session, has_valid_origin}
use voidstation_app.Http.Proxy.{is_safe}
use voidstation_app.Http.Login.{has_type}
use voidstation_app.Http.Body.{read_bounded}
use voidstation_app.Conversations.Settings.{Provider, provider_name}
use voidstation_app.Gateway.Json.{
  Json, count, field, first_key, lookup, max_body_bytes, no_field, object, text, text_of,
}
use voidstation_app.Gateway.Routes.{InternalRequest, bounded_text, is_hex, settings_body}

-- One more hexadecimal digit, or a dash.
abbrev pub is_at : Bool → ℕ → Bool
is_at true c = is_hex c
is_at false c = c == 45

unfoldable pub matches : List Bool → List ℕ → Bool
matches [] [] = true
matches (p ∷ ps) (c ∷ cs) = is_at p c && matches ps cs
matches _ _ = false

-- 8-4-4-4-12
abbrev pub uuid_pattern : List Bool
uuid_pattern =
    replicate 8 true
    ++ false ∷ replicate 4 true
    ++ false ∷ replicate 4 true
    ++ false ∷ replicate 4 true
    ++ false ∷ replicate 12 true

abbrev pub is_uuid : List ℕ → Bool
is_uuid id = matches uuid_pattern id

pub data Target : Type 0 where
  settings_target conversations_target : Target
  one_target turns_target events_target : List ℕ → Target

pub data Aimed : Type 0 where
  at_target : Target → Aimed
  misses : String → Aimed

abbrev pub no_settings : Aimed
no_settings = misses "Settings not found."

abbrev pub no_conversation : Aimed
no_conversation = misses "Conversation not found."

abbrev pub operation_target : List ℕ → List ℕ → Aimed
operation_target id operation =
    if operation =b codes "turns"
    then at_target (turns_target id)
    else if operation =b codes "events"
    then at_target (events_target id)
    else no_conversation

-- The tests on `segments`
unfoldable pub aim : List (List ℕ) → Aimed
aim [] = no_conversation
aim (collection ∷ []) =
    if collection =b codes "settings"
    then at_target settings_target
    else if collection =b codes "conversations"
    then at_target conversations_target
    else no_conversation
aim (collection ∷ id ∷ []) =
    if collection =b codes "settings"
    then no_settings
    else if collection =b codes "conversations" && is_uuid id
    then at_target (one_target id)
    else no_conversation
aim (collection ∷ id ∷ operation ∷ []) =
    if collection =b codes "settings"
    then no_settings
    else if collection =b codes "conversations" && is_uuid id
    then operation_target id operation
    else no_conversation
aim (collection ∷ _) = if collection =b codes "settings" then no_settings else no_conversation

-- `allowed.includes(request.method)`
abbrev pub allows : Target → String → Bool
allows settings_target method = method =s "GET" || method =s "PUT"
allows conversations_target method = method =s "GET" || method =s "POST"
allows (one_target id) method = method =s "GET" || method =s "DELETE"
allows (turns_target id) method = method =s "POST"
allows (events_target id) method = method =s "GET"

-- What the body that goes upstream is made from.
pub data Content : Type 0 where
  no_content empty_content : Content
  turn_content : List ℕ → Content
  settings_content : Provider → List ℕ → Content

abbrev pub turn_value : Option String → Option (List ℕ) → Option Content
turn_value (some key) (some t) = if key =s "text" then some (turn_content t) else none
turn_value _ _ = none

-- `submission`, after JSON.parse
unfoldable pub submission_content : Bool → Json → Option Content
submission_content false (object fields) = if count fields == 0 then some empty_content else none
submission_content true (object fields) =
    if count fields == 1
    then turn_value (first_key fields) (bounded_text (text_of (lookup "text" fields)))
    else none
submission_content turn _ = none

abbrev pub max_model_length : ℕ
max_model_length = 500

abbrev pub bounded_settings : Option (Provider × List ℕ) → Option Content
bounded_settings none = none
bounded_settings (some (provider, model)) =
    if leb 1 (length model) && leb (length model) max_model_length
    then some (settings_content provider model)
    else none

-- `settingsSubmission`, after JSON.parse
unfoldable pub settings_submission : Json → Option Content
unfolding settings_body
settings_submission value = bounded_settings (settings_body value)

abbrev pub after_parse : (Json → Option Content) → Option Json → Option Content
after_parse f none = none
after_parse f (some value) = f value

abbrev pub after_read :
    (List ℕ → Option Json) → (Json → Option Content) → Option (List ℕ) → Option Content
after_read parse f none = none
after_read parse f (some bytes) = after_parse f (parse bytes)

abbrev pub after_stream :
    (List ℕ → Option Json) → (Json → Option Content) → Option (List (List ℕ)) → Option Content
after_stream parse f none = none
after_stream parse f (some chunks) = after_read parse f (read_bounded max_body_bytes 0 [] chunks)

-- `submission` and `settingsSubmission`, the reading that they share
unfoldable pub read_content :
    (List ℕ → Option Json) → (Json → Option Content) → Request → Option Content
read_content parse f request =
    if has_type "application/json" request.content_type
    then after_stream parse f request.chunks
    else none

pub data Decision : Type 0 where
  refuses : String → ℕ → Decision
  sends : Target → Content → Decision

abbrev pub is_turns : Target → Bool
is_turns (turns_target id) = true
is_turns _ = false

abbrev pub with_content : Target → String → Option Content → Decision
with_content target error none = refuses error 400
with_content target error (some sent) = sends target sent

abbrev pub submission_error : String
submission_error =
    "Send a JSON message containing only text, up to 8,000 characters, or an empty object to create a conversation."

abbrev pub with_body : (List ℕ → Option Json) → Request → Target → Decision
with_body parse request target =
    if request.method =s "POST"
    then with_content target submission_error
        (read_content parse (submission_content (is_turns target)) request)
    else if request.method =s "PUT"
    then with_content target "Choose a supported provider and model."
        (read_content parse settings_submission request)
    else sends target no_content

abbrev pub at_aimed : (List ℕ → Option Json) → Request → Aimed → Decision
at_aimed parse request (misses error) = refuses error 404
at_aimed parse request (at_target target) =
    if allows target request.method
    then with_body parse request target
    else refuses "Method not allowed." 405

-- From `segments` on, for a request with a session and an origin
unfoldable pub decide : (List ℕ → Option Json) → Request → List (List ℕ) → Decision
decide parse request segments = at_aimed parse request (aim segments)

abbrev pub join : List (List ℕ) → List ℕ
join [] = []
join (segment ∷ segments) = codes "/" ++ segment ++ join segments

abbrev pub content_bytes : (Json → List ℕ) → Content → List (List ℕ)
content_bytes stringify no_content = []
content_bytes stringify empty_content = codes "{}" ∷ []
content_bytes stringify (turn_content t) = stringify (object (field "text" (text t) no_field)) ∷ []
content_bytes stringify (settings_content provider model) =
    stringify (
      object (
        field "provider" (text (codes (provider_name provider)))
          (field "model" (text model) no_field)))
    ∷ []

-- The request that `fetch` makes: neither cookies nor the browser's headers go upstream.
unfoldable pub upstream :
    (Json → List ℕ) → List ℕ → String → List (List ℕ) → Content → InternalRequest
upstream stringify token method segments sent = record {
  method = method;
  pathname = join segments;
  origin = none;
  sec_fetch_site = none;
  sec_fetch_dest = none;
  sec_fetch_user = none;
  authorization = some (codes "Bearer " ++ token);
  chunks = content_bytes stringify sent;
}

abbrev pub past_origin_check :
    (List ℕ → Option Json) → Request → List (List ℕ) → Outcome Bool → Outcome Decision
past_origin_check parse request segments threw = threw
past_origin_check parse request segments (done false) =
    done (refuses "Request origin rejected." 403)
past_origin_check parse request segments (done true) = done (decide parse request segments)

abbrev pub past_session :
    ParseUrl
    → Environment
    → (List ℕ → Option Json)
    → Request
    → List (List ℕ)
    → Outcome Bool
    → Outcome Decision
past_session parse_url env parse request segments threw = threw
past_session parse_url env parse request segments (done false) =
    done (refuses "Sign in required." 401)
past_session parse_url env parse request segments (done true) =
    if is_safe request
    then done (decide parse request segments)
    else past_origin_check parse request segments (has_valid_origin parse_url env request)

-- `assistantRequest`, up to the request that it makes
unfoldable pub assistant_request :
    ParseUrl
    → Crypto
    → Environment
    → (List ℕ → Option Json)
    → Request
    → List (List ℕ)
    → ℕ
    → Db
    → Outcome Decision
assistant_request parse_url crypto env parse request segments now db =
    past_session parse_url env parse request segments (has_session crypto env request now db).0
