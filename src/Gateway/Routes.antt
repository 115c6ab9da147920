-- ===== src/Gateway/Routes.antt =====
-- `authorized`, `body` and `route` of worker/src/server.ts. `parse` is `JSON.parse` after UTF-8 decoding,
-- and the URL parser keeps a path of letters, digits, dashes and slashes.
use voidstation_app.Prelude.{
  Bool, List, Option, String, [], all, codes, drop, false, if◌then◌else◌, leb, length, none, not,
  some, take, ℕ, ◌&&◌, ◌++◌, ◌==◌, ◌=b◌, ◌=s◌, ◌||◌, ◌∷◌,
}
use voidstation_app.Http.Body.{read_bounded}
use voidstation_app.Conversations.Settings.{Provider, openai_codex, openrouter}
use voidstation_app.Gateway.Json.{
  Json, count, is_blank, lookup, max_body_bytes, max_text_length, no_field, object, text_of,
}

pub record InternalRequest : Type 0 where
  pub method : String
  pub pathname : List ℕ
  pub origin : Option String
  pub sec_fetch_site : Option String
  pub sec_fetch_dest : Option String
  pub sec_fetch_user : Option String
  pub authorization : Option (List ℕ)
  pub chunks : List (List ℕ)

-- A header that is there and not empty.
abbrev pub is_truthy : Option String → Bool
is_truthy none = false
is_truthy (some value) = not (value =s "")

abbrev pub bearer : List ℕ → Option (List ℕ) → Bool
bearer token none = false
bearer token (some header) = (take 7 header =b codes "Bearer ") && (drop 7 header =b token)

unfoldable pub authorized : List ℕ → InternalRequest → Bool
authorized token request =
    not (
      is_truthy request.origin
      || is_truthy request.sec_fetch_site
      || is_truthy request.sec_fetch_dest
      || is_truthy request.sec_fetch_user)
    && bearer token request.authorization

abbrev pub parse_raw : (List ℕ → Option Json) → List ℕ → Option Json
parse_raw parse [] = some (object no_field)
parse_raw parse (b ∷ bytes) = parse (b ∷ bytes)

abbrev pub parse_body : (List ℕ → Option Json) → Option (List ℕ) → Option Json
parse_body parse none = none
parse_body parse (some bytes) = parse_raw parse bytes

-- `body`: none where it throws
unfoldable pub body : (List ℕ → Option Json) → InternalRequest → Option Json
body parse request = parse_body parse (read_bounded max_body_bytes 0 [] request.chunks)

-- `url.pathname.split("/").filter(Boolean)`: the part that is being read comes first.
abbrev pub push_part : List ℕ → List (List ℕ) → List (List ℕ)
push_part [] parts = parts
push_part (c ∷ part) parts = (c ∷ part) ∷ parts

unfoldable pub split_from : List ℕ → List ℕ → List (List ℕ)
split_from part [] = push_part part []
split_from part (c ∷ path) =
    let rest = split_from (part ++ c ∷ []) path in
    let next = split_from [] path in if c == 47 then push_part part next else rest

abbrev pub parts_of : List ℕ → List (List ℕ)
parts_of path = split_from [] path

abbrev pub is_hex : ℕ → Bool
is_hex c = (leb 48 c && leb c 57) || (leb 97 c && leb c 102) || (leb 65 c && leb c 70)

-- /^[0-9a-f-]{36}$/i
unfoldable pub valid_id : List ℕ → Bool
valid_id id = length id == 36 && all (λ c. is_hex c || c == 45) id

abbrev pub provider_of : Option (List ℕ) → Option Provider
provider_of none = none
provider_of (some name) =
    if name =b codes "openai-codex"
    then some openai_codex
    else if name =b codes "openrouter"
    then some openrouter
    else none

-- What the router calls, or answers by itself.
pub data Action : Type 0 where
  unauthorized : Action
  health media_queue : Action
  read_settings : Action
  write_settings : Provider → List ℕ → Action
  bad_settings : Action
  list_all create bad_create : Action
  read_detail delete_one read_events : List ℕ → Action
  submit : List ℕ → List ℕ → Action
  bad_turn : Action
  invalid_request : Action
  no_route : Action

abbrev pub both : Option Provider → Option (List ℕ) → Option (Provider × List ℕ)
both (some provider) (some model) = some (provider, model)
both _ _ = none

-- `isSettingsBody`
unfoldable pub settings_body : Json → Option (Provider × List ℕ)
settings_body (object fields) =
    if count fields == 2
    then both (provider_of (text_of (lookup "provider" fields))) (text_of (lookup "model" fields))
    else none
settings_body _ = none

abbrev pub bounded_text : Option (List ℕ) → Option (List ℕ)
bounded_text none = none
bounded_text (some t) = if not (is_blank t) && leb (length t) max_text_length then some t else none

-- `isTurnBody`
unfoldable pub turn_body : Json → Option (List ℕ)
turn_body (object fields) =
    if count fields == 1 then bounded_text (text_of (lookup "text" fields)) else none
turn_body _ = none

-- `isEmptyObject`
unfoldable pub is_empty_object : Json → Bool
is_empty_object (object fields) = count fields == 0
is_empty_object _ = false

abbrev pub settings_action : Option Json → Action
settings_action none = invalid_request
settings_action (some value) = elim (settings_body value) [
  | none ↦ bad_settings
  | some (provider, model) ↦ write_settings provider model
]

abbrev pub create_action : Option Json → Action
create_action none = invalid_request
create_action (some value) = if is_empty_object value then create else bad_create

abbrev pub turn_action : List ℕ → Option Json → Action
turn_action id none = invalid_request
turn_action id (some value) = elim (turn_body value) [ none ↦ bad_turn | some t ↦ submit id t ]

abbrev pub operation_action : (List ℕ → Option Json) → InternalRequest → List ℕ → List ℕ → Action
operation_action parse request id operation =
    if request.method =s "POST" && operation =b codes "turns"
    then turn_action id (body parse request)
    else if request.method =s "GET" && operation =b codes "events"
    then read_events id
    else no_route

abbrev pub one_action : InternalRequest → List ℕ → Action
one_action request id =
    if request.method =s "GET"
    then read_detail id
    else if request.method =s "DELETE"
    then delete_one id
    else no_route

-- From `parts` on
unfoldable pub parts_action : (List ℕ → Option Json) → InternalRequest → List (List ℕ) → Action
parts_action parse request (collection ∷ id ∷ []) =
    if collection =b codes "conversations" && valid_id id then one_action request id else no_route
parts_action parse request (collection ∷ id ∷ operation ∷ []) =
    if collection =b codes "conversations" && valid_id id
    then operation_action parse request id operation
    else no_route
parts_action parse request _ = no_route

abbrev pub after_settings : (List ℕ → Option Json) → InternalRequest → Action
after_settings parse request =
    if request.method =s "GET" && request.pathname =b codes "/conversations"
    then list_all
    else if request.method =s "POST" && request.pathname =b codes "/conversations"
    then create_action (body parse request)
    else parts_action parse request (parts_of request.pathname)

-- `route`, up to what it calls
unfoldable pub route : (List ℕ → Option Json) → List ℕ → InternalRequest → Action
route parse token request =
    if not (authorized token request)
    then unauthorized
    else if request.method =s "GET" && request.pathname =b codes "/health"
    then health
    else if request.method =s "GET" && request.pathname =b codes "/media/queue"
    then media_queue
    else if request.pathname =b codes "/settings" && request.method =s "GET"
    then read_settings
    else if request.pathname =b codes "/settings" && request.method =s "PUT"
    then settings_action (body parse request)
    else after_settings parse request
