-- ===== src/Downloads/Fetch.antt =====
-- `fetchDownloadQueue` of src/lib/downloads.ts and the route src/app/api/downloads/route.ts behind the
-- session check of Http/Login.
use voidstation_app.Prelude.{
  Bool, List, Option, String, [], false, if◌then◌else◌, none, some, starts_with, ℕ, ◌&&◌, ◌==◌,
}
use voidstation_app.Values.{Value}
use voidstation_app.Http.Body.{read_bounded}
use voidstation_app.Downloads.Records.{Platform}
use voidstation_app.Downloads.Contract.{is_download_queue}

-- What the worker answers: the chunks are none where there is no body.
pub record WorkerAnswer : Type 0 where
  pub status : ℕ
  pub content_type : Option String
  pub chunks : Option (List (List ℕ))

abbrev pub max_response_bytes : ℕ
max_response_bytes = 524288

-- How `send` of worker/src/server.ts answers GET /media/queue; its body arrives in these chunks.
abbrev pub queue_response : List (List ℕ) → WorkerAnswer
queue_response chunks = record {
  status = 200;
  content_type = some "application/json; charset=utf-8";
  chunks = some chunks;
}

-- `boundedText`: none where it throws
abbrev pub bounded_body : Option (List (List ℕ)) → Option (List ℕ)
bounded_body none = none
bounded_body (some chunks) = read_bounded max_response_bytes 0 [] chunks

abbrev pub is_json_type : Option String → Bool
is_json_type none = false
is_json_type (some content_type) = starts_with content_type "application/json"

abbrev pub parse_bytes : (List ℕ → Option Value) → Option (List ℕ) → Option Value
parse_bytes parse_json none = none
parse_bytes parse_json (some bytes) = parse_json bytes

abbrev pub accept_queue : Platform → Option Value → Option Value
accept_queue p none = none
accept_queue p (some v) = if is_download_queue p v then some v else none

abbrev pub read_answer : Platform → (List ℕ → Option Value) → WorkerAnswer → Option Value
read_answer p parse_json answer =
    if answer.status == 200 && is_json_type answer.content_type
    then accept_queue p (parse_bytes parse_json (bounded_body answer.chunks))
    else none

-- none: it throws. The answer is none where there is no configuration, and where the request fails,
-- is redirected or takes ten seconds.
unfoldable pub fetch_download_queue :
    Platform → (List ℕ → Option Value) → Option WorkerAnswer → Option Value
fetch_download_queue p parse_json none = none
fetch_download_queue p parse_json (some answer) = read_answer p parse_json answer

-- The two answers of the route once the session is valid
pub data RouteAnswer : Type 0 where
  queue_answer : Value → RouteAnswer
  queue_unavailable : RouteAnswer

abbrev pub answer_of : Option Value → RouteAnswer
answer_of none = queue_unavailable
answer_of (some v) = queue_answer v

unfoldable pub downloads_route :
    Platform → (List ℕ → Option Value) → Option WorkerAnswer → RouteAnswer
downloads_route p parse_json answer = answer_of (fetch_download_queue p parse_json answer)
