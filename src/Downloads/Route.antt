-- ===== src/Downloads/Route.antt =====
-- When src/app/api/downloads/route.ts answers with a queue.
use mathlib.Core.Option.{none-ne-some, some-injective}
use voidstation_app.Prelude.{false, sym, ◌&&◌, ◌==◌}
use voidstation_app.Prelude.{
  List, Option, ap, arith, length, none, some, true, ℕ, ◌↔◌, ◌∙◌, ◌≡◌, ◌≤◌, Bool, Bool-cases,
  if◌then◌else◌, inl, inr,
}
use voidstation_app.Values.{Value}
use voidstation_app.Http.Body.{concat, read_bounded_fits, read_bounded_whole}
use voidstation_app.Downloads.Records.{Platform}
use voidstation_app.Downloads.Contract.{is_download_queue}
use voidstation_app.Downloads.Fetch.{
  WorkerAnswer, accept_queue, bounded_body, is_json_type, max_response_bytes, parse_bytes,
  downloads_route, fetch_download_queue, queue_answer, answer_of, read_answer,
}

-- The body fits, and is the text of the value.
abbrev IsBody : (List ℕ → Option Value) → Value → Option (List (List ℕ)) → Type 0
IsBody parse_json v none = ⊥
IsBody parse_json v (some chunks) =
    (length (concat chunks) ≤ max_response_bytes) × (parse_json (concat chunks) ≡ some v)

-- The worker answers 200 with JSON, its whole body is the text of the value, and the value is a queue.
abbrev pub Delivers : Platform → (List ℕ → Option Value) → Value → Option WorkerAnswer → Type 0
Delivers p parse_json v none = ⊥
Delivers p parse_json v (some answer) =
    (answer.status ≡ 200)
    × (is_json_type answer.content_type ≡ true)
    × IsBody parse_json v answer.chunks
    × (is_download_queue p v ≡ true)

IsBody-parse_bytes :
    (parse_json : List ℕ → Option Value) (v : Value) (chunks : Option (List (List ℕ)))
    → parse_bytes parse_json (bounded_body chunks) ≡ some v
    → IsBody parse_json v chunks
IsBody-parse_bytes parse_json v none h = absurd (none-ne-some v h)
IsBody-parse_bytes parse_json v (some chunks) h =
    ground (arith, read_bounded_whole max_response_bytes chunks)

parse_bytes-IsBody :
    (parse_json : List ℕ → Option Value) (v : Value) (chunks : Option (List (List ℕ)))
    → IsBody parse_json v chunks
    → parse_bytes parse_json (bounded_body chunks) ≡ some v
parse_bytes-IsBody parse_json v none h = absurd h
parse_bytes-IsBody parse_json v (some chunks) (l, e) =
    ap (parse_bytes parse_json) (read_bounded_fits max_response_bytes chunks l) ∙ e

-- What a test keeps is the value it was given, and passes the test.
keeps_iff :
    (test : Value → Bool) (w v : Value)
    → ((if test w then some w else none) ≡ some v) ↔ ((some w ≡ some v) × (test v ≡ true))
keeps_iff test w v = elim (Bool-cases (test w)) [
  | inl k ↦ rw k (λ h. (h, ap test (sym (some-injective w v h)) ∙ k), λ (h, t). h)
  | inr k ↦
      rw k (λ h. absurd (none-ne-some v h), λ (h, t). absurd (differ (some-injective w v h) k t))
]
  where
    differ : w ≡ v → test w ≡ false → test v ≡ true → ⊥
    differ e k t = cc

accept_queue_iff :
    (p : Platform) (o : Option Value) (v : Value)
    → (accept_queue p o ≡ some v) ↔ ((o ≡ some v) × (is_download_queue p v ≡ true))
accept_queue_iff p none v = (λ h. cc, λ h. cc)
accept_queue_iff p (some w) v = keeps_iff (is_download_queue p) w v

answer_of_iff : (o : Option Value) (v : Value) → (answer_of o ≡ queue_answer v) ↔ (o ≡ some v)
answer_of_iff none v = (λ h. cc, λ h. cc)
answer_of_iff (some w) v = (λ h. cc, λ h. cc)

read_iff :
    (status : ℕ) (json : Bool) (o : Option Value) (v : Value)
    → ((if status == 200 && json then o else none) ≡ some v)
      ↔ ((status ≡ 200) × (json ≡ true) × (o ≡ some v))
read_iff status json o v = (λ h. ground arith, λ (s, j, e). ground arith)

-- The route answers with a queue exactly when the worker answers 200 with a JSON content type, its
-- body has at most 512 KiB, whatever chunks it arrives in, and is the text of that queue, and the
-- queue passes the check.
pub downloads_route_iff :
    (p : Platform) (parse_json : List ℕ → Option Value) (answer : Option WorkerAnswer) (v : Value)
    → ((downloads_route p parse_json answer ≡ queue_answer v) ↔ Delivers p parse_json v answer)
unfolding downloads_route fetch_download_queue
downloads_route_iff p parse_json none v = (λ h. cc, λ h. absurd h)
downloads_route_iff p parse_json (some answer) v = (
  λ h.
      let (ok, json, accepted) =
        (read_iff answer.status (is_json_type answer.content_type) o v).0
          ((answer_of_iff (read_answer p parse_json answer) v).0 h) in
      let (parsed, passes) = (accept_queue_iff p parsed_body v).0 accepted in
      (ok, json, IsBody-parse_bytes parse_json v answer.chunks parsed, passes),
  λ (ok, json, body, passes). (answer_of_iff (read_answer p parse_json answer) v).1 (
      (read_iff answer.status (is_json_type answer.content_type) o v).1 (
        ok,
        json,
        (accept_queue_iff p parsed_body v).1
            (parse_bytes-IsBody parse_json v answer.chunks body, passes),
      )),
)
  where
    parsed_body : Option Value
    parsed_body = parse_bytes parse_json (bounded_body answer.chunks)

    o : Option Value
    o = accept_queue p parsed_body
