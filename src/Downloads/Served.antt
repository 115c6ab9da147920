-- ===== src/Downloads/Served.antt =====
-- From `collect` of worker/src/downloads.ts over the worker's answer to the application's route.
use voidstation_app.Prelude.{List, Option, length, refl, some, true, ℕ, ◌≡◌, ◌≤◌}
use voidstation_app.Values.{Value, whole}
use voidstation_app.Http.Body.{concat}
use voidstation_app.Downloads.Records.{Platform}
use voidstation_app.Downloads.Contract.{is_iso_time}
use voidstation_app.Downloads.Snapshot.{Answers, collect, queue_value}
use voidstation_app.Downloads.Accepted.{WritesFourDigits}
use voidstation_app.Downloads.Fetch.{
  downloads_route, max_response_bytes, queue_answer, queue_response,
}
use voidstation_app.Downloads.Route.{downloads_route_iff}
use voidstation_app.Downloads.Sent.{IsOrdinaryAnswer, collect-accepted}

-- Whatever the two services answer, errors and unusable output included, the application's route
-- answers with the very queue that the worker has collected, in whatever chunks its text arrives. The
-- text must have at most 512 KiB and be read back as it was written; the records must be fewer than a
-- million, with seasons below 100,000, years of four digits in their completion dates, and no download
-- id that begins with "item-"; toISOString must write a time of the years 0 to 9999 as Date.parse
-- reads it.
pub collect-downloads_route :
    (p : Platform) (answers : Answers) (stringify : Value → List ℕ)
    (parse_json : List ℕ → Option Value) (chunks : List (List ℕ))
    → WritesFourDigits p
    → is_iso_time p answers.radarr_at ≡ true
    → is_iso_time p answers.sonarr_at ≡ true
    → IsOrdinaryAnswer p answers.of_radarr
    → IsOrdinaryAnswer p answers.of_sonarr
    → let sent = queue_value (collect p answers) in
      parse_json (stringify sent) ≡ some sent
      → length (stringify sent) ≤ max_response_bytes
      → concat chunks ≡ stringify sent
      → downloads_route p parse_json (some (queue_response chunks)) ≡ queue_answer sent
collect-downloads_route p answers stringify parse_json chunks w i j r s back fits whole =
    (downloads_route_iff p parse_json (some (queue_response chunks)) _).1
      (refl, refl, rw whole (fits, back), collect-accepted p answers w i j r s)
