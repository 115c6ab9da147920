-- ===== src/Downloads/Snapshot.antt =====
-- The queue of both services in worker/src/downloads.ts: `serviceQueue`, `collect` and the cache of
-- `downloadQueue`; and the JSON that the worker sends of it.
use voidstation_app.Prelude.{
  List, Option, String, codes, false, if◌then◌else◌, map, none, some, ℕ, ◌=s◌,
}
use voidstation_app.Values.{
  Value, array, finite, member, no_member, null, number, object, text, values_of, whole,
}
use voidstation_app.Downloads.Records.{MediaService, Platform, radarr, sonarr}
use voidstation_app.Downloads.Items.{DownloadItem}
use voidstation_app.Downloads.Queue.{Projection, name_of, project_queue}
use voidstation_app.Downloads.Contract.{status_text}

pub data Unavailable : Type 0 where
  not_configured service_unavailable timed_out invalid_response : Unavailable

pub data ServiceQueue : Type 0 where
  available : List DownloadItem → ℕ → List ℕ → ServiceQueue
  unavailable : Unavailable → ServiceQueue

-- What `runPython` ends with: a value, a MediaToolError with its code, or another error.
pub data Outcome : Type 0 where
  output : Value → Outcome
  tool_error : String → Outcome
  other_error : Outcome

-- `reasonFor` of a MediaToolError
abbrev pub reason_for : String → Unavailable
reason_for code =
    if code =s "configuration"
    then not_configured
    else if code =s "timed_out"
    then timed_out
    else if code =s "invalid_response"
    then invalid_response
    else service_unavailable

abbrev pub projected : List ℕ → Option Projection → ServiceQueue
projected observed_at none = unavailable invalid_response
projected observed_at (some projection) = available projection.items projection.total observed_at

-- `serviceQueue`: none is a service without a configuration.
unfoldable pub service_queue : Platform → MediaService → List ℕ → Option Outcome → ServiceQueue
service_queue p service observed_at none = unavailable not_configured
service_queue p service observed_at (some (output v)) =
    projected observed_at (project_queue p service v)
service_queue p service observed_at (some (tool_error code)) = unavailable (reason_for code)
service_queue p service observed_at (some other_error) = unavailable service_unavailable

pub record DownloadQueue : Type 0 where
  pub radarr_queue : ServiceQueue
  pub sonarr_queue : ServiceQueue

-- What the two services give, and when each is observed
pub record Answers : Type 0 where
  pub of_radarr : Option Outcome
  pub of_sonarr : Option Outcome
  pub radarr_at : List ℕ
  pub sonarr_at : List ℕ

unfoldable pub collect : Platform → Answers → DownloadQueue
collect p answers = record {
  radarr_queue = service_queue p radarr answers.radarr_at answers.of_radarr;
  sonarr_queue = service_queue p sonarr answers.sonarr_at answers.of_sonarr;
}

abbrev pub reason_text : Unavailable → List ℕ
reason_text not_configured = codes "not_configured"
reason_text service_unavailable = codes "service_unavailable"
reason_text timed_out = codes "timed_out"
reason_text invalid_response = codes "invalid_response"

-- The values that the reader's `JSON.parse` makes of what `JSON.stringify` wrote
abbrev pub text_or_null : Option (List ℕ) → Value
text_or_null none = null
text_or_null (some t) = text t

abbrev pub whole_or_null : Option ℕ → Value
whole_or_null none = null
whole_or_null (some n) = whole n

abbrev pub tenths_or_null : Option ℕ → Value
tenths_or_null none = null
tenths_or_null (some n) = number (finite false n 1)

abbrev pub item_value : DownloadItem → Value
item_value item = object (
    member "id" (text item.id) (
      member "service" (text (name_of item.service)) (
        member "title" (text item.title) (
          member "status" (text (status_text item.status)) (
            member "problem" (text_or_null item.problem) (
              member "size" (whole_or_null item.size) (
                member "sizeLeft" (whole_or_null item.size_left) (
                  member "progress" (tenths_or_null item.progress) (
                    member "estimatedCompletion" (text_or_null item.estimated_completion)
                      no_member)))))))))

abbrev pub service_value : ServiceQueue → Value
service_value (available items total observed_at) = object (
    member "status" (text (codes "available")) (
      member "items" (array (values_of (map item_value items)))
        (member "total" (whole total) (member "observedAt" (text observed_at) no_member))))
service_value (unavailable reason) = object (
    member "status" (text (codes "unavailable"))
      (member "reason" (text (reason_text reason)) (member "observedAt" null no_member)))

unfoldable pub queue_value : DownloadQueue → Value
queue_value queue = object (
    member "radarr" (service_value queue.radarr_queue)
      (member "sonarr" (service_value queue.sonarr_queue) no_member))
