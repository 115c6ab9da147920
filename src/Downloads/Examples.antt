-- ===== src/Downloads/Examples.antt =====
-- A season pack and a failed movie in the queue of worker/src/downloads.ts.
use voidstation_app.Downloads.Numbers.{power_of_ten}
use voidstation_app.Downloads.Sent.{IsOrdinaryAnswer, collect-accepted}
use voidstation_app.Downloads.Distinct.{ids_of}
use voidstation_app.Downloads.OneDownload.{IsGrouping, group_from-IsGrouping}
use voidstation_app.Downloads.Urgency.{IsMostUrgent, project_records-IsMostUrgent}
use voidstation_app.Downloads.Paced.{ArePaced, Reach-ArePaced}
use voidstation_app.Downloads.Cache.{
  Polling, Reach, call, collected, download_queue, idle, next, settle, start,
}
use voidstation_app.Downloads.Snapshot.{
  Answers, DownloadQueue, collect, not_configured, output, queue_value, tool_error, unavailable,
}
use voidstation_app.Prelude.{
  List, String, [], arith, codes, if◌then◌else◌, insert_by, is_digit, is_space, none, refl, some,
  sort_by, trim, trim_start, true, ℕ, ◌+◌, ◌=b◌, ◌∷◌, ◌≡◌, Option,
}
use voidstation_app.Downloads.Fetch.{WorkerAnswer, queue_response, downloads_route, queue_answer}
use voidstation_app.Downloads.Served.{collect-downloads_route}
use voidstation_app.Downloads.Route.{Delivers, downloads_route_iff}
use voidstation_app.Values.{
  Value, array, boolean, member, natural?, no_member, object, text, values_of, whole,
}
use voidstation_app.Downloads.Text.{is_control_or_format, one_spaces, plain_text}
use voidstation_app.Downloads.Records.{
  Platform, QueueRecord, download_status, downloading, failed, parse_record, radarr, sonarr,
}
use voidstation_app.Downloads.Items.{
  DownloadItem, estimated_completion, item_for, low_digits, number_text, problem, progress,
  title_of, worst_status,
}
use voidstation_app.Downloads.Queue.{
  comes_first, group_from, id_for, is_id_char, is_used, items_from, project_queue, project_records,
}
use voidstation_app.Downloads.Contract.{is_download_queue, is_iso_time}

-- One date is known, and texts are in lower case.
abbrev known_date : List ℕ
known_date = codes "2026-09-13T08:00:00.000Z"

abbrev calendar : Platform
calendar = record {
  lower = λ t. t;
  parse_date = λ t. if t =b known_date then some 8641789286400000 else none;
  iso_string = λ n. known_date;
}

known_date-is_iso_time : is_iso_time calendar known_date ≡ true
unfolding is_iso_time is_digit ◌=b◌
known_date-is_iso_time = refl

abbrev episode : ℕ → Value
episode n = object (
    member "id" (whole (n + 1)) (
      member "downloadId" (text (codes "ABC")) (
        member "status" (text (codes "downloading")) (
          member "mediaTitle" (text (codes "Show")) (
            member "seasonNumber" (whole 2) (
              member "episodeNumber" (whole n) (
                member "size" (whole 1000) (
                  member "sizeLeft" (whole 250)
                    (member "estimatedCompletionTime" (text known_date) no_member)))))))))

abbrev failed_record : Value
failed_record = object (
    member "id" (whole 9) (
      member "status" (text (codes "failed"))
        (member "errorMessage" (text (codes "no  space")) no_member)))

abbrev queue_output : List Value → Value
queue_output records = object (
    member "ok" (boolean true) (
      member "action" (text (codes "queue")) (
        member "service" (text (codes "sonarr")) (
          member "totalRecords" (whole 3)
            (member "records" (array (values_of records)) no_member)))))

abbrev pack_output : Value
pack_output = queue_output (episode 1 ∷ episode 2 ∷ failed_record ∷ [])

abbrev pack_items : List DownloadItem
pack_items =
    record {
      id = codes "sonarr-9";
      service = sonarr;
      title = codes "Unknown series";
      status = failed;
      problem = some (codes "no space");
      size = none;
      size_left = none;
      progress = none;
      estimated_completion = none;
    }
    ∷ record {
      id = codes "sonarr-ABC";
      service = sonarr;
      title = codes "Show · Season 2 (2 episodes)";
      status = downloading;
      problem = none;
      size = some 1000;
      size_left = some 250;
      progress = some 750;
      estimated_completion = some known_date;
    }
    ∷ []

pack_projection :
    project_queue calendar sonarr pack_output ≡ some (record { items = pack_items; total = 2 })
unfolding project_queue project_records items_from group_from item_for id_for is_used comes_first
    worst_status progress estimated_completion problem title_of download_status parse_record
    natural? number_text low_digits plain_text one_spaces is_control_or_format is_space trim
    trim_start is_id_char sort_by insert_by ◌=b◌
pack_projection = refl

-- A download client's names can meet an identifier that the worker makes up: two items then have one
-- identifier, and the application refuses the queues of both services.
abbrev named : String → QueueRecord
named name = record {
  id = none;
  download_id = some (codes name);
  status = none;
  tracked_download_status = none;
  tracked_download_state = none;
  error_message = none;
  estimated_completion_time = none;
  size = none;
  size_left = none;
  status_messages = [];
  media_title = none;
  year = none;
  season_number = none;
  episode_number = none;
}

abbrev unnamed : QueueRecord
unnamed = record (named "") { download_id = none }

clash :
    ids_of
      (project_records calendar radarr (named "item-2" ∷ named "item-2-2" ∷ unnamed ∷ []) 3).items
    ≡ codes "radarr-item-2" ∷ codes "radarr-item-2-2" ∷ codes "radarr-item-2-2" ∷ []
unfolding project_records items_from group_from item_for id_for is_used comes_first worst_status
    progress estimated_completion problem title_of download_status number_text low_digits plain_text
    is_id_char sort_by insert_by ◌=b◌
clash = refl

abbrev answers : Answers
answers = record {
  of_radarr = some (tool_error "timed_out");
  of_sonarr = some (output pack_output);
  radarr_at = known_date;
  sonarr_at = known_date;
}

pack-IsOrdinaryAnswer : IsOrdinaryAnswer calendar (some (output pack_output))
unfolding parse_record natural? ◌=b◌ power_of_ten
pack-IsOrdinaryAnswer = (
  (
    record { four_digits = (omega arith, omega arith); small_season = omega arith; own_id = refl },
    (
      record {
        four_digits = (omega arith, omega arith);
        small_season = omega arith;
        own_id = refl;
      },
      (record { four_digits = tt; small_season = tt; own_id = tt }, tt),
    ),
  ),
  omega arith,
)

collect-accepted_example :
    is_download_queue calendar (queue_value (collect calendar answers)) ≡ true
collect-accepted_example =
    collect-accepted calendar answers (λ time h. known_date-is_iso_time) known_date-is_iso_time
      known_date-is_iso_time tt pack-IsOrdinaryAnswer

pack-accepted : is_download_queue calendar (queue_value (collect calendar answers)) ≡ true
pack-accepted =
    collect-accepted calendar answers (λ time h. known_date-is_iso_time) known_date-is_iso_time
      known_date-is_iso_time tt pack-IsOrdinaryAnswer

abbrev sent_queue : Value
sent_queue = queue_value (collect calendar answers)

-- The text of the queue is called "queue" here, and arrives in two chunks.
abbrev parse_sent : List ℕ → Option Value
parse_sent t = if t =b codes "queue" then some sent_queue else none

abbrev two_chunks : List (List ℕ)
two_chunks = codes "que" ∷ codes "ue" ∷ []

abbrev sent_answer : WorkerAnswer
sent_answer = queue_response two_chunks

parse_sent-queue : parse_sent (codes "queue") ≡ some sent_queue
unfolding ◌=b◌
parse_sent-queue = refl

sent_answer-Delivers : Delivers calendar parse_sent sent_queue (some sent_answer)
sent_answer-Delivers = (refl, refl, (omega arith, parse_sent-queue), pack-accepted)

downloads_route_iff_example :
    downloads_route calendar parse_sent (some sent_answer) ≡ queue_answer sent_queue
downloads_route_iff_example =
    (downloads_route_iff calendar parse_sent (some sent_answer) sent_queue).1 sent_answer-Delivers

collect-downloads_route_example :
    downloads_route calendar parse_sent (some (queue_response two_chunks)) ≡ queue_answer sent_queue
collect-downloads_route_example =
    collect-downloads_route calendar answers (λ v. codes "queue") parse_sent two_chunks
      (λ time h. known_date-is_iso_time) known_date-is_iso_time known_date-is_iso_time tt
      pack-IsOrdinaryAnswer parse_sent-queue (omega arith) refl

abbrev two_episodes : List QueueRecord
two_episodes = named "ABC" ∷ unnamed ∷ named "ABC" ∷ []

group_from-IsGrouping_example : IsGrouping sonarr two_episodes (group_from sonarr [] two_episodes)
group_from-IsGrouping_example = group_from-IsGrouping sonarr two_episodes

project_records-IsMostUrgent_example :
    (hidden : List DownloadItem) × IsMostUrgent calendar
      (items_from calendar sonarr 0 [] (group_from sonarr [] two_episodes))
      (project_records calendar sonarr two_episodes 3).items
      hidden
project_records-IsMostUrgent_example = project_records-IsMostUrgent calendar sonarr two_episodes 3

abbrev nothing_configured : DownloadQueue
nothing_configured = record {
  radarr_queue = unavailable not_configured;
  sonarr_queue = unavailable not_configured;
}

-- Two callers share a reading, and a third comes when its result is stale.
abbrev polled : Polling
polled =
    (download_queue 10020
      (collected nothing_configured 20 (download_queue 15 (download_queue 10 idle).1).1)).1

polled-Reach : Reach polled
unfolding download_queue collected
polled-Reach =
    next (next (next (next start (call 10)) (call 15)) (settle nothing_configured 20 refl))
      (call 10020)

Reach-ArePaced_example : ArePaced polled.reads
Reach-ArePaced_example = Reach-ArePaced polled polled-Reach
