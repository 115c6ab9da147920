-- ===== src/Downloads/Sent.antt =====
-- The whole answer of worker/src/downloads.ts against the check of src/lib/downloads.ts.
use voidstation_app.Downloads.Sizes.{
  HasSafeSizes, IsSafe, natural_value-IsSafe, record_of-HasSafeSizes,
}
use voidstation_app.Prelude.{
  All, Bool, List, Option, [], false, if◌then◌else◌, length, none, refl, some, true, ℕ, ◌=b◌, ◌∷◌,
  ◌≡◌, ◌≤◌,
}
use voidstation_app.Values.{Value, array, as_array, boolean, member_of, null, number, object, text}
use voidstation_app.Downloads.Records.{
  MediaService, Platform, QueueRecord, natural_field, parse_record, radarr, sonarr,
}
use voidstation_app.Downloads.Queue.{
  Projection, is_queue_output, parse_records, project_parsed, project_queue,
}
use voidstation_app.Downloads.Contract.{is_download_queue, is_iso_time, is_service_queue}
use voidstation_app.Downloads.Snapshot.{
  Answers, Outcome, Unavailable, collect, invalid_response, not_configured, other_error, output,
  projected, queue_value, reason_for, service_queue, service_unavailable, service_value, timed_out,
  tool_error, unavailable,
}
use voidstation_app.Downloads.Accepted.{IsOrdinary, IsSound, WritesFourDigits, and_true}
use voidstation_app.Downloads.Shown.{project_records-accepted}

abbrev HaveSafeSizes : Option (List QueueRecord) → Type 0
HaveSafeSizes none = Unit
HaveSafeSizes (some rs) = All HasSafeSizes rs

parse_record-HasSafeSizes :
    (v : Value) (o : Option (List QueueRecord))
    → HaveSafeSizes o
    → HaveSafeSizes (elim (parse_record v) [
      | none ↦ none
      | some r ↦ elim o [ none ↦ none | some rs ↦ some (r ∷ rs) ]
    ])
unfolding parse_record
parse_record-HasSafeSizes null o h = tt
parse_record-HasSafeSizes (boolean b) o h = tt
parse_record-HasSafeSizes (number n) o h = tt
parse_record-HasSafeSizes (text t) o h = tt
parse_record-HasSafeSizes (array vs) o h = tt
parse_record-HasSafeSizes (object members) none h = tt
parse_record-HasSafeSizes (object members) (some rs) h = (record_of-HasSafeSizes members, h)

parse_records-HaveSafeSizes : (vs : List Value) → HaveSafeSizes (parse_records vs)
parse_records-HaveSafeSizes [] = tt
parse_records-HaveSafeSizes (v ∷ vs) =
    parse_record-HasSafeSizes v (parse_records vs) (parse_records-HaveSafeSizes vs)

-- The records that the output of an adapter holds, if all of them can be read
abbrev pub records_in : Value → Option (List QueueRecord)
records_in (object members) = elim (as_array (member_of "records" members)) [
  | none ↦ none
  | some vs ↦ parse_records vs
]
records_in _ = none

abbrev AreOrdinary : Platform → Option (List QueueRecord) → Type 0
AreOrdinary p none = Unit
AreOrdinary p (some rs) = All (IsOrdinary p) rs × (length rs ≤ 999999)

-- Fewer than a million records, each an ordinary one
abbrev pub IsOrdinaryAnswer : Platform → Option Outcome → Type 0
IsOrdinaryAnswer p (some (output v)) = AreOrdinary p (records_in v)
IsOrdinaryAnswer p _ = Unit

All-IsSound :
    (p : Platform) (rs : List QueueRecord)
    → All (IsOrdinary p) rs
    → All HasSafeSizes rs
    → All (IsSound p) rs
All-IsSound p [] h k = tt
All-IsSound p (r ∷ rs) (h, hs) (k, ks) =
    (record { ordinary = h; safe_sizes = k }, All-IsSound p rs hs ks)

unavailable-accepted :
    (p : Platform) (service : MediaService) (reason : Unavailable)
    → is_service_queue p service (some (service_value (unavailable reason))) ≡ true
unfolding is_service_queue ◌=b◌
unavailable-accepted p service not_configured = refl
unavailable-accepted p service service_unavailable = refl
unavailable-accepted p service timed_out = refl
unavailable-accepted p service invalid_response = refl

module _ (p : Platform) (service : MediaService) (at : List ℕ) (w : WritesFourDigits p)
    (i : is_iso_time p at ≡ true) where
  abbrev Passes : Option Projection → Type 0
  Passes o = is_service_queue p service (some (service_value (projected at o))) ≡ true

  project_parsed-Passes :
      (total : Option ℕ) (rs : Option (List QueueRecord))
      → IsSafe total
      → HaveSafeSizes rs
      → AreOrdinary p rs
      → Passes (project_parsed p service total rs)
  project_parsed-Passes none rs t h o = unavailable-accepted p service invalid_response
  project_parsed-Passes (some n) none t h o = unavailable-accepted p service invalid_response
  project_parsed-Passes (some n) (some rs) t h (o, l) =
      project_records-accepted p service rs n at w (All-IsSound p rs o h) l t i

  if-Passes : (b : Bool) (o : Option Projection) → Passes o → Passes (if b then o else none)
  if-Passes true o h = h
  if-Passes false o h = unavailable-accepted p service invalid_response

  records-Passes :
      (total : Option ℕ) (vs : Option (List Value))
      → IsSafe total
      → AreOrdinary p (elim vs [ none ↦ none | some xs ↦ parse_records xs ])
      → Passes
          (elim vs [ none ↦ none | some xs ↦ project_parsed p service total (parse_records xs) ])
  records-Passes total none t o = unavailable-accepted p service invalid_response
  records-Passes total (some vs) t o =
      project_parsed-Passes total (parse_records vs) t (parse_records-HaveSafeSizes vs) o

  project_queue-Passes :
      (v : Value) → AreOrdinary p (records_in v) → Passes (project_queue p service v)
  unfolding project_queue
  project_queue-Passes null o = unavailable-accepted p service invalid_response
  project_queue-Passes (boolean b) o = unavailable-accepted p service invalid_response
  project_queue-Passes (number n) o = unavailable-accepted p service invalid_response
  project_queue-Passes (text t) o = unavailable-accepted p service invalid_response
  project_queue-Passes (array vs) o = unavailable-accepted p service invalid_response
  project_queue-Passes (object members) o = if-Passes (is_queue_output service members) _ (
      records-Passes (natural_field "totalRecords" members) (as_array (member_of "records" members))
        (natural_value-IsSafe (member_of "totalRecords" members)) o)

  service_queue-accepted :
      (outcome : Option Outcome)
      → IsOrdinaryAnswer p outcome
      → is_service_queue p service (some (service_value (service_queue p service at outcome)))
        ≡ true
  unfolding service_queue
  service_queue-accepted none o = unavailable-accepted p service not_configured
  service_queue-accepted (some (output v)) o = project_queue-Passes v o
  service_queue-accepted (some (tool_error code)) o =
      unavailable-accepted p service (reason_for code)
  service_queue-accepted (some other_error) o = unavailable-accepted p service service_unavailable

-- Whatever the two services answer, errors and unusable output included, the application accepts what
-- the worker sends. The records must be fewer than a million, with seasons below 100,000, years of
-- four digits in their completion dates, and no download id that begins with "item-"; toISOString
-- must write a time of the years 0 to 9999 as Date.parse reads it.
pub collect-accepted :
    (p : Platform) (answers : Answers)
    → WritesFourDigits p
    → is_iso_time p answers.radarr_at ≡ true
    → is_iso_time p answers.sonarr_at ≡ true
    → IsOrdinaryAnswer p answers.of_radarr
    → IsOrdinaryAnswer p answers.of_sonarr
    → is_download_queue p (queue_value (collect p answers)) ≡ true
unfolding is_download_queue queue_value collect
collect-accepted p answers w i j r s =
    and_true _ _ (service_queue-accepted p radarr answers.radarr_at w i answers.of_radarr r)
      (service_queue-accepted p sonarr answers.sonarr_at w j answers.of_sonarr s)
