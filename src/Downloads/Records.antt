-- ===== src/Downloads/Records.antt =====
-- `parseRecord` and `downloadStatus` of worker/src/downloads.ts.
use voidstation_app.Prelude.{
  Bool, List, Option, String, [], codes, false, if◌then◌else◌, leb, ltb, none, some, ℕ, ◌=b◌, ◌||◌,
  ◌∷◌,
}
use voidstation_app.Values.{
  Members, Value, as_array, as_object, as_text, member_of, natural?, number, object,
}
use voidstation_app.Downloads.Text.{text_length}

-- JavaScript's toLowerCase, Date.parse (in milliseconds after the earliest date, none for NaN) and
-- toISOString
pub record Platform : Type 0 where
  pub lower : List ℕ → List ℕ
  pub parse_date : List ℕ → Option ℕ
  pub iso_string : ℕ → List ℕ

pub data MediaService : Type 0 where
  radarr sonarr : MediaService

pub data DownloadStatus : Type 0 where
  downloading queued paused delayed importing completed warning failed : DownloadStatus

pub record StatusMessage : Type 0 where
  pub title : Option (List ℕ)
  pub messages : List (List ℕ)

pub record QueueRecord : Type 0 where
  pub id : Option ℕ
  pub download_id : Option (List ℕ)
  pub status : Option (List ℕ)
  pub tracked_download_status : Option (List ℕ)
  pub tracked_download_state : Option (List ℕ)
  pub error_message : Option (List ℕ)
  pub estimated_completion_time : Option (List ℕ)
  pub size : Option ℕ
  pub size_left : Option ℕ
  pub status_messages : List StatusMessage
  pub media_title : Option (List ℕ)
  pub year : Option ℕ
  pub season_number : Option ℕ
  pub episode_number : Option ℕ

abbrev pub bounded_text : Option (List ℕ) → Option (List ℕ)
bounded_text none = none
bounded_text (some t) = if leb (text_length t) 1000 then some t else none

-- `text`
abbrev pub text_field : String → Members → Option (List ℕ)
text_field key members = bounded_text (as_text (member_of key members))

abbrev pub natural_value : Option Value → Option ℕ
natural_value (some (number n)) = natural? n
natural_value _ = none

-- `nonNegativeInteger`
abbrev pub natural_field : String → Members → Option ℕ
natural_field key members = natural_value (member_of key members)

abbrev pub positive_id : Option ℕ → Option ℕ
positive_id none = none
positive_id (some id) = if ltb 0 id then some id else none

abbrev pub texts_in : List Value → List (List ℕ)
texts_in [] = []
texts_in (v ∷ vs) = elim (bounded_text (as_text (some v))) [
  | none ↦ texts_in vs
  | some t ↦ t ∷ texts_in vs
]

abbrev pub or_empty {ℓ} : {A : Type ℓ} → Option (List A) → List A
or_empty none = []
or_empty (some xs) = xs

-- An empty text counts as absent where the code asks whether there is one.
abbrev pub present : Option (List ℕ) → Option (List ℕ)
present (some (c ∷ t)) = some (c ∷ t)
present _ = none

abbrev pub status_message : Members → StatusMessage
status_message members = record {
  title = present (text_field "title" members);
  messages = texts_in (or_empty (as_array (member_of "messages" members)));
}

abbrev pub status_messages_in : List Value → List StatusMessage
status_messages_in [] = []
status_messages_in (v ∷ vs) = elim (as_object v) [
  | none ↦ status_messages_in vs
  | some members ↦ status_message members ∷ status_messages_in vs
]

abbrev pub record_of : Members → QueueRecord
record_of members = record {
  id = positive_id (natural_field "id" members);
  download_id = text_field "downloadId" members;
  status = text_field "status" members;
  tracked_download_status = text_field "trackedDownloadStatus" members;
  tracked_download_state = text_field "trackedDownloadState" members;
  error_message = text_field "errorMessage" members;
  estimated_completion_time = text_field "estimatedCompletionTime" members;
  size = natural_field "size" members;
  size_left = natural_field "sizeLeft" members;
  status_messages = status_messages_in (or_empty (as_array (member_of "statusMessages" members)));
  media_title = text_field "mediaTitle" members;
  year = natural_field "year" members;
  season_number = natural_field "seasonNumber" members;
  episode_number = natural_field "episodeNumber" members;
}

-- none: it throws.
unfoldable pub parse_record : Value → Option QueueRecord
parse_record (object members) = some (record_of members)
parse_record _ = none

abbrev pub is_word : Platform → Option (List ℕ) → String → Bool
is_word p none word = false
is_word p (some t) word = p.lower t =b codes word

abbrev pub is_failed : Platform → QueueRecord → Bool
is_failed p r =
    is_word p r.tracked_download_state "failed"
    || is_word p r.tracked_download_state "failedpending"
    || is_word p r.status "failed"

abbrev pub is_warning : Platform → QueueRecord → Bool
is_warning p r =
    is_word p r.tracked_download_status "warning"
    || is_word p r.tracked_download_status "error"
    || is_word p r.tracked_download_state "importblocked"
    || is_word p r.status "warning"
    || is_word p r.status "downloadclientunavailable"

abbrev pub is_importing : Platform → QueueRecord → Bool
is_importing p r =
    is_word p r.tracked_download_state "importpending"
    || is_word p r.tracked_download_state "importing"

-- The `switch`, and what follows it
abbrev pub plain_status : Platform → QueueRecord → DownloadStatus
plain_status p r =
    if is_word p r.status "downloading"
    then downloading
    else if is_word p r.status "queued"
    then queued
    else if is_word p r.status "paused"
    then paused
    else if is_word p r.status "delay"
    then delayed
    else if is_word p r.status "completed"
    then completed
    else if is_word p r.tracked_download_state "imported"
    then completed
    else queued

unfoldable pub download_status : Platform → QueueRecord → DownloadStatus
download_status p r =
    if is_failed p r
    then failed
    else if is_warning p r
    then warning
    else if is_importing p r
    then importing
    else plain_status p r
