-- ===== src/Downloads/Contract.antt =====
-- `isDownloadQueue` of src/lib/downloads.ts, the check of what the worker sends.
use voidstation_app.Prelude.{
  Bool, List, Option, String, [], all, any, codes, drop, false, if◌then◌else◌, is_some, leb, length,
  ltb, map, max, none, not, some, take, true, ℕ, ◌&&◌, ◌*◌, ◌++◌, ◌==◌, ◌=b◌, ◌^◌, ◌||◌, ◌∷◌,
  is_digit,
}
use voidstation_app.Values.{
  Members, Value, as_array, as_object, as_text, finite, has_exactly, member_of, natural?, null,
  number, object, text,
}
use voidstation_app.Downloads.Text.{is_control_or_format, text_length}
use voidstation_app.Downloads.Records.{
  DownloadStatus, MediaService, Platform, completed, delayed, downloading, failed, importing,
  paused, queued, radarr, sonarr, warning,
}
use voidstation_app.Downloads.Queue.{is_id_char, is_text, name_of}

-- /^\d{4}-\d{2}-\d{2}T/
abbrev pub starts_with_date : List ℕ → Bool
starts_with_date t =
    all is_digit (take 4 t)
    && take 1 (drop 4 t) =b codes "-"
    && all is_digit (take 2 (drop 5 t))
    && take 1 (drop 7 t) =b codes "-"
    && all is_digit (take 2 (drop 8 t))
    && take 1 (drop 10 t) =b codes "T"

-- `isIsoTime` of a text
unfoldable pub is_iso_time : Platform → List ℕ → Bool
is_iso_time p t = leb (text_length t) 40 && starts_with_date t && is_some (p.parse_date t)

-- `isPlainText` of a text
unfoldable pub is_plain : List ℕ → ℕ → Bool
is_plain t max =
    ltb 0 (text_length t) && leb (text_length t) max && not (any is_control_or_format t)

-- /^[a-z]+-[A-Za-z0-9._:-]+$/
unfoldable pub after_letters : List ℕ → List ℕ
after_letters [] = []
after_letters (c ∷ t) = if leb b'a' c && leb c b'z' then after_letters t else c ∷ t

abbrev pub is_id_end : List ℕ → Bool
is_id_end [] = false
is_id_end (c ∷ t) = c == 45 && leb 1 (length t) && all is_id_char t

abbrev pub is_id_form : List ℕ → Bool
is_id_form t = ltb (length (after_letters t)) (length t) && is_id_end (after_letters t)

abbrev pub has_prefix : List ℕ → List ℕ → Bool
has_prefix start t = take (length start) t =b start

abbrev pub is_item_id : MediaService → List ℕ → Bool
is_item_id service id =
    leb (text_length id) 160 && has_prefix (name_of service ++ 45 ∷ []) id && is_id_form id

abbrev pub text_and : (List ℕ → Bool) → Option Value → Bool
text_and test (some (text t)) = test t
text_and test _ = false

abbrev pub null_or : (Option Value → Bool) → Option Value → Bool
null_or test (some null) = true
null_or test v = test v

abbrev pub status_text : DownloadStatus → List ℕ
status_text downloading = codes "downloading"
status_text queued = codes "queued"
status_text paused = codes "paused"
status_text delayed = codes "delayed"
status_text importing = codes "importing"
status_text completed = codes "completed"
status_text warning = codes "warning"
status_text failed = codes "failed"

-- STATUSES
abbrev pub statuses : List DownloadStatus
statuses = downloading ∷ queued ∷ paused ∷ delayed ∷ importing ∷ completed ∷ warning ∷ failed ∷ []

abbrev pub is_status : List ℕ → Bool
is_status t = any (λ s. t =b status_text s) statuses

abbrev pub is_bytes : Option Value → Bool
is_bytes (some (number n)) = is_some (natural? n)
is_bytes _ = false

-- typeof value === "number" && Number.isFinite(value) && value >= 0 && value <= 100
abbrev pub is_percentage : Option Value → Bool
is_percentage (some (number (finite negative digits scale))) =
    (not negative || digits == 0) && leb digits (100 * 10 ^ scale)
is_percentage _ = false

abbrev pub item_keys : List String
item_keys =
    "id" ∷ "service" ∷ "title" ∷ "status" ∷ "problem" ∷ "size" ∷ "sizeLeft" ∷ "progress"
    ∷ "estimatedCompletion" ∷ []

abbrev pub is_item_object : Platform → MediaService → Members → Bool
is_item_object p service item =
    has_exactly item item_keys
    && text_and (is_item_id service) (member_of "id" item)
    && text_and (λ t. t =b name_of service) (member_of "service" item)
    && text_and (λ t. is_plain t 300) (member_of "title" item)
    && text_and is_status (member_of "status" item)
    && null_or (text_and (λ t. is_plain t 200)) (member_of "problem" item)
    && null_or is_bytes (member_of "size" item)
    && null_or is_bytes (member_of "sizeLeft" item)
    && null_or is_percentage (member_of "progress" item)
    && null_or (text_and (is_iso_time p)) (member_of "estimatedCompletion" item)

unfoldable pub is_item : Platform → MediaService → Value → Bool
is_item p service v = elim (as_object v) [
  | none ↦ false
  | some item ↦ is_item_object p service item
]

-- The ids of items, which are texts by now; a Set of them is as large as the array.
abbrev pub id_of : Value → List ℕ
id_of v = elim (as_object v) [
  | none ↦ []
  | some item ↦ elim (as_text (member_of "id" item)) [ none ↦ [] | some id ↦ id ]
]

unfoldable pub are_distinct : List (List ℕ) → Bool
are_distinct [] = true
are_distinct (id ∷ ids) = not (any (λ i. i =b id) ids) && are_distinct ids

abbrev pub has_total : ℕ → Option Value → Bool
has_total shown (some (number n)) = elim (natural? n) [
  | none ↦ false
  | some total ↦ leb shown total
]
has_total shown _ = false

abbrev pub is_items_of : Platform → MediaService → Members → List Value → Bool
is_items_of p service queue items =
    leb (length items) 50
    && all (is_item p service) items
    && are_distinct (map id_of items)
    && has_total (length items) (member_of "total" queue)

abbrev pub are_items : Platform → MediaService → Members → Option (List Value) → Bool
are_items p service queue none = false
are_items p service queue (some items) = is_items_of p service queue items

abbrev pub is_available_queue : Platform → MediaService → Members → Bool
is_available_queue p service queue =
    is_text (member_of "status" queue) (codes "available")
    && has_exactly queue ("status" ∷ "items" ∷ "total" ∷ "observedAt" ∷ [])
    && text_and (is_iso_time p) (member_of "observedAt" queue)
    && are_items p service queue (as_array (member_of "items" queue))

abbrev pub is_null : Option Value → Bool
is_null (some null) = true
is_null _ = false

-- REASONS.includes
abbrev pub is_reason : List ℕ → Bool
is_reason t =
    t =b codes "not_configured"
    || t =b codes "service_unavailable"
    || t =b codes "timed_out"
    || t =b codes "invalid_response"

abbrev pub is_unavailable_queue : Members → Bool
is_unavailable_queue queue =
    has_exactly queue ("status" ∷ "reason" ∷ "observedAt" ∷ [])
    && is_null (member_of "observedAt" queue)
    && text_and is_reason (member_of "reason" queue)

unfoldable pub is_service_queue : Platform → MediaService → Option Value → Bool
is_service_queue p service (some (object queue)) =
    if is_text (member_of "status" queue) (codes "unavailable")
    then is_unavailable_queue queue
    else is_available_queue p service queue
is_service_queue p service _ = false

unfoldable pub is_download_queue : Platform → Value → Bool
is_download_queue p (object queues) =
    has_exactly queues ("radarr" ∷ "sonarr" ∷ [])
    && is_service_queue p radarr (member_of "radarr" queues)
    && is_service_queue p sonarr (member_of "sonarr" queues)
is_download_queue p _ = false
