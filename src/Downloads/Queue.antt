-- ===== src/Downloads/Queue.antt =====
-- `projectQueue` of worker/src/downloads.ts: what the adapter of a service says, as a queue.
use voidstation_app.Prelude.{
  Bool, List, Option, [], all, any, codes, false, if◌then◌else◌, leb, length, ltb, none, some,
  sort_by, suc, take, true, ℕ, ◌&&◌, ◌++◌, ◌+◌, ◌-◌, ◌==◌, ◌=b◌, ◌||◌, ◌∷◌,
}
use voidstation_app.Values.{Members, Value, as_array, as_object, boolean, member_of, text}
use voidstation_app.Downloads.Records.{
  DownloadStatus, MediaService, Platform, QueueRecord, failed, natural_field, parse_record, present,
  radarr, sonarr, warning,
}
use voidstation_app.Downloads.Items.{DownloadItem, Records, item_for, number_text}

-- A group with the key that `byDownload` has it under, if any
pub record Group : Type 0 where
  pub key : Option (List ℕ)
  pub records : Records

abbrev pub name_of : MediaService → List ℕ
name_of radarr = codes "radarr"
name_of sonarr = codes "sonarr"

-- service === "sonarr" && record.downloadId
abbrev pub group_key : MediaService → QueueRecord → Option (List ℕ)
group_key radarr r = none
group_key sonarr r = present r.download_id

abbrev pub has_group_key : List ℕ → Group → Bool
has_group_key key group = elim group.key [ none ↦ false | some k ↦ k =b key ]

abbrev pub grown : Group → QueueRecord → Group
grown group r = record group {
  records = record group.records { others = group.records.others ++ r ∷ [] };
}

-- `existing.push(record)`
abbrev pub push_to : List ℕ → QueueRecord → List Group → List Group
push_to key r [] = []
push_to key r (group ∷ groups) =
    if has_group_key key group then grown group r ∷ groups else group ∷ push_to key r groups

abbrev pub alone : Option (List ℕ) → QueueRecord → Group
alone key r = record { key = key; records = record { first = r; others = [] } }

abbrev pub add_keyed : List Group → QueueRecord → Option (List ℕ) → List Group
add_keyed groups r none = groups ++ alone none r ∷ []
add_keyed groups r (some key) =
    if any (has_group_key key) groups
    then push_to key r groups
    else groups ++ alone (some key) r ∷ []

abbrev pub add_record : MediaService → List Group → QueueRecord → List Group
add_record service groups r = add_keyed groups r (group_key service r)

unfoldable pub group_from : MediaService → List Group → List QueueRecord → List Group
group_from service groups [] = groups
group_from service groups (r ∷ rs) = group_from service (add_record service groups r) rs

-- SAFE_DOWNLOAD_ID
unfoldable pub is_id_char : ℕ → Bool
is_id_char c =
    (leb b'A' c && leb c b'Z')
    || (leb b'a' c && leb c b'z')
    || (leb b'0' c && leb c b'9')
    || c == b'.'
    || c == b'_'
    || c == b':'
    || c == b'-'

abbrev pub is_safe_id : List ℕ → Bool
is_safe_id id = leb 1 (length id) && leb (length id) 128 && all is_id_char id

abbrev pub prefixed : MediaService → List ℕ → List ℕ
prefixed service id = name_of service ++ 45 ∷ id

abbrev pub download_candidate : MediaService → Option (List ℕ) → Option (List ℕ)
download_candidate service none = none
download_candidate service (some id) = if is_safe_id id then some (prefixed service id) else none

abbrev pub record_candidate : MediaService → Option ℕ → Option (List ℕ)
record_candidate service none = none
record_candidate service (some id) = some (prefixed service (number_text id))

abbrev pub item_id : ℕ → List ℕ
item_id index = codes "item-" ++ number_text index

abbrev pub candidates : MediaService → ℕ → QueueRecord → List (Option (List ℕ))
candidates service index first =
    download_candidate service first.download_id
    ∷ record_candidate service first.id
    ∷ some (prefixed service (item_id index))
    ∷ []

-- `used.has`
unfoldable pub is_used : List (List ℕ) → List ℕ → Bool
is_used used id = any (λ u. u =b id) used

abbrev pub find_unused : List (List ℕ) → List (Option (List ℕ)) → Option (List ℕ)
find_unused used [] = none
find_unused used (none ∷ cs) = find_unused used cs
find_unused used (some c ∷ cs) = if is_used used c then find_unused used cs else some c

unfoldable pub id_for : MediaService → ℕ → List (List ℕ) → QueueRecord → List ℕ
id_for service index used first = elim (find_unused used (candidates service index first)) [
  | none ↦ prefixed service (item_id index ++ 45 ∷ number_text (length used))
  | some id ↦ id
]

-- `used.add`
abbrev pub add_used : List (List ℕ) → List ℕ → List (List ℕ)
add_used used id = if is_used used id then used else used ++ id ∷ []

unfoldable pub items_from :
    Platform → MediaService → ℕ → List (List ℕ) → List Group → List DownloadItem
items_from p service index used [] = []
items_from p service index used (group ∷ groups) =
    let id = id_for service index used group.records.first in
    item_for p service group.records id ∷ items_from p service (suc index) (add_used used id) groups

-- `problemRank`
abbrev pub problem_rank : DownloadStatus → ℕ
problem_rank failed = 0
problem_rank warning = 1
problem_rank _ = 2

-- A completion that is sorted is one that toISOString wrote, so that parsing it gives a number.
abbrev pub time_of : Platform → List ℕ → ℕ
time_of p t = elim (p.parse_date t) [ none ↦ 0 | some time ↦ time ]

-- The comparison is at most 0.
abbrev pub is_sooner : Platform → Option (List ℕ) → Option (List ℕ) → Bool
is_sooner p a none = true
is_sooner p none (some b) = false
is_sooner p (some a) (some b) = leb (time_of p a) (time_of p b)

unfoldable pub comes_first : Platform → DownloadItem → DownloadItem → Bool
comes_first p a b =
    ltb (problem_rank a.status) (problem_rank b.status)
    || (problem_rank a.status == problem_rank b.status
        && is_sooner p a.estimated_completion b.estimated_completion)

abbrev pub max_items : ℕ
max_items = 50

pub record Projection : Type 0 where
  pub items : List DownloadItem
  pub total : ℕ

unfoldable pub project_records : Platform → MediaService → List QueueRecord → ℕ → Projection
project_records p service records total_records =
    let groups = group_from service [] records in
    record {
      items = take max_items (sort_by (comes_first p) (items_from p service 0 [] groups));
      total = length groups + (total_records - length records);
    }

abbrev pub parse_records : List Value → Option (List QueueRecord)
parse_records [] = some []
parse_records (v ∷ vs) = elim (parse_record v) [
  | none ↦ none
  | some r ↦ elim (parse_records vs) [ none ↦ none | some rs ↦ some (r ∷ rs) ]
]

abbrev pub is_text : Option Value → List ℕ → Bool
is_text (some (text t)) s = t =b s
is_text _ s = false

abbrev pub is_true : Option Value → Bool
is_true (some (boolean b)) = b
is_true _ = false

-- The first test
abbrev pub is_queue_output : MediaService → Members → Bool
is_queue_output service output =
    is_true (member_of "ok" output)
    && is_text (member_of "action" output) (codes "queue")
    && is_text (member_of "service" output) (name_of service)

abbrev pub project_parsed :
    Platform → MediaService → Option ℕ → Option (List QueueRecord) → Option Projection
project_parsed p service (some total_records) (some records) =
    some (project_records p service records total_records)
project_parsed p service _ _ = none

abbrev pub project_members : Platform → MediaService → Members → Option Projection
project_members p service output =
    if is_queue_output service output
    then elim (as_array (member_of "records" output)) [
      | none ↦ none
      | some vs ↦ project_parsed p service (natural_field "totalRecords" output) (parse_records vs)
    ]
    else none

-- none: it throws InvalidQueue.
unfoldable pub project_queue : Platform → MediaService → Value → Option Projection
project_queue p service output = elim (as_object output) [
  | none ↦ none
  | some members ↦ project_members p service members
]
