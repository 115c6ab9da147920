-- ===== src/Thread/Groups.antt =====
-- `groupThreadEntries`, `activityHasError` and `activitySummary` of src/components/assistant-thread.ts.
-- `hostname` is the URL parser's.
use voidstation_app.Prelude.{
  Bool, List, Option, String, [], any, codes, drop, false, if◌then◌else◌, map, none, some, take,
  true, ℕ, ◌++◌, ◌=b◌, ◌=s◌, ◌||◌, ◌∷◌,
}
use voidstation_app.Thread.Entries.{
  MediaResult, Message, Reference, ThreadEntry, ToolCall, configured, details_of, discovered,
  failed_at, found, key_of, looked_up, media_result, message, searched, status_of, tool_call,
}

pub data ThreadGroup : Type 0 where
  message_group : Message → ThreadGroup
  activity : Reference → String → List ThreadEntry → ThreadGroup

abbrev pub is_of_turn : String → ThreadEntry → Bool
is_of_turn turn (message value) = false
is_of_turn turn (tool_call value) = turn =s value.turn_id
is_of_turn turn (media_result value) = turn =s value.turn_id

abbrev pub new_group : ThreadEntry → ThreadGroup
new_group (message value) = message_group value
new_group (tool_call value) =
    activity (key_of (tool_call value)) value.turn_id (tool_call value ∷ [])
new_group (media_result value) =
    activity (key_of (media_result value)) value.turn_id (media_result value ∷ [])

-- One round of the loop: `previous` is the last group.
abbrev pub after_previous : ThreadEntry → ThreadGroup → List ThreadGroup
after_previous entry (message_group value) = message_group value ∷ new_group entry ∷ []
after_previous entry (activity id turn entries) =
    if is_of_turn turn entry
    then activity id turn (entries ++ entry ∷ []) ∷ []
    else activity id turn entries ∷ new_group entry ∷ []

unfoldable pub push_entry : ThreadEntry → List ThreadGroup → List ThreadGroup
push_entry entry [] = new_group entry ∷ []
push_entry entry (previous ∷ []) = after_previous entry previous
push_entry entry (group ∷ next ∷ groups) = group ∷ push_entry entry (next ∷ groups)

unfoldable pub group_from : List ThreadGroup → List ThreadEntry → List ThreadGroup
group_from groups [] = groups
group_from groups (entry ∷ entries) = group_from (push_entry entry groups) entries

unfoldable pub group_thread_entries : List ThreadEntry → List ThreadGroup
group_thread_entries entries = group_from [] entries

abbrev pub is_kind_error : Option String → Bool
is_kind_error none = false
is_kind_error (some kind) = kind =s "error"

abbrev pub is_failure : MediaResult → Bool
is_failure (failed_at operation) = true
is_failure _ = false

unfoldable pub activity_has_error : ThreadEntry → Bool
activity_has_error (message value) = false
activity_has_error (media_result value) = is_failure value.result
activity_has_error (tool_call value) = value.has_error_status || is_kind_error value.result_kind

abbrev pub movie_or_series : Bool → List ℕ
movie_or_series true = codes "movie"
movie_or_series false = codes "series"

abbrev pub result_summary : MediaResult → List ℕ
result_summary found = codes "Checked your library"
result_summary looked_up = codes "Looked up titles"
result_summary (details_of movie) = codes "Read " ++ movie_or_series movie ++ codes " details"
result_summary (status_of movie) = codes "Checked " ++ movie_or_series movie ++ codes " status"
result_summary discovered = codes "Read media defaults"
result_summary configured = codes "Media configuration result"
result_summary searched = codes "Download search result"
result_summary (failed_at operation) = operation ++ codes " failed"

abbrev pub strip_www : List ℕ → List ℕ
strip_www host = if take 4 host =b codes "www." then drop 4 host else host

abbrev pub web_host : (String → Option (List ℕ)) → Option String → List ℕ
web_host hostname none = codes "a web page"
web_host hostname (some url) = elim (hostname url) [
  | none ↦ codes "a web page"
  | some host ↦ strip_www host
]

abbrev pub item_word : Option String → List ℕ
item_word none = codes "media"
item_word (some kind) =
    if kind =s "movie"
    then codes "movie"
    else if kind =s "series"
    then codes "series"
    else codes "media"

abbrev pub tool_summary : (String → Option (List ℕ)) → ToolCall → List ℕ
tool_summary hostname call =
    if call.name =s "media_find"
    then codes "Checked your library"
    else if call.name =s "media_lookup"
    then codes "Looked up titles"
    else if call.name =s "media_details"
    then codes "Read " ++ item_word call.parameter_type ++ codes " details"
    else if call.name =s "media_status"
    then codes "Checked media status"
    else if call.name =s "media_discovery"
    then codes "Read media defaults"
    else if call.name =s "web_search"
    then codes "Searched the web"
    else if call.name =s "web_fetch"
    then codes "Read " ++ web_host hostname call.parameter_url
    else codes "Ran " ++ codes call.name

-- An activity has no messages.
unfoldable pub label_of : (String → Option (List ℕ)) → ThreadEntry → List ℕ
unfolding activity_has_error
label_of hostname (message value) = []
label_of hostname (media_result value) = result_summary value.result
label_of hostname (tool_call value) =
    if activity_has_error (tool_call value)
    then codes value.name ++ codes " failed"
    else tool_summary hostname value

-- `new Set(labels)`
abbrev pub distinct_from : List (List ℕ) → List (List ℕ) → List (List ℕ)
distinct_from seen [] = seen
distinct_from seen (label ∷ labels) =
    let added = distinct_from (seen ++ label ∷ []) labels in
    let skipped = distinct_from seen labels in
    if any (λ other. other =b label) seen then skipped else added

-- join(" · ")
abbrev pub join_labels : List (List ℕ) → List ℕ
join_labels [] = []
join_labels (label ∷ []) = label
join_labels (label ∷ next ∷ labels) = label ++ codes " · " ++ join_labels (next ∷ labels)

unfoldable pub activity_summary : (String → Option (List ℕ)) → List ThreadEntry → List ℕ
unfolding label_of
activity_summary hostname entries = join_labels (distinct_from [] (map (label_of hostname) entries))
