-- ===== src/Downloads/Items.antt =====
-- One item of the queue: `problem`, `title`, `estimatedCompletion` and `itemFor` of
-- worker/src/downloads.ts.
use voidstation_app.Prelude.{
  List, Option, [], any, codes, if◌then◌else◌, leb, length, ltb, map, none, some, sort_by, suc,
  zero, ℕ, ◌%◌, ◌&&◌, ◌*◌, ◌++◌, ◌+◌, ◌-◌, ◌/◌, ◌==◌, ◌∷◌,
}
use voidstation_app.Downloads.Text.{plain_text}
use voidstation_app.Downloads.Records.{
  DownloadStatus, MediaService, Platform, QueueRecord, StatusMessage, completed, delayed,
  download_status, downloading, failed, importing, paused, queued, radarr, sonarr, warning,
}
use mathlib.Core.List.{reverse}

-- The records of one download: there is a first.
pub record Records : Type 0 where
  pub first : QueueRecord
  pub others : List QueueRecord

abbrev pub all_records : Records → List QueueRecord
all_records records = records.first ∷ records.others

pub record DownloadItem : Type 0 where
  pub id : List ℕ
  pub service : MediaService
  pub title : List ℕ
  pub status : DownloadStatus
  pub problem : Option (List ℕ)
  pub size : Option ℕ
  pub size_left : Option ℕ
  pub progress : Option ℕ
  pub estimated_completion : Option (List ℕ)

-- `String(n)`, lowest digit first: 16 digits are enough for a safe integer.
unfoldable pub low_digits : ℕ → ℕ → List ℕ
low_digits zero n = []
low_digits (suc fuel) n =
    let rest = low_digits fuel (n / 10) in (48 + n % 10) ∷ (if ltb n 10 then [] else rest)

unfoldable pub number_text : ℕ → List ℕ
number_text n = reverse (low_digits 16 n)

abbrev pub pad : ℕ → List ℕ
pad n = if ltb n 10 then 48 ∷ number_text n else number_text n

abbrev pub max_problem_length : ℕ
max_problem_length = 200

abbrev pub max_title_length : ℕ
max_title_length = 300

abbrev pub error_messages : List QueueRecord → List (Option (List ℕ))
error_messages [] = []
error_messages (r ∷ rs) = r.error_message ∷ error_messages rs

abbrev pub messages_of : List StatusMessage → List (Option (List ℕ))
messages_of [] = []
messages_of (m ∷ ms) = map some m.messages ++ messages_of ms

abbrev pub status_texts : List QueueRecord → List (Option (List ℕ))
status_texts [] = []
status_texts (r ∷ rs) = messages_of r.status_messages ++ status_texts rs

abbrev pub titles_of : List StatusMessage → List (Option (List ℕ))
titles_of [] = []
titles_of (m ∷ ms) = m.title ∷ titles_of ms

abbrev pub status_titles : List QueueRecord → List (Option (List ℕ))
status_titles [] = []
status_titles (r ∷ rs) = titles_of r.status_messages ++ status_titles rs

abbrev pub first_plain : List (Option (List ℕ)) → Option (List ℕ)
first_plain [] = none
first_plain (t ∷ ts) = elim (plain_text t max_problem_length) [
  | none ↦ first_plain ts
  | some cleaned ↦ some cleaned
]

unfoldable pub problem : List QueueRecord → Option (List ℕ)
problem rs = first_plain (error_messages rs ++ (status_texts rs ++ status_titles rs))

abbrev pub or_text : Option (List ℕ) → List ℕ → List ℕ
or_text none t = t
or_text (some name) t = name

abbrev pub with_year : List ℕ → Option ℕ → List ℕ
with_year movie none = movie
with_year movie (some year) =
    if leb 1800 year && leb year 3000
    then movie ++ (codes " (" ++ (number_text year ++ codes ")"))
    else movie

-- A Set in the order of its first additions
abbrev pub add_number : List ℕ → ℕ → List ℕ
add_number ns n = if any (λ m. m == n) ns then ns else ns ++ n ∷ []

abbrev pub add_season : List ℕ → Option ℕ → List ℕ
add_season ns none = ns
add_season ns (some n) = add_number ns n

abbrev pub seasons_from : List ℕ → List QueueRecord → List ℕ
seasons_from ns [] = ns
seasons_from ns (r ∷ rs) = seasons_from (add_season ns r.season_number) rs

abbrev pub add_pair : List (ℕ × ℕ) → ℕ → ℕ → List (ℕ × ℕ)
add_pair es s e = if any (λ x. x.0 == s && x.1 == e) es then es else es ++ (s, e) ∷ []

abbrev pub add_episode : List (ℕ × ℕ) → Option ℕ → Option ℕ → List (ℕ × ℕ)
add_episode es (some s) (some e) = add_pair es s e
add_episode es _ _ = es

abbrev pub episodes_from : List (ℕ × ℕ) → List QueueRecord → List (ℕ × ℕ)
episodes_from es [] = es
episodes_from es (r ∷ rs) = episodes_from (add_episode es r.season_number r.episode_number) rs

abbrev pub last_or : ℕ → List ℕ → ℕ
last_or n [] = n
last_or n (m ∷ ns) = last_or m ns

abbrev pub episode_count : ℕ → List ℕ
episode_count n = if ltb 1 n then codes " (" ++ (number_text n ++ codes " episodes)") else []

-- The separators "·" and "–" are not ASCII, but single UTF-16 units.
abbrev pub season_title : List ℕ → List ℕ → List ℕ → List ℕ
season_title series [] count = series
season_title series (s ∷ []) count = series ++ (codes " · Season " ++ (number_text s ++ count))
season_title series (s ∷ t ∷ ss) count =
    series
    ++ (codes " · Seasons "
        ++ (number_text s ++ (codes "–" ++ (number_text (last_or t ss) ++ count))))

abbrev pub series_title : List ℕ → List (ℕ × ℕ) → List ℕ → List ℕ
series_title series ((s, e) ∷ []) seasons =
    series ++ (codes " · S" ++ (pad s ++ (codes "E" ++ pad e)))
series_title series episodes seasons = season_title series seasons (episode_count (length episodes))

unfoldable pub title_of : MediaService → Records → List ℕ
title_of radarr records =
    with_year
      (or_text (plain_text records.first.media_title (max_title_length - 40))
        (codes "Unknown movie"))
      records.first.year
title_of sonarr records =
    series_title
      (or_text (plain_text records.first.media_title (max_title_length - 40))
        (codes "Unknown series"))
      (episodes_from [] (all_records records)) (sort_by leb (seasons_from [] (all_records records)))

abbrev pub parsed : Platform → Option (List ℕ) → Option ℕ
parsed p (some (c ∷ t)) = p.parse_date (c ∷ t)
parsed p _ = none

abbrev pub first_time : Platform → List QueueRecord → Option ℕ
first_time p [] = none
first_time p (r ∷ rs) = elim (parsed p r.estimated_completion_time) [
  | none ↦ first_time p rs
  | some time ↦ some time
]

unfoldable pub estimated_completion : Platform → List QueueRecord → Option (List ℕ)
estimated_completion p rs = elim (first_time p rs) [
  | none ↦ none
  | some time ↦ some (p.iso_string time)
]

-- The largest record that has a size, the first of equals: what the stable sort puts first.
abbrev pub larger : Option (ℕ × Option ℕ) → Option ℕ → Option ℕ → Option (ℕ × Option ℕ)
larger best none left = best
larger none (some size) left = some (size, left)
larger (some (most, most_left)) (some size) left =
    if ltb most size then some (size, left) else some (most, most_left)

abbrev pub sized_from : Option (ℕ × Option ℕ) → List QueueRecord → Option (ℕ × Option ℕ)
sized_from best [] = best
sized_from best (r ∷ rs) = sized_from (larger best r.size r.size_left) rs

abbrev pub first_left : List QueueRecord → Option ℕ
first_left [] = none
first_left (r ∷ rs) = elim r.size_left [ none ↦ first_left rs | some left ↦ some left ]

abbrev pub size_of : List QueueRecord → Option ℕ
size_of rs = elim (sized_from none rs) [ none ↦ none | some (size, left) ↦ some size ]

abbrev pub size_left_of : List QueueRecord → Option ℕ
size_left_of rs = elim (sized_from none rs) [ none ↦ first_left rs | some (size, left) ↦ left ]

-- The percentage in tenths, computed without the error of doubles: (size - left) / size * 1000,
-- rounded half up, and 0 where more is left than the size.
abbrev pub percent : ℕ → ℕ → Option ℕ
percent size left = if ltb 0 size then some (((size - left) * 2000 + size) / (2 * size)) else none

unfoldable pub progress : Option ℕ → Option ℕ → Option ℕ
progress (some size) (some left) = percent size left
progress _ _ = none

-- STATUS_SEVERITY
abbrev pub severity : DownloadStatus → ℕ
severity failed = 0
severity warning = 1
severity importing = 2
severity downloading = 3
severity paused = 4
severity delayed = 5
severity queued = 6
severity completed = 7

abbrev pub more_severe : DownloadStatus → DownloadStatus → DownloadStatus
more_severe s t = if ltb (severity t) (severity s) then t else s

unfoldable pub worst_status : Platform → DownloadStatus → List QueueRecord → DownloadStatus
worst_status p s [] = s
worst_status p s (r ∷ rs) = worst_status p (more_severe s (download_status p r)) rs

unfoldable pub item_for : Platform → MediaService → Records → List ℕ → DownloadItem
item_for p service records id = record {
  id = id;
  service = service;
  title = title_of service records;
  status = worst_status p (download_status p records.first) records.others;
  problem = problem (all_records records);
  size = size_of (all_records records);
  size_left = size_left_of (all_records records);
  progress = progress (size_of (all_records records)) (size_left_of (all_records records));
  estimated_completion = estimated_completion p (all_records records);
}
