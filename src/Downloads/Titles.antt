-- ===== src/Downloads/Titles.antt =====
-- The length and the characters of the titles that worker/src/downloads.ts makes.
use voidstation_app.Prelude.{
  All, All-append, All-sort_by, Bool-cases, List, Option, [], any, arith, codes, inl, inr, leb,
  length, length-append, ltb, none, refl, some, ℕ, ◌+◌, ◌<◌, ◌==◌, ◌∷◌, ◌≤◌,
}
use voidstation_app.Downloads.Text.{is_control_or_format}
use voidstation_app.Downloads.Records.{MediaService, QueueRecord, radarr, sonarr}
use voidstation_app.Downloads.Items.{
  Records, add_episode, add_number, add_season, all_records, episode_count, episodes_from, last_or,
  number_text, pad, season_title, seasons_from, series_title, title_of,
}
use voidstation_app.Downloads.Plain.{IsPlain, plain_text-IsPlainOrNone}
use voidstation_app.Downloads.Numbers.{power_of_ten}
use voidstation_app.Downloads.Fitting.{
  Fits, Fits-append, IsPlain-append, IsPlain-more, if-Fits, literal-Fits, literal-IsPlain,
  number_text-Fits_digits, or_text-IsPlain, pad-Fits, with_year-IsPlain,
}

episode_count-Fits : (n : ℕ) → n < power_of_ten 6 → Fits 18 (episode_count n)
unfolding is_control_or_format
episode_count-Fits n h =
    let end =
      Fits-append 6 10 (number_text n) (codes " episodes)") (number_text-Fits_digits 5 n h)
        (literal-Fits 10 (codes " episodes)") (omega arith) refl) in
    if-Fits 18 (ltb 1 n) _ []
      (Fits-append 2 16 (codes " (") _ (literal-Fits 2 (codes " (") (omega arith) refl) end)
      (literal-Fits 18 [] (omega arith) refl)

abbrev pub IsSeason : ℕ → Type 0
IsSeason s = s < power_of_ten 5

last_or-IsSeason : (s : ℕ) (ss : List ℕ) → IsSeason s → All IsSeason ss → IsSeason (last_or s ss)
last_or-IsSeason s [] h hs = h
last_or-IsSeason s (t ∷ ss) h (k, ks) = last_or-IsSeason t ss k ks

season_title-IsPlain :
    (series : List ℕ) (seasons : List ℕ) (n : ℕ)
    → IsPlain 260 series
    → All IsSeason seasons
    → n < power_of_ten 6
    → IsPlain 300 (season_title series seasons (episode_count n))
unfolding is_control_or_format
season_title-IsPlain series [] n h ss k = IsPlain-more 260 300 series h (omega arith)
season_title-IsPlain series (s ∷ []) n h (l, ss) k =
    let end =
      Fits-append 5 18 (number_text s) _ (number_text-Fits_digits 4 s l) (episode_count-Fits n k) in
    let both =
      Fits-append 10 23 (codes " · Season ") _
        (literal-Fits 10 (codes " · Season ") (omega arith) refl) end in
    IsPlain-append 260 33 300 series _ h both (omega arith)
season_title-IsPlain series (s ∷ t ∷ ss) n h (l, (m, ls)) k =
    let last = number_text-Fits_digits 4 (last_or t ss) (last_or-IsSeason t ss m ls) in
    let end = Fits-append 5 18 (number_text (last_or t ss)) _ last (episode_count-Fits n k) in
    let from = Fits-append 1 23 (codes "–") _ (literal-Fits 1 (codes "–") (omega arith) refl) end in
    let both = Fits-append 5 24 (number_text s) _ (number_text-Fits_digits 4 s l) from in
    let all_of_it =
      Fits-append 11 29 (codes " · Seasons ") _
        (literal-Fits 11 (codes " · Seasons ") (omega arith) refl) both in
    IsPlain-append 260 40 300 series _ h all_of_it (omega arith)

series_title-IsPlain :
    (series : List ℕ) (episodes : List (ℕ × ℕ)) (seasons : List ℕ)
    → IsPlain 260 series
    → All IsSeason seasons
    → length episodes < power_of_ten 6
    → IsPlain 300 (series_title series episodes seasons)
unfolding is_control_or_format
series_title-IsPlain series [] seasons h ss k = season_title-IsPlain series seasons 0 h ss k
series_title-IsPlain series ((s, e) ∷ []) seasons h ss k =
    let end =
      Fits-append 1 17 (codes "E") _ (literal-Fits 1 (codes "E") (omega arith) refl) (pad-Fits e) in
    let both = Fits-append 17 18 (pad s) _ (pad-Fits s) end in
    IsPlain-append 260 39 300 series _ h
      (Fits-append 4 35 (codes " · S") _ (literal-Fits 4 (codes " · S") (omega arith) refl) both)
      (omega arith)
series_title-IsPlain series (e ∷ f ∷ es) seasons h ss k =
    season_title-IsPlain series seasons (length (e ∷ f ∷ es)) h ss k

abbrev pub IsSeasonOrNone : Option ℕ → Type 0
IsSeasonOrNone none = Unit
IsSeasonOrNone (some s) = IsSeason s

-- The seasons that a record names are below 100,000.
abbrev pub HasSmallSeason : QueueRecord → Type 0
HasSmallSeason r = IsSeasonOrNone r.season_number

add_number-All :
    (ns : List ℕ) (n : ℕ) → All IsSeason ns → IsSeason n → All IsSeason (add_number ns n)
add_number-All ns n h k = elim (Bool-cases (any (λ m. m == n) ns)) [
  | inl e ↦ rw e h
  | inr e ↦ rw e (All-append IsSeason ns (n ∷ []) h (k, tt))
]

add_season-All :
    (ns : List ℕ) (s : Option ℕ)
    → All IsSeason ns
    → IsSeasonOrNone s
    → All IsSeason (add_season ns s)
add_season-All ns none h k = h
add_season-All ns (some s) h k = add_number-All ns s h k

seasons_from-All :
    (ns : List ℕ) (rs : List QueueRecord)
    → All IsSeason ns
    → All HasSmallSeason rs
    → All IsSeason (seasons_from ns rs)
seasons_from-All ns [] h k = h
seasons_from-All ns (r ∷ rs) h (k, ks) =
    seasons_from-All (add_season ns r.season_number) rs (add_season-All ns r.season_number h k) ks

length-add_episode :
    (es : List (ℕ × ℕ)) (s e : Option ℕ) → length (add_episode es s e) ≤ length es + 1
length-add_episode es none e = omega arith
length-add_episode es (some s) none = omega arith
length-add_episode es (some s) (some e) = ground (arith, length-append es ((s, e) ∷ []))

length-episodes_from :
    (es : List (ℕ × ℕ)) (rs : List QueueRecord)
    → length (episodes_from es rs) ≤ length es + length rs
length-episodes_from es [] = omega arith
length-episodes_from es (r ∷ rs) = omega (
  arith,
  length-episodes_from (add_episode es r.season_number r.episode_number) rs,
  length-add_episode es r.season_number r.episode_number,
)

-- The title of an item is never empty, has at most 300 units and no control or format character, if
-- the seasons are below 100,000 and the records fewer than a million.
pub title_of-IsPlain :
    (service : MediaService) (records : Records)
    → All HasSmallSeason (all_records records)
    → length (all_records records) < power_of_ten 6
    → IsPlain 300 (title_of service records)
unfolding title_of is_control_or_format
title_of-IsPlain radarr records h k = with_year-IsPlain _ records.first.year (
    or_text-IsPlain 260 _ (codes "Unknown movie")
      (plain_text-IsPlainOrNone records.first.media_title 260 (omega arith))
      (literal-IsPlain 260 (codes "Unknown movie") (omega arith) (omega arith) refl))
title_of-IsPlain sonarr records h k =
    series_title-IsPlain _ (episodes_from [] (all_records records)) _
      (or_text-IsPlain 260 _ (codes "Unknown series")
        (plain_text-IsPlainOrNone records.first.media_title 260 (omega arith))
        (literal-IsPlain 260 (codes "Unknown series") (omega arith) (omega arith) refl))
      (All-sort_by leb IsSeason _ (seasons_from-All [] (all_records records) tt h))
      (omega (arith, length-episodes_from [] (all_records records)))
