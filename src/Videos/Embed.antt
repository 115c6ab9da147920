-- ===== src/Videos/Embed.antt =====
-- `videoEmbed` of src/lib/video-embed.ts, on a URL as the URL parser takes it apart, and the loop of
-- `messageVideos` over the links that its pattern finds.
use voidstation_app.Prelude.{
  Bool, List, Option, String, [], all, any, codes, drop, false, find, get_elem?, head?,
  if◌then◌else◌, leb, length, none, not, some, take, ℕ, ◌&&◌, ◌*◌, ◌++◌, ◌+◌, ◌-◌, ◌==◌, ◌=b◌, ◌=s◌,
  ◌||◌, ◌∷◌, is_digit,
}
use voidstation_app.Auth.Store.{is_token_char}
use voidstation_app.Gateway.Routes.{parts_of}

pub record Link : Type 0 where
  pub protocol : String
  pub hostname : List ℕ
  pub pathname : List ℕ
  pub search_param : String → Option (List ℕ)

pub data VideoProvider : Type 0 where
  youtube vimeo : VideoProvider

pub record VideoEmbed : Type 0 where
  pub provider : VideoProvider
  pub id : List ℕ
  pub start : Option ℕ

-- `key`
abbrev pub key_of : VideoEmbed → List ℕ
key_of embed = elim embed.provider [
  | youtube ↦ codes "youtube:" ++ embed.id
  | vimeo ↦ codes "vimeo:" ++ embed.id
]

abbrev pub digits_of : List ℕ → List ℕ
digits_of [] = []
digits_of (c ∷ text) = if is_digit c then c ∷ digits_of text else []

abbrev pub number_from : ℕ → List ℕ → ℕ
number_from n [] = n
number_from n (c ∷ digits) = number_from (n * 10 + (c - 48)) digits

-- (?:(\d+)h)? and its like: the number, and what follows.
abbrev pub after_unit : ℕ → List ℕ → List ℕ → ℕ × List ℕ
after_unit unit text [] = (0, text)
after_unit unit text (c ∷ rest) =
    if c == unit && leb 1 (length (digits_of text))
    then (number_from 0 (digits_of text), rest)
    else (0, text)

abbrev pub take_unit : ℕ → List ℕ → ℕ × List ℕ
take_unit unit text = after_unit unit text (drop (length (digits_of text)) text)

abbrev pub positive : ℕ → List ℕ → Option ℕ
positive seconds [] = if leb 1 seconds then some seconds else none
positive seconds (c ∷ rest) = none

abbrev pub hours_minutes_seconds : List ℕ → Option ℕ
hours_minutes_seconds text =
    let (h, after_h) = take_unit 104 text in
    let (m, after_m) = take_unit 109 after_h in
    let (s, after_s) = take_unit 115 after_m in positive (h * 3600 + m * 60 + s) after_s

-- `startSeconds`, with the caller's test of 0
unfoldable pub start_seconds : Option (List ℕ) → Option ℕ
start_seconds none = none
start_seconds (some []) = none
start_seconds (some (c ∷ text)) =
    if all is_digit (c ∷ text)
    then positive (number_from 0 (c ∷ text)) []
    else hours_minutes_seconds (c ∷ text)

unfoldable pub is_youtube_id : List ℕ → Bool
is_youtube_id id = length id == 11 && all is_token_char id

unfoldable pub is_vimeo_id : List ℕ → Bool
is_vimeo_id id = leb 6 (length id) && leb (length id) 12 && all is_digit id

-- /^(www|m|music)\./
abbrev pub strip_host : List ℕ → List ℕ
strip_host host =
    if take 4 host =b codes "www."
    then drop 4 host
    else if take 2 host =b codes "m."
    then drop 2 host
    else if take 6 host =b codes "music."
    then drop 6 host
    else host

abbrev pub is_player_word : Option (List ℕ) → Bool
is_player_word none = false
is_player_word (some word) =
    word =b codes "embed" || word =b codes "shorts" || word =b codes "live" || word =b codes "v"

abbrev pub youtube_of : Link → List ℕ → List (List ℕ) → Option (List ℕ)
youtube_of link host segments =
    if host =b codes "youtu.be"
    then head? segments
    else if host =b codes "youtube.com" || host =b codes "youtube-nocookie.com"
    then (if link.pathname =b codes "/watch"
        then link.search_param "v"
        else if is_player_word (head? segments)
        then get_elem? segments 1
        else none)
    else none

abbrev pub is_video_word : Option (List ℕ) → Bool
is_video_word none = false
is_video_word (some word) = word =b codes "video"

abbrev pub vimeo_of : List ℕ → List (List ℕ) → Option (List ℕ)
vimeo_of host segments =
    if host =b codes "vimeo.com"
    then find is_vimeo_id segments
    else if host =b codes "player.vimeo.com" && is_video_word (head? segments)
    then get_elem? segments 1
    else none

abbrev pub or_start : Option (List ℕ) → Option (List ℕ) → Option (List ℕ)
or_start none start = start
or_start (some t) start = some t

abbrev pub as_vimeo : Option (List ℕ) → Option VideoEmbed
as_vimeo none = none
as_vimeo (some id) =
    if is_vimeo_id id then some (record { provider = vimeo; id = id; start = none }) else none

abbrev pub as_video : Link → List ℕ → List (List ℕ) → Option (List ℕ) → Option VideoEmbed
as_video link host segments none = as_vimeo (vimeo_of host segments)
as_video link host segments (some id) =
    if is_youtube_id id
    then some (record {
      provider = youtube;
      id = id;
      start = start_seconds (or_start (link.search_param "t") (link.search_param "start"));
    })
    else none

abbrev pub at_host : Link → List ℕ → List (List ℕ) → Option VideoEmbed
at_host link host segments = as_video link host segments (youtube_of link host segments)

unfoldable pub video_embed : Link → Option VideoEmbed
video_embed link =
    if link.protocol =s "https:" || link.protocol =s "http:"
    then at_host link (strip_host link.hostname) (parts_of link.pathname)
    else none

abbrev pub has_key : VideoEmbed → VideoEmbed → Bool
has_key embed video = key_of video =b key_of embed

abbrev pub is_wanted : (List ℕ → Bool) → List VideoEmbed → VideoEmbed → Bool
is_wanted verified videos embed = verified (key_of embed) && not (any (has_key embed) videos)

-- The loop of `messageVideos`: `links` are the matches that `new URL` takes.
unfoldable pub choose : ℕ → (List ℕ → Bool) → List VideoEmbed → List Link → List VideoEmbed
choose limit verified videos [] = videos
choose limit verified videos (link ∷ links) =
    let skipped = choose limit verified videos links in
    elim (video_embed link) [
      | none ↦ skipped
      | some embed ↦
          let longer = videos ++ embed ∷ [] in
          let more = choose limit verified longer links in
          if is_wanted verified videos embed
          then (if length longer == limit then longer else more)
          else skipped
    ]

unfoldable pub message_videos : ℕ → (List ℕ → Bool) → List Link → List VideoEmbed
message_videos limit verified links = choose limit verified [] links
