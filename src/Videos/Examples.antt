-- ===== src/Videos/Examples.antt =====
-- Two links to one video of src/lib/video-embed.ts.
use voidstation_app.Prelude.{
  All, List, Option, [], any, arith, codes, if◌then◌else◌, none, refl, some, true, ℕ, ◌=b◌, ◌=s◌,
  ◌∷◌, ◌≡◌, is_digit,
}
use voidstation_app.Gateway.Routes.{split_from}
use voidstation_app.Videos.Embed.{
  Link, choose, is_youtube_id, key_of, message_videos, start_seconds, video_embed, youtube,
}
use voidstation_app.Videos.Verified.{ToolCall, has, verified_video_keys, web_page, web_search}
use voidstation_app.Videos.Shown.{has-verified_video_keys, message_videos_shown, shows}
use voidstation_app.Videos.Chosen.{IsChosen, message_videos-IsChosen}

abbrev short_link : Link
short_link = record {
  protocol = "https:";
  hostname = codes "youtu.be";
  pathname = codes "/abcdefghij-";
  search_param = λ name. if name =s "t" then some (codes "1m5s") else none;
}

abbrev watch_link : Link
watch_link = record {
  protocol = "https:";
  hostname = codes "www.youtube.com";
  pathname = codes "/watch";
  search_param = λ name. if name =s "v" then some (codes "abcdefghij-") else none;
}

short_link-embed :
    video_embed short_link
    ≡ some (record { provider = youtube; id = codes "abcdefghij-"; start = some 65 })
unfolding video_embed is_youtube_id start_seconds is_digit split_from ◌=b◌
short_link-embed = refl

once :
    message_videos 4 (λ key. true) (short_link ∷ watch_link ∷ [])
    ≡ record { provider = youtube; id = codes "abcdefghij-"; start = some 65 } ∷ []
unfolding message_videos choose video_embed is_youtube_id start_seconds is_digit split_from ◌=b◌
once = refl

message_videos-IsChosen_example :
    IsChosen 4 (λ key. true) (message_videos 4 (λ key. true) (short_link ∷ watch_link ∷ []))
message_videos-IsChosen_example =
    message_videos-IsChosen 4 (λ key. true) (short_link ∷ watch_link ∷ []) (omega arith)

abbrev parse_url : List ℕ → Option Link
parse_url url = if url =b codes "https://youtu.be/abcdefghij-" then some short_link else none

abbrev page_call : ToolCall
page_call = record {
  status = "complete";
  result =
      web_page (some (codes "https://example.org/"))
        (some (some (codes "https://youtu.be/abcdefghij-") ∷ none ∷ []));
}

abbrev failed_call : ToolCall
failed_call = record {
  status = "failure";
  result = web_search (some (some (codes "https://youtu.be/abcdefghij-") ∷ []));
}

page_call-key :
    verified_video_keys parse_url (failed_call ∷ page_call ∷ []) ≡ codes "youtube:abcdefghij-" ∷ []
unfolding verified_video_keys has video_embed is_youtube_id start_seconds is_digit split_from ◌=b◌
page_call-key = refl

failed_call-key : verified_video_keys parse_url (failed_call ∷ []) ≡ []
unfolding verified_video_keys has video_embed is_youtube_id start_seconds is_digit split_from ◌=b◌
failed_call-key = refl

has-verified_video_keys_example :
    has (verified_video_keys parse_url (failed_call ∷ page_call ∷ [])) (codes "youtube:abcdefghij-")
    ≡ any (shows parse_url (codes "youtube:abcdefghij-")) (failed_call ∷ page_call ∷ [])
has-verified_video_keys_example =
    has-verified_video_keys parse_url (failed_call ∷ page_call ∷ []) (codes "youtube:abcdefghij-")

message_videos_shown_example :
    All
      (λ video. any (shows parse_url (key_of video)) (failed_call ∷ page_call ∷ []) ≡ true)
      (message_videos 4
        (has (verified_video_keys parse_url (failed_call ∷ page_call ∷ [])))
        (watch_link ∷ []))
message_videos_shown_example =
    message_videos_shown parse_url (failed_call ∷ page_call ∷ []) 4 (watch_link ∷ []) (omega arith)
