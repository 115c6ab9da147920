-- ===== src/Videos/Verified.antt =====
-- `verifiedVideoKeys` of src/lib/video-embed.ts: the videos that the web tools showed.
use voidstation_app.Prelude.{
  Bool, List, Option, String, [], false, if◌then◌else◌, none, some, ℕ, ◌++◌, ◌=b◌, ◌=s◌, ◌||◌, ◌∷◌,
}
use voidstation_app.Videos.Embed.{Link, VideoEmbed, key_of, video_embed}

-- A result comes out of the database unchecked: a field that should be a string or an array is none
-- where it is not.
pub data ToolResult : Type 0 where
  no_web_result : ToolResult
  web_search : Option (List (Option (List ℕ))) → ToolResult
  web_page : Option (List ℕ) → Option (List (Option (List ℕ))) → ToolResult

pub record ToolCall : Type 0 where
  pub status : String
  pub result : ToolResult

-- `keys.has`
unfoldable pub has : List (List ℕ) → List ℕ → Bool
has [] key = false
has (k ∷ keys) key = k =b key || has keys key

-- `keys.add`
abbrev pub add_key : List (List ℕ) → List ℕ → List (List ℕ)
add_key keys key = if has keys key then keys else keys ++ key ∷ []

abbrev pub add_embed : List (List ℕ) → Option VideoEmbed → List (List ℕ)
add_embed keys none = keys
add_embed keys (some embed) = add_key keys (key_of embed)

abbrev pub embed_of : Option Link → Option VideoEmbed
embed_of none = none
embed_of (some link) = video_embed link

abbrev pub add : (List ℕ → Option Link) → List (List ℕ) → Option (List ℕ) → List (List ℕ)
add parse keys none = keys
add parse keys (some url) = add_embed keys (embed_of (parse url))

abbrev pub add_all : (List ℕ → Option Link) → List (List ℕ) → List (Option (List ℕ)) → List (List ℕ)
add_all parse keys [] = keys
add_all parse keys (url ∷ urls) = add_all parse (add parse keys url) urls

abbrev pub add_array :
    (List ℕ → Option Link) → List (List ℕ) → Option (List (Option (List ℕ))) → List (List ℕ)
add_array parse keys none = keys
add_array parse keys (some urls) = add_all parse keys urls

abbrev pub add_result : (List ℕ → Option Link) → List (List ℕ) → ToolResult → List (List ℕ)
add_result parse keys no_web_result = keys
add_result parse keys (web_search results) = add_array parse keys results
add_result parse keys (web_page url videos) = add_array parse (add parse keys url) videos

abbrev pub add_call : (List ℕ → Option Link) → List (List ℕ) → ToolCall → List (List ℕ)
add_call parse keys call =
    if call.status =s "complete" then add_result parse keys call.result else keys

abbrev pub keys_from : (List ℕ → Option Link) → List (List ℕ) → List ToolCall → List (List ℕ)
keys_from parse keys [] = keys
keys_from parse keys (call ∷ calls) = keys_from parse (add_call parse keys call) calls

unfoldable pub verified_video_keys : (List ℕ → Option Link) → List ToolCall → List (List ℕ)
verified_video_keys parse calls = keys_from parse [] calls
