-- ===== src/Videos/Shown.antt =====
-- Which videos of src/lib/video-embed.ts count as verified, and become players.
use voidstation_app.Prelude.{
  =b→eq, All, Bool, List, Option, [], any, arith, false, if◌then◌else◌, none, refl, some, subst,
  sym, true, ℕ, ◌&&◌, ◌++◌, ◌=b◌, ◌=s◌, ◌||◌, ◌∙◌, ◌∷◌, ◌≡◌, ◌≤◌,
}
use voidstation_app.Videos.Embed.{Link, VideoEmbed, key_of, message_videos}
use voidstation_app.Videos.Chosen.{message_videos-IsChosen}
use voidstation_app.Videos.Verified.{
  ToolCall, ToolResult, add, add_all, add_array, add_call, add_embed, add_key, add_result, embed_of,
  has, keys_from, no_web_result, verified_video_keys, web_page, web_search,
}

abbrev is_key : List ℕ → Option VideoEmbed → Bool
is_key key none = false
is_key key (some embed) = key_of embed =b key

-- The URL is one of the video that has the key.
abbrev pub names : (List ℕ → Option Link) → List ℕ → Option (List ℕ) → Bool
names parse key none = false
names parse key (some url) = is_key key (embed_of (parse url))

abbrev pub urls_in : Option (List (Option (List ℕ))) → List (Option (List ℕ))
urls_in none = []
urls_in (some urls) = urls

abbrev pub urls_of : ToolResult → List (Option (List ℕ))
urls_of no_web_result = []
urls_of (web_search results) = urls_in results
urls_of (web_page url videos) = url ∷ urls_in videos

-- A call that is complete has the video among the URLs of its result.
abbrev pub shows : (List ℕ → Option Link) → List ℕ → ToolCall → Bool
shows parse key call = call.status =s "complete" && any (names parse key) (urls_of call.result)

absorb : (a b : Bool) → (b ≡ true → a ≡ true) → a ≡ (a || b)
absorb true b p = refl
absorb false true p = p refl
absorb false false p = refl

has-snoc :
    (keys : List (List ℕ)) (k key : List ℕ) → has (keys ++ k ∷ []) key ≡ (has keys key || k =b key)
unfolding has
has-snoc [] k key = ground arith
has-snoc (x ∷ keys) k key = ground (arith, has-snoc keys k key)

has-add_if :
    (keys : List (List ℕ)) (k key : List ℕ) (b : Bool)
    → has keys k ≡ b
    → has (if b then keys else keys ++ k ∷ []) key ≡ (has keys key || k =b key)
has-add_if keys k key true h =
    absorb (has keys key) (k =b key) (λ e. subst (λ x. has keys x ≡ true) (=b→eq k key e) h)
has-add_if keys k key false h = has-snoc keys k key

has-add_key :
    (keys : List (List ℕ)) (k key : List ℕ) → has (add_key keys k) key ≡ (has keys key || k =b key)
has-add_key keys k key = has-add_if keys k key (has keys k) refl

has-add_embed :
    (keys : List (List ℕ)) (key : List ℕ) (embed : Option VideoEmbed)
    → has (add_embed keys embed) key ≡ (has keys key || is_key key embed)
has-add_embed keys key none = ground arith
has-add_embed keys key (some embed) = has-add_key keys (key_of embed) key

has-add :
    (parse : List ℕ → Option Link) (keys : List (List ℕ)) (key : List ℕ) (url : Option (List ℕ))
    → has (add parse keys url) key ≡ (has keys key || names parse key url)
has-add parse keys key none = ground arith
has-add parse keys key (some url) = has-add_embed keys key (embed_of (parse url))

has-add_all :
    (parse : List ℕ → Option Link) (key : List ℕ) (urls : List (Option (List ℕ)))
    (keys : List (List ℕ))
    → has (add_all parse keys urls) key ≡ (has keys key || any (names parse key) urls)
has-add_all parse key [] keys = ground arith
has-add_all parse key (url ∷ urls) keys =
    ground (arith, has-add_all parse key urls (add parse keys url), has-add parse keys key url)

has-add_array :
    (parse : List ℕ → Option Link) (key : List ℕ) (urls : Option (List (Option (List ℕ))))
    (keys : List (List ℕ))
    → has (add_array parse keys urls) key ≡ (has keys key || any (names parse key) (urls_in urls))
has-add_array parse key none keys = ground arith
has-add_array parse key (some urls) keys = has-add_all parse key urls keys

has-add_result :
    (parse : List ℕ → Option Link) (keys : List (List ℕ)) (key : List ℕ) (result : ToolResult)
    → has (add_result parse keys result) key
      ≡ (has keys key || any (names parse key) (urls_of result))
has-add_result parse keys key no_web_result = ground arith
has-add_result parse keys key (web_search results) = has-add_array parse key results keys
has-add_result parse keys key (web_page url videos) =
    ground (arith, has-add_array parse key videos (add parse keys url), has-add parse keys key url)

has-if :
    (keys more : List (List ℕ)) (key : List ℕ) (b shown : Bool)
    → has more key ≡ (has keys key || shown)
    → has (if b then more else keys) key ≡ (has keys key || (b && shown))
has-if keys more key true shown h = h
has-if keys more key false shown h = ground arith

has-add_call :
    (parse : List ℕ → Option Link) (keys : List (List ℕ)) (key : List ℕ) (call : ToolCall)
    → has (add_call parse keys call) key ≡ (has keys key || shows parse key call)
has-add_call parse keys key call =
    has-if keys (add_result parse keys call.result) key (call.status =s "complete") _
      (has-add_result parse keys key call.result)

has-keys_from :
    (parse : List ℕ → Option Link) (key : List ℕ) (calls : List ToolCall) (keys : List (List ℕ))
    → has (keys_from parse keys calls) key ≡ (has keys key || any (shows parse key) calls)
has-keys_from parse key [] keys = ground arith
has-keys_from parse key (call ∷ calls) keys = ground (
  arith,
  has-keys_from parse key calls (add_call parse keys call),
  has-add_call parse keys key call,
)

-- A key counts as verified exactly when a web tool call that is complete has a URL of that video in its
-- result.
pub has-verified_video_keys :
    (parse : List ℕ → Option Link) (calls : List ToolCall) (key : List ℕ)
    → has (verified_video_keys parse calls) key ≡ any (shows parse key) calls
unfolding verified_video_keys has
has-verified_video_keys parse calls key = has-keys_from parse key calls []

All-map :
    {A : Type 0} (P Q : A → Type 0) (f : (x : A) → P x → Q x) (xs : List A) → All P xs → All Q xs
All-map P Q f [] p = tt
All-map P Q f (x ∷ xs) (p, ps) = (f x p, All-map P Q f xs ps)

-- With the verified keys of the tool calls and a positive limit, every video that a message embeds is
-- one whose URL a complete web tool call has in its result.
pub message_videos_shown :
    (parse : List ℕ → Option Link) (calls : List ToolCall) (limit : ℕ) (links : List Link)
    → 1 ≤ limit
    → All
        (λ video. any (shows parse (key_of video)) calls ≡ true)
        (message_videos limit (has (verified_video_keys parse calls)) links)
message_videos_shown parse calls limit links l =
    All-map _ _ (λ video h. sym (has-verified_video_keys parse calls (key_of video)) ∙ h) _
      (message_videos-IsChosen limit (has (verified_video_keys parse calls)) links l).verified_all
