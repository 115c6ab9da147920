-- ===== src/Videos/Chosen.antt =====
-- What `messageVideos` of src/lib/video-embed.ts returns.
use voidstation_app.Prelude.{
  =b_sym, All, All-append, Bool, List, Option, Option-cases, [], any, arith, false, if◌then◌else◌,
  inl, inr, length, length-append, none, refl, some, subst, sym, true, ℕ, ◌++◌, ◌<◌, ◌==◌, ◌∷◌, ◌≡◌,
  ◌≤◌,
}
use voidstation_app.Videos.Embed.{
  Link, VideoEmbed, choose, has_key, is_wanted, key_of, message_videos, video_embed,
}

-- No two videos have one key.
abbrev pub HasDistinctKeys : List VideoEmbed → Type 0
HasDistinctKeys [] = Unit
HasDistinctKeys (video ∷ videos) = (any (has_key video) videos ≡ false) × HasDistinctKeys videos

pub record IsChosen (limit : ℕ) (verified : List ℕ → Bool) (videos : List VideoEmbed) : Type 0 where
  pub few : length videos ≤ limit
  pub verified_all : All (λ video. verified (key_of video) ≡ true) videos
  pub distinct : HasDistinctKeys videos

any-snoc :
    (video embed : VideoEmbed) (videos : List VideoEmbed)
    → any (has_key video) videos ≡ false
    → has_key embed video ≡ false
    → any (has_key video) (videos ++ embed ∷ []) ≡ false
any-snoc video embed [] h k = ground (arith, =b_sym (key_of video) (key_of embed))
any-snoc video embed (v ∷ videos) h k = ground (arith, any-snoc video embed videos)

snoc-HasDistinctKeys :
    (embed : VideoEmbed) (videos : List VideoEmbed)
    → HasDistinctKeys videos
    → any (has_key embed) videos ≡ false
    → HasDistinctKeys (videos ++ embed ∷ [])
snoc-HasDistinctKeys embed [] d h = (refl, tt)
snoc-HasDistinctKeys embed (video ∷ videos) (p, d) h = (
  any-snoc video embed videos p (ground arith),
  snoc-HasDistinctKeys embed videos d (ground arith),
)

longer-IsChosen :
    (limit : ℕ) (verified : List ℕ → Bool) (videos : List VideoEmbed) (embed : VideoEmbed)
    → length videos < limit
    → is_wanted verified videos embed ≡ true
    → IsChosen limit verified videos
    → IsChosen limit verified (videos ++ embed ∷ [])
longer-IsChosen limit verified videos embed l w v = record {
  few = omega (arith, l, length-append videos (embed ∷ []));
  verified_all =
      All-append (λ video. verified (key_of video) ≡ true) videos (embed ∷ []) v.verified_all
        (ground arith, tt);
  distinct = snoc-HasDistinctKeys embed videos v.distinct (ground arith);
}

if-IsChosen :
    (limit : ℕ) (verified : List ℕ → Bool) (b : Bool) (x y : List VideoEmbed)
    → (b ≡ true → IsChosen limit verified x)
    → (b ≡ false → IsChosen limit verified y)
    → IsChosen limit verified (if b then x else y)
if-IsChosen limit verified true x y p q = p refl
if-IsChosen limit verified false x y p q = q refl

not_full : (n limit : ℕ) → n ≤ limit → (n == limit) ≡ false → n < limit
not_full n limit l e = ground arith

choose-IsChosen :
    (limit : ℕ) (verified : List ℕ → Bool) (videos : List VideoEmbed) (links : List Link)
    → length videos < limit
    → IsChosen limit verified videos
    → IsChosen limit verified (choose limit verified videos links)
unfolding choose
choose-IsChosen limit verified videos [] l v = v
choose-IsChosen limit verified videos (link ∷ links) l v =
    let skipped = choose limit verified videos links in
    let after : Option VideoEmbed → List VideoEmbed = λ o. elim o [
      | none ↦ skipped
      | some embed ↦
          (if is_wanted verified videos embed
            then (if length (videos ++ embed ∷ []) == limit
                then videos ++ embed ∷ []
                else choose limit verified (videos ++ embed ∷ []) links)
            else skipped)
    ] in
    elim (Option-cases (video_embed link)) [
      | inl h ↦
          subst (λ o. IsChosen limit verified (after o)) (sym h)
            (choose-IsChosen limit verified videos links l v)
      | inr (embed, h) ↦
          subst (λ o. IsChosen limit verified (after o)) (sym h)
            (if-IsChosen limit verified (is_wanted verified videos embed) _ skipped
              (λ w.
                let longer = longer-IsChosen limit verified videos embed l w v in
                if-IsChosen limit verified (length (videos ++ embed ∷ []) == limit) _ _
                  (λ e. longer)
                  (λ e.
                    choose-IsChosen limit verified (videos ++ embed ∷ []) links
                      (not_full (length (videos ++ embed ∷ [])) limit longer.few e) longer))
              (λ w. choose-IsChosen limit verified videos links l v))
    ]

-- Under a positive limit a message embeds at most that many videos, each of them verified, none twice,
-- whatever links it has.
pub message_videos-IsChosen :
    (limit : ℕ) (verified : List ℕ → Bool) (links : List Link)
    → 1 ≤ limit
    → IsChosen limit verified (message_videos limit verified links)
unfolding message_videos
message_videos-IsChosen limit verified links l =
    choose-IsChosen limit verified [] links (omega (arith, l))
      (record { few = omega arith; verified_all = tt; distinct = tt })
