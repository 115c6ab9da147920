-- ===== src/Worker/Failures.antt =====
-- `providerFailure` of worker/src/pi.ts. `to_lower` is JavaScript's `toLowerCase`.
use voidstation_app.Prelude.{
  Bool, List, String, [], all, codes, false, if◌then◌else◌, leb, ltb, map, refl, true, ℕ, ◌&&◌, ◌+◌,
  ◌==◌, ◌||◌, ◌∷◌, ◌≡◌, is_digit,
}
use voidstation_app.Conversations.Settings.{Provider, openai_codex, openrouter}

pub data FailureKind : Type 0 where
  authentication limits unavailable unknown : FailureKind

pub record Failure : Type 0 where
  pub kind : FailureKind
  pub message : List ℕ

abbrev pub has_prefix : List ℕ → List ℕ → Bool
has_prefix [] text = true
has_prefix (c ∷ cs) [] = false
has_prefix (c ∷ cs) (d ∷ text) = c == d && has_prefix cs text

-- A pattern without special characters.
abbrev pub occurs : List ℕ → List ℕ → Bool
occurs word [] = has_prefix word []
occurs word (c ∷ text) = has_prefix word (c ∷ text) || occurs word text

-- 5\d\d
abbrev pub has_5xx_prefix : List ℕ → Bool
has_5xx_prefix (a ∷ b ∷ c ∷ text) = a == 53 && is_digit b && is_digit c
has_5xx_prefix _ = false

abbrev pub has_5xx : List ℕ → Bool
has_5xx [] = false
has_5xx (c ∷ text) = has_5xx_prefix (c ∷ text) || has_5xx text

abbrev pub any_word : List String → List ℕ → Bool
any_word [] text = false
any_word (word ∷ words) text = occurs (codes word) text || any_word words text

abbrev pub authentication_words : List String
authentication_words = "auth" ∷ "login" ∷ "oauth" ∷ "credential" ∷ "token" ∷ "401" ∷ "403" ∷ []

-- "ratelimit" and "rate limit" have "limit" in them.
abbrev pub limits_words : List String
limits_words = "limit" ∷ "quota" ∷ "429" ∷ "usage" ∷ []

abbrev pub unavailable_words : List String
unavailable_words = "unavailable" ∷ "network" ∷ "timeout" ∷ "timed out" ∷ "abort" ∷ []

abbrev pub classify : List ℕ → FailureKind
classify message =
    if any_word authentication_words message
    then authentication
    else if any_word limits_words message
    then limits
    else if any_word unavailable_words message || has_5xx message
    then unavailable
    else unknown

abbrev pub failure_message : Provider → FailureKind → List ℕ
failure_message openrouter authentication =
    codes "OpenRouter authentication is unavailable. Check the worker credential file."
failure_message openai_codex authentication =
    codes "Provider authentication is unavailable. Run worker login."
failure_message provider limits = codes "Provider limits are currently exhausted."
failure_message provider unavailable = codes "Provider is unavailable. Try again later."
failure_message provider unknown = codes "The assistant could not complete this reply."

unfoldable pub provider_failure : (List ℕ → List ℕ) → Provider → List ℕ → Failure
provider_failure to_lower provider source = record {
  kind = classify (to_lower source);
  message = failure_message provider (classify (to_lower source));
}

abbrev pub ascii_lower : ℕ → ℕ
ascii_lower c = if leb 65 c && leb c 90 then c + 32 else c

-- `toLowerCase` on ASCII text.
abbrev pub LowersAscii : (List ℕ → List ℕ) → Type 0
LowersAscii to_lower =
    (text : List ℕ) → all (λ c. ltb c 128) text ≡ true → to_lower text ≡ map ascii_lower text

reclassify :
    (to_lower : List ℕ → List ℕ) (provider : Provider) (kind : FailureKind)
    → LowersAscii to_lower
    → classify (to_lower (failure_message provider kind)) ≡ kind
reclassify to_lower openrouter authentication h =
    rw (h (failure_message openrouter authentication) refl) refl
reclassify to_lower openai_codex authentication h =
    rw (h (failure_message openai_codex authentication) refl) refl
reclassify to_lower openrouter limits h = rw (h (failure_message openrouter limits) refl) refl
reclassify to_lower openai_codex limits h = rw (h (failure_message openai_codex limits) refl) refl
reclassify to_lower openrouter unavailable h =
    rw (h (failure_message openrouter unavailable) refl) refl
reclassify to_lower openai_codex unavailable h =
    rw (h (failure_message openai_codex unavailable) refl) refl
reclassify to_lower openrouter unknown h = rw (h (failure_message openrouter unknown) refl) refl
reclassify to_lower openai_codex unknown h = rw (h (failure_message openai_codex unknown) refl) refl

-- If `toLowerCase` lowers ASCII text, the message that replaces a provider's error in its stream is
-- read back, for the same provider, as the same failure: same kind, same message.
pub provider_failure-provider_failure :
    (to_lower : List ℕ → List ℕ) (provider : Provider) (source : List ℕ)
    → LowersAscii to_lower
    → provider_failure to_lower provider (provider_failure to_lower provider source).message
      ≡ provider_failure to_lower provider source
unfolding provider_failure
provider_failure-provider_failure to_lower provider source h =
    rw (reclassify to_lower provider (classify (to_lower source)) h) refl
