-- ===== src/Gateway/Relay.antt =====
-- What src/lib/assistant-worker.ts makes of the worker's answer.
use voidstation_app.Prelude.{
  Bool, List, Option, String, [], any, codes, false, if◌then◌else◌, leb, none, not, refl, some,
  true, ℕ, ◌&&◌, ◌==◌, ◌=b◌, ◌||◌, ◌∷◌, ◌≡◌,
}
use voidstation_app.Conversations.Settings.{Provider, openai_codex, openrouter}
use voidstation_app.Worker.Failures.{
  FailureKind, authentication, failure_message, limits, provider_failure, unavailable, unknown,
}

pub data Relayed : Type 0 where
  relays : ℕ → Relayed
  streams_on : Relayed
  explains : List ℕ → Relayed
  worker_unavailable : Relayed

abbrev pub safe_errors : List String
safe_errors =
    "Provider authentication is unavailable. Run worker login."
    ∷ "OpenRouter authentication is unavailable. Check the worker credential file."
    ∷ "Provider limits are currently exhausted." ∷ "Provider is unavailable. Try again later." ∷ []

abbrev pub is_safe_error : List ℕ → Bool
is_safe_error error = any (λ safe. error =b codes safe) safe_errors

abbrev pub explained : Option (List ℕ) → Relayed
explained none = worker_unavailable
explained (some error) = if is_safe_error error then explains error else worker_unavailable

abbrev pub is_ok : ℕ → Bool
is_ok status = leb 200 status && leb status 299

-- From `response.status === 503` on; `error` is the text of the payload's error, if it is one.
unfoldable pub relay : Bool → ℕ → Option (List ℕ) → Bool → Relayed
relay streaming status error is_event_stream =
    if status == 503
    then explained error
    else if status == 401 || leb 500 status
    then worker_unavailable
    else if not streaming || not (is_ok status)
    then relays status
    else if is_event_stream
    then streams_on
    else worker_unavailable

abbrev pub is_unknown : FailureKind → Bool
is_unknown unknown = true
is_unknown _ = false

explained-failure :
    (provider : Provider) (kind : FailureKind)
    → explained (some (failure_message provider kind))
      ≡ (if is_unknown kind then worker_unavailable else explains (failure_message provider kind))
unfolding ◌=b◌
explained-failure openrouter authentication = refl
explained-failure openai_codex authentication = refl
explained-failure openrouter limits = refl
explained-failure openai_codex limits = refl
explained-failure openrouter unavailable = refl
explained-failure openai_codex unavailable = refl
explained-failure openrouter unknown = refl
explained-failure openai_codex unknown = refl

-- A 503 of the worker with the message of a provider failure is shown to the browser with that message
-- exactly when the failure was recognised; the message of any other failure is replaced.
pub relay-provider_failure :
    (to_lower : List ℕ → List ℕ) (provider : Provider) (source : List ℕ)
    (streaming is_event_stream : Bool)
    → relay streaming 503 (some (provider_failure to_lower provider source).message) is_event_stream
      ≡ (if is_unknown (provider_failure to_lower provider source).kind
          then worker_unavailable
          else explains (provider_failure to_lower provider source).message)
unfolding relay provider_failure
relay-provider_failure to_lower provider source streaming is_event_stream =
    explained-failure provider _
