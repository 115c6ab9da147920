-- ===== src/Worker/Gates.antt =====
-- How long `setGate` of worker/src/server.ts keeps `submitTurn` from a provider.
use voidstation_app.Prelude.{
  Bool, List, Option, String, any, ap, false, if◌then◌else◌, ltb, none, refl, some, true, ℕ, ◌+◌,
  ◌=s◌, ◌∙◌, ◌≡◌,
}
use voidstation_app.Conversations.Settings.{Provider, openai_codex, openrouter}
use voidstation_app.Worker.Failures.{
  Failure, FailureKind, authentication, limits, unavailable, unknown,
}
use voidstation_app.Worker.Tasks.{
  ProviderGate, Runtime, Worker, gate_by_kind, gate_of, has_active_turn, put_gate, set_gate,
}
use voidstation_app.Worker.Submission.{
  Begun, already_running, answered, asks, begin_submit, is_closed_gate, past_gate, provider_error,
}

-- Whether a failure of a kind at `now` still blocks at `later`.
abbrev pub blocks : Runtime → ℕ → ℕ → FailureKind → Bool
blocks runtime now later unknown = false
blocks runtime now later authentication = true
blocks runtime now later _ = ltb later (now + runtime.cooldown_ms)

abbrev answer_of : Option (List ℕ) → Provider → String → Begun
answer_of none provider model = asks provider model
answer_of (some error) provider model = answered (provider_error error)

past_gate-answer :
    (worker : Worker) (error : Option (List ℕ))
    → (past_gate worker error).0 ≡ answer_of error worker.provider worker.model
past_gate-answer worker none = refl
past_gate-answer worker (some error) = refl

-- What the first half answers in a conversation without a task.
begin-answer :
    (conversation : String) (later : ℕ) (worker : Worker)
    → has_active_turn conversation worker ≡ false
    → (begin_submit conversation later worker).0
      ≡ answer_of
          (is_closed_gate later (gate_of worker.provider worker))
          worker.provider
          worker.model
unfolding begin_submit
begin-answer conversation later worker h =
    ap
      (λ (b : Bool).
        (if b
          then (answered already_running, worker)
          else past_gate worker (is_closed_gate later (gate_of worker.provider worker))).0)
      h
    ∙ past_gate-answer worker (is_closed_gate later (gate_of worker.provider worker))

-- A gate that is put does not touch the rest.
record IsGated (provider : Provider) (gate : Option ProviderGate) (before after : Worker)
    : Type 0 where
  pub gate_there : gate_of provider after ≡ gate
  pub same_tasks : after.active_turns ≡ before.active_turns
  pub same_provider : after.provider ≡ before.provider
  pub same_model : after.model ≡ before.model

put_gate-IsGated :
    (provider : Provider) (gate : Option ProviderGate) (worker : Worker)
    → IsGated provider gate worker (put_gate provider gate worker)
put_gate-IsGated openai_codex gate worker = record {
  gate_there = refl;
  same_tasks = refl;
  same_provider = refl;
  same_model = refl;
}
put_gate-IsGated openrouter gate worker = record {
  gate_there = refl;
  same_tasks = refl;
  same_provider = refl;
  same_model = refl;
}

gated-answer :
    (conversation : String) (later : ℕ) (gate : Option ProviderGate) (before after : Worker)
    → IsGated before.provider gate before after
    → has_active_turn conversation before ≡ false
    → (begin_submit conversation later after).0
      ≡ answer_of (is_closed_gate later gate) before.provider before.model
unfolding has_active_turn
gated-answer conversation later gate before after g h =
    begin-answer conversation later after
      (ap (any (λ t. t.conversation_id =s conversation)) g.same_tasks ∙ h)
    ∙ ap (λ (p : Provider). answer_of (is_closed_gate later (gate_of p after)) p after.model)
        g.same_provider
    ∙ ap
        (λ (o : Option ProviderGate).
          answer_of (is_closed_gate later o) before.provider after.model)
        g.gate_there
    ∙ ap (answer_of (is_closed_gate later gate) before.provider) g.same_model

until-answer :
    (b : Bool) (error : List ℕ) (provider : Provider) (model : String)
    → answer_of (if b then some error else none) provider model
      ≡ (if b then answered (provider_error error) else asks provider model)
until-answer true error provider model = refl
until-answer false error provider model = refl

kind-answer :
    (runtime : Runtime) (now later : ℕ) (conversation : String) (error : List ℕ)
    (kind : FailureKind) (worker : Worker)
    → has_active_turn conversation worker ≡ false
    → gate_of worker.provider worker ≡ none
    → (begin_submit conversation later
        (gate_by_kind runtime now worker.provider error kind worker)).0
      ≡ (if blocks runtime now later kind
          then answered (provider_error error)
          else asks worker.provider worker.model)
unfolding gate_by_kind
kind-answer runtime now later conversation error unknown worker h g =
    begin-answer conversation later worker h
    ∙ ap
        (λ (o : Option ProviderGate).
          answer_of (is_closed_gate later o) worker.provider worker.model)
        g
kind-answer runtime now later conversation error authentication worker h g =
    gated-answer conversation later _ worker _ (put_gate-IsGated worker.provider _ worker) h
kind-answer runtime now later conversation error limits worker h g =
    gated-answer conversation later _ worker _ (put_gate-IsGated worker.provider _ worker) h
    ∙ until-answer (ltb later (now + runtime.cooldown_ms)) error worker.provider worker.model
kind-answer runtime now later conversation error unavailable worker h g =
    gated-answer conversation later _ worker _ (put_gate-IsGated worker.provider _ worker) h
    ∙ until-answer (ltb later (now + runtime.cooldown_ms)) error worker.provider worker.model

-- After a failure of the selected provider, which had no gate, a submission to a conversation without
-- a task is answered with the failure's message: always after a failed authentication, and before
-- the end of the cooldown after exhausted limits or an outage. In all other cases, and after an
-- unrecognised failure, the provider is asked again.
pub begin_submit-set_gate :
    (runtime : Runtime) (now later : ℕ) (conversation : String) (fault : Failure) (worker : Worker)
    → has_active_turn conversation worker ≡ false
    → gate_of worker.provider worker ≡ none
    → (begin_submit conversation later (set_gate runtime now worker.provider fault worker)).0 ≡ (
        if blocks runtime now later fault.kind
        then answered (provider_error fault.message)
        else asks worker.provider worker.model)
unfolding set_gate
begin_submit-set_gate runtime now later conversation fault worker h g =
    kind-answer runtime now later conversation fault.message fault.kind worker h g
