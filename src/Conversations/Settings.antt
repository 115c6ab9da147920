-- ===== src/Conversations/Settings.antt =====
-- `getAssistantSettings` and `setAssistantSettings` of worker/src/store.ts.
use voidstation_app.Prelude.{String, none, some}
use voidstation_app.Conversations.Tables.{Db, SettingsRow}

abbrev pub default_settings : SettingsRow
default_settings = record {
  provider = "openai-codex";
  model = "gpt-5.5";
  codex_model = "gpt-5.5";
  openrouter_model = "";
}

unfoldable pub get_assistant_settings : Db → SettingsRow
get_assistant_settings db = elim db.assistant_settings [ none ↦ default_settings | some row ↦ row ]

pub data Provider : Type 0 where
  openai_codex openrouter : Provider

abbrev pub provider_name : Provider → String
provider_name openai_codex = "openai-codex"
provider_name openrouter = "openrouter"

-- `{ ...current.lastModels, [provider]: model }`
abbrev pub with_model : Provider → String → SettingsRow → SettingsRow
with_model openai_codex model row = record row {
  provider = "openai-codex";
  model = model;
  codex_model = model;
}
with_model openrouter model row = record row {
  provider = "openrouter";
  model = model;
  openrouter_model = model;
}

unfoldable pub set_assistant_settings : Provider → String → Db → Db
set_assistant_settings provider model db = record db {
  assistant_settings = some (with_model provider model (get_assistant_settings db));
}
