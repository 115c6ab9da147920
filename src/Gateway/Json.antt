-- ===== src/Gateway/Json.antt =====
-- JSON values as src/lib/assistant-worker.ts and worker/src/server.ts look at them. A text is its UTF-16
-- units; `JSON.parse` gives an object each key once.
use voidstation_app.Prelude.{
  Bool, List, Option, String, if◌then◌else◌, leb, length, none, some, suc, trim, ℕ, ◌=s◌,
}

mutual
  pub data Json : Type 0 where
    null : Json
    scalar : String → Json
    text : List ℕ → Json
    array : Elements → Json
    object : Fields → Json

  pub data Elements : Type 0 where
    no_element : Elements
    element : Json → Elements → Elements

  pub data Fields : Type 0 where
    no_field : Fields
    field : String → Json → Fields → Fields

-- `Object.keys(value).length`
abbrev pub count : Fields → ℕ
count no_field = 0
count (field key value rest) = suc (count rest)

abbrev pub lookup : String → Fields → Option Json
lookup key no_field = none
lookup key (field k value rest) = if k =s key then some value else lookup key rest

abbrev pub first_key : Fields → Option String
first_key no_field = none
first_key (field key value rest) = some key

abbrev pub text_of : Option Json → Option (List ℕ)
text_of (some (text t)) = some t
text_of _ = none

abbrev pub max_text_length : ℕ
max_text_length = 8000

abbrev pub max_body_bytes : ℕ
max_body_bytes = 20000

abbrev pub is_blank : List ℕ → Bool
is_blank t = leb (length (trim t)) 0
