-- ===== src/Byok.antt =====
-- byok.py: the model that a caller brings for one request, and where the server may send its key.
pub mod Settled
mod Tests
use production_rag.Base.{
  ℕ, ◌+◌, ◌*◌, ◌/◌, Bool, true, false, not, ◌&&◌, ◌||◌, Option, none, some, List, [], ◌∷◌, ◌++◌,
  map, Text, text, Unicode, strip, drop_while, reverse, is_empty, length, all, leb, ltb, eqb, ◌==◌,
  nat_eq, list_eq, if◌then◌else◌, Result, ok, err, ◌>>=◌, ◌>>◌, raise_if, Dict, lookup,
}
use production_rag.Json.{Json, Fields, null, string, object, get_field}
use production_rag.Gateway.Packing.{Budget}
use production_rag.Gateway.Attempts.{Settings}

pub record Preset : Type 0 where
  pub label : Text
  pub base_url : Text
  pub models : List Text
  pub key_url : Text

abbrev pub presets : Dict Text Preset
presets =
    (
      text "groq",
      record {
        label = text "Groq";
        base_url = text "https://api.groq.com/openai/v1";
        models = text "llama-3.1-8b-instant" ∷ text "llama-3.3-70b-versatile" ∷ [];
        key_url = text "https://console.groq.com/keys";
      },
    )
    ∷ (
      text "openai",
      record {
        label = text "OpenAI";
        base_url = text "https://api.openai.com/v1";
        models = text "gpt-4o-mini" ∷ text "gpt-4o" ∷ [];
        key_url = text "https://platform.openai.com/api-keys";
      },
    )
    ∷ (
      text "openrouter",
      record {
        label = text "OpenRouter";
        base_url = text "https://openrouter.ai/api/v1";
        models = text "meta-llama/llama-3.1-8b-instruct" ∷ [];
        key_url = text "https://openrouter.ai/keys";
      },
    )
    ∷ (
      text "gemini",
      record {
        label = text "Google Gemini";
        base_url = text "https://generativelanguage.googleapis.com/v1beta/openai";
        models = text "gemini-2.0-flash" ∷ [];
        key_url = text "https://aistudio.google.com/apikey";
      },
    )
    ∷ (
      text "together",
      record {
        label = text "Together AI";
        base_url = text "https://api.together.xyz/v1";
        models = text "meta-llama/Llama-3.3-70B-Instruct-Turbo" ∷ [];
        key_url = text "https://api.together.ai/settings/api-keys";
      },
    )
    ∷ (
      text "mistral",
      record {
        label = text "Mistral";
        base_url = text "https://api.mistral.ai/v1";
        models = text "mistral-small-latest" ∷ [];
        key_url = text "https://console.mistral.ai/api-keys";
      },
    )
    ∷ []

abbrev pub custom : Text
custom = text "custom"

-- `LlmSettingsError`, and a `ValueError` of the standard library that nothing here turns into one.
pub data SettingsError : Type 0 where
  llm_settings_error : Text → SettingsError
  url_value_error : SettingsError

pub record LlmSettings : Type 0 where
  pub provider : Text
  pub base_url : Text
  pub model : Text
  pub api_key : Text

-- What `urlsplit` finds; `none` as the port is the `ValueError` of one that is not a number.
pub record Url : Type 0 where
  pub scheme : Text
  pub hostname : Option Text
  pub username : Option Text
  pub password : Option Text
  pub port : Option (Option ℕ)

-- The standard library and the network: `urlsplit`, where `none` is its `ValueError`;
-- `getaddrinfo`, where `none` is a `gaierror`; `ip_address(…).is_global`; and MODEL_RE.
pub record Network : Type 0 where
  pub unicode : Unicode
  pub urlsplit : Text → Option Url
  pub getaddrinfo : Text → ℕ → Option (List Text)
  pub is_global : Text → Bool
  pub is_model_id : Text → Bool

abbrev pub Checked : Type 0 → Type 0
Checked A = Result SettingsError A

abbrev pub complaint : Bool → Text → Checked (Unit {0})
complaint test message = raise_if test (llm_settings_error message)

-- `environ.get("RAG_ALLOW_CUSTOM_LLM_URL", "1") != "0"`
unfoldable pub custom_urls_allowed : Option Text → Bool
custom_urls_allowed none = true
custom_urls_allowed (some s) = not (s == text "0")

abbrev pub is_given : Option Text → Bool
is_given none = false
is_given (some s) = not (is_empty s)

abbrev pub text_or_empty : Option Text → Text
text_or_empty none = []
text_or_empty (some s) = s

abbrev pub value_or_error {ℓ} : {E A : Type ℓ} → E → Option A → Result E A
value_or_error e none = err e
value_or_error e (some a) = ok a

-- `parts.port or 443`
abbrev pub port_or_443 : Option ℕ → ℕ
port_or_443 none = 443
port_or_443 (some n) = if eqb n 0 then 443 else n

abbrev pub rstrip_slash : Text → Text
rstrip_slash s = reverse (drop_while (λ c. eqb c 47) (reverse s))

-- An element of `provider in PRESETS` and the like: the text of a JSON string.
abbrev pub string_of : Option Json → Option Text
string_of (some (string s)) = some s
string_of o = none

module _ (net : Network) where
  abbrev pub trimmed : Text → Text
  trimmed s = strip net.unicode.is_space s

  unfoldable pub check_public_url : Text → Checked (Unit {0})
  check_public_url url = do
    parts ← value_or_error url_value_error (net.urlsplit url)
    complaint (not (parts.scheme == text "https") || not (is_given parts.hostname))
        (text "custom LLM URLs must use https")
    complaint (is_given parts.username || is_given parts.password)
        (text "custom LLM URLs must not contain credentials")
    port ← value_or_error url_value_error parts.port
    let host = text_or_empty parts.hostname
    infos ←
        value_or_error (llm_settings_error (text "cannot resolve " ++ host))
          (net.getaddrinfo host (port_or_443 port))
    complaint (not (all net.is_global infos))
        (host ++ text " resolves to a private or internal address, which is not allowed")

  abbrev pub check_length : Text → Checked (Unit {0})
  check_length url =
      complaint (ltb 300 (length url)) (text "base_url is required for a custom provider")

  unfoldable pub custom_url : Bool → Option Text → Checked Text
  unfolding check_public_url
  custom_url allow_custom given = do
    complaint (not allow_custom) (text "custom LLM URLs are disabled on this server")
    raw ←
        value_or_error (llm_settings_error (text "base_url is required for a custom provider"))
          given
    check_length raw
    let url = rstrip_slash (trimmed raw)
    check_public_url url
    ok url

  abbrev pub preset_url : Option Preset → Checked Text
  preset_url none = err (
      llm_settings_error (
        text
          "provider must be one of: groq, openai, openrouter, gemini, together, mistral, custom"))
  preset_url (some p) = ok p.base_url

  unfoldable pub base_url_of : Bool → Text → Option Text → Checked Text
  unfolding custom_url
  base_url_of allow_custom provider given =
      if provider == custom
      then custom_url allow_custom given
      else preset_url (lookup provider presets)

  unfoldable pub read_settings : Bool → Fields → Checked LlmSettings
  unfolding base_url_of
  read_settings allow_custom value = do
    let provider = text_or_empty (string_of (get_field (text "provider") value))
    url ← base_url_of allow_custom provider (string_of (get_field (text "base_url") value))
    model ←
        value_or_error
          (llm_settings_error (text "model must be a model ID such as llama-3.1-8b-instant"))
          (string_of (get_field (text "model") value))
    complaint (not (net.is_model_id (trimmed model)))
        (text "model must be a model ID such as llama-3.1-8b-instant")
    api_key ←
        value_or_error (llm_settings_error (text "api_key is missing or malformed"))
          (string_of (get_field (text "api_key") value))
    let key = trimmed api_key
    complaint (ltb (length key) 8 || ltb 512 (length key)) (text "api_key is missing or malformed")
    ok (record { provider = provider; base_url = url; model = trimmed model; api_key = key })

  abbrev pub settled : Checked LlmSettings → Checked (Option LlmSettings)
  settled (ok s) = ok (some s)
  settled (err e) = err e

  -- A missing or null value is "not provided".
  unfoldable pub parse_llm_settings : Bool → Option Json → Checked (Option LlmSettings)
  unfolding read_settings
  parse_llm_settings allow_custom none = ok none
  parse_llm_settings allow_custom (some null) = ok none
  parse_llm_settings allow_custom (some (object value)) = settled (read_settings allow_custom value)
  parse_llm_settings allow_custom (some j) = err (llm_settings_error (text "llm must be an object"))

-- The gateway of `build_user_provider`: two attempts, and the defaults for the pauses.
abbrev pub user_settings : Budget → ℕ → ℕ → Settings
user_settings budget deadline second = record {
  budget = budget;
  pricing = [];
  max_attempts = 2;
  base_delay = second / 2;
  max_delay = 8 * second;
  deadline = deadline;
  second = second;
}

-- What the page offers: the presets, without their addresses, and whether custom ones are allowed.
pub record Choice : Type 0 where
  pub id : Text
  pub label : Text
  pub models : List Text
  pub key_url : Text

abbrev pub presets_for_ui : Option Text → List Choice × Bool
presets_for_ui allow = (
  map
      (λ (p : Text × Preset). record {
        id = p.0;
        label = p.1.label;
        models = p.1.models;
        key_url = p.1.key_url;
      })
      presets,
  custom_urls_allowed allow,
)
