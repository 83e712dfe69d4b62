-- ===== src/Byok/Tests.antt =====
-- A preset, a custom address on the server's own network, and a public one.
use production_rag.Base.{
  ◌≡◌, refl, true, false, none, some, [], ◌∷◌, Text, text, eqb, nat_eq, list_eq, list_beq, ok, err,
  lookup, drop_while, strip,
}
use production_rag.Json.{Json, string, object, field, none_left, get_field}
use production_rag.Byok.{
  llm_settings_error, LlmSettings, Url, Network, check_public_url, parse_llm_settings,
}
use production_rag.Byok.Settled.{IsSettled, parse_llm_settings-IsSettled}

abbrev url_of : Text → Url
url_of host = record {
  scheme = text "https";
  hostname = some host;
  username = none;
  password = none;
  port = some none;
}

-- Every URL is of the host "box", whose address is private.
abbrev inside : Network
inside = record {
  unicode = record { is_space = λ c. eqb c 32; digit_value = λ c. none };
  urlsplit = λ u. some (url_of (text "box"));
  getaddrinfo = λ host port. some (text "10.0.0.1" ∷ []);
  is_global = λ a. false;
  is_model_id = λ m. true;
}

refused :
    check_public_url inside (text "https://box")
    ≡ err (
        llm_settings_error
          (text "box resolves to a private or internal address, which is not allowed"))
unfolding check_public_url list_beq
refused = refl

abbrev settings : Json
settings = object (
    field (text "provider") (string (text "groq")) (
      field (text "model") (string (text "llama"))
        (field (text "api_key") (string (text " 12345678 ")) none_left)))

abbrev read : LlmSettings
read = record {
  provider = text "groq";
  base_url = text "https://api.groq.com/openai/v1";
  model = text "llama";
  api_key = text "12345678";
}

accepted : parse_llm_settings inside true (some settings) ≡ ok (some read)
unfolding parse_llm_settings get_field list_beq lookup strip drop_while
accepted = refl

parse_llm_settings-IsSettled_example : IsSettled inside true read
parse_llm_settings-IsSettled_example =
    parse_llm_settings-IsSettled inside true (some settings) read accepted
