-- ===== src/Byok/Settled.antt =====
-- Where a caller's key may be sent.
use production_rag.Base.{
  ℕ, ◌≡◌, refl, sym, ap, ◌≤◌, ◌⊎◌, inl, inr, Bool, true, false, not, ◌||◌, Option, none, some, List,
  arith, Text, text, length, all, ltb, ◌==◌, eq_iff, nat_eq, list_eq, Result, ok, err, >>=-eq-ok,
  raise_if-passed, raise_if-false, neither, not-false, >>-eq-ok, ok-injective, lookup, Bool-cases,
}
use production_rag.Json.{Json, Fields, null, string, object, get_field}
use production_rag.Byok.{
  Preset, presets, custom, SettingsError, llm_settings_error, url_value_error, LlmSettings, Url,
  Network, Checked, is_given, text_or_empty, value_or_error, port_or_443, string_of, trimmed,
  rstrip_slash, check_public_url, custom_url, preset_url, base_url_of, read_settings, settled,
  parse_llm_settings,
}

value_or_error-ok :
    {A : Type 0} (e : SettingsError) (o : Option A) (a : A)
    → ◌≡◌ {A = Result SettingsError A} (value_or_error e o) (ok a)
    → o ≡ some a
value_or_error-ok e none a h = cc h
value_or_error-ok e (some b) a h = ap some (ok-injective h)

module _ (net : Network) where
  -- An https URL without credentials, to a host all of whose addresses are public.
  pub record IsPublic (url : Text) : Type 0 where
    pub parts : Url
    pub port : Option ℕ
    pub addresses : List Text
    pub split : net.urlsplit url ≡ some parts
    pub is_https : parts.scheme ≡ text "https"
    pub has_host : is_given parts.hostname ≡ true
    pub no_username : is_given parts.username ≡ false
    pub no_password : is_given parts.password ≡ false
    pub has_port : parts.port ≡ some port
    pub resolved :
        net.getaddrinfo (text_or_empty parts.hostname) (port_or_443 port) ≡ some addresses
    pub all_public : all net.is_global addresses ≡ true

  check_public_url-IsPublic :
      (url : Text) {x : Unit {0}} → check_public_url net url ≡ ok x → IsPublic url
  unfolding check_public_url
  check_public_url-IsPublic url e =
      let (parts, e0, e1) = >>=-eq-ok (value_or_error url_value_error (net.urlsplit url)) _ e in
      let (secure, e2) =
        raise_if-passed (not (parts.scheme == text "https") || not (is_given parts.hostname)) _ _
          e1 in
      let (anonymous, e3) =
        raise_if-passed (is_given parts.username || is_given parts.password) _ _ e2 in
      let (port, e4, e5) = >>=-eq-ok (value_or_error url_value_error parts.port) _ e3 in
      let host = text_or_empty parts.hostname in
      let (infos, e6, e7) =
        >>=-eq-ok (value_or_error (llm_settings_error _) (net.getaddrinfo host (port_or_443 port)))
          _ e5 in
      let insecure =
        neither (not (parts.scheme == text "https")) (not (is_given parts.hostname)) secure in
      let named = neither (is_given parts.username) (is_given parts.password) anonymous in
      record {
        parts = parts;
        port = port;
        addresses = infos;
        split = value_or_error-ok _ _ _ e0;
        is_https = (eq_iff parts.scheme (text "https")).0 (not-false _ insecure.0);
        has_host = not-false _ insecure.1;
        no_username = named.0;
        no_password = named.1;
        has_port = value_or_error-ok _ _ _ e4;
        resolved = value_or_error-ok _ _ _ e6;
        all_public = not-false _ (raise_if-false _ _ e7);
      }

  custom_url-IsPublic :
      (allow : Bool) (given : Option Text) (url : Text)
      → custom_url net allow given ≡ ok url
      → (allow ≡ true) × IsPublic url
  unfolding custom_url
  custom_url-IsPublic allow given url e =
      let (allowed, e1) = raise_if-passed (not allow) _ _ e in
      let (raw, e2, e3) = >>=-eq-ok (value_or_error _ given) _ e1 in
      let (short, e4) = raise_if-passed (ltb 300 (length raw)) _ _ e3 in
      let (done, e5, e6) = >>-eq-ok (check_public_url net (rstrip_slash (trimmed net raw))) _ e4 in
      (
        not-false allow allowed,
        rw (← ok-injective e6) (check_public_url-IsPublic (rstrip_slash (trimmed net raw)) e5),
      )

  Sent : Bool → Text → Text → Type 0
  Sent allow provider url =
      ((p : Preset) × (lookup provider presets ≡ some p) × (url ≡ p.base_url))
      ⊎ ((provider ≡ custom) × (allow ≡ true) × IsPublic url)

  preset_url-ok :
      (o : Option Preset) (url : Text)
      → preset_url net o ≡ ok url
      → (p : Preset) × (o ≡ some p) × (url ≡ p.base_url)
  preset_url-ok none url e = cc e
  preset_url-ok (some p) url e = (p, refl, sym (ok-injective e))

  base_url_of-Sent :
      (allow : Bool) (provider : Text) (given : Option Text) (url : Text)
      → base_url_of net allow provider given ≡ ok url
      → Sent allow provider url
  unfolding base_url_of Sent
  base_url_of-Sent allow provider given url e = elim (Bool-cases (provider == custom)) [
    | inl own ↦
        let (allowed, public) = custom_url-IsPublic allow given url (rw own at e) in
        inr ((eq_iff provider custom).0 own, allowed, public)
    | inr preset ↦ inl (preset_url-ok (lookup provider presets) url (rw preset at e))
  ]

  -- Where the settings send the key, and what key and model are.
  pub record IsSettled (allow : Bool) (s : LlmSettings) : Type 0 where
    pub goes_to :
        ((p : Preset) × (lookup s.provider presets ≡ some p) × (s.base_url ≡ p.base_url))
        ⊎ ((s.provider ≡ custom) × (allow ≡ true) × IsPublic s.base_url)
    pub names_model : net.is_model_id s.model ≡ true
    pub key_not_short : 8 ≤ length s.api_key
    pub key_not_long : length s.api_key ≤ 512

  read_settings-IsSettled :
      (allow : Bool) (value : Fields) (s : LlmSettings)
      → read_settings net allow value ≡ ok s
      → IsSettled allow s
  unfolding read_settings Sent
  read_settings-IsSettled allow value s e =
      let provider = text_or_empty (string_of (get_field (text "provider") value)) in
      let (url, e0, e1) =
        >>=-eq-ok (base_url_of net allow provider (string_of (get_field (text "base_url") value))) _
          e in
      let (model, e2, e3) =
        >>=-eq-ok (value_or_error _ (string_of (get_field (text "model") value))) _ e1 in
      let (known, e4) = raise_if-passed (not (net.is_model_id (trimmed net model))) _ _ e3 in
      let (key, e5, e6) =
        >>=-eq-ok (value_or_error _ (string_of (get_field (text "api_key") value))) _ e4 in
      let (fits, e7) =
        raise_if-passed (ltb (length (trimmed net key)) 8 || ltb 512 (length (trimmed net key))) _ _
          e6 in
      let sides =
        neither (ltb (length (trimmed net key)) 8) (ltb 512 (length (trimmed net key))) fits in
      let same = ok-injective e7 in
      rw (← same) (record {
        goes_to =
            base_url_of-Sent allow provider (string_of (get_field (text "base_url") value)) url e0;
        names_model = not-false _ known;
        key_not_short = at_least (length (trimmed net key)) 8 sides.0;
        key_not_long = at_least 512 (length (trimmed net key)) sides.1;
      })
    where
      at_least : (a b : ℕ) → ltb a b ≡ false → b ≤ a
      at_least a b h = ground arith

  settled-some :
      (r : Checked LlmSettings) (s : LlmSettings) → settled net r ≡ ok (some s) → r ≡ ok s
  settled-some (ok t) s e = cc e
  settled-some (err x) s e = cc e

  -- Settings are accepted from a request only with a model ID and a key of 8 to 512 characters, and
  -- with the address of a preset, or, if custom ones are allowed, with an https URL that has no
  -- credentials and whose host resolves, at the time of this check, to public addresses only.
  pub parse_llm_settings-IsSettled :
      (allow : Bool) (value : Option Json) (s : LlmSettings)
      → parse_llm_settings net allow value ≡ ok (some s)
      → IsSettled allow s
  unfolding parse_llm_settings
  parse_llm_settings-IsSettled allow none s e = cc e
  parse_llm_settings-IsSettled allow (some null) s e = cc e
  parse_llm_settings-IsSettled allow (some (object value)) s e =
      read_settings-IsSettled allow value s (settled-some (read_settings net allow value) s e)
  parse_llm_settings-IsSettled allow (some (string t)) s e = cc e
  parse_llm_settings-IsSettled allow (some j) s e = cc e
