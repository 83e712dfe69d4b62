-- ===== src/Api/Uploads.antt =====
-- `_tenant`, `_source_fields` and `_document_job`: what an upload may say.
use production_rag.Base.{
  ℕ, Bool, true, false, not, ◌||◌, Option, none, some, List, [], ◌∷◌, Text, text, Result, ok, err,
  ◌>>=◌, ◌>>◌, raise_if, ◌==◌, nat_eq, list_eq, strip, is_empty, length, ltb, sort, text_leb,
}
use production_rag.Json.{
  Json, Items, Fields, null, string, array, object, item, end, field, none_left, get_field,
}
use production_rag.Permissions.{ValueError, value_error, normalize_groups}
use production_rag.Documents.{Instant}
use production_rag.Api.{Exception, refused, bad_value, Library, Request, api_error, caller, given}

pub record SourceFields : Type 0 where
  pub source_system : Text
  pub source_id : Text
  pub source_version : Option Text
  pub source_modified_at : Option Json

pub record DocumentJob : Type 0 where
  pub tenant_id : Text
  pub filename : Text
  pub content_base64 : Text
  pub content_type : Option Text
  pub allowed_groups : Option (List Text)
  pub source : SourceFields
  pub groups : List Text

abbrev pub Checked : Type 0 → Type 0
Checked A = Result Exception A

-- `raise ValueError(message)`
abbrev pub invalid : {A : Type 0} → Text → Checked A
invalid message = err (bad_value (value_error message))

abbrev pub invalid_if : Bool → Text → Checked (Unit {0})
invalid_if test message = raise_if test (bad_value (value_error message))

-- `body tenant_id is optional and must agree`
abbrev pub is_other_tenant : (Text → Text) → Text → Option Json → Bool
is_other_tenant trim own none = false
is_other_tenant trim own (some (string claimed)) = not (trim claimed == own)
is_other_tenant trim own (some j) = true

-- `isinstance(value, str)` and the value, else the complaint.
abbrev pub expect_text : Text → Option Json → Checked Text
expect_text message (some (string t)) = ok t
expect_text message o = invalid message

-- An optional text.
abbrev pub expect_option : Text → Option Json → Checked (Option Text)
expect_option message none = ok none
expect_option message (some (string t)) = ok (some t)
expect_option message (some j) = invalid message

-- `payload.get(name, default)`
abbrev pub field_or : Text → Option Json → Option Json
field_or default none = some (string default)
field_or default (some j) = some j

abbrev pub long_option : ℕ → Option Text → Bool
long_option n none = false
long_option n (some t) = ltb n (length t)

module _ (lib : Library) where
  abbrev pub trimmed : Text → Text
  trimmed t = strip lib.unicode.is_space t

  unfoldable pub tenant : Request → Checked Text
  tenant request = do
    principal ← caller request.principal
    raise_if
        (is_other_tenant trimmed principal.tenant_id
          (given (get_field (text "tenant_id") request.payload)))
        (refused (api_error 403 (text "tenant_id does not match authenticated identity")))
    ok principal.tenant_id

  -- `str(value)`
  abbrev pub str_of : Json → Text
  str_of (string t) = t
  str_of j = lib.keys.show j

  abbrev pub timestamp_or_error : Result ValueError Instant → Checked (Unit {0})
  timestamp_or_error (ok t) = ok tt
  timestamp_or_error (err e) = invalid (text "source_modified_at must be an ISO-8601 timestamp")

  abbrev pub check_modified : Option Json → Checked (Unit {0})
  check_modified none = ok tt
  check_modified (some j) = timestamp_or_error (lib.fromisoformat (str_of j))

  unfoldable pub source_fields : Fields → Text → Checked SourceFields
  source_fields payload filename = do
    let version = given (get_field (text "source_version") payload)
    let modified = given (get_field (text "source_modified_at") payload)
    system ←
        expect_text (text "source_system must be 1-32 lowercase letters, digits, - or _")
          (field_or (text "upload") (get_field (text "source_system") payload))
    invalid_if (not (lib.is_source_system system))
        (text "source_system must be 1-32 lowercase letters, digits, - or _")
    source_id ←
        expect_text (text "source_id must be a non-empty string of at most 512 characters")
          (field_or filename (get_field (text "source_id") payload))
    invalid_if (is_empty (trimmed source_id) || ltb 512 (length source_id))
        (text "source_id must be a non-empty string of at most 512 characters")
    marker ←
        expect_option (text "source_version must be a string of at most 256 characters") version
    invalid_if (long_option 256 marker)
        (text "source_version must be a string of at most 256 characters")
    check_modified modified
    ok (record {
      source_system = system;
      source_id = trimmed source_id;
      source_version = marker;
      source_modified_at = modified;
    })

  abbrev pub valid_base64 : Text → Result ValueError (List ℕ) → Checked Text
  valid_base64 encoded (ok bytes) = ok encoded
  valid_base64 encoded (err e) = invalid (text "content_base64 is not valid base64")

  abbrev pub encode_content : Result ValueError (List ℕ) → Checked Text
  encode_content (ok bytes) = ok (lib.b64encode bytes)
  encode_content (err e) = err (bad_value e)

  -- The content, as text or in base64, but not both.
  unfoldable pub content_of : Option Json → Option Json → Checked Text
  content_of (some (string content)) none = encode_content (lib.encode content)
  content_of none (some (string encoded)) = valid_base64 encoded (lib.b64decode true encoded)
  content_of content encoded =
      invalid (text "send exactly one of content (text) or content_base64 (file)")

  abbrev pub some_groups : Result ValueError (List Text) → Checked (Option (List Text))
  some_groups (ok gs) = ok (some gs)
  some_groups (err e) = err (bad_value e)

  -- An omitted list is none; a null is the empty list.
  abbrev pub groups_of : Option Json → Checked (Option (List Text))
  groups_of none = ok none
  groups_of (some j) = some_groups (normalize_groups lib.unicode j)

  unfoldable pub document_job : Request → Checked DocumentJob
  unfolding tenant source_fields content_of
  document_job request = do
    let payload = request.payload
    filename ← expect_text (text "filename is required") (get_field (text "filename") payload)
    invalid_if (is_empty (trimmed filename)) (text "filename is required")
    encoded ←
        content_of (given (get_field (text "content") payload))
          (given (get_field (text "content_base64") payload))
    content_type ←
        expect_option (text "content_type must be a string")
          (given (get_field (text "content_type") payload))
    principal ← caller request.principal
    own ← tenant request
    allowed ← groups_of (get_field (text "allowed_groups") payload)
    source ← source_fields payload (trimmed filename)
    ok (record {
      tenant_id = own;
      filename = trimmed filename;
      content_base64 = encoded;
      content_type = content_type;
      allowed_groups = allowed;
      source = source;
      groups = sort text_leb principal.groups;
    })

abbrev pub text_or_null : Option Text → Json
text_or_null none = null
text_or_null (some t) = string t

abbrev pub value_or_null : Option Json → Json
value_or_null none = null
value_or_null (some j) = j

unfoldable pub texts : List Text → Items
texts [] = end
texts (t ∷ ts) = item (string t) (texts ts)

abbrev pub texts_or_null : Option (List Text) → Json
texts_or_null none = null
texts_or_null (some ts) = array (texts ts)

-- The job as the dictionary that the queue holds.
unfoldable pub job_payload : DocumentJob → Json
unfolding texts
job_payload job = object (
    field (text "tenant_id") (string job.tenant_id) (
      field (text "filename") (string job.filename) (
        field (text "content_base64") (string job.content_base64) (
          field (text "content_type") (text_or_null job.content_type) (
            field (text "allowed_groups") (texts_or_null job.allowed_groups) (
              field (text "source_system") (string job.source.source_system) (
                field (text "source_id") (string job.source.source_id) (
                  field (text "source_version") (text_or_null job.source.source_version) (
                    field (text "source_modified_at") (value_or_null job.source.source_modified_at)
                      (field (text "groups") (array (texts job.groups)) none_left))))))))))
