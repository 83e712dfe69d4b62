-- ===== src/Auth.antt =====
-- `ApiKeyStore` of auth.py: which keys are known, and whom each one stands for.
pub mod Keys
mod Tests
use production_rag.Base.{
  ℕ, Bool, true, false, not, ◌&&◌, ◌||◌, Option, none, some, List, [], ◌∷◌, map, Text, text,
  Unicode, strip, is_empty, length, any, all, contains, eqb, ◌==◌, nat_eq, list_eq, if◌then◌else◌,
  Result, ok, err, ◌>>=◌, ◌>>◌, raise_if, Dict, lookup, insert,
}
use production_rag.Json.{Json, Fields, string, array, object, elements, get_field}
use production_rag.Permissions.{Principal, ValueError, value_error}

-- What the interpreter does: Unicode, `str` of a value that is not a text, `str.lower`, and the
-- SHA-256 digest of a key in hexadecimal digits.
pub record Library : Type 0 where
  pub unicode : Unicode
  pub show : Json → Text
  pub lower : Text → Text
  pub hash_key : Text → Text

abbrev pub Principals : Type 0
Principals = Dict Text Principal

abbrev pub complaint : Bool → Text → Result ValueError (Unit {0})
complaint test message = raise_if test (value_error message)

abbrev pub hex_digits : Text
hex_digits = text "0123456789abcdef"

abbrev pub is_digest : Text → Bool
is_digest s = eqb (length s) 64 && not (any (λ c. not (contains hex_digits c)) s)

abbrev pub is_string : Json → Bool
is_string (string s) = true
is_string j = false

-- `isinstance(groups, list) and all(isinstance(g, str) for g in groups)`, of `entry.get("groups", [])`
abbrev pub is_group_list : Option Json → Bool
is_group_list none = true
is_group_list (some (array js)) = all is_string (elements js)
is_group_list (some j) = false

abbrev pub strings : List Json → List Text
strings [] = []
strings (string s ∷ js) = s ∷ strings js
strings (j ∷ js) = strings js

abbrev pub group_names : Option Json → List Text
group_names (some (array js)) = strings (elements js)
group_names o = []

abbrev pub has_key : Option Principal → Bool
has_key none = false
has_key (some p) = true

-- `__init__`
unfoldable pub new_key_store : Principals → Result ValueError Principals
new_key_store [] = err (value_error (text "at least one API key must be configured"))
new_key_store (e ∷ d) = ok (e ∷ d)

module _ (lib : Library) where
  -- `str(entry.get(name, ""))`
  abbrev str_of : Option Json → Text
  str_of none = []
  str_of (some (string s)) = s
  str_of (some j) = lib.show j

  abbrev pub trimmed : Text → Text
  trimmed s = strip lib.unicode.is_space s

  -- A text field of an entry, without the space around it.
  abbrev pub word_of : Text → Fields → Text
  word_of name entry = trimmed (str_of (get_field name entry))

  abbrev pub digest_of : Fields → Text
  digest_of entry = lib.lower (str_of (get_field (text "key_sha256") entry))

  abbrev pub single : Text → Text → Text → List Text → Result ValueError Principals
  single key tenant_id user_id groups = new_key_store (
      (lib.hash_key key, record { tenant_id = tenant_id; user_id = user_id; groups = groups }) ∷ [])

  -- The checks of an entry, from its four fields.
  unfoldable pub check_entry :
      Text → Text → Text → Option Json → Result ValueError (Text × Principal)
  check_entry digest tenant_id user_id groups = do
    complaint (not (is_digest digest)) (text "key_sha256 must be a 64-character hex digest")
    complaint (is_empty tenant_id || is_empty user_id)
        (text "tenant_id and user_id are required for every key")
    complaint (not (is_group_list groups)) (text "groups must be a list of strings")
    ok (digest, record { tenant_id = tenant_id; user_id = user_id; groups = group_names groups })

  unfoldable pub read_entry : Json → Result ValueError (Text × Principal)
  unfolding check_entry
  read_entry (object entry) =
      check_entry (digest_of entry) (word_of (text "tenant_id") entry)
        (word_of (text "user_id") entry) (get_field (text "groups") entry)
  read_entry j = err (value_error (text "each API key entry must be an object"))

  -- One round of the loop of `from_entries`.
  unfoldable pub add_entry : Json → Principals → Result ValueError Principals
  unfolding read_entry
  add_entry j d = do
    read ← read_entry j
    complaint (has_key (lookup read.0 d)) (text "duplicate API key digest")
    ok (insert read.0 read.1 d)

  unfoldable pub add_entries : List Json → Principals → Result ValueError Principals
  unfolding add_entry
  add_entries [] d = ok d
  add_entries (j ∷ js) d = do more ← add_entry j d; add_entries js more

  unfoldable pub from_entries : Json → Result ValueError Principals
  unfolding add_entries
  from_entries (array js) = do principals ← add_entries (elements js) []; new_key_store principals
  from_entries j = err (value_error (text "API key configuration must be a JSON list"))

  unfoldable pub authenticate : Option Text → Principals → Option Principal
  authenticate none d = none
  authenticate (some []) d = none
  authenticate (some (c ∷ s)) d = lookup (lib.hash_key (c ∷ s)) d
