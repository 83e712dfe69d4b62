-- ===== src/Permissions.antt =====
-- permissions.py: who is calling, and which documents an access list lets through.
pub mod Access
mod Tests
use production_rag.Base.{
  Bool, true, false, not, ◌&&◌, ◌||◌, Option, none, some, List, [], ◌∷◌, map, Text, text, Unicode,
  strip, Result, ok, err, ◌==◌, nat_eq, list_eq, is_empty, any, all, contains, dedup, sort,
  text_leb, if◌then◌else◌,
}
use production_rag.Json.{Json, Items, string, null, array, elements}

-- `groups` is a frozenset: only membership in it is ever asked for, or its sorted entries.
pub record Principal : Type 0 where
  pub tenant_id : Text
  pub user_id : Text
  pub groups : List Text

-- The message of a `ValueError`.
pub data ValueError : Type 0 where
  value_error : Text → ValueError

abbrev pub or_empty : Option (List Text) → List Text
or_empty none = []
or_empty (some gs) = gs

-- Some entry of the first set is in the second: `bool(a & b)`.
abbrev pub share : List Text → List Text → Bool
share a b = any (contains b) a

unfoldable pub can_read_groups : Option (List Text) → Principal → Bool
can_read_groups allowed principal =
    is_empty (or_empty allowed) || share (or_empty allowed) principal.groups

-- The two keys of a row that the rule reads.
pub record AclRow : Type 0 where
  pub tenant_id : Option Text
  pub allowed_groups : Option (List Text)

abbrev is_text : Option Text → Text → Bool
is_text none t = false
is_text (some s) t = s == t

unfoldable pub can_read : AclRow → Principal → Bool
can_read row principal =
    is_text row.tenant_id principal.tenant_id && can_read_groups row.allowed_groups principal

abbrev pub group_error : ValueError
group_error = value_error (text "allowed_groups must be a list of non-empty strings")

module _ (u : Unicode) where
  abbrev pub trim : Text → Text
  trim s = strip u.is_space s

  -- `isinstance(group, str) and group.strip()`
  abbrev pub is_name : Json → Bool
  is_name (string s) = not (is_empty (trim s))
  is_name j = false

  abbrev names : List Json → List Text
  names [] = []
  names (string s ∷ js) = trim s ∷ names js
  names (j ∷ js) = names js

  normalize_items : List Json → Result ValueError (List Text)
  normalize_items js =
      if all is_name js then ok (sort text_leb (dedup (names js))) else err group_error

  unfoldable pub normalize_groups : Json → Result ValueError (List Text)
  unfolding normalize_items
  normalize_groups null = ok []
  normalize_groups (array js) = normalize_items (elements js)
  normalize_groups j = err group_error
