-- ===== src/Permissions/Tests.antt =====
-- Access lists and callers.
use production_rag.Base.{
  true, false, ◌≡◌, ◌↔◌, ◌⊎◌, none, some, List, [], ◌∷◌, Text, text, Unicode, eqb, ok, err, In,
}
use production_rag.Json.{Json, Items, string, end, item, array, elements}
use production_rag.Permissions.{
  Principal, AclRow, or_empty, can_read, normalize_groups, is_name, group_error,
}
use production_rag.Permissions.Access.{Grants, IsNormal, can_read_iff, normalize_groups_array}

-- The space is the only white space of these texts, and none has digits.
abbrev plain : Unicode
plain = record { is_space = λ c. eqb c 32; digit_value = λ c. none }

abbrev alice : Principal
alice = record { tenant_id = text "acme"; user_id = text "alice"; groups = text "hr" ∷ [] }

abbrev row : AclRow
row = record { tenant_id = some (text "acme"); allowed_groups = some (text "hr" ∷ text "it" ∷ []) }

can_read_iff_example :
    (can_read row alice ≡ true)
    ↔ ((row.tenant_id ≡ some alice.tenant_id) × Grants (or_empty row.allowed_groups) alice.groups)
can_read_iff_example = can_read_iff row alice

abbrev listed : Items
listed = item (string (text " it")) (item (string (text "hr ")) (item (string (text "it")) end))

normalize_groups_array_example :
    ((gs : List Text) × (normalize_groups plain (array listed) ≡ ok gs)
      × IsNormal plain (elements listed) gs)
    ⊎ ((j : Json) × (In j (elements listed))
        × (is_name plain j ≡ false)
        × (normalize_groups plain (array listed) ≡ err group_error))
normalize_groups_array_example = normalize_groups_array plain listed
