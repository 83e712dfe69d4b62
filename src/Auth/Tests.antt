-- ===== src/Auth/Tests.antt =====
-- A configuration with one key.
use production_rag.Base.{
  ◌≡◌, refl, ◌↔◌, none, some, [], ◌∷◌, Text, text, eqb, ok, In, list_beq, lookup, insert, strip,
  drop_while,
}
use production_rag.Json.{
  Json, Items, string, array, object, item, end, field, none_left, elements, get_field,
}
use production_rag.Permissions.{Principal}
use production_rag.Auth.{Library, Principals, read_entry, new_key_store, from_entries, authenticate}
use production_rag.Auth.Keys.{IsEntry, authenticate_exact}

abbrev digest : Text
digest = text "0123456789abcdef0123456789abcdef0123456789abcdef0123456789abcdef"

abbrev library : Library
library = record {
  unicode = record { is_space = λ c. eqb c 32; digit_value = λ c. none };
  show = λ j. [];
  lower = λ s. s;
  hash_key = λ k. digest;
}

abbrev entries : Items
entries =
    item
      (object (
        field (text "key_sha256") (string digest) (
          field (text "tenant_id") (string (text " acme ")) (
            field (text "user_id") (string (text "alice"))
              (field (text "groups") (array (item (string (text "hr")) end)) none_left)))))
      end

abbrev alice : Principal
alice = record { tenant_id = text "acme"; user_id = text "alice"; groups = text "hr" ∷ [] }

abbrev store : Principals
store = (digest, alice) ∷ []

accepted : from_entries library (array entries) ≡ ok store
unfolding from_entries elements get_field list_beq lookup insert strip drop_while new_key_store
accepted = refl

authenticate_exact_example :
    ((authenticate library (some (107 ∷ [])) store ≡ some alice)
      ↔ ((j : Json) × In j (elements entries) × (read_entry library j ≡ ok (digest, alice))))
    × (authenticate library (some (107 ∷ [])) store ≡ some alice → IsEntry library digest alice)
authenticate_exact_example = authenticate_exact library entries store 107 [] alice accepted
