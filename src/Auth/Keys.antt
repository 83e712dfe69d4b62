-- ===== src/Auth/Keys.antt =====
-- A key authenticates exactly the principal of its configured entry.
use production_rag.Base.{
  ℕ, ◌≡◌, refl, sym, ap, ◌∙◌, ◌↔◌, ◌⊎◌, inl, inr, true, false, not, ◌||◌, Option, none, some, List,
  [], ◌∷◌, arith, Text, text, is_empty, In, ◌==◌, eq_iff, nat_eq, list_eq, ok, >>=-eq-ok,
  raise_if-passed, ok-injective, lookup, insert, lookup-insert, Bool-cases,
}
use production_rag.Json.{Json, Items, object, array, elements, get_field}
use production_rag.Permissions.{Principal}
use production_rag.Auth.{
  Library, Principals, is_digest, is_group_list, has_key, new_key_store, check_entry, group_names,
  digest_of, word_of, read_entry, add_entry, add_entries, from_entries, authenticate,
}

new_key_store_lem : (d store : Principals) → new_key_store d ≡ ok store → d ≡ store
unfolding new_key_store
new_key_store_lem [] store e = cc
new_key_store_lem (x ∷ d) store e = ok-injective e

module _ (lib : Library) where
  -- A digest and whom it stands for, as they may stand in a configuration.
  pub record IsEntry (digest : Text) (p : Principal) : Type 0 where
    pub hexadecimal : is_digest digest ≡ true
    pub has_tenant : is_empty p.tenant_id ≡ false
    pub has_user : is_empty p.user_id ≡ false

  check_entry-IsEntry :
      (digest tenant user : Text) (groups : Option Json) (key : Text) (p : Principal)
      → check_entry lib digest tenant user groups ≡ ok (key, p)
      → IsEntry key p
  unfolding check_entry
  check_entry-IsEntry digest tenant user groups key p e =
      let (hex, e1) = raise_if-passed (not (is_digest digest)) _ _ e in
      let (named, e2) = raise_if-passed (is_empty tenant || is_empty user) _ _ e1 in
      let (grouped, e3) = raise_if-passed (not (is_group_list groups)) _ _ e2 in
      let same =
        ok-injective
          {a = (digest, record { tenant_id = tenant; user_id = user; groups = group_names groups })}
          e3 in
      let the_key = ap (λ (x : Text × Principal). x.0) same in
      let the_tenant = ap (λ (x : Text × Principal). x.1.tenant_id) same in
      let the_user = ap (λ (x : Text × Principal). x.1.user_id) same in
      record {
        hexadecimal = rw (← the_key) (ground arith);
        has_tenant = rw (← the_tenant) (ground arith);
        has_user = rw (← the_user) (ground arith);
      }

  read_entry-IsEntry :
      (j : Json) (key : Text) (p : Principal) → read_entry lib j ≡ ok (key, p) → IsEntry key p
  unfolding read_entry
  read_entry-IsEntry (object entry) key p e =
      check_entry-IsEntry (digest_of lib entry) (word_of lib (text "tenant_id") entry)
        (word_of lib (text "user_id") entry) (get_field (text "groups") entry) key p e
  read_entry-IsEntry j key p e = cc

  add_entry_new :
      (j : Json) (d d' : Principals)
      → add_entry lib j d ≡ ok d'
      → (digest : Text) × (p : Principal) × (read_entry lib j ≡ ok (digest, p))
        × (lookup digest d ≡ none)
        × (d' ≡ insert digest p d)
  unfolding add_entry
  add_entry_new j d d' e =
      let (x, read, next) = >>=-eq-ok (read_entry lib j) _ e in
      let (fresh, added) = raise_if-passed _ _ _ next in
      (x.0, x.1, read, is_new (lookup x.0 d) fresh, sym (ok-injective added))
    where
      is_new : (o : Option Principal) → has_key o ≡ false → o ≡ none
      is_new none h = refl
      is_new (some p) h = cc

  add_entry_iff :
      (j : Json) (d more : Principals) (key : Text) (p : Principal)
      → add_entry lib j d ≡ ok more
      → (lookup key more ≡ some p) ↔ ((lookup key d ≡ some p) ⊎ (read_entry lib j ≡ ok (key, p)))
  add_entry_iff j d more key p e =
      let (digest, q, read, fresh, added) = add_entry_new j d more e in
      let after = lookup-insert digest key q d in
      elim (Bool-cases (digest == key)) [
        | inl same ↦
            let k = (eq_iff digest key).0 same in
            (
              (λ h. inr (cc (h, after, same, added, read, k))),
              (λ h. elim h [
                | inl old ↦ cc (old, fresh, k)
                | inr r ↦
                    rw (added, after, same)
                      (ap some (ap (λ (x : Text × Principal). x.1) (ok-injective (sym read ∙ r))))
              ]),
            )
        | inr other ↦ (
          (λ h. inl (rw (added, after, other) at h)),
          (λ h. elim h [
            | inl old ↦ rw (added, after, other) old
            | inr r ↦ absurd (
                ground (
                  arith,
                  eq_iff digest key,
                  ap (λ (x : Text × Principal). x.0) (ok-injective (sym read ∙ r)),
                ))
          ]),
        )
      ]

  add_entries_iff :
      (js : List Json) (d d' : Principals) (key : Text) (p : Principal)
      → add_entries lib js d ≡ ok d'
      → (lookup key d' ≡ some p)
        ↔ ((lookup key d ≡ some p) ⊎ ((j : Json) × In j js × (read_entry lib j ≡ ok (key, p))))
  unfolding add_entries
  add_entries_iff [] d d' key p e =
      let same = ok-injective e in
      ((λ h. inl (rw same h)), (λ h. elim h [ inl i ↦ rw (← same) i | inr (_, m, _) ↦ absurd m ]))
  add_entries_iff (j ∷ js) d d' key p e =
      let (more, one, rest) = >>=-eq-ok (add_entry lib j d) _ e in
      let one_more = add_entry_iff j d more key p one in
      let later = add_entries_iff js more d' key p rest in
      (
        (λ h. elim (later.0 h) [
          | inl before ↦ elim (one_more.0 before) [
            | inl older ↦ inl older
            | inr now ↦ inr (j, inl refl, now)
          ]
          | inr (i, m, r) ↦ inr (i, inr m, r)
        ]),
        (λ h. elim h [
          | inl older ↦ later.1 (inl (one_more.1 (inl older)))
          | inr (i, inl same, r) ↦ later.1 (inl (one_more.1 (inr (cc (same, r)))))
          | inr (i, inr m, r) ↦ later.1 (inr (i, m, r))
        ]),
      )

  -- If a configuration is accepted, a nonempty key is taken for a principal exactly when an entry of
  -- the list reads as the digest of the key and that principal; and then the digest is one of 64
  -- hexadecimal digits, and the principal has a tenant and a user.
  pub authenticate_exact :
      (entries : Items) (store : Principals) (c : ℕ) (s : Text) (p : Principal)
      → from_entries lib (array entries) ≡ ok store
      → ((authenticate lib (some (c ∷ s)) store ≡ some p) ↔ (
          (j : Json) × In j (elements entries) × (read_entry lib j ≡ ok (lib.hash_key (c ∷ s), p))))
        × (authenticate lib (some (c ∷ s)) store ≡ some p → IsEntry (lib.hash_key (c ∷ s)) p)
  unfolding from_entries authenticate lookup
  authenticate_exact entries store c s p e =
      let (d, added, kept) = >>=-eq-ok (add_entries lib (elements entries) []) _ e in
      let same : d ≡ store = new_key_store_lem d store kept in
      let known =
        add_entries_iff (elements entries) [] store (lib.hash_key (c ∷ s)) p (added ∙ ap ok same) in
      let found : authenticate lib (some (c ∷ s)) store ≡ some p
          → (j : Json) × In j (elements entries)
            × (read_entry lib j ≡ ok (lib.hash_key (c ∷ s), p)) =
        λ h. elim (known.0 h) [ inl nothing ↦ absurd (empty_lookup nothing) | inr x ↦ x ] in
      (
        (found, λ x. known.1 (inr x)),
        λ h. let (j, m, r) = found h in read_entry-IsEntry j (lib.hash_key (c ∷ s)) p r,
      )
    where
      empty_lookup : lookup (lib.hash_key (c ∷ s)) [] ≡ some p → ⊥
      empty_lookup h = cc
