-- ===== src/Permissions/Access.antt =====
-- The access rules of permissions.py, and the normal form of an access list.
use production_rag.Base.{
  ◌||◌, is_empty, is_empty, true, false, ◌≡◌, refl, ◌≢◌, ◌↔◌, ◌⊎◌, inl, inr, Option, none, some,
  List, [], ◌∷◌, arith, Text, Unicode, ok, err, eq_iff, nat_eq, list_eq, all, contains,
  contains_iff, In, Distinct, dedup, In-dedup, dedup-Distinct, sort, IsSorted, In-sort,
  sort-IsSorted, sort-Distinct, text_leb, text_leb_total, Bool-cases,
}
use production_rag.Json.{Json, string, array, Items, elements}
use production_rag.Permissions.{
  Principal, AclRow, or_empty, share, can_read_groups, can_read, trim, normalize_groups, names,
  is_name, group_error,
}

-- The two sets have an entry in common.
abbrev pub Shares : List Text → List Text → Type 0
Shares a b = (g : Text) × (In g a) × (In g b)

-- What an access list grants: everything if it is empty, else one shared group.
abbrev pub Grants : List Text → List Text → Type 0
Grants acl groups = (acl ≡ []) ⊎ Shares acl groups

pub share-Shares : (a b : List Text) → share a b ≡ true → Shares a b
share-Shares [] b h = cc
share-Shares (x ∷ a) b h = elim (Bool-cases (contains b x)) [
  | inl seen ↦ (x, inl refl, (contains_iff x b).0 seen)
  | inr new ↦ let (g, i, j) = share-Shares a b (ground arith) in (g, inr i, j)
]

pub Shares-share : (a b : List Text) (g : Text) → In g a → In g b → share a b ≡ true
Shares-share [] b g i j = absurd i
Shares-share (x ∷ a) b g (inl e) j = ground (arith, (contains_iff g b).1 j)
Shares-share (x ∷ a) b g (inr i) j = ground (arith, Shares-share a b g i j)

-- The rule itself, on an access list and the caller's groups.
pub allows_iff :
    (acl groups : List Text) → ((is_empty acl || share acl groups) ≡ true) ↔ Grants acl groups
allows_iff [] groups = (λ h. inl refl, λ h. refl)
allows_iff (x ∷ acl) groups = (
  λ h. inr (share-Shares (x ∷ acl) groups h),
  λ h. elim h [ inl e ↦ cc | inr (g, i, j) ↦ Shares-share (x ∷ acl) groups g i j ],
)

pub can_read_groups_iff :
    (acl : Option (List Text)) (p : Principal)
    → (can_read_groups acl p ≡ true) ↔ Grants (or_empty acl) p.groups
unfolding can_read_groups
can_read_groups_iff acl p = allows_iff (or_empty acl) p.groups

-- A row is readable exactly when it names the caller's tenant and its access list is empty (or
-- missing) or shares a group with the caller.
pub can_read_iff :
    (row : AclRow) (p : Principal)
    → (can_read row p ≡ true)
      ↔ ((row.tenant_id ≡ some p.tenant_id) × Grants (or_empty row.allowed_groups) p.groups)
unfolding can_read
can_read_iff row p = (to row.tenant_id, from row.tenant_id)
  where
    open row use {allowed_groups}

    at : Option Text → AclRow
    at t = record row { tenant_id = t }

    to :
        (t : Option Text)
        → can_read (at t) p ≡ true
        → (t ≡ some p.tenant_id) × Grants (or_empty allowed_groups) p.groups
    to none h = cc
    to (some s) h = (
      ground (arith, eq_iff s p.tenant_id),
      (can_read_groups_iff allowed_groups p).0 (ground arith),
    )

    from :
        (t : Option Text)
        → (t ≡ some p.tenant_id) × Grants (or_empty allowed_groups) p.groups
        → can_read (at t) p ≡ true
    from none h = cc (h.0)
    from (some s) h =
        ground (arith, h.0, eq_iff s p.tenant_id, (can_read_groups_iff allowed_groups p).1 h.1)

module _ (u : Unicode) where
  -- Some string entry of the list is `g` when trimmed.
  abbrev pub Named : Text → List Json → Type 0
  Named g js = (s : Text) × (In (string s) js) × (g ≡ trim u s)

  later : (g : Text) (j : Json) (js : List Json) → Named g js → Named g (j ∷ js)
  later g j js (s, m, e) = (s, inr m, e)

  names-Named : (js : List Json) (g : Text) → In g (names u js) → Named g js
  names-Named [] g m = absurd m
  names-Named (string s ∷ js) g (inl e) = (s, inl refl, e)
  names-Named (string s ∷ js) g (inr m) = later g _ js (names-Named js g m)
  names-Named (j ∷ js) g m = later g _ js (names-Named js g m)

  Named-names : (js : List Json) (s : Text) → In (string s) js → In (trim u s) (names u js)
  Named-names [] s m = absurd m
  Named-names (string t ∷ js) s (inl e) = inl (ground arith)
  Named-names (string t ∷ js) s (inr m) = inr (Named-names js s m)
  Named-names (j ∷ js) s (inl e) = cc
  Named-names (j ∷ js) s (inr m) = Named-names js s m

  names-ne-nil :
      (js : List Json) → all (is_name u) js ≡ true → (g : Text) → In g (names u js) → g ≢ []
  names-ne-nil [] h g m = absurd m
  names-ne-nil (string s ∷ js) h g (inl e) = λ e'. ground arith
  names-ne-nil (string s ∷ js) h g (inr m) = names-ne-nil js (ground arith) g m
  names-ne-nil (j ∷ js) h g m = cc

  -- The normal form of an accepted access list: strictly ascending trimmed names, none of them
  -- empty, and exactly those that the list holds.
  pub record IsNormal (js : List Json) (gs : List Text) : Type 0 where
    pub sorted : IsSorted text_leb gs
    pub distinct : Distinct gs
    pub not_blank : (g : Text) → In g gs → g ≢ []
    pub named : (g : Text) → In g gs → Named g js
    pub complete : (s : Text) → In (string s) js → In (trim u s) gs

  all_names :
      (js : List Json) → all (is_name u) js ≡ false → (j : Json) × (In j js) × (is_name u j ≡ false)
  all_names [] h = cc
  all_names (j ∷ js) h = elim (Bool-cases (is_name u j)) [
    | inl good ↦ let (k, m, e) = all_names js (ground arith) in (k, inr m, e)
    | inr bad ↦ (j, inl refl, bad)
  ]

  IsNormal-sort :
      (js : List Json)
      → all (is_name u) js ≡ true
      → IsNormal js (sort text_leb (dedup (names u js)))
  IsNormal-sort js h = record {
    sorted = sort-IsSorted text_leb text_leb_total (dedup (names u js));
    distinct = sort-Distinct text_leb (dedup (names u js)) (dedup-Distinct (names u js));
    not_blank = λ g m. names-ne-nil js h g (member g m);
    named = λ g m. names-Named js g (member g m);
    complete = λ s m.
        (In-sort text_leb (trim u s) (dedup (names u js))).1
          ((In-dedup (trim u s) (names u js)).1 (Named-names js s m));
  }
    where
      member : (g : Text) → In g (sort text_leb (dedup (names u js))) → In g (names u js)
      member g m = (In-dedup g (names u js)).0 ((In-sort text_leb g (dedup (names u js))).0 m)

  -- A list is accepted with its normal form when every entry is a non-blank string, and is
  -- refused with a `ValueError` when some entry is not.
  pub normalize_groups_array :
      (items : Items)
      → ((gs : List Text) × (normalize_groups u (array items) ≡ ok gs)
          × IsNormal (elements items) gs)
        ⊎ ((j : Json) × (In j (elements items))
            × (is_name u j ≡ false)
            × (normalize_groups u (array items) ≡ err group_error))
  unfolding normalize_groups
  normalize_groups_array items = elim (Bool-cases (all (is_name u) (elements items))) [
    | inl good ↦ inl (_, (rw good), IsNormal-sort (elements items) good)
    | inr bad ↦ let (j, m, e) = all_names (elements items) bad in inr (j, m, e, (rw bad))
  ]
