-- ===== src/MemoryStore/Readable.antt =====
-- Which chunks `readable_chunks` hands to retrieval.
use production_rag.Base.{
  ap, sym, true, false, ◌≡◌, refl, ◌↔◌, ◌⊎◌, inl, inr, Option, none, some, List, [], ◌∷◌, ◌++◌,
  arith, Text, eq_iff, nat_eq, list_eq, pair_eq, In, In-append, lookup_of_In, In_of_lookup,
  Bool-cases, Dict, lookup,
}
use production_rag.Permissions.{Principal}
use production_rag.Permissions.Access.{Grants, can_read_groups_iff}
use production_rag.Documents.{Chunk}
use production_rag.MemoryStore.State.{Key, Meta, Store, ready}
use production_rag.MemoryStore.Reads.{
  is_readable, renamed, renamed_all, collect_chunks, readable_chunks,
}
use production_rag.MemoryStore.Consistent.{IsConsistent, HasChunks}

-- The document of the caller's tenant is current, and its access list lets the caller in.
abbrev pub MayRead : Principal → Key → Meta → Type 0
MayRead p k m = (k.0 ≡ p.tenant_id) × (m.status ≡ ready) × Grants m.allowed_groups p.groups

-- `c` is a chunk of such a document, under the document's present name.
pub record IsEvidence (s : Store) (p : Principal) (c : Chunk) : Type 0 where
  pub key : Key
  pub meta : Meta
  pub held : List Chunk
  pub original : Chunk
  pub stands : lookup key s.documents ≡ some meta
  pub may_read : MayRead p key meta
  pub has : lookup key s.chunks ≡ some held
  pub member : In original held
  pub as_named : c ≡ record original { source = meta.source }

is_readable_iff : (p : Principal) (k : Key) (m : Meta) → (is_readable p k m ≡ true) ↔ MayRead p k m
is_readable_iff p (t, d) m = (
  λ h. (
    ground (arith, eq_iff t p.tenant_id),
    ground arith,
    (can_read_groups_iff (some m.allowed_groups) p).0 (ground arith),
  ),
  λ h. ground (arith, eq_iff t p.tenant_id, (can_read_groups_iff (some m.allowed_groups) p).1),
)

renamed_lem : (c : Chunk) (source : Text) → renamed c source ≡ record c { source = source }
renamed_lem c source = ground (arith, eq_iff c.source source)

-- `c` is one of the chunks under another name.
abbrev Renamed : Chunk → Text → List Chunk → Type 0
Renamed c source cs = (o : Chunk) × (In o cs) × (c ≡ record o { source = source })

In-renamed_all :
    (c : Chunk) (source : Text) (cs : List Chunk)
    → In c (renamed_all source cs)
    → Renamed c source cs
In-renamed_all c source [] m = absurd m
In-renamed_all c source (o ∷ cs) (inl e) = (o, inl refl, cc (e, renamed_lem o source))
In-renamed_all c source (o ∷ cs) (inr m) =
    let (o', i, e) = In-renamed_all c source cs m in (o', inr i, e)

In_of_renamed :
    (source : Text) (cs : List Chunk) (o : Chunk)
    → In o cs
    → In (record o { source = source }) (renamed_all source cs)
In_of_renamed source [] o m = absurd m
In_of_renamed source (x ∷ cs) o (inl e) = inl (rw e (sym (renamed_lem x source)))
In_of_renamed source (x ∷ cs) o (inr m) = inr (In_of_renamed source cs o m)

module _ (p : Principal) (chunks : Dict Key (List Chunk)) where
  abbrev Backed : Dict Key Meta → Type 0
  Backed d = (k : Key) (m : Meta) → In (k, m) d → HasChunks m (lookup k chunks)

  -- `IsEvidence`, over a part of the documents.
  record Found (d : Dict Key Meta) (c : Chunk) : Type 0 where
    key : Key
    meta : Meta
    held : List Chunk
    stands : In (key, meta) d
    may_read : MayRead p key meta
    has : lookup key chunks ≡ some held
    renames : Renamed c meta.source held

  record Collects (d : Dict Key Meta) : Type 0 where
    out : List Chunk
    returns : collect_chunks p chunks d ≡ some out
    sound : (c : Chunk) → In c out → Found d c
    complete : (c : Chunk) → Found d c → In c out

  later : (e : Key × Meta) (d : Dict Key Meta) (c : Chunk) → Found d c → Found (e ∷ d) c
  later e d c f = record {
    key = f.key;
    meta = f.meta;
    held = f.held;
    stands = inr f.stands;
    may_read = f.may_read;
    has = f.has;
    renames = f.renames;
  }

  -- A document that is found at the head is the head.
  at_head :
      (k : Key) (m : Meta) (d : Dict Key Meta) (c : Chunk) (f : Found ((k, m) ∷ d) c)
      → ((f.key ≡ k) × (f.meta ≡ m)) ⊎ Found d c
  at_head k m d c f = elim f.stands [
    | inl e ↦ inl (ap (λ (t : Key × Meta). t.0) e, ap (λ (t : Key × Meta). t.1) e)
    | inr i ↦ inr (record {
      key = f.key;
      meta = f.meta;
      held = f.held;
      stands = i;
      may_read = f.may_read;
      has = f.has;
      renames = f.renames;
    })
  ]

  unread :
      (k : Key) (m : Meta) (d : Dict Key Meta)
      → is_readable p k m ≡ false
      → Collects d
      → Collects ((k, m) ∷ d)
  unfolding collect_chunks
  unread k m d no_read r = record {
    out = r.out;
    returns = rw no_read r.returns;
    sound = λ c i. later (k, m) d c (r.sound c i);
    complete = λ c f. elim (at_head k m d c f) [
      | inl (ek, em) ↦ absurd (ground (arith, (is_readable_iff p f.key f.meta).1 f.may_read))
      | inr g ↦ r.complete c g
    ];
  }

  named :
      (k : Key) (m : Meta) (d : Dict Key Meta) (held : List Chunk) (c : Chunk)
      (f : Found ((k, m) ∷ d) c)
      → lookup k chunks ≡ some held
      → f.key ≡ k
      → f.meta ≡ m
      → In c (renamed_all m.source held)
  named k m d held c f has ek em =
      let (o, i, e) = f.renames in
      let same : f.held ≡ held = ground (arith, f.has, has, ek) in
      let named_m : c ≡ record o { source = m.source } = cc (e, em) in
      rw named_m (In_of_renamed m.source held o (rw same at i))

  read :
      (k : Key) (m : Meta) (d : Dict Key Meta) (held : List Chunk)
      → is_readable p k m ≡ true
      → lookup k chunks ≡ some held
      → Collects d
      → Collects ((k, m) ∷ d)
  unfolding collect_chunks
  read k m d held may has r = record {
    out = renamed_all m.source held ++ r.out;
    returns = ground (arith, r.returns);
    sound = λ c i. elim ((In-append c (renamed_all m.source held) r.out).0 i) [
      | inl here ↦ record {
        key = k;
        meta = m;
        held = held;
        stands = inl refl;
        may_read = (is_readable_iff p k m).0 may;
        has = has;
        renames = In-renamed_all c m.source held here;
      }
      | inr there ↦ later (k, m) d c (r.sound c there)
    ];
    complete = λ c f. (In-append c (renamed_all m.source held) r.out).1 (elim (at_head k m d c f) [
      | inl (ek, em) ↦ inl (named k m d held c f has ek em)
      | inr g ↦ inr (r.complete c g)
    ]);
  }

  head_backed :
      (k : Key) (m : Meta) (d : Dict Key Meta)
      → Collects d
      → (o : Option (List Chunk)) → lookup k chunks ≡ o
      → HasChunks m o
      → Collects ((k, m) ∷ d)
  head_backed k m d r none e h = absurd h
  head_backed k m d r (some held) e h = elim (Bool-cases (is_readable p k m)) [
    | inl may ↦ read k m d held may e r
    | inr hidden ↦ unread k m d hidden r
  ]

  collect : (d : Dict Key Meta) → Backed d → Collects d
  unfolding collect_chunks
  collect [] b = record {
    out = [];
    returns = refl;
    sound = λ c i. absurd i;
    complete = λ c f. absurd f.stands;
  }
  collect ((k, m) ∷ d) b =
      head_backed k m d (collect d (λ j n i. b j n (inr i))) (lookup k chunks) refl
        (b k m (inl refl))

-- On a consistent store `readable_chunks` never fails on a document with no chunks, and hands out
-- exactly the chunks, under their documents' present names, of the caller's tenant's current
-- documents whose access list is empty or shares a group with the caller.
pub readable_chunks_exact :
    (s : Store) (p : Principal)
    → IsConsistent s
    → (cs : List Chunk) × (readable_chunks s p ≡ some cs)
      × ((c : Chunk) → In c cs ↔ IsEvidence s p c)
unfolding readable_chunks
readable_chunks_exact s p v = (r.out, r.returns, λ c. (to c, from c))
  where
    open s use {documents, chunks}

    r : Collects p chunks documents
    r = collect p chunks documents (λ k m i. v.backed k m (lookup_of_In k m documents v.unique i))

    to : (c : Chunk) → In c r.out → IsEvidence s p c
    to c i =
        let f = r.sound c i in
        let (o, j, e) = f.renames in
        record {
          key = f.key;
          meta = f.meta;
          held = f.held;
          original = o;
          stands = lookup_of_In f.key f.meta documents v.unique f.stands;
          may_read = f.may_read;
          has = f.has;
          member = j;
          as_named = e;
        }

    from : (c : Chunk) → IsEvidence s p c → In c r.out
    from c w = r.complete c (record {
      key = w.key;
      meta = w.meta;
      held = w.held;
      stands = In_of_lookup w.key w.meta documents w.stands;
      may_read = w.may_read;
      has = w.has;
      renames = (w.original, w.member, w.as_named);
    })
