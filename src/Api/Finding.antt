-- ===== src/Api/Finding.antt =====
-- The evidence for a question is what its caller may read.
use production_rag.Base.{
  refl, ◌<◌, ◌≤◌, arith, eqb, ltb, Bool, true, false, ◌≡◌, ap, sym, ◌∙◌, ok-injective,
  err-injective, Option, none, some, List, [], ◌∷◌, map, In, In-take, In-sort, In-filter, In_of_map,
  Text, Result, ok, err, >>=-eq-ok, filter, sort, ◌==◌, nat_eq, list_eq,
}
use production_rag.Permissions.{Principal, ValueError}
use production_rag.Documents.{Chunk}
use production_rag.History.{ChatTurn, SessionKey}
use production_rag.MemoryStore.State.{Store}
use production_rag.MemoryStore.Reads.{readable_chunks}
use production_rag.MemoryStore.Consistent.{IsConsistent}
use production_rag.MemoryStore.Readable.{IsEvidence, readable_chunks_exact}
use production_rag.Query.{
  Scored, Matching, validate_query, new_pipeline, evidence, gate, candidates, abstention,
  ranks_before,
}
use production_rag.Query
use production_rag.Query.Evidence.{gate_iff}
use production_rag.Api.{Exception, Moment, Model, App, Library, Settings, lift, lift_unsafe}
use production_rag.Api.Ensures.{
  Refusal, Foreseen, Ensures, Ensures-bind, Ensures-pure, Ensures-call, Ensures-get, Ensures-run,
}
use production_rag.Api.Answers.{or_unexpected, retrieve, search_query}
use production_rag.Api.Asking.{prior_turns, find}

evidence-In :
    (m : Matching) (p : Query.Pipeline) (chunks : List Chunk) (question tenant : Text)
    (es : List Scored) (e : Scored)
    → evidence m p chunks question tenant none ≡ ok es
    → In e es
    → In e.0 chunks
unfolding evidence Query.retrieve
evidence-In m p chunks question tenant es e h i =
    let (safe, h1, h2) = >>=-eq-ok (validate_query m p question tenant) _ h in
    let scored =
      map (λ (c : Chunk). (c, m.lexical_score safe c.text))
        (filter (λ (c : Chunk). c.tenant_id == tenant) chunks) in
    let found = candidates m p chunks safe tenant none in
    let passes = (gate_iff p tenant found e).0 (rw (sym (ok-injective h2)) at i) in
    let ranked =
      In-take e p.top_k (sort ranks_before scored) (In-take e p.top_k found passes.0.ranked) in
    let (c, j, same) = In_of_map _ e _ ((In-sort ranks_before e scored).0 ranked) in
    rw (ap (λ (x : Scored). x.0) same) ((In-filter _ c chunks).0 j).0

pub no_error :
    {A B : Type 0} {x : A} {e : Exception} → ◌≡◌ {A = Result Exception A} (ok x) (err e) → B
no_error h = cc h

lift_unsafe-Foreseen :
    {A : Type 0} (r : Result ValueError A) (e : Exception) → lift_unsafe r ≡ err e → Foreseen e
lift_unsafe-Foreseen (ok x) e h = cc h
lift_unsafe-Foreseen (err x) e h = rw (sym (err-injective h)) tt

lift_unsafe-eq-ok : {A : Type 0} (r : Result ValueError A) (x : A) → lift_unsafe r ≡ ok x → r ≡ ok x
lift_unsafe-eq-ok (ok y) x h = cc h
lift_unsafe-eq-ok (err e) x h = cc h

-- Each of these is a text of evidence that the caller may read.
abbrev pub AllReadable : Store → Principal → List Scored → Type 0
AllReadable st p es = (e : Scored) → In e es → IsEvidence st p e.0

pub some-injective : {A : Type 0} {a b : A} → ◌≡◌ {A = Option A} (some a) (some b) → a ≡ b
some-injective h = cc h

-- The limits of the evidence are in range, so that the constructor of the pipeline takes them.
abbrev pub InRange : Query.Pipeline → Type 0
InRange limits =
    (0 < limits.top_k)
    × (limits.min_score ≤ limits.one)
    × (limits.relative_score ≤ limits.one)
    × (0 < limits.max_query_length)

in_range :
    (limits : Query.Pipeline)
    → InRange limits
    → new_pipeline limits.one limits.top_k limits.min_score limits.relative_score
        limits.max_query_length
      ≡ ok limits
unfolding new_pipeline
in_range limits (a, b, c, d) =
    let e : eqb limits.top_k 0 ≡ false = ground arith in
    let f : ltb limits.one limits.min_score ≡ false = ground arith in
    let g : ltb limits.one limits.relative_score ≡ false = ground arith in
    let h : eqb limits.max_query_length 0 ≡ false = ground arith in rw (e, f, g, h) refl

module _ {G : Type 0} (lib : Library) (s : Settings G) (t : Moment) (p : Principal)
    (st : Store) where
  -- The store stands as it was when the request came.
  abbrev pub Stands : App G → Type 0
  Stands a = a.memory ≡ st

  retrieve-Readable :
      (question : Text) (a : App G)
      → IsConsistent st
      → InRange s.gate
      → Stands a
      → Ensures (retrieve lib s t p question) a Foreseen (λ es b. AllReadable st p es)
  unfolding retrieve
  retrieve-Readable question a v range same =
      let limits = in_range s.gate range in
      let (cs, returns, exact) = readable_chunks_exact st p v in
      Ensures-bind (λ stored b. stored ≡ some cs)
        (Ensures-get _ (ap (λ (m : Store). readable_chunks m p) same ∙ returns))
        (λ stored b q.
          Ensures-bind (λ chunks c. chunks ≡ cs)
            (Ensures-call _ (λ e h. no_error (sym (ap or_unexpected q) ∙ h))
              (λ chunks h. ok-injective (sym h ∙ ap or_unexpected q)))
            (λ chunks c all_of.
              Ensures-bind (λ taken d. Unit {0})
                (Ensures-call _ (λ e h. no_error (sym (ap lift limits) ∙ h)) (λ taken h. tt))
                (λ taken d q. Ensures-call _ (lift_unsafe-Foreseen _) (λ es h e i. (exact e.0).0 (
                  rw all_of at (
                    evidence-In lib.matching taken chunks question p.tenant_id es e
                      (lift_unsafe-eq-ok _ es h) i))))))

  pub prior_turns-Stands :
      (is_chat : Bool) (key : SessionKey) (a : App G)
      → Stands a
      → Ensures (prior_turns lib s t is_chat key) a Refusal (λ prior b. Stands b)
  unfolding prior_turns
  prior_turns-Stands false key a q = Ensures-pure _ q
  prior_turns-Stands true key a q =
      Ensures-bind (λ turns b. Stands b) (Ensures-run _ q) (λ turns b r. Ensures-pure _ r)

  search_query-Stands :
      (m : Model G) (question : Text) (prior : List ChatTurn) (a : App G)
      → Stands a
      → Ensures (search_query lib s t m question prior) a Foreseen (λ query b. Stands b)
  unfolding search_query
  search_query-Stands m question [] a q = Ensures-pure _ q
  search_query-Stands m question (turn ∷ prior) a q = Ensures-run _ q

  pub find-Readable :
      (m : Model G) (own question : Text) (prior : List ChatTurn) (a : App G)
      → IsConsistent st
      → InRange s.gate
      → Stands a
      → Ensures
          (find lib s t m p own question prior)
          a
          Foreseen
          (λ f b. AllReadable st p f.evidence)
  unfolding find
  find-Readable m own question prior a v range q0 =
      Ensures-bind (λ safe b. Stands b) (Ensures-call _ (lift_unsafe-Foreseen _) (λ x h. q0))
        (λ safe b q1.
          Ensures-bind (λ query c. Stands c) (search_query-Stands m safe prior b q1)
            (λ query c q2.
              Ensures-bind (λ es d. AllReadable st p es) (retrieve-Readable query c v range q2)
                (λ es d r. Ensures-pure _ r)))
