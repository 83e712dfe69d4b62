-- ===== src/Query/Evidence.antt =====
-- What the evidence gate lets through, and what a caller gets from it.
use production_rag.Base.{
  ◌*◌, ◌≤◌, ◌≡◌, refl, ap, ◌↔◌, ◌⊎◌, inl, inr, true, false, ◌||◌, some, List, [], ◌∷◌, map, arith,
  Text, In, In-filter, Sub, filter-Sub, take, length, is_empty, ltb, leb, eq_iff, nat_eq, list_eq,
  Result, ok, err, Bool-cases,
}
use native.Mathlib.Nat.{mul-le-mul, mul-le-mul_right}
use production_rag.Permissions.{ValueError}
use production_rag.Documents.{Chunk}
use production_rag.Query.{
  Pipeline, Scored, is_admitted, admitted, best_score, is_close, gate, QueryResult, abstention,
  cite, Matching, trimmed, validate_query, evidence, build_result, query_ranked,
}

best_score_bounds : (cs : List Scored) (c : Scored) → In c cs → c.1 ≤ best_score cs
unfolding best_score
best_score_bounds [] c m = absurd m
best_score_bounds ((d, s) ∷ cs) c (inl e) =
    let q : c.1 ≡ s = ap (λ (x : Scored). x.1) e in omega arith
best_score_bounds ((d, s) ∷ cs) c (inr m) = omega (arith, best_score_bounds cs c m)

best_score_reached :
    (c : Scored) (cs : List Scored) → (d : Scored) × In d (c ∷ cs) × (d.1 ≡ best_score (c ∷ cs))
unfolding best_score
best_score_reached c [] = (c, inl refl, omega arith)
best_score_reached c (e ∷ cs) =
    let (d, m, q) = best_score_reached e cs in
    elim (Bool-cases (leb (best_score (e ∷ cs)) c.1)) [
      | inl above ↦ (c, inl refl, ground arith)
      | inr below ↦ (d, inr m, ground arith)
    ]

best_of : (cs : List Scored) (c : Scored) → In c cs → (d : Scored) × In d cs × (d.1 ≡ best_score cs)
best_of [] c m = absurd m
best_of (b ∷ cs) c m = best_score_reached b cs

module _ (p : Pipeline) (tenant : Text) (found : List Scored) where
  -- A candidate among the first `top_k`, of the caller's tenant and with the least score.
  pub record IsAdmitted (c : Scored) : Type 0 where
    pub ranked : In c (take p.top_k found)
    pub own : c.0.tenant_id ≡ tenant
    pub scored : p.min_score ≤ c.1

  admitted_iff : (c : Scored) → In c (admitted p tenant found) ↔ IsAdmitted c
  unfolding admitted
  admitted_iff c =
      let same = In-filter (is_admitted p tenant) c (take p.top_k found) in
      (
        (λ m.
            let (i, q) = same.0 m in
            record {
              ranked = i;
              own = ground (arith, eq_iff c.0.tenant_id tenant);
              scored = ground arith;
            }),
        (λ a. same.1 (a.ranked, ground (arith, a.own, a.scored, eq_iff c.0.tenant_id tenant))),
      )

  -- What passes the gate: the admitted candidates that are close to every admitted one.
  abbrev pub Passes : Scored → Type 0
  Passes c = IsAdmitted c × ((d : Scored) → IsAdmitted d → d.1 * p.relative_score ≤ c.1 * p.one)

  pub gate_iff : (c : Scored) → In c (gate p tenant found) ↔ Passes c
  unfolding gate
  gate_iff c =
      let passed = admitted p tenant found in
      let same = In-filter (is_close p (best_score passed)) c passed in
      (
        (λ m.
            let (i, close) = same.0 m in
            (
              (admitted_iff c).0 i,
              λ d a.
                  let below = best_score_bounds passed d ((admitted_iff d).1 a) in
                  let scaled = mul-le-mul_right p.relative_score below in ground arith,
            )),
        (λ h.
            let (d, i, best) = best_of passed c ((admitted_iff c).1 h.0) in
            let close = h.1 d ((admitted_iff d).0 i) in
            let scaled = ap (λ n. n * p.relative_score) best in
            same.1 ((admitted_iff c).1 h.0, ground arith)),
      )

  -- The best admitted candidate passes, so the relative gate leaves something if anything is
  -- admitted.
  gate_keeps_best :
      (c : Scored)
      → p.relative_score ≤ p.one
      → IsAdmitted c
      → (d : Scored) × In d (gate p tenant found)
  gate_keeps_best c h a =
      let passed = admitted p tenant found in
      let (d, i, best) = best_of passed c ((admitted_iff c).1 a) in
      (
        d,
        (gate_iff d).1 (
          (admitted_iff d).0 i,
          λ e b.
              let below = best_score_bounds passed e ((admitted_iff e).1 b) in
              mul-le-mul (omega (arith, best, below)) h,
        ),
      )

module _ (m : Matching) (p : Pipeline) where
  -- A question that may be asked: a tenant, and words that are not too long and not an injection.
  pub record IsAsked (question tenant : Text) : Type 0 where
    pub has_tenant : is_empty (trimmed m p tenant) ≡ false
    pub has_words : is_empty (trimmed m p question) ≡ false
    pub short : length (trimmed m p question) ≤ p.max_query_length
    pub harmless : m.is_injection (trimmed m p question) ≡ false

  data Judged (question tenant : Text) (r : Result ValueError Text) : Type 0 where
    asked : IsAsked question tenant → r ≡ ok (trimmed m p question) → Judged question tenant r
    refused : ¬ (IsAsked question tenant) → (e : ValueError) → r ≡ err e → Judged question tenant r

  validate_query-Judged :
      (question tenant : Text) → Judged question tenant (validate_query m p question tenant)
  unfolding validate_query
  validate_query-Judged question tenant =
      let safe = trimmed m p question in
      elim (Bool-cases (is_empty (trimmed m p tenant))) [
        | inl none_given ↦ rw none_given (refused (λ h. cc (h.has_tenant, none_given)) _ refl)
        | inr given ↦ elim (Bool-cases (is_empty safe || ltb p.max_query_length (length safe))) [
          | inl bad ↦ rw (given, bad) (refused (λ h. ground (arith, h.has_words, h.short)) _ refl)
          | inr fits ↦ elim (Bool-cases (m.is_injection safe)) [
            | inl harm ↦ rw (given, fits, harm) (refused (λ h. cc (h.harmless, harm)) _ refl)
            | inr fine ↦
                rw (given, fits, fine)
                  (asked
                    (record {
                      has_tenant = given;
                      has_words = ground arith;
                      short = ground arith;
                      harmless = fine;
                    })
                    refl)
          ]
        ]
      ]

  -- A result made from ranked candidates.
  pub record Answered (tenant : Text) (found : List Scored) (r : QueryResult) : Type 0 where
    pub used : List Scored
    pub in_order : Sub used (admitted p tenant found)
    pub exactly : (c : Scored) → In c used ↔ Passes p tenant found c
    pub cited : r.citations ≡ map cite used
    pub honest : (r.grounded ≡ true) ↔ ((c : Scored) × IsAdmitted p tenant found c)
    pub declined : r.grounded ≡ false → (r.answer ≡ abstention) × (r.citations ≡ [])

  build_result_cited : (es : List Scored) → (build_result m p es).citations ≡ map cite es
  unfolding build_result
  build_result_cited [] = refl
  build_result_cited (e ∷ es) = refl

  build_result_grounded :
      (es : List Scored) → ((build_result m p es).grounded ≡ true) ↔ ((c : Scored) × In c es)
  unfolding build_result
  build_result_grounded [] = (λ h. cc, λ h. absurd h.1)
  build_result_grounded (e ∷ es) = (λ h. (e, inl refl), λ h. refl)

  build_result_declined :
      (es : List Scored)
      → (build_result m p es).grounded ≡ false
      → ((build_result m p es).answer ≡ abstention) × ((build_result m p es).citations ≡ [])
  unfolding build_result
  build_result_declined [] h = (refl, refl)
  build_result_declined (e ∷ es) h = cc

  -- With a relative limit of at most 1, a query over ranked candidates raises exactly when there is
  -- no tenant or the question is blank, too long or an injection. Otherwise its citations are, in
  -- rank order, exactly the candidates that pass: those among the first `top_k` that are the
  -- tenant's and reach the least score, and are within the relative limit of the best of them; it
  -- is grounded exactly when there is such a candidate under the first three conditions, and else
  -- abstains and cites nothing.
  pub query_ranked_exact :
      (chunks : List Chunk) (question tenant : Text) (found : List Scored)
      → p.relative_score ≤ p.one
      → (IsAsked question tenant
          × (r : QueryResult) × (query_ranked m p chunks question tenant (some found) ≡ ok r)
          × Answered tenant found r)
        ⊎ (¬ (IsAsked question tenant)
            × (e : ValueError) × (query_ranked m p chunks question tenant (some found) ≡ err e))
  unfolding query_ranked evidence
  query_ranked_exact chunks question tenant found h =
      let es = gate p tenant found in
      elim (validate_query-Judged question tenant) [
        | refused wrong e q ↦ inr (wrong, e, rw q refl)
        | asked good q ↦ inl (
          good,
          build_result m p es,
          rw q refl,
          record {
            used = es;
            in_order = unfold gate in filter-Sub _ (admitted p tenant found);
            exactly = gate_iff p tenant found;
            cited = build_result_cited es;
            honest = (
              (λ g.
                  let (c, i) = (build_result_grounded es).0 g in
                  (c, ((gate_iff p tenant found c).0 i).0)),
              (λ a. (build_result_grounded es).1 (gate_keeps_best p tenant found a.0 h a.1)),
            );
            declined = build_result_declined es;
          },
        )
      ]
