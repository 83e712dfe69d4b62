-- ===== src/Api/Cited.antt =====
-- Which sources the citations of an answer are of.
use production_rag.Base.{
  ℕ, zero, suc, ◌-◌, ◌≡◌, refl, ap, sym, ◌∙◌, inl, inr, ◌<◌, Option, none, some, List, [], ◌∷◌, map,
  arith, In, length, nat_eq, list_eq,
}
use production_rag.Providers.Citing.{IsSource}
use production_rag.Query.{Scored}
use production_rag.Api.{Citation}
use production_rag.Api.Ensures.{}
use production_rag.Api.Answers.{citation, source_at, citations_of, add_citation}
use production_rag.Api.Finding.{some-injective}

source_at-In : (n : ℕ) (es : List Scored) (e : Scored) → source_at n es ≡ some e → In e es
unfolding source_at
source_at-In n [] e h = cc h
source_at-In zero (d ∷ es) e h = inl (sym (some-injective h))
source_at-In (suc n) (d ∷ es) e h = inr (source_at-In n es e h)

source_at-returns :
    (n : ℕ) (es : List Scored) → n < length es → (e : Scored) × (source_at n es ≡ some e)
unfolding source_at
source_at-returns n [] h = absurd (omega (arith, h))
source_at-returns zero (e ∷ es) h = (e, refl)
source_at-returns (suc n) (e ∷ es) h = source_at-returns n es (omega (arith, h))

-- Each number has its citation, of the source that it numbers.
pub record Cites (ns : List ℕ) (es : List Scored) (cs : List Citation) : Type 0 where
  pub numbers : map (λ (c : Citation). c.source_number) cs ≡ ns
  pub sources :
      (c : Citation) → In c cs → (e : Scored) × (In e es) × (c ≡ citation c.source_number e)

pub citations_of-Cites :
    (ns : List ℕ) (es : List Scored) (cs : List Citation)
    → citations_of ns es ≡ some cs
    → Cites ns es cs
unfolding citations_of
citations_of-Cites [] es cs h =
    rw (sym (some-injective h)) (record { numbers = refl; sources = λ c i. absurd i })
citations_of-Cites (n ∷ ns) es cs h =
    cases (source_at (n - 1) es) (citations_of ns es) refl (citations_of-Cites ns es) h
  where
    more :
        (e : Scored) (rest : List Citation)
        → source_at (n - 1) es ≡ some e
        → Cites ns es rest
        → Cites (n ∷ ns) es (citation n e ∷ rest)
    more e rest q r = record {
      numbers = ap (◌∷◌ n) r.numbers;
      sources = λ c i. elim i [
        | inl here ↦ (
          e,
          source_at-In (n - 1) es e q,
          here ∙ ap (λ (k : ℕ). citation k e) (sym (ap (λ (c : Citation). c.source_number) here)),
        )
        | inr there ↦ r.sources c there
      ];
    }

    cases :
        (o : Option Scored) (rest : Option (List Citation))
        → source_at (n - 1) es ≡ o
        → ((cs : List Citation) → rest ≡ some cs → Cites ns es cs)
        → add_citation n o rest ≡ some cs
        → Cites (n ∷ ns) es cs
    cases none rest q r k = cc k
    cases (some e) none q r k = cc k
    cases (some e) (some rest) q r k = rw (sym (some-injective k)) (more e rest q (r rest refl))

-- Every used number is that of a source, so there is a citation for each.
pub citations_of-returns :
    (ns : List ℕ) (es : List Scored)
    → ((n : ℕ) → In n ns → IsSource (length es) n)
    → (cs : List Citation) × (citations_of ns es ≡ some cs)
unfolding citations_of
citations_of-returns [] es h = ([], refl)
citations_of-returns (n ∷ ns) es h =
    let (rest, q) = citations_of-returns ns es (λ k i. h k (inr i)) in
    let (low, high) = h n (inl refl) in
    let (e, r) = source_at-returns (n - 1) es (omega arith) in (citation n e ∷ rest, rw (r, q) refl)
