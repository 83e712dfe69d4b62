-- ===== src/Api/Spending.antt =====
-- Whose tokens an answer spends.
use production_rag.Base.{
  ℕ, ◌+◌, ◌-◌, ◌*◌, ◌≤◌, ◌<◌, ◌≡◌, refl, sym, ap, ◌∙◌, ◌⊎◌, inl, inr, Bool, true, false, none, some,
  List, ◌∷◌, map, arith, Text, text, Result, ok, err, eqb, leb, pair_beq, Bool-cases, if◌then◌else◌,
  lookup-insert, eq_iff, nat_eq, list_eq, pair_eq,
}
use production_rag.History.{ChatTurn}
use production_rag.Gateway.Attempts.{Generation}
use production_rag.Gateway.Attempts.Outcome.{Result-cases}
use production_rag.Observability.Budgets.{
  DailyTokenBudget, is_exhausted, used_on, used-spend, seconds_until_reset,
}
use production_rag.Query.{Scored}
use production_rag.Api.{
  Exception, refused, seconds, Moment, Model, App, Library, Settings, ◌>>=◌, ◌>>◌, change, call,
}
use production_rag.Api.Answers.{
  write_answer, Written, read_written, texts_of, count_degraded, ask, account,
}

-- To read a budget changes no tenant's tokens.
used-is_exhausted :
    (own today : Text) (b : DailyTokenBudget) (tenant day : Text)
    → used_on (is_exhausted own today b).1 tenant day ≡ used_on b tenant day
unfolding is_exhausted
used-is_exhausted own today b tenant day = ground (
  arith,
  lookup-insert (own, today) (tenant, day) (used_on b own today) b.used,
  eq_iff own tenant,
  eq_iff today day,
)

limit-is_exhausted :
    (own today : Text) (b : DailyTokenBudget) → (is_exhausted own today b).1.limit ≡ b.limit
unfolding is_exhausted
limit-is_exhausted own today b = ground arith

exhausted_test :
    (own today : Text) (b : DailyTokenBudget)
    → 0 < b.limit
    → (is_exhausted own today b).0 ≡ leb b.limit (used_on b own today)
unfolding is_exhausted
exhausted_test own today b h = ground arith

-- The tokens that a model reports, if it answers.
abbrev pub tokens_of : Result Exception Generation → ℕ
tokens_of (err x) = 0
tokens_of (ok g) = g.prompt_tokens + g.completion_tokens

-- The sources are put to a model, in the state `w` of the network; what the model raises is raised.
pub record Asks {G : Type 0} (m : Model G) (question : Text) (prior : List ChatTurn)
    (es : List Scored) (w : G) (r : Result Exception Written × App G) : Type 0 where
  pub world : r.1.world ≡ (m.complete question (map (λ (e : Scored). e.0.text) es) prior w).1
  pub raises :
      (x : Exception)
      → (m.complete question (map (λ (e : Scored). e.0.text) es) prior w).0 ≡ err x
      → r.0 ≡ err x

module _ {G : Type 0} (lib : Library) (s : Settings G) (t : Moment) where
  budget-count_degraded :
      (degraded : Bool) (a : App G) → (count_degraded lib s t degraded a).budget ≡ a.budget
  budget-count_degraded true a = refl
  budget-count_degraded false a = refl

  world-count_degraded :
      (degraded : Bool) (a : App G) → (count_degraded lib s t degraded a).world ≡ a.world
  world-count_degraded true a = refl
  world-count_degraded false a = refl

  world-account :
      (own_key : Bool) (own : Text) (g : Generation) (a : App G)
      → (account lib s t own_key own g a).world ≡ a.world
  world-account true own g a = world-count_degraded g.degraded _
  world-account false own g a = world-count_degraded g.degraded _

  module _ (own_key : Bool) (m : Model G) (own question : Text) (prior : List ChatTurn)
      (es : List Scored) (a : App G) where
    -- What `write_answer` does once the budget is checked.
    served : Result Exception Written × App G
    served =
        (ask lib s t m question (texts_of lib s t es) prior >>= λ g.
        (change (account lib s t own_key own g) >> call (read_written lib s t es g)))
          a

    served-Asks : Asks m question prior es a.world served
    unfolding served ◌>>=◌ ◌>>◌ change call
    served-Asks = elim (Result-cases (m.complete question (texts_of lib s t es) prior a.world).0) [
      | inl (g, e) ↦ record {
        world = rw e (world-account own_key own g _);
        raises = λ x h. cc (e, h);
      }
      | inr (x, e) ↦ record { world = rw e refl; raises = λ y h. rw h refl }
    ]

  module _ (m : Model G) (own question : Text) (prior : List ChatTurn) (es : List Scored)
      (a : App G) where
    served-own : (served true m own question prior es a).1.budget ≡ a.budget
    unfolding served ◌>>=◌ ◌>>◌ change call
    served-own = elim (Result-cases (m.complete question (texts_of lib s t es) prior a.world).0) [
      | inl (g, e) ↦ rw e (budget-count_degraded g.degraded _)
      | inr (x, e) ↦ rw e refl
    ]

    served-spends :
        eqb a.budget.limit 0 ≡ false
        → (tenant day : Text)
        → used_on (served false m own question prior es a).1.budget tenant day
          ≡ used_on a.budget tenant day
            + (if pair_beq (own, t.today) (tenant, day)
                then tokens_of (m.complete question (texts_of lib s t es) prior a.world).0
                else 0)
    unfolding served ◌>>=◌ ◌>>◌ change call
    served-spends on tenant day =
        elim (Result-cases (m.complete question (texts_of lib s t es) prior a.world).0) [
          | inl (g, e) ↦ rw e (
              ap (λ b. used_on b tenant day) (budget-count_degraded g.degraded _)
              ∙ used-spend own t.today (g.prompt_tokens + g.completion_tokens) tenant day a.budget
                  on)
          | inr (x, e) ↦ rw e (ground arith)
        ]

  module _ (own question : Text) (prior : List ChatTurn) (e : Scored) (es : List Scored)
      (a : App G) where
    -- The day's tokens are used up: the question is refused, no model is asked, nothing is counted,
    -- and what every tenant used stands.
    pub record IsRefused (r : Result Exception Written × App G) : Type 0 where
      pub used_up : a.budget.limit ≤ used_on a.budget own t.today
      pub status :
          r.0
          ≡ err (
              refused (record {
                status = 429;
                message = text "daily token budget exhausted";
                retry_after = some (seconds (86_400 - (t.hour * 3600 + t.minute * 60 + t.second)));
              }))
      pub world : r.1.world ≡ a.world
      pub counts : r.1.counts ≡ a.counts
      pub used : (tenant day : Text) → used_on r.1.budget tenant day ≡ used_on a.budget tenant day

    -- There are tokens left: the server's model is asked, and the tokens that it reports are added
    -- to what the tenant used on the day, and to nothing else.
    pub record IsSpent (r : Result Exception Written × App G) : Type 0 where
      pub left : used_on a.budget own t.today < a.budget.limit
      pub asks : Asks s.provider question prior (e ∷ es) a.world r
      pub used :
          (tenant day : Text)
          → used_on r.1.budget tenant day
            ≡ used_on a.budget tenant day
              + (if pair_beq (own, t.today) (tenant, day)
                  then tokens_of
                      (s.provider.complete question
                        (map (λ (e : Scored). e.0.text) (e ∷ es))
                        prior
                        a.world).0
                  else 0)

    -- Under a positive daily limit and with evidence: a question to the server's model is refused
    -- with status 429 and the seconds until midnight when the tenant has used up the day's tokens,
    -- and then no model is asked; otherwise the model is asked, and the tokens that it reports are
    -- added to what the tenant used on the day, and to nothing else. A question to the caller's own
    -- model is put to that model in each case, and leaves the budget as it was.
    pub write_answer_budget :
        (m : Model G)
        → 0 < a.budget.limit
        → (IsRefused (write_answer lib s t none own question prior (e ∷ es) a)
            ⊎ IsSpent (write_answer lib s t none own question prior (e ∷ es) a))
          × Asks m question prior
              (e ∷ es)
              a.world
              (write_answer lib s t (some m) own question prior (e ∷ es) a)
          × ((write_answer lib s t (some m) own question prior (e ∷ es) a).1.budget ≡ a.budget)
    unfolding write_answer served ◌>>=◌ ◌>>◌ seconds_until_reset
    write_answer_budget m positive =
        let read = is_exhausted own t.today a.budget in
        let b : App G = record a { budget = read.1 } in
        let test = exhausted_test own t.today a.budget positive in
        let same = used-is_exhausted own t.today a.budget in
        let on : eqb read.1.limit 0 ≡ false =
          rw (limit-is_exhausted own t.today a.budget) (ground arith) in
        (
          elim (Bool-cases read.0) [
            | inl out ↦ inl (
                rw out (record {
                  used_up = ground (arith, sym test ∙ out);
                  status = refl;
                  world = refl;
                  counts = refl;
                  used = same;
                }))
            | inr left ↦ inr (
                rw left (record {
                  left = ground (arith, sym test ∙ left);
                  asks = served-Asks false s.provider own question prior (e ∷ es) b;
                  used = λ tenant day.
                      served-spends s.provider own question prior (e ∷ es) b on tenant day
                      ∙ ap
                          (λ n.
                            n
                            + (if pair_beq (own, t.today) (tenant, day)
                                then tokens_of
                                    (s.provider.complete question
                                      (map (λ (e : Scored). e.0.text) (e ∷ es)) prior a.world).0
                                else 0))
                          (same tenant day);
                }))
          ],
          served-Asks true m own question prior (e ∷ es) a,
          served-own m own question prior (e ∷ es) a,
        )
