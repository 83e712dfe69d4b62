-- ===== src/Api/Conversing.antt =====
-- A question writes only what is the caller's.
use production_rag.Base.{
  inr, inl, ℕ, ◌+◌, Bool, true, false, ◌≡◌, ◌≢◌, refl, ap, ◌∙◌, Option, some, List, [], ◌∷◌, ◌++◌,
  arith, Text, eq_iff, ◌==◌, nat_eq, list_eq, pair_eq, lookup-insert_other, inl, inr, append-nil,
  eqb, Bool-cases,
}
use production_rag.Permissions.{Principal}
use production_rag.History.{ChatTurn, History, SessionKey, messages_of, or_default, keep_last}
use production_rag.History
use production_rag.Query.{Scored}
use production_rag.Gateway.Attempts.{Generation}
use production_rag.Observability.Budgets.{DailyTokenBudget, or_zero, used_on, is_exhausted, spend}
use production_rag.Api.{
  Moment, Model, App, Library, Settings, Answer, Request, change, caller, count, Count,
  generation_tokens, degraded_answer,
}
use production_rag.Api.Uploads.{tenant}
use production_rag.Api.Answers.{
  retrieve, check_budget, refuse_exhausted, spend_tokens, account, count_degraded, ask,
  write_answer, search_query,
}
use production_rag.Api.Asking.{
  Found, read_history, append_history, prior_turns, find, remember, reply, answer,
}
use production_rag.Api.Changes.{
  MadeOf-refl, SameCounts, requests, requests-append, IsOther, Own, Keeps, Own-refl, Own-trans,
  Keeps-bind, Keeps-then, Keeps-call, Keeps-refuse_if, Keeps-with_unsafe_refusals, Keeps-pure,
  Keeps-get, Keeps-run, Keeps-change, Keeps-known, Own-rest,
}
use production_rag.Api.Writes.{tenant_lem, caller_lem}

get-elsewhere :
    (h : History) (key k : SessionKey)
    → (key == k) ≡ false
    → messages_of (History.get h key).1 k ≡ messages_of h k
unfolding messages_of History.get
get-elsewhere h key k n = ap or_default (lookup-insert_other key k (messages_of h key) h.messages n)

append-elsewhere :
    (h : History) (key k : SessionKey) (turns : List ChatTurn)
    → (key == k) ≡ false
    → messages_of (History.append h key turns) k ≡ messages_of h k
unfolding messages_of History.append
append-elsewhere h key k turns n =
    ap or_default (
      lookup-insert_other key k (keep_last h.max_messages (messages_of h key ++ turns)) h.messages
        n)

-- The session is the caller's own.
abbrev pub IsOwnKey : Principal → SessionKey → Type 0
IsOwnKey p key = (key.0 ≡ p.tenant_id) × (key.1.0 ≡ p.user_id)

other_key : (p : Principal) (key k : SessionKey) → IsOwnKey p key → IsOther p k → (key == k) ≡ false
other_key p (x, (y, z)) (x', (y', z')) own other = ground (arith, eq_iff x x', eq_iff y y')

other_pair :
    (own day tenant today : Text)
    → tenant ≢ own
    → ◌==◌ {A = Text × Text} (own, day) (tenant, today) ≡ false
other_pair own day tenant today other = ground (arith, eq_iff own tenant)

used-read :
    (own day : Text) (b : DailyTokenBudget) (tenant today : Text)
    → tenant ≢ own
    → used_on (is_exhausted own day b).1 tenant today ≡ used_on b tenant today
unfolding is_exhausted
used-read own day b tenant today other = elim (Bool-cases (eqb b.limit 0)) [
  | inl off ↦ rw off refl
  | inr on ↦ rw on (
      ap or_zero (
        lookup-insert_other (own, day) (tenant, today) (used_on b own day) b.used
          (other_pair own day tenant today other)))
]

used-elsewhere :
    (own day : Text) (n : ℕ) (b : DailyTokenBudget) (tenant today : Text)
    → tenant ≢ own
    → used_on (spend own day n b) tenant today ≡ used_on b tenant today
unfolding spend
used-elsewhere own day n b tenant today other = elim (Bool-cases (eqb b.limit 0)) [
  | inl off ↦ rw off refl
  | inr on ↦ rw on (
      ap or_zero (
        lookup-insert_other (own, day) (tenant, today) (used_on b own day + n) b.used
          (other_pair own day tenant today other)))
]

module _ {G : Type 0} (p : Principal) where
  -- A write of sessions, that of others excepted.
  Own-history :
      (a : App G) (h : History)
      → ((k : SessionKey) → IsOther p k → messages_of h k ≡ messages_of a.history k)
      → Own p a (record a { history = h })
  Own-history a h same = record {
    by_calls = MadeOf-refl p a.memory;
    consistent = λ c. c;
    elsewhere = λ k n. (refl, refl);
    remembered = same;
    spent = λ t d n. refl;
  }

  Own-budget :
      (a : App G) (b : DailyTokenBudget)
      → ((tenant today : Text)
          → tenant ≢ p.tenant_id
          → used_on b tenant today ≡ used_on a.budget tenant today)
      → Own p a (record a { budget = b })
  Own-budget a b same = record {
    by_calls = MadeOf-refl p a.memory;
    consistent = λ c. c;
    elsewhere = λ k n. (refl, refl);
    remembered = λ k n. refl;
    spent = same;
  }

  read_history-Keeps : (key : SessionKey) → IsOwnKey p key → Keeps p (read_history {G = G} key)
  read_history-Keeps key own =
      Keeps-run p _
        (λ a. Own-history a _ (λ k n. get-elsewhere a.history key k (other_key p key k own n)))
        (λ a. refl)

  append_history-Keeps :
      (key : SessionKey) (turns : List ChatTurn)
      → IsOwnKey p key
      → Keeps p (change {G = G} (append_history key turns))
  append_history-Keeps key turns own =
      Keeps-change p _
        (λ a.
          Own-history a _ (λ k n. append-elsewhere a.history key k turns (other_key p key k own n)))
        (λ a. refl)

module _ {G : Type 0} (lib : Library) (s : Settings G) (t : Moment) (p : Principal) where
  ruleset keeping = (
    Keeps-bind, Keeps-then, Keeps-pure, Keeps-call, Keeps-get, Keeps-refuse_if,
    Keeps-with_unsafe_refusals,
  )

  ask-Keeps :
      (m : Model G) (question : Text) (context : List Text) (prior : List ChatTurn)
      → Keeps p (ask lib s t m question context prior)
  ask-Keeps m question context prior = record {
    own = λ a. Own-rest p a _ refl refl refl;
    uncounted = λ a. refl;
  }

  search_query-Keeps :
      (m : Model G) (question : Text) (prior : List ChatTurn)
      → Keeps p (search_query lib s t m question prior)
  unfolding search_query
  search_query-Keeps m question [] = Keeps-pure p _
  search_query-Keeps m question (turn ∷ prior) =
      Keeps-run p _ (λ a. Own-rest p a _ refl refl refl) (λ a. refl)

  retrieve-Keeps : (question : Text) → Keeps p (retrieve lib s t p question)
  unfolding retrieve
  retrieve-Keeps question = search keeping

  find-Keeps :
      (m : Model G) (own question : Text) (prior : List ChatTurn)
      → Keeps p (find lib s t m p own question prior)
  unfolding find
  find-Keeps m own question prior = search (keeping, search_query-Keeps, retrieve-Keeps)

  refuse_exhausted-Keeps : (test : Bool) → Keeps p (refuse_exhausted lib s t test)
  refuse_exhausted-Keeps true = record { own = Own-refl p; uncounted = λ a. refl }
  refuse_exhausted-Keeps false = record { own = Own-refl p; uncounted = λ a. refl }

  check_budget-Keeps : (own_key : Bool) → Keeps p (check_budget lib s t own_key p.tenant_id)
  check_budget-Keeps true = record { own = Own-refl p; uncounted = λ a. refl }
  check_budget-Keeps false = record {
    own = λ a.
        let out = is_exhausted p.tenant_id t.today a.budget in
        Own-trans p a (record a { budget = out.1 }) _
          (Own-budget p a out.1
            (λ tenant today n. used-read p.tenant_id t.today a.budget tenant today n))
          ((refuse_exhausted-Keeps out.0).own (record a { budget = out.1 }));
    uncounted = λ a.
        let out = is_exhausted p.tenant_id t.today a.budget in
        (refuse_exhausted-Keeps out.0).uncounted (record a { budget = out.1 });
  }

  spend_Own :
      (own_key : Bool) (n : ℕ) (a : App G) → Own p a (spend_tokens lib s t own_key p.tenant_id n a)
  spend_Own true n a = Own-refl p a
  spend_Own false n a =
      Own-budget p a _
        (λ tenant today other. used-elsewhere p.tenant_id t.today n a.budget tenant today other)

  count_Own : (c : Count) (a : App G) → Own p a (count c a)
  count_Own c a = Own-rest p a _ refl refl refl

  degraded_Own : (b : Bool) (a : App G) → Own p a (count_degraded lib s t b a)
  degraded_Own true a = count_Own degraded_answer a
  degraded_Own false a = Own-refl p a

  degraded_SameCounts : (b : Bool) (a : App G) → SameCounts p a (count_degraded lib s t b a)
  unfolding requests
  degraded_SameCounts true a = requests-append a.counts (degraded_answer ∷ []) ∙ append-nil _
  degraded_SameCounts false a = refl

  spend_counts :
      (own_key : Bool) (n : ℕ) (a : App G)
      → (spend_tokens lib s t own_key p.tenant_id n a).counts ≡ a.counts
  spend_counts true n a = refl
  spend_counts false n a = refl

  account-Keeps :
      (own_key : Bool) (g : Generation) → Keeps p (change (account lib s t own_key p.tenant_id g))
  unfolding requests
  account-Keeps own_key g =
      let n = g.prompt_tokens + g.completion_tokens in
      Keeps-change p _
        (λ a.
          let b = spend_tokens lib s t own_key p.tenant_id n a in
          let c = count (generation_tokens n g.model) b in
          Own-trans p a b _ (spend_Own own_key n a)
            (Own-trans p b c _ (count_Own _ b) (degraded_Own g.degraded c)))
        (λ a.
          let b = spend_tokens lib s t own_key p.tenant_id n a in
          let c = count (generation_tokens n g.model) b in
          degraded_SameCounts g.degraded c
          ∙ (requests-append b.counts (generation_tokens n g.model ∷ []) ∙ append-nil _)
          ∙ ap requests (spend_counts own_key n a))

  write_answer-Keeps :
      (own_model : Option (Model G)) (question : Text) (prior : List ChatTurn) (es : List Scored)
      → Keeps p (write_answer lib s t own_model p.tenant_id question prior es)
  unfolding write_answer
  write_answer-Keeps own_model question prior [] = Keeps-pure p _
  write_answer-Keeps own_model question prior (e ∷ es) =
      search (keeping, check_budget-Keeps, ask-Keeps, account-Keeps)

  prior_turns-Keeps :
      (is_chat : Bool) (key : SessionKey)
      → IsOwnKey p key
      → Keeps p (prior_turns lib s t is_chat key)
  unfolding prior_turns
  prior_turns-Keeps false key own = Keeps-pure p _
  prior_turns-Keeps true key own = search (keeping, read_history-Keeps)

  remember-Keeps :
      (is_chat : Bool) (key : SessionKey) (f : Found) (r : Answer)
      → IsOwnKey p key
      → Keeps p (remember lib s t is_chat key f r)
  unfolding remember
  remember-Keeps false key f r own = Keeps-pure p _
  remember-Keeps true key f r own = search (keeping, read_history-Keeps, append_history-Keeps)

  reply-Keeps :
      (is_chat : Bool) (question : Text) (key : SessionKey) (own_model : Option (Model G))
      → IsOwnKey p key
      → Keeps p (reply lib s t is_chat p question key own_model)
  unfolding reply
  reply-Keeps is_chat question key own_model own =
      search (keeping, prior_turns-Keeps, find-Keeps, write_answer-Keeps, remember-Keeps)

  own_reply :
      (q : Principal)
      → q ≡ p
      → (is_chat : Bool) (question : Text) (key : SessionKey) (own_model : Option (Model G))
      → (key.0 ≡ p.tenant_id) × (key.1.0 ≡ q.user_id)
      → Keeps p (reply lib s t is_chat q question key own_model)
  own_reply q e is_chat question key own_model own = rw e (
      reply-Keeps is_chat question key own_model
        (own.0, own.1 ∙ ap (λ (q : Principal). q.user_id) e))

  pub answer-Keeps :
      (is_chat : Bool) (request : Request)
      → request.principal ≡ some p
      → Keeps p (answer lib s t is_chat request)
  unfolding answer
  answer-Keeps is_chat request known = Keeps-bind p (Keeps-call p _) (λ question.
      Keeps-known p (caller request.principal) (λ q e. Keeps-known p (tenant lib request) (λ own o.
        Keeps-then p (Keeps-refuse_if p _ _ _) (
          Keeps-bind p (Keeps-call p _) (λ own_model.
            Keeps-bind p
              (own_reply q (caller_lem lib s t p request q known e) is_chat question _ own_model
                (tenant_lem lib s t p request own known o, refl))
              (λ r. Keeps-pure p _))))))
