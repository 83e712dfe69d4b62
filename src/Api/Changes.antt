-- ===== src/Api/Changes.antt =====
-- What a request may change: the relation between the application before and after.
use production_rag.Base.{
  In, In-append, inl, inr, ℕ, Bool, true, false, ◌≡◌, ◌≢◌, refl, sym, ap, ◌∙◌, some, List, [], ◌∷◌,
  ◌++◌, Text, Result, ok, err, nat_eq, list_eq, pair_eq,
}
use production_rag.Permissions.{Principal}
use production_rag.History.{SessionKey, messages_of}
use production_rag.MemoryStore.State.{Key}
use production_rag.MemoryStore.Isolation.{AgreeAt, step-AgreeAt, tenant_of}
use production_rag.MemoryStore.Calls.{Call, step}
use production_rag.MemoryStore.Calls.{run as run_calls}
use production_rag.MemoryStore.Consistent.{IsConsistent, step-IsConsistent}
use production_rag.Observability.Budgets.{used_on}
use production_rag.Api.{
  Store, Exception, Count, http_request, latency, rate_limited, generation_tokens, degraded_answer,
  App, Act, ◌>>=◌, ◌>>◌, pure, call, get, change, run, refuse_if, after, with_refusals,
  with_unsafe_refusals,
}

-- The requests among the counts: route, method and status.
unfoldable pub requests : List Count → List (Text × Text × ℕ)
requests [] = []
requests (http_request name method status ∷ cs) = (name, method, status) ∷ requests cs
requests (latency name elapsed ∷ cs) = requests cs
requests (rate_limited tenant ∷ cs) = requests cs
requests (generation_tokens n model ∷ cs) = requests cs
requests (degraded_answer ∷ cs) = requests cs

pub requests-append : (cs ds : List Count) → requests (cs ++ ds) ≡ requests cs ++ requests ds
unfolding requests
requests-append [] ds = refl
requests-append (http_request name method status ∷ cs) ds = rw (requests-append cs ds) refl
requests-append (latency name elapsed ∷ cs) ds = requests-append cs ds
requests-append (rate_limited tenant ∷ cs) ds = requests-append cs ds
requests-append (generation_tokens n model ∷ cs) ds = requests-append cs ds
requests-append (degraded_answer ∷ cs) ds = requests-append cs ds

-- The session is of another tenant, or of another user.
abbrev pub IsOther : Principal → SessionKey → Type 0
IsOther p k = ¬ ((k.0 ≡ p.tenant_id) × (k.1.0 ≡ p.user_id))

-- A call of the store that is not for another tenant.
abbrev pub IsFor : Principal → Call → Type 0
IsFor p c = (tenant : Text) → tenant_of c ≡ some tenant → tenant ≡ p.tenant_id

-- The store is what a sequence of calls, none of them for another tenant, makes of the one before.
pub record MadeOf (p : Principal) (s s' : Store) : Type 0 where
  pub calls : List Call
  pub own_calls : (c : Call) → In c calls → IsFor p c
  pub made : s' ≡ run_calls s calls

-- The store has changed by calls for the caller's tenant, stays consistent, and what other tenants and other users have is as it was: documents
-- and chunks, sessions, and the tokens that count for the budget.
pub record Own {G : Type 0} (p : Principal) (a b : App G) : Type 0 where
  pub by_calls : MadeOf p a.memory b.memory
  pub consistent : IsConsistent a.memory → IsConsistent b.memory
  pub elsewhere : (k : Key) → k.0 ≢ p.tenant_id → AgreeAt k a.memory b.memory
  pub remembered :
      (k : SessionKey) → IsOther p k → messages_of b.history k ≡ messages_of a.history k
  pub spent :
      (tenant today : Text)
      → tenant ≢ p.tenant_id
      → used_on b.budget tenant today ≡ used_on a.budget tenant today

run-append :
    (s : Store) (cs ds : List Call) → run_calls s (cs ++ ds) ≡ run_calls (run_calls s cs) ds
unfolding run_calls
run-append s [] ds = refl
run-append s (c ∷ cs) ds = run-append (step s c) cs ds

pub MadeOf-refl : (p : Principal) (s : Store) → MadeOf p s s
unfolding run_calls
MadeOf-refl p s = record { calls = []; own_calls = λ c i. absurd i; made = refl }

MadeOf-one : (p : Principal) (s : Store) (c : Call) → IsFor p c → MadeOf p s (step s c)
unfolding run_calls
MadeOf-one p s c own = record {
  calls = c ∷ [];
  own_calls = λ d i. elim i [ inl e ↦ rw e own | inr j ↦ absurd j ];
  made = refl;
}

MadeOf-trans : (p : Principal) (s t u : Store) → MadeOf p s t → MadeOf p t u → MadeOf p s u
MadeOf-trans p s t u f g = record {
  calls = f.calls ++ g.calls;
  own_calls = λ c i. elim ((In-append c f.calls g.calls).0 i) [
    | inl j ↦ f.own_calls c j
    | inr j ↦ g.own_calls c j
  ];
  made =
      g.made ∙ ap (λ (x : Store). run_calls x g.calls) f.made ∙ sym (run-append s f.calls g.calls);
}

module _ {G : Type 0} (p : Principal) where
  abbrev pub SameCounts : App G → App G → Type 0
  SameCounts a b = requests b.counts ≡ requests a.counts

  -- A statement that writes only what is the caller's, and counts no request.
  pub record Keeps {A : Type 0} (m : Act G A) : Type 0 where
    pub own : (a : App G) → Own p a (m a).1
    pub uncounted : (a : App G) → SameCounts a (m a).1

  pub Own-refl : (a : App G) → Own p a a
  Own-refl a = record {
    by_calls = MadeOf-refl p a.memory;
    consistent = λ c. c;
    elsewhere = λ k n. (refl, refl);
    remembered = λ k n. refl;
    spent = λ t d n. refl;
  }

  pub Own-trans : (a b c : App G) → Own p a b → Own p b c → Own p a c
  Own-trans a b c f g = record {
    by_calls = MadeOf-trans p a.memory b.memory c.memory f.by_calls g.by_calls;
    consistent = λ h. g.consistent (f.consistent h);
    elsewhere = λ k n.
        ((g.elsewhere k n).0 ∙ (f.elsewhere k n).0, (g.elsewhere k n).1 ∙ (f.elsewhere k n).1);
    remembered = λ k n. g.remembered k n ∙ f.remembered k n;
    spent = λ t d n. g.spent t d n ∙ f.spent t d n;
  }

  after-Own :
      {A B : Type 0} (a : App G) (out : Result Exception A × App G) (k : A → Act G B)
      → Own p a out.1
      → ((x : A) → Keeps (k x))
      → Own p a (after out k).1
  after-Own a (ok x, b) k f g = Own-trans a b (k x b).1 f ((g x).own b)
  after-Own a (err e, b) k f g = f

  after-SameCounts :
      {A B : Type 0} (a : App G) (out : Result Exception A × App G) (k : A → Act G B)
      → SameCounts a out.1
      → ((x : A) → Keeps (k x))
      → SameCounts a (after out k).1
  after-SameCounts a (ok x, b) k f g = (g x).uncounted b ∙ f
  after-SameCounts a (err e, b) k f g = f

  pub Keeps-bind :
      {A B : Type 0} {m : Act G A} {k : A → Act G B}
      → Keeps m
      → ((x : A) → Keeps (k x))
      → Keeps (m >>= k)
  unfolding ◌>>=◌
  Keeps-bind {A} {B} {m} {k} h g = record {
    own = λ a. after-Own a (m a) k (h.own a) g;
    uncounted = λ a. after-SameCounts a (m a) k (h.uncounted a) g;
  }

  pub Keeps-then : {A B : Type 0} {m : Act G A} {k : Act G B} → Keeps m → Keeps k → Keeps (m >> k)
  unfolding ◌>>◌
  Keeps-then {A} {B} {m} {k} h g = record {
    own = λ a. after-Own a (m a) (λ x. k) (h.own a) (λ x. g);
    uncounted = λ a. after-SameCounts a (m a) (λ x. k) (h.uncounted a) (λ x. g);
  }

  pub Keeps-pure : {A : Type 0} (x : A) → Keeps (pure x)
  unfolding pure
  Keeps-pure x = record { own = Own-refl; uncounted = λ a. refl }

  pub Keeps-call : {A : Type 0} (r : Result Exception A) → Keeps (call r)
  unfolding call
  Keeps-call r = record { own = Own-refl; uncounted = λ a. refl }

  -- What follows a call knows its result.
  pub Keeps-known :
      {A B : Type 0} (r : Result Exception A) {k : A → Act G B}
      → ((x : A) → r ≡ ok x → Keeps (k x))
      → Keeps (call r >>= k)
  unfolding call ◌>>=◌
  Keeps-known (ok x) h = record { own = (h x refl).own; uncounted = (h x refl).uncounted }
  Keeps-known (err e) h = record { own = Own-refl; uncounted = λ a. refl }

  pub Keeps-get : {A : Type 0} (f : App G → A) → Keeps (get f)
  unfolding get
  Keeps-get f = record { own = Own-refl; uncounted = λ a. refl }

  refuse_if-same :
      (test : Bool) (status : ℕ) (message : Text) (a : App G)
      → (refuse_if test status message a).1 ≡ a
  unfolding refuse_if
  refuse_if-same true status message a = refl
  refuse_if-same false status message a = refl

  pub Keeps-refuse_if :
      (test : Bool) (status : ℕ) (message : Text) → Keeps (refuse_if test status message)
  Keeps-refuse_if test status message = record {
    own = λ a. rw (refuse_if-same test status message a) (Own-refl a);
    uncounted = λ a. rw (refuse_if-same test status message a) refl;
  }

  pub Keeps-with_refusals :
      {A : Type 0} (status : ℕ) {m : Act G A} → Keeps m → Keeps (with_refusals status m)
  unfolding with_refusals
  Keeps-with_refusals status h = record { own = h.own; uncounted = h.uncounted }

  pub Keeps-with_unsafe_refusals :
      {A : Type 0} (status : ℕ) {m : Act G A} → Keeps m → Keeps (with_unsafe_refusals status m)
  unfolding with_unsafe_refusals
  Keeps-with_unsafe_refusals status h = record { own = h.own; uncounted = h.uncounted }

  pub Keeps-change :
      (f : App G → App G)
      → ((a : App G) → Own p a (f a))
      → ((a : App G) → SameCounts a (f a))
      → Keeps (change f)
  unfolding change
  Keeps-change f h c = record { own = h; uncounted = c }

  pub Keeps-run :
      {A : Type 0} (f : App G → A × App G)
      → ((a : App G) → Own p a (f a).1)
      → ((a : App G) → SameCounts a (f a).1)
      → Keeps (run f)
  unfolding run
  Keeps-run f h c = record { own = h; uncounted = c }

  -- A write of the store alone, by such a call.
  pub Own-memory :
      (c : Call) (a : App G) → IsFor p c → Own p a (record a { memory = step a.memory c })
  Own-memory c a own = record {
    by_calls = MadeOf-one p a.memory c own;
    consistent = step-IsConsistent a.memory c;
    elsewhere = λ k n. step-AgreeAt a.memory c k (λ e. n (own k.0 (sym e)));
    remembered = λ k n. refl;
    spent = λ t d n. refl;
  }

  -- A write of what is neither a document, nor a session, nor the budget.
  pub Own-rest :
      (a b : App G) → b.memory ≡ a.memory → b.history ≡ a.history → b.budget ≡ a.budget → Own p a b
  Own-rest a b m h u = record {
    by_calls = rw m (MadeOf-refl p a.memory);
    consistent = λ c. rw m c;
    elsewhere = λ k n. (rw m refl, rw m refl);
    remembered = λ k n. rw h refl;
    spent = λ t d n. rw u refl;
  }
