-- ===== src/Api/Grounded.antt =====
-- An answer to a question says and cites only what its caller may read.
use production_rag.Base.{
  all, Bool-cases, ℕ, Bool, true, false, ◌≡◌, refl, ap, sym, ◌∙◌, ◌↔◌, ◌⊎◌, inl, inr, ok-injective,
  err-injective, Option, some, List, [], ◌∷◌, map, In, Distinct, Text, Result, ok, err, length,
  nat_eq, list_eq,
}
use production_rag.Permissions.{Principal}
use production_rag.Gateway.Attempts.Outcome.{Result-cases}
use production_rag.History.{ChatTurn, SessionKey}
use production_rag.MemoryStore.State.{Store}
use production_rag.MemoryStore.Consistent.{IsConsistent}
use production_rag.MemoryStore.Readable.{IsEvidence}
use production_rag.Gateway.Attempts.{Generation}
use production_rag.Observability.Budgets.{is_exhausted}
use production_rag.Providers.{split_commas, cited_sources}
use production_rag.Providers.Citing.{IsSource, cited_sources_exact}
use production_rag.Query.{Scored, abstention}
use production_rag.Api.{
  Exception, refused, unsafe_query, call, bad_value, unexpected, ApiError, Moment, Model, App,
  Library, Settings, Citation, Answer,
}
use production_rag.Api.Ensures.{
  Refusal, Refusal-of, Ensures-change, Ensures-weaken, Ensures, Ensures-bind, Ensures-then,
  Ensures-pure, Ensures-call, Ensures-run, Ensures-with_unsafe_refusals, Ensures-raises,
}
use production_rag.Api.Answers.{
  ask, reads_markers, too_long, read_written, strip_invalid_citations, Written, written, citation,
  or_unexpected, or_server, is_own, write_answer, check_budget, refuse_exhausted,
  answer_or_abstention,
}
use production_rag.Api.Cited.{Cites, citations_of-Cites, citations_of-returns}
use production_rag.Api.Asking.{Found, is_used, response_of, remember, reply}
use production_rag.Api.Finding.{
  AllReadable, InRange, Stands, no_error, prior_turns-Stands, find-Readable,
}

-- What an answer promises its caller.
pub record IsGrounded (lib : Library) (p : Principal) (st : Store) (r : Answer) : Type 0 where
  pub readable :
      (c : Citation)
      → In c r.citations
      → (e : Scored) × IsEvidence st p e.0 × (c ≡ citation c.source_number e)
  pub once : Distinct (map (λ (c : Citation). c.source_number) r.citations)
  pub named :
      r.grounded ≡ true
      → (count : ℕ) × (map (λ (c : Citation). c.source_number) r.citations
          ≡ cited_sources lib.citing r.answer count)
  pub honest : (r.grounded ≡ true) ↔ ((c : Citation) × In c r.citations)
  pub declines : r.grounded ≡ false → (r.answer ≡ abstention) × (r.citations ≡ [])

no_citations : (cs : List Citation) → map (λ (c : Citation). c.source_number) cs ≡ [] → cs ≡ []
no_citations [] h = refl
no_citations (c ∷ cs) h = cc h

some_citation :
    (n : ℕ) (ns : List ℕ) (cs : List Citation)
    → map (λ (c : Citation). c.source_number) cs ≡ n ∷ ns
    → (c : Citation) × In c cs
some_citation n ns [] h = cc h
some_citation n ns (c ∷ cs) h = (c, inl refl)

some_false :
    {A : Type 0} (q : A → Bool) (xs : List A) → all q xs ≡ false → (x : A) × In x xs × (q x ≡ false)
some_false q [] h = cc h
some_false q (x ∷ xs) h = elim (Bool-cases (q x)) [
  | inl holds ↦ let (y, i, e) = some_false q xs (rw holds at h) in (y, inr i, e)
  | inr fails ↦ (x, inl refl, fails)
]

-- The model that a question is put to gives this.
abbrev pub IsSaid : {G : Type 0} → Model G → Generation → Type 0
IsSaid {G} m g =
    (question : Text) × (context : List Text) × (prior : List ChatTurn) × (w : G) × ((m.complete
        question context prior w).0
      ≡ ok g)

-- A marker of the text holds a number that `int` does not read.
abbrev pub HasLongNumber : Library → Text → Type 0
HasLongNumber lib answer =
    (group : Text) × In group (lib.citing.find_citations answer)
    × (part : Text) × In part (split_commas group)
    × (lib.reads_int part ≡ false)

-- What a question can raise: an `ApiError`, an exception of its model, or the `ValueError` of a
-- number in a marker of the model's text, or of what is left of it, that `int` does not read.
pub data Foreseeable {G : Type 0} (lib : Library) (s : Settings G) (t : Moment)
    (own_model : Option (Model G)) (e : Exception) : Type 0 where
  refusal : (x : ApiError) → e ≡ refused x → Foreseeable lib s t own_model e
  of_model :
      (question : Text) (context : List Text) (prior : List ChatTurn) (w : G)
      → ((or_server s.provider own_model).complete question context prior w).0 ≡ err e
      → Foreseeable lib s t own_model e
  long_number :
      (g : Generation) (n : ℕ)
      → IsSaid (or_server s.provider own_model) g
      → HasLongNumber lib g.text ⊎ HasLongNumber lib (strip_invalid_citations lib s t g.text n)
      → e ≡ too_long lib s t
      → Foreseeable lib s t own_model e

module _ {G : Type 0} (lib : Library) (s : Settings G) (t : Moment) (p : Principal)
    (st : Store) where
  -- An answer that stands on sources of the evidence that its text names, or declines.
  data Backed (es : List Scored) (w : Written) : Type 0 where
    declined : w.used ≡ [] → w.answer ≡ abstention → Backed es w
    named :
        (n : ℕ) (ns : List ℕ)
        → w.used ≡ n ∷ ns
        → w.used ≡ cited_sources lib.citing w.answer (length es)
        → Backed es w

  written-Backed : (es : List Scored) (g : Generation) → Backed es (written lib s t es g)
  written-Backed es g = cases (cited_sources lib.citing _ (length es)) refl
    where
      cases :
          (used : List ℕ) → (written lib s t es g).used ≡ used → Backed es (written lib s t es g)
      cases [] q = declined q (rw q refl)
      cases (n ∷ ns) q = named n ns q (
          sym (
            ap
              (λ (u : List ℕ).
                cited_sources lib.citing
                  (answer_or_abstention (strip_invalid_citations lib s t g.text (length es)) u)
                  (length es))
              q))

  refuse_exhausted-Refusal :
      (test : Bool) (a : App G)
      → Ensures (refuse_exhausted lib s t test) a Refusal (λ u b. Unit {0})
  refuse_exhausted-Refusal true a = record {
    raised = λ e h. Refusal-of (err-injective h) tt;
    ensured = λ x h. tt;
  }
  refuse_exhausted-Refusal false a = record { raised = λ e h. no_error h; ensured = λ x h. tt }

  check_budget-Refusal :
      (own_key : Bool) (own : Text) (a : App G)
      → Ensures (check_budget lib s t own_key own) a Refusal (λ u b. Unit {0})
  check_budget-Refusal true own a = record { raised = λ e h. no_error h; ensured = λ x h. tt }
  check_budget-Refusal false own a =
      let out = is_exhausted own t.today a.budget in
      let r = refuse_exhausted-Refusal out.0 (record a { budget = out.1 }) in
      record { raised = r.raised; ensured = λ x h. tt }

  Refusal-Foreseeable :
      (own_model : Option (Model G)) (e : Exception) → Refusal e → Foreseeable lib s t own_model e
  Refusal-Foreseeable own_model (refused x) h = refusal x refl
  Refusal-Foreseeable own_model (unsafe_query v) h = absurd h
  Refusal-Foreseeable own_model (bad_value v) h = absurd h
  Refusal-Foreseeable own_model unexpected h = absurd h

  unread_marker : (answer : Text) → reads_markers lib s t answer ≡ false → HasLongNumber lib answer
  unread_marker answer h =
      let (group, i, e) = some_false _ (lib.citing.find_citations answer) h in
      let (part, j, f) = some_false lib.reads_int (split_commas group) e in (group, i, part, j, f)

  too_long-raised :
      (e : Exception)
      → ◌≡◌ {A = Result Exception Written} (err (too_long lib s t)) (err e)
      → e ≡ too_long lib s t
  too_long-raised e h = sym (err-injective h)

  read_written-Backed :
      (own_model : Option (Model G)) (es : List Scored) (g : Generation) (a : App G)
      → IsSaid (or_server s.provider own_model) g
      → Ensures
          (call (read_written lib s t es g))
          a
          (Foreseeable lib s t own_model)
          (λ w b. Backed es w)
  unfolding read_written
  read_written-Backed own_model es g a said =
      let kept = strip_invalid_citations lib s t g.text (length es) in
      elim (Bool-cases (reads_markers lib s t g.text)) [
        | inl fits ↦ elim (Bool-cases (reads_markers lib s t kept)) [
          | inl fit ↦
              Ensures-call _ (λ e h. no_error (rw (fits, fit) at h))
                (λ w h.
                  let same = ok-injective (rw (fits, fit) at h) in
                  rw (sym same) (written-Backed es g))
          | inr long ↦
              Ensures-call _
                (λ e h.
                  long_number g (length es) said (inr (unread_marker kept long))
                    (too_long-raised e (rw (fits, long) at h)))
                (λ w h. cc (rw (fits, long) at h))
        ]
        | inr long ↦
            Ensures-call _
              (λ e h.
                long_number g (length es) said (inl (unread_marker g.text long))
                  (too_long-raised e (rw long at h)))
              (λ w h. cc (rw long at h))
      ]

  ask-Foreseeable :
      (own_model : Option (Model G)) (question : Text) (context : List Text) (prior : List ChatTurn)
      (a : App G)
      → Ensures
          (ask lib s t (or_server s.provider own_model) question context prior)
          a
          (Foreseeable lib s t own_model)
          (λ g b. IsSaid (or_server s.provider own_model) g)
  ask-Foreseeable own_model question context prior a = record {
    raised = λ e h. of_model question context prior a.world h;
    ensured = λ g h. (question, context, prior, a.world, h);
  }

  write_answer-Backed :
      (own_model : Option (Model G)) (own question : Text) (prior : List ChatTurn)
      (es : List Scored) (a : App G)
      → Ensures
          (write_answer lib s t own_model own question prior es)
          a
          (Foreseeable lib s t own_model)
          (λ w b. Backed es w)
  unfolding write_answer
  write_answer-Backed own_model own question prior [] a = Ensures-pure _ (declined refl refl)
  write_answer-Backed own_model own question prior (e ∷ es) a =
      Ensures-then _
        (Ensures-raises (check_budget-Refusal (is_own own_model) own a)
          (Refusal-Foreseeable own_model))
        (λ u b q.
          Ensures-bind (λ g c. IsSaid (or_server s.provider own_model) g)
            (ask-Foreseeable own_model question _ prior b)
            (λ g c said.
              Ensures-then (λ u d. Unit {0}) (Ensures-change _ tt)
                (λ u d q. read_written-Backed own_model (e ∷ es) g d said)))

  -- The two answers say and cite the same.
  abbrev SameAnswer : Answer → Answer → Type 0
  SameAnswer r r' =
      (r'.answer ≡ r.answer) × (r'.grounded ≡ r.grounded) × (r'.citations ≡ r.citations)

  remember-SameAnswer :
      (is_chat : Bool) (key : SessionKey) (f : Found) (r : Answer) (a : App G)
      → Ensures (remember lib s t is_chat key f r) a Refusal (λ r' b. SameAnswer r r')
  unfolding remember
  remember-SameAnswer false key f r a = Ensures-pure _ (refl, refl, refl)
  remember-SameAnswer true key f r a =
      Ensures-then (λ u b. Unit {0}) (Ensures-change _ tt)
        (λ u b q.
          Ensures-bind (λ turns c. Unit {0}) (Ensures-run _ tt)
            (λ turns c q. Ensures-pure _ (refl, refl, refl)))

  citations-IsGrounded :
      (own_key : Bool) (es : List Scored) (w : Written) (cs : List Citation)
      → AllReadable st p es
      → Backed es w
      → Cites w.used es cs
      → IsGrounded lib p st (response_of own_key w cs)
  citations-IsGrounded own_key es w cs readable (declined none_used q) cites =
      let nothing = no_citations cs (cites.numbers ∙ none_used) in
      record {
        readable = λ c i. absurd (rw nothing at i);
        once = rw nothing tt;
        named = λ g. cc (g, none_used);
        honest = (λ g. cc (g, none_used), λ m. absurd (rw nothing at m.1));
        declines = λ g. (q, nothing);
      }
  citations-IsGrounded own_key es w cs readable (named n ns used q) cites = record {
    readable = λ c i. let (e, j, same) = cites.sources c i in (e, readable e j, same);
    once = rw (cites.numbers ∙ q) (cited_sources_exact lib.citing (length es) w.answer).0;
    named = λ g. (length es, cites.numbers ∙ q);
    honest = (λ g. some_citation n ns cs (cites.numbers ∙ used), λ m. ap is_used used);
    declines = λ g. cc (g, used);
  }

  same-IsGrounded :
      (r r' : Answer) → SameAnswer r r' → IsGrounded lib p st r → IsGrounded lib p st r'
  same-IsGrounded r r' (e, f, h) g = record {
    readable = rw h g.readable;
    once = rw h g.once;
    named = rw (e, f, h) g.named;
    honest = rw (f, h) g.honest;
    declines = rw (e, f, h) g.declines;
  }

  Backed-IsSource :
      (es : List Scored) (w : Written)
      → Backed es w
      → (n : ℕ) → In n w.used
      → IsSource (length es) n
  Backed-IsSource es w (declined none_used q) n i = absurd (rw none_used at i)
  Backed-IsSource es w (named k ks used q) n i =
      (((cited_sources_exact lib.citing (length es) w.answer).1 n).0 (rw q at i)).0

  reply-IsGrounded :
      (is_chat : Bool) (question : Text) (key : SessionKey) (own_model : Option (Model G))
      (a : App G)
      → IsConsistent st
      → InRange s.gate
      → Stands lib s t p st a
      → Ensures
          (reply lib s t is_chat p question key own_model)
          a
          (Foreseeable lib s t own_model)
          (λ r b. IsGrounded lib p st r)
  unfolding reply
  reply-IsGrounded is_chat question key own_model a v range q0 =
      let refusals = Refusal-Foreseeable own_model in
      let m = or_server s.provider own_model in
      Ensures-bind (λ prior b. Stands lib s t p st b)
        (Ensures-raises (prior_turns-Stands lib s t p st is_chat key a q0) refusals)
        (λ prior b q1.
          Ensures-bind (λ f c. AllReadable st p f.evidence)
            (Ensures-raises
              (Ensures-with_unsafe_refusals 400
                (find-Readable lib s t p st m p.tenant_id question prior b v range q1))
              refusals)
            (λ f c readable.
              Ensures-bind (λ w d. Backed f.evidence w)
                (write_answer-Backed own_model p.tenant_id f.question prior f.evidence c)
                (λ w d backed.
                  let (found, q) =
                    citations_of-returns w.used f.evidence (Backed-IsSource f.evidence w backed) in
                  Ensures-bind (λ cs e. cs ≡ found)
                    (Ensures-call _ (λ e h. no_error (sym (ap or_unexpected q) ∙ h))
                      (λ cs h. ok-injective (sym h ∙ ap or_unexpected q)))
                    (λ cs e same.
                      let cites =
                        citations_of-Cites w.used f.evidence cs (q ∙ ap some (sym same)) in
                      let good =
                        citations-IsGrounded (is_own own_model) f.evidence w cs readable backed
                          cites in
                      Ensures-weaken
                        (Ensures-raises
                          (remember-SameAnswer is_chat key f (response_of (is_own own_model) w cs)
                            e)
                          refusals)
                        (λ r b same. same-IsGrounded _ r same good)))))

module _ {G : Type 0} (lib : Library) (s : Settings G) (t : Moment) (p : Principal) where
  -- From a consistent store, and with the limits of the evidence in range, a question or a turn of a
  -- chat gets an answer or raises an exception: an `ApiError`, or an exception that its model
  -- raises, or the ValueError of a number that is too long for `int`, in a marker of the text that
  -- the model gave or of what is left of it without the markers of other sources; never another.
  -- Each citation of an answer is of a chunk that the caller may read, and no source is cited twice.
  -- The answer is grounded exactly when it cites something, and then the citations are, up to some
  -- number of sources, those that the markers in its own text name; otherwise it is the abstention.
  pub reply_exact :
      (is_chat : Bool) (question : Text) (key : SessionKey) (own_model : Option (Model G))
      (a : App G)
      → IsConsistent a.memory
      → InRange s.gate
      → ((r : Answer) × ((reply lib s t is_chat p question key own_model a).0 ≡ ok r)
          × IsGrounded lib p a.memory r)
        ⊎ ((e : Exception) × ((reply lib s t is_chat p question key own_model a).0 ≡ err e)
            × Foreseeable lib s t own_model e)
  reply_exact is_chat question key own_model a v range =
      let f = reply-IsGrounded lib s t p a.memory is_chat question key own_model a v range refl in
      elim (Result-cases (reply lib s t is_chat p question key own_model a).0) [
        | inl (r, h) ↦ inl (r, h, f.ensured r h)
        | inr (e, h) ↦ inr (e, h, f.raised e h)
      ]
