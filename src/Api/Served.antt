-- ===== src/Api/Served.antt =====
-- What any request does to the application, whatever it asks for.
use production_rag.Base.{
  ℕ, Bool, true, false, ◌||◌, ◌≡◌, refl, ap, sym, ◌∙◌, ◌⊎◌, inl, inr, ok-injective, Option, none,
  some, List, [], ◌∷◌, arith, In, all, Text, ok, ◌==◌, nat_eq, list_eq, Dict, append-nil,
  if◌then◌else◌,
}
use production_rag.Permissions.{Principal}
use production_rag.Observability.Bucket.{go_on, wait, acquire}
use production_rag.Observability.Bucket
use production_rag.Api.{Moment, App, Library, Settings, Request, rate_limited}
use production_rag.Api.Routing.{
  Handler, to_live, to_ready, to_me, to_test_llm, to_list, to_create, to_get, to_delete, to_update,
  to_query, to_chat, to_submit, to_get_job, Route, routes, Search, goes_to, not_allowed, not_found,
  find_route, full_match, this_or_later, fits, handler_of, authenticated, limit_answer, limit_rate,
  dispatch, enter, go, search, route_request,
}
use production_rag.Api.Changes.{
  SameCounts, requests, requests-append, Own, Keeps, Own-refl, Keeps-bind, Keeps-then, Keeps-call,
  Keeps-refuse_if, Keeps-known, Own-rest,
}
use production_rag.Api.Writes.{
  live-Keeps, ready-Keeps, me-Keeps, list_all-Keeps, get_one-Keeps, get_job-Keeps, submit_job-Keeps,
  test_llm-Keeps, delete_one-Keeps, update_one-Keeps,
}
use production_rag.Api.Storing.{IsTrimmed, create_document-Keeps}
use production_rag.Api.Conversing.{answer-Keeps}

-- Routes that need no key: the two probes.
abbrev pub is_probe : Handler → Bool
is_probe to_live = true
is_probe to_ready = true
is_probe h = false

abbrev pub is_guarded : Route → Bool
is_guarded r = r.requires_auth || is_probe r.handler

pub data Goes (rs : List Route) (found : Search) : Type 0 where
  goes : (r : Route) (params : Text) → In r rs → found ≡ goes_to r params → Goes rs found
  stays : (found ≡ not_allowed) ⊎ (found ≡ not_found) → Goes rs found

pub find_route-Goes :
    (method path : Text) (seen : Bool) (rs : List Route) → Goes rs (find_route method path seen rs)
unfolding find_route
find_route-Goes method path true [] = stays (inl refl)
find_route-Goes method path false [] = stays (inr refl)
find_route-Goes method path seen (r ∷ rs) =
    here (full_match r.pattern path)
      (find_route-Goes method path (seen || fits (full_match r.pattern path)) rs)
  where
    later : {found : Search} → Goes rs found → Goes (r ∷ rs) found
    later (goes q params i e) = goes q params (inr i) e
    later (stays e) = stays e

    matched :
        (b : Bool) (params : Text) {found : Search}
        → Goes rs found
        → Goes (r ∷ rs) (if b then goes_to r params else found)
    matched true params g = goes r params (inl refl) refl
    matched false params g = later g

    here :
        (m : Option Text) {found : Search}
        → Goes rs found
        → Goes (r ∷ rs) (this_or_later r method m found)
    here none g = later g
    here (some params) g = matched (r.method == method) params g

all-cons :
    (f : Route → Bool) (q : Route) (rs : List Route)
    → all f (q ∷ rs) ≡ true
    → (f q ≡ true) × (all f rs ≡ true)
all-cons f q rs h = (ground arith, ground arith)

all-In : (f : Route → Bool) (rs : List Route) (r : Route) → all f rs ≡ true → In r rs → f r ≡ true
all-In f [] r h i = absurd i
all-In f (q ∷ rs) r h (inl e) = ap f e ∙ (all-cons f q rs h).0
all-In f (q ∷ rs) r h (inr i) = all-In f rs r (all-cons f q rs h).1 i

pub routes_guarded : (r : Route) → In r routes → is_guarded r ≡ true
routes_guarded r i = all-In is_guarded routes r refl i

module _ {G : Type 0} (lib : Library) (s : Settings G) (t : Moment) (p : Principal) where
  handler_of-Keeps :
      (h : Handler) (request : Request)
      → IsTrimmed lib p
      → request.principal ≡ some p
      → Keeps p (handler_of lib s t h request)
  handler_of-Keeps to_live request trim known = live-Keeps lib s t p request
  handler_of-Keeps to_ready request trim known = ready-Keeps lib s t p request
  handler_of-Keeps to_me request trim known = me-Keeps lib s t p request
  handler_of-Keeps to_test_llm request trim known = test_llm-Keeps lib s t p request
  handler_of-Keeps to_list request trim known = list_all-Keeps lib s t p request
  handler_of-Keeps to_create request trim known = create_document-Keeps lib s t p request trim known
  handler_of-Keeps to_get request trim known = get_one-Keeps lib s t p request
  handler_of-Keeps to_delete request trim known = delete_one-Keeps lib s t p request known
  handler_of-Keeps to_update request trim known = update_one-Keeps lib s t p request known
  handler_of-Keeps to_query request trim known = answer-Keeps lib s t p false request known
  handler_of-Keeps to_chat request trim known = answer-Keeps lib s t p true request known
  handler_of-Keeps to_submit request trim known = submit_job-Keeps lib s t p request
  handler_of-Keeps to_get_job request trim known = get_job-Keeps lib s t p request

  dispatch-Keeps :
      (r : Route) (params : Text) (query headers : Dict Text Text) (body : List ℕ)
      → IsTrimmed lib p
      → Keeps p (dispatch lib s t r params query body (some p))
  unfolding dispatch
  dispatch-Keeps r params query headers body trim = Keeps-then p (Keeps-refuse_if p _ _ _) (
      Keeps-bind p (Keeps-call p _) (λ payload.
        handler_of-Keeps r.handler
          (record { params = params; payload = payload; principal = some p; query = query }) trim
          refl))

  -- A probe answers without a caller.
  open_dispatch-Keeps :
      (r : Route) (params : Text) (query : Dict Text Text) (body : List ℕ)
      → is_probe r.handler ≡ true
      → Keeps p (dispatch lib s t r params query body none)
  unfolding dispatch
  open_dispatch-Keeps r params query body open_route = Keeps-then p (Keeps-refuse_if p _ _ _) (
      Keeps-bind p (Keeps-call p _) (λ payload.
        probe r.handler
          (record { params = params; payload = payload; principal = none; query = query })
          open_route))
    where
      probe :
          (h : Handler) (request : Request)
          → is_probe h ≡ true
          → Keeps p (handler_of lib s t h request)
      probe to_live request q = live-Keeps lib s t p request
      probe to_ready request q = ready-Keeps lib s t p request
      probe to_me request q = cc q
      probe to_test_llm request q = cc q
      probe to_list request q = cc q
      probe to_create request q = cc q
      probe to_get request q = cc q
      probe to_delete request q = cc q
      probe to_update request q = cc q
      probe to_query request q = cc q
      probe to_chat request q = cc q
      probe to_submit request q = cc q
      probe to_get_job request q = cc q

  limit_rate-Keeps : Keeps p (limit_rate lib s t p)
  unfolding limit_rate
  limit_rate-Keeps = record {
    own = λ a.
        let out = acquire _ t.ticks a.limiter in
        limited out.0 (record a { limiter = out.1 }) a refl refl refl;
    uncounted =
        λ a. let out = acquire _ t.ticks a.limiter in counted out.0 (record a { limiter = out.1 });
  }
    where
      limited :
          (answer : Bucket.Answer) (b a : App G)
          → b.memory ≡ a.memory
          → b.history ≡ a.history
          → b.budget ≡ a.budget
          → Own p a (limit_answer lib s t p answer b).1
      limited go_on b a m h u = Own-rest p a b m h u
      limited (wait missing rate) b a m h u = Own-rest p a _ m h u

      counted :
          (answer : Bucket.Answer) (b : App G) → SameCounts p b (limit_answer lib s t p answer b).1
      counted go_on b = refl
      counted (wait missing rate) b =
          requests-append b.counts (rate_limited p.tenant_id ∷ []) ∙ unfold requests in append-nil _

  enter-Own :
      (guarded : Bool) (r : Route) (params : Text) (query headers : Dict Text Text) (body : List ℕ)
      → IsTrimmed lib p
      → guarded || is_probe r.handler ≡ true
      → authenticated lib s t headers ≡ ok p
      → Keeps p (enter lib s t guarded r params query headers body)
  enter-Own false r params query headers body trim open_route known =
      open_dispatch-Keeps r params query body open_route
  enter-Own true r params query headers body trim open_route known =
      Keeps-known p (authenticated lib s t headers) (λ q e.
        let same : p ≡ q = ok-injective (sym known ∙ e) in
        rw (sym same)
          (Keeps-then p limit_rate-Keeps (dispatch-Keeps r params query headers body trim)))

  go-Keeps :
      (found : Search) (query headers : Dict Text Text) (body : List ℕ)
      → IsTrimmed lib p
      → Goes routes found
      → authenticated lib s t headers ≡ ok p
      → Keeps p (go lib s t found query headers body)
  unfolding go
  go-Keeps found query headers body trim (goes r params i e) known =
      rw e (enter-Own r.requires_auth r params query headers body trim (routes_guarded r i) known)
  go-Keeps found query headers body trim (stays (inl e)) known =
      rw e (record { own = Own-refl p; uncounted = λ a. refl })
  go-Keeps found query headers body trim (stays (inr e)) known =
      rw e (record { own = Own-refl p; uncounted = λ a. refl })

  pub route_request-Keeps :
      (method : Text) (parts : Option (Text × Dict Text Text)) (headers : Dict Text Text)
      (body : List ℕ)
      → IsTrimmed lib p
      → authenticated lib s t headers ≡ ok p
      → Keeps p (route_request lib s t method parts headers body)
  unfolding route_request
  route_request-Keeps method none headers body trim known = record {
    own = Own-refl p;
    uncounted = λ a. refl;
  }
  route_request-Keeps method (some (path, query)) headers body trim known =
      let keeps =
        go-Keeps (search lib s t method (some (path, query))) query headers body trim
          (find_route-Goes method _ false routes) known in
      record { own = keeps.own; uncounted = keeps.uncounted }
