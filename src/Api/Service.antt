-- ===== src/Api/Service.antt =====
-- `handle`, for a caller whose key is known, for one without, and for any sequence of requests.
use production_rag.Base.{
  ℕ, Bool, true, false, ◌||◌, ◌≡◌, refl, ap, sym, ok-injective, ◌∙◌, ◌⊎◌, inl, inr, Option, none,
  some, List, [], ◌∷◌, ◌++◌, Text, text, Result, ok, err, nat_eq, list_eq, Dict, ltb, length,
  append-nil, Bool-cases,
}
use production_rag.Json.{Fields}
use production_rag.Permissions.{Principal}
use production_rag.MemoryStore.Consistent.{IsConsistent}
use production_rag.Api.{
  Exception, Moment, App, Library, Settings, Request, Response, status_is, http_request, latency,
  ◌>>=◌, ◌>>◌, pure, call, after, refuse_if,
}
use production_rag.Api.Documents.{live, ready}
use production_rag.Api.Routing.{
  Handler, to_live, to_ready, to_me, to_test_llm, to_list, to_create, to_get, to_delete, to_update,
  to_query, to_chat, to_submit, to_get_job, Route, routes, Search, handler_of, authenticated,
  dispatch, enter, go, label, search, route_request, outcome_of, status_of, observed, handle,
  json_body,
}
use production_rag.Api.Changes.{requests, requests-append, Own, Own-trans, Own-rest}
use production_rag.Api.Storing.{IsTrimmed}
use production_rag.Api.Served.{
  Goes, goes, stays, find_route-Goes, is_probe, routes_guarded, route_request-Keeps,
}

-- One request more is counted, with its route, its method and the status of its response.
abbrev pub CountsOne : {G : Type 0} → Text → Text → ℕ → App G → App G → Type 0
CountsOne name method status a b =
    requests b.counts ≡ requests a.counts ++ (name, method, status) ∷ []

observed-CountsOne :
    {G : Type 0} (lib : Library) (s : Settings G) (t : Moment) (name method : Text) (status : ℕ)
    (a : App G)
    → CountsOne name method status a (observed lib s t name method status a)
observed-CountsOne lib s t name method status a =
    requests-append (a.counts ++ http_request name method status ∷ []) (latency name t.elapsed ∷ [])
    ∙ unfold requests in
      (append-nil _ ∙ requests-append a.counts (http_request name method status ∷ []))

-- The probes' answers.
abbrev pub IsHealthy : Response → Type 0
IsHealthy r = (r.1 ≡ status_is (text "ok")) ⊎ (r.1 ≡ status_is (text "ready"))

module _ {G : Type 0} (lib : Library) (s : Settings G) (t : Moment) where
  -- Nothing is written, and nothing is told but the health of the service.
  abbrev Closed : Result Exception Response × App G → App G → Type 0
  Closed out a = (out.1 ≡ a) × ((r : Response) → out.0 ≡ ok r → IsHealthy r)

  answers-Closed :
      (h : Handler) (request : Request) (a : App G)
      → is_probe h ≡ true
      → Closed (handler_of lib s t h request a) a
  unfolding live ready pure
  answers-Closed to_live request a q =
      (refl, λ r e. inl (sym (ap (λ (x : Response). x.1) (ok-injective e))))
  answers-Closed to_ready request a q =
      (refl, λ r e. inr (sym (ap (λ (x : Response). x.1) (ok-injective e))))
  answers-Closed to_me request a q = cc q
  answers-Closed to_test_llm request a q = cc q
  answers-Closed to_list request a q = cc q
  answers-Closed to_create request a q = cc q
  answers-Closed to_get request a q = cc q
  answers-Closed to_delete request a q = cc q
  answers-Closed to_update request a q = cc q
  answers-Closed to_query request a q = cc q
  answers-Closed to_chat request a q = cc q
  answers-Closed to_submit request a q = cc q
  answers-Closed to_get_job request a q = cc q

  dispatch-Closed :
      (r : Route) (params : Text) (query : Dict Text Text) (body : List ℕ) (a : App G)
      → is_probe r.handler ≡ true
      → Closed (dispatch lib s t r params query body none a) a
  unfolding dispatch ◌>>◌ ◌>>=◌ call refuse_if
  dispatch-Closed r params query body a open_route =
      elim (Bool-cases (ltb s.max_body_bytes (length body))) [
        | inl long ↦ rw long (refl, λ x e. cc e)
        | inr fits ↦ rw fits (parsed (json_body lib s t body))
      ]
    where
      parsed :
          (fields : Result Exception Fields)
          → Closed
              (after
                (fields, a)
                (λ payload.
                  handler_of lib s t r.handler (record {
                    params = params;
                    payload = payload;
                    principal = none;
                    query = query;
                  })))
              a
      parsed (ok payload) = answers-Closed r.handler _ a open_route
      parsed (err e) = (refl, λ x h. cc h)

  enter-Closed :
      (guarded : Bool) (r : Route) (params : Text) (query headers : Dict Text Text) (body : List ℕ)
      (a : App G)
      → guarded || is_probe r.handler ≡ true
      → (e : Exception) → authenticated lib s t headers ≡ err e
      → Closed (enter lib s t guarded r params query headers body a) a
  unfolding ◌>>=◌ call
  enter-Closed false r params query headers body a open_route e unknown =
      dispatch-Closed r params query body a open_route
  enter-Closed true r params query headers body a open_route e unknown =
      rw unknown (refl, λ x h. cc h)

  go-Closed :
      (found : Search) (query headers : Dict Text Text) (body : List ℕ) (a : App G)
      → Goes routes found
      → (e : Exception) → authenticated lib s t headers ≡ err e
      → Closed (go lib s t found query headers body a) a
  unfolding go
  go-Closed found query headers body a (goes r params i same) e unknown =
      rw same
        (enter-Closed r.requires_auth r params query headers body a (routes_guarded r i) e unknown)
  go-Closed found query headers body a (stays (inl same)) e unknown = rw same (refl, λ x h. cc h)
  go-Closed found query headers body a (stays (inr same)) e unknown = rw same (refl, λ x h. cc h)

  route_request-Closed :
      (method : Text) (parts : Option (Text × Dict Text Text)) (headers : Dict Text Text)
      (body : List ℕ) (a : App G)
      → (e : Exception) → authenticated lib s t headers ≡ err e
      → Closed (route_request lib s t method parts headers body a) a
  unfolding route_request
  route_request-Closed method none headers body a e unknown = (refl, λ x h. cc h)
  route_request-Closed method (some (path, query)) headers body a e unknown =
      go-Closed (search lib s t method (some (path, query))) query headers body a
        (find_route-Goes method _ false routes) e unknown

  outcome_of-eq-ok :
      (r : Result Exception Response) (x : Response) → outcome_of lib s t r ≡ ok x → r ≡ ok x
  outcome_of-eq-ok (ok y) x h = cc h
  outcome_of-eq-ok (err e) x h = cc h

  finish_Closed :
      (out : Result Exception Response × App G) (a : App G) (name method : Text)
      → Closed out a
      → (observed lib s t name method (status_of lib s t (outcome_of lib s t out.0)) out.1
          ≡ record a {
            counts =
                (observed lib s t name method
                  (status_of lib s t (outcome_of lib s t out.0))
                  out.1).counts;
          })
        × CountsOne name method
            (status_of lib s t (outcome_of lib s t out.0))
            a
            (observed lib s t name method (status_of lib s t (outcome_of lib s t out.0)) out.1)
        × ((r : Response) → outcome_of lib s t out.0 ≡ ok r → IsHealthy r)
  finish_Closed out a name method (same, told) =
      let status = status_of lib s t (outcome_of lib s t out.0) in
      let b = observed lib s t name method status out.1 in
      (
        ap (λ (x : App G). record x { counts = b.counts }) same,
        observed-CountsOne lib s t name method status out.1
            ∙ ap (λ (x : App G). requests x.counts ++ (name, method, status) ∷ []) same,
        λ r h. told r (outcome_of-eq-ok out.0 r h),
      )

  -- The name under which a request is counted.
  abbrev pub route_name : Text → Text → Text
  route_name method path = label lib s t (search lib s t method (lib.split_path path))

  -- A request whose key nobody has, or without a key, adds to the counters and changes nothing else;
  -- it counts as one request with the status of its response, and if it is not refused, the
  -- response is that of one of the two health probes.
  pub handle-stranger :
      (method path : Text) (headers : Dict Text Text) (body : List ℕ) (a : App G)
      → (e : Exception) → authenticated lib s t headers ≡ err e
      → (((handle lib s t method path headers body a).1
            ≡ record a { counts = (handle lib s t method path headers body a).1.counts })
          × CountsOne
              (route_name method path)
              method
              (status_of lib s t (handle lib s t method path headers body a).0.outcome)
              a
              (handle lib s t method path headers body a).1
          × ((r : Response)
              → (handle lib s t method path headers body a).0.outcome ≡ ok r
              → IsHealthy r))
  unfolding handle
  handle-stranger method path headers body a e unknown =
      finish_Closed (route_request lib s t method (lib.split_path path) headers body a) a
        (route_name method path) method
        (route_request-Closed method (lib.split_path path) headers body a e unknown)

  -- Where the name of the caller's tenant has no space around it: the store after a request with
  -- the key of a caller is what a sequence of calls of the store for
  -- the caller's tenant makes of the one before. A consistent store stays consistent, and no
  -- document or chunk of another tenant, no session of another user or tenant and no use of another
  -- tenant's budget changes. The request counts as one, with the status of its response.
  pub handle-Own :
      (p : Principal) (method path : Text) (headers : Dict Text Text) (body : List ℕ) (a : App G)
      → IsTrimmed lib p
      → authenticated lib s t headers ≡ ok p
      → Own p a (handle lib s t method path headers body a).1
        × CountsOne
            (route_name method path)
            method
            (status_of lib s t (handle lib s t method path headers body a).0.outcome)
            a
            (handle lib s t method path headers body a).1
  unfolding handle
  handle-Own p method path headers body a trim known =
      let keeps =
        route_request-Keeps lib s t p method (lib.split_path path) headers body trim known in
      let out = route_request lib s t method (lib.split_path path) headers body a in
      let status = status_of lib s t (outcome_of lib s t out.0) in
      (
        Own-trans p a out.1 _ (keeps.own a) (Own-rest p out.1 _ refl refl refl),
        observed-CountsOne lib s t (route_name method path) method status out.1
            ∙ ap (λ xs. xs ++ (route_name method path, method, status) ∷ []) (keeps.uncounted a),
      )

-- What arrives: the moment, the method, the path, the headers and the body.
pub record Arrival : Type 0 where
  pub moment : Moment
  pub method : Text
  pub path : Text
  pub headers : Dict Text Text
  pub body : List ℕ

module _ {G : Type 0} (lib : Library) (s : Settings G) where
  abbrev pub serve : Arrival → App G → App G
  serve r a = (handle lib s r.moment r.method r.path r.headers r.body a).1

  unfoldable pub serve_all : List Arrival → App G → App G
  serve_all [] a = a
  serve_all (r ∷ rs) a = serve_all rs (serve r a)

  -- Every caller of the key store has a tenant without space around its name.
  abbrev pub AllTrimmed : Type 0
  AllTrimmed =
      (t : Moment) (headers : Dict Text Text) (p : Principal)
      → authenticated lib s t headers ≡ ok p
      → IsTrimmed lib p

  serve-IsConsistent :
      (r : Arrival) (a : App G)
      → AllTrimmed
      → IsConsistent a.memory
      → IsConsistent (serve r a).memory
  serve-IsConsistent r a trim c = cases (authenticated lib s r.moment r.headers) refl
    where
      cases :
          (who : Result Exception Principal)
          → authenticated lib s r.moment r.headers ≡ who
          → IsConsistent (serve r a).memory
      cases (ok p) known =
          (handle-Own lib s r.moment p r.method r.path r.headers r.body a
              (trim r.moment r.headers p known) known).0.consistent
            c
      cases (err e) unknown =
          let same =
            ap (λ (x : App G). x.memory)
              (handle-stranger lib s r.moment r.method r.path r.headers r.body a e unknown).0 in
          rw same c

  -- Where no caller's tenant has space around its name, every sequence of requests, with the keys of
  -- callers or without, leads from a consistent store to a consistent store.
  pub serve_all-IsConsistent :
      (rs : List Arrival) (a : App G)
      → AllTrimmed
      → IsConsistent a.memory
      → IsConsistent (serve_all rs a).memory
  unfolding serve_all
  serve_all-IsConsistent [] a trim c = c
  serve_all-IsConsistent (r ∷ rs) a trim c =
      serve_all-IsConsistent rs (serve r a) trim (serve-IsConsistent r a trim c)
