-- ===== src/Api/Paths.antt =====
-- Which route a request takes.
use production_rag.Base.{
  Bool, true, false, ◌||◌, ◌≡◌, ◌≢◌, refl, ap, sym, ◌∙◌, ◌⊎◌, inl, inr, Option, none, some, List,
  [], ◌∷◌, In, arith, Text, ◌==◌, eq_iff, nat_eq, list_eq, Bool-cases,
}
use production_rag.Api.Routing.{
  Route, Search, goes_to, not_allowed, not_found, find_route, full_match, this_or_later, fits,
}

module _ (method path : Text) where
  abbrev pub Fits : Route → Text → Type 0
  Fits r params = full_match r.pattern path ≡ some params

  abbrev pub NoneOfMethod : List Route → Type 0
  NoneOfMethod rs = (r : Route) (params : Text) → In r rs → Fits r params → r.method ≢ method

  -- The search, after routes of which one has fit in the path, if `seen`: it takes a route that fits
  -- in path and method; or none fits in both, but one has fit or fits in the path; or none fits.
  pub data Searched (seen : Bool) (rs : List Route) (found : Search) : Type 0 where
    takes :
        (r : Route) (params : Text)
        → In r rs
        → Fits r params
        → r.method ≡ method
        → found ≡ goes_to r params
        → Searched seen rs found
    refuses :
        (seen ≡ true) ⊎ ((r : Route) × (params : Text) × In r rs × Fits r params)
        → NoneOfMethod rs
        → found ≡ not_allowed
        → Searched seen rs found
    misses :
        seen ≡ false
        → ((r : Route) → In r rs → full_match r.pattern path ≡ none)
        → found ≡ not_found
        → Searched seen rs found

  -- The loop takes a route of the table only if it fits the request in path and method. It answers
  -- 405 when none fits in both, but one fits in the path or, if `seen`, one has fit before; and 404
  -- when none has and none fits in the path.
  pub find_route_exact :
      (seen : Bool) (rs : List Route) → Searched seen rs (find_route method path seen rs)
  unfolding find_route
  find_route_exact true [] = refuses (inl refl) (λ r params i. absurd i) refl
  find_route_exact false [] = misses refl (λ r i. absurd i) refl
  find_route_exact seen (r ∷ rs) =
      here (full_match r.pattern path) refl
        (find_route_exact (seen || fits (full_match r.pattern path)) rs)
    where
      skipped :
          {found : Search}
          → full_match r.pattern path ≡ none
          → Searched (seen || false) rs found
          → Searched seen (r ∷ rs) found
      skipped n (takes q k i f e h) = takes q k (inr i) f e h
      skipped n (refuses why without h) =
          refuses
            (elim why [ inl e ↦ inl (ground arith) | inr (q, k, i, f) ↦ inr (q, k, inr i, f) ])
            (λ q k i f. elim i [
              | inl e ↦ cc (n, f, ap (λ (q : Route). full_match q.pattern path) e)
              | inr j ↦ without q k j f
            ])
            h
      skipped n (misses e all_miss h) =
          misses (ground arith)
            (λ q i. elim i [
              | inl e ↦ ap (λ (q : Route). full_match q.pattern path) e ∙ n
              | inr j ↦ all_miss q j
            ])
            h

      other_method :
          (params : Text) {found : Search}
          → Fits r params
          → r.method ≢ method
          → Searched (seen || true) rs found
          → Searched seen (r ∷ rs) found
      other_method params f n (takes q k i g e h) = takes q k (inr i) g e h
      other_method params f n (refuses why without h) =
          refuses (inr (r, params, inl refl, f))
            (λ q k i g. elim i [
              | inl e ↦ (λ m. n (ap (λ (q : Route). q.method) (sym e) ∙ m))
              | inr j ↦ without q k j g
            ])
            h
      other_method params f n (misses e all_miss h) = absurd (ground arith)

      here :
          (m : Option Text) {found : Search}
          → full_match r.pattern path ≡ m
          → Searched (seen || fits m) rs found
          → Searched seen (r ∷ rs) (this_or_later r method m found)
      here none n g = skipped n g
      here (some params) f g = elim (Bool-cases (r.method == method)) [
        | inl same ↦
            rw same (takes r params (inl refl) f (ground (arith, eq_iff r.method method)) refl)
        | inr other ↦
            rw other (other_method params f (λ e. ground (arith, eq_iff r.method method)) g)
      ]
