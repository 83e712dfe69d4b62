-- ===== src/Workers/Jobs.antt =====
-- The status of a job says where it is, in every state that callers and the thread can reach.
use production_rag.Base.{
  ◌≡◌, refl, sym, ap, ◌∙◌, ◌≢◌, ◌⊎◌, inl, inr, Option, none, some, List, [], ◌∷◌, ◌++◌, Text, In,
  In-append, append-nil, Distinct, ◌==◌, eq_iff, nat_eq, list_eq, Dict, lookup, insert,
  lookup-insert, Bool-cases,
}
use production_rag.Json.{Json}
use production_rag.Documents.{Instant}
use production_rag.Workers.{
  JobStatus, queued, running, completed, failed, IngestionJob, waiting, handling, Worker,
  new_worker, Outcome, returned, rejected, crashed, Event, submits, new_job, submit, end_job, step,
}

abbrev pub ids : List (Option (Text × Json)) → List Text
ids [] = []
ids (none ∷ q) = ids q
ids (some (id, payload) ∷ q) = id ∷ ids q

-- A job that is over, with what came of it.
pub data IsOver (j : IngestionJob) : Type 0 where
  with_result : (r : Json) → j.status ≡ completed → j.result ≡ some r → j.error ≡ none → IsOver j
  with_error : (e : Text) → j.status ≡ failed → j.error ≡ some e → j.result ≡ none → IsOver j

pub record IsOpen (j : IngestionJob) (status : JobStatus) : Type 0 where
  pub stands : j.status ≡ status
  pub no_error : j.error ≡ none
  pub no_result : j.result ≡ none

pub data Place (w : Worker) (id : Text) (j : IngestionJob) : Type 0 where
  in_queue : IsOpen j queued → In id (ids w.queue) → Place w id j
  in_handler : IsOpen j running → w.phase ≡ handling id → Place w id j
  over : IsOver j → Place w id j

-- Every job is where its status says, and what waits or is handled is a job.
pub record IsSound (w : Worker) : Type 0 where
  pub once : Distinct (ids w.queue)
  pub waits :
      (id : Text)
      → In id (ids w.queue)
      → (j : IngestionJob) × (lookup id w.jobs ≡ some j) × IsOpen j queued
  pub handled :
      (id : Text)
      → w.phase ≡ handling id
      → (j : IngestionJob) × (lookup id w.jobs ≡ some j) × IsOpen j running
  pub placed : (id : Text) (j : IngestionJob) → lookup id w.jobs ≡ some j → Place w id j

-- `uuid4` gives an id that no job has yet.
abbrev pub IsFresh : Worker → Event → Type 0
IsFresh w (submits id tenant payload now) = lookup id w.jobs ≡ none
IsFresh w _ = Unit

-- The states that can be reached.
pub data Reaches : Worker → Type 0 where
  start : Reaches new_worker
  later : {w w' : Worker} (e : Event) → Reaches w → IsFresh w e → step w e ≡ some w' → Reaches w'

ids-append :
    (q : List (Option (Text × Json))) (x : Option (Text × Json))
    → ids (q ++ x ∷ []) ≡ ids q ++ ids (x ∷ [])
ids-append [] x = refl
ids-append (none ∷ q) x = ids-append q x
ids-append (some (id, payload) ∷ q) x = ap (◌∷◌ id) (ids-append q x)

Distinct-append_one :
    (xs : List Text) (a : Text) → Distinct xs → ¬ (In a xs) → Distinct (xs ++ a ∷ [])
Distinct-append_one [] a d n = ((λ h. h), tt)
Distinct-append_one (x ∷ xs) a d n = (
  (λ m. elim ((In-append x xs (a ∷ [])).0 m) [
    | inl i ↦ d.0 i
    | inr (inl e) ↦ n (inl (sym e))
    | inr (inr i) ↦ absurd i
  ]),
  Distinct-append_one xs a d.1 (λ m. n (inr m)),
)

-- The change of one job, whose id is `id`.
pub changed :
    (id : Text) (v : IngestionJob) (jobs : Dict Text IngestionJob) (k : Text)
    → ((k ≡ id) × (lookup k (insert id v jobs) ≡ some v))
      ⊎ ((k ≢ id) × (lookup k (insert id v jobs) ≡ lookup k jobs))
changed id v jobs k = elim (Bool-cases (id == k)) [
  | inl same ↦ inl (sym ((eq_iff id k).0 same), rw (lookup-insert id k v jobs, same))
  | inr other ↦
      inr ((λ e. cc (other, (eq_iff id k).1 (sym e))), rw (lookup-insert id k v jobs, other))
]

pub handling-injective : {a b : Text} → handling a ≡ handling b → a ≡ b
handling-injective e = cc e

pub submit-IsSound :
    (id tenant : Text) (payload : Json) (now : Instant) (w : Worker)
    → lookup id w.jobs ≡ none
    → IsSound w
    → IsSound (submit id tenant payload now w)
unfolding submit
submit-IsSound id tenant payload now w fresh s =
    let entered = changed id (new_job id tenant now) w.jobs in
    let queue = ids-append w.queue (some (id, payload)) in
    let parts = λ (k : Text). In-append k (ids w.queue) (id ∷ []) in
    record {
      once = rw queue (
          Distinct-append_one (ids w.queue) id s.once
            (λ m. let (j, there, open_job) = s.waits id m in cc (there, fresh)));
      waits = λ k m. elim (entered k) [
        | inl (is, at) ↦ (_, at, record { stands = refl; no_error = refl; no_result = refl })
        | inr (isnt, at) ↦ elim ((parts k).0 (rw queue at m)) [
          | inl old ↦ let (j, there, open_job) = s.waits k old in (j, at ∙ there, open_job)
          | inr (inl e) ↦ absurd (isnt e)
          | inr (inr e) ↦ absurd e
        ]
      ];
      handled = λ k h.
          let (j, there, open_job) = s.handled k h in
          elim (entered k) [
            | inl (is, at) ↦ cc (there, fresh, is)
            | inr (isnt, at) ↦ (j, at ∙ there, open_job)
          ];
      placed = λ k j there. elim (entered k) [
        | inl (is, at) ↦
            let same : j ≡ new_job id tenant now = cc (at, there) in
            in_queue (rw same (record { stands = refl; no_error = refl; no_result = refl }))
              (rw queue ((parts k).1 (inr (inl is))))
        | inr (isnt, at) ↦ elim (s.placed k j (sym at ∙ there)) [
          | in_queue o m ↦ in_queue o (rw queue ((parts k).1 (inl m)))
          | in_handler o h ↦ in_handler o h
          | over d ↦ over d
        ]
      ];
    }

pub stop-IsSound : (w : Worker) → IsSound w → IsSound (record w { queue = w.queue ++ none ∷ [] })
stop-IsSound w s =
    let queue : ids (w.queue ++ none ∷ []) ≡ ids w.queue =
      ids-append w.queue none ∙ append-nil (ids w.queue) in
    record {
      once = rw queue s.once;
      waits = λ k m. s.waits k (rw queue at m);
      handled = s.handled;
      placed = λ k j there. elim (s.placed k j there) [
        | in_queue o m ↦ in_queue o (rw queue m)
        | in_handler o h ↦ in_handler o h
        | over d ↦ over d
      ];
    }

end_job-IsOver :
    (outcome : Outcome) (now : Instant) (j : IngestionJob)
    → IsOpen j running
    → IsOver (end_job outcome now j)
end_job-IsOver (returned r) now j o = with_result r refl refl o.no_error
end_job-IsOver (rejected e) now j o = with_error e refl refl o.no_result
end_job-IsOver crashed now j o = with_error _ refl refl o.no_result

-- The thread at its handler: its job is there, and ends.
pub finish-IsSound :
    (id : Text) (outcome : Outcome) (now : Instant) (w : Worker) (j : IngestionJob)
    → lookup id w.jobs ≡ some j
    → w.phase ≡ handling id
    → IsSound w
    → IsSound (record w { jobs = insert id (end_job outcome now j) w.jobs; phase = waiting })
finish-IsSound id outcome now w j there busy s =
    let entered = changed id (end_job outcome now j) w.jobs in
    let (j', there', running_job) = s.handled id busy in
    let same : j' ≡ j = cc (there, there') in
    record {
      once = s.once;
      waits = λ k m.
          let (i, found, open_job) = s.waits k m in
          elim (entered k) [
            | inl (is, at) ↦ cc (found, there', is, open_job.stands, running_job.stands)
            | inr (isnt, at) ↦ (i, at ∙ found, open_job)
          ];
      handled = λ k h. cc h;
      placed = λ k i found. elim (entered k) [
        | inl (is, at) ↦
            let ended : i ≡ end_job outcome now j = cc (at, found) in
            over (rw ended (end_job-IsOver outcome now j (rw (← same) running_job)))
        | inr (isnt, at) ↦ elim (s.placed k i (sym at ∙ found)) [
          | in_queue o m ↦ in_queue o m
          | in_handler o h ↦ absurd (isnt (handling-injective (sym h ∙ busy)))
          | over d ↦ over d
        ]
      ];
    }
