-- ===== src/Workers/Thread.antt =====
-- The steps of the thread: they never fail on a missing job, and end every job.
use production_rag.Base.{
  ◌≡◌, refl, sym, ap, ◌∙◌, inl, inr, Option, none, some, List, [], ◌∷◌, Text, Distinct, nat_eq,
  list_eq, lookup, insert,
}
use production_rag.Json.{Json}
use production_rag.Documents.{Instant}
use production_rag.Workers.{
  running, IngestionJob, Phase, waiting, stopped, handling, Worker, new_worker, Outcome, Event,
  submits, stops, takes, finishes, start_job, end_job, updated, take_item, step,
}
use production_rag.Workers.Jobs.{
  ids, IsOver, IsOpen, in_queue, in_handler, over, IsSound, IsFresh, Reaches, start, later, changed,
  handling-injective, submit-IsSound, stop-IsSound, finish-IsSound,
}

take-IsSound :
    (id : Text) (payload : Json) (rest : List (Option (Text × Json))) (now : Instant) (w : Worker)
    (j : IngestionJob)
    → w.queue ≡ some (id, payload) ∷ rest
    → w.phase ≡ waiting
    → lookup id w.jobs ≡ some j
    → IsSound w
    → IsSound
        (record { jobs = insert id (start_job now j) w.jobs; queue = rest; phase = handling id })
take-IsSound id payload rest now w j head idle there s =
    let entered = changed id (start_job now j) w.jobs in
    let queue : ids w.queue ≡ id ∷ ids rest = ap ids head in
    let distinct : Distinct (id ∷ ids rest) = rw queue at s.once in
    let (j', there', open_job) = s.waits id (rw queue (inl refl)) in
    let same : j' ≡ j = cc (there, there') in
    let started : IsOpen (start_job now j) running = record {
      stands = refl;
      no_error = rw (← same) open_job.no_error;
      no_result = rw (← same) open_job.no_result;
    } in
    record {
      once = distinct.1;
      waits = λ k m.
          let (i, found, is_open) = s.waits k (rw queue (inr m)) in
          elim (entered k) [
            | inl (is, at) ↦ absurd (distinct.0 (rw (← is) m))
            | inr (isnt, at) ↦ (i, at ∙ found, is_open)
          ];
      handled = λ k h. elim (entered k) [
        | inl (is, at) ↦ (_, at, started)
        | inr (isnt, at) ↦ absurd (isnt (sym (handling-injective h)))
      ];
      placed = λ k i found. elim (entered k) [
        | inl (is, at) ↦
            let now_running : i ≡ start_job now j = cc (at, found) in
            in_handler (rw now_running started) (ap handling (sym is))
        | inr (isnt, at) ↦ elim (s.placed k i (sym at ∙ found)) [
          | in_queue o m ↦ elim (rw queue at m) [ inl e ↦ absurd (isnt e) | inr r ↦ in_queue o r ]
          | in_handler o h ↦ absurd (cc (h, idle))
          | over d ↦ over d
        ]
      ];
    }

end-IsSound :
    (rest : List (Option (Text × Json))) (w : Worker)
    → w.queue ≡ none ∷ rest
    → w.phase ≡ waiting
    → IsSound w
    → IsSound (record w { queue = rest; phase = stopped })
end-IsSound rest w head idle s =
    let queue : ids w.queue ≡ ids rest = ap ids head in
    record {
      once = rw queue at s.once;
      waits = λ k m. s.waits k (rw queue m);
      handled = λ k h. cc h;
      placed = λ k i found. elim (s.placed k i found) [
        | in_queue o m ↦ in_queue o (rw queue at m)
        | in_handler o h ↦ absurd (cc (h, idle))
        | over d ↦ over d
      ];
    }

-- A step of the thread succeeds on every sound state, into a sound state.
take_succeeds :
    (now : Instant) (w : Worker) (item : Option (Text × Json)) (rest : List (Option (Text × Json)))
    → w.queue ≡ item ∷ rest
    → w.phase ≡ waiting
    → IsSound w
    → (w' : Worker) × (take_item now w (item ∷ rest) ≡ some w') × IsSound w'
unfolding take_item
take_succeeds now w none rest head idle s = (_, refl, end-IsSound rest w head idle s)
take_succeeds now w (some (id, payload)) rest head idle s =
    let (j, there, open_job) = s.waits id (rw (ap ids head) (inl refl)) in
    (_, rw there refl, take-IsSound id payload rest now w j head idle there s)

take_nothing : (now : Instant) (w : Worker) → take_item now w [] ≡ none
unfolding take_item
take_nothing now w = refl

finish_succeeds :
    (id : Text) (outcome : Outcome) (now : Instant) (w : Worker)
    → w.phase ≡ handling id
    → IsSound w
    → (w' : Worker) × (updated id waiting (end_job outcome now) w (lookup id w.jobs) ≡ some w')
      × IsSound w'
finish_succeeds id outcome now w busy s =
    let (j, there, running_job) = s.handled id busy in
    (_, rw there refl, finish-IsSound id outcome now w j there busy s)

same_after :
    {w : Worker} {o : Option Worker}
    → (v : Worker) × (o ≡ some v) × IsSound v
    → o ≡ some w
    → IsSound w
same_after {w} (v, e, s) h = let q : v ≡ w = cc (e, h) in rw (← q) s

step-IsSound :
    (w w' : Worker) (e : Event) → IsSound w → IsFresh w e → step w e ≡ some w' → IsSound w'
unfolding step
step-IsSound w w' (submits id tenant payload now) s fresh h =
    same_after (_, refl, submit-IsSound id tenant payload now w fresh s) h
step-IsSound w w' stops s fresh h = same_after (_, refl, stop-IsSound w s) h
step-IsSound w w' (takes now) s fresh h = by_phase w.phase refl h
  where
    by_queue :
        (q : List (Option (Text × Json)))
        → w.queue ≡ q
        → w.phase ≡ waiting
        → take_item now w q ≡ some w'
        → IsSound w'
    by_queue [] head idle g = cc (take_nothing now w, g)
    by_queue (item ∷ rest) head idle g = same_after (take_succeeds now w item rest head idle s) g

    by_phase :
        (p : Phase)
        → w.phase ≡ p
        → elim p [ waiting ↦ take_item now w w.queue | stopped ↦ none | handling id ↦ none ]
          ≡ some w'
        → IsSound w'
    by_phase waiting idle g = by_queue w.queue refl idle g
    by_phase stopped idle g = cc g
    by_phase (handling id) busy g = cc g
step-IsSound w w' (finishes outcome now) s fresh h = by_phase w.phase refl h
  where
    by_phase :
        (p : Phase)
        → w.phase ≡ p
        → elim p [
          | waiting ↦ none
          | stopped ↦ none
          | handling id ↦ updated id waiting (end_job outcome now) w (lookup id w.jobs)
        ]
          ≡ some w'
        → IsSound w'
    by_phase waiting idle g = cc g
    by_phase stopped idle g = cc g
    by_phase (handling id) busy g = same_after (finish_succeeds id outcome now w busy s) g

new_worker-IsSound : IsSound new_worker
unfolding lookup
new_worker-IsSound = record {
  once = tt;
  waits = λ k m. absurd m;
  handled = λ k h. cc h;
  placed = λ k j there. cc there;
}

-- In every state that is reached, with a fresh id for each submission, every job has its place: it
-- is queued and waits exactly once, or is running and is the one in the handler, or is over and has
-- either a result or an error; and whatever waits or is handled is such a job.
pub Reaches-IsSound : {w : Worker} → Reaches w → IsSound w
Reaches-IsSound start = new_worker-IsSound
Reaches-IsSound (later {w} {w'} e r fresh h) = step-IsSound w w' e (Reaches-IsSound r) fresh h

-- In every state that is reached, the thread never fails on a missing job: it can take the next
-- item whenever it waits and there is one, and can end the job that it handles whatever the handler
-- does. When it waits and nothing is queued, every job is over.
pub thread_progress :
    (w : Worker) (now : Instant) (outcome : Outcome)
    → Reaches w
    → ((item : Option (Text × Json)) (rest : List (Option (Text × Json)))
        → w.queue ≡ item ∷ rest
        → w.phase ≡ waiting
        → (w' : Worker) × (step w (takes now) ≡ some w'))
      × ((id : Text)
          → w.phase ≡ handling id
          → (w' : Worker) × (step w (finishes outcome now) ≡ some w'))
      × ((id : Text) (j : IngestionJob)
          → w.queue ≡ []
          → w.phase ≡ waiting
          → lookup id w.jobs ≡ some j
          → IsOver j)
unfolding step
thread_progress w now outcome r =
    let s = Reaches-IsSound r in
    (
      (λ item rest head idle.
          let (w', e, sound) = take_succeeds now w item rest head idle s in
          (w', rw (idle, head) e)),
      (λ id busy. let (w', e, sound) = finish_succeeds id outcome now w busy s in (w', rw busy e)),
      (λ id j empty idle there. elim (s.placed id j there) [
        | in_queue o m ↦ absurd (rw (ap ids empty) at m)
        | in_handler o h ↦ cc (h, idle)
        | over d ↦ d
      ]),
    )
