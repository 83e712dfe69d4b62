-- ===== src/Workers/Tests.antt =====
-- A job is submitted and taken.
use production_rag.Base.{
  ◌≡◌, refl, Option, some, List, [], ◌∷◌, Text, text, nat_eq, list_eq, list_beq, lookup, insert,
}
use production_rag.Json.{Json, null}
use production_rag.Workers.{
  IngestionJob, Worker, new_worker, waiting, handling, rejected, submits, takes, finishes, submit,
  step, new_job, start_job, take_item,
}
use production_rag.Workers.Jobs.{IsOver, IsSound, Reaches, start, later}
use production_rag.Workers.Thread.{Reaches-IsSound, thread_progress}

abbrev submitted : Worker
submitted = record {
  jobs = (text "j1", new_job (text "j1") (text "acme") 5) ∷ [];
  queue = some (text "j1", null) ∷ [];
  phase = waiting;
}

abbrev taken : Worker
taken = record {
  jobs = (text "j1", start_job 6 (new_job (text "j1") (text "acme") 5)) ∷ [];
  queue = [];
  phase = handling (text "j1");
}

reached : Reaches taken
unfolding step submit take_item lookup insert list_beq
reached =
    later {w = submitted} {w' = taken} (takes 6)
      (later {w = new_worker} {w' = submitted} (submits (text "j1") (text "acme") null 5) start refl
        refl)
      tt refl

Reaches-IsSound_example : IsSound taken
Reaches-IsSound_example = Reaches-IsSound reached

thread_progress_example :
    ((item : Option (Text × Json)) (rest : List (Option (Text × Json)))
      → taken.queue ≡ item ∷ rest
      → taken.phase ≡ waiting
      → (w' : Worker) × (step taken (takes 7) ≡ some w'))
    × ((id : Text)
        → taken.phase ≡ handling id
        → (w' : Worker) × (step taken (finishes (rejected (text "bad")) 7) ≡ some w'))
    × ((id : Text) (j : IngestionJob)
        → taken.queue ≡ []
        → taken.phase ≡ waiting
        → lookup id taken.jobs ≡ some j
        → IsOver j)
thread_progress_example = thread_progress taken 7 (rejected (text "bad")) reached
