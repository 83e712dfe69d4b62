-- ===== src/Workers.antt =====
-- `IngestionWorker` of workers.py: a queue of jobs and the thread that works them off, as the steps
-- that the callers and the thread take in any order.
pub mod Jobs
pub mod Thread
mod Tests
use production_rag.Base.{
  ℕ, Bool, true, false, Option, none, some, List, [], ◌∷◌, ◌++◌, Text, text, ◌==◌, nat_eq, list_eq,
  if◌then◌else◌, Dict, lookup, insert,
}
use production_rag.Json.{Json}
use production_rag.Documents.{Instant}

pub data JobStatus : Type 0 where
  queued running completed failed : JobStatus

pub record IngestionJob : Type 0 where
  pub id : Text
  pub tenant_id : Text
  pub status : JobStatus
  pub error : Option Text
  pub result : Option Json
  pub created_at : Instant
  pub updated_at : Instant

-- Where the thread stands: at `queue.get()`, in the handler, or returned.
pub data Phase : Type 0 where
  waiting stopped : Phase
  handling : Text → Phase

pub record Worker : Type 0 where
  pub jobs : Dict Text IngestionJob
  pub queue : List (Option (Text × Json))
  pub phase : Phase

abbrev pub new_worker : Worker
new_worker = record { jobs = []; queue = []; phase = waiting }

-- How the handler ends: with a result, with a UnicodeError or ValueError, or with another exception.
pub data Outcome : Type 0 where
  returned : Json → Outcome
  rejected : Text → Outcome
  crashed : Outcome

pub data Event : Type 0 where
  submits : Text → Text → Json → Instant → Event
  stops : Event
  takes : Instant → Event
  finishes : Outcome → Instant → Event

abbrev pub new_job : Text → Text → Instant → IngestionJob
new_job id tenant now = record {
  id = id;
  tenant_id = tenant;
  status = queued;
  error = none;
  result = none;
  created_at = now;
  updated_at = now;
}

unfoldable pub submit : Text → Text → Json → Instant → Worker → Worker
submit id tenant payload now w = record w {
  jobs = insert id (new_job id tenant now) w.jobs;
  queue = w.queue ++ some (id, payload) ∷ [];
}

-- The job only for the tenant that submitted it.
abbrev pub if_own : Text → Option IngestionJob → Option IngestionJob
if_own tenant none = none
if_own tenant (some j) = if j.tenant_id == tenant then some j else none

unfoldable pub get_job : Text → Text → Worker → Option IngestionJob
get_job tenant id w = if_own tenant (lookup id w.jobs)

-- `_update`; `none` is the `KeyError` of a job that is not there.
abbrev pub updated :
    Text → Phase → (IngestionJob → IngestionJob) → Worker → Option IngestionJob → Option Worker
updated id phase change w none = none
updated id phase change w (some j) =
    some (record w { jobs = insert id (change j) w.jobs; phase = phase })

abbrev pub start_job : Instant → IngestionJob → IngestionJob
start_job now j = record j { status = running; updated_at = now }

abbrev pub end_job : Outcome → Instant → IngestionJob → IngestionJob
end_job (returned r) now j = record j { status = completed; result = some r; updated_at = now }
end_job (rejected e) now j = record j { status = failed; error = some e; updated_at = now }
end_job crashed now j = record j {
  status = failed;
  error = some (text "internal error during ingestion");
  updated_at = now;
}

-- The thread takes the next item: `none` in the queue ends it.
unfoldable pub take_item : Instant → Worker → List (Option (Text × Json)) → Option Worker
take_item now w [] = none
take_item now w (none ∷ rest) = some (record w { queue = rest; phase = stopped })
take_item now w (some (id, payload) ∷ rest) =
    updated id (handling id) (start_job now) (record w { queue = rest }) (lookup id w.jobs)

-- One step; `none` is a step that is not possible in this state, or that raises.
unfoldable pub step : Worker → Event → Option Worker
unfolding submit take_item
step w (submits id tenant payload now) = some (submit id tenant payload now w)
step w stops = some (record w { queue = w.queue ++ none ∷ [] })
step w (takes now) = elim w.phase [
  | waiting ↦ take_item now w w.queue
  | stopped ↦ none
  | handling id ↦ none
]
step w (finishes outcome now) = elim w.phase [
  | waiting ↦ none
  | stopped ↦ none
  | handling id ↦ updated id waiting (end_job outcome now) w (lookup id w.jobs)
]
