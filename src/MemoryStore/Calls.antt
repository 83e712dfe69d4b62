-- ===== src/MemoryStore/Calls.antt =====
-- Histories of a store: the calls that write, and their effect one after the other.
use production_rag.Base.{List, [], ◌∷◌, Option, Text, Result, ok, err}
use production_rag.Permissions.{ValueError}
use production_rag.Documents.{Instant, IngestResult, PersistResult}
use production_rag.MemoryStore.State.{Store}
use production_rag.MemoryStore.Uploads.{Options, persist}
use production_rag.MemoryStore.Edits.{mark_checked, update_document, delete_document}

pub data Call : Type 0 where
  persists : Instant → IngestResult → Options → Call
  checks : Instant → Text → Text → Call
  updates : Instant → Text → Text → List Text → Option (List Text) → Option Text → Call
  deletes : Text → Text → List Text → Call

-- A call that raises leaves the store as it was.
abbrev pub stored : Store → Result ValueError (PersistResult × Store) → Store
stored s (ok (r, s')) = s'
stored s (err e) = s

unfoldable pub step : Store → Call → Store
step s (persists now result o) = stored s (persist now result o s)
step s (checks now tenant document_id) = mark_checked now tenant document_id s
step s (updates now tenant document_id groups acl name) =
    (update_document now tenant document_id groups acl name s).1
step s (deletes tenant document_id groups) = (delete_document tenant document_id groups s).1

unfoldable pub run : Store → List Call → Store
run s [] = s
run s (c ∷ cs) = run (step s c) cs
