-- ===== src/MemoryStore.antt =====
-- memory_store.py: documents by (tenant, document id), their chunks, the versions of one source,
-- and access lists. State holds the dictionaries, Uploads `persist`, Edits the other methods that
-- write, Reads the methods that only read; the other children prove what they promise.
pub mod State
pub mod Uploads
pub mod Edits
pub mod Reads
pub mod Calls
pub mod Consistent
pub mod Readable
pub mod Isolation
pub mod Currency
pub mod Access
pub mod Listing
pub mod Repeats
mod Tests
pub mod Versions
