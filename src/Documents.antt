-- ===== src/Documents.antt =====
-- The values that ingestion hands to a store: rag.py's chunks and results, persistence.py's source
-- references and reports. An instant is a number of microseconds.
use production_rag.Base.{ℕ, Bool, Option, List, Text}

abbrev pub Instant : Type 0
Instant = ℕ

pub record Chunk : Type 0 where
  pub text : Text
  pub document_id : Text
  pub index : ℕ
  pub tenant_id : Text
  pub source : Text
  pub id : Text
  pub created_at : Instant
  pub page : Option ℕ

pub record IngestResult : Type 0 where
  pub document_id : Text
  pub content_sha256 : Text
  pub chunks : List Chunk

pub record SourceRef : Type 0 where
  pub system : Text
  pub id : Text
  pub version : Option Text
  pub modified_at : Option Instant

pub record PersistResult : Type 0 where
  pub document_id : Text
  pub chunks_written : ℕ
  pub already_existed : Bool
  pub version : ℕ
  pub superseded : List Text
