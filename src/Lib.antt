-- ===== src/Lib.antt =====
-- production-rag: documents are uploaded, cut into chunks and stored with an access list; a
-- question is answered by a model from the chunks that the caller may read.
--
-- How the parts interact. `api.py` establishes a `Principal` from the caller's key, and passes
-- its tenant and groups to every call of the store. The store keeps the versions of each source
-- and answers reads and searches under the access rules of `permissions.py`. An answer is made by
-- the gateway, which asks the configured providers in order, within a token budget, a number of
-- attempts and a deadline, and falls back on an extract of the sources. The API keeps the chat
-- history of a session, limits the requests of a caller and the tokens of a tenant, and records
-- the time that requests take.
--
-- Which file models which part:
--   Base           lists, dictionaries, texts, sorting and results that all parts use
--   Json           the values that a request body is decoded to
--   Permissions    permissions.py: Principal, normalize_groups, can_read_groups, can_read
--   Auth           auth.py: ApiKeyStore; Keys is about which keys are accepted
--   Providers      providers.py: cited_sources, heuristic_rewrite, history_for_model and
--                  ExtractiveProvider.generate; strip_invalid_citations is in Api/Answers, the
--                  ChatTurn in History and the Generation in Gateway/Attempts
--   Workers        workers.py: IngestionJob and IngestionWorker; Jobs and Thread are about the
--                  states that callers and the thread can reach
--   Documents      Chunk and IngestResult of rag.py; SourceRef and PersistResult of persistence.py
--   Chunking       rag.py: RagIngestionPipeline; the root file has _split and ingest_segments, Tiling
--                  is about the windows of _split, Numbering about the chunks of ingest_segments
--   Query          query.py: RagQueryPipeline; Evidence is about the gate and the result
--   MemoryStore    memory_store.py: State has the fields of InMemoryStore, Uploads has persist,
--                  Edits has mark_checked, update_document and delete_document, Reads has
--                  current_version, list_documents, get_document and readable_chunks; the other
--                  files prove what they do
--   History        history.py: ChatHistoryStore
--   Observability  observability.py: Bucket is RateLimiter, Budgets is DailyTokenBudget, Histogram
--                  is Metrics.observe_latency
--   Byok           byok.py: parse_llm_settings, check_public_url, presets_for_ui, and the settings of
--                  build_user_provider; Settled is about the settings that are accepted
--   Parsers        parsers.py: sniff, parse, _TextExtractor and the loop of parse_pdf; Signs and
--                  Sniffing are about which uploads are accepted as what, Extraction and Unclosed
--                  about the text of a page, Pages about the pages of a PDF
--   Api            api.py: the root file has the state of RagApiApplication and the statements of
--                  handlers, Uploads has _tenant, _source_fields and _document_job, Ingestion has
--                  _ingest_document and _create_document, Documents the other handlers, Answers and
--                  Asking have retrieve and _answer, Routing has routes, _route and handle, Models has
--                  the two kinds of models that answer; the other files prove what a request does
--   Gateway        gateway.py: Breaker is CircuitBreaker, Packing is Budget, Failures has
--                  is_retryable and retry_after_seconds, Delays is about the headers on which the
--                  latter raises, Attempts has GatewayProvider._attempt, and
--                  Complete has GatewayProvider.complete, _priced and rewrite_query
--
-- How state and operations correspond. The fields of an object are a record, and a method is a
-- function from the record to its result and the record after it, since a lock makes each method
-- one step. An exception is the `err` of a `Result`. A `dict` is the list of its entries in
-- insertion order. A `str` is the list of its code points; what Python's `str` methods ask
-- Unicode is the parameter `Unicode`. Instants and durations are natural numbers of ticks, and
-- rates, tokens and prices are natural numbers of parts, so that the arithmetic of floats is
-- exact here; the rounding of a cost to six digits and of a score to four is not modelled. A
-- clock is monotonic: an instant that is passed to a method is not before the ones passed earlier
-- where a theorem says so.
--
-- Loops are structural recursion over the list that the source iterates over, or over the number
-- of attempts left. The loop of _split has the number of tokens as fuel; that is enough, since
-- each round starts at a later token. The providers, the clock, the pause between attempts and
-- the jitter are operations of an environment over any state, about which nothing is assumed.
--
-- A handler of the API is a function of the application that returns a result or an exception with
-- the application after it; what was written before an exception stays. A request is one step: the
-- requests of several threads are a sequence. The application stands on the in-memory store; the
-- models that it asks are the record `Model` over any state of the network. Of an answer, its
-- scores are not rounded, and the log records and the latency of a test call are left out.
--
-- Exceptions of the standard library that the source does not expect are modelled where they reach
-- a caller: int() on a number that is too long (Api/Answers), float() on digits that are not decimal
-- (Gateway/Failures), and str.encode on a lone surrogate (Chunking).
--
-- Not modelled: PostgreSQL and the SQL text sent to it, HTTP in both directions, JSON and regular
-- expressions of the standard library, the HTML tokenizer and PDF reader, the parsing subprocess, embedding and reranking models, threads
-- beyond the locks, logging, the evaluation scripts, the web page and the legacy application.
pub mod Base
pub mod Json
pub mod Permissions
pub mod Documents
pub mod MemoryStore
pub mod History
pub mod Observability
pub mod Gateway
pub mod Chunking
pub mod Query
pub mod Auth
pub mod Workers
pub mod Providers
pub mod Byok
pub mod Parsers
pub mod Api
