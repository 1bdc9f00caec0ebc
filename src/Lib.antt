-- ===== src/Lib.antt =====
-- 4ok keeps the context of a company and gives an agent the part of it that its principal may
-- see.
--
-- Sources enter by connectors and webhooks as source records, and change by one boundary, the
-- source changes. These write the tables of records, identities, objects, links and retrieval
-- units, the lifecycle table and the raw files. A search reads the records and the units, leaves
-- out what the permissions refuse, and writes to the audit trail. A retrieval of excerpts reads
-- them without a principal. Connector jobs and the webhook
-- inbox drive the changes. The modules follow these parts.
--
-- - Prelude: tests, lists, tables as lists of rows, texts as Python sees them, dictionaries as
--   association lists in the order of insertion, stable sorts (Sort), grouping by a key (Groups),
--   and exceptions as results. An operation that may raise returns the state beside its outcome,
--   since what it wrote before stays written.
-- - Json: JSON values, and src/fourok/governance/permissions.py, `decode_json_string_list`. A
--   text column that holds JSON is the value that it is parsed to, or none.
-- - Records: src/fourok/etl/extract/source_records.py, the record types and
--   `effective_lifecycle_state`.
-- - Storage: src/fourok/storage/models and src/fourok/storage/raw_store.py, the rows of each
--   table, the files of the raw store, and the state with all of them. `Environment` holds what
--   the state computes by code that is not modelled: hashes, the clock, case folding, word
--   boundaries, embeddings and SQL LIKE.
-- - Permissions: src/fourok/governance/policy.py and src/fourok/governance/permissions.py. The
--   worklist over groups runs on fuel, the length of its stack and the number of the parents of
--   all groups: each round takes one group off the stack, and each parent is put there once.
--   Permissions/Identity is src/fourok/governance/identity.py, the principal of trusted claims.
-- - Audit: src/fourok/governance/audit.py. Lifecycle: src/fourok/governance/lifecycle.py.
-- - Retrieval: src/fourok/etl/load/retrieval_records.py and the writes of
--   src/fourok/retrieval/vector_search.py. Retrieval/Chunks: `chunk_text` of
--   src/fourok/retrieval/embeddings.py. Its loop runs on as much fuel as the text has words: the
--   start moves by at least one word.
-- - Metadata: src/fourok/etl/load/source_metadata.py, the storing of records, the refused sources
--   and `source_metadata`.
-- - Context: src/fourok/etl/load/context_objects.py, the objects; Context/Links, the links
--   between records, with the dictionaries they are looked up in (Values) and their ends
--   (Joined).
-- - Changes: src/fourok/etl/load/source_changes.py, `apply_source_changes` with its loop;
--   Changes/Store, the storing of the records of a batch. The other children hold the proofs,
--   from single writes (Governed, Stored) and rounds (Settled, Rounds) to batches (Batch,
--   Overtaken).
-- - Search: src/fourok/retrieval/search.py, both dialects; Search/Scores, the terms and the
--   scores; Search/Snippets, the snippet of a result. The full-text operators of PostgreSQL are a
--   parameter.
-- - Evidence: src/fourok/retrieval/evidence_pack.py, `build_evidence_pack`; Evidence/Objects,
--   what the records, objects and links are looked up by; Evidence/Related and Evidence/Buckets,
--   the related objects and their groups; Evidence/Entities and Evidence/People, the entities and
--   the people that a query leaves open. The other children hold the proofs, on the refs that
--   each list names (Sourced, Expansion, Ambiguity, Named, Pack) and on the groups (Grouped).
-- - Governance: src/fourok/governance/context.py, `search_context` with its results, its evidence
--   pack and its audit events.
-- - Augmentation: src/fourok/retrieval/augmentation.py, `retrieve_augmentation`, in the order of
--   the code: Excerpts, Vectors (with the search of src/fourok/retrieval/vector_search.py),
--   Candidates, Rerank (with src/fourok/retrieval/reranker.py), Cards, People, Contexts and
--   Related, Events, Render. Inspection is src/fourok/retrieval/inspection.py, `inspect_source`.
--   Augmentation/Python holds the parameters: the operations on floats, with the similarity of
--   embeddings (`Floats`), and regular expressions, title case and dates (`Library`). The loop
--   over the title in front of an excerpt runs on the length of the text as fuel: a match is not
--   empty, so each round but the last makes the text shorter. The replacement in a text runs on
--   its length as well.
-- - Jobs: src/fourok/etl/extract/sync_jobs.py and src/fourok/storage/models/connector_state.py.
--   Jobs/Exclusive has the step relation of the workers; Jobs/Locks has the specification that
--   they refine, a lock for each connector.
-- - Webhooks: src/fourok/runtime/webhooks.py and src/fourok/storage/models/webhook_event.py;
--   Webhooks/Readers, the payload of an event as a record; Webhooks/Queue, the rows with their
--   claims. Webhooks/Runs has the step relation of the inbox, and Webhooks/Drained runs that
--   follow each other.
-- - Resolution: src/fourok/etl/transform/entity_resolution.py, the clusters of identities, with the
--   similarity of names as a parameter (`Matcher`).
-- - Access: src/fourok/runtime/access.py, `check_compose_access_boundary`; Access/Ports, the port
--   mappings. `str` of a list or an object is a parameter.
-- - Retention: src/fourok/runtime/retention.py, the status of the retention windows and the
--   purges. What a date less a number of days is, is a parameter (`Clock`).
-- - Examples: the operations on small inputs.
--
-- A database transaction is one step, and no two operations interleave within it. Ids are
-- assigned in the order of insertion. Times are texts, or numbers of microseconds where the
-- source computes with them. Scores and confidences are natural numbers, but for the scores of a
-- retrieval, which are of the parameter `Floats`. An upsert of several rows takes them one by one,
-- as SQLite does; PostgreSQL refuses two rows with one key in a statement.
--
-- Not modelled are tracing spans and durations, the serialization of responses, and the helpers
-- of retrieval/augmentation.py that nothing calls (`_canonical_link_source_refs`,
-- `_thread_context_source_refs`, `_has_substantive_snippet`, `_compact`). Neither are the models
-- of embeddings, metrics, the connectors with their HTTP calls, the command line and the
-- deployment, since they do not decide what is stored or shown, or are the work of code outside
-- the repository.
pub mod Prelude
pub mod Json
pub mod Records
pub mod Storage
pub mod Audit
pub mod Lifecycle
pub mod Retrieval
pub mod Metadata
pub mod Context
pub mod Changes
pub mod Search
pub mod Evidence
pub mod Augmentation
pub mod Governance
pub mod Jobs
pub mod Resolution
pub mod Access
pub mod Permissions
pub mod Webhooks
pub mod Retention
pub mod Examples
