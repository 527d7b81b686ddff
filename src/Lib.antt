-- ===== src/Lib.antt =====
-- IBM Bob, a service that indexes repositories and answers queries of agents about them
-- (src/bob). A request passes the query gateway or the security middleware, which check its token,
-- its rate limit and its permissions; a query's raw results from the vector store are scored, ordered
-- and cut by the assembler; the ingestion orchestrator fills the stores in stages.
--
-- The files, and the code that each models:
--   Base            Boolean tests, lists over the native numbers, and Python's strings as lists of
--                   code points with the methods that the program calls.
--   Redis           the commands that the program sends, as interfaces with their documented laws
--                   (Counters, SortedSets, Strings), and reference stores that satisfy them (Reference,
--                   StringReference).
--   CircuitBreaker  src/bob/utils/circuit_breaker.py: `admit` and `settle` are the guard and the
--                   `try` of CircuitBreaker.call; `run` is a sequence of calls.
--   Query/Gateway   src/bob/query/gateway.py: verify_token, check_rate_limit, authenticate_request and
--                   get_rate_limit_stats under their names, with the counters of Redis as state.
--   Query/Assembler src/bob/query/assembler.py: the body of the loop over raw results
--                   (assemble_result), the confidence, the sort, the token budget, the filters.
--   Security/RateLimiter
--                   src/bob/security/rate_limiter.py, with the order of check and recording of
--                   src/bob/security/middleware.py (check_and_record): sorted sets as sliding windows.
--   Security/Middleware
--                   src/bob/security/middleware.py: dispatch of RateLimitMiddleware, over the limiter.
--   Security/Validation
--                   src/bob/security/validation.py: repository identifiers, commit hashes, numbers.
--   Security/Rbac   src/bob/security/rbac.py: scopes and roles, and repository access over the rows of
--                   the tables that its SQL statements read and write.
--   Security/Auth/Jwt, Security/Auth/ApiKeys
--                   src/bob/security/auth.py: JWTManager over a JWT library and Redis, and APIKeyManager
--                   over the rows of the table api_keys, with the constraints that
--                   docker/security-schema.sql puts on them.
--   Storage/Tables, Storage/Registry
--                   src/bob/storage/registry.py: the rows of the three tables, and the methods of
--                   IndexRegistryManager, each a transaction.
--   Storage/Cache   src/bob/storage/cache.py: FileCache under the names of its methods.
--   Semantic/Chunks, Semantic/Embedder
--                   src/bob/semantic/embedder.py: the chunks of symbols (_extract_chunks,
--                   _split_into_chunks) and the batches, attempts and fallback of their embedding.
--   Tools/EventBus, Tools/StateManager
--                   src/bob/tools/event_bus.py and langgraph_integration.py: EventSubscriber's handlers,
--                   and BobStateManager.
--   Ingestion/Networkx, Ingestion/Analyzer
--                   src/bob/ingestion/analyzer.py: the dependency graph, the service of a file and
--                   the blast radius, over the interface of the graph library; Resolve has
--                   _resolve_import_to_file over an interface of Python's paths.
--   Ingestion/Orchestrator
--                   src/bob/ingestion/orchestrator.py: the parsing of a repository; in Ingest,
--                   ingest_repository as a chain of stages that save checkpoints, and get_progress;
--                   Ingest/Pipeline has the plain sequence of the stages, its specification.
--
-- State is passed explicitly: a function that changes it returns it. Exceptions are values: a
-- constructor of the result, or None where the caller only tells a value from an exception. Clocks
-- are arguments, in whole seconds where the source truncates them. Redis, the JWT library, bcrypt,
-- Fernet, json, the UUID parser, random identifiers, float arithmetic, graphs, paths, embedding
-- models and the stages of an ingestion are arguments with the laws that are used of them. No
-- definition runs on fuel, except the digits of a number, which have as many rounds as the number
-- plus one, and the loops over batches of texts, which have as many as the source's range. Numbers
-- are natural and unbounded, and integers in Validation; where the source subtracts, the text beside
-- the definition says what happens below 0.
--
-- Not modelled: logging, metrics, tracing and the API handlers, which have no effect on what the
-- modelled parts return; the parsers, the graph and vector stores, the event emitter and the agents'
-- clients, which call other services; search queries and file paths, and the query router.
pub mod Base
pub mod CircuitBreaker
pub mod Redis
pub mod Query
pub mod Security
pub mod Ingestion
pub mod Storage
pub mod Semantic
pub mod Tools
