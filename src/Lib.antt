-- ===== src/Lib.antt =====
-- Auto_Apply: the accounts and the language-model routing of the back end, modelled and verified.
--
-- The program signs users in and routes each of their requests to one of their language-model
-- providers. The parts and the files that model them:
--   * `Common` and its children: Booleans, lists, texts, sorting, and the monad of a transaction's
--     code (a state, with an outcome that may be an error).
--   * `Json`: the values of Python's `json`.
--   * `Auth` (backend/app/auth): `Store` is the tables (backend/app/db/repositories/
--     auth_repository.py), `Tokens` security.py, `Policy` the checks of a registration, `Service`
--     `AuthService` with `register`, `login`, `refresh`, `logout` and `me`, `Settings`
--     settings_service.py, and `Keys` the API keys of the repository. The other children prove what
--     the accounts and sessions promise.
--   * `Llm.Breaker` (backend/app/db/repositories/llm_router_repository.py, lines 132-236): the
--     table of circuit breakers, each guarded UPDATE with its row count. `Llm.Breaker.Edges` is the
--     state machine as a data type of moves, from which the router's promises are stated.
--   * `Llm.Gate` (backend/app/llm/router.py: `cooldown_for_retry_after`, `_handle_breakers`,
--     `_handle_count_failure`, the branch for 429): what the router does with a breaker.
--   * `Llm.Registry` (backend/app/llm/registry.py): the registered providers.
--   * `Llm.Store` (the repositories' rows, backend/app/db/context.py): the tables that the router
--     reads and writes, the log of calls, and the rollback of a transaction.
--   * `Llm.Router` (backend/app/llm/router.py): `Resolve` is `_resolve_chain`, `Attempt` the body
--     of the loop of `route_llm_request`, `Exhaust` is `_exhaust`, `Route` the loop and the whole
--     request.
--   * `Llm.Structured` (backend/app/llm/router.py: `generate_structured`): the typed request with
--     its repair prompts.
--   * `Llm.Providers` (backend/app/llm/service.py): a user's providers are listed, added, removed and
--     tested.
--   * `Llm.JsonText` (backend/app/llm/json_utils.py): `parse_llm_json` and its repair.
--   * `Llm.Cipher` (backend/app/llm/crypto.py): the sealed keys of providers.
--   * `Llm.Dialects` (backend/app/llm/schema_dialects.py): the two dialects of a JSON schema.
--   * `Json`: the values of Python's json module, and dicts by their entries.
--   * `Jd` (backend/app/core_engine): the extraction of a job posting. `Jd.Store`
--     (backend/app/db/repositories/core_engine_repository.py) holds jobs and snapshots, `Jd.Schema`
--     (jd_schema.py and gaps_for of jd_doors.py) the fields of a posting, and the rest is
--     jd_extractor.py: `Jd.Injection` the scans for injection and refusal, `Jd.Budget` the budget and
--     the trimming, `Jd.Section` is `_run_door4_section`, `Jd.Doors` the doors 1 to 3, `Jd.Ask` the
--     doors 4 and 5, `Jd.Classify` the entry door of a url (jd_classify.py), `Jd.Extract` is `extract_job`, and `Jd.Refresh` is `refresh_job` with the small
--     operations on a job. `Jd.Keeps` and the children prove what these promise.
--
-- `route_llm_request` and `generate_structured` call the gate, the store and the adapters;
-- `generate_structured` also reads each answer by `parse_llm_json`. `Jd.Section` and `Jd.Ask` call
-- `route_llm_request` for each section and read the answer by `parse_llm_json`; their error rows and
-- the audits go into the router's world.
--
-- Conventions. Ids are numbers, times and waits are whole microseconds, texts that the code looks
-- into are lists of code points, and names are strings. A table is a list of rows, the breakers are
-- a partial map by user and provider, since the pair is unique. Row-level security is the test on
-- `user_id`. A transaction is one step: other requests do not interleave inside it, and what they
-- do between two guarded UPDATEs is covered by the laws on each UPDATE. The outside enters by
-- parameters: `Env.chat` answers a call by the number of calls before it, `Env.decrypt` is the
-- cipher, `Env.jittered` the product with the deterministic jitter, `loads` is `json.loads`,
-- `Shape.validate` is the model class, and `Crypto` the JWT library, bcrypt, SHA-256 and Python's
-- classes of characters. `JdEnv` is the web, the prompts, pydantic, SHA-256, `str.lower` and the
-- process environment for an extraction. What `AuthService` draws at random comes as an argument.
--
-- Bounds. The chain is a list, the repairs that are left are a number, and the other scans go through
-- a text. The scan for injection has fuel, the length of the text: every step takes at least one
-- character. The inlining of references has a depth, the frames that the interpreter leaves, behind
-- which Python raises as well. A negative JD_EXTRACTION_TOKEN_BUDGET stands as 0, which leaves as little to spend.
--
-- Not modelled: the adapters' HTTP, the profiles, the
-- extraction of resumes, the fetching and parsing of pages, and `list_jobs`; the copies of third-party
-- code.
pub mod Auth
pub mod Common
pub mod Jd
pub mod Json
pub mod Llm
