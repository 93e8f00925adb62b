-- ===== src/Lib.antt =====
-- apirun: versioned migrations of HTTP APIs and their orchestration in stages.
--
-- The program applies migration files against an API, in the order of their versions, and records
-- what it applied in a history store; an orchestrator runs several such migrations as stages with
-- dependencies. The parts, from the bottom up, with the files that model them:
-- - Retry (internal/retry/retry.go): WithRetry is `with_retry`, a loop on the number of attempts
--   left, over an operation on any state. Delays are numbers of nanoseconds in ℤ; the product of a
--   delay and a power of the backoff factor, which Go computes in floats, and strings.ToLower are
--   fields of the configuration. Retry/Attempts and Retry/Outcomes are about it.
-- - Store (internal/store/sqlite/store.go): the tables are lists in `Db`, each method is the
--   meaning of the SQL statement that it sends, run under `with_retry`. A `World` holds the tables,
--   the clock and the attempts that the database will refuse, so that every statement may fail. A
--   statement that is refused changes no table. Columns hold texts and maps instead of their
--   encodings. Store/Laws, Store/Versions and Store/Variables are about it. Store/Postgresql models
--   the methods of internal/store/postgresql/store.go: a statement of many rows is built as its
--   clauses of numbered placeholders and the list of arguments, and a refused insertion of a run
--   may use up a number of the sequence behind the ids. Its columns of numbers are INTEGER, so
--   that an argument from 2^31 on is refused. Store/History says what both promise: a
--   history of versions, variables and entries, with the changes that it accepts; Store/Shows says
--   what history the tables show, and Store/Refinement and Store/Postgresql/Refined compare the
--   stores with it. Store/Facade models store.go and config.go above them: DSNs, table names,
--   placeholders and Connect, with opening a database and creating its tables as parameters;
--   Store/Names is about it.
-- - Security (pkg/security/template_validator.go): a parsed template is a tree of nodes; parsing
--   and regular expressions are parameters, and so are the expressions that are forbidden.
-- - Env (pkg/env/env.go): the layers auth, global and local, as association lists; a value that an
--   auth provider computes is named by its entry. Env/Render is RenderGoTemplate behind the
--   validator, with the template engine as a parameter.
-- - Task (internal/task): Task/Request renders a request and sends it, Task/Response checks and
--   reads the answer, Task/Execute has Execute of Up and of Down with the step `find`. The record
--   `Net` is what is outside: files, gjson, JSON and the client, whose answer may depend on the
--   requests sent so far. Each function returns the requests sent. Task/Extracted, Rendering, Merged,
--   Sent and SentDown are about it.
-- - Migration (internal/migration): Migration/Types has the data, Migration/Planning planUp and the
--   settings, Migration/Files listMigrationFiles, Migration/TaskEnv the environment of a task
--   (initTaskAndEnv, prepareTaskEnv, ensureAuth), Migration/Up and Migration/Down the methods
--   MigrateUp and MigrateDown with runUpForFile and runDownForVersion. What is outside is the
--   record `Outside`: listing and loading files, executing a task over HTTP, whose answer may
--   depend on the executions so far, and sleeping. A `Session` carries the world of the store and
--   the list of executions. Go's int is 64 bits wide; versions are ℕ, and the current version of a
--   dry run is in ℤ since a user may put it below 0. Migration/Planned, UpSteps, UpLoop,
--   UpRuns, UpAgain, DownSteps, DownRuns, DownAll and DryRun are about it.
-- - Orchestrator (pkg/orchestrator): Orchestrator/Types has the records of types.go;
--   Orchestrator/Graph models dependency.go: Graph builds the graph, Graph/Cycle searches it for a
--   cycle, Graph/Kahn sorts it, Graph/Batches groups it, Graph/Dependents collects what depends on
--   a stage. Go visits the nodes of a map in an order of its own, so the order is an argument
--   (`visits`) and the theorems hold for each. The flags Visited and InStack of the nodes are the
--   state of one search. Orchestrator/Loader models the checks of loader.go, Orchestrator/Plan the
--   plans of orchestrator_utils.go, and Orchestrator/Execution what orchestrator_execution.go does
--   with one stage, with its failure, and in ExecuteStagesDown. Orchestrator/Core models the
--   loading of an orchestrator (orchestrator_core.go). Orchestrator/Execution/Batch models
--   executeBatch and ExecuteStages: each goroutine goes through phases, a step of a batch is a step
--   of any of its goroutines, and the outcomes of a run are an inductive relation; that a goroutine
--   waits for a lock, the capacity of errCh and the WaitGroup are not part of it. The files,
--   text/template and the migrator of a stage are the record `Runner`. The other modules below
--   Orchestrator are about these.
-- - Create (create.go): CreateMigration on a map of files; the clock and what the file system
--   refuses are the record `Machine`. Create/Named is about it and about what a run makes of such a
--   file.
-- - Validation (cmd/apirun/validation): Validation/Structure has the checks of structure.go on a
--   decoded document, Validation/Files the rest; a message is a constructor, so that errors are
--   told apart and counted. Validation/Rules says what a correct file is; Validation/Checks,
--   Requests, Valid and Counts are about it.
-- - Library (apirun.go, cmd/apirun/config/store_config.go): the configuration of the store that
--   MigrateUp, MigrateDown and OpenStoreFromOptions connect with, each with its own copy of the
--   code, and the directory that the last one makes. Library/Agreement compares them.
-- - Wait (cmd/apirun/commands/wait.go): DoWait with its polling. The probes, the times behind them
--   and the cancellation are functions of the number of the probe.
-- - Status (pkg/status/status.go): collecting the status from a store, and the four ways to show
--   it, as lists of pieces of text and colour codes; Status/Limited has the two with a limit.
--   Status/Shown is about it.
-- - Prelude: the library's names that all parts share, lists and maps over the native numbers, and
--   sorting. Tests: small inputs, and the theorems at them.
--
-- The searches on the graph recurse on fuel: the depth-first search gets one unit for each node,
-- the sort and the grouping one for each node and one more, and the collection of dependents one
-- for each entry of the edges and two more. The theorems below that say that a search ends, or that
-- name what it returns without a condition on the fuel, show that this is enough. The polling of
-- DoWait has no bound of its own: its fuel is the number of probes, and the theorems on it say how
-- many do. All other loops are structural.
--
-- Not modelled: authentication (internal/auth) and the HTTP client (internal/httpc), which exchange
-- requests with libraries; logging and masking (internal/common); the decoding of configuration and
-- of migration files, which YAML libraries do; and the commands (cmd) but for wait and validate:
-- they parse flags, call what is modelled here and print. Of the orchestrator, copying its results
-- is left out.
pub mod Prelude
pub mod Orchestrator
pub mod Retry
pub mod Security
pub mod Task
pub mod Store
pub mod Env
pub mod Migration
pub mod Create
pub mod Status
pub mod Wait
pub mod Library
pub mod Validation
pub mod Tests
