-- ===== src/Lib.antt =====
-- A verification library for LightAI Go, a control plane that runs inference servers on the GPUs of
-- registered nodes. Four parts of the server and one of the agent are modelled.
--
-- The control plane (internal/server/api over internal/server/db). Control holds the tables as one
-- record and SQL transactions as lists of statements that may fail; its children model the handlers:
-- Control/Claim the sweep and the claiming of tasks in a heartbeat (sweepExpiredTasks,
-- claimAndReturnTasks), Control/Nodes HandleHeartbeat, MarkOfflineNodes and HandlePatchNodeTenant,
-- Control/Result HandleTaskResult, Control/Lifecycle activeDeploymentRun and HandleStartDeployment,
-- Control/Shutdown HandleStopDeployment and HandleDeleteDeployment. Control/Steps makes each handler's
-- effect one step and a history a sequence of steps. Control/Transactions and Control/LeaseRules carry
-- lemmas; Control/Exclusive, Expiry, Starting, Claiming, Queue, Sweeping, Reporting,
-- Stopping and Conflicts hold the
-- theorems, and Control/Tests applies them to the rows of Control/Samples.
--
-- The run-plan resolver (internal/server/runplan). RunPlan holds its inputs; RunPlan/Template is
-- substituteVars of template.go; RunPlan/Args and RunPlan/Args/Service are buildArgs, RunPlan/Env
-- buildEnv, RunPlan/Mounts buildMounts and cleanPath, RunPlan/Ports the ports, the health check, the
-- image and mergeDockerSpec, RunPlan/Devices buildDeviceBinding, RunPlan/Vars buildVarMap and
-- RunPlan/Resolve Resolve, all of resolver.go; RunPlan/Compat is CheckCompatibility of compat.go, RunPlan/Lint
-- LintRunPlan of lint.go and RunPlan/Detection DetectProcessStart of detection.go. RunPlan/Mounts/Parts
-- holds lemmas on paths; the modules named Laws and RunPlan/Args/Precedence hold the theorems, and RunPlan/Tests applies
-- them to the inputs of RunPlan/Samples.
--
-- Accounts and sessions (internal/server/auth, internal/server/authz). Auth holds the tables and the
-- functions of Go's libraries that the package calls; Auth/Sessions is the SessionStore of session.go,
-- Auth/Requests csrf.go and the tenant checks, Auth/Permissions resolvePermissions, Auth/Middleware
-- the middleware and the chains of internal/server/api/router.go, Auth/Passwords argon2.go,
-- Auth/Limiter ratelimit.go, Auth/Login HandleLogin and Auth/Account the other handlers of
-- handlers.go. Auth/Histories makes each operation on sessions a step; Auth/Revocation, Lifetime,
-- Guards, Granted, LoggedIn (on Tenancy and Opening), Changed and Switching hold the
-- theorems, and Auth/Tests applies them to Auth/Samples.
--
-- Users, tenants, memberships and roles (internal/server/rbac/handlers.go). Rbac holds the INSERT
-- statements under the constraints of their tables; Rbac/Users, Tenants, Memberships, Roles and Lists
-- are the handlers. Rbac/Branches, Inserting, Cases, Rows and Elsewhere carry lemmas on their branches and rows,
-- Rbac/Bootstrap is InitBootstrap of
-- internal/server/auth/bootstrap.go over the permissions and roles of Rbac/Catalog. Rbac/Steps makes each handler a step of a history, and Rbac/Tenancy runs over one for what depends
-- on memberships and roles only. Rbac/Admins, Scopes, Seats, Isolation, Disabling and
-- Bootstrap/Laws hold the theorems, and Rbac/Tests applies them.
--
-- The agent's reader of model files (internal/agent/collector/gguf_reader.go). Agent/Gguf reads values
-- and entries, Agent/Gguf/Header the whole header (readGGUFMeta) and Agent/Gguf/Quantization the types
-- of tensors; a file is the list of its bytes. Agent/Gguf/Bounds, Agent/Gguf/RoundTrip, whose writer
-- follows the format, and the modules named Laws below them hold the theorems, and Agent/Tests
-- applies them.
--
-- The parts meet in the start of a deployment: its preflight resolves a plan, and the handler writes
-- the plan's rows and leases. What the preflight finds is a parameter of the start. Common and Text
-- carry lists, Boolean tests, tables and Go's string functions, Text/Maps Go's maps and Text/Print
-- decimal printing; a string outside the control plane is a list of code points. The session that a
-- request carries decides which handlers of the control plane run at all; their tables are apart.
--
-- Times are seconds; the clock of sessions gives nanoseconds, which are cut to seconds where they are
-- stored. Ports and counts that are not positive are 0. A statement of a transaction may
-- fail for a reason outside the tables, by a parameter; statements whose errors the handlers ignore
-- succeed, and a statement on the tables of accounts fails only by a constraint. The stop handler's waits are a parameter that stands for what other handlers do meanwhile.
-- The inserts of the control plane leave out the foreign keys on a deployment. A handler is one step,
-- also where Go checks and updates in separate statements, so races between those are left out; idle
-- times are of any length, where Go's durations wrap.
-- Go maps are lists of entries in the order in which they are ranged over. Printing a number is on
-- fuel one more than the number, which RunPlan/Digits shows to be enough; arrays in arrays are read on
-- fuel one more than the size of the file, which Agent/Gguf/Bounds shows to be enough; all else is
-- structural recursion.
--
-- Not modelled: HTTP decoding and JSON answers, logs, metrics and audit rows other than a transfer's,
-- the hashes of a plan, the preflight, configuration editing,
-- the catalog, CRUD handlers, the rest of the agent, and the web interface, which are input and output
-- or are left for later.
pub mod Agent
pub mod Auth
pub mod Common
pub mod Control
pub mod Rbac
pub mod RunPlan
pub mod Text
