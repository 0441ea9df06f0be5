-- ===== src/Lib.antt =====
-- Steadhold: what the worker, the API and the policies of the control plane promise, checked.
--
-- Steadhold runs one Postgres per project on a fleet of nodes. The API writes jobs; a queue
-- delivers them; workers claim them, run their sagas step by step, and place projects on nodes.
--
-- Jobs (file by file; paths are from the repository's root):
--   Jobs/Repo         services/worker/src/jobs/repo.ts: each SQL statement as a function on the
--                     list of rows, with the time as an argument. byIdempotencyKey,
--                     markEnqueued, claim, heartbeat, saveCheckpoint, succeed, fail, findOrphans
--                     keep their names, in snake_case.
--   Jobs/Runner       services/worker/src/jobs/runner.ts: createRunner's check of its thresholds
--                     and execute. The world that the steps act on is abstract; a step returns a
--                     world, or a world and an error.
--   Jobs/Queue        packages/queue/src/index.ts: the deliveries and their ids. BullMQ is the
--                     interface BullQueue, with its documented behaviour for a repeated jobId as
--                     its laws.
--   Jobs/Sweeper      services/worker/src/sweeper.ts: sweepOnce over the two above.
-- Placement:
--   Placement/Plans, Packing, Ports   services/worker/src/placement.ts: the plan tables, fits,
--                     rankNodes, pickPort and pickPortPair.
--   Placement/Store, Transactions     the tables `nodes` and `project_databases`, registerNode,
--                     pickNode, allocateNode, releaseNode, releaseRam and bookRam; and, of
--                     services/worker/src/reconcile.ts, the recomputation of a node's RAM.
-- The rest:
--   Email/Caps, Gate  packages/email/src/caps.ts and gate.ts: capsFor and checkAndConsume over the
--                     interface CounterStore for Redis.
--   Access            packages/types/src/authz.ts: the capability matrix.
--   Backup/Schedule   services/worker/src/backup-schedule.ts: when a base backup is due.
--   Kernel/RateLimit  services/api/src/kernel/rate-limit.ts: createMemoryRateLimiter.
--   Scans/Ladders     services/worker/src/disk-scan.ts and wal-scan.ts: rungFor, a turn of scanOnce,
--                     archiveRungFor.
--   Dashboard/Resume  apps/dashboard/src/lib/resume-machine.ts: resuming on visit.
-- The SQL console:
--   SqlGuard/Lexer, Split, Names, Danger, Classify   packages/sql-guard/src: lex, split, and what
--                     index.ts reads off a statement. A text is the list of its UTF-16 code
--                     units; a position in the tokens is the list of those from there on.
--   Console/Run       services/api/src/modules/db/run.ts: checkRequest and runScript. The
--                     connection is the interface Client, of any behaviour; the session keeps
--                     what was sent through it.
-- The table editor:
--   Dashboard/GridSql, Page, Dml   apps/dashboard/src/lib/grid-sql.ts and dml.ts: the texts of pages,
--                     counts and row edits, with their parameters. A row is a function from
--                     columns to fields; String is a parameter.
--   Dashboard/Ddl     apps/dashboard/src/lib/ddl.ts: the text of each statement. toLowerCase is a
--                     parameter; notices and migration file names are left out.
-- The end users of a project:
--   Auth              services/api/src/modules/project-auth: the tables of the `auth` schema.
--   Auth/Users, Sessions, Links, Revocation   store.ts: each statement or transaction as a function
--                     on the tables, with its name in snake_case. Ids and digests are numbers;
--                     sha256, lower and the drawn ids and tokens are arguments.
--   Auth/Listing      listUsers with the microseconds that Postgres keeps, and its cursor.
--   Auth/History      the transactions on sessions as steps that requests interleave freely.
--   Auth/Refresh, Login, Signup, Verify   routes.ts: refreshGrant, the password grant, the password
--                     part of PUT /user, /logout, DELETE /sessions/:id, /signup, doVerify,
--                     verifyEmailChange and proposeEmailChange, after their limiters. What other
--                     requests commit before each statement is a function, the argument `gap`.
-- The control plane:
--   Kernel/Pagination services/api/src/kernel/pagination.ts: limits, cursors and pages, and a client
--                     that follows the cursors (no more pages than rows, and one). JSON, base64url,
--                     Number and Date.parse are parameters.
--   ControlPlane/Store   services/api/src/modules/control-plane/store.ts: createMemoryStore.
-- Each parent has children that hold its proofs; the Tests of each hold runs on small inputs.
--
-- Loops. Those over rows, steps, nodes and candidates recur on the list. pickPort and
-- pickPortPair recur on the number of ports or pairs left in the range, which is exactly the
-- number of rounds of the loops in the code. Decimal notation recurs on n + 1 digits at most,
-- more than n has. The loops of the lexer recur on the text, with the number of code units that
-- were read already and are still to be passed over; objectNames recurs on the number of tokens
-- ahead, and each of its rounds takes one.
--
-- Numbers are natural numbers; where the code subtracts, the comparison is written with the
-- term on the other side. 0.85 and 1.2 are the fractions 85/100 and 12/10 in exact arithmetic, but
-- for the ratios of the ranking, which are doubles.
--
-- A transaction is one step: Postgres' row locks are what makes it so in the code. Where the
-- code reads outside the lock (the ranking of nodes, the placement that bookRam reads), the earlier
-- reading is a separate, arbitrary argument. A statement is taken to succeed, but for the errors
-- that the code itself raises and a violated UNIQUE.
--
-- Parameters: BullQueue for BullMQ, CounterStore for Redis, Platform for doubles and
-- localeCompare on host names (two total, transitive orders), NODE_STALE_SECONDS and the port
-- ranges for what is read from the environment; Client for the database connection; toUpperCase (outside ASCII), toLowerCase
-- and String.
--
-- Not modelled: logging, metrics, error messages; the sagas' own steps, Docker, the running of
-- backups and of the scans; the API but for the in-memory rate limiter, pagination, the
-- in-memory project store, the runs of the console and the parts of the project users' module
-- named above (metadata, the admin routes and the searches are left out there too); the sentences
-- that the SQL guard shows; the views of the dashboard and the cryptographic packages.
pub mod Base
pub mod Access
pub mod Auth
pub mod Backup
pub mod Console
pub mod ControlPlane
pub mod Dashboard
pub mod Email
pub mod Jobs
pub mod Kernel
pub mod Placement
pub mod Scans
pub mod SqlGuard
