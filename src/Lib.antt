-- ===== src/Lib.antt =====
-- AstraFileHost: a file host with resumable multipart uploads to an object storage, shares, quotas, a
-- worker for background jobs and encrypted backups.
--
-- The parts of the program and the files that model them (paths from the root of the repository):
--   Validation       packages/validation/index.ts: the plan of a multipart upload; and
--                    packages/validation/endpoints.ts: the storage endpoints of a browser
--   Settings         packages/config/index.ts `settingsSchema` and the schemas of plans
--   Database         packages/database/migrations: the tables, and the view of the balances
--   Transaction      packages/database/index.ts `tx`: handlers as actions over the database and the storage
--   Storage          packages/storage/index.ts: the interface of the object storage
--   Entitlements     apps/api/src/entitlements.ts: the policy in force of an account
--   Limits           apps/api/src/lib.ts: `writable`, `reserve`, `bandwidth`, `limited`
--   Jobs             apps/api/src/lib.ts `enqueue`, the queue in apps/worker/src/index.ts, and the retry of
--                    a job in apps/api/src/admin.ts
--   Shares           apps/api/src/share-capability.ts, apps/api/src/shares.ts, and the access to a file
--                    for a download in apps/api/src/files.ts
--   Uploads          apps/api/src/uploads.ts: creation, signing, acknowledgement, completion, abort
--   Files            apps/api/src/files.ts: changes of files and folders, by their owner and by a
--                    moderator
--   Auth             apps/api/src/auth.ts, apps/api/src/account-security.ts, apps/api/src/keys.ts:
--                    accounts, sessions, API keys, roles, links to emails and resets; and the changes
--                    of accounts, keys, jobs and reports in apps/api/src/admin.ts
--   Gateway          apps/api/src/index.ts: the hook of every request, and the answers to errors
--   Worker           apps/worker/src/index.ts: `purge`, `cleanup`, `scan`, `reconcile`, the timetable
--   Engine           apps/web/src/upload/engine.ts: the list of transfers of the browser, and the loop
--                    over the parts of a file
--   Metrics          apps/api/src/transfer-metrics.ts: the traffic of the storage
--   Cloud            apps/api/src/cloud.ts: versions of files, their pruning and the replacement of a file
--   Privacy          packages/privacy/crypto.ts: key rings, digests and encrypted fields; and
--                    packages/privacy/index.ts: the rings by purpose and the lookups
--   Backup           packages/privacy/backup.ts: the format of encrypted backups
--   Base, Tests      shared types and lemmas; runs on a concrete database and the theorems applied to it
--
-- How they interact: the browser's engine cuts a file by the plan, the upload handlers reserve room
-- under the limits, sign the parts and complete the upload at the storage; a completion enqueues jobs
-- and may create a share; the worker expires, scans and purges what the handlers leave. Before a
-- handler runs, `Auth` finds out who calls and `Gateway` refuses what may not pass.
--
-- The state: a `World` is the database, with one list or function for each table, and the state of the
-- storage. A handler is a function from a world to a result and a world, with the errors of the source
-- as values; `tx` restores the database when its body fails and leaves the storage as it is. The
-- storage, the cipher, clocks, fresh identifiers, and the answers of the rate limiter and of password
-- hashing are parameters: what the theorems on handlers say holds for every storage. A handler that
-- touches the database alone is a function to a `Result` of it, where an error leaves the old one.
--
-- Numbers stand for identifiers, texts, digests and times in milliseconds. Sizes are natural numbers;
-- the schemas keep them below 2^53, where the numbers of the source are exact. Settings in GiB are
-- whole numbers. The recursive queries over folders are walks or rounds of as many steps as there are
-- folders: a walk meets a folder once at most, and a round that adds no folder is the last. The loop of
-- the decryption has one round for each byte at most, and the inner loop of the engine one for each
-- part.
--
-- Not modelled: names of files and other texts that no modelled code reads, and with them the cut of the
-- files of a share at 5,000 in the order of their names, references to addresses of
-- the network, redaction, the answers of routes that only read, the settings of an administrator,
-- support, content, pages, and the calls of the AWS SDK, Redis, argon2, the mailer and the operating
-- system. Concurrent handlers are not interleaved: rows are locked by `FOR UPDATE` where handlers
-- change them.
pub mod Base
pub mod Validation
pub mod Settings
pub mod Database
pub mod Storage
pub mod Entitlements
pub mod Transaction
pub mod Limits
pub mod Jobs
pub mod Shares
pub mod Uploads
pub mod Engine
pub mod Files
pub mod Auth
pub mod Gateway
pub mod Metrics
pub mod Worker
pub mod Privacy
pub mod Backup
pub mod Cloud
pub mod Tests
