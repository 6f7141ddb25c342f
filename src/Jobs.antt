-- ===== src/Jobs.antt =====
-- The queue of background jobs: apps/api/src/lib.ts `enqueue`, and the claim and the outcomes in the
-- loop of apps/worker/src/index.ts. The rows stand in the order of `created_at`. `(kind, target)` is
-- unique, as the table's constraint says.
pub mod Queue
use astra_file_host.Base.{
  ℕ, zero, suc, ◌+◌, ◌*◌, ◌^◌, ◌≡◌, Bool, true, false, ◌&&◌, ◌||◌, not, Option, none, some, List,
  [], ◌∷◌, ◌==◌, ltb, if◌then◌else◌, find, update_where,
}
use astra_file_host.Database.{
  JobKind, JobStatus, Job, Db, cleanup, reconcile, statistics, hash, purge, scan, backup, pending,
  running, completed, failed,
}

abbrev pub same_kind : JobKind → JobKind → Bool
same_kind cleanup cleanup = true
same_kind reconcile reconcile = true
same_kind statistics statistics = true
same_kind hash hash = true
same_kind purge purge = true
same_kind scan scan = true
same_kind backup backup = true
same_kind _ _ = false

abbrev pub is_job : JobKind → ℕ → Job → Bool
is_job kind target j = same_kind j.kind kind && j.target == target

-- `WHERE background_jobs.status IN ('FAILED','COMPLETED')`
abbrev pub is_finished : JobStatus → Bool
is_finished failed = true
is_finished completed = true
is_finished pending = false
is_finished running = false

-- `DO UPDATE SET status='PENDING',updated_at=now() WHERE …`
abbrev requeue : ℕ → Job → Job
requeue now j = if is_finished j.status then record j { status = pending; updated_at = now } else j

-- `INSERT … ON CONFLICT(kind,target) DO UPDATE …`
unfoldable pub enqueue_row : ℕ → JobKind → ℕ → List Job → List Job
enqueue_row now kind target [] =
    record { kind = kind; target = target; status = pending; attempts = 0; updated_at = now } ∷ []
enqueue_row now kind target (j ∷ js) =
    if is_job kind target j then requeue now j ∷ js else j ∷ enqueue_row now kind target js

abbrev pub enqueue : ℕ → JobKind → ℕ → Db → Db
enqueue now kind target db = record db { jobs = enqueue_row now kind target db.jobs }

-- `status='PENDING' OR (status='FAILED' AND attempts<5 AND updated_at<now()-power(2,attempts)*interval '1 minute')`
abbrev pub is_due_status : ℕ → ℕ → ℕ → JobStatus → Bool
is_due_status now attempts updated_at pending = true
is_due_status now attempts updated_at failed =
    ltb attempts 5 && ltb (updated_at + 2 ^ attempts * 60000) now
is_due_status now attempts updated_at running = false
is_due_status now attempts updated_at completed = false

abbrev pub is_due : ℕ → Job → Bool
is_due now j = is_due_status now j.attempts j.updated_at j.status

-- `CASE WHEN kind='hash' THEN 1 ELSE 0 END`, of a job that is due.
abbrev pub is_urgent : ℕ → Job → Bool
is_urgent now j = is_due now j && not (same_kind j.kind hash)

abbrev pub first_of {ℓ} : {A : Type ℓ} → Option A → Option A → Option A
first_of (some a) b = some a
first_of none b = b

-- `ORDER BY … LIMIT 1`
unfoldable pub next_job : ℕ → List Job → Option Job
next_job now jobs = first_of (find (is_urgent now) jobs) (find (is_due now) jobs)

abbrev pub run_job : ℕ → Job → Job
run_job now j = record j { status = running; attempts = suc j.attempts; updated_at = now }

abbrev pub mark : ℕ → JobStatus → Job → Job
mark now status j = record j { status = status; updated_at = now }

abbrev pub set_status : ℕ → JobStatus → Job → List Job → List Job
set_status now status j jobs = update_where (is_job j.kind j.target) (mark now status) jobs

abbrev start_job : ℕ → Option Job → List Job → Option Job × List Job
start_job now none jobs = (none, jobs)
start_job now (some j) jobs =
    (some (run_job now j), update_where (is_job j.kind j.target) (run_job now) jobs)

-- The claim: the job that is next becomes running, and is returned.
unfoldable pub claim : ℕ → List Job → Option Job × List Job
unfolding next_job
claim now jobs = start_job now (next_job now jobs) jobs

-- `UPDATE background_jobs SET status='PENDING',updated_at=now() WHERE status='RUNNING'`, at the start
-- of the worker.
abbrev pub is_running : JobStatus → Bool
is_running running = true
is_running _ = false

unfoldable pub restart : ℕ → List Job → List Job
restart now jobs = update_where (λ j. is_running j.status) (mark now pending) jobs

-- `UPDATE background_jobs SET status='PENDING',attempts=0,… WHERE … AND status='FAILED'`, by an
-- administrator.
abbrev pub is_failed : JobStatus → Bool
is_failed failed = true
is_failed _ = false

abbrev pub reset_job : ℕ → Job → Job
reset_job now j = record j { status = pending; attempts = 0; updated_at = now }

abbrev pub retry : ℕ → JobKind → ℕ → List Job → List Job
retry now kind target jobs =
    update_where (λ j. is_job kind target j && is_failed j.status) (reset_job now) jobs

-- What happens to the queue: requests enqueue and retry, and the worker claims, ends a job, or starts anew.
pub data QueueStep : List Job → List Job → Type 0 where
  enqueued :
      {js : List Job} (now : ℕ) (kind : JobKind) (target : ℕ)
      → QueueStep js (enqueue_row now kind target js)
  retried :
      {js : List Job} (now : ℕ) (kind : JobKind) (target : ℕ)
      → QueueStep js (retry now kind target js)
  claimed : {js : List Job} (now : ℕ) → QueueStep js (claim now js).1
  succeeded : {js : List Job} (now : ℕ) (j : Job) → QueueStep js (set_status now completed j js)
  broken : {js : List Job} (now : ℕ) (j : Job) → QueueStep js (set_status now failed j js)
  restarted : {js : List Job} (now : ℕ) → QueueStep js (restart now js)

pub data Evolves : List Job → List Job → Type 0 where
  unchanged : {js : List Job} → Evolves js js
  onwards : {js ks ls : List Job} → Evolves js ks → QueueStep ks ls → Evolves js ls
