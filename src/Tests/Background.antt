-- ===== src/Tests/Background.antt =====
-- The worker on the fixture: the queue, a purge, an expiry and a scan.
use astra_file_host.Base.{
  ◌≡◌, ◌+◌, ◌⊎◌, refl, false, ◌&&◌, ◌==◌, find, if◌then◌else◌, some, none, List, [], ◌∷◌, ok, err,
  arith, map_found, api_error, request_failed,
}
use astra_file_host.Database.{
  Db, UploadState, FileRow, quarantined, Job, hash, purge, pending, running, failed, used_bytes,
  reserved_bytes,
}
use astra_file_host.Transaction.{World, tx}
use astra_file_host.Uploads.Finalize.{finalize}
use astra_file_host.Jobs.{
  is_job, is_finished, enqueue_row, claim, next_job, unchanged, onwards, enqueued, claimed,
}
use astra_file_host.Jobs.Queue.{
  IsKeyed, enqueue_row_waits, Evolves-IsKeyed, ClaimOutcome, claim_outcome,
}
use astra_file_host.Worker.{
  is_quarantined, scan, expire_rows, expire_locked, expire_upload, purge as purge_run,
}
use astra_file_host.Worker.Purge.{PurgeOutcome, purge_outcome, purge-used}
use astra_file_host.Worker.Scan.{judged, scan-find}
use astra_file_host.Worker.Stale.{expire_upload-balance, expire_upload_available}
use astra_file_host.Tests.Fixture.{Disk, disk_store, db, upload, file, ready, fresh}
use astra_file_host.Tests.Completion.{upload-IsLinked, upload_found}

abbrev jobs : List Job
jobs =
    record { kind = hash; target = 3; status = pending; attempts = 0; updated_at = 0 }
    ∷ record { kind = purge; target = 4; status = failed; attempts = 1; updated_at = 0 }
    ∷ []

claim_outcome_example : ClaimOutcome 500000 jobs (claim 500000 jobs)
claim_outcome_example = claim_outcome 500000 jobs

claim-purge :
    (claim 500000 jobs).0
    ≡ some
        (record { kind = purge; target = 4; status = running; attempts = 2; updated_at = 500000 })
unfolding claim next_job
claim-purge = refl

enqueued_job :
    (j : Job) × (find (is_job hash 3) (enqueue_row 9 hash 3 jobs) ≡ some j)
    × (is_finished j.status ≡ false)
enqueued_job = enqueue_row_waits 9 hash 3 jobs

abbrev no_jobs : List Job
no_jobs = []

Evolves-IsKeyed_applies : IsKeyed (claim 10 (enqueue_row 9 hash 3 no_jobs)).1
Evolves-IsKeyed_applies =
    Evolves-IsKeyed no_jobs (claim 10 (enqueue_row 9 hash 3 no_jobs)).1
      (onwards (onwards unchanged (enqueued 9 hash 3)) (claimed 10)) (λ kind target. omega arith)

purge_outcome_example : PurgeOutcome disk_store 3 ready (purge_run disk_store 3 ready)
purge_outcome_example = purge_outcome disk_store 3 ready

purge_run_used : used_bytes (purge_run disk_store 3 ready).1.db 10 ≡ used_bytes db 10
purge_run_used = purge-used disk_store 3 10 ready

abbrev expired : World Disk
expired = record {
  db = expire_rows 100000000 upload db;
  store = record { received = []; object = none };
}

expire_runs : expire_upload disk_store 100000000 upload ready ≡ (ok tt, expired)
unfolding expire_upload tx expire_locked
expire_runs = refl

expire_upload-balance_example :
    (expired ≡ ready)
    ⊎ ((used_bytes expired.db 10 ≡ used_bytes db 10)
        × (reserved_bytes expired.db 10 + (if upload.owner_id == 10 then upload.size else 0)
            ≡ reserved_bytes db 10)
        × (finalize disk_store fresh 1 10 expired ≡ (err (api_error 409 request_failed), expired)))
expire_upload-balance_example =
    expire_upload-balance disk_store fresh 100000000 10 upload ready expired upload-IsLinked refl
      upload_found expire_runs

abbrev done : World Disk
done = record ready {
  db = record db { uploads = record upload { state = UploadState.available } ∷ [] };
}

expiry_of_done : expire_upload disk_store 100000000 upload done ≡ (ok tt, done)
expiry_of_done =
    expire_upload_available disk_store 100000000 upload
      (record upload { state = UploadState.available }) done refl refl

abbrev quarantined_db : Db
quarantined_db = record db { files = record file { state = quarantined } ∷ [] }

infected_file :
    (find (λ (f : FileRow). f.id == 2) (scan 1 3 quarantined_db).1.files
      ≡ map_found (judged 1 3) (find (λ (f : FileRow). f.id == 2) quarantined_db.files))
    × (find
          (λ (f : FileRow). f.object_id == 3 && is_quarantined f.state)
          (scan 1 3 quarantined_db).1.files
        ≡ none)
infected_file = scan-find 1 3 2 quarantined_db (omega arith) refl
