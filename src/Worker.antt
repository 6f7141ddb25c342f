-- ===== src/Worker.antt =====
-- apps/worker/src/index.ts: the removal of an object that nothing refers to (`purge`), the expiry of a
-- stale upload (the loop over `stale` in `cleanup`), and the verdict of `scan`. `Cleanup` has the other
-- ends of files, and `Reconcile` the comparison with the storage.
pub mod Purge
pub mod Stale
pub mod Scan
pub mod Cleanup
pub mod Reconcile
use astra_file_host.Base.{
  ℕ, Bool, true, false, ◌&&◌, ◌||◌, not, Option, none, some, List, [], ◌∷◌, ◌==◌, ltb,
  if◌then◌else◌, find, update_where, count_where, Result, ok, err, Failure, plain_error,
}
use astra_file_host.Database.{
  Db, Upload, UploadState, FileRow, FileObject, FileState, Version, audit, purged, blocked,
  quarantined, storage_purged, upload_expired, malware_detected, scan_clean,
}
use astra_file_host.Storage.{ObjectStore, Head}
use astra_file_host.Transaction.{World, Action, pure, raise, ◌>>=◌, ◌>>◌, gets, modify, calls, tx}
use astra_file_host.Shares.Capability.{Fresh}
use astra_file_host.Uploads.{
  update_upload, update_file, update_object, set_state, is_available, is_absent, touch,
}
use astra_file_host.Uploads.Abort.{purge_object}
use astra_file_host.Uploads.Finalize.{Finalized, finalize}

-- `state NOT IN ('PURGED','EXPIRED')`
abbrev pub is_live : FileState → Bool
is_live purged = false
is_live FileState.expired = false
is_live _ = true

abbrev pub holds : ℕ → FileRow → Bool
holds object f = f.object_id == object && is_live f.state

abbrev pub retains : ℕ → Version → Bool
retains object v = v.object_id == object

abbrev pub is_found {ℓ} : {A : Type ℓ} → Option A → Bool
is_found none = false
is_found (some a) = true

-- `live || one('SELECT 1 FROM file_versions …')`
unfoldable pub is_used : ℕ → Db → Bool
is_used object db =
    is_found (find (holds object) db.files) || is_found (find (retains object) db.versions)

abbrev pub record_purge : ℕ → Db → Db
record_purge object db = audit none storage_purged object (update_object object purge_object db)

-- `state=$2` of the object, and of its files that are quarantined.
abbrev pub is_quarantined : FileState → Bool
is_quarantined quarantined = true
is_quarantined _ = false

abbrev pub verdict_state : ℕ → FileState
verdict_state code = if code == 1 then blocked else FileState.available

unfoldable pub apply_verdict : ℕ → ℕ → Db → Db
apply_verdict code object db =
    let judged = update_object object (λ o. record o { state = verdict_state code }) db in
    audit none (if code == 1 then malware_detected else scan_clean) object (record judged {
      files =
          update_where (λ (f : FileRow). f.object_id == object && is_quarantined f.state)
            (λ f. touch (record f { state = verdict_state code })) db.files;
    })

-- The updates of an expired upload. The file is purged without a date.
unfoldable pub expire_rows : ℕ → Upload → Db → Db
expire_rows now u db = audit none upload_expired u.id (
    update_object u.object_id purge_object (
      update_file u.file_id (λ f. record f { state = purged })
        (update_upload u.id (set_state now UploadState.expired) db)))

abbrev pub is_purged : FileState → Bool
is_purged purged = true
is_purged _ = false

-- `!o||o.state==='PURGED'`
abbrev pub is_gone : Option FileObject → Bool
is_gone none = true
is_gone (some o) = is_purged o.state

-- `scan`, for the exit code of the scanner that has read the object. It runs no transaction but that
-- of the verdict.
unfoldable pub scan : ℕ → ℕ → Db → Result (Unit {0}) × Db
scan code object db =
    if is_gone (db.objects object)
    then (ok tt, db)
    else if ltb 1 code
    then (err plain_error, db)
    else (ok tt, apply_verdict code object db)

module _ (os : ObjectStore) where
  open os use {Store}

  unfoldable pub purge_known : ℕ → Option FileObject → Action Store (Unit {0})
  purge_known object none = pure tt
  purge_known object (some o) = do
    used ← gets (λ db. ok (is_used object db))
    if used
        then pure tt
        else (calls (λ s. os.remove s o.object_key) >> modify (record_purge object))

  unfoldable pub purge : ℕ → Action Store (Unit {0})
  purge object = tx do o ← gets (λ db. ok (db.objects object)); purge_known object o

  -- `if(u.storage_upload_id)await storage.abort(…)`
  abbrev pub drop_session : ℕ → Option ℕ → Action Store (Unit {0})
  drop_session key none = pure tt
  drop_session key (some session) = calls (λ s. os.abort s key session)

  -- `!locked||locked.state==='AVAILABLE'`, and the expiry; `u` is the row that was selected before.
  unfoldable pub expire_locked : ℕ → Upload → Option Upload → Action Store (Unit {0})
  expire_locked now u none = pure tt
  expire_locked now u (some locked) =
      if is_available locked.state
      then pure tt
      else (drop_session u.object_key u.storage_upload_id >> modify (expire_rows now u))

  unfoldable pub expire_upload : ℕ → Upload → Action Store (Unit {0})
  expire_upload now u = tx do
    locked ← gets (λ db. ok (find (λ (x : Upload). x.id == u.id) db.uploads))
    expire_locked now u locked

  -- `complete=head.size===u.size`, false for an object that is not there.
  abbrev pub is_whole : Upload → Result Head → Result Bool
  is_whole u (ok h) = ok (h.size == u.size)
  is_whole u (err e) = if is_absent e then ok false else err e

  abbrev pub ignore : {A : Type 0} → Result A × World Store → Result (Unit {0}) × World Store
  ignore (ok a, w) = (ok tt, w)
  ignore (err e, w) = (err e, w)

  -- One round of the loop over `stale`.
  unfoldable pub settle_stale : Fresh → Upload → Action Store (Unit {0})
  settle_stale fresh u = do
    complete ← (λ w. (is_whole u (os.head w.store u.object_key), w))
    if complete
        then (λ w. ignore (finalize os fresh u.id u.owner_id w))
        else expire_upload fresh.now u
