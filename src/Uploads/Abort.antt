-- ===== src/Uploads/Abort.antt =====
-- apps/api/src/uploads.ts `abortUpload`.
use astra_file_host.Base.{
  ℕ, Bool, true, false, Option, none, some, if◌then◌else◌, api_error, request_failed,
}
use astra_file_host.Database.{
  Db, Upload, UploadState, FileRow, FileObject, finalizing, aborted, purged, audit, upload_aborted,
}
use astra_file_host.Storage.{ObjectStore}
use astra_file_host.Transaction.{Action, pure, raise, ◌>>=◌, ◌>>◌, gets, modify, calls, tx}
use astra_file_host.Uploads.{update_upload, update_file, update_object, set_state, owned_upload}

-- `['AVAILABLE','FINALIZING'].includes(u.state)` and `['ABORTED','EXPIRED'].includes(u.state)`
abbrev pub is_committed : UploadState → Bool
is_committed UploadState.available = true
is_committed finalizing = true
is_committed _ = false

abbrev pub is_over : UploadState → Bool
is_over aborted = true
is_over UploadState.expired = true
is_over _ = false

abbrev pub purge_file : ℕ → FileRow → FileRow
purge_file now f = record f { state = purged; deleted_at = some now }

abbrev pub purge_object : FileObject → FileObject
purge_object o = record o { state = purged }

-- The updates of an abort, in their order.
unfoldable pub discard : ℕ → ℕ → Upload → Db → Db
discard now actor u db = audit (some actor) upload_aborted u.id (
    update_object u.object_id purge_object
      (update_file u.file_id (purge_file now) (update_upload u.id (set_state now aborted) db)))

module _ (os : ObjectStore) where
  open os use {Store}

  -- `if(u.storage_upload_id)await storage.abort(…)`
  unfoldable pub drop_parts : Upload → Option ℕ → Action Store (Unit {0})
  drop_parts u none = pure tt
  drop_parts u (some session) = calls (λ s. os.abort s u.object_key session)

  unfoldable pub abort_row : ℕ → ℕ → Upload → Action Store (Unit {0})
  unfolding drop_parts
  abort_row now actor u =
      if is_committed u.state
      then raise (api_error 409 request_failed)
      else if is_over u.state
      then pure tt
      else (drop_parts u u.storage_upload_id >> modify (discard now actor u))

  unfoldable pub abort_upload : ℕ → ℕ → ℕ → ℕ → Action Store (Unit {0})
  abort_upload now id owner actor = tx do u ← gets (owned_upload id owner); abort_row now actor u
