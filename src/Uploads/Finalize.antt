-- ===== src/Uploads/Finalize.antt =====
-- apps/api/src/uploads.ts `reconcile` and `finalize`.
use astra_file_host.Base.{
  ℕ, ◌+◌, ◌*◌, ◌&&◌, not, Option, none, some, List, ◌∷◌, map, ◌==◌, ltb, if◌then◌else◌, find,
  sum_of, Result, ok, err, api_error, plain_error, request_failed, incomplete_upload,
  object_integrity, require_value,
}
use astra_file_host.Validation.{StoragePart, assert_parts}
use astra_file_host.Settings.{Settings}
use astra_file_host.Database.{
  Db, Upload, UploadState, FileRow, FileObject, FileState, finalizing, audit, upload_completed,
  hash, scan, public,
}
use astra_file_host.Storage.{ObjectStore, Head}
use astra_file_host.Transaction.{
  Action, pure, raise, ◌>>=◌, ◌>>◌, raise_if, lift, gets, modify, asks, calls, tx,
}
use astra_file_host.Jobs.{enqueue}
use astra_file_host.Shares.Capability.{
  Fresh, hour_ms, share_allowance, create_share_row, insert_share, ShareOptions,
}
use astra_file_host.Uploads.{
  update_upload, update_file, set_file_state, update_object, set_parts, owned_upload, confirm_parts,
  manifest_part, is_available, can_complete, is_absent, rethrow, landing, set_bytes_confirmed,
  set_state,
}

-- What `finalize` answers; the repeated call on an available upload answers the file alone.
pub record Finalized : Type 0 where
  pub file_id : ℕ
  pub share_secret : Option ℕ
  pub state : Option FileState

abbrev pub activate_object : FileState → Head → ℕ → FileObject → FileObject
activate_object state h mime o = record o {
  size = some h.size;
  etag = some h.etag;
  checksum_sha256 = h.checksum;
  mime = some mime;
  state = state;
}

abbrev pub activate_upload : ℕ → Upload → Upload
activate_upload now u = record u {
  state = UploadState.available;
  bytes_confirmed = u.size;
  error_code = none;
  updated_at = now;
}

-- The three UPDATEs that make the object, the file and the upload available.
unfoldable pub activate : ℕ → Upload → Head → ℕ → Db → Db
activate now u h mime db =
    let state = landing db.settings in
    update_upload u.id (activate_upload now) (
      update_file u.file_id (set_file_state state)
        (update_object u.object_id (activate_object state h mime) db))

-- `s.defaultShareHours?new Date(Date.now()+s.defaultShareHours*3600000):null`
abbrev pub default_expiry : ℕ → ℕ → Option ℕ
default_expiry now hours = if hours == 0 then none else some (now + hours * hour_ms)

-- `f.expires_at&&(!exp||new Date(f.expires_at)<exp)?f.expires_at:exp`
abbrev pub earlier : Option ℕ → Option ℕ → Option ℕ
earlier none e = e
earlier (some t) none = some t
earlier (some t) (some e) = if ltb t e then some t else some e

abbrev add_item : ℕ → ℕ → Db → Db
add_item share file db = record db {
  share_items = record { share_id = share; file_id = some file; folder_id = none } ∷ db.share_items;
}

abbrev share_options : ℕ → Settings → FileRow → ShareOptions
share_options now s f = record {
  visibility = public;
  password_hash = none;
  expires_at = earlier f.expires_at (default_expiry now s.default_share_hours);
  max_downloads = s.default_max_downloads;
}

-- `ownerInfo!.anonymous` of an owner that is not there throws.
abbrev present {ℓ} : {A : Type ℓ} → Option A → Result A
present none = err plain_error
present (some a) = ok a

module _ (os : ObjectStore) where
  open os use {Store}

  unfoldable pub reconcile_action : ℕ → Upload → Action Store (List StoragePart)
  reconcile_action now u = do
    parts ← asks (λ s. os.list_parts s u.object_key u.storage_upload_id)
    signed ← gets (λ db. ok (db.parts u.id))
    rows ← lift (confirm_parts signed parts signed)
    modify (set_parts u.id rows)
    modify (update_upload u.id (set_bytes_confirmed now (sum_of (λ p. p.size) parts)))
    pure parts

  -- The branch `if(!head)`: check the parts, complete the multipart upload and look at the object.
  unfoldable pub assemble : ℕ → Upload → Action Store Head
  assemble now u = do
    parts ← reconcile_action now u
    lift (rethrow (api_error 409 incomplete_upload) (assert_parts u.size u.part_size parts))
    manifest ← gets (λ db. ok (map manifest_part (db.parts u.id)))
    lift (assert_parts u.size u.part_size manifest)
    modify (update_upload u.id (set_state now finalizing))
    calls (λ s. os.complete s u.object_key u.storage_upload_id manifest)
    asks (λ s. os.head s u.object_key)

  -- The object of the upload: already there, as after a crash, or assembled now.
  unfoldable pub ensure_object : ℕ → Upload → Action Store Head
  ensure_object now u w = elim (os.head w.store u.object_key) [
    | ok h ↦ pure h w
    | err e ↦ if is_absent e then assemble now u w else raise e w
  ]

  unfoldable pub share_file : Fresh → Upload → ℕ → ShareOptions → Action Store (Option ℕ)
  share_file fresh u owner options = do
    row ← gets (create_share_row fresh owner options)
    modify (insert_share row)
    modify (add_item row.id u.file_id)
    pure (some fresh.secret)

  unfoldable pub offer_share : Fresh → Upload → ℕ → ShareOptions → Action Store (Option ℕ)
  unfolding share_file
  offer_share fresh u owner options = do
    allowance ← gets (share_allowance fresh.now owner)
    if allowance.available then share_file fresh u owner options else pure none

  -- The automatic share of a completed file, where the settings and the allowance permit one.
  unfoldable pub grant_share : Fresh → Upload → ℕ → Action Store (Option ℕ)
  unfolding offer_share
  grant_share fresh u owner = do
    f ← gets (λ db. require_value (find (λ (r : FileRow). r.id == u.file_id) db.files))
    o ← gets (λ db. present (db.users owner))
    s ← gets (λ db. ok db.settings)
    if o.anonymous && not s.anonymous_sharing_enabled
        then pure none
        else offer_share fresh u owner (share_options fresh.now s f)

  abbrev pub enqueue_jobs : ℕ → Upload → Db → Db
  enqueue_jobs now u db =
      let hashed = enqueue now hash u.object_id db in
      if db.settings.scanning_enabled then enqueue now scan u.object_id hashed else hashed

  -- From the activation on: the share, the jobs, the audit and the answer.
  unfoldable pub publish : Fresh → ℕ → Upload → Action Store Finalized
  publish fresh owner u = do
    secret ← grant_share fresh u owner
    modify (enqueue_jobs fresh.now u)
    modify (audit (some owner) upload_completed u.file_id)
    state ← gets (λ db. ok (landing db.settings))
    pure (record { file_id = u.file_id; share_secret = secret; state = some state })

  -- From the object's answer on: the size check and the activation.
  unfoldable pub finish : Fresh → ℕ → Upload → Head → Action Store Finalized
  finish fresh owner u h = do
    raise_if (not (h.size == u.size)) (api_error 409 object_integrity)
    mime ← asks (λ s. os.prefix_mime s u.object_key)
    modify (activate fresh.now u h mime)
    publish fresh owner u

  -- The body of `finalize` after the early return, for the locked row of the upload.
  unfoldable pub complete_upload : Fresh → ℕ → Upload → Action Store Finalized
  complete_upload fresh owner u = do
    raise_if (not (can_complete u.state)) (api_error 409 request_failed)
    h ← ensure_object fresh.now u
    finish fresh owner u h

  unfoldable pub finalize_row : Fresh → ℕ → Upload → Action Store Finalized
  finalize_row fresh owner u =
      if is_available u.state
      then pure (record { file_id = u.file_id; share_secret = none; state = none })
      else complete_upload fresh owner u

  unfoldable pub finalize : Fresh → ℕ → ℕ → Action Store Finalized
  finalize fresh id owner = tx do u ← gets (owned_upload id owner); finalize_row fresh owner u
