-- ===== src/Uploads.antt =====
-- apps/api/src/uploads.ts: the reconciliation, the completion and the abort of an upload. Every
-- handler runs in a transaction over the database, and calls the object storage in between.
pub mod Create
pub mod Abort
pub mod Finalize
pub mod Steps
pub mod Integrity
pub mod Quota
pub mod Admission
pub mod Release
pub mod Abandoned
pub mod Sign
pub mod Signed
pub mod Signing
pub mod Recovery
use astra_file_host.Base.{
  ℕ, ◌+◌, ◌*◌, ◌≡◌, Bool, true, false, ◌&&◌, ◌||◌, not, Option, none, some, List, [], ◌∷◌, map,
  ◌==◌, ltb, if◌then◌else◌, find, update_where, sum_of, Result, ok, err, Failure, api_error,
  plain_error, not_found, no_such_upload, service_error, request_failed, part_integrity,
  incomplete_upload, object_integrity, require_value,
}
use astra_file_host.Validation.{StoragePart, assert_parts}
use astra_file_host.Settings.{Settings}
use astra_file_host.Database.{
  Db, Upload, UploadState, PartRow, FileRow, FileObject, FileState, ShareItem, User, created,
  uploading, finalizing, aborted, processing, quarantined, purged, audit, upload_completed,
  upload_aborted, hash, scan, public,
}
use astra_file_host.Storage.{ObjectStore, Head}
use astra_file_host.Transaction.{
  World, Action, pure, raise, ◌>>=◌, ◌>>◌, raise_if, lift, gets, modify, asks, calls, tx,
}
use astra_file_host.Jobs.{enqueue}
use astra_file_host.Shares.Capability.{
  Fresh, hour_ms, share_allowance, create_share_row, insert_share,
}

-- Updates of one row by its key.
abbrev pub update_upload : ℕ → (Upload → Upload) → Db → Db
update_upload id f db = record db { uploads = update_where (λ u. u.id == id) f db.uploads }

-- The trigger `cloud_files` of the database raises the revision of a file with every update.
abbrev pub touch : FileRow → FileRow
touch f = record f { revision = f.revision + 1 }

abbrev pub update_file : ℕ → (FileRow → FileRow) → Db → Db
update_file id f db = record db {
  files = update_where (λ r. r.id == id) (λ r. touch (f r)) db.files;
}

abbrev pub set_file_state : FileState → FileRow → FileRow
set_file_state state f = record f { state = state }

abbrev pub adjust : Bool → (FileObject → FileObject) → Option FileObject → Option FileObject
adjust b f none = none
adjust b f (some o) = some (if b then f o else o)

abbrev pub update_object : ℕ → (FileObject → FileObject) → Db → Db
update_object id f db = record db { objects = λ k. adjust (k == id) f (db.objects k) }

abbrev pub set_parts : ℕ → List PartRow → Db → Db
set_parts id rows db = record db { parts = λ k. if k == id then rows else db.parts k }

-- `SET bytes_confirmed=…,updated_at=now()` and `SET state=…,updated_at=now()`
abbrev pub set_bytes_confirmed : ℕ → ℕ → Upload → Upload
set_bytes_confirmed now n u = record u { bytes_confirmed = n; updated_at = now }

abbrev pub set_state : ℕ → UploadState → Upload → Upload
set_state now state u = record u { state = state; updated_at = now }

-- `ownedUpload`
unfoldable pub owned_upload : ℕ → ℕ → Db → Result Upload
owned_upload id owner db = require_value (find (λ u. u.id == id && u.owner_id == owner) db.uploads)

-- `p.checksum&&p.checksum!==expected.checksum_sha256`
abbrev pub checksum_differs : Option ℕ → ℕ → Bool
checksum_differs none c = false
checksum_differs (some d) c = not (d == c)

-- One part that the storage lists, against the part that was signed.
unfoldable pub part_mismatch : List PartRow → StoragePart → Bool
part_mismatch signed p = elim (find (λ (s : PartRow). s.number == p.number) signed) [
  | none ↦ true
  | some e ↦ not (p.size == e.expected_bytes) || checksum_differs p.checksum e.checksum
]

abbrev pub confirm_row : StoragePart → PartRow → PartRow
confirm_row p s = record s { etag = some p.etag }

-- The loop of `reconcile`, on the rows of the upload; a mismatch abandons the rows, which the
-- enclosing transaction then rolls back.
unfoldable pub confirm_parts :
    List PartRow → List StoragePart → List PartRow → Result (List PartRow)
unfolding part_mismatch
confirm_parts signed [] rows = ok rows
confirm_parts signed (p ∷ ps) rows =
    let rest =
      confirm_parts signed ps (update_where (λ s. s.number == p.number) (confirm_row p) rows) in
    if part_mismatch signed p then err (api_error 409 part_integrity) else rest

-- An absent etag is null, which is falsy as the empty one is.
abbrev pub etag_of : Option ℕ → ℕ
etag_of none = 0
etag_of (some e) = e

abbrev pub manifest_part : PartRow → StoragePart
manifest_part p = record {
  number = p.number;
  size = p.expected_bytes;
  etag = etag_of p.etag;
  checksum = some p.checksum;
}

abbrev pub is_available : UploadState → Bool
is_available UploadState.available = true
is_available _ = false

-- `['UPLOADING','FINALIZING','FAILED'].includes(u.state)`
abbrev pub can_complete : UploadState → Bool
can_complete uploading = true
can_complete finalizing = true
can_complete UploadState.failed = true
can_complete _ = false

-- `NotFound`, `NoSuchKey` or status 404.
abbrev pub is_absent : Failure → Bool
is_absent not_found = true
is_absent _ = false

-- A thrown error replaced by another.
abbrev pub rethrow {ℓ} : {A : Type ℓ} → Failure → Result A → Result A
rethrow e (ok a) = ok a
rethrow e (err f) = err e

-- The state that a completed file and its object take.
abbrev pub landing : Settings → FileState
landing s = if s.scanning_enabled then quarantined else FileState.available
