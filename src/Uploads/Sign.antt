-- ===== src/Uploads/Sign.antt =====
-- apps/api/src/uploads.ts `POST /api/uploads/:id/sign`, `/ack` and `/complete`.
use astra_file_host.Base.{
  ℕ, ◌+◌, Bool, true, false, ◌&&◌, ◌||◌, not, Option, none, some, List, [], ◌∷◌, ◌==◌, ltb, find,
  update_where, sum_of, if◌then◌else◌, Result, ok, err, Failure, Code, api_error, request_failed,
  low_disk, fingerprint_mismatch, part_integrity, incomplete_upload, object_integrity,
}
use astra_file_host.Validation.{expected_part_bytes}
use astra_file_host.Database.{Db, Upload, UploadState, rejected, PartRow, uploading}
use astra_file_host.Storage.{ObjectStore}
use astra_file_host.Transaction.{
  World, Action, pure, ◌>>=◌, ◌>>◌, raise_if, lift, gets, modify, asks, tx,
}
use astra_file_host.Shares.Capability.{Fresh}
use astra_file_host.Limits.{Surroundings, writable, free_floor}
use astra_file_host.Uploads.{
  update_upload, set_parts, set_state, set_bytes_confirmed, owned_upload, rethrow, is_available,
}
use astra_file_host.Uploads.Finalize.{Finalized, finalize}

-- An entry of `partSchema`.
pub record PartRequest : Type 0 where
  pub number : ℕ
  pub checksum : ℕ

-- `['UPLOADING','FAILED'].includes(u.state)`
abbrev pub is_active : UploadState → Bool
is_active uploading = true
is_active UploadState.failed = true
is_active _ = false

-- `INSERT INTO upload_parts … ON CONFLICT DO NOTHING`. The rows of an upload are kept in the order of
-- their numbers, in which every query reads them.
unfoldable pub insert_part : PartRow → List PartRow → List PartRow
insert_part p [] = p ∷ []
insert_part p (q ∷ qs) =
    let rest = insert_part p qs in
    if p.number == q.number then q ∷ qs else if ltb p.number q.number then p ∷ q ∷ qs else q ∷ rest

-- `existing&&existing.checksum_sha256!==p.checksum`
abbrev pub is_changed : Option PartRow → ℕ → Bool
is_changed none checksum = false
is_changed (some row) checksum = not (row.checksum == checksum)

abbrev pub part_row : PartRequest → ℕ → PartRow
part_row p size = record {
  number = p.number;
  expected_bytes = size;
  checksum = p.checksum;
  etag = none;
}

-- The rows with a signed part whose size is known, or the refusal of a part that has changed.
unfoldable pub add_signed : PartRequest → List PartRow → Result ℕ → Result (ℕ × List PartRow)
add_signed p rows (err e) = err e
add_signed p rows (ok size) =
    if is_changed (find (λ (r : PartRow). r.number == p.number) rows) p.checksum
    then err (api_error 409 fingerprint_mismatch)
    else ok (size, insert_part (part_row p size) rows)

-- One round of the loop on the rows: the size of the part, and the rows with it, or a refusal.
unfoldable pub sign_row : Upload → PartRequest → List PartRow → Result (ℕ × List PartRow)
unfolding add_signed
sign_row u p rows =
    add_signed p rows
      (rethrow (api_error 400 request_failed) (expected_part_bytes u.size u.part_size p.number))

-- The session of an active upload, or the refusal.
abbrev pub active : ℕ → Upload → Option ℕ → Result ℕ
active now u none = err (api_error 409 request_failed)
active now u (some session) =
    if not (is_active u.state) || ltb u.expires_at now
    then err (api_error 409 request_failed)
    else ok session

module _ (os : ObjectStore) where
  open os use {Store}

  -- The loop; it answers the signed URLs in order.
  unfoldable pub sign_parts : Upload → ℕ → List PartRequest → Action Store (List ℕ)
  sign_parts u session [] = pure []
  sign_parts u session (p ∷ ps) = do
    (size, rows) ← gets (λ db. sign_row u p (db.parts u.id))
    modify (set_parts u.id rows)
    url ← asks (λ s. os.sign_part s u.object_key session p.number size p.checksum)
    urls ← sign_parts u session ps
    pure (url ∷ urls)

  unfoldable pub sign_locked : ℕ → ℕ → ℕ → List PartRequest → Action Store (List ℕ)
  sign_locked now id owner parts = do
    u ← gets (owned_upload id owner)
    session ← lift (active now u u.storage_upload_id)
    urls ← sign_parts u session parts
    modify (update_upload id (set_state now uploading))
    pure urls

  unfoldable pub sign_upload :
      Surroundings → Result (Unit {0}) → ℕ → ℕ → List PartRequest → Action Store (List ℕ)
  sign_upload at rate id owner parts = do
    lift rate
    policy ← gets writable
    raise_if (ltb at.free_bytes (free_floor policy)) (api_error 507 low_disk)
    tx (sign_locked at.now id owner parts)

  -- `SELECT COALESCE(sum(expected_bytes),0) … WHERE etag IS NOT NULL`
  abbrev pub confirmed_bytes : List PartRow → ℕ
  confirmed_bytes rows =
      sum_of (λ (p : PartRow). elim p.etag [ none ↦ 0 | some e ↦ p.expected_bytes ]) rows

  -- `/ack`: two updates outside of a transaction.
  unfoldable pub ack_part : ℕ → ℕ → ℕ → ℕ → ℕ → Action Store (Unit {0})
  ack_part now id owner number etag = do
    u ← gets (owned_upload id owner)
    rows ← gets (λ db. ok (
        update_where (λ (r : PartRow). r.number == number) (λ r. record r { etag = some etag })
          (db.parts u.id)))
    modify (set_parts u.id rows)
    modify (update_upload u.id (set_bytes_confirmed now (confirmed_bytes rows)))

  -- The codes of `['INCOMPLETE_UPLOAD','PART_INTEGRITY','OBJECT_INTEGRITY']`.
  abbrev pub counted_failure : Failure → Option Code
  counted_failure (api_error s incomplete_upload) = some incomplete_upload
  counted_failure (api_error s part_integrity) = some part_integrity
  counted_failure (api_error s object_integrity) = some object_integrity
  counted_failure _ = none

  -- `UPDATE uploads SET failure_count=failure_count+1,error_code=$3 … AND state<>'AVAILABLE'`
  unfoldable pub count_failure : ℕ → ℕ → ℕ → Option Code → Db → Db
  count_failure now id owner none db = db
  count_failure now id owner (some c) db = record db {
    uploads =
        update_where
          (λ (u : Upload). u.id == id && (u.owner_id == owner && not (is_available u.state)))
          (λ u. record u {
            failure_count = u.failure_count + 1;
            error_code = some (rejected c);
            updated_at = now;
          })
          db.uploads;
  }

  unfoldable pub after_finalize :
      ℕ → ℕ → ℕ → Result Finalized × World Store → Result Finalized × World Store
  after_finalize now id owner (ok r, w) = (ok r, w)
  after_finalize now id owner (err e, w) =
      (err e, record w { db = count_failure now id owner (counted_failure e) w.db })

  -- `/complete`
  unfoldable pub complete_request : Fresh → Result (Unit {0}) → ℕ → ℕ → Action Store Finalized
  complete_request fresh rate id owner = do
    lift rate
    λ w. after_finalize fresh.now id owner (finalize os fresh id owner w)
