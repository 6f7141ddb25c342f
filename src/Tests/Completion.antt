-- ===== src/Tests/Completion.antt =====
-- The completion and the abort of the upload of the fixture.
use astra_file_host.Base.{
  ◌*◌, ◌≡◌, refl, ◌+◌, ◌==◌, if◌then◌else◌, ◌⊎◌, inr, subst, sym, ◌∙◌, true, some, none, [], ok,
  err, api_error, request_failed, incomplete_upload, ok-injective,
}
use astra_file_host.Validation.{mib, assert_parts, assert_each, assert_part, expected_part_bytes}
use astra_file_host.Settings.{admits, parse_policy}
use astra_file_host.Entitlements.{effective, base_policy, guest_policy, override}
use astra_file_host.Jobs.{enqueue_row}
use astra_file_host.Shares.Capability.{share_allowance, active_shares, create_share_row}
use astra_file_host.Database.{Upload, used_bytes, reserved_bytes, FileState}
use astra_file_host.Transaction.{World, tx}
use astra_file_host.Uploads.{owned_upload, is_available, confirm_parts, part_mismatch}
use astra_file_host.Uploads.Finalize.{
  Finalized, finalize, finalize_row, complete_upload, ensure_object, assemble, reconcile_action,
  finish, publish, grant_share, activate,
}
use astra_file_host.Uploads.Abort.{abort_upload, abort_row, drop_parts, discard}
use astra_file_host.Uploads.Integrity.{FinalizeOutcome, finalize_outcome}
use astra_file_host.Uploads.Quota.{IsLinked, finalize-balance}
use astra_file_host.Uploads.Abandoned.{AbortEffects, abort_upload_effects}
use astra_file_host.Uploads.Release.{
  AbortOutcome, abort_upload_outcome, abort_upload-balance, finalize-abort_upload,
}
use astra_file_host.Storage.{Head}
use astra_file_host.Uploads.Recovery.{CanShare, finalize_recovers}
use astra_file_host.Tests.Fixture.{
  user, plan, Disk, disk_store, db, upload, file, object, ready, partial, fresh,
}

pub upload-IsLinked : IsLinked db upload
upload-IsLinked = record {
  file = file;
  object = object;
  row_found = refl;
  row_once = refl;
  file_found = refl;
  file_once = refl;
  file_owner = refl;
  file_state = refl;
  file_object = refl;
  object_found = refl;
  object_size = refl;
  initialised = refl;
}

pub upload_found : owned_upload 1 10 db ≡ ok upload
unfolding owned_upload
upload_found = refl

finalize-ready :
    (finalize disk_store fresh 1 10 ready).0
    ≡ ok (record { file_id = 2; share_secret = some 88; state = some FileState.available })
unfolding finalize tx owned_upload finalize_row complete_upload ensure_object assemble
    reconcile_action confirm_parts part_mismatch assert_parts assert_each assert_part
    expected_part_bytes finish publish grant_share activate share_allowance effective parse_policy
    admits base_policy guest_policy override enqueue_row active_shares create_share_row
finalize-ready = refl

finalize-partial :
    (finalize disk_store fresh 1 10 partial).0 ≡ err (api_error 409 incomplete_upload)
unfolding finalize tx owned_upload finalize_row complete_upload ensure_object assemble
    reconcile_action confirm_parts assert_parts
finalize-partial = refl

finalize_outcome_example :
    FinalizeOutcome disk_store 1 10 ready (finalize disk_store fresh 1 10 ready)
finalize_outcome_example = finalize_outcome disk_store fresh 1 10 ready

db-IsLinked :
    (u : Upload) → owned_upload 1 10 db ≡ ok u → (is_available u.state ≡ true) ⊎ IsLinked db u
db-IsLinked u found =
    inr (subst (IsLinked db) (ok-injective (sym upload_found ∙ found)) upload-IsLinked)

finalize-balance_example :
    let w' = (finalize disk_store fresh 1 10 ready).1 in
    used_bytes w'.db 10 + reserved_bytes w'.db 10 ≡ used_bytes db 10 + reserved_bytes db 10
finalize-balance_example = finalize-balance disk_store fresh 1 10 ready 10 db-IsLinked

abbrev dropped : World Disk
dropped = record { db = discard 3000 10 upload db; store = record { received = []; object = none } }

abort_ready : abort_upload disk_store 3000 1 10 10 ready ≡ (ok tt, dropped)
unfolding abort_upload tx owned_upload abort_row drop_parts
abort_ready = refl

abort_upload_outcome_applies :
    AbortOutcome disk_store 3000 1 10 10 ready (abort_upload disk_store 3000 1 10 10 ready)
abort_upload_outcome_applies = abort_upload_outcome disk_store 3000 1 10 10 ready

abort_upload_effects_example :
    AbortEffects disk_store 3000 1 10 10 ready (abort_upload disk_store 3000 1 10 10 ready)
abort_upload_effects_example = abort_upload_effects disk_store 3000 1 10 10 ready

abort_upload-balance_example :
    (used_bytes dropped.db 10 ≡ used_bytes db 10)
    × (reserved_bytes dropped.db 10 + (if upload.owner_id == 10 then upload.size else 0)
        ≡ reserved_bytes db 10)
abort_upload-balance_example =
    abort_upload-balance disk_store 3000 1 10 10 ready dropped upload 10 upload_found refl
      upload-IsLinked abort_ready

finalize-abort_upload_example :
    finalize disk_store fresh 1 10 dropped ≡ (err (api_error 409 request_failed), dropped)
finalize-abort_upload_example =
    finalize-abort_upload disk_store fresh 3000 1 10 10 ready dropped abort_ready

abbrev whole : Head
whole = record { size = 12 * mib; etag = 5; checksum = none }

-- The storage had completed the object, and the database was rolled back.
abbrev cut_off : World Disk
cut_off = record { db = db; store = record { received = []; object = some whole } }

db-CanShare : CanShare disk_store fresh upload 10 db
unfolding effective parse_policy admits base_policy guest_policy override
db-CanShare = record {
  file = file;
  user = user;
  policy = plan;
  found = refl;
  there = refl;
  valid = refl;
}

finalize_recovers_example : (r : Finalized) × ((finalize disk_store fresh 1 10 cut_off).0 ≡ ok r)
finalize_recovers_example =
    finalize_recovers disk_store fresh upload 10 1 cut_off whole 1 upload_found refl refl refl refl
      db-CanShare
