-- ===== src/Tests/Requests.antt =====
-- The creation of an upload, the signing of parts and the rate limit on the fixture.
use astra_file_host.Base.{
  ◌≡◌, ◌↔◌, ◌≤◌, ◌+◌, ◌*◌, refl, subst, ok, none, List, [], ◌∷◌, ok-injective, arith,
}
use astra_file_host.Validation.{mib, expected_part_bytes}
use astra_file_host.Settings.{PlanPolicy}
use astra_file_host.Database.{Upload}
use astra_file_host.Limits.{reserve, reserved_total, free_floor}
use astra_file_host.Limits.Admission.{HasRoom, reserve_iff}
use astra_file_host.Entitlements.{effective}
use astra_file_host.Uploads.{owned_upload}
use astra_file_host.Uploads.Create.{NewUpload, Ids, create_upload}
use astra_file_host.Uploads.Admission.{IsFresh, CreateOutcome, create_upload_outcome}
use astra_file_host.Uploads.Sign.{PartRequest, sign_upload}
use astra_file_host.Uploads.Signed.{IsPlanned}
use astra_file_host.Uploads.Signing.{SignOutcome, sign_upload_outcome}
use astra_file_host.Tests.Fixture.{
  disk_store, db, empty_db, empty_world, upload, user, ready, at, signed_rows,
}

abbrev ids : Ids
ids = record { upload = 21; file = 22; object = 23 }

abbrev request : NewUpload
request = record { size = 12 * mib; extension = 4; folder_id = none; expires_at = none }

ids-IsFresh : IsFresh ids empty_db
ids-IsFresh = record { upload = refl; file = refl; object = refl; version = refl }

create_upload_outcome_example :
    CreateOutcome disk_store at ids 10 user request empty_world
      (create_upload disk_store at (ok tt) ids 10 user request empty_world)
create_upload_outcome_example =
    create_upload_outcome disk_store at ids 10 user request (ok tt) empty_world ids-IsFresh

upload-IsPlanned : IsPlanned upload signed_rows
unfolding expected_part_bytes
upload-IsPlanned = ((omega arith, (omega arith, tt)), (refl, (refl, tt)))

rows-IsPlanned : (u : Upload) → owned_upload 1 10 db ≡ ok u → IsPlanned u (db.parts u.id)
unfolding owned_upload
rows-IsPlanned u found =
    subst (λ x. IsPlanned x (db.parts x.id)) {x = upload} {y = u} (ok-injective found)
      upload-IsPlanned

abbrev parts : List PartRequest
parts = record { number = 1; checksum = 41 } ∷ record { number = 2; checksum = 42 } ∷ []

sign_upload_outcome_example :
    SignOutcome disk_store 2000 1 10 parts ready
      (sign_upload disk_store at (ok tt) 1 10 parts ready)
sign_upload_outcome_example =
    sign_upload_outcome disk_store at (ok tt) 1 10 parts ready rows-IsPlanned

reserve_iff_example : (reserve at 10 (12 * mib) empty_db ≡ ok tt) ↔ (
    (reserved_total empty_db + 12 * mib + free_floor empty_db.settings ≤ at.free_bytes)
    × ((quota : PlanPolicy) × (effective 10 empty_db ≡ ok quota)
        × HasRoom at 10 (12 * mib) empty_db quota))
reserve_iff_example = reserve_iff at 10 (12 * mib) empty_db
