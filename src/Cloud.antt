-- ===== src/Cloud.antt =====
-- apps/api/src/cloud.ts: the versions of a file, `pruneVersions` and `replace`. The rows of
-- `file_versions` stand with the newest first, in the order of `created_at DESC,id DESC`.
pub mod Retention
use astra_file_host.Base.{
  ℕ, zero, suc, ◌+◌, ◌-◌, ◌*◌, Bool, true, false, ◌&&◌, ◌||◌, not, Option, none, some, List, [],
  ◌∷◌, ◌==◌, ltb, leb, min, if◌then◌else◌, find, update_where, Result, ok, err, ◌>>=◌, ◌>>◌,
  throw_if, require_value, api_error, request_failed, version_conflict, versions_disabled,
  storage_quota,
}
use astra_file_host.Settings.{PlanPolicy}
use astra_file_host.Database.{
  Db, FileRow, FileObject, FileState, Version, purge, used_bytes, reserved_bytes, audit, purged,
  file_version_restored, file_version_replaced,
}
use astra_file_host.Entitlements.{effective}
use astra_file_host.Limits.{writable}
use astra_file_host.Jobs.{enqueue}
use astra_file_host.Uploads.{touch}
use astra_file_host.Shares.Download.{accessible_file, stored_size, object_state, is_available}

-- `n>$2 OR created_at<now()-$3*interval '1 day'`, for the versions of the file that are left to keep.
abbrev pub is_old : ℕ → ℕ → Version → Bool
is_old now days v = ltb (v.created_at + days * 86400000) now

-- The versions that stay, with the number of those of the file that may stay still.
unfoldable pub kept_versions : ℕ → ℕ → ℕ → ℕ → List Version → List Version
kept_versions now file days count [] = []
kept_versions now file days count (v ∷ vs) =
    let others = kept_versions now file days count vs in
    let fewer = kept_versions now file days (count - 1) vs in
    if not (v.file_id == file)
    then v ∷ others
    else if count == 0 || is_old now days v
    then fewer
    else v ∷ fewer

unfoldable pub removed_versions : ℕ → ℕ → ℕ → ℕ → List Version → List Version
removed_versions now file days count [] = []
removed_versions now file days count (v ∷ vs) =
    let others = removed_versions now file days count vs in
    let fewer = removed_versions now file days (count - 1) vs in
    if not (v.file_id == file)
    then others
    else if count == 0 || is_old now days v
    then v ∷ fewer
    else fewer

-- `for(const row of removed)await enqueue('purge',row.object_id,{},db)`
unfoldable pub purge_all : ℕ → List Version → Db → Db
purge_all now [] db = db
purge_all now (v ∷ vs) db = purge_all now vs (enqueue now purge v.object_id db)

-- `['PURGED','EXPIRED'].includes(file.state)?0:…`
abbrev pub version_limit : FileState → ℕ → ℕ
version_limit purged n = 0
version_limit FileState.expired n = 0
version_limit _ n = n

unfoldable pub prune_with : ℕ → FileRow → PlanPolicy → Db → Db
prune_with now f policy db =
    let count = version_limit f.state (min policy.version_count db.settings.max_version_count) in
    let days = min policy.version_days db.settings.max_version_days in
    purge_all now (removed_versions now f.id days count db.versions)
      (record db { versions = kept_versions now f.id days count db.versions })

unfoldable pub prune_versions : ℕ → ℕ → Db → Result Db
prune_versions now file db = do
  f ← require_value (find (λ (x : FileRow). x.id == file) db.files)
  policy ← effective f.owner_id db
  ok (prune_with now f policy db)

-- The object that a restored version or another file of the user brings, with its size.
pub record Source : Type 0 where
  pub object_id : ℕ
  pub size : ℕ

abbrev pub restorable : ℕ → ℕ → Db → Result Source
restorable version file db = do
  v ← require_value (
      find
        (λ (x : Version).
          x.id == version && (x.file_id == file && object_state (db.objects x.object_id)))
        db.versions)
  ok (record { object_id = v.object_id; size = stored_size (db.objects v.object_id) })

abbrev pub other_file : ℕ → ℕ → ℕ → Db → Result Source
other_file now user id db = do
  f ← accessible_file now id db
  throw_if (not (f.owner_id == user)) (api_error 404 request_failed)
  ok (record { object_id = f.object_id; size = stored_size (db.objects f.object_id) })

-- The row of the old version, and the file with the new object.
abbrev pub exchange : ℕ → ℕ → FileRow → Source → Db → Db
exchange now version_id target source db = record db {
  versions =
      record {
        id = version_id;
        file_id = target.id;
        object_id = target.object_id;
        owner_id = target.owner_id;
        revision = target.revision;
        created_at = now;
      }
      ∷ db.versions;
  files =
      update_where (λ (f : FileRow). f.id == target.id)
        (λ f. touch (record f { object_id = source.object_id })) db.files;
}

-- From the exchange on: the pruning, then the check of the quota, which rolls everything back.
unfoldable pub settle_exchange : ℕ → ℕ → ℕ → Bool → FileRow → Source → PlanPolicy → Db → Result Db
settle_exchange now version_id user restoring target source policy db = do
  pruned ← prune_versions now target.id (exchange now version_id target source db)
  throw_if (ltb policy.storage_bytes (used_bytes pruned user + reserved_bytes pruned user))
      (api_error 413 storage_quota)
  ok (
      audit (some user) (if restoring then file_version_restored else file_version_replaced)
        target.id pruned)

unfoldable pub replace : ℕ → ℕ → ℕ → ℕ → ℕ → ℕ → Bool → Db → Result Db
replace now version_id user id expected source_id restoring db = do
  s ← writable db
  target ← require_value (find (λ (x : FileRow). x.id == id && x.owner_id == user) db.files)
  throw_if (not (target.revision == expected)) (api_error 409 version_conflict)
  throw_if (not (is_available target.state)) (api_error 409 request_failed)
  policy ← effective user db
  throw_if
      (not db.settings.versioning_enabled
        || (policy.version_count == 0 || policy.version_days == 0))
      (api_error 403 versions_disabled)
  source ← (if restoring then restorable source_id id db else other_file now user source_id db)
  throw_if (ltb policy.file_bytes source.size && not (source.object_id == target.object_id))
      (api_error 413 request_failed)
  if source.object_id == target.object_id
      then ok db
      else settle_exchange now version_id user restoring target source policy db
