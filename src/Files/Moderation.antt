-- ===== src/Files/Moderation.antt =====
-- apps/api/src/files.ts `PATCH /api/admin/files/:id`: what a moderator may do to a file of any user.
use astra_file_host.Base.{
  ℕ, suc, ◌+◌, Bool, true, false, ◌&&◌, ◌||◌, not, Option, none, some, List, [], ◌∷◌, ◌==◌, ltb,
  find, update_where, sum_where, if◌then◌else◌, Result, ok, ◌>>=◌, ◌>>◌, throw_if, require_value,
  api_error, request_failed,
}
use astra_file_host.Database.{
  Db, FileRow, FileObject, FileState, Share, ShareItem, Version, processing, purged, deleted,
  blocked, purge, audit, used_bytes, reserved_bytes, expected_size, admin_file_updated,
}
use astra_file_host.Entitlements.{effective, or_else}
use astra_file_host.Jobs.{enqueue}
use astra_file_host.Uploads.{update_file, update_object}
use astra_file_host.Files.{ensure_given}
use astra_file_host.Auth.{Identity}
use astra_file_host.Auth.Guards.{moderator, is_admin}

-- `z.enum(['AVAILABLE','BLOCKED','DELETED','EXPIRED'])`
pub data AdminState : Type 0 where
  make_available make_blocked make_deleted make_expired : AdminState

pub record AdminPatch : Type 0 where
  pub state : Option AdminState
  pub owner_id : Option ℕ
  pub folder_id : Option (Option ℕ)
  pub expires_at : Option (Option ℕ)

abbrev pub file_state_of : AdminState → FileState
file_state_of make_available = FileState.available
file_state_of make_blocked = blocked
file_state_of make_deleted = deleted
file_state_of make_expired = FileState.expired

-- `['PROCESSING','PURGED'].includes(f.state)`
abbrev pub is_fixed : FileState → Bool
is_fixed processing = true
is_fixed purged = true
is_fixed _ = false

-- `['AVAILABLE','BLOCKED'].includes(obj.state)`
abbrev pub is_restorable : FileState → Bool
is_restorable FileState.available = true
is_restorable blocked = true
is_restorable _ = false

abbrev pub is_given {ℓ} : {A : Type ℓ} → Option A → Bool
is_given none = false
is_given (some a) = true

abbrev pub makes_available : Option AdminState → Bool
makes_available (some make_available) = true
makes_available _ = false

abbrev pub size_of : Option ℕ → ℕ
size_of none = 0
size_of (some n) = n

-- The bytes of the old versions of a file.
abbrev pub history_bytes : ℕ → Db → ℕ
history_bytes id db =
    sum_where (λ (v : Version). v.file_id == id) (λ v. expected_size db v.object_id) db.versions

-- The checks of a new owner.
unfoldable pub check_owner : Option ℕ → ℕ → FileRow → FileObject → Db → Result (Unit {0})
check_owner none id f object db = ok tt
check_owner (some owner) id f object db = do
  u ← require_value (db.users owner)
  throw_if (not u.active) (api_error 404 request_failed)
  quota ← effective owner db
  throw_if
      (ltb quota.file_bytes (size_of object.size)
        || ltb quota.storage_bytes (
            used_bytes db owner
            + reserved_bytes db owner
            + (if owner == f.owner_id then 0 else size_of object.size + history_bytes id db)))
      (api_error 413 request_failed)

abbrev pub new_state : Option AdminState → FileState → FileState
new_state none old = old
new_state (some s) old = file_state_of s

abbrev pub new_folder : AdminPatch → Option ℕ → Option ℕ
new_folder i old = if is_given i.owner_id then none else or_else i.folder_id old

-- `CASE WHEN $2='DELETED' THEN now() WHEN $2='AVAILABLE' THEN NULL ELSE deleted_at END`
abbrev pub new_deleted_at : ℕ → Option AdminState → Option ℕ → Option ℕ
new_deleted_at now (some make_deleted) old = some now
new_deleted_at now (some make_available) old = none
new_deleted_at now (some make_blocked) old = old
new_deleted_at now (some make_expired) old = old
new_deleted_at now none old = old

abbrev pub apply_admin : ℕ → AdminPatch → FileRow → FileRow
apply_admin now i f = record f {
  state = new_state i.state f.state;
  owner_id = or_else i.owner_id f.owner_id;
  folder_id = new_folder i f.folder_id;
  expires_at = or_else i.expires_at f.expires_at;
  deleted_at = new_deleted_at now i.state f.deleted_at;
}

abbrev pub is_blocked : FileState → Bool
is_blocked blocked = true
is_blocked _ = false

abbrev pub block_object : FileObject → FileObject
block_object o = record o { state = blocked }

abbrev pub unblock_object : FileObject → FileObject
unblock_object o = if is_blocked o.state then record o { state = FileState.available } else o

-- What follows for the object of the file.
abbrev pub follow_object : Option AdminState → ℕ → Db → Db
follow_object (some make_blocked) object db = update_object object block_object db
follow_object (some make_available) object db = update_object object unblock_object db
follow_object (some make_deleted) object db = db
follow_object (some make_expired) object db = db
follow_object none object db = db

abbrev pub names_file : ℕ → Option ℕ → Bool
names_file id none = false
names_file id (some f) = f == id

-- `id IN (SELECT share_id FROM share_items WHERE file_id=$1)`
abbrev pub holds_file : ℕ → List ShareItem → ℕ → Bool
holds_file id [] share = false
holds_file id (x ∷ xs) share =
    (x.share_id == share && names_file id x.file_id) || holds_file id xs share

abbrev pub disable : Share → Share
disable s = record s { enabled = false; version = suc s.version }

abbrev pub follow_shares : Option ℕ → ℕ → Db → Db
follow_shares none id db = db
follow_shares (some owner) id db = record db {
  shares = update_where (λ s. holds_file id db.share_items s.id) disable db.shares;
}

abbrev pub follow_expiry : ℕ → Option AdminState → ℕ → Db → Db
follow_expiry now (some make_expired) object db = enqueue now purge object db
follow_expiry now (some make_available) object db = db
follow_expiry now (some make_blocked) object db = db
follow_expiry now (some make_deleted) object db = db
follow_expiry now none object db = db

unfoldable pub patch_any_file : ℕ → Identity → ℕ → AdminPatch → Db → Result Db
unfolding check_owner
patch_any_file now req id i db = do
  actor ← moderator req
  throw_if (is_given i.owner_id && not (is_admin actor.role)) (api_error 403 request_failed)
  f ← require_value (find (λ (x : FileRow). x.id == id) db.files)
  throw_if (is_fixed f.state) (api_error 409 request_failed)
  object ← require_value (db.objects f.object_id)
  throw_if (makes_available i.state && not (is_restorable object.state))
      (api_error 409 request_failed)
  check_owner i.owner_id id f object db
  ensure_given i.folder_id (or_else i.owner_id f.owner_id) db
  ok (
      audit (some actor.id) admin_file_updated id (
        follow_expiry now i.state f.object_id (
          follow_shares i.owner_id id
            (follow_object i.state f.object_id (update_file id (apply_admin now i) db)))))
