-- ===== src/Files.antt =====
-- apps/api/src/files.ts: the changes of files and folders by their owner. A transaction that only
-- touches the database is a function into `Result Db`: an error leaves the old database. The name of
-- a file, its declared type and the mark of a favourite, which no check reads, are left out.
pub mod Folders
pub mod Charge
pub mod Lifecycle
pub mod Moderation
pub mod Revision
pub mod Account
use astra_file_host.Base.{
  ℕ, ◌+◌, Bool, true, false, ◌&&◌, ◌||◌, not, Option, none, some, List, [], ◌∷◌, ◌==◌, ltb, find,
  if◌then◌else◌, Result, ok, err, ◌>>=◌, ◌>>◌, throw_if, require_value, api_error, request_failed,
  version_conflict, conflict, storage_quota, count_where,
}
use astra_file_host.Database.{
  Db, FileRow, FileObject, FileState, AuditAction, deleted, purged, quarantined, blocked, purge,
  audit, used_bytes, reserved_bytes, expected_size, file_updated, file_trashed, file_restored,
  file_moved, file_copied, file_purged,
}
use astra_file_host.Entitlements.{effective, or_else}
use astra_file_host.Limits.{writable}
use astra_file_host.Jobs.{enqueue, first_of}
use astra_file_host.Uploads.{update_file, set_file_state}
use astra_file_host.Uploads.Create.{ensure_folder}
use astra_file_host.Shares.Download.{object_state}

abbrev pub is_owned : ℕ → ℕ → FileRow → Bool
is_owned id owner f = f.id == id && f.owner_id == owner

-- `ownedFile`
abbrev pub owned_file : ℕ → ℕ → Db → Result FileRow
owned_file id owner db = require_value (find (is_owned id owner) db.files)

-- The body of `PATCH /api/files/:id`: `none` is an absent field.
pub record FilePatch : Type 0 where
  pub expected_revision : Option ℕ
  pub folder_id : Option (Option ℕ)
  pub expires_at : Option (Option ℕ)

-- `i.expectedRevision!==undefined&&current.revision!==i.expectedRevision`
abbrev pub is_outdated : Option ℕ → ℕ → Bool
is_outdated none revision = false
is_outdated (some expected) revision = not (revision == expected)

-- `if(i.folderId!==undefined)await ensureFolder(i.folderId,u.id,db)`
abbrev pub ensure_given : Option (Option ℕ) → ℕ → Db → Result (Unit {0})
ensure_given none owner db = ok tt
ensure_given (some folder) owner db = ensure_folder folder owner db

abbrev pub apply_patch : FilePatch → FileRow → FileRow
apply_patch i f = record f {
  folder_id = or_else i.folder_id f.folder_id;
  expires_at = or_else i.expires_at f.expires_at;
}

unfoldable pub patch_file : ℕ → ℕ → FilePatch → Db → Result Db
patch_file owner id i db = do
  s ← writable db
  current ← owned_file id owner db
  throw_if (is_outdated i.expected_revision current.revision) (api_error 409 version_conflict)
  ensure_given i.folder_id owner db
  ok (audit (some owner) file_updated id (update_file id (apply_patch i) db))

-- The actions of `POST /api/files/bulk`.
pub data BulkAction : Type 0 where
  to_trash restore move copy to_purge : BulkAction

pub record BulkRequest : Type 0 where
  pub ids : List ℕ
  pub action : BulkAction
  pub folder_id : Option ℕ
  pub confirmed : Bool

-- `file.${i.action}`
abbrev pub action_name : BulkAction → AuditAction
action_name to_trash = file_trashed
action_name restore = file_restored
action_name move = file_moved
action_name copy = file_copied
action_name to_purge = file_purged

-- `f.state!=='AVAILABLE'&&f.state!=='QUARANTINED'&&f.state!=='BLOCKED'`, negated.
abbrev pub is_completed : FileState → Bool
is_completed FileState.available = true
is_completed quarantined = true
is_completed blocked = true
is_completed _ = false

abbrev pub is_deleted : FileState → Bool
is_deleted deleted = true
is_deleted _ = false

abbrev pub is_listed : FileState → Bool
is_listed FileState.available = true
is_listed _ = false

abbrev pub trash : ℕ → FileRow → FileRow
trash now f = record f { state = deleted; deleted_at = some now }

abbrev pub untrash : FileRow → FileRow
untrash f = record f { state = FileState.available; deleted_at = none }

abbrev pub move_to : Option ℕ → FileRow → FileRow
move_to folder f = record f { folder_id = folder }

-- The row that a copy inserts, which shares the object with the original.
abbrev pub copy_row : ℕ → Option ℕ → FileRow → FileRow
copy_row new_id folder f = record {
  id = new_id;
  owner_id = f.owner_id;
  object_id = f.object_id;
  folder_id = first_of folder f.folder_id;
  state = FileState.available;
  expires_at = f.expires_at;
  deleted_at = none;
  revision = 1;
}

-- `INSERT INTO files`, which the primary key refuses for an id that is taken.
unfoldable pub insert_file : FileRow → Db → Result Db
insert_file row db =
    if count_where (λ (f : FileRow). f.id == row.id) db.files == 0
    then ok (record db { files = row ∷ db.files })
    else err (api_error 409 conflict)

-- One file of the loop, by what is done to it. `new_id` is the `randomUUID` of a copy.
unfoldable pub bulk_change : ℕ → (ℕ → ℕ) → ℕ → Option ℕ → BulkAction → FileRow → Db → Result Db
unfolding insert_file
bulk_change now new_id owner folder to_trash f db = do
  throw_if (not (is_completed f.state)) (api_error 409 request_failed)
  ok (update_file f.id (trash now) db)
bulk_change now new_id owner folder restore f db = do
  throw_if (not (is_deleted f.state)) (api_error 409 request_failed)
  throw_if (not (object_state (db.objects f.object_id))) (api_error 409 request_failed)
  ok (update_file f.id untrash db)
bulk_change now new_id owner folder move f db = ok (update_file f.id (move_to folder) db)
bulk_change now new_id owner folder copy f db = do
  throw_if (not (is_listed f.state)) (api_error 409 request_failed)
  quota ← effective owner db
  throw_if
      (ltb quota.storage_bytes
        (used_bytes db owner + reserved_bytes db owner + expected_size db f.object_id))
      (api_error 413 request_failed)
  insert_file (copy_row (new_id f.id) folder f) db
bulk_change now new_id owner folder to_purge f db = do
  throw_if (not (is_deleted f.state)) (api_error 409 request_failed)
  ok (enqueue now purge f.object_id (update_file f.id (set_file_state purged) db))

unfoldable pub bulk_one : ℕ → (ℕ → ℕ) → ℕ → BulkRequest → ℕ → Db → Result Db
unfolding bulk_change
bulk_one now new_id owner i id db = do
  f ← owned_file id owner db
  changed ← bulk_change now new_id owner i.folder_id i.action f db
  ok (audit (some owner) (action_name i.action) id changed)

unfoldable pub bulk_loop : ℕ → (ℕ → ℕ) → ℕ → BulkRequest → List ℕ → Db → Result Db
unfolding bulk_one
bulk_loop now new_id owner i [] db = ok db
bulk_loop now new_id owner i (id ∷ ids) db = do
  next ← bulk_one now new_id owner i id db
  bulk_loop now new_id owner i ids next

abbrev pub contains : ℕ → List ℕ → Bool
contains x [] = false
contains x (y ∷ ys) = y == x || contains x ys

-- `[...new Set(ids)]`, with the ids that were seen before.
unfoldable pub distinct : List ℕ → List ℕ → List ℕ
distinct seen [] = []
distinct seen (x ∷ xs) =
    let fresh = distinct (x ∷ seen) xs in
    let rest = distinct seen xs in if contains x seen then rest else x ∷ fresh

-- `if(i.action==='move'||i.action==='copy')`
abbrev pub has_destination : BulkAction → Bool
has_destination move = true
has_destination copy = true
has_destination _ = false

abbrev pub is_purge : BulkAction → Bool
is_purge to_purge = true
is_purge _ = false

unfoldable pub bulk : ℕ → (ℕ → ℕ) → ℕ → BulkRequest → Db → Result Db
unfolding bulk_loop distinct
bulk now new_id owner i db = do
  s ← writable db
  throw_if (is_purge i.action && not i.confirmed) (api_error 400 request_failed)
  ensure_given (if has_destination i.action then some i.folder_id else none) owner db
  bulk_loop now new_id owner i (distinct [] i.ids) db
