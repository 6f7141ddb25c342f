-- ===== src/Shares/Download.antt =====
-- apps/api/src/shares.ts `shareFiles`, `/download`, and apps/api/src/files.ts `accessibleFile`,
-- `directDownload` without a preview. The URL that the storage signs is left out. The recursive queries
-- on folders are walks to the root; a walk meets each folder once, so that as many steps as there are
-- folders are enough.
use astra_file_host.Base.{
  ℕ, zero, suc, Bool, true, false, ◌&&◌, ◌||◌, not, Option, none, some, ◌∷◌, ◌==◌, find,
  update_where, length, Result, ok, ◌>>=◌, ◌>>◌, throw_if, require_value, api_error, request_failed,
}
use astra_file_host.Database.{Db, Share, ShareItem, FileRow, FileObject, FileState, Folder}
use astra_file_host.Limits.{Surroundings, bandwidth}
use astra_file_host.Shares.Capability.{is_unexpired}
use astra_file_host.Shares.Access.{active_share, active_owner, authorize, Visitor, is_user, is_set}

abbrev pub is_available : FileState → Bool
is_available FileState.available = true
is_available _ = false

abbrev pub folder_of : ℕ → Db → Option Folder
folder_of id db = find (λ (f : Folder). f.id == id) db.folders

-- A folder on the way to the root is deleted: `WITH RECURSIVE parents …`.
unfoldable pub is_hidden : ℕ → Db → Option ℕ → Bool
is_hidden zero db id = false
is_hidden (suc n) db none = false
is_hidden (suc n) db (some id) = elim (folder_of id db) [
  | none ↦ false
  | some f ↦ is_set f.deleted_at || is_hidden n db f.parent_id
]

abbrev pub names_folder : ℕ → ℕ → ShareItem → Bool
names_folder share folder i = i.share_id == share && is_user i.folder_id folder

abbrev pub names_file : ℕ → ℕ → ShareItem → Bool
names_file share file i = i.share_id == share && is_user i.file_id file

-- The folder is one of the share's or lies in one, with only folders of the owner that are not deleted
-- in between: `WITH RECURSIVE … tree`.
unfoldable pub in_tree : ℕ → Db → ℕ → ℕ → Option ℕ → Bool
in_tree zero db share owner id = false
in_tree (suc n) db share owner none = false
in_tree (suc n) db share owner (some id) = elim (folder_of id db) [
  | none ↦ false
  | some f ↦
      f.owner_id == owner
      && (not (is_set f.deleted_at)
          && (is_set (find (names_folder share id) db.share_items)
              || in_tree n db share owner f.parent_id))
]

abbrev pub object_state : Option FileObject → Bool
object_state none = false
object_state (some o) = is_available o.state

-- The file and its object are available, and it has not expired.
abbrev pub is_ready : ℕ → Db → FileRow → Bool
is_ready now db f =
    is_available f.state && (object_state (db.objects f.object_id) && is_unexpired now f.expires_at)

-- The file is one of `shareFiles`, less its `LIMIT 5000`: of a share with more files than that, which the
-- source cuts in the order of their names, the model grants the rest too.
unfoldable pub in_share : ℕ → Db → Share → FileRow → Bool
in_share now db s f =
    f.owner_id == s.owner_id
    && (not (is_hidden (length db.folders) db f.folder_id)
        && (is_ready now db f
            && (is_set (find (names_file s.id f.id) db.share_items)
                || in_tree (length db.folders) db s.id s.owner_id f.folder_id)))

unfoldable pub accessible_file : ℕ → ℕ → Db → Result FileRow
accessible_file now id db = do
  f ← require_value (find (λ (x : FileRow). x.id == id) db.files)
  u ← active_owner (db.users f.owner_id)
  throw_if (not (is_ready now db f)) (api_error 404 request_failed)
  throw_if (is_hidden (length db.folders) db f.folder_id) (api_error 404 request_failed)
  ok f

-- `o.size`, null of an object that is not complete.
abbrev pub stored_size : Option FileObject → ℕ
stored_size none = 0
stored_size (some o) = elim o.size [ none ↦ 0 | some n ↦ n ]

abbrev pub grant : Surroundings → FileRow → Option ℕ → Db → Db
grant at f share db = record db {
  downloads =
      record {
        file_id = f.id;
        share_id = share;
        owner_id = f.owner_id;
        bytes_authorized = stored_size (db.objects f.object_id);
        created_at = at.now;
      }
      ∷ db.downloads;
}

unfoldable pub direct_download : Surroundings → ℕ → Option ℕ → Db → Result Db
direct_download at id share db = do
  f ← accessible_file at.now id db
  bandwidth at f.owner_id (stored_size (db.objects f.object_id)) db
  ok (grant at f share db)

-- `UPDATE shares SET download_count=download_count+1 WHERE id=$1`
abbrev pub bump : Share → Share
bump s = record s { download_count = suc s.download_count }

abbrev pub count_download : ℕ → Db → Db
count_download id db = record db {
  shares = update_where (λ (x : Share). x.id == id) bump db.shares;
}

abbrev pub holds_file : ℕ → Db → Share → ℕ → Bool
holds_file now db s file = elim (find (λ (x : FileRow). x.id == file) db.files) [
  | none ↦ false
  | some f ↦ in_share now db s f
]

unfoldable pub download : Surroundings → Visitor → ℕ → ℕ → Db → Result Db
download at v id file db = do
  s ← active_share at.now id db
  authorize at.now v s false db
  throw_if (not (holds_file at.now db s file)) (api_error 404 request_failed)
  granted ← direct_download at file (some s.id) db
  ok (count_download s.id granted)
