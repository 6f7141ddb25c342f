-- ===== src/Files/Folders.antt =====
-- apps/api/src/files.ts: `POST /api/folders` and `PATCH /api/folders/:id`. A move asks for the
-- descendants of the folder, as the recursive query does: rounds that add the children of what was
-- found, until nothing is added. The name of a folder, which no check reads, is left out.
pub mod Closure
pub mod Descendants
pub mod Acyclic
use astra_file_host.Base.{
  ℕ, zero, suc, Bool, true, false, ◌&&◌, ◌||◌, Option, none, some, List, [], ◌∷◌, length, ◌==◌,
  find, update_where, if◌then◌else◌, Result, ok, err, ◌>>=◌, ◌>>◌, throw_if, require_value,
  api_error, request_failed,
}
use astra_file_host.Database.{Db, Folder, audit, folder_created, folder_updated}
use astra_file_host.Entitlements.{or_else}
use astra_file_host.Limits.{writable}
use astra_file_host.Uploads.Create.{ensure_folder}

-- `parentId=c.id`, which null never fulfils.
abbrev pub is_some_id : Option ℕ → ℕ → Bool
is_some_id none id = false
is_some_id (some p) id = p == id

abbrev pub in_set : (ℕ → Bool) → Option ℕ → Bool
in_set found none = false
in_set found (some p) = found p

-- `SELECT f.id FROM folders f JOIN children c ON f.parent_id=c.id`
abbrev pub is_child_of : (ℕ → Bool) → List Folder → ℕ → Bool
is_child_of found [] k = false
is_child_of found (f ∷ fs) k = (f.id == k && in_set found f.parent_id) || is_child_of found fs k

abbrev pub grow : List Folder → (ℕ → Bool) → ℕ → Bool
grow folders found k = found k || is_child_of found folders k

unfoldable pub rounds : List Folder → ℕ → (ℕ → Bool) → ℕ → Bool
rounds folders zero found = found
rounds folders (suc n) found = grow folders (rounds folders n found)

-- `WITH RECURSIVE children AS (…)`: a round that adds nothing is the last, and at most as many
-- rounds as there are folders add something.
unfoldable pub children : List Folder → ℕ → ℕ → Bool
unfolding rounds
children folders id = rounds folders (length folders) (λ k. id == k)

-- The body of the request: `none` is an absent field.
pub record FolderPatch : Type 0 where
  pub parent_id : Option (Option ℕ)
  pub deleted : Option Bool

-- `CASE WHEN $5 THEN CASE WHEN $6 THEN now() ELSE NULL END ELSE deleted_at END`
abbrev pub new_deletion : ℕ → Option Bool → Option ℕ → Option ℕ
new_deletion now none old = old
new_deletion now (some true) old = some now
new_deletion now (some false) old = none

abbrev pub apply_folder : ℕ → FolderPatch → Folder → Folder
apply_folder now i f = record f {
  parent_id = or_else i.parent_id f.parent_id;
  deleted_at = new_deletion now i.deleted f.deleted_at;
}

-- The checks of a new parent.
unfoldable pub check_parent : ℕ → ℕ → Option (Option ℕ) → Db → Result (Unit {0})
unfolding children
check_parent owner id none db = ok tt
check_parent owner id (some none) db = ok tt
check_parent owner id (some (some parent)) db = do
  ensure_folder (some parent) owner db
  throw_if (children db.folders id parent) (api_error 400 request_failed)

unfoldable pub patch_folder : ℕ → ℕ → ℕ → FolderPatch → Db → Result Db
unfolding check_parent
patch_folder now owner id i db = do
  s ← writable db
  f ← require_value (find (λ (x : Folder). x.id == id && x.owner_id == owner) db.folders)
  check_parent owner id i.parent_id db
  ok (
      audit (some owner) folder_updated id
        (record db { folders = update_where (λ x. x.id == id) (apply_folder now i) db.folders }))

-- The id is chosen by the database.
unfoldable pub create_folder : ℕ → ℕ → Option ℕ → Db → Result Db
create_folder new_id owner parent db = do
  s ← writable db
  ensure_folder parent owner db
  ok (
      audit (some owner) folder_created new_id (record db {
        folders =
            record { id = new_id; owner_id = owner; parent_id = parent; deleted_at = none }
            ∷ db.folders;
      }))
