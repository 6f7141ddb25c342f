-- ===== src/Tests/Tree.antt =====
-- Files and folders of one user: a copy, the trash, an edit from two devices, and moves of folders.
use astra_file_host.Base.{
  ℕ, ◌≡◌, ◌≤◌, ◌+◌, ◌↔◌, refl, true, false, max, some, none, Option, List, [], ◌∷◌, ok, err,
  api_error, request_failed, version_conflict, arith,
}
use astra_file_host.Settings.{admits, parse_policy}
use astra_file_host.Entitlements.{effective, base_policy, guest_policy, override}
use astra_file_host.Database.{
  Db, FileRow, FileObject, FileState, Folder, used_bytes, reserved_bytes, expected_size, audit,
  file_updated, file_trashed, file_copied, folder_updated,
}
use astra_file_host.Limits.{writable}
use astra_file_host.Uploads.{update_file}
use astra_file_host.Uploads.Create.{ensure_folder}
use astra_file_host.Files.{
  BulkRequest, copy, to_trash, to_purge, bulk, bulk_loop, bulk_one, bulk_change, insert_file,
  distinct, FilePatch, patch_file, apply_patch, trash, copy_row,
}
use astra_file_host.Files.Account.{HasUniqueIds}
use astra_file_host.Files.Charge.{bulk-within_quota}
use astra_file_host.Files.Lifecycle.{Passed, bulk-passes}
use astra_file_host.Files.Revision.{names, patch_file-conflict}
use astra_file_host.Files.Folders.{FolderPatch, patch_folder, check_parent, children, rounds}
use astra_file_host.Files.Folders.Descendants.{links, IsUnder, children_iff}
use astra_file_host.Files.Folders.Acyclic.{IsAcyclic, IsBelow, patch_folder-IsAcyclic}
use astra_file_host.Tests.Fixture.{file, object, empty_db, plan}

abbrev current : FileRow
current = record file { state = FileState.available }

abbrev stored_object : FileObject
stored_object = record object { state = FileState.available; size = some 100; expected_size = 100 }

abbrev one_file : Db
one_file = record empty_db { files = current ∷ []; objects = λ k. some stored_object }

abbrev copying : BulkRequest
copying = record { ids = 2 ∷ 2 ∷ []; action = copy; folder_id = none; confirmed = false }

abbrev copied_db : Db
copied_db =
    audit (some 10) file_copied 2
      (record one_file { files = copy_row 32 none current ∷ current ∷ [] })

copy_runs : bulk 2000 (λ k. 30 + k) 10 copying one_file ≡ ok copied_db
unfolding bulk writable distinct bulk_loop bulk_one bulk_change insert_file effective parse_policy
    admits base_policy guest_policy override used_bytes reserved_bytes expected_size ensure_folder
copy_runs = refl

one_file_unique : HasUniqueIds one_file.files
one_file_unique id = ground arith

plan_in_force : effective 10 one_file ≡ ok plan
unfolding effective parse_policy admits base_policy guest_policy override
plan_in_force = refl

bulk-within_quota_example :
    HasUniqueIds copied_db.files
    × (used_bytes copied_db 10 + reserved_bytes copied_db 10
        ≤ max (used_bytes one_file 10 + reserved_bytes one_file 10) plan.storage_bytes)
bulk-within_quota_example =
    bulk-within_quota 2000 (λ k. 30 + k) 10 copying plan one_file copied_db one_file_unique
      plan_in_force copy_runs

abbrev trashing : BulkRequest
trashing = record copying { action = to_trash }

abbrev trashed_db : Db
trashed_db = audit (some 10) file_trashed 2 (update_file 2 (trash 2000) one_file)

trash_runs : bulk 2000 (λ k. k) 10 trashing one_file ≡ ok trashed_db
unfolding bulk writable distinct bulk_loop bulk_one bulk_change
trash_runs = refl

bulk-passes_example : Passed 10 to_trash current 2 trashed_db
bulk-passes_example =
    bulk-passes 2000 (λ k. k) 10 trashing 2 current one_file trashed_db refl trash_runs

-- A purge without the words of confirmation, and one of a file that is not in the trash.
purge_unconfirmed :
    bulk 2000 (λ k. k) 10 (record copying { action = to_purge }) one_file
    ≡ err (api_error 400 request_failed)
unfolding bulk writable
purge_unconfirmed = refl

purge_listed :
    bulk 2000 (λ k. k) 10 (record copying { action = to_purge; confirmed = true }) one_file
    ≡ err (api_error 409 request_failed)
unfolding bulk writable distinct bulk_loop bulk_one bulk_change
purge_listed = refl

abbrev edit : FilePatch
edit = record { expected_revision = none; folder_id = none; expires_at = some (some 9000) }

abbrev edited_db : Db
edited_db = audit (some 10) file_updated 2 (update_file 2 (apply_patch edit) one_file)

edit_runs : patch_file 10 2 (names 1 edit) one_file ≡ ok edited_db
unfolding patch_file writable
edit_runs = refl

abbrev edited : FileRow
edited = record current { expires_at = some 9000; revision = 2 }

second_edit :
    (edited.revision ≡ 1 + 1)
    × (patch_file 10 2 (names 1 edit) edited_db ≡ err (api_error 409 version_conflict))
second_edit = patch_file-conflict 10 2 1 edit edit edited one_file edited_db edit_runs refl

abbrev folder : ℕ → Option ℕ → Folder
folder id parent = record { id = id; owner_id = 10; parent_id = parent; deleted_at = none }

-- 1 holds 2, which holds 3; 4 stands alone.
abbrev tree : List Folder
tree = folder 3 (some 2) ∷ folder 2 (some 1) ∷ folder 1 none ∷ folder 4 none ∷ []

abbrev tree_db : Db
tree_db = record empty_db { folders = tree }

children_iff_example : (children tree 1 3 ≡ true) ↔ IsUnder tree 1 3
children_iff_example = children_iff tree 1 3

move_into_itself :
    patch_folder 2000 10 1 (record { parent_id = some (some 3); deleted = none }) tree_db
    ≡ err (api_error 400 request_failed)
unfolding patch_folder writable check_parent ensure_folder children rounds
move_into_itself = refl

abbrev moving : FolderPatch
moving = record { parent_id = some (some 4); deleted = none }

abbrev moved_db : Db
moved_db = audit (some 10) folder_updated 2 (record tree_db {
  folders = folder 3 (some 2) ∷ folder 2 (some 4) ∷ folder 1 none ∷ folder 4 none ∷ [];
})

move_runs : patch_folder 2000 10 2 moving tree_db ≡ ok moved_db
unfolding patch_folder writable check_parent ensure_folder children rounds
move_runs = refl

links_smaller : (x y : ℕ) → links tree x y ≡ true → y + 1 ≤ x
unfolding links
links_smaller x y h = ground (arith, h)

below_smaller : {x y : ℕ} → IsBelow tree x y → y + 1 ≤ x
below_smaller (IsBelow.link up) = links_smaller _ _ up
below_smaller (IsBelow.climb below up) = omega (arith, below_smaller below, links_smaller _ _ up)

tree-IsAcyclic : IsAcyclic tree
tree-IsAcyclic k loop = omega (arith, below_smaller loop)

patch_folder-IsAcyclic_example : IsAcyclic moved_db.folders
patch_folder-IsAcyclic_example =
    patch_folder-IsAcyclic 2000 10 2 moving tree_db moved_db tree-IsAcyclic move_runs
