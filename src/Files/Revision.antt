-- ===== src/Files/Revision.antt =====
-- The revisions of files (apps/api/src/files.ts `PATCH /api/files/:id`): what was edited elsewhere is
-- not overwritten.
use astra_file_host.Base.{
  ℕ, ◌+◌, ◌≡◌, refl, some, List, ◌==◌, find, find-update_where, find-holds, arith, ok, err,
  api_error, version_conflict, >>=-eq-ok, throw_if-eq-ok, ok-injective, update_where, subst,
}
use astra_file_host.Settings.{Settings}
use astra_file_host.Database.{Db, FileRow}
use astra_file_host.Limits.{writable}
use astra_file_host.Uploads.{touch}
use astra_file_host.Files.{
  ensure_given, FilePatch, patch_file, owned_file, is_owned, apply_patch, is_outdated,
}

-- A patch that names the revision it saw.
abbrev pub names : ℕ → FilePatch → FilePatch
names revision i = record i { expected_revision = some revision }

-- What a patch that succeeds says of the file before and after, and of the next reader.
record Patched (owner id revision : ℕ) (i : FilePatch) (db db' : Db) : Type 0 where
  before : FileRow
  current : before.revision ≡ revision
  settings : Settings
  still_open : writable db' ≡ ok settings
  after : find (is_owned id owner) db'.files ≡ some (touch (apply_patch i before))

found_after :
    (owner id : ℕ) (i : FilePatch) (f : FileRow) (files : List FileRow)
    → find (is_owned id owner) files ≡ some f
    → find (is_owned id owner) (update_where (λ r. r.id == id) (λ r. touch (apply_patch i r)) files)
      ≡ some (touch (apply_patch i f))
found_after owner id i f files found = ground (
  arith,
  found,
  find-holds (is_owned id owner) files f found,
  find-update_where (is_owned id owner) (λ r. r.id == id) (λ r. touch (apply_patch i r)) files
      (λ x. refl),
)

patch_file_lem :
    (owner id revision : ℕ) (i : FilePatch) (db db' : Db)
    → patch_file owner id (names revision i) db ≡ ok db'
    → Patched owner id revision i db db'
unfolding patch_file writable
patch_file_lem owner id revision i db db' h =
    let (s, open_for_writing, owned) = >>=-eq-ok (writable db) _ h in
    let (f, found, checking) = >>=-eq-ok (owned_file id owner db) _ owned in
    let (same, placing) =
      throw_if-eq-ok (is_outdated (some revision) f.revision) (api_error 409 version_conflict) _
        checking in
    let (done, placed, answer) = >>=-eq-ok (ensure_given i.folder_id owner db) _ placing in
    subst (Patched owner id revision i db) (ok-injective answer) (record {
      before = f;
      current = ground (arith, same);
      settings = s;
      still_open = open_for_writing;
      after = found_after owner id i f db.files (ground (arith, found));
    })

-- After a patch under the current revision has succeeded, the file, as it is then found, has a revision
-- that is one more, and every other patch that names the former revision is refused as a conflict.
pub patch_file-conflict :
    (owner id revision : ℕ) (i j : FilePatch) (f : FileRow) (db db' : Db)
    → patch_file owner id (names revision i) db ≡ ok db'
    → find (is_owned id owner) db'.files ≡ some f
    → (f.revision ≡ revision + 1)
      × (patch_file owner id (names revision j) db' ≡ err (api_error 409 version_conflict))
unfolding patch_file
patch_file-conflict owner id revision i j f db db' h found =
    let p = patch_file_lem owner id revision i db db' h in
    (ground (arith, found, p.after, p.current), ground (arith, p.still_open, p.after, p.current))
