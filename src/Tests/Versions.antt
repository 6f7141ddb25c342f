-- ===== src/Tests/Versions.antt =====
-- A file replaced by another one of its owner.
use astra_file_host.Base.{
  ◌≡◌, ◌≤◌, ◌+◌, ◌⊎◌, refl, false, ◌&&◌, ◌==◌, find, count_where, some, List, [], ◌∷◌, ok,
}
use astra_file_host.Settings.{PlanPolicy, admits, parse_policy}
use astra_file_host.Entitlements.{effective, base_policy, guest_policy, override}
use astra_file_host.Database.{
  Db, FileRow, FileObject, FileState, Version, used_bytes, reserved_bytes, expected_size, audit,
  file_version_replaced,
}
use astra_file_host.Limits.{writable}
use astra_file_host.Shares.Download.{accessible_file, is_hidden}
use astra_file_host.Cloud.{
  is_old, kept_versions, removed_versions, purge_all, prune_with, prune_versions, settle_exchange,
  replace, exchange,
}
use astra_file_host.Cloud.Retention.{kept_versions_bound, replace-quota}
use astra_file_host.Tests.Fixture.{file, object, empty_db}

abbrev current : FileRow
current = record file { state = FileState.available }

abbrev other : FileRow
other = record current { id = 12; object_id = 13 }

abbrev stored_object : FileObject
stored_object = record object { state = FileState.available; size = some 100; expected_size = 100 }

abbrev two_files : Db
two_files = record empty_db { files = current ∷ other ∷ []; objects = λ k. some stored_object }

abbrev replaced_db : Db
replaced_db =
    audit (some 10) file_version_replaced 2
      (exchange 2000 31 current (record { object_id = 13; size = 100 }) two_files)

replace_runs : replace 2000 31 10 2 1 12 false two_files ≡ ok replaced_db
unfolding replace writable effective parse_policy admits base_policy guest_policy override
    accessible_file is_hidden settle_exchange prune_versions prune_with kept_versions
    removed_versions purge_all used_bytes reserved_bytes expected_size
replace_runs = refl

replace-quota_example :
    ((target : FileRow) × (find (λ (x : FileRow). x.id == 2 && x.owner_id == 10) two_files.files
        ≡ some target)
      × (target.revision ≡ 1))
    × ((replaced_db ≡ two_files)
        ⊎ ((policy : PlanPolicy) × (effective 10 two_files ≡ ok policy)
            × (used_bytes replaced_db 10 + reserved_bytes replaced_db 10 ≤ policy.storage_bytes)))
replace-quota_example = replace-quota 2000 31 10 2 1 12 false two_files replaced_db replace_runs

abbrev old_versions : List Version
old_versions =
    record { id = 2; file_id = 2; object_id = 8; owner_id = 10; revision = 4; created_at = 900 }
    ∷ record { id = 1; file_id = 2; object_id = 7; owner_id = 10; revision = 3; created_at = 800 }
    ∷ []

kept_versions_bound_applies :
    (count_where (λ (v : Version). v.file_id == 2) (kept_versions 1000 2 1 1 old_versions) ≤ 1)
    × (count_where
          (λ (v : Version). v.file_id == 2 && is_old 1000 1 v)
          (kept_versions 1000 2 1 1 old_versions)
        ≡ 0)
    × (count_where (λ (v : Version). v.file_id == 3) (kept_versions 1000 2 1 1 old_versions)
        ≡ count_where (λ (v : Version). v.file_id == 3) old_versions)
kept_versions_bound_applies = kept_versions_bound 1000 2 1 1 3 old_versions refl
