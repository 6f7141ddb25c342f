-- ===== src/Auth/Users.antt =====
-- The columns of a row of `users` that its plan reads, as apps/api/src/auth.ts inserts and updates them.
use astra_file_host.Base.{ℕ, Option, none, some, ◌==◌, if◌then◌else◌}
use astra_file_host.Settings.{PlanPolicy, PlanOverride}
use astra_file_host.Database.{Db, User}
use astra_file_host.Auth.{Account}
use astra_file_host.Auth.Guards.{is_active}

abbrev pub empty_quota : PlanOverride
empty_quota = record {
  storage_bytes = none;
  file_bytes = none;
  daily_bytes = none;
  monthly_bytes = none;
  bandwidth_bytes = none;
  concurrent_uploads = none;
  concurrent_downloads = none;
  share_count = none;
  max_share_hours = none;
  version_count = none;
  version_days = none;
  api_enabled = none;
}

-- A new row, in the columns that its plan reads.
abbrev pub insert_user : Account → PlanPolicy → Db → Db
insert_user u plan db = record db {
  users = λ k.
      if k == u.id
      then some (record {
        anonymous = u.anonymous;
        active = is_active u.status;
        plan = plan;
        quota = empty_quota;
      })
      else db.users k;
}

abbrev pub map_user : (User → User) → Option User → Option User
map_user f none = none
map_user f (some u) = some (f u)

abbrev pub update_user : ℕ → (User → User) → Db → Db
update_user id f db = record db {
  users = λ k. if k == id then map_user f (db.users k) else db.users k;
}
