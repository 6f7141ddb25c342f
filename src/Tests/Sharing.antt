-- ===== src/Tests/Sharing.antt =====
-- A share of one file, opened by a visitor with a session.
use astra_file_host.Base.{
  ℕ, ◌≡◌, ◌≢◌, ◌↔◌, ◌+◌, ◌*◌, ◌<◌, ◌≤◌, refl, true, false, ◌&&◌, ◌==◌, find, if◌then◌else◌, some,
  none, [], ◌∷◌, ok, arith,
}
use astra_file_host.Validation.{mib}
use astra_file_host.Settings.{PlanPolicy, admits, parse_policy}
use astra_file_host.Entitlements.{effective, base_policy, guest_policy, override}
use astra_file_host.Database.{
  Db, FileRow, FileObject, FileState, Share, ShareAccess, public, audit, share_revoked,
  share_updated,
}
use astra_file_host.Limits.{bandwidth, active_grants, authorized_since}
use astra_file_host.Limits.Admission.{bandwidth_iff}
use astra_file_host.Shares.Quota.{create_share_row-quota}
use astra_file_host.Shares.Capability.{
  ShareOptions, create_share_row, insert_share, share_allowance, active_shares,
}
use astra_file_host.Shares.Access.{Visitor, active_share, authorize, revoke}
use astra_file_host.Shares.Download.{
  accessible_file, direct_download, download, in_share, in_tree, is_hidden, count_download, grant,
}
use astra_file_host.Shares.Promise.{
  Downloaded, is_within, download_outcome, revoke_outcome, revoked, share_of,
}
use astra_file_host.Shares.Update.{
  Change, Changed, update_share, update_share_outcome, apply_change,
}
use astra_file_host.Tests.Fixture.{fresh, file, object, empty_db, at}

abbrev shared_file : FileRow
shared_file = record file { state = FileState.available }

abbrev shared_object : FileObject
shared_object = record object { state = FileState.available; size = some (12 * mib) }

abbrev share : Share
share = record {
  id = 5;
  owner_id = 10;
  capability_digest = 55;
  visibility = public;
  password_hash = none;
  enabled = true;
  expires_at = some 900000000;
  max_downloads = some 3;
  download_count = 2;
  view_count = 0;
  version = 4;
}

abbrev session : ShareAccess
session = record {
  share_id = 5;
  token_hash = 66;
  version = 4;
  password_verified = true;
  expires_at = 3600000;
}

abbrev shared_db : Db
shared_db = record empty_db {
  files = shared_file ∷ [];
  objects = λ k. if k == 3 then some shared_object else none;
  shares = share ∷ [];
  share_items = record { share_id = 5; file_id = some 2; folder_id = none } ∷ [];
  share_access = session ∷ [];
}

abbrev visitor : Visitor
visitor = record { user = none; token_hash = some 66 }

abbrev downloaded_db : Db
downloaded_db = count_download 5 (grant at shared_file (some 5) shared_db)

download_runs : download at visitor 5 2 shared_db ≡ ok downloaded_db
unfolding download active_share authorize in_share is_hidden in_tree direct_download accessible_file
    bandwidth effective parse_policy admits base_policy guest_policy override active_grants
    authorized_since
download_runs = refl

download_outcome_example :
    Downloaded at visitor 5 2 shared_db downloaded_db
    × (is_within (share_of 5 downloaded_db) ≡ true)
download_outcome_example = download_outcome at visitor 5 2 shared_db downloaded_db download_runs

abbrev revoked_db : Db
revoked_db = audit (some 10) share_revoked 5 (record shared_db { shares = revoked share ∷ [] })

revoke_runs : revoke 10 5 shared_db ≡ ok revoked_db
unfolding revoke
revoke_runs = refl

revoke_outcome_example :
    (share_of 5 revoked_db ≡ some (revoked share))
    × ((x : Share) → active_share 3000 5 revoked_db ≢ ok x)
    × (authorize 3000 visitor (record (revoked share) { enabled = true }) false revoked_db ≢ ok tt)
revoke_outcome_example =
    revoke_outcome 3000 10 5 visitor false shared_db revoked_db share refl refl
      ((λ same. omega arith), tt) revoke_runs

abbrev change : Change
change = record {
  enabled = none;
  expires_at = some (some 5000);
  max_downloads = none;
  password_hash = none;
  digest = none;
  visibility = none;
}

abbrev updated_db : Db
updated_db =
    audit (some 10) share_updated 5
      (record shared_db { shares = apply_change change (some (some 5000)) share ∷ [] })

update_share_runs : update_share 2000 10 5 change shared_db ≡ ok updated_db
unfolding update_share share_allowance active_shares effective parse_policy admits base_policy
    guest_policy override
update_share_runs = refl

update_share_outcome_example :
    (s : Share) × (s' : Share) × (find
        (λ (x : Share). x.id == 5 && x.owner_id == 10)
        shared_db.shares
      ≡ some s)
    × (find (λ (x : Share). x.id == 5 && x.owner_id == 10) updated_db.shares ≡ some s')
    × Changed 2000 10 5 change shared_db s s'
update_share_outcome_example =
    update_share_outcome 2000 10 5 change shared_db updated_db update_share_runs

bandwidth_iff_example : (bandwidth at 10 (12 * mib) shared_db ≡ ok tt) ↔ (
    (quota : PlanPolicy) × (effective 10 shared_db ≡ ok quota)
    × (active_grants shared_db 10 2000 < quota.concurrent_downloads)
    × (authorized_since shared_db 10 0 + 12 * mib ≤ quota.bandwidth_bytes))
bandwidth_iff_example = bandwidth_iff at 10 (12 * mib) shared_db

abbrev options : ShareOptions
options = record {
  visibility = public;
  password_hash = none;
  expires_at = none;
  max_downloads = none;
}

abbrev created_share : Share
created_share = record {
  id = 77;
  owner_id = 10;
  capability_digest = 89;
  visibility = public;
  password_hash = none;
  enabled = true;
  expires_at = some (2000 + 720 * 3600000);
  max_downloads = none;
  download_count = 0;
  view_count = 0;
  version = 1;
}

create_runs : create_share_row fresh 10 options shared_db ≡ ok created_share
unfolding create_share_row share_allowance active_shares effective parse_policy admits base_policy
    guest_policy override
create_runs = refl

create_share_row-quota_example :
    (policy : PlanPolicy) × (effective 10 shared_db ≡ ok policy)
    × (active_shares 2000 (insert_share created_share shared_db) 10 ≤ policy.share_count)
    × ((t : ℕ) × (created_share.expires_at ≡ some t)
        × (t ≤ 2000 + policy.max_share_hours * 3600000))
create_share_row-quota_example =
    create_share_row-quota fresh 10 options shared_db created_share create_runs
