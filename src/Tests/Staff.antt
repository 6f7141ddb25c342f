-- ===== src/Tests/Staff.antt =====
-- An owner activates an account, and cannot suspend itself.
use astra_file_host.Base.{
  ◌&&◌, ◌||◌, not, ◌≡◌, ◌≤◌, refl, false, some, none, [], ◌∷◌, ok, err, api_error, request_failed,
  arith,
}
use astra_file_host.Auth.{Account, Identity, suspended, AuthDb, active}
use astra_file_host.Auth.Guards.{allow, admin, require_user, require_identity}
use astra_file_host.Auth.Administration.{UserPatch, patched_user, patch_user, active_owners}
use astra_file_host.Auth.Administration.Staff.{HasUniqueAccounts, patch_user-owner_left}
use astra_file_host.Auth.Attach.{account_of}
use astra_file_host.Auth.Accounts.{is_found, is_owner_role}
use astra_file_host.Tests.Fixture.{no_override}
use astra_file_host.Tests.Accounts.{accounts_db, member, staff}

-- The owner activates the member, by a session.
abbrev staff_db : AuthDb
staff_db = record accounts_db { accounts = staff ∷ member ∷ [] }

abbrev as_staff : Identity
as_staff = record { user = some staff; session_id = some 9; api_scopes = none }

abbrev activation : UserPatch
activation = record {
  role = none;
  status = some active;
  quota = none;
  plan_id = none;
  reset_sessions = false;
}

abbrev activated_db : AuthDb
activated_db = patched_user no_override 11 10 activation none staff_db

activation_runs :
    patch_user (λ p. none) no_override as_staff 10 activation staff_db ≡ ok activated_db
unfolding patch_user allow require_user require_identity
activation_runs = refl

staff_db_unique : HasUniqueAccounts staff_db.accounts
staff_db_unique id = ground arith

staff_db_owned : 1 ≤ active_owners staff_db.accounts
unfolding active_owners
staff_db_owned = omega arith

patch_user-owner_left_example :
    (1 ≤ active_owners activated_db.accounts)
    × ((actor : Account) × (u : Account) × (admin as_staff ≡ ok actor)
        × (account_of 10 staff_db ≡ some u)
        × (((is_found activation.role || is_owner_role u.role) && not (is_owner_role actor.role))
            ≡ false))
patch_user-owner_left_example =
    patch_user-owner_left (λ p. none) no_override as_staff 10 activation staff_db activated_db
      staff_db_unique staff_db_owned activation_runs

last_owner_stays :
    patch_user
      (λ p. none)
      no_override
      as_staff
      11
      (record activation { status = some suspended })
      staff_db
    ≡ err (api_error 409 request_failed)
unfolding patch_user allow require_user require_identity active_owners
last_owner_stays = refl
