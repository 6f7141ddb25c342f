-- ===== src/Tests/Accounts.antt =====
-- Two accounts: an API key, sessions, a reset of a password, and the verification of an email.
use astra_file_host.Base.{
  ◌+◌, ◌≡◌, ◌≤◌, ◌⊎◌, refl, true, false, find, select, count_where, map_found, some, none, [], ◌∷◌,
  ok, err, api_error, request_failed, arith, ◌==◌,
}
use astra_file_host.Settings.{admits, parse_policy}
use astra_file_host.Entitlements.{effective, base_policy, guest_policy, override}
use astra_file_host.Database.{audit, password_was_reset, owner_bootstrapped}
use astra_file_host.Auth.{
  Account, ApiKey, AuthDb, Digests, Request, Reset, Session, Verification, owner_role, user_role,
  pending, active, verify, change, files_read, files_area, shares_area, nobody,
}
use astra_file_host.Auth.Guards.{allow, is_admin}
use astra_file_host.Auth.Attach.{
  attach_auth, attach_key, admit_key, key_identity, use_key, account_of,
}
use astra_file_host.Auth.Sessions.{issue_session}
use astra_file_host.Auth.Accounts.{Credentials, setup, insert_account}
use astra_file_host.Auth.Users.{insert_user}
use astra_file_host.Auth.Recovery.{reset, is_usable, set_password}
use astra_file_host.Auth.Email.{verify_email, is_usable_link, confirmed}
use astra_file_host.Auth.Access.{ByKey, BySession, attach_auth_outcome}
use astra_file_host.Auth.Bound.{is_of, issue_session-bound}
use astra_file_host.Auth.Resets.{reset_once}
use astra_file_host.Auth.Verified.{verify_email_once}
use astra_file_host.Auth.Roles.{owners}
use astra_file_host.Auth.Owner.{here, next, set_up, Reach-owners}
use astra_file_host.Tests.Fixture.{empty_db, plan}

-- Digests that add a constant; a password fits the hash that is one more.
abbrev digests : Digests
digests = record {
  hash = λ t. 1000 + t;
  email_lookup = λ e. 500 + e;
  email_lookups = λ e. (500 + e) ∷ [];
  verify_password = λ h p. h == (p + 1);
}

abbrev pub member : Account
member = record {
  id = 10;
  role = user_role;
  anonymous = false;
  status = pending;
  email_lookup = some 507;
  email_verified_at = none;
  password_hash = some 21;
}

abbrev pub staff : Account
staff = record member { id = 11; role = owner_role; status = active; email_lookup = some 508 }

abbrev session : Session
session = record {
  id = 1;
  user_id = 10;
  token_hash = 1001;
  expires_at = 90000;
  created_at = 100;
  last_seen_at = 100;
  friendly_name = none;
}

abbrev key : ApiKey
key = record {
  id = 5;
  owner_id = 10;
  token_hash = 1042;
  scopes = files_read ∷ [];
  expires_at = none;
  revoked_at = none;
  last_used_at = none;
}

abbrev link : Reset
link = record { user_id = 10; token_hash = 1033; expires_at = 90000; consumed_at = none }

abbrev email_link : Verification
email_link = record {
  user_id = 10;
  email_lookup = 507;
  token_hash = 1034;
  purpose = verify;
  expires_at = 90000;
  consumed_at = none;
}

abbrev pub accounts_db : AuthDb
accounts_db = record {
  main = empty_db;
  free_plan = plan;
  pro_plan = plan;
  settings = record {
    session_days = 30;
    max_sessions = 1;
    registration_enabled = true;
    require_manual_activation = false;
  };
  accounts = member ∷ [];
  sessions = session ∷ [];
  api_keys = key ∷ [];
  password_resets = link ∷ [];
  email_verifications = email_link ∷ [];
}

abbrev active_member : Account
active_member = record member { status = active }

abbrev key_db : AuthDb
key_db = record accounts_db { accounts = active_member ∷ [] }

abbrev by_key : Request
by_key = record {
  bearer = some (record { value = 42; length = 40 });
  cookie = none;
  area = files_area;
  is_get = true;
}

key_runs :
    attach_auth digests 2000 by_key key_db
    ≡ ok (key_identity key active_member, use_key 2000 key key_db)
unfolding attach_auth attach_key admit_key effective parse_policy admits base_policy guest_policy
    override
key_runs = refl

-- The key has no scope for shares.
key_lacks :
    attach_auth digests 2000 (record by_key { area = shares_area }) key_db
    ≡ err (api_error 403 request_failed)
unfolding attach_auth attach_key admit_key effective parse_policy admits base_policy guest_policy
    override
key_lacks = refl

attach_auth_outcome_example :
    ((key_identity key active_member ≡ nobody)
      ⊎ BySession digests 2000 by_key key_db (key_identity key active_member))
    ⊎ (ByKey digests 2000 by_key key_db (key_identity key active_member)
        × (allow is_admin (key_identity key active_member) ≡ err (api_error 403 request_failed)))
attach_auth_outcome_example =
    attach_auth_outcome digests 2000 by_key is_admin key_db (use_key 2000 key key_db)
      (key_identity key active_member) key_runs

abbrev issued : AuthDb
issued = issue_session digests 2000 10 none (record { id = 2; token = 8 }) accounts_db

issue_session-bound_example :
    (count_where (is_of 10) issued.sessions ≤ 1)
    × ((s : Session) × (find (is_of 10) issued.sessions ≡ some s) × (s.token_hash ≡ 1008))
    × (select (is_of 11) issued.sessions ≡ select (is_of 11) accounts_db.sessions)
issue_session-bound_example =
    issue_session-bound digests 2000 10 none (record { id = 2; token = 8 }) accounts_db 11
      (omega arith) refl

abbrev reset_db : AuthDb
reset_db = record accounts_db {
  accounts = record member { password_hash = some 61 } ∷ [];
  sessions = [];
  password_resets = record link { consumed_at = some 2000 } ∷ [];
  main = audit (some 10) password_was_reset 10 empty_db;
}

reset_runs : reset digests 2000 (ok tt) 33 61 accounts_db ≡ ok reset_db
unfolding reset
reset_runs = refl

reset_once_example :
    ((r : Reset) × (find (is_usable 2000 1033) accounts_db.password_resets ≡ some r)
      × (find (is_of r.user_id) reset_db.sessions ≡ none)
      × (account_of r.user_id reset_db
          ≡ map_found (set_password 61) (account_of r.user_id accounts_db)))
    × (reset digests 3000 (ok tt) 33 71 reset_db ≡ err (api_error 400 request_failed))
reset_once_example =
    reset_once digests 2000 3000 33 61 71 (ok tt) accounts_db reset_db (omega arith) reset_runs

abbrev verified_db : AuthDb
verified_db = confirmed 2000 1034 email_link member accounts_db

verify_runs : verify_email digests 2000 (ok tt) 34 accounts_db ≡ ok verified_db
unfolding verify_email
verify_runs = refl

verify_email_once_example :
    ((v : Verification) × (u : Account) × (u' : Account) × (find
          (is_usable_link 2000 1034)
          accounts_db.email_verifications
        ≡ some v)
      × (account_of v.user_id accounts_db ≡ some u)
      × (account_of v.user_id verified_db ≡ some u')
      × (u'.email_lookup ≡ some v.email_lookup)
      × ((u.email_lookup ≡ some v.email_lookup) ⊎ (v.purpose ≡ change))
      × ((u'.status ≡ u.status)
          ⊎ ((v.purpose ≡ verify)
              × (u.status ≡ pending)
              × (accounts_db.settings.require_manual_activation ≡ false)
              × (u'.status ≡ active))))
    × (verify_email digests 3000 (ok tt) 34 verified_db ≡ err (api_error 404 request_failed))
verify_email_once_example =
    verify_email_once digests 2000 3000 34 (ok tt) accounts_db verified_db (omega arith) verify_runs

abbrev credentials : Credentials
credentials = record { email = 8; password_hash = 21 }

abbrev owned_db : AuthDb
owned_db =
    issue_session digests 2000 11 none (record { id = 2; token = 8 })
      (record accounts_db {
        accounts = staff ∷ accounts_db.accounts;
        main =
            audit (some 11) owner_bootstrapped 11 (insert_user staff accounts_db.pro_plan empty_db);
      })

setup_runs :
    setup digests 2000 (ok tt) 1050 50 11 credentials (record { id = 2; token = 8 }) accounts_db
    ≡ ok owned_db
unfolding setup insert_account
setup_runs = refl

no_owner_yet : owners accounts_db.accounts ≤ 1
unfolding owners
no_owner_yet = omega arith

Reach-owners_example : owners owned_db.accounts ≤ 1
Reach-owners_example = Reach-owners digests accounts_db owned_db no_owner_yet (
    next here
      (set_up 2000 (ok tt) 1050 50 11 credentials (record { id = 2; token = 8 }) setup_runs))

-- The new owner has a plan, that of the row `PRO`.
owner_has_plan : effective 11 owned_db.main ≡ ok accounts_db.pro_plan
unfolding issue_session effective parse_policy admits base_policy guest_policy override
owner_has_plan = refl
