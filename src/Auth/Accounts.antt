-- ===== src/Auth/Accounts.antt =====
-- apps/api/src/auth.ts: how accounts come to be and are signed in to. Bodies have been parsed, the
-- answer of `limited` (Limits/Rate) is an argument, and so is the hash of a new password. The public id
-- of an account and its encrypted name, which no check reads, are left out.
use astra_file_host.Base.{
  ℕ, Bool, true, false, ◌||◌, not, Option, none, some, List, [], ◌∷◌, ◌==◌, find, update_where,
  if◌then◌else◌, Result, ok, err, ◌>>=◌, ◌>>◌, throw_if, api_error, request_failed, conflict,
}
use astra_file_host.Settings.{PlanPolicy}
use astra_file_host.Database.{audit, owner_bootstrapped, account_registered, account_login}
use astra_file_host.Auth.{
  Account, AuthDb, Digests, Identity, Role, owner_role, user_role, Status, pending, active,
}
use astra_file_host.Auth.Guards.{may_sign_in}
use astra_file_host.Auth.Users.{insert_user, update_user}
use astra_file_host.Auth.Sessions.{Fresh, issue_session, end_sessions_of, end_if}

-- `email_lookup=ANY($1::text[])`
abbrev pub is_any : List ℕ → Option ℕ → Bool
is_any candidates none = false
is_any [] (some e) = false
is_any (c ∷ cs) (some e) = c == e || is_any cs (some e)

abbrev pub with_email : List ℕ → AuthDb → Option Account
with_email candidates db = find (λ (u : Account). is_any candidates u.email_lookup) db.accounts

abbrev pub is_owner_role : Role → Bool
is_owner_role owner_role = true
is_owner_role _ = false

abbrev pub is_found {ℓ} : {A : Type ℓ} → Option A → Bool
is_found none = false
is_found (some a) = true

abbrev pub same_lookup : Option ℕ → ℕ → Bool
same_lookup none e = false
same_lookup (some x) e = x == e

-- `INSERT INTO users`, which the unique column `email_lookup` refuses for an email that is taken.
unfoldable pub insert_account : Account → PlanPolicy → ℕ → AuthDb → Result AuthDb
insert_account u plan email db =
    if is_found (find (λ (x : Account). same_lookup x.email_lookup email) db.accounts)
    then err (api_error 409 conflict)
    else ok (record db { accounts = u ∷ db.accounts; main = insert_user u plan db.main })

-- The email and the hashed password of a body.
pub record Credentials : Type 0 where
  pub email : ℕ
  pub password_hash : ℕ

abbrev pub new_account : Digests → ℕ → Role → Status → Credentials → Account
new_account d id role status c = record {
  id = id;
  role = role;
  anonymous = false;
  status = status;
  email_lookup = some (d.email_lookup c.email);
  email_verified_at = none;
  password_hash = some c.password_hash;
}

-- `POST /api/auth/setup`: the token is the one whose hash is in the environment.
unfoldable pub setup :
    Digests → ℕ → Result (Unit {0}) → ℕ → ℕ → ℕ → Credentials → Fresh → AuthDb → Result AuthDb
unfolding insert_account
setup d now rate bootstrap_hash token id c fresh db = do
  rate
  throw_if (not (d.hash token == bootstrap_hash)) (api_error 403 request_failed)
  throw_if (is_found (find (λ (u : Account). is_owner_role u.role) db.accounts))
      (api_error 409 request_failed)
  inserted ←
      insert_account (new_account d id owner_role active c) db.pro_plan (d.email_lookup c.email) db
  ok (
      issue_session d now id none fresh
        (record inserted { main = audit (some id) owner_bootstrapped id inserted.main }))

abbrev pub guest_account : ℕ → Account
guest_account id = record {
  id = id;
  role = user_role;
  anonymous = true;
  status = active;
  email_lookup = none;
  email_verified_at = none;
  password_hash = none;
}

abbrev pub is_signed_in : Identity → Bool
is_signed_in req = is_found req.user

-- `POST /api/auth/guest`
unfoldable pub guest :
    Digests → ℕ → Result (Unit {0}) → Identity → ℕ → Fresh → AuthDb → Result AuthDb
guest d now rate req id fresh db = if is_signed_in req then ok db else (do
  throw_if (not db.main.settings.anonymous_enabled) (api_error 403 request_failed)
  rate
  ok (
      issue_session d now id (some 180) fresh (record db {
        accounts = guest_account id ∷ db.accounts;
        main = insert_user (guest_account id) db.free_plan db.main;
      })))

-- `UPDATE users SET email_lookup=…,password_hash=…,anonymous=false,status=… WHERE id=…`
abbrev pub upgrade : Digests → Credentials → Account → Account
upgrade d c u = record u {
  email_lookup = some (d.email_lookup c.email);
  password_hash = some c.password_hash;
  anonymous = false;
  status = pending;
}

abbrev pub upgraded : Digests → Credentials → ℕ → AuthDb → AuthDb
upgraded d c id db = record db {
  accounts = update_where (λ u. u.id == id) (upgrade d c) db.accounts;
  main = update_user id (λ x. record x { anonymous = false; active = false }) db.main;
}

-- The account that a registration writes, by who asks: a guest becomes it, and loses its sessions.
unfoldable pub register_row :
    Digests → Option Account → ℕ → Credentials → AuthDb → Result (ℕ × AuthDb)
unfolding insert_account
register_row d none id c db = do
  inserted ←
      insert_account (new_account d id user_role pending c) db.free_plan (d.email_lookup c.email) db
  ok (id, inserted)
register_row d (some u) id c db =
    let inserted =
      insert_account (new_account d id user_role pending c) db.free_plan (d.email_lookup c.email)
        db in
    if u.anonymous
    then ok (u.id, end_sessions_of u.id (upgraded d c u.id db))
    else (inserted >>= λ after. ok (id, after))

-- `POST /api/auth/register`, up to the mail that it sends.
unfoldable pub register :
    Digests → ℕ → Result (Unit {0}) → Identity → ℕ → Credentials → Fresh → AuthDb → Result AuthDb
unfolding register_row
register d now rate req id c fresh db = do
  rate
  throw_if (not db.settings.registration_enabled) (api_error 403 request_failed)
  throw_if (is_found (with_email (d.email_lookups c.email) db)) (api_error 409 conflict)
  row ← register_row d req.user id c db
  ok (
      issue_session d now row.0 none fresh
        (record row.1 { main = audit (some row.0) account_registered row.0 row.1.main }))

abbrev pub set_email : ℕ → Account → Account
set_email lookup u = record u { email_lookup = some lookup }

-- `u?.password_hash??dummyHash`
abbrev pub stored_hash : ℕ → Option Account → ℕ
stored_hash dummy none = dummy
stored_hash dummy (some u) = elim (u.password_hash) [ none ↦ dummy | some h ↦ h ]

-- `!u||!valid||!['ACTIVE','PENDING'].includes(u.status)`, and the account if none of them holds.
abbrev pub signed_in : Bool → Option Account → Result Account
signed_in valid none = err (api_error 401 request_failed)
signed_in valid (some u) =
    if not valid || not (may_sign_in u.status) then err (api_error 401 request_failed) else ok u

-- `POST /api/auth/login`: the two limits are by address and by email.
unfoldable pub login :
    Digests
    → ℕ
    → Result (Unit {0})
    → Result (Unit {0})
    → ℕ
    → Identity
    → ℕ
    → ℕ
    → Fresh
    → AuthDb
    → Result AuthDb
login d now by_address by_email dummy req email password fresh db = do
  by_address
  by_email
  u ←
      signed_in
        (d.verify_password (stored_hash dummy (with_email (d.email_lookups email) db)) password)
        (with_email (d.email_lookups email) db)
  ok (
      let renewed = issue_session d now u.id none fresh (
        end_if req.session_id (record db {
          accounts =
              update_where (λ (x : Account). x.id == u.id) (set_email (d.email_lookup email))
                db.accounts;
        })) in
      record renewed { main = audit (some u.id) account_login u.id renewed.main })
