-- ===== src/Auth/Email.antt =====
-- apps/api/src/account-security.ts: the links that verify or change an email. The mail itself, which
-- is sent after the transaction, and the notification of a failure are left out.
use astra_file_host.Base.{
  ℕ, ◌+◌, Bool, true, false, ◌&&◌, ◌||◌, not, none, some, ◌∷◌, ◌==◌, ltb, find, update_where,
  if◌then◌else◌, Result, ok, ◌>>=◌, ◌>>◌, throw_if, require_value, api_error, request_failed,
}
use astra_file_host.Database.{audit, AuditAction, email_changed, email_verified}
use astra_file_host.Auth.{
  Account, AuthDb, Digests, Identity, Purpose, verify, change, Status, pending, active,
  Verification,
}
use astra_file_host.Auth.Guards.{require_identity}
use astra_file_host.Auth.Attach.{is_null, account_of}
use astra_file_host.Auth.Users.{update_user}
use astra_file_host.Auth.Accounts.{is_any, is_found, same_lookup}
use astra_file_host.Auth.Sessions.{end_sessions_of}
use astra_file_host.Auth.Recovery.{link_ms, knows_password}

abbrev pub same_purpose : Purpose → Purpose → Bool
same_purpose verify verify = true
same_purpose change change = true
same_purpose _ _ = false

abbrev pub spend : ℕ → Verification → Verification
spend now v = record v { consumed_at = some now }

-- `user_id=$1 AND purpose=$2 AND consumed_at IS NULL`
abbrev pub is_open : ℕ → Purpose → Verification → Bool
is_open user purpose v =
    v.user_id == user && (same_purpose v.purpose purpose && is_null v.consumed_at)

abbrev pub new_verification : Digests → ℕ → ℕ → ℕ → Purpose → ℕ → Verification
new_verification d now user email purpose token = record {
  user_id = user;
  email_lookup = d.email_lookup email;
  token_hash = d.hash token;
  purpose = purpose;
  expires_at = now + link_ms;
  consumed_at = none;
}

-- `sendVerification`, its transaction.
unfoldable pub send_verification : Digests → ℕ → Bool → ℕ → ℕ → Purpose → ℕ → AuthDb → AuthDb
send_verification d now mail user email purpose token db =
    if mail
    then record db {
      email_verifications =
          new_verification d now user email purpose token
          ∷ update_where (is_open user purpose) (spend now) db.email_verifications;
    }
    else db

-- `token_hash=$1 AND consumed_at IS NULL AND expires_at>now()`
abbrev pub is_usable_link : ℕ → ℕ → Verification → Bool
is_usable_link now digest v =
    v.token_hash == digest && (is_null v.consumed_at && ltb now v.expires_at)

abbrev pub is_verify : Purpose → Bool
is_verify verify = true
is_verify change = false

abbrev pub is_pending : Status → Bool
is_pending pending = true
is_pending _ = false

-- `email_lookup=$1 AND id<>$2`
abbrev pub holds_email : ℕ → ℕ → Account → Bool
holds_email lookup user x = same_lookup x.email_lookup lookup && not (x.id == user)

abbrev pub activates : AuthDb → Verification → Account → Bool
activates db v u =
    is_verify v.purpose && (is_pending u.status && not db.settings.require_manual_activation)

-- `UPDATE users SET email_lookup=…,email_verified_at=now(),status=CASE …`
abbrev pub confirm_email : ℕ → ℕ → Bool → Account → Account
confirm_email now lookup activating u = record u {
  email_lookup = some lookup;
  email_verified_at = some now;
  status = if activating then active else u.status;
}

abbrev pub email_action : Purpose → AuditAction
email_action change = email_changed
email_action verify = email_verified

abbrev pub confirmed : ℕ → ℕ → Verification → Account → AuthDb → AuthDb
confirmed now digest v u db = record db {
  email_verifications = update_where (is_usable_link now digest) (spend now) db.email_verifications;
  accounts =
      update_where (λ x. x.id == u.id) (confirm_email now v.email_lookup (activates db v u))
        db.accounts;
  main =
      audit (some u.id) (email_action v.purpose) u.id
        (update_user u.id (λ x. record x { active = x.active || activates db v u }) db.main);
}

-- `POST /api/auth/verify`
unfoldable pub verify_email : Digests → ℕ → Result (Unit {0}) → ℕ → AuthDb → Result AuthDb
verify_email d now rate token db = do
  rate
  v ← require_value (find (is_usable_link now (d.hash token)) db.email_verifications)
  u ← require_value (account_of v.user_id db)
  throw_if (is_verify v.purpose && not (same_lookup u.email_lookup v.email_lookup))
      (api_error 409 request_failed)
  throw_if (is_found (find (holds_email v.email_lookup u.id) db.accounts))
      (api_error 409 request_failed)
  ok (
      let after = confirmed now (d.hash token) v u db in
      if is_verify v.purpose then after else end_sessions_of u.id after)

-- `POST /api/auth/email`: `mail` says whether mail is configured.
unfoldable pub request_email :
    Digests → ℕ → Result (Unit {0}) → Bool → Identity → ℕ → ℕ → Purpose → ℕ → AuthDb → Result AuthDb
unfolding send_verification
request_email d now rate mail req email password purpose token db = do
  u ← require_identity req
  rate
  stored ← require_value (account_of u.id db)
  throw_if (not (knows_password d password stored.password_hash)) (api_error 403 request_failed)
  throw_if (is_verify purpose && not (is_any (d.email_lookups email) stored.email_lookup))
      (api_error 400 request_failed)
  throw_if (not mail) (api_error 503 request_failed)
  throw_if
      (is_found (
        find (λ (x : Account). is_any (d.email_lookups email) x.email_lookup && not (x.id == u.id))
          db.accounts))
      (api_error 409 request_failed)
  ok (send_verification d now mail u.id email purpose token db)
