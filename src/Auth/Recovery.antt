-- ===== src/Auth/Recovery.antt =====
-- apps/api/src/auth.ts: the reset and the change of a password. Tokens are drawn by the caller, the
-- hash of a new password is an argument, and mail that fails to leave changes nothing here.
use astra_file_host.Base.{
  ℕ, ◌+◌, Bool, false, ◌&&◌, not, Option, none, some, ◌∷◌, ◌==◌, ltb, find, update_where,
  if◌then◌else◌, Result, ok, err, ◌>>=◌, ◌>>◌, throw_if, require_value, api_error, request_failed,
}
use astra_file_host.Database.{audit, password_was_reset, password_changed}
use astra_file_host.Auth.{Account, AuthDb, Digests, Identity, Reset}
use astra_file_host.Auth.Guards.{require_identity}
use astra_file_host.Auth.Attach.{is_null, account_of}
use astra_file_host.Auth.Accounts.{is_any}
use astra_file_host.Auth.Sessions.{end_sessions_of, end_other_sessions}

-- `interval '30 minutes'`
abbrev pub link_ms : ℕ
link_ms = 1800000

abbrev pub new_reset : ℕ → ℕ → ℕ → Reset
new_reset now user digest = record {
  user_id = user;
  token_hash = digest;
  expires_at = now + link_ms;
  consumed_at = none;
}

abbrev pub forgotten : ℕ → ℕ → Bool → Option Account → AuthDb → AuthDb
forgotten now digest mail none db = db
forgotten now digest mail (some u) db =
    if mail
    then record db { password_resets = new_reset now u.id digest ∷ db.password_resets }
    else db

-- `POST /api/auth/forgot`: `mail` says whether mail is configured.
unfoldable pub forgot : Digests → ℕ → Result (Unit {0}) → Bool → ℕ → ℕ → AuthDb → Result AuthDb
forgot d now rate mail email token db = do
  rate
  ok (
      forgotten now (d.hash token) mail
        (find (λ (u : Account). is_any (d.email_lookups email) u.email_lookup && not u.anonymous)
          db.accounts)
        db)

-- `token_hash=$1 AND expires_at>now() AND consumed_at IS NULL`
abbrev pub is_usable : ℕ → ℕ → Reset → Bool
is_usable now digest r = r.token_hash == digest && (ltb now r.expires_at && is_null r.consumed_at)

abbrev pub consume : ℕ → Reset → Reset
consume now r = record r { consumed_at = some now }

abbrev pub set_password : ℕ → Account → Account
set_password hashed u = record u { password_hash = some hashed }

abbrev pub change_password : ℕ → ℕ → AuthDb → AuthDb
change_password user hashed db = record db {
  accounts = update_where (λ u. u.id == user) (set_password hashed) db.accounts;
}

abbrev pub usable_reset : ℕ → ℕ → AuthDb → Result Reset
usable_reset now digest db = elim (find (is_usable now digest) db.password_resets) [
  | none ↦ err (api_error 400 request_failed)
  | some r ↦ ok r
]

-- `POST /api/auth/reset`
unfoldable pub reset : Digests → ℕ → Result (Unit {0}) → ℕ → ℕ → AuthDb → Result AuthDb
reset d now rate token hashed db = do
  rate
  r ← usable_reset now (d.hash token) db
  ok
      (record (end_sessions_of r.user_id (
        change_password r.user_id hashed (record db {
          password_resets =
              update_where (is_usable now (d.hash token)) (consume now) db.password_resets;
        }))) { main = audit (some r.user_id) password_was_reset r.user_id db.main })

-- `!row.password_hash||!await argon2.verify(…)`, negated.
abbrev pub knows_password : Digests → ℕ → Option ℕ → Bool
knows_password d current none = false
knows_password d current (some h) = d.verify_password h current

-- `POST /api/auth/password`
unfoldable pub password : Digests → Identity → ℕ → ℕ → AuthDb → Result AuthDb
password d req current hashed db = do
  u ← require_identity req
  row ← require_value (account_of u.id db)
  throw_if (not (knows_password d current row.password_hash)) (api_error 403 request_failed)
  ok (record (end_other_sessions u.id req.session_id (change_password u.id hashed db)) {
    main = audit (some u.id) password_changed u.id db.main;
  })
