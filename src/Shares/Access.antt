-- ===== src/Shares/Access.antt =====
-- apps/api/src/shares.ts: who may open a share (`activeShare`, `authorize`), its sessions
-- (`/api/shares/resolve`, `/unlock`), its downloads, and its update. The rate limits and the password
-- hashing are arguments; a caller without an account has no user.
use astra_file_host.Base.{
  ℕ, suc, ◌+◌, Bool, true, false, ◌&&◌, ◌||◌, not, Option, none, some, ◌∷◌, ◌==◌, ltb, leb,
  if◌then◌else◌, find, update_where, Result, ok, err, ◌>>=◌, ◌>>◌, throw_if, require_value,
  api_error, request_failed, share_expired, share_session, share_password, private_share,
}
use astra_file_host.Database.{
  Db, Share, ShareAccess, User, Visibility, public, private, audit, share_revoked,
}
use astra_file_host.Shares.Capability.{hour_ms, is_unexpired}

-- `s.max_downloads&&s.download_count>=s.max_downloads`
abbrev pub is_exhausted : Option ℕ → ℕ → Bool
is_exhausted none n = false
is_exhausted (some m) n = not (m == 0) && leb m n

abbrev pub is_open : ℕ → Share → Bool
is_open now s =
    s.enabled
    && (is_unexpired now s.expires_at && not (is_exhausted s.max_downloads s.download_count))

-- The row of the share, of an owner who is active.
abbrev pub active_owner : Option User → Result User
active_owner none = err (api_error 404 request_failed)
active_owner (some u) = if u.active then ok u else err (api_error 404 request_failed)

unfoldable pub active_share : ℕ → ℕ → Db → Result Share
active_share now id db = do
  s ← require_value (find (λ (x : Share). x.id == id) db.shares)
  u ← active_owner (db.users s.owner_id)
  throw_if (u.anonymous && not db.settings.anonymous_sharing_enabled) (api_error 403 request_failed)
  throw_if (not (is_open now s)) (api_error 410 share_expired)
  ok s

-- What a request carries: the user of its session and the hash of its cookie for the share.
pub record Visitor : Type 0 where
  pub user : Option ℕ
  pub token_hash : Option ℕ

abbrev pub is_user : Option ℕ → ℕ → Bool
is_user none owner = false
is_user (some u) owner = u == owner

abbrev pub is_private : Visibility → Bool
is_private private = true
is_private public = false

abbrev pub is_set {ℓ} : {A : Type ℓ} → Option A → Bool
is_set none = false
is_set (some a) = true

-- `share_id=$1 AND token_hash=$2 AND version=$3 AND expires_at>now()`
abbrev pub is_session : ℕ → Share → ℕ → ShareAccess → Bool
is_session now s token a =
    a.share_id == s.id
    && (a.token_hash == token && (a.version == s.version && ltb now a.expires_at))

abbrev pub session_of : ℕ → Share → Option ℕ → Db → Result ShareAccess
session_of now s none db = err (api_error 401 share_session)
session_of now s (some token) db = elim (find (is_session now s token) db.share_access) [
  | none ↦ err (api_error 401 share_session)
  | some a ↦ ok a
]

unfoldable pub authorize : ℕ → Visitor → Share → Bool → Db → Result (Unit {0})
authorize now v s unlock db = do
  throw_if (is_private s.visibility && not (is_user v.user s.owner_id))
      (api_error 403 private_share)
  a ← session_of now s v.token_hash db
  throw_if
      (not unlock
        && (is_set s.password_hash && (not a.password_verified && not (is_user v.user s.owner_id))))
      (api_error 401 share_password)

-- `/resolve`, for the share that the secret names: a session of one hour.
unfoldable pub resolve : ℕ → Visitor → ℕ → ℕ → Db → Result Db
resolve now v token id db = do
  s ← active_share now id db
  throw_if (is_private s.visibility && not (is_user v.user s.owner_id))
      (api_error 403 private_share)
  ok (record db {
    share_access =
        record {
          share_id = s.id;
          token_hash = token;
          version = s.version;
          password_verified = not (is_set s.password_hash) || is_user v.user s.owner_id;
          expires_at = now + hour_ms;
        }
        ∷ db.share_access;
  })

-- `/unlock`; `verified` is the answer of argon2.
unfoldable pub unlock : ℕ → Visitor → Bool → ℕ → Db → Result Db
unlock now v verified id db = do
  s ← active_share now id db
  authorize now v s true db
  throw_if (not (is_set s.password_hash) || not verified) (api_error 403 request_failed)
  ok (record db {
    share_access =
        update_where
          (λ (a : ShareAccess).
            a.share_id == s.id && (is_user v.token_hash a.token_hash && a.version == s.version))
          (λ a. record a { password_verified = true }) db.share_access;
  })

-- `DELETE /api/shares/:id`
unfoldable pub revoke : ℕ → ℕ → Db → Result Db
revoke owner id db = do
  s ← require_value (find (λ (x : Share). x.id == id && x.owner_id == owner) db.shares)
  ok (
      audit (some owner) share_revoked id (record db {
        shares =
            update_where (λ (x : Share). x.id == id && x.owner_id == owner)
              (λ x. record x { enabled = false; version = suc x.version }) db.shares;
      }))

-- `GET /api/public/shares/:id`, less the answer.
unfoldable pub view_share : ℕ → Visitor → ℕ → Db → Result Db
view_share now v id db = do
  s ← active_share now id db
  authorize now v s false db
  ok (record db {
    shares =
        update_where (λ (x : Share). x.id == s.id) (λ x. record x { view_count = suc x.view_count })
          db.shares;
  })
