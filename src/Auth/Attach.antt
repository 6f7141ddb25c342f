-- ===== src/Auth/Attach.antt =====
-- apps/api/src/auth.ts `attachAuth`: the hook that finds out who makes a request, by its API key or by
-- its session.
use astra_file_host.Base.{
  ℕ, ◌+◌, Bool, true, false, ◌&&◌, ◌||◌, not, Option, none, some, List, [], ◌∷◌, ◌==◌, ltb, find,
  update_where, if◌then◌else◌, Result, ok, err, ◌>>=◌, ◌>>◌, throw_if, api_error, request_failed,
  plan_api,
}
use astra_file_host.Entitlements.{effective}
use astra_file_host.Auth.{
  Account, Session, Scope, files_read, files_write, uploads_write, shares_write, ApiKey, AuthDb,
  Digests, Token, Area, uploads_area, shares_area, folders_area, files_area, other_area, Request,
  Identity, nobody,
}
use astra_file_host.Auth.Guards.{is_active, may_sign_in}

-- `(k.expires_at IS NULL OR k.expires_at>now())`
abbrev pub is_unexpired : ℕ → Option ℕ → Bool
is_unexpired now none = true
is_unexpired now (some t) = ltb now t

abbrev pub is_null : Option ℕ → Bool
is_null none = true
is_null (some t) = false

abbrev pub is_usable_key : ℕ → ℕ → ApiKey → Bool
is_usable_key now digest k =
    k.token_hash == digest && (is_null k.revoked_at && is_unexpired now k.expires_at)

abbrev pub account_of : ℕ → AuthDb → Option Account
account_of id db = find (λ (u : Account). u.id == id) db.accounts

-- The scope that a route needs, if keys may call it at all.
abbrev pub needed_scope : Area → Bool → Option Scope
needed_scope uploads_area is_get = some uploads_write
needed_scope shares_area is_get = some shares_write
needed_scope folders_area is_get = some files_write
needed_scope files_area true = some files_read
needed_scope files_area false = some files_write
needed_scope other_area is_get = none

abbrev pub same_scope : Scope → Scope → Bool
same_scope files_read files_read = true
same_scope files_write files_write = true
same_scope uploads_write uploads_write = true
same_scope shares_write shares_write = true
same_scope _ _ = false

abbrev pub has_scope : List Scope → Scope → Bool
has_scope [] s = false
has_scope (x ∷ xs) s = same_scope x s || has_scope xs s

abbrev pub covers : List Scope → Option Scope → Bool
covers scopes none = false
covers scopes (some s) = has_scope scopes s

abbrev pub set_key_used : ℕ → ApiKey → ApiKey
set_key_used now k = record k { last_used_at = some now }

-- `k` joined to its owner; `!k||k.status!=='ACTIVE'`.
abbrev pub key_owner : ℕ → ℕ → AuthDb → Option (ApiKey × Account)
key_owner now digest db = elim (find (is_usable_key now digest) db.api_keys) [
  | none ↦ none
  | some k ↦ elim (account_of k.owner_id db) [ none ↦ none | some u ↦ some (k, u) ]
]

abbrev pub active_owner : Option (ApiKey × Account) → Result (ApiKey × Account)
active_owner none = err (api_error 401 request_failed)
active_owner (some (k, u)) =
    if is_active u.status then ok (k, u) else err (api_error 401 request_failed)

abbrev pub key_identity : ApiKey → Account → Identity
key_identity k u = record { user = some u; session_id = none; api_scopes = some k.scopes }

abbrev pub use_key : ℕ → ApiKey → AuthDb → AuthDb
use_key now key db = record db {
  api_keys = update_where (λ k. k.id == key.id) (set_key_used now) db.api_keys;
}

-- From the plan of the owner on.
unfoldable pub admit_key : ℕ → Request → AuthDb → ApiKey → Account → Result (Identity × AuthDb)
admit_key now req db key u = do
  policy ← effective u.id db.main
  throw_if (not policy.api_enabled) (api_error 403 plan_api)
  throw_if (not (covers key.scopes (needed_scope req.area req.is_get)))
      (api_error 403 request_failed)
  ok (key_identity key u, use_key now key db)

-- The part of the hook for `Authorization: Bearer`.
unfoldable pub attach_key : Digests → ℕ → Request → Token → AuthDb → Result (Identity × AuthDb)
unfolding admit_key
attach_key d now req bearer db = do
  throw_if (ltb 256 bearer.length) (api_error 401 request_failed)
  found ← active_owner (key_owner now (d.hash bearer.value) db)
  admit_key now req db found.0 found.1

abbrev pub is_live_session : ℕ → ℕ → Session → Bool
is_live_session now digest s = s.token_hash == digest && ltb now s.expires_at

-- `SET last_seen_at=now() WHERE last_seen_at<now()-interval '1 minute'`
abbrev pub see_session : ℕ → Session → Session
see_session now s = if ltb (s.last_seen_at + 60000) now then record s { last_seen_at = now } else s

abbrev pub session_identity : Session → Account → Identity
session_identity s u = record { user = some u; session_id = some s.id; api_scopes = none }

abbrev pub attach_session : ℕ → Option Session → AuthDb → Result (Identity × AuthDb)
attach_session now none db = ok (nobody, db)
attach_session now (some s) db = elim (account_of s.user_id db) [
  | none ↦ ok (nobody, db)
  | some u ↦
      if may_sign_in u.status
      then ok (
        session_identity s u,
        record db { sessions = update_where (λ x. x.id == s.id) (see_session now) db.sessions },
      )
      else err (api_error 403 request_failed)
]

-- The part for the cookie `astra_session`.
abbrev pub attach_cookie : Digests → ℕ → Option Token → AuthDb → Result (Identity × AuthDb)
attach_cookie d now none db = ok (nobody, db)
attach_cookie d now (some token) db =
    if ltb 256 token.length
    then ok (nobody, db)
    else attach_session now (find (is_live_session now (d.hash token.value)) db.sessions) db

-- The hook `onRequest` of `attachAuth`.
unfoldable pub attach_auth : Digests → ℕ → Request → AuthDb → Result (Identity × AuthDb)
unfolding attach_key
attach_auth d now req db = elim (req.bearer) [
  | some bearer ↦ attach_key d now req bearer db
  | none ↦ attach_cookie d now req.cookie db
]
