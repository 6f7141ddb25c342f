-- ===== src/Auth/Keys.antt =====
-- apps/api/src/keys.ts: the API keys of a user. The name of a key and the part of it that is shown,
-- which no check reads, are left out. The log of a new key names nothing, which is 0 here.
use astra_file_host.Base.{
  ℕ, ◌&&◌, not, Option, none, some, List, ◌∷◌, ◌==◌, update_where, Result, ok, ◌>>=◌, ◌>>◌,
  throw_if, api_error, request_failed, plan_api,
}
use astra_file_host.Database.{audit, api_key_created, api_key_revoked}
use astra_file_host.Entitlements.{effective}
use astra_file_host.Auth.{AuthDb, ApiKey, Digests, Identity, Scope}
use astra_file_host.Auth.Guards.{require_user}

abbrev pub new_key : Digests → ℕ → ℕ → ℕ → List Scope → Option ℕ → ApiKey
new_key d id user token scopes expires_at = record {
  id = id;
  owner_id = user;
  token_hash = d.hash token;
  scopes = scopes;
  expires_at = expires_at;
  revoked_at = none;
  last_used_at = none;
}

-- `POST /api/keys`
unfoldable pub create_key :
    Digests → Identity → ℕ → ℕ → List Scope → Option ℕ → AuthDb → Result AuthDb
create_key d req id token scopes expires_at db = do
  u ← require_user req
  throw_if u.anonymous (api_error 403 request_failed)
  policy ← effective u.id db.main
  throw_if (not policy.api_enabled) (api_error 403 plan_api)
  ok (record db {
    api_keys = new_key d id u.id token scopes expires_at ∷ db.api_keys;
    main = audit (some u.id) api_key_created 0 db.main;
  })

abbrev pub revoke : ℕ → ApiKey → ApiKey
revoke now k = record k { revoked_at = some now }

-- `DELETE /api/keys/:id`
unfoldable pub revoke_key : ℕ → Identity → ℕ → AuthDb → Result AuthDb
revoke_key now req id db = do
  u ← require_user req
  ok (record db {
    api_keys = update_where (λ k. k.id == id && k.owner_id == u.id) (revoke now) db.api_keys;
    main = audit (some u.id) api_key_revoked id db.main;
  })
