-- ===== src/Shares/Capability.antt =====
-- apps/api/src/share-capability.ts: the allowance of active shares and the creation of a share. The
-- clock, the fresh identifier and the digest of the fresh secret are arguments.
use astra_file_host.Base.{
  ℕ, ◌+◌, ◌*◌, Bool, true, ◌&&◌, not, Option, none, some, ◌∷◌, ◌==◌, ltb, min, count_where, Result,
  ok, api_error, share_quota, ◌>>=◌, ◌>>◌, throw_if,
}
use astra_file_host.Settings.{PlanPolicy}
use astra_file_host.Database.{Share, Visibility, Db}
use astra_file_host.Entitlements.{effective}

abbrev pub hour_ms : ℕ
hour_ms = 3600000

-- What a request supplies from outside of the program: the time, and fresh random values.
pub record Fresh : Type 0 where
  pub now : ℕ
  pub id : ℕ
  pub secret : ℕ
  pub digest : ℕ

-- `enabled AND (expires_at IS NULL OR expires_at>now())`
abbrev pub is_unexpired : ℕ → Option ℕ → Bool
is_unexpired now none = true
is_unexpired now (some t) = ltb now t

abbrev pub counts : ℕ → ℕ → Share → Bool
counts now owner s = s.owner_id == owner && (s.enabled && is_unexpired now s.expires_at)

unfoldable pub active_shares : ℕ → Db → ℕ → ℕ
active_shares now db owner = count_where (counts now owner) db.shares

pub record Allowance : Type 0 where
  pub policy : PlanPolicy
  pub available : Bool

unfoldable pub share_allowance : ℕ → ℕ → Db → Result Allowance
unfolding active_shares
share_allowance now owner db = do
  policy ← effective owner db
  ok (record { policy = policy; available = ltb (active_shares now db owner) policy.share_count })

-- The `options` of `createShareCapability`.
pub record ShareOptions : Type 0 where
  pub visibility : Visibility
  pub password_hash : Option ℕ
  pub expires_at : Option ℕ
  pub max_downloads : Option ℕ

abbrev pub capped : Option ℕ → ℕ → ℕ
capped none ceiling = ceiling
capped (some t) ceiling = min t ceiling

abbrev pub new_share : Fresh → ℕ → PlanPolicy → ShareOptions → Share
new_share fresh owner policy options = record {
  id = fresh.id;
  owner_id = owner;
  capability_digest = fresh.digest;
  visibility = options.visibility;
  password_hash = options.password_hash;
  enabled = true;
  expires_at = some (capped options.expires_at (fresh.now + policy.max_share_hours * hour_ms));
  max_downloads = options.max_downloads;
  download_count = 0;
  view_count = 0;
  version = 1;
}

-- The row that `createShareCapability` inserts, or its refusal.
unfoldable pub create_share_row : Fresh → ℕ → ShareOptions → Db → Result Share
unfolding share_allowance
create_share_row fresh owner options db = do
  allowance ← share_allowance fresh.now owner db
  throw_if (not allowance.available) (api_error 403 share_quota)
  ok (new_share fresh owner allowance.policy options)

abbrev pub insert_share : Share → Db → Db
insert_share s db = record db { shares = s ∷ db.shares }
