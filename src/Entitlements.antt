-- ===== src/Entitlements.antt =====
-- apps/api/src/entitlements.ts `entitlements`: the policy in force for an account.
use astra_file_host.Base.{
  ℕ, false, Option, none, some, Result, ◌>>=◌, require_value, max, ◌==◌, if◌then◌else◌,
}
use astra_file_host.Settings.{Settings, PlanPolicy, PlanOverride, parse_policy}
use astra_file_host.Database.{User, Db}

-- `a ?? b` on an optional field, the effect of spreading an override over a plan.
abbrev pub or_else {ℓ} : {A : Type ℓ} → Option A → A → A
or_else none b = b
or_else (some a) b = a

-- `s.defaultShareHours||168`
abbrev share_hours : ℕ → ℕ
share_hours h = if h == 0 then 168 else h

unfoldable pub guest_policy : Settings → PlanPolicy
guest_policy s = record {
  storage_bytes = s.guest.storage_bytes;
  file_bytes = s.guest.file_bytes;
  daily_bytes = s.guest.daily_bytes;
  monthly_bytes = s.guest.monthly_bytes;
  bandwidth_bytes = s.guest.bandwidth_bytes;
  concurrent_uploads = s.anonymous_concurrent_uploads;
  concurrent_downloads = 4;
  share_count = 20;
  max_share_hours = max 1 (share_hours s.default_share_hours);
  version_count = 0;
  version_days = 0;
  api_enabled = false;
}

-- `{...plan,...u.quota}`
unfoldable pub override : PlanPolicy → PlanOverride → PlanPolicy
override p q = record {
  storage_bytes = or_else q.storage_bytes p.storage_bytes;
  file_bytes = or_else q.file_bytes p.file_bytes;
  daily_bytes = or_else q.daily_bytes p.daily_bytes;
  monthly_bytes = or_else q.monthly_bytes p.monthly_bytes;
  bandwidth_bytes = or_else q.bandwidth_bytes p.bandwidth_bytes;
  concurrent_uploads = or_else q.concurrent_uploads p.concurrent_uploads;
  concurrent_downloads = or_else q.concurrent_downloads p.concurrent_downloads;
  share_count = or_else q.share_count p.share_count;
  max_share_hours = or_else q.max_share_hours p.max_share_hours;
  version_count = or_else q.version_count p.version_count;
  version_days = or_else q.version_days p.version_days;
  api_enabled = or_else q.api_enabled p.api_enabled;
}

unfoldable pub base_policy : Settings → User → PlanPolicy
unfolding guest_policy
base_policy s u = if u.anonymous then guest_policy s else u.plan

-- `(await entitlements(ownerId,db)).effective`
unfoldable pub effective : ℕ → Db → Result PlanPolicy
effective owner db = do
  u ← require_value (db.users owner)
  plan ← parse_policy (base_policy db.settings u)
  parse_policy (override plan u.quota)
