-- ===== src/Limits.antt =====
-- apps/api/src/lib.ts: admission. `writable`, `reserve` (the quota of uploads) and `bandwidth` (the
-- quota of downloads). The free space of the disk and the starts of the day and of the month are
-- arguments; the settings in GiB are taken as whole numbers.
pub mod Rate
pub mod Admission
use astra_file_host.Base.{
  ℕ, ◌+◌, ◌*◌, ◌^◌, Bool, true, false, ◌&&◌, ◌||◌, not, List, Option, some, none, ◌==◌, ltb, leb,
  max, min, if◌then◌else◌, sum_where, count_where, Result, ok, err, api_error, ◌>>=◌, ◌>>◌,
  throw_if, require_value, read_only, low_disk, upload_concurrency, reservation_limit, file_quota,
  storage_quota, upload_quota, download_concurrency, bandwidth_quota,
}
use astra_file_host.Settings.{Settings, PlanPolicy}
use astra_file_host.Database.{
  Db, Upload, UploadState, aborted, Download, is_incomplete, is_initialised, used_bytes,
  reserved_bytes, incomplete_uploads,
}
use astra_file_host.Entitlements.{effective}

abbrev pub gib : ℕ
gib = 1073741824

-- What a request reads of its surroundings.
pub record Surroundings : Type 0 where
  pub now : ℕ
  pub day_start : ℕ
  pub month_start : ℕ
  pub free_bytes : ℕ

unfoldable pub writable : Db → Result Settings
writable db = do
  throw_if (db.settings.maintenance || db.settings.read_only) (api_error 503 read_only)
  ok db.settings

-- `Math.max(s.minimumFreeGiB,s.criticalFreeGiB)*GiB`
abbrev pub free_floor : Settings → ℕ
free_floor s = max s.minimum_free_gib s.critical_free_gib * gib

-- The bytes that incomplete uploads of all accounts have reserved.
unfoldable pub reserved_total : Db → ℕ
reserved_total db =
    sum_where (λ u. is_incomplete u.state && is_initialised u.error_code) (λ u. u.size) db.uploads

-- `state NOT IN ('ABORTED','EXPIRED')`
abbrev pub is_kept : UploadState → Bool
is_kept aborted = false
is_kept UploadState.expired = false
is_kept _ = true

abbrev pub is_upload_since : ℕ → ℕ → Upload → Bool
is_upload_since owner since u =
    u.owner_id == owner
    && (is_kept u.state && (is_initialised u.error_code && leb since u.created_at))

unfoldable pub uploaded_since : Db → ℕ → ℕ → ℕ
uploaded_since db owner since = sum_where (is_upload_since owner since) (λ u. u.size) db.uploads

-- The checks of `reserve` once the policy of the account is known.
unfoldable pub reserve_within : Surroundings → ℕ → ℕ → Db → PlanPolicy → Result (Unit {0})
unfolding reserved_total uploaded_since
reserve_within at owner size db quota = do
  throw_if
      (leb (min quota.concurrent_uploads db.settings.incomplete_upload_limit)
        (incomplete_uploads db owner))
      (api_error 429 upload_concurrency)
  throw_if (ltb (db.settings.incomplete_reserved_gib * gib) (reserved_bytes db owner + size))
      (api_error 413 reservation_limit)
  throw_if (ltb quota.file_bytes size) (api_error 413 file_quota)
  throw_if (ltb quota.storage_bytes (used_bytes db owner + reserved_bytes db owner + size))
      (api_error 413 storage_quota)
  throw_if
      (ltb quota.daily_bytes (uploaded_since db owner at.day_start + size)
        || ltb quota.monthly_bytes (uploaded_since db owner at.month_start + size))
      (api_error 429 upload_quota)

unfoldable pub reserve : Surroundings → ℕ → ℕ → Db → Result (Unit {0})
unfolding reserve_within
reserve at owner size db = do
  throw_if (ltb at.free_bytes (reserved_total db + size + free_floor db.settings))
      (api_error 507 low_disk)
  u ← require_value (db.users owner)
  quota ← effective owner db
  reserve_within at owner size db quota

-- `interval '15 minutes'`
abbrev pub grant_ms : ℕ
grant_ms = 900000

abbrev pub is_active_grant : ℕ → ℕ → Download → Bool
is_active_grant owner now d = d.owner_id == owner && ltb now (d.created_at + grant_ms)

abbrev pub is_download_since : ℕ → ℕ → Download → Bool
is_download_since owner since d = d.owner_id == owner && leb since d.created_at

unfoldable pub active_grants : Db → ℕ → ℕ → ℕ
active_grants db owner now = count_where (is_active_grant owner now) db.downloads

unfoldable pub authorized_since : Db → ℕ → ℕ → ℕ
authorized_since db owner since =
    sum_where (is_download_since owner since) (λ d. d.bytes_authorized) db.downloads

unfoldable pub bandwidth : Surroundings → ℕ → ℕ → Db → Result (Unit {0})
bandwidth at owner size db = do
  u ← require_value (db.users owner)
  quota ← effective owner db
  throw_if (leb quota.concurrent_downloads (active_grants db owner at.now))
      (api_error 429 download_concurrency)
  throw_if (ltb quota.bandwidth_bytes (authorized_since db owner at.month_start + size))
      (api_error 429 bandwidth_quota)
