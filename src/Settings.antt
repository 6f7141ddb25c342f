-- ===== src/Settings.antt =====
-- packages/config/index.ts `settingsSchema` (the settings that the modelled handlers read) and
-- apps/api/src/entitlements.ts `planPolicySchema`, `accountOverrideSchema`. Both are parsed when they
-- are read; `admits` below has the bounds that the schema of a plan checks.
use astra_file_host.Base.{
  ℕ, ◌&&◌, Bool, Option, List, leb, Result, ok, err, plain_error, if◌then◌else◌,
}

-- `quotas.GUEST`
pub record GuestQuota : Type 0 where
  pub file_bytes : ℕ
  pub storage_bytes : ℕ
  pub daily_bytes : ℕ
  pub monthly_bytes : ℕ
  pub bandwidth_bytes : ℕ

pub record Settings : Type 0 where
  pub share_passwords_enabled : Bool
  pub anonymous_sharing_enabled : Bool
  pub default_max_downloads : Option ℕ
  pub anonymous_enabled : Bool
  pub maintenance : Bool
  pub read_only : Bool
  pub part_mib : ℕ
  pub concurrency : ℕ
  pub upload_timeout_hours : ℕ
  pub anonymous_retention_days : ℕ
  pub default_share_hours : ℕ
  pub versioning_enabled : Bool
  pub max_version_count : ℕ
  pub max_version_days : ℕ
  pub anonymous_concurrent_uploads : ℕ
  pub incomplete_upload_limit : ℕ
  pub incomplete_reserved_gib : ℕ
  pub failed_upload_threshold : ℕ
  pub upload_cooldown_minutes : ℕ
  pub critical_free_gib : ℕ
  pub minimum_free_gib : ℕ
  pub blocked_extensions : List ℕ
  pub scanning_enabled : Bool
  pub guest : GuestQuota

pub record PlanPolicy : Type 0 where
  pub storage_bytes : ℕ
  pub file_bytes : ℕ
  pub daily_bytes : ℕ
  pub monthly_bytes : ℕ
  pub bandwidth_bytes : ℕ
  pub concurrent_uploads : ℕ
  pub concurrent_downloads : ℕ
  pub share_count : ℕ
  pub max_share_hours : ℕ
  pub version_count : ℕ
  pub version_days : ℕ
  pub api_enabled : Bool

-- `accountOverrideSchema`, the partial policy of one account; an absent field is `none`.
pub record PlanOverride : Type 0 where
  pub storage_bytes : Option ℕ
  pub file_bytes : Option ℕ
  pub daily_bytes : Option ℕ
  pub monthly_bytes : Option ℕ
  pub bandwidth_bytes : Option ℕ
  pub concurrent_uploads : Option ℕ
  pub concurrent_downloads : Option ℕ
  pub share_count : Option ℕ
  pub max_share_hours : Option ℕ
  pub version_count : Option ℕ
  pub version_days : Option ℕ
  pub api_enabled : Option Bool

-- `Number.MAX_SAFE_INTEGER`
abbrev pub max_safe_integer : ℕ
max_safe_integer = 9007199254740991

abbrev pub within : ℕ → ℕ → ℕ → Bool
within lo hi n = leb lo n && leb n hi

-- The checks of `planPolicySchema`.
unfoldable pub admits : PlanPolicy → Bool
admits p =
    within 1 max_safe_integer p.storage_bytes
    && (within 1 max_safe_integer p.file_bytes
        && (within 1 max_safe_integer p.daily_bytes
            && (within 1 max_safe_integer p.monthly_bytes
                && (within 1 max_safe_integer p.bandwidth_bytes
                    && (within 1 100 p.concurrent_uploads
                        && (within 1 100 p.concurrent_downloads
                            && (within 0 100000 p.share_count
                                && (within 1 87600 p.max_share_hours
                                    && (within 0 1000 p.version_count
                                        && within 0 3650 p.version_days)))))))))

-- `planPolicySchema.parse`
unfoldable pub parse_policy : PlanPolicy → Result PlanPolicy
parse_policy p = if admits p then ok p else err plain_error
