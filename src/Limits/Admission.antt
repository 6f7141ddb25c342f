-- ===== src/Limits/Admission.antt =====
-- What an upload or a download that is admitted leaves of the quotas.
use astra_file_host.Base.{
  ℕ, ◌+◌, ◌*◌, ◌≤◌, ◌<◌, ◌≡◌, min, arith, ok, Result-cases, inl, inr, Option-cases, some, ◌↔◌,
}
use astra_file_host.Settings.{PlanPolicy}
use astra_file_host.Database.{Db, User, used_bytes, reserved_bytes, incomplete_uploads}
use astra_file_host.Entitlements.{effective}
use astra_file_host.Limits.{
  gib, Surroundings, free_floor, reserved_total, uploaded_since, reserve_within, reserve, bandwidth,
  active_grants, authorized_since,
}

-- The room that every limit of an upload of the given size still has.
pub record HasRoom (at : Surroundings) (owner size : ℕ) (db : Db) (quota : PlanPolicy)
    : Type 0 where
  pub concurrent :
      incomplete_uploads db owner < min quota.concurrent_uploads db.settings.incomplete_upload_limit
  pub incomplete : reserved_bytes db owner + size ≤ db.settings.incomplete_reserved_gib * gib
  pub single : size ≤ quota.file_bytes
  pub stored : used_bytes db owner + reserved_bytes db owner + size ≤ quota.storage_bytes
  pub daily : uploaded_since db owner at.day_start + size ≤ quota.daily_bytes
  pub monthly : uploaded_since db owner at.month_start + size ≤ quota.monthly_bytes

reserve_within-HasRoom :
    (at : Surroundings) (owner size : ℕ) (db : Db) (quota : PlanPolicy)
    → reserve_within at owner size db quota ≡ ok tt
    → HasRoom at owner size db quota
unfolding reserve_within
reserve_within-HasRoom at owner size db quota h = record {
  concurrent = ground arith;
  incomplete = ground arith;
  single = ground arith;
  stored = ground arith;
  daily = ground arith;
  monthly = ground arith;
}

HasRoom-reserve_within :
    (at : Surroundings) (owner size : ℕ) (db : Db) (quota : PlanPolicy)
    → HasRoom at owner size db quota
    → reserve_within at owner size db quota ≡ ok tt
unfolding reserve_within
HasRoom-reserve_within at owner size db quota h = ground arith

effective-user :
    (owner : ℕ) (db : Db) {quota : PlanPolicy}
    → effective owner db ≡ ok quota
    → (u : User) × (db.users owner ≡ some u)
unfolding effective
effective-user owner db h = elim (Option-cases (db.users owner)) [
  | inl missing ↦ absurd (ground arith)
  | inr found ↦ found
]

-- `reserve` admits an upload exactly if the disk keeps its floor of free space after all reservations
-- and this upload, the account has a valid policy, and every limit of the policy and of the settings
-- still has room for it: the number and the bytes of incomplete uploads, the single file, the stored
-- and reserved bytes together, and the bytes of the day and of the month.
pub reserve_iff :
    (at : Surroundings) (owner size : ℕ) (db : Db)
    → (reserve at owner size db ≡ ok tt) ↔ (
        (reserved_total db + size + free_floor db.settings ≤ at.free_bytes)
        × ((quota : PlanPolicy) × (effective owner db ≡ ok quota) × HasRoom at owner size db quota))
unfolding reserve
reserve_iff at owner size db = (
  λ h. elim (Result-cases (effective owner db)) [
    | inr (e, q) ↦ absurd (ground (arith, Option-cases (db.users owner)))
    | inl (quota, q) ↦ (
      ground arith,
      (
        quota,
        q,
        reserve_within-HasRoom at owner size db quota (ground (arith, effective-user owner db q)),
      ),
    )
  ],
  λ (disk, (quota, q, room)).
      let (u, found) = effective-user owner db q in
      ground (arith, HasRoom-reserve_within at owner size db quota room),
)

-- `bandwidth` lets a download pass exactly if the owner of the file has a valid policy, the number of
-- grants of the last 15 minutes is below its limit, and the bytes granted this month with this file's
-- stay within its bandwidth.
pub bandwidth_iff :
    (at : Surroundings) (owner size : ℕ) (db : Db)
    → (bandwidth at owner size db ≡ ok tt) ↔ (
        (quota : PlanPolicy) × (effective owner db ≡ ok quota)
        × (active_grants db owner at.now < quota.concurrent_downloads)
        × (authorized_since db owner at.month_start + size ≤ quota.bandwidth_bytes))
unfolding bandwidth
bandwidth_iff at owner size db = (
  λ h. elim (Result-cases (effective owner db)) [
    | inr (e, q) ↦ absurd (ground (arith, Option-cases (db.users owner)))
    | inl (quota, q) ↦
        let (u, found) = effective-user owner db q in (quota, q, ground arith, ground arith)
  ],
  λ (quota, q, few, within_month). let (u, found) = effective-user owner db q in ground arith,
)
