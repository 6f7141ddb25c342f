-- ===== src/Cloud/Retention.antt =====
-- The retention of versions and the quota of a replacement.
use astra_file_host.Base.{
  ℕ, ◌+◌, ◌-◌, ◌≤◌, ◌≡◌, refl, Bool, false, ◌&&◌, some, List, [], ◌∷◌, ◌==◌, ltb, arith,
  if◌then◌else◌, find, count_where, ok, Result-cases, Option-cases, Bool-cases, inl, inr, ◌⊎◌, ◌>>◌,
  throw_if, api_error, storage_quota,
}
use astra_file_host.Settings.{PlanPolicy}
use astra_file_host.Database.{
  Db, FileRow, Version, AuditAction, audit, file_version_restored, file_version_replaced,
  expected_size, used_bytes, reserved_bytes,
}
use astra_file_host.Entitlements.{effective}
use astra_file_host.Limits.{writable}
use astra_file_host.Cloud.{
  is_old, kept_versions, prune_versions, Source, restorable, other_file, exchange, settle_exchange,
  replace,
}

-- Of the versions of a file at most the given number stays, none that stays is too old, and the
-- versions of other files all stay.
pub kept_versions_bound :
    (now file days count other : ℕ) (vs : List Version)
    → (other == file) ≡ false
    → (count_where (λ (v : Version). v.file_id == file) (kept_versions now file days count vs)
        ≤ count)
      × (count_where
            (λ (v : Version). v.file_id == file && is_old now days v)
            (kept_versions now file days count vs)
          ≡ 0)
      × (count_where (λ (v : Version). v.file_id == other) (kept_versions now file days count vs)
          ≡ count_where (λ (v : Version). v.file_id == other) vs)
unfolding kept_versions
kept_versions_bound now file days count other [] ne = (omega arith, refl, refl)
kept_versions_bound now file days count other (v ∷ vs) ne =
    let (a, b, c) = kept_versions_bound now file days count other vs ne in
    let (d, e, f) = kept_versions_bound now file days (count - 1) other vs ne in
    (ground (arith, a, d), ground (arith, b, e), ground (arith, c, f))

-- The check of the quota, on the database that the log has been added to.
settled :
    (user limit target : ℕ) (action : AuditAction) (pruned db' : Db)
    → (throw_if
          (ltb limit (used_bytes pruned user + reserved_bytes pruned user))
          (api_error 413 storage_quota)
        >> ok (audit (some user) action target pruned))
      ≡ ok db'
    → used_bytes db' user + reserved_bytes db' user ≤ limit
unfolding used_bytes reserved_bytes expected_size
settled user limit target action pruned db' h = ground arith

settle_exchange-quota :
    (now version_id user : ℕ) (restoring : Bool) (target : FileRow) (source : Source)
    (policy : PlanPolicy) (db db' : Db)
    → settle_exchange now version_id user restoring target source policy db ≡ ok db'
    → used_bytes db' user + reserved_bytes db' user ≤ policy.storage_bytes
unfolding settle_exchange
settle_exchange-quota now version_id user restoring target source policy db db' h =
    elim (Result-cases (prune_versions now target.id (exchange now version_id target source db))) [
      | inr (e, q) ↦ absurd (ground arith)
      | inl (pruned, q) ↦
          settled user policy.storage_bytes target.id
            (if restoring then file_version_restored else file_version_replaced) pruned db'
            (ground arith)
    ]

-- If a file is replaced or restored, the caller had seen its current revision; and nothing has changed,
-- as the object is the same, or the used and reserved bytes of the account, with all versions, are within
-- its storage quota.
pub replace-quota :
    (now version_id user id expected source_id : ℕ) (restoring : Bool) (db db' : Db)
    → replace now version_id user id expected source_id restoring db ≡ ok db'
    → ((target : FileRow) × (find (λ (x : FileRow). x.id == id && x.owner_id == user) db.files
          ≡ some target)
        × (target.revision ≡ expected))
      × ((db' ≡ db)
          ⊎ ((policy : PlanPolicy) × (effective user db ≡ ok policy)
              × (used_bytes db' user + reserved_bytes db' user ≤ policy.storage_bytes)))
unfolding replace
replace-quota now version_id user id expected source_id restoring db db' h =
    elim (Result-cases (writable db)) [
      | inr (e, q) ↦ absurd (ground arith)
      | inl (s, q) ↦
          elim (Option-cases (find (λ (x : FileRow). x.id == id && x.owner_id == user) db.files)) [
            | inl missing ↦ absurd (ground arith)
            | inr (target, found) ↦ elim (Result-cases (effective user db)) [
              | inr (e, k) ↦ absurd (ground arith)
              | inl (policy, k) ↦
                  elim (Result-cases (
                    if restoring
                    then restorable source_id id db
                    else other_file now user source_id db)) [
                      | inr (e, m) ↦ absurd (ground arith)
                      | inl (source, m) ↦ (
                        (target, found, ground arith),
                        elim (Bool-cases (source.object_id == target.object_id)) [
                          | inl same ↦ inl (ground arith)
                          | inr other ↦ inr (
                            policy,
                            k,
                            settle_exchange-quota now version_id user restoring target source policy
                                db db' (ground arith),
                          )
                        ],
                      )
                    ]
            ]
          ]
    ]
