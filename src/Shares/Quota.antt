-- ===== src/Shares/Quota.antt =====
-- The quota of shares: apps/api/src/share-capability.ts.
use astra_file_host.Base.{
  ℕ, ◌+◌, ◌*◌, ◌≤◌, ◌≡◌, Option, none, some, arith, ok, Result-cases, inl, inr,
}
use astra_file_host.Settings.{PlanPolicy}
use astra_file_host.Database.{Db, Share}
use astra_file_host.Entitlements.{effective}
use astra_file_host.Shares.Capability.{
  Fresh, hour_ms, active_shares, share_allowance, ShareOptions, capped, create_share_row,
  insert_share,
}

capped_le : (wish : Option ℕ) (ceiling : ℕ) → capped wish ceiling ≤ ceiling
capped_le none ceiling = omega arith
capped_le (some t) ceiling = omega arith

-- If a share is created, its owner has a valid policy, and with the new share has at most as many
-- active shares as the policy allows; and the share expires, at the latest when the policy says.
pub create_share_row-quota :
    (fresh : Fresh) (owner : ℕ) (options : ShareOptions) (db : Db) (s : Share)
    → create_share_row fresh owner options db ≡ ok s
    → (policy : PlanPolicy) × (effective owner db ≡ ok policy)
      × (active_shares fresh.now (insert_share s db) owner ≤ policy.share_count)
      × ((t : ℕ) × (s.expires_at ≡ some t) × (t ≤ fresh.now + policy.max_share_hours * hour_ms))
unfolding create_share_row share_allowance active_shares
create_share_row-quota fresh owner options db s h = elim (Result-cases (effective owner db)) [
  | inr (e, q) ↦ absurd (ground arith)
  | inl (policy, q) ↦ (
    policy,
    q,
    ground arith,
    (
      capped options.expires_at (fresh.now + policy.max_share_hours * hour_ms),
      ground arith,
      capped_le options.expires_at _,
    ),
  )
]
