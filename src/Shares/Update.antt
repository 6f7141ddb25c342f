-- ===== src/Shares/Update.antt =====
-- apps/api/src/shares.ts `update`, by the owner of the share (`PATCH /api/shares/:id`). The name, which
-- no code reads, is left out, and the hash of a new password is an argument.
use astra_file_host.Base.{
  ℕ, suc, ◌+◌, ◌*◌, ◌≤◌, ◌<◌, ◌≡◌, refl, Bool, true, false, ◌&&◌, not, Option, none, some, ◌==◌,
  leb, find, update_where, Result, ok, ◌>>=◌, ◌>>◌, throw_if, require_value, api_error,
  request_failed, share_quota, arith, Option-cases, Result-cases, inl, inr, find-update_where,
  find-holds,
}
use astra_file_host.Database.{Db, Share, ShareAccess, Visibility, audit, share_updated}
use astra_file_host.Shares.Access.{is_session}
use astra_file_host.Shares.Capability.{hour_ms, Allowance, share_allowance, capped}

-- The body of the request: `none` is an absent field. A date may be null, for no wish.
pub record Change : Type 0 where
  pub enabled : Option Bool
  pub expires_at : Option (Option ℕ)
  pub max_downloads : Option (Option ℕ)
  pub password_hash : Option (Option ℕ)
  pub digest : Option ℕ
  pub visibility : Option Visibility

abbrev pub or_keep {ℓ} : {A : Type ℓ} → Option A → A → A
or_keep none old = old
or_keep (some a) old = a

-- `new Date(i.expiresAt?Math.min(i.expiresAt,cap):cap)`, where the field is given.
abbrev pub new_expiry : ℕ → Option (Option ℕ) → Option (Option ℕ)
new_expiry cap none = none
new_expiry cap (some t) = some (some (capped t cap))

abbrev pub is_past : ℕ → Option (Option ℕ) → Bool
is_past now none = false
is_past now (some none) = false
is_past now (some (some t)) = leb t now

abbrev pub enables : Option Bool → Bool
enables none = false
enables (some b) = b

abbrev pub apply_change : Change → Option (Option ℕ) → Share → Share
apply_change c expiry s = record s {
  enabled = or_keep c.enabled s.enabled;
  expires_at = or_keep expiry s.expires_at;
  max_downloads = or_keep c.max_downloads s.max_downloads;
  password_hash = or_keep c.password_hash s.password_hash;
  capability_digest = or_keep c.digest s.capability_digest;
  visibility = or_keep c.visibility s.visibility;
  version = suc s.version;
}

-- `i.password`: a new password, which the schema keeps from being empty.
abbrev pub sets_password : Option (Option ℕ) → Bool
sets_password none = false
sets_password (some none) = false
sets_password (some (some h)) = true

unfoldable pub update_share : ℕ → ℕ → ℕ → Change → Db → Result Db
update_share now owner id c db = do
  throw_if (sets_password c.password_hash && not db.settings.share_passwords_enabled)
      (api_error 403 request_failed)
  existing ← require_value (find (λ (x : Share). x.id == id && x.owner_id == owner) db.shares)
  allowance ← share_allowance now owner db
  throw_if
      (is_past now (new_expiry (now + allowance.policy.max_share_hours * hour_ms) c.expires_at))
      (api_error 400 request_failed)
  throw_if (enables c.enabled && (not existing.enabled && not allowance.available))
      (api_error 403 share_quota)
  ok (
      audit (some owner) share_updated id (record db {
        shares =
            update_where (λ (x : Share). x.id == id)
              (apply_change c
                (new_expiry (now + allowance.policy.max_share_hours * hour_ms) c.expires_at))
              db.shares;
      }))

-- The row after an update that asks for an expiry.
pub record Changed (now owner id : ℕ) (c : Change) (db : Db) (s s' : Share) : Type 0 where
  pub allowance : Allowance
  pub allowed : share_allowance now owner db ≡ ok allowance
  pub renewed : s'.version ≡ suc s.version
  pub ended :
      (later token : ℕ) (a : ShareAccess)
      → a.version ≡ s.version
      → is_session later s' token a ≡ false
  pub password_allowed :
      sets_password c.password_hash ≡ true → db.settings.share_passwords_enabled ≡ true
  pub within_quota : enables c.enabled ≡ true → s.enabled ≡ false → allowance.available ≡ true
  pub bounded :
      (wish : Option ℕ)
      → c.expires_at ≡ some wish
      → (t : ℕ) × (s'.expires_at ≡ some t)
        × (now < t)
        × (t ≤ now + allowance.policy.max_share_hours * hour_ms)
  pub kept : c.expires_at ≡ none → s'.expires_at ≡ s.expires_at

changed :
    (now owner id : ℕ) (c : Change) (db db' : Db) (s : Share) (a : Allowance)
    → find (λ (x : Share). x.id == id && x.owner_id == owner) db.shares ≡ some s
    → share_allowance now owner db ≡ ok a
    → update_share now owner id c db ≡ ok db'
    → Changed now owner id c db s
        (apply_change c (new_expiry (now + a.policy.max_share_hours * hour_ms) c.expires_at) s)
unfolding update_share
changed now owner id c db db' s a found allowed h = record {
  allowance = a;
  allowed = allowed;
  renewed = refl;
  ended = λ later token access same. ground arith;
  password_allowed = λ sets. ground arith;
  within_quota = λ on off. ground arith;
  bounded = λ wish asked. (
    capped wish (now + a.policy.max_share_hours * hour_ms),
    ground arith,
    ground arith,
    capped_within wish _,
  );
  kept = λ absent. ground arith;
}
  where
    capped_within : (wish : Option ℕ) (cap : ℕ) → capped wish cap ≤ cap
    capped_within none cap = omega arith
    capped_within (some t) cap = omega arith

row-update :
    (now owner id : ℕ) (c : Change) (db db' : Db) (s : Share) (a : Allowance)
    → find (λ (x : Share). x.id == id && x.owner_id == owner) db.shares ≡ some s
    → share_allowance now owner db ≡ ok a
    → update_share now owner id c db ≡ ok db'
    → find (λ (x : Share). x.id == id && x.owner_id == owner) db'.shares
      ≡ some (apply_change c (new_expiry (now + a.policy.max_share_hours * hour_ms) c.expires_at) s)
unfolding update_share
row-update now owner id c db db' s a found allowed h = ground (
  arith,
  find-update_where (λ (x : Share). x.id == id && x.owner_id == owner) (λ (x : Share). x.id == id)
      (apply_change c (new_expiry (now + a.policy.max_share_hours * hour_ms) c.expires_at))
      db.shares (λ x. refl),
  find-holds (λ (x : Share). x.id == id && x.owner_id == owner) db.shares s found,
)

-- An update that succeeds was of a share of the owner, and a new password is set only while the settings
-- enable passwords of shares. The row has the next version, and no session that was given out for the
-- version before is one of the new row; a share that was disabled is enabled only within the allowance of
-- shares; an expiry that is asked for is in the future and within the longest that the policy of the owner
-- allows, and if none is asked for, the expiry stays.
pub update_share_outcome :
    (now owner id : ℕ) (c : Change) (db db' : Db)
    → update_share now owner id c db ≡ ok db'
    → (s : Share) × (s' : Share) × (find
          (λ (x : Share). x.id == id && x.owner_id == owner)
          db.shares
        ≡ some s)
      × (find (λ (x : Share). x.id == id && x.owner_id == owner) db'.shares ≡ some s')
      × Changed now owner id c db s s'
unfolding update_share
update_share_outcome now owner id c db db' h =
    elim (Option-cases (find (λ (x : Share). x.id == id && x.owner_id == owner) db.shares)) [
      | inl missing ↦ absurd (ground arith)
      | inr (s, found) ↦ elim (Result-cases (share_allowance now owner db)) [
        | inr (e, q) ↦ absurd (ground arith)
        | inl (a, q) ↦ (
          s,
          _,
          found,
          row-update now owner id c db db' s a found q h,
          changed now owner id c db db' s a found q h,
        )
      ]
    ]
