-- ===== src/Auth.antt =====
-- apps/api/src/auth.ts: who makes a request, and what it may do. The columns of `users` that say who
-- may sign in are in `Account`; those that the plan of an account reads are in `Database.User`, and a
-- change of the row is made in both. Tokens, emails and passwords are numbers.
pub mod Guards
pub mod Attach
pub mod Sessions
pub mod Users
pub mod Accounts
pub mod Recovery
pub mod Email
pub mod Keys
pub mod Access
pub mod Roles
pub mod Owner
pub mod Administration
pub mod Bound
pub mod Resets
pub mod Verified
use astra_file_host.Base.{
  ℕ, ◌+◌, Bool, true, false, ◌&&◌, ◌||◌, not, Option, none, some, List, [], ◌∷◌, ◌==◌, ltb, find,
  update_where, if◌then◌else◌, Result, ok, err, ◌>>=◌, ◌>>◌, throw_if, api_error, request_failed,
  auth_required, account_pending, plan_api,
}
use astra_file_host.Settings.{PlanPolicy}
use astra_file_host.Database.{Db}

pub data Role : Type 0 where
  owner_role admin_role moderator_role support_role user_role : Role

pub data Status : Type 0 where
  pending active suspended disabled : Status

pub record Account : Type 0 where
  pub id : ℕ
  pub role : Role
  pub anonymous : Bool
  pub status : Status
  pub email_lookup : Option ℕ
  pub email_verified_at : Option ℕ
  pub password_hash : Option ℕ

-- A row of `sessions`; the rows stand with the newest first, in the order of `created_at DESC`.
pub record Session : Type 0 where
  pub id : ℕ
  pub user_id : ℕ
  pub token_hash : ℕ
  pub expires_at : ℕ
  pub created_at : ℕ
  pub last_seen_at : ℕ
  pub friendly_name : Option ℕ

pub data Scope : Type 0 where
  files_read files_write uploads_write shares_write : Scope

pub record ApiKey : Type 0 where
  pub id : ℕ
  pub owner_id : ℕ
  pub token_hash : ℕ
  pub scopes : List Scope
  pub expires_at : Option ℕ
  pub revoked_at : Option ℕ
  pub last_used_at : Option ℕ

-- A row of `password_resets`.
pub record Reset : Type 0 where
  pub user_id : ℕ
  pub token_hash : ℕ
  pub expires_at : ℕ
  pub consumed_at : Option ℕ

pub data Purpose : Type 0 where
  verify change : Purpose

-- A row of `email_verifications`.
pub record Verification : Type 0 where
  pub user_id : ℕ
  pub email_lookup : ℕ
  pub token_hash : ℕ
  pub purpose : Purpose
  pub expires_at : ℕ
  pub consumed_at : Option ℕ

-- The settings that only these handlers read.
pub record AuthSettings : Type 0 where
  pub session_days : ℕ
  pub max_sessions : ℕ
  pub registration_enabled : Bool
  pub require_manual_activation : Bool

-- With the policies of the plans `FREE` and `PRO`.
pub record AuthDb : Type 0 where
  pub main : Db
  pub settings : AuthSettings
  pub free_plan : PlanPolicy
  pub pro_plan : PlanPolicy
  pub accounts : List Account
  pub sessions : List Session
  pub api_keys : List ApiKey
  pub password_resets : List Reset
  pub email_verifications : List Verification

-- SHA-256, the keyed digests of packages/privacy under the current key and under every key, and
-- `argon2.verify`.
pub record Digests : Type 0 where
  pub hash : ℕ → ℕ
  pub email_lookup : ℕ → ℕ
  pub email_lookups : ℕ → List ℕ
  pub verify_password : ℕ → ℕ → Bool

-- A credential that a request carries, with its length.
pub record Token : Type 0 where
  pub value : ℕ
  pub length : ℕ

-- The first of the prefixes `/api/uploads`, `/api/shares`, `/api/folders` and `/api/files` that the
-- path starts with.
pub data Area : Type 0 where
  uploads_area shares_area folders_area files_area other_area : Area

pub record Request : Type 0 where
  pub bearer : Option Token
  pub cookie : Option Token
  pub area : Area
  pub is_get : Bool

-- What the hook leaves in the request: `user`, `sessionId` and `apiScopes`.
pub record Identity : Type 0 where
  pub user : Option Account
  pub session_id : Option ℕ
  pub api_scopes : Option (List Scope)

abbrev pub nobody : Identity
nobody = record { user = none; session_id = none; api_scopes = none }
