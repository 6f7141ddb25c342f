-- ===== src/Auth/Administration.antt =====
-- apps/api/src/admin.ts: what an administrator changes of accounts, API keys, jobs and reports. The
-- status, the plan and the quota of an account are written in `Database.User` too, which has them for
-- the plans.
pub mod Staff
use astra_file_host.Base.{
  ℕ, suc, ◌+◌, ◌≡◌, Bool, true, false, ◌&&◌, ◌||◌, not, Option, none, some, List, [], ◌∷◌, ◌==◌,
  leb, find, update_where, count_where, if◌then◌else◌, Result, ok, err, ◌>>=◌, ◌>>◌, throw_if,
  require_value, api_error, request_failed,
}
use astra_file_host.Settings.{PlanPolicy, PlanOverride}
use astra_file_host.Database.{
  Db, User, Job, JobKind, JobStatus, Share, audit, admin_user_updated, admin_api_key_revoked,
  job_requested, job_retried, abuse_reviewed,
}
use astra_file_host.Entitlements.{or_else}
use astra_file_host.Jobs.{retry, is_failed, enqueue, is_job}
use astra_file_host.Auth.{
  Account, AuthDb, Identity, Role, owner_role, user_role, Status, active, suspended, disabled,
}
use astra_file_host.Auth.Guards.{admin, moderator, is_active}
use astra_file_host.Auth.Attach.{account_of}
use astra_file_host.Auth.Sessions.{end_sessions_of}
use astra_file_host.Auth.Users.{update_user}
use astra_file_host.Auth.Accounts.{is_found, is_owner_role}
use astra_file_host.Auth.Keys.{revoke}

-- The body of `PATCH /api/admin/users/:id`; `none` is an absent field, and a quota may be null.
pub record UserPatch : Type 0 where
  pub role : Option Role
  pub status : Option Status
  pub quota : Option (Option PlanOverride)
  pub plan_id : Option ℕ
  pub reset_sessions : Bool

-- `SELECT count(*) … WHERE role='OWNER' AND status='ACTIVE'`
abbrev pub is_active_owner : Account → Bool
is_active_owner u = is_owner_role u.role && is_active u.status

unfoldable pub active_owners : List Account → ℕ
active_owners accounts = count_where is_active_owner accounts

abbrev takes_role : Option Role → Bool
takes_role none = false
takes_role (some r) = not (is_owner_role r)

abbrev takes_status : Option Status → Bool
takes_status none = false
takes_status (some s) = not (is_active s)

-- `(i.role&&i.role!=='OWNER')||(i.status&&i.status!=='ACTIVE')`
abbrev pub demotes : UserPatch → Bool
demotes i = takes_role i.role || takes_status i.status

abbrev is_plain : Role → Bool
is_plain user_role = true
is_plain _ = false

abbrev pub is_privileged : Option Role → Bool
is_privileged none = false
is_privileged (some r) = not (is_plain r)

abbrev pub apply_user : UserPatch → Account → Account
apply_user i u = record u { role = or_else i.role u.role; status = or_else i.status u.status }

abbrev new_active : Option Status → Bool → Bool
new_active none old = old
new_active (some s) old = is_active s

abbrev set_user :
    Option PlanPolicy → Option (Option PlanOverride) → Option Status → PlanOverride → User → User
set_user plan quota status no_override u = record u {
  active = new_active status u.active;
  plan = or_else plan u.plan;
  quota = elim quota [ none ↦ u.quota | some q ↦ or_else q no_override ];
}

-- `SELECT id FROM plans WHERE id=$1 AND enabled`, if a plan is named.
abbrev named_plan : (ℕ → Option PlanPolicy) → Option ℕ → Result (Option PlanPolicy)
named_plan plans none = ok none
named_plan plans (some id) = require_value (plans id) >>= λ p. ok (some p)

-- `i.resetSessions||i.status==='SUSPENDED'||i.status==='DISABLED'||i.role`
abbrev is_shut : Option Status → Bool
is_shut (some suspended) = true
is_shut (some disabled) = true
is_shut _ = false

abbrev pub ends_sessions : UserPatch → Bool
ends_sessions i = i.reset_sessions || (is_shut i.status || is_found i.role)

abbrev pub patched_user : PlanOverride → ℕ → ℕ → UserPatch → Option PlanPolicy → AuthDb → AuthDb
patched_user no_override actor id i plan db = record db {
  accounts = update_where (λ x. x.id == id) (apply_user i) db.accounts;
  main =
      audit (some actor) admin_user_updated id
        (update_user id (set_user plan i.quota i.status no_override) db.main);
}

-- `PATCH /api/admin/users/:id`; `plans` are the enabled plans, and `no_override` the empty quota.
unfoldable pub patch_user :
    (ℕ → Option PlanPolicy) → PlanOverride → Identity → ℕ → UserPatch → AuthDb → Result AuthDb
unfolding active_owners
patch_user plans no_override req id i db = do
  actor ← admin req
  throw_if (is_found i.role && not (is_owner_role actor.role)) (api_error 403 request_failed)
  u ← require_value (account_of id db)
  throw_if (is_owner_role u.role && not (is_owner_role actor.role)) (api_error 403 request_failed)
  throw_if (is_owner_role u.role && (demotes i && leb (active_owners db.accounts) 1))
      (api_error 409 request_failed)
  throw_if (u.anonymous && is_privileged i.role) (api_error 400 request_failed)
  plan ← named_plan plans i.plan_id
  ok (
      let after = patched_user no_override actor.id id i plan db in
      if ends_sessions i then end_sessions_of id after else after)

-- `POST /api/admin/jobs`; the target `manual` is 1, and the log names no row.
unfoldable pub request_job : ℕ → Identity → JobKind → AuthDb → Result AuthDb
request_job now req kind db = do
  actor ← admin req
  ok (record db { main = audit (some actor.id) job_requested 0 (enqueue now kind 1 db.main) })

-- `POST /api/admin/jobs/:id/retry`, of the job of a kind and a target.
unfoldable pub retry_job : ℕ → Identity → JobKind → ℕ → AuthDb → Result AuthDb
retry_job now req kind target db = do
  actor ← admin req
  j ← require_value (find (λ (j : Job). is_job kind target j && is_failed j.status) db.main.jobs)
  ok (record db {
    main =
        audit (some actor.id) job_retried target
          (record db.main { jobs = retry now kind target db.main.jobs });
  })

abbrev shut_share : Share → Share
shut_share s = record s { enabled = false; version = suc s.version }

abbrev same_share : Option ℕ → ℕ → Bool
same_share none id = false
same_share (some s) id = s == id

-- `PATCH /api/admin/reports/:id`, of a report on a share.
unfoldable pub review_report : Identity → ℕ → Option ℕ → Bool → AuthDb → Result AuthDb
review_report req id share disable db = do
  actor ← moderator req
  ok (record db {
    main = audit (some actor.id) abuse_reviewed id (record db.main {
      shares = update_where (λ s. disable && same_share share s.id) shut_share db.main.shares;
    });
  })

-- `DELETE /api/admin/keys/:id`
unfoldable pub revoke_any_key : ℕ → Identity → ℕ → AuthDb → Result AuthDb
revoke_any_key now req id db = do
  actor ← admin req
  ok (record db {
    api_keys = update_where (λ k. k.id == id) (revoke now) db.api_keys;
    main = audit (some actor.id) admin_api_key_revoked id db.main;
  })
