-- ===== src/Auth/Guards.antt =====
-- apps/api/src/auth.ts: `requireIdentity`, `requireUser`, `allow` and the guards of the staff.
use astra_file_host.Base.{
  Bool, true, false, ◌||◌, not, none, some, Result, ok, err, ◌>>=◌, ◌>>◌, throw_if, api_error,
  request_failed, auth_required, account_pending,
}
use astra_file_host.Auth.{
  Role, owner_role, admin_role, moderator_role, support_role, Status, pending, active, Account,
  Identity,
}

abbrev pub is_active : Status → Bool
is_active active = true
is_active _ = false

-- `['ACTIVE','PENDING'].includes(status)`
abbrev pub may_sign_in : Status → Bool
may_sign_in active = true
may_sign_in pending = true
may_sign_in _ = false

unfoldable pub require_identity : Identity → Result Account
require_identity req = elim (req.user) [ none ↦ err (api_error 401 auth_required) | some u ↦ ok u ]

unfoldable pub require_user : Identity → Result Account
unfolding require_identity
require_user req = do
  u ← require_identity req
  throw_if (not (is_active u.status)) (api_error 403 account_pending)
  ok u

abbrev pub is_key_request : Identity → Bool
is_key_request req = elim (req.api_scopes) [ none ↦ false | some s ↦ true ]

unfoldable pub allow : (Role → Bool) → Identity → Result Account
unfolding require_user
allow roles req = do
  u ← require_user req
  throw_if (is_key_request req || not (roles u.role)) (api_error 403 request_failed)
  ok u

abbrev pub is_admin : Role → Bool
is_admin owner_role = true
is_admin admin_role = true
is_admin _ = false

abbrev pub is_moderator : Role → Bool
is_moderator moderator_role = true
is_moderator r = is_admin r

abbrev pub is_support : Role → Bool
is_support support_role = true
is_support r = is_moderator r

abbrev pub admin : Identity → Result Account
admin = allow is_admin

abbrev pub moderator : Identity → Result Account
moderator = allow is_moderator

abbrev pub support : Identity → Result Account
support = allow is_support
