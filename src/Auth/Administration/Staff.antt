-- ===== src/Auth/Administration/Staff.antt =====
-- The last active owner (apps/api/src/admin.ts `PATCH /api/admin/users/:id`).
use astra_file_host.Base.{
  ℕ, ◌+◌, ◌≤◌, ◌≡◌, ap, subst, Bool, true, false, ◌&&◌, ◌||◌, not, Option, some, List, ◌==◌, leb,
  find, update_where, count_where, sum_where-update_one, arith, ok, api_error, request_failed,
  require_value, [], ◌∷◌, Bool-cases, inl, inr, throw_if, ◌>>◌, ◌>>=◌, require_value-eq-ok,
  >>=-eq-ok, throw_if-eq-ok, ok-injective, if◌then◌else◌,
}
use astra_file_host.Settings.{PlanPolicy, PlanOverride}
use astra_file_host.Auth.{Account, AuthDb, Identity}
use astra_file_host.Auth.Guards.{admin}
use astra_file_host.Auth.Attach.{account_of}
use astra_file_host.Auth.Accounts.{is_owner_role, is_found}
use astra_file_host.Auth.Sessions.{end_sessions_of}
use astra_file_host.Auth.Administration.{
  UserPatch, active_owners, is_active_owner, demotes, is_privileged, apply_user, ends_sessions,
  patched_user, patch_user, named_plan,
}

-- The primary key of `users`.
abbrev pub HasUniqueAccounts : List Account → Type 0
HasUniqueAccounts accounts = (id : ℕ) → count_where (λ (u : Account). u.id == id) accounts ≤ 1

found_counted :
    (id : ℕ) (accounts : List Account) (u : Account)
    → find (λ (x : Account). x.id == id) accounts ≡ some u
    → 1 ≤ count_where (λ (x : Account). x.id == id) accounts
found_counted id [] u h = cc
found_counted id (x ∷ xs) u h = ground (arith, found_counted id xs u)

-- An account that is not demoted is an active owner if it was one.
keeps_owner :
    (i : UserPatch) (u : Account)
    → demotes i ≡ false
    → is_active_owner u ≡ true
    → is_active_owner (apply_user i u) ≡ true
keeps_owner i u h k = ground (arith, h, k)

-- The patch moves the number of active owners by what it does to the one account.
patched-owners :
    (i : UserPatch) (id : ℕ) (u : Account) (accounts : List Account)
    → find (λ (x : Account). x.id == id) accounts ≡ some u
    → HasUniqueAccounts accounts
    → active_owners (update_where (λ x. x.id == id) (apply_user i) accounts)
        + (if is_active_owner u then 1 else 0)
      ≡ active_owners accounts + (if is_active_owner (apply_user i u) then 1 else 0)
unfolding active_owners
patched-owners i id u accounts found unique =
    sum_where-update_one is_active_owner (λ x. x.id == id) (λ x. 1) (apply_user i) accounts u found
      (omega (arith, found_counted id accounts u found, unique id))

-- The check of the last owner, by the role of the account and by what is asked for.
owner_left :
    (i : UserPatch) (u : Account) (n n' : ℕ)
    → 1 ≤ n
    → (is_owner_role u.role && (demotes i && leb n 1)) ≡ false
    → n' + (if is_active_owner u then 1 else 0)
      ≡ n + (if is_active_owner (apply_user i u) then 1 else 0)
    → 1 ≤ n'
owner_left i u n n' some_owner checked moved = elim (Bool-cases (is_active_owner u)) [
  | inr other ↦ ground (arith, other, some_owner, moved)
  | inl owner ↦ elim (Bool-cases (demotes i)) [
    | inr kept ↦ ground (arith, owner, some_owner, moved, keeps_owner i u kept owner)
    | inl asked ↦ ground (arith, owner, asked, checked, moved)
  ]
]

either_sessions :
    (b : Bool) (id : ℕ) (after db' : AuthDb)
    → ok (if b then end_sessions_of id after else after) ≡ ok db'
    → after.accounts ≡ db'.accounts
either_sessions true id after db' h = ap (λ (x : AuthDb). x.accounts) (ok-injective h)
either_sessions false id after db' h = ap (λ (x : AuthDb). x.accounts) (ok-injective h)

-- A change of an account by an administrator that succeeds leaves at least one active owner, if there
-- was one and no account has two rows; and if it gives a role or is of an owner, an owner has made it.
pub patch_user-owner_left :
    (plans : ℕ → Option PlanPolicy) (no_override : PlanOverride) (req : Identity) (id : ℕ)
    (i : UserPatch) (db db' : AuthDb)
    → HasUniqueAccounts db.accounts
    → 1 ≤ active_owners db.accounts
    → patch_user plans no_override req id i db ≡ ok db'
    → (1 ≤ active_owners db'.accounts)
      × ((actor : Account) × (u : Account) × (admin req ≡ ok actor)
          × (account_of id db ≡ some u)
          × (((is_found i.role || is_owner_role u.role) && not (is_owner_role actor.role)) ≡ false))
unfolding patch_user
patch_user-owner_left plans no_override req id i db db' unique one h =
    let (actor, allowed, asking) = >>=-eq-ok (admin req) _ h in
    let (roles, finding) =
      throw_if-eq-ok (is_found i.role && not (is_owner_role actor.role))
        (api_error 403 request_failed) _ asking in
    let (u, known, checking) = >>=-eq-ok (require_value (account_of id db)) _ finding in
    patched actor u allowed roles (require_value-eq-ok _ u known) checking
  where
    patched :
        (actor u : Account)
        → admin req ≡ ok actor
        → (is_found i.role && not (is_owner_role actor.role)) ≡ false
        → account_of id db ≡ some u
        → (throw_if
              (is_owner_role u.role && not (is_owner_role actor.role))
              (api_error 403 request_failed)
            >> (throw_if
                  (is_owner_role u.role && (demotes i && leb (active_owners db.accounts) 1))
                  (api_error 409 request_failed)
                >> (throw_if (u.anonymous && is_privileged i.role) (api_error 400 request_failed)
                    >> (named_plan plans i.plan_id >>= λ plan. ok (
                        let after = patched_user no_override actor.id id i plan db in
                        if ends_sessions i then end_sessions_of id after else after)))))
          ≡ ok db'
        → (1 ≤ active_owners db'.accounts)
          × ((actor : Account) × (u : Account) × (admin req ≡ ok actor)
              × (account_of id db ≡ some u)
              × (((is_found i.role || is_owner_role u.role) && not (is_owner_role actor.role))
                  ≡ false))
    patched actor u allowed roles known checking =
        let (own, last) =
          throw_if-eq-ok (is_owner_role u.role && not (is_owner_role actor.role))
            (api_error 403 request_failed) _ checking in
        let (left, guests) =
          throw_if-eq-ok (is_owner_role u.role && (demotes i && leb (active_owners db.accounts) 1))
            (api_error 409 request_failed) _ last in
        let (registered, planning) =
          throw_if-eq-ok (u.anonymous && is_privileged i.role) (api_error 400 request_failed) _
            guests in
        let (plan, found, answer) = >>=-eq-ok (named_plan plans i.plan_id) _ planning in
        (
          subst (λ (accounts : List Account). 1 ≤ active_owners accounts)
              (either_sessions (ends_sessions i) id _ db' answer)
              (owner_left i u (active_owners db.accounts) _ one left
                (patched-owners i id u db.accounts known unique)),
          (actor, u, allowed, known, ground (arith, roles, own)),
        )
