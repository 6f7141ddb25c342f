-- ===== src/Auth/Roles.antt =====
-- The handlers of apps/api/src/auth.ts and apps/api/src/account-security.ts that write accounts, and
-- the number of accounts with the role of the owner.
use astra_file_host.Base.{
  ℕ, ◌≡◌, refl, ap, sym, ◌∙◌, Bool, true, false, not, Option, none, some, List, [], ◌∷◌, ◌==◌, find,
  update_where, count_where, sum_where-update_where, arith, Result, ok, api_error, request_failed,
  conflict, throw_if, ◌>>◌, ◌>>=◌, ◌&&◌, >>=-eq-ok, throw_if-eq-ok, ok-injective, Bool-cases, inl,
  inr, require_value, if◌then◌else◌,
}
use astra_file_host.Settings.{PlanPolicy}
use astra_file_host.Auth.{
  AuthDb, Account, Digests, Identity, owner_role, user_role, active, pending, Verification,
}
use astra_file_host.Auth.Sessions.{Fresh, issue_session, end_if, end_sessions_of}
use astra_file_host.Auth.Guards.{require_identity}
use astra_file_host.Auth.Attach.{account_of}
use astra_file_host.Auth.Users.{insert_user}
use astra_file_host.Auth.Accounts.{
  Credentials, is_owner_role, is_found, setup, guest, register, login, insert_account, new_account,
  guest_account, is_signed_in, register_row, upgrade, with_email, signed_in, stored_hash, set_email,
  same_lookup,
}
use astra_file_host.Auth.Recovery.{reset, password, set_password, usable_reset, knows_password}
use astra_file_host.Auth.Email.{
  verify_email, is_usable_link, confirmed, confirm_email, activates, is_verify, holds_email,
}

unfoldable pub owners : List Account → ℕ
owners accounts = count_where (λ (u : Account). is_owner_role u.role) accounts

no_owner :
    (accounts : List Account)
    → is_found (find (λ (u : Account). is_owner_role u.role) accounts) ≡ false
    → owners accounts ≡ 0
unfolding owners
no_owner [] h = refl
no_owner (u ∷ us) h = ground (arith, h, no_owner us)

update-owners :
    (id : ℕ) (f : Account → Account) (accounts : List Account)
    → ((u : Account) → (f u).role ≡ u.role)
    → owners (update_where (λ u. u.id == id) f accounts) ≡ owners accounts
unfolding owners
update-owners id f accounts keep =
    sum_where-update_where (λ (u : Account). is_owner_role u.role) (λ u. u.id == id) (λ u. 1) f
      accounts (λ u. ground (arith, keep u))

insert-owners :
    (u : Account) (plan : PlanPolicy) (email : ℕ) (db db' : AuthDb)
    → insert_account u plan email db ≡ ok db'
    → owners db'.accounts ≡ owners (u ∷ db.accounts)
unfolding insert_account
insert-owners u plan email db db' h = ground (arith, h)

pub setup-owners :
    (d : Digests) (db db' : AuthDb) (now : ℕ) (rate : Result (Unit {0})) (bootstrap token id : ℕ)
    (c : Credentials) (fresh : Fresh)
    → setup d now rate bootstrap token id c fresh db ≡ ok db'
    → owners db'.accounts ≡ 1
unfolding setup owners issue_session
setup-owners d db db' now rate bootstrap token id c fresh h =
    let (pass, limited, opening) = >>=-eq-ok rate _ h in
    let (authentic, first) =
      throw_if-eq-ok (not (d.hash token == bootstrap)) (api_error 403 request_failed) _ opening in
    let (vacant, writing) =
      throw_if-eq-ok (is_found (find (λ (u : Account). is_owner_role u.role) db.accounts))
        (api_error 409 request_failed) _ first in
    let (inserted, insertion, answer) =
      >>=-eq-ok
        (insert_account (new_account d id owner_role active c) db.pro_plan (d.email_lookup c.email)
          db)
        _ writing in
    ap (λ (x : AuthDb). owners x.accounts) (sym (ok-injective answer))
    ∙ insert-owners (new_account d id owner_role active c) db.pro_plan (d.email_lookup c.email) db
        inserted insertion
    ∙ ground (arith, no_owner db.accounts vacant)

if-false {ℓ} :
    {A : Type ℓ} (b : Bool) (x y : A) {z : A} → b ≡ false → (if b then x else y) ≡ z → y ≡ z
if-false true x y h k = cc
if-false false x y h k = k

if-true {ℓ} :
    {A : Type ℓ} (b : Bool) (x y : A) {z : A} → b ≡ true → (if b then x else y) ≡ z → x ≡ z
if-true true x y h k = k
if-true false x y h k = cc

-- A handler that makes nobody the owner.
abbrev SameOwners : AuthDb → AuthDb → Type 0
SameOwners db db' = owners db'.accounts ≡ owners db.accounts

same_by : (db after db' : AuthDb) → SameOwners db after → ok after ≡ ok db' → SameOwners db db'
same_by db after db' same answer =
    ap (λ (x : AuthDb). owners x.accounts) (sym (ok-injective answer)) ∙ same

pub guest-owners :
    (d : Digests) (db db' : AuthDb) (now : ℕ) (rate : Result (Unit {0})) (req : Identity) (id : ℕ)
    (fresh : Fresh)
    → guest d now rate req id fresh db ≡ ok db'
    → SameOwners db db'
unfolding guest owners issue_session
guest-owners d db db' now rate req id fresh h = elim (Bool-cases (is_signed_in req)) [
  | inl signed ↦ same_by db db db' refl (ground (arith, signed, h))
  | inr new ↦
      let (allowed, limiting) =
        throw_if-eq-ok (not db.main.settings.anonymous_enabled) (api_error 403 request_failed) _
          (if-false (is_signed_in req) _ _ new h) in
      let (pass, limited, answer) = >>=-eq-ok rate _ limiting in
      same_by db
        (issue_session d now id (some 180) fresh (record db {
          accounts = guest_account id ∷ db.accounts;
          main = insert_user (guest_account id) db.free_plan db.main;
        }))
        db' (omega arith) answer
]

new_row-owners :
    (d : Digests) (id k : ℕ) (c : Credentials) (db after : AuthDb)
    → ◌>>=◌ {B = ℕ × AuthDb}
        (insert_account
          (new_account d id user_role pending c)
          db.free_plan
          (d.email_lookup c.email)
          db)
        (λ x. ok (id, x))
      ≡ ok (k, after)
    → SameOwners db after
unfolding owners
new_row-owners d id k c db after h =
    let (inserted, insertion, answer) =
      >>=-eq-ok
        (insert_account (new_account d id user_role pending c) db.free_plan (d.email_lookup c.email)
          db)
        _ h in
    ap (λ (t : ℕ × AuthDb). owners t.1.accounts) (sym (ok-injective answer))
    ∙ insert-owners (new_account d id user_role pending c) db.free_plan (d.email_lookup c.email) db
        inserted insertion
    ∙ omega arith

register_row-owners :
    (d : Digests) (who : Option Account) (id k : ℕ) (c : Credentials) (db after : AuthDb)
    → register_row d who id c db ≡ ok (k, after)
    → SameOwners db after
unfolding register_row owners
register_row-owners d none id k c db after h = new_row-owners d id k c db after h
register_row-owners d (some u) id k c db after h = elim (Bool-cases u.anonymous) [
  | inl came ↦
      ap (λ (t : ℕ × AuthDb). owners t.1.accounts)
        (sym (ok-injective (if-true u.anonymous _ _ came h)))
      ∙ update-owners u.id (upgrade d c) db.accounts (λ x. refl)
  | inr other ↦ new_row-owners d id k c db after (if-false u.anonymous _ _ other h)
]

pub register-owners :
    (d : Digests) (db db' : AuthDb) (now : ℕ) (rate : Result (Unit {0})) (req : Identity) (id : ℕ)
    (c : Credentials) (fresh : Fresh)
    → register d now rate req id c fresh db ≡ ok db'
    → SameOwners db db'
unfolding register issue_session
register-owners d db db' now rate req id c fresh h =
    let (pass, limited, opening) = >>=-eq-ok rate _ h in
    let (enabled, asking) =
      throw_if-eq-ok (not db.settings.registration_enabled) (api_error 403 request_failed) _
        opening in
    let (vacant, writing) =
      throw_if-eq-ok (is_found (with_email (d.email_lookups c.email) db)) (api_error 409 conflict) _
        asking in
    let (row, wrote, answer) = >>=-eq-ok (register_row d req.user id c db) _ writing in
    ap (λ (x : AuthDb). owners x.accounts) (sym (ok-injective answer))
    ∙ register_row-owners d req.user id row.0 c db row.1 wrote

end_if-owners : (o : Option ℕ) (db : AuthDb) → SameOwners db (end_if o db)
end_if-owners none db = refl
end_if-owners (some id) db = refl

pub login-owners :
    (d : Digests) (db db' : AuthDb) (now : ℕ) (by_address by_email : Result (Unit {0})) (dummy : ℕ)
    (req : Identity) (email typed : ℕ) (fresh : Fresh)
    → login d now by_address by_email dummy req email typed fresh db ≡ ok db'
    → SameOwners db db'
unfolding login issue_session
login-owners d db db' now by_address by_email dummy req email typed fresh h =
    let (pass, limited, again) = >>=-eq-ok by_address _ h in
    let (too, limited_too, signing) = >>=-eq-ok by_email _ again in
    let (u, signed, answer) =
      >>=-eq-ok
        (signed_in
          (d.verify_password (stored_hash dummy (with_email (d.email_lookups email) db)) typed)
          (with_email (d.email_lookups email) db))
        _ signing in
    ap (λ (x : AuthDb). owners x.accounts) (sym (ok-injective answer))
    ∙ end_if-owners req.session_id _
    ∙ update-owners u.id (set_email (d.email_lookup email)) db.accounts (λ x. refl)

pub reset-owners :
    (d : Digests) (db db' : AuthDb) (now : ℕ) (rate : Result (Unit {0})) (token hashed : ℕ)
    → reset d now rate token hashed db ≡ ok db'
    → SameOwners db db'
unfolding reset
reset-owners d db db' now rate token hashed h =
    let (pass, limited, using) = >>=-eq-ok rate _ h in
    let (r, usable, answer) = >>=-eq-ok (usable_reset now (d.hash token) db) _ using in
    ap (λ (x : AuthDb). owners x.accounts) (sym (ok-injective answer))
    ∙ update-owners r.user_id (set_password hashed) db.accounts (λ x. refl)

pub password-owners :
    (d : Digests) (db db' : AuthDb) (req : Identity) (current hashed : ℕ)
    → password d req current hashed db ≡ ok db'
    → SameOwners db db'
unfolding password
password-owners d db db' req current hashed h =
    let (u, signed, reading) = >>=-eq-ok (require_identity req) _ h in
    let (row, known, checking) = >>=-eq-ok (require_value (account_of u.id db)) _ reading in
    let (right, answer) =
      throw_if-eq-ok (not (knows_password d current row.password_hash))
        (api_error 403 request_failed) _ checking in
    ap (λ (x : AuthDb). owners x.accounts) (sym (ok-injective answer))
    ∙ update-owners u.id (set_password hashed) db.accounts (λ x. refl)

pub verify_email-owners :
    (d : Digests) (db db' : AuthDb) (now : ℕ) (rate : Result (Unit {0})) (token : ℕ)
    → verify_email d now rate token db ≡ ok db'
    → SameOwners db db'
unfolding verify_email
verify_email-owners d db db' now rate token h =
    let (pass, limited, finding) = >>=-eq-ok rate _ h in
    let (v, usable, naming) =
      >>=-eq-ok (require_value (find (is_usable_link now (d.hash token)) db.email_verifications)) _
        finding in
    let (u, known, matching) = >>=-eq-ok (require_value (account_of v.user_id db)) _ naming in
    matched v u matching
  where
    either :
        (v : Verification) (u : Account) (p : Bool)
        → SameOwners db (
            if p
            then confirmed now (d.hash token) v u db
            else end_sessions_of u.id (confirmed now (d.hash token) v u db))
    either v u true =
        update-owners u.id (confirm_email now v.email_lookup (activates db v u)) db.accounts
          (λ x. refl)
    either v u false =
        update-owners u.id (confirm_email now v.email_lookup (activates db v u)) db.accounts
          (λ x. refl)

    matched :
        (v : Verification) (u : Account)
        → (throw_if
              (is_verify v.purpose && not (same_lookup u.email_lookup v.email_lookup))
              (api_error 409 request_failed)
            >> (throw_if
                  (is_found (find (holds_email v.email_lookup u.id) db.accounts))
                  (api_error 409 request_failed)
                >> ok (
                    let after = confirmed now (d.hash token) v u db in
                    if is_verify v.purpose then after else end_sessions_of u.id after)))
          ≡ ok db'
        → SameOwners db db'
    matched v u matching =
        let (own, free) =
          throw_if-eq-ok (is_verify v.purpose && not (same_lookup u.email_lookup v.email_lookup))
            (api_error 409 request_failed) _ matching in
        let (alone, answer) =
          throw_if-eq-ok (is_found (find (holds_email v.email_lookup u.id) db.accounts))
            (api_error 409 request_failed) _ free in
        ap (λ (x : AuthDb). owners x.accounts) (sym (ok-injective answer))
        ∙ either v u (is_verify v.purpose)
