-- ===== src/Auth/Verified.antt =====
-- What the link to an email is good for (apps/api/src/account-security.ts `POST /api/auth/verify`).
use astra_file_host.Base.{
  ℕ, ◌≤◌, ◌≡◌, refl, ◌⊎◌, inl, inr, ap, subst, Bool, true, false, ◌&&◌, not, Option, none, some,
  List, [], ◌∷◌, ◌==◌, find, update_where, arith, Result, ok, err, api_error, request_failed,
  require_value, require_value-eq-ok, >>=-eq-ok, throw_if-eq-ok, ok-injective, if◌then◌else◌,
  throw_if, ◌>>◌, find-update_where, ==_iff, find-holds,
}
use astra_file_host.Auth.{
  AuthDb, Account, Digests, Verification, active, pending, Purpose, verify, change,
}
use astra_file_host.Auth.Attach.{account_of}
use astra_file_host.Auth.Accounts.{same_lookup, is_found}
use astra_file_host.Auth.Sessions.{end_sessions_of}
use astra_file_host.Auth.Email.{
  confirm_email, holds_email, confirmed, is_usable_link, spend, verify_email, is_verify, activates,
}

link_once :
    (now later digest : ℕ) (vs : List Verification)
    → now ≤ later
    → find (is_usable_link later digest) (update_where (is_usable_link now digest) (spend now) vs)
      ≡ none
link_once now later digest [] h = refl
link_once now later digest (v ∷ vs) h = ground (arith, h, link_once now later digest vs)

-- What a verification that succeeds under a link has done.
record IsVerified (d : Digests) (now later token : ℕ) (db db' : AuthDb) : Type 0 where
  link : Verification
  before : Account
  after : Account
  usable : find (is_usable_link now (d.hash token)) db.email_verifications ≡ some link
  known : account_of link.user_id db ≡ some before
  changed : account_of link.user_id db' ≡ some after
  email : after.email_lookup ≡ some link.email_lookup
  status :
      (after.status ≡ before.status)
      ⊎ ((link.purpose ≡ verify)
          × (before.status ≡ pending)
          × (db.settings.require_manual_activation ≡ false)
          × (after.status ≡ active))
  own : (before.email_lookup ≡ some link.email_lookup) ⊎ (link.purpose ≡ change)
  spent : find (is_usable_link later (d.hash token)) db'.email_verifications ≡ none

confirm_email-status :
    (now lookup : ℕ) (db : AuthDb) (v : Verification) (u : Account)
    → ((confirm_email now lookup (activates db v u) u).status ≡ u.status)
      ⊎ ((v.purpose ≡ verify)
          × (u.status ≡ pending)
          × (db.settings.require_manual_activation ≡ false)
          × ((confirm_email now lookup (activates db v u) u).status ≡ active))
confirm_email-status now lookup db v u = ground arith

account_of-confirm_email :
    (id now lookup : ℕ) (b : Bool) (u : Account) (accounts : List Account)
    → find (λ (x : Account). x.id == id) accounts ≡ some u
    → find
        (λ (x : Account). x.id == id)
        (update_where (λ x. x.id == u.id) (confirm_email now lookup b) accounts)
      ≡ some (confirm_email now lookup b u)
account_of-confirm_email id now lookup b u accounts h = ground (
  arith,
  h,
  find-holds (λ (x : Account). x.id == id) accounts u h,
  find-update_where (λ (x : Account). x.id == id) (λ x. x.id == u.id) (confirm_email now lookup b)
      accounts (λ x. refl),
)

own_email :
    (p : Purpose) (o : Option ℕ) (e : ℕ)
    → (is_verify p && not (same_lookup o e)) ≡ false
    → (o ≡ some e) ⊎ (p ≡ change)
own_email change o e h = inr refl
own_email verify none e h = cc
own_email verify (some x) e h = inl (ap some ((==_iff x e).0 (ground (arith, h))))

confirmed-IsVerified :
    (d : Digests) (now later token : ℕ) (v : Verification) (u : Account) (db : AuthDb)
    → now ≤ later
    → find (is_usable_link now (d.hash token)) db.email_verifications ≡ some v
    → account_of v.user_id db ≡ some u
    → (is_verify v.purpose && not (same_lookup u.email_lookup v.email_lookup)) ≡ false
    → IsVerified d now later token db (confirmed now (d.hash token) v u db)
confirmed-IsVerified d now later token v u db h usable known own = record {
  link = v;
  before = u;
  after = confirm_email now v.email_lookup (activates db v u) u;
  usable = usable;
  known = known;
  changed =
      account_of-confirm_email v.user_id now v.email_lookup (activates db v u) u db.accounts known;
  email = refl;
  status = confirm_email-status now v.email_lookup db v u;
  own = own_email v.purpose u.email_lookup v.email_lookup own;
  spent = link_once now later (d.hash token) db.email_verifications h;
}

-- The end of sessions moves nothing of this.
end_sessions_of-IsVerified :
    (d : Digests) (now later token user : ℕ) (db db' : AuthDb)
    → IsVerified d now later token db db'
    → IsVerified d now later token db (end_sessions_of user db')
end_sessions_of-IsVerified d now later token user db db' r = record {
  link = r.link;
  before = r.before;
  after = r.after;
  usable = r.usable;
  known = r.known;
  changed = r.changed;
  email = r.email;
  status = r.status;
  own = r.own;
  spent = r.spent;
}

either_answer :
    (d : Digests) (now later token user : ℕ) (p : Bool) (db after db' : AuthDb)
    → IsVerified d now later token db after
    → ok (if p then after else end_sessions_of user after) ≡ ok db'
    → IsVerified d now later token db db'
either_answer d now later token user true db after db' r h =
    subst (IsVerified d now later token db) (ok-injective h) r
either_answer d now later token user false db after db' r h =
    subst (IsVerified d now later token db) (ok-injective h)
      (end_sessions_of-IsVerified d now later token user db after r)

verify_email_lem :
    (d : Digests) (now later token : ℕ) (rate : Result (Unit {0})) (db db' : AuthDb)
    → now ≤ later
    → verify_email d now rate token db ≡ ok db'
    → IsVerified d now later token db db'
unfolding verify_email
verify_email_lem d now later token rate db db' h done =
    let (pass, limited, finding) = >>=-eq-ok rate _ done in
    let (v, usable, naming) =
      >>=-eq-ok (require_value (find (is_usable_link now (d.hash token)) db.email_verifications)) _
        finding in
    let (u, known, matching) = >>=-eq-ok (require_value (account_of v.user_id db)) _ naming in
    matched v u (require_value-eq-ok _ v usable) (require_value-eq-ok _ u known) matching
  where
    matched :
        (v : Verification) (u : Account)
        → find (is_usable_link now (d.hash token)) db.email_verifications ≡ some v
        → account_of v.user_id db ≡ some u
        → (throw_if
              (is_verify v.purpose && not (same_lookup u.email_lookup v.email_lookup))
              (api_error 409 request_failed)
            >> (throw_if
                  (is_found (find (holds_email v.email_lookup u.id) db.accounts))
                  (api_error 409 request_failed)
                >> ok (
                    let after = confirmed now (d.hash token) v u db in
                    if is_verify v.purpose then after else end_sessions_of u.id after)))
          ≡ ok db'
        → IsVerified d now later token db db'
    matched v u usable known matching =
        let (own, free) =
          throw_if-eq-ok (is_verify v.purpose && not (same_lookup u.email_lookup v.email_lookup))
            (api_error 409 request_failed) _ matching in
        let (alone, answer) =
          throw_if-eq-ok (is_found (find (holds_email v.email_lookup u.id) db.accounts))
            (api_error 409 request_failed) _ free in
        either_answer d now later token u.id (is_verify v.purpose) db
          (confirmed now (d.hash token) v u db) db'
          (confirmed-IsVerified d now later token v u db h usable known own) answer

-- An email is confirmed only by a link that is neither spent nor run out, on the account that it
-- names, which then has the email of the link; a link that verifies only confirms the email that the
-- account has. The status of the account stays, or it was pending and becomes active, by a link that
-- verifies, where no activation by hand is required. The same link is refused at every later time.
pub verify_email_once :
    (d : Digests) (now later token : ℕ) (rate : Result (Unit {0})) (db db' : AuthDb)
    → now ≤ later
    → verify_email d now rate token db ≡ ok db'
    → ((v : Verification) × (u : Account) × (u' : Account) × (find
            (is_usable_link now (d.hash token))
            db.email_verifications
          ≡ some v)
        × (account_of v.user_id db ≡ some u)
        × (account_of v.user_id db' ≡ some u')
        × (u'.email_lookup ≡ some v.email_lookup)
        × ((u.email_lookup ≡ some v.email_lookup) ⊎ (v.purpose ≡ change))
        × ((u'.status ≡ u.status)
            ⊎ ((v.purpose ≡ verify)
                × (u.status ≡ pending)
                × (db.settings.require_manual_activation ≡ false)
                × (u'.status ≡ active))))
      × (verify_email d later (ok tt) token db' ≡ err (api_error 404 request_failed))
unfolding verify_email
verify_email_once d now later token rate db db' h done =
    let r = verify_email_lem d now later token rate db db' h done in
    (
      (r.link, r.before, r.after, r.usable, r.known, r.changed, r.email, r.own, r.status),
      ground (arith, r.spent),
    )
