-- ===== src/Auth/Resets.antt =====
-- What the link of a password reset is good for (apps/api/src/auth.ts `POST /api/auth/reset`).
use astra_file_host.Base.{
  ℕ, ◌≤◌, ◌≡◌, refl, inl, inr, subst, none, some, List, [], ◌∷◌, ◌==◌, find, update_where, arith,
  Result, ok, err, api_error, request_failed, >>=-eq-ok, ok-injective, Option-cases, map_found,
}
use astra_file_host.Auth.{AuthDb, Account, Digests, Session, Reset}
use astra_file_host.Auth.Attach.{account_of}
use astra_file_host.Auth.Sessions.{delete_where}
use astra_file_host.Auth.Recovery.{is_usable, consume, usable_reset, reset, set_password}
use astra_file_host.Auth.Bound.{is_of}

consumed_once :
    (now later digest : ℕ) (rs : List Reset)
    → now ≤ later
    → find (is_usable later digest) (update_where (is_usable now digest) (consume now) rs) ≡ none
consumed_once now later digest [] h = refl
consumed_once now later digest (r ∷ rs) h = ground (arith, h, consumed_once now later digest rs)

no_sessions :
    (user : ℕ) (ss : List Session) → find (is_of user) (delete_where (is_of user) ss) ≡ none
no_sessions user [] = refl
no_sessions user (s ∷ ss) = ground (arith, no_sessions user ss)

-- What a reset that succeeds under a link has done.
record IsReset (d : Digests) (now later token hashed : ℕ) (db db' : AuthDb) : Type 0 where
  link : Reset
  usable : find (is_usable now (d.hash token)) db.password_resets ≡ some link
  ended : find (is_of link.user_id) db'.sessions ≡ none
  renewed :
      account_of link.user_id db' ≡ map_found (set_password hashed) (account_of link.user_id db)
  spent : find (is_usable later (d.hash token)) db'.password_resets ≡ none

account_of-change_password :
    (id hashed : ℕ) (accounts : List Account)
    → find
        (λ (u : Account). u.id == id)
        (update_where (λ u. u.id == id) (set_password hashed) accounts)
      ≡ map_found (set_password hashed) (find (λ u. u.id == id) accounts)
account_of-change_password id hashed [] = refl
account_of-change_password id hashed (u ∷ us) =
    ground (arith, account_of-change_password id hashed us)

usable_reset_lem :
    (now digest : ℕ) (db : AuthDb) (r : Reset)
    → usable_reset now digest db ≡ ok r
    → find (is_usable now digest) db.password_resets ≡ some r
usable_reset_lem now digest db r h =
    elim (Option-cases (find (is_usable now digest) db.password_resets)) [
      | inl gone ↦ absurd (ground (arith, gone, h))
      | inr (x, found) ↦ ground (arith, found, h)
    ]

reset_lem :
    (d : Digests) (now later token hashed : ℕ) (rate : Result (Unit {0})) (db db' : AuthDb)
    → now ≤ later
    → reset d now rate token hashed db ≡ ok db'
    → IsReset d now later token hashed db db'
unfolding reset
reset_lem d now later token hashed rate db db' h done =
    let (pass, limited, using) = >>=-eq-ok rate _ done in
    let (r, usable, answer) = >>=-eq-ok (usable_reset now (d.hash token) db) _ using in
    subst (IsReset d now later token hashed db) (ok-injective answer) (record {
      link = r;
      usable = usable_reset_lem now (d.hash token) db r usable;
      ended = no_sessions r.user_id db.sessions;
      renewed = account_of-change_password r.user_id hashed db.accounts;
      spent = consumed_once now later (d.hash token) db.password_resets h;
    })

-- A password is reset only by a link that is neither spent nor run out, of the account that it names.
-- Then that account has no session left, and its password is the new one; and the same link is
-- refused at every later time, whatever password comes with it.
pub reset_once :
    (d : Digests) (now later token hashed other : ℕ) (rate : Result (Unit {0})) (db db' : AuthDb)
    → now ≤ later
    → reset d now rate token hashed db ≡ ok db'
    → ((r : Reset) × (find (is_usable now (d.hash token)) db.password_resets ≡ some r)
        × (find (is_of r.user_id) db'.sessions ≡ none)
        × (account_of r.user_id db' ≡ map_found (set_password hashed) (account_of r.user_id db)))
      × (reset d later (ok tt) token other db' ≡ err (api_error 400 request_failed))
unfolding reset
reset_once d now later token hashed other rate db db' h done =
    let r = reset_lem d now later token hashed rate db db' h done in
    ((r.link, r.usable, r.ended, r.renewed), ground (arith, r.spent))
