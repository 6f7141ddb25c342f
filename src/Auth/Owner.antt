-- ===== src/Auth/Owner.antt =====
-- The owner of the installation: the handlers of apps/api/src/auth.ts and
-- apps/api/src/account-security.ts that write accounts, taken in any order.
use astra_file_host.Base.{ℕ, ◌≤◌, ◌≡◌, arith, Result, ok}
use astra_file_host.Auth.{AuthDb, Digests, Identity}
use astra_file_host.Auth.Sessions.{Fresh}
use astra_file_host.Auth.Accounts.{Credentials, setup, guest, register, login}
use astra_file_host.Auth.Recovery.{reset, password}
use astra_file_host.Auth.Email.{verify_email}
use astra_file_host.Auth.Roles.{
  owners, setup-owners, guest-owners, register-owners, login-owners, reset-owners, password-owners,
  verify_email-owners,
}

-- A successful request. What a request brings is arbitrary.
pub data AuthStep (d : Digests) (db db' : AuthDb) : Type 0 where
  set_up :
      (now : ℕ) (rate : Result (Unit {0})) (bootstrap token id : ℕ) (c : Credentials)
      (fresh : Fresh)
      → setup d now rate bootstrap token id c fresh db ≡ ok db'
      → AuthStep d db db'
  came_as_guest :
      (now : ℕ) (rate : Result (Unit {0})) (req : Identity) (id : ℕ) (fresh : Fresh)
      → guest d now rate req id fresh db ≡ ok db'
      → AuthStep d db db'
  registered :
      (now : ℕ) (rate : Result (Unit {0})) (req : Identity) (id : ℕ) (c : Credentials)
      (fresh : Fresh)
      → register d now rate req id c fresh db ≡ ok db'
      → AuthStep d db db'
  logged_in :
      (now : ℕ) (by_address by_email : Result (Unit {0})) (dummy : ℕ) (req : Identity)
      (email typed : ℕ) (fresh : Fresh)
      → login d now by_address by_email dummy req email typed fresh db ≡ ok db'
      → AuthStep d db db'
  was_reset :
      (now : ℕ) (rate : Result (Unit {0})) (token hashed : ℕ)
      → reset d now rate token hashed db ≡ ok db'
      → AuthStep d db db'
  changed_password :
      (req : Identity) (current hashed : ℕ)
      → password d req current hashed db ≡ ok db'
      → AuthStep d db db'
  confirmed_email :
      (now : ℕ) (rate : Result (Unit {0})) (token : ℕ)
      → verify_email d now rate token db ≡ ok db'
      → AuthStep d db db'

pub data Reach (d : Digests) (start : AuthDb) : AuthDb → Type 0 where
  here : Reach d start start
  next : {db db' : AuthDb} → Reach d start db → AuthStep d db db' → Reach d start db'

AuthStep-owners :
    (d : Digests) (db db' : AuthDb)
    → AuthStep d db db'
    → owners db.accounts ≤ 1
    → owners db'.accounts ≤ 1
AuthStep-owners d db db' (set_up now rate bootstrap token id c fresh h) one =
    omega (arith, setup-owners d db db' now rate bootstrap token id c fresh h)
AuthStep-owners d db db' (came_as_guest now rate req id fresh h) one =
    omega (arith, guest-owners d db db' now rate req id fresh h, one)
AuthStep-owners d db db' (registered now rate req id c fresh h) one =
    omega (arith, register-owners d db db' now rate req id c fresh h, one)
AuthStep-owners d db db' (logged_in now by_address by_email dummy req email typed fresh h) one =
    omega (arith, login-owners d db db' now by_address by_email dummy req email typed fresh h, one)
AuthStep-owners d db db' (was_reset now rate token hashed h) one =
    omega (arith, reset-owners d db db' now rate token hashed h, one)
AuthStep-owners d db db' (changed_password req current hashed h) one =
    omega (arith, password-owners d db db' req current hashed h, one)
AuthStep-owners d db db' (confirmed_email now rate token h) one =
    omega (arith, verify_email-owners d db db' now rate token h, one)

-- Whatever set-ups, guests, registrations, logins, resets, changes of a password and confirmations of
-- an email succeed, in any order and however often: an installation that has at most one owner never
-- gets a second one.
pub Reach-owners :
    (d : Digests) (start db : AuthDb)
    → owners start.accounts ≤ 1
    → Reach d start db
    → owners db.accounts ≤ 1
Reach-owners d start db one here = one
Reach-owners d start db one (next {db = before} r step) =
    AuthStep-owners d before db step (Reach-owners d start before one r)
