-- ===== src/Auth/Access.antt =====
-- What the hook of apps/api/src/auth.ts lets through, and what the guards make of it.
use astra_file_host.Base.{
  ℕ, ◌≤◌, ◌≡◌, refl, ◌⊎◌, inl, inr, ap, sym, ◌∙◌, Bool, true, not, Option, none, some, ltb, find,
  arith, ok, err, api_error, request_failed, >>=-eq-ok, throw_if-eq-ok, ok-injective, Bool-cases,
  Option-cases, plan_api,
}
use astra_file_host.Settings.{PlanPolicy}
use astra_file_host.Entitlements.{effective}
use astra_file_host.Auth.{
  AuthDb, Account, ApiKey, Digests, Identity, Request, Role, Session, Token, nobody,
}
use astra_file_host.Auth.Guards.{allow, require_user, require_identity, is_active, may_sign_in}
use astra_file_host.Auth.Attach.{
  is_usable_key, account_of, needed_scope, covers, key_owner, active_owner, attach_key,
  key_identity, session_identity, admit_key, is_live_session, attach_session, attach_cookie,
  attach_auth,
}

-- A request that is let through by its API key.
pub record ByKey (d : Digests) (now : ℕ) (req : Request) (db : AuthDb) (who : Identity)
    : Type 0 where
  bearer : Token
  key : ApiKey
  user : Account
  policy : PlanPolicy
  sent : req.bearer ≡ some bearer
  short : bearer.length ≤ 256
  usable : find (is_usable_key now (d.hash bearer.value)) db.api_keys ≡ some key
  known : account_of key.owner_id db ≡ some user
  is_on : is_active user.status ≡ true
  in_force : effective user.id db.main ≡ ok policy
  included : policy.api_enabled ≡ true
  scope : covers key.scopes (needed_scope req.area req.is_get) ≡ true
  taken : who ≡ key_identity key user

-- A request that is let through by the cookie of a session.
pub record BySession (d : Digests) (now : ℕ) (req : Request) (db : AuthDb) (who : Identity)
    : Type 0 where
  cookie : Token
  session : Session
  user : Account
  alone : req.bearer ≡ none
  sent : req.cookie ≡ some cookie
  live : find (is_live_session now (d.hash cookie.value)) db.sessions ≡ some session
  known : account_of session.user_id db ≡ some user
  is_on : may_sign_in user.status ≡ true
  taken : who ≡ session_identity session user

key_owner_lem :
    (now digest : ℕ) (db : AuthDb) (k : ApiKey) (u : Account)
    → active_owner (key_owner now digest db) ≡ ok (k, u)
    → (find (is_usable_key now digest) db.api_keys ≡ some k)
      × (account_of k.owner_id db ≡ some u)
      × (is_active u.status ≡ true)
key_owner_lem now digest db k u h =
    elim (Option-cases (find (is_usable_key now digest) db.api_keys)) [
      | inl absent ↦ absurd (ground (arith, absent, h))
      | inr (x, found) ↦ elim (Option-cases (account_of x.owner_id db)) [
        | inl unknown ↦ absurd (ground (arith, found, unknown, h))
        | inr (y, known) ↦ elim (Bool-cases (is_active y.status)) [
          | inr off ↦ absurd (ground (arith, found, known, off, h))
          | inl on ↦
              let same_key : x ≡ k = ground (arith, found, known, on, h) in
              let same_user : y ≡ u = ground (arith, found, known, on, h) in
              (
                found ∙ ap some same_key,
                ap (λ (t : ApiKey). account_of t.owner_id db) (sym same_key)
                    ∙ known
                    ∙ ap some same_user,
                ap (λ (t : Account). is_active t.status) (sym same_user) ∙ on,
              )
        ]
      ]
    ]

attach_key_lem :
    (d : Digests) (now : ℕ) (req : Request) (bearer : Token) (db db' : AuthDb) (who : Identity)
    → req.bearer ≡ some bearer
    → attach_key d now req bearer db ≡ ok (who, db')
    → ByKey d now req db who
unfolding attach_key admit_key
attach_key_lem d now req bearer db db' who sent h =
    let (short, owning) =
      throw_if-eq-ok (ltb 256 bearer.length) (api_error 401 request_failed) _ h in
    let (found, owned, admitted) =
      >>=-eq-ok (active_owner (key_owner now (d.hash bearer.value) db)) _ owning in
    admitted_lem (ground (arith, short)) found.0 found.1
      (key_owner_lem now (d.hash bearer.value) db found.0 found.1 owned) admitted
  where
    admitted_lem :
        bearer.length ≤ 256
        → (key : ApiKey) (user : Account)
        → (find (is_usable_key now (d.hash bearer.value)) db.api_keys ≡ some key)
          × (account_of key.owner_id db ≡ some user)
          × (is_active user.status ≡ true)
        → admit_key now req db key user ≡ ok (who, db')
        → ByKey d now req db who
    admitted_lem short key user (usable, known, on) h =
        let (policy, in_force, checking) = >>=-eq-ok (effective user.id db.main) _ h in
        let (included, scoping) =
          throw_if-eq-ok (not policy.api_enabled) (api_error 403 plan_api) _ checking in
        let (scope, answer) =
          throw_if-eq-ok (not (covers key.scopes (needed_scope req.area req.is_get)))
            (api_error 403 request_failed) _ scoping in
        record {
          bearer = bearer;
          key = key;
          user = user;
          policy = policy;
          sent = sent;
          short = short;
          usable = usable;
          known = known;
          is_on = on;
          in_force = in_force;
          included = ground (arith, included);
          scope = ground (arith, scope);
          taken = ap (λ t. t.0) (sym (ok-injective answer));
        }

attach_session_lem :
    (d : Digests) (now : ℕ) (req : Request) (cookie : Token) (o : Option Session) (db db' : AuthDb)
    (who : Identity)
    → req.bearer ≡ none
    → req.cookie ≡ some cookie
    → find (is_live_session now (d.hash cookie.value)) db.sessions ≡ o
    → attach_session now o db ≡ ok (who, db')
    → (who ≡ nobody) ⊎ BySession d now req db who
attach_session_lem d now req cookie none db db' who alone sent live h =
    inl (ap (λ t. t.0) (sym (ok-injective h)))
attach_session_lem d now req cookie (some s) db db' who alone sent live h =
    elim (Option-cases (account_of s.user_id db)) [
      | inl unknown ↦ inl (ground (arith, unknown, h))
      | inr (u, known) ↦ elim (Bool-cases (may_sign_in u.status)) [
        | inr off ↦ absurd (ground (arith, known, off, h))
        | inl on ↦ inr (record {
          cookie = cookie;
          session = s;
          user = u;
          alone = alone;
          sent = sent;
          live = live;
          known = known;
          is_on = on;
          taken = ground (arith, known, on, h);
        })
      ]
    ]

attach_cookie_lem :
    (d : Digests) (now : ℕ) (req : Request) (o : Option Token) (db db' : AuthDb) (who : Identity)
    → req.bearer ≡ none
    → req.cookie ≡ o
    → attach_cookie d now o db ≡ ok (who, db')
    → (who ≡ nobody) ⊎ BySession d now req db who
attach_cookie_lem d now req none db db' who alone sent h =
    inl (ap (λ t. t.0) (sym (ok-injective h)))
attach_cookie_lem d now req (some c) db db' who alone sent h =
    elim (Bool-cases (ltb 256 c.length)) [
      | inl long ↦ inl (ground (arith, long, h))
      | inr short ↦
          attach_session_lem d now req c (find (is_live_session now (d.hash c.value)) db.sessions)
            db db' who alone sent refl (ground (arith, short, h))
    ]

allow-key :
    (roles : Role → Bool) (key : ApiKey) (user : Account)
    → is_active user.status ≡ true
    → allow roles (key_identity key user) ≡ err (api_error 403 request_failed)
unfolding allow require_user require_identity
allow-key roles key user on = ground (arith, on)

-- Whoever the hook of authentication takes a request for: nobody; or, for a request with no key, the
-- user of an unexpired session whose token it sent, active or pending; or the active owner of an API
-- key that it sent, neither revoked nor expired, whose plan includes the API and whose scopes have the
-- one that the route needs. A request with a key is refused by every guard of the staff.
pub attach_auth_outcome :
    (d : Digests) (now : ℕ) (req : Request) (roles : Role → Bool) (db db' : AuthDb) (who : Identity)
    → attach_auth d now req db ≡ ok (who, db')
    → ((who ≡ nobody) ⊎ BySession d now req db who)
      ⊎ (ByKey d now req db who × (allow roles who ≡ err (api_error 403 request_failed)))
unfolding attach_auth
attach_auth_outcome d now req roles db db' who h = elim (Option-cases req.bearer) [
  | inl alone ↦
      inl (attach_cookie_lem d now req req.cookie db db' who alone refl (ground (arith, alone, h)))
  | inr (bearer, sent) ↦
      let r = attach_key_lem d now req bearer db db' who sent (ground (arith, sent, h)) in
      inr (r, ap (allow roles) r.taken ∙ allow-key roles r.key r.user r.is_on)
]
