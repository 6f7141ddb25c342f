-- ===== src/Auth/Sessions.antt =====
-- apps/api/src/auth.ts `issueSession` and the sessions of apps/api/src/account-security.ts. A list of
-- sessions stands with the newest first. The address and the device that a session notes are left out.
use astra_file_host.Base.{
  ℕ, ◌+◌, ◌*◌, ◌-◌, Bool, false, ◌&&◌, not, Option, none, some, List, [], ◌∷◌, ◌==◌, find, select,
  update_where, if◌then◌else◌, Result, ok, ◌>>=◌, require_value,
}
use astra_file_host.Database.{audit, session_renamed, session_revoked, sessions_others_revoked}
use astra_file_host.Entitlements.{or_else}
use astra_file_host.Auth.{AuthDb, Digests, Session, Identity}
use astra_file_host.Auth.Guards.{require_identity}

abbrev pub day_ms : ℕ
day_ms = 86400000

-- `DELETE … WHERE user_id=$1 AND id IN (SELECT … ORDER BY created_at DESC OFFSET $2)`: what stays.
unfoldable pub newest_sessions : ℕ → ℕ → List Session → List Session
newest_sessions user n [] = []
newest_sessions user n (s ∷ ss) =
    let others = newest_sessions user n ss in
    let fewer = newest_sessions user (n - 1) ss in
    if not (s.user_id == user) then s ∷ others else if n == 0 then fewer else s ∷ fewer

-- What the server draws for a session: the id of the row and the token.
pub record Fresh : Type 0 where
  pub id : ℕ
  pub token : ℕ

abbrev pub new_session : Digests → ℕ → ℕ → ℕ → Fresh → Session
new_session d now user days fresh = record {
  id = fresh.id;
  user_id = user;
  token_hash = d.hash fresh.token;
  expires_at = now + days * day_ms;
  created_at = now;
  last_seen_at = now;
  friendly_name = none;
}

unfoldable pub issue_session : Digests → ℕ → ℕ → Option ℕ → Fresh → AuthDb → AuthDb
unfolding newest_sessions
issue_session d now user days fresh db = record db {
  sessions =
      newest_sessions user db.settings.max_sessions
        (new_session d now user (or_else days db.settings.session_days) fresh ∷ db.sessions);
}

-- `DELETE FROM … WHERE p`
abbrev pub delete_where {ℓ} : {A : Type ℓ} → (A → Bool) → List A → List A
delete_where p xs = select (λ x. not (p x)) xs

abbrev pub end_session : ℕ → AuthDb → AuthDb
end_session id db = record db { sessions = delete_where (λ s. s.id == id) db.sessions }

abbrev pub end_sessions_of : ℕ → AuthDb → AuthDb
end_sessions_of user db = record db { sessions = delete_where (λ s. s.user_id == user) db.sessions }

-- `id<>$2`, which is not true of any row if `$2` is null.
abbrev pub is_other : Option ℕ → ℕ → Bool
is_other none id = false
is_other (some current) id = not (id == current)

abbrev pub end_other_sessions : ℕ → Option ℕ → AuthDb → AuthDb
end_other_sessions user current db = record db {
  sessions = delete_where (λ s. s.user_id == user && is_other current s.id) db.sessions;
}

abbrev pub set_name : ℕ → Session → Session
set_name name s = record s { friendly_name = some name }

-- `PATCH /api/auth/sessions/:id`; the name is encrypted by the caller.
unfoldable pub rename_session : Identity → ℕ → ℕ → AuthDb → Result AuthDb
rename_session req id name db = do
  u ← require_identity req
  s ← require_value (find (λ (s : Session). s.id == id && s.user_id == u.id) db.sessions)
  ok (record db {
    sessions = update_where (λ s. s.id == id && s.user_id == u.id) (set_name name) db.sessions;
    main = audit (some u.id) session_renamed id db.main;
  })

-- `DELETE /api/auth/sessions/others`
unfoldable pub revoke_others : Identity → AuthDb → Result AuthDb
revoke_others req db = do
  u ← require_identity req
  ok (record (end_other_sessions u.id req.session_id db) {
    main = audit (some u.id) sessions_others_revoked u.id db.main;
  })

-- `DELETE /api/auth/sessions/:id`
unfoldable pub revoke_session : Identity → ℕ → AuthDb → Result AuthDb
revoke_session req id db = do
  u ← require_identity req
  ok (record db {
    sessions = delete_where (λ s. s.id == id && s.user_id == u.id) db.sessions;
    main = audit (some u.id) session_revoked id db.main;
  })

abbrev pub end_if : Option ℕ → AuthDb → AuthDb
end_if none db = db
end_if (some id) db = end_session id db

-- `POST /api/auth/logout`
abbrev pub logout : Identity → AuthDb → AuthDb
logout req db = end_if req.session_id db
