-- ===== src/Auth/Bound.antt =====
-- How many sessions an account may have (apps/api/src/auth.ts `issueSession`).
use astra_file_host.Base.{
  ℕ, ◌-◌, ◌≤◌, ◌≡◌, refl, ◌∙◌, Bool, false, Option, some, List, [], ◌∷◌, ◌==◌, find, select,
  count_where, arith,
}
use astra_file_host.Entitlements.{or_else}
use astra_file_host.Auth.{AuthDb, Digests, Session}
use astra_file_host.Auth.Sessions.{Fresh, newest_sessions, issue_session, new_session}

abbrev pub is_of : ℕ → Session → Bool
is_of user s = s.user_id == user

newest_sessions_count :
    (user n : ℕ) (ss : List Session) → count_where (is_of user) (newest_sessions user n ss) ≤ n
unfolding newest_sessions
newest_sessions_count user n [] = omega arith
newest_sessions_count user n (s ∷ ss) =
    ground (arith, newest_sessions_count user n ss, newest_sessions_count user (n - 1) ss)

newest_sessions_others :
    (user other n : ℕ) (ss : List Session)
    → (other == user) ≡ false
    → select (is_of other) (newest_sessions user n ss) ≡ select (is_of other) ss
unfolding newest_sessions
newest_sessions_others user other n [] h = refl
newest_sessions_others user other n (s ∷ ss) h =
    ground
      (arith, newest_sessions_others user other n ss, newest_sessions_others user other (n - 1) ss)

-- After a session is issued its account has at most the configured number of sessions, the new one is
-- the first of them, and the sessions of every other account are as before, for a number of at least 1.
pub issue_session-bound :
    (d : Digests) (now user : ℕ) (days : Option ℕ) (fresh : Fresh) (db : AuthDb) (other : ℕ)
    → 1 ≤ db.settings.max_sessions
    → (other == user) ≡ false
    → (count_where (is_of user) (issue_session d now user days fresh db).sessions
        ≤ db.settings.max_sessions)
      × ((s : Session) × (find (is_of user) (issue_session d now user days fresh db).sessions
            ≡ some s)
          × (s.token_hash ≡ d.hash fresh.token))
      × (select (is_of other) (issue_session d now user days fresh db).sessions
          ≡ select (is_of other) db.sessions)
unfolding issue_session newest_sessions
issue_session-bound d now user days fresh db other h apart = (
  newest_sessions_count user db.settings.max_sessions
      (new_session d now user (or_else days db.settings.session_days) fresh ∷ db.sessions),
  (new_session d now user (or_else days db.settings.session_days) fresh, ground (arith, h), refl),
  newest_sessions_others user other db.settings.max_sessions
        (new_session d now user (or_else days db.settings.session_days) fresh ∷ db.sessions) apart
      ∙ skipped,
)
  where
    skipped :
        select
          (is_of other)
          (new_session d now user (or_else days db.settings.session_days) fresh ∷ db.sessions)
        ≡ select (is_of other) db.sessions
    skipped = ground (arith, apart)
