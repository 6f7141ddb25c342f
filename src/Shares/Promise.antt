-- ===== src/Shares/Promise.antt =====
-- What a share promises its owner.
use astra_file_host.Base.{
  leb, ◌||◌, ℕ, suc, ◌≤◌, ◌<◌, ◌≡◌, ◌≢◌, refl, Bool, true, false, ◌&&◌, Option, none, some, List,
  [], ◌∷◌, ◌==◌, arith, All, if◌then◌else◌, find, find-update_where, find-holds, map_found, ok, err,
  Result-cases, Option-cases, inl, inr, api_error, share_session,
}
use astra_file_host.Database.{Db, Share, ShareAccess, FileRow}
use astra_file_host.Limits.{Surroundings, bandwidth}
use astra_file_host.Shares.Access.{
  active_share, active_owner, is_open, authorize, session_of, is_session, Visitor, revoke,
}
use astra_file_host.Shares.Download.{
  bump, count_download, grant, stored_size, accessible_file, direct_download, holds_file, download,
}

abbrev pub share_of : ℕ → Db → Option Share
share_of id db = find (λ (x : Share). x.id == id) db.shares

-- What a download through a share has checked and done.
pub record Downloaded (at : Surroundings) (v : Visitor) (id file : ℕ) (db db' : Db) : Type 0 where
  pub share : Share
  pub found : share_of id db ≡ some share
  pub opened : is_open at.now share ≡ true
  pub admitted : authorize at.now v share false db ≡ ok tt
  pub held : holds_file at.now db share file ≡ true
  pub row : FileRow
  pub accessible : accessible_file at.now file db ≡ ok row
  pub allowed : bandwidth at row.owner_id (stored_size (db.objects row.object_id)) db ≡ ok tt
  pub counted : db' ≡ count_download share.id (grant at row (some share.id) db)

active_share-eq-ok :
    (now id : ℕ) (db : Db) (s : Share)
    → active_share now id db ≡ ok s
    → (share_of id db ≡ some s) × (is_open now s ≡ true)
unfolding active_share
active_share-eq-ok now id db s h = elim (Option-cases (share_of id db)) [
  | inl missing ↦ absurd (ground arith)
  | inr (x, found) ↦ elim (Result-cases (active_owner (db.users x.owner_id))) [
    | inr (e, q) ↦ absurd (ground arith)
    | inl (u, q) ↦ (ground arith, ground arith)
  ]
]

download-Downloaded :
    (at : Surroundings) (v : Visitor) (id file : ℕ) (db db' : Db)
    → download at v id file db ≡ ok db'
    → Downloaded at v id file db db'
unfolding download direct_download
download-Downloaded at v id file db db' h = elim (Result-cases (active_share at.now id db)) [
  | inr (e, q) ↦ absurd (ground arith)
  | inl (s, q) ↦ elim (Result-cases (authorize at.now v s false db)) [
    | inr (e, k) ↦ absurd (ground arith)
    | inl (t, k) ↦ elim (Result-cases (accessible_file at.now file db)) [
      | inr (e, m) ↦ absurd (ground arith)
      | inl (f, m) ↦
          elim (Result-cases (bandwidth at f.owner_id (stored_size (db.objects f.object_id)) db)) [
            | inr (e, n) ↦ absurd (ground arith)
            | inl (t', n) ↦
                let (found, opened) = active_share-eq-ok at.now id db s q in
                record {
                  share = s;
                  found = found;
                  opened = opened;
                  admitted = k;
                  held = ground arith;
                  row = f;
                  accessible = m;
                  allowed = n;
                  counted = ground arith;
                }
          ]
    ]
  ]
]

download-limit :
    (at : Surroundings) (v : Visitor) (id file : ℕ) (db db' : Db)
    → Downloaded at v id file db db'
    → (s : Share) (m : ℕ) → share_of id db' ≡ some s
    → s.max_downloads ≡ some m
    → 0 < m
    → s.download_count ≤ m
download-limit at v id file db db' d s m found limit pos =
    let same : share_of id db'
        ≡ map_found (λ x. if x.id == d.share.id then bump x else x) (share_of id db) =
      rw d.counted (
        find-update_where (λ (x : Share). x.id == id) (λ x. x.id == d.share.id) bump db.shares
          (λ x. refl)) in
    ground (
      arith,
      d.found,
      d.opened,
      same,
      find-holds (λ (x : Share). x.id == id) db.shares d.share d.found,
    )

-- The share, if there is one, has been downloaded at most as often as its limit allows, if it has one.
abbrev pub within_limit : Option ℕ → ℕ → Bool
within_limit none n = true
within_limit (some m) n = m == 0 || leb n m

abbrev pub is_within : Option Share → Bool
is_within none = true
is_within (some s) = within_limit s.max_downloads s.download_count

limit-is_within :
    (o : Option Share)
    → ((s : Share) (m : ℕ) → o ≡ some s → s.max_downloads ≡ some m → 0 < m → s.download_count ≤ m)
    → is_within o ≡ true
limit-is_within none h = refl
limit-is_within (some s) h = elim (Option-cases s.max_downloads) [
  | inl free ↦ ground arith
  | inr (m, limit) ↦ ground (arith, limit, h s m refl limit)
]

-- A download that is granted through a share was of a file that the share holds and that is available,
-- by a visitor whom the share admits, while the share was open and the owner of the file had bandwidth
-- for it; it records one grant of the stored size and counts as one download of the share; and a limit
-- on its downloads, if there is one, still holds.
pub download_outcome :
    (at : Surroundings) (v : Visitor) (id file : ℕ) (db db' : Db)
    → download at v id file db ≡ ok db'
    → Downloaded at v id file db db' × (is_within (share_of id db') ≡ true)
download_outcome at v id file db db' h =
    let d = download-Downloaded at v id file db db' h in
    (d, limit-is_within (share_of id db') (download-limit at v id file db db' d))

-- A session of an older version of the share is not found.
session_of_stale :
    (now token : ℕ) (s : Share) (xs : List ShareAccess)
    → All (λ (a : ShareAccess). (a.share_id ≡ s.id) → a.version < s.version) xs
    → find (is_session now s token) xs ≡ none
session_of_stale now token s [] h = refl
session_of_stale now token s (a ∷ rest) h =
    ground (arith, session_of_stale now token s rest h.1, h.0)

-- The versions of the sessions of a share are at most its own.
abbrev pub AreCurrent : Share → Db → Type 0
AreCurrent s db =
    All (λ (a : ShareAccess). (a.share_id ≡ s.id) → a.version ≤ s.version) db.share_access

abbrev pub revoked : Share → Share
revoked s = record s { enabled = false; version = suc s.version }

stale :
    (s : Share) (n : ℕ) (xs : List ShareAccess)
    → All (λ (a : ShareAccess). (a.share_id ≡ s.id) → a.version ≤ n) xs
    → s.version ≡ suc n
    → All (λ (a : ShareAccess). (a.share_id ≡ s.id) → a.version < s.version) xs
stale s n [] h e = tt
stale s n (a ∷ rest) h e = (λ i. omega (arith, h.0 i, e), stale s n rest h.1 e)

session_of-stale :
    (now : ℕ) (s : Share) (token : Option ℕ) (db : Db)
    → All (λ (a : ShareAccess). (a.share_id ≡ s.id) → a.version < s.version) db.share_access
    → session_of now s token db ≡ err (api_error 401 share_session)
session_of-stale now s none db h = refl
session_of-stale now s (some token) db h =
    rw (session_of, session_of_stale now token s db.share_access h) refl

revoke-found :
    (owner id : ℕ) (db db' : Db) (s : Share)
    → share_of id db ≡ some s
    → s.owner_id ≡ owner
    → revoke owner id db ≡ ok db'
    → share_of id db' ≡ some (revoked s)
unfolding revoke
revoke-found owner id db db' s found mine h =
    elim (Option-cases (find (λ (x : Share). x.id == id && x.owner_id == owner) db.shares)) [
      | inl missing ↦ absurd (ground arith)
      | inr (x, k) ↦ ground (
        arith,
        find-update_where (λ (x : Share). x.id == id)
            (λ (x : Share). x.id == id && x.owner_id == owner) revoked db.shares (λ x. refl),
        find-holds (λ (x : Share). x.id == id) db.shares s found,
      )
    ]

revoke-share_access :
    (owner id : ℕ) (db db' : Db) → revoke owner id db ≡ ok db' → db'.share_access ≡ db.share_access
unfolding revoke
revoke-share_access owner id db db' h =
    elim (Option-cases (find (λ (x : Share). x.id == id && x.owner_id == owner) db.shares)) [
      | inl missing ↦ absurd (ground arith)
      | inr (x, k) ↦ ground arith
    ]

not_admitted :
    (now : ℕ) (v : Visitor) (unlock : Bool) (s : Share) (db : Db)
    → All (λ (a : ShareAccess). (a.share_id ≡ s.id) → a.version < s.version) db.share_access
    → authorize now v s unlock db ≢ ok tt
unfolding authorize
not_admitted now v unlock s db h e = ground (arith, session_of-stale now s v.token_hash db h)

-- After its owner has revoked a share, nobody can open it; and even if it is enabled again later,
-- without another change of its version, no session that was given out before the revocation is
-- admitted, where the sessions had versions of the share up to its own.
pub revoke_outcome :
    (later owner id : ℕ) (v : Visitor) (unlock : Bool) (db db' : Db) (s : Share)
    → share_of id db ≡ some s
    → s.owner_id ≡ owner
    → AreCurrent s db
    → revoke owner id db ≡ ok db'
    → (share_of id db' ≡ some (revoked s))
      × ((x : Share) → active_share later id db' ≢ ok x)
      × (authorize later v (record (revoked s) { enabled = true }) unlock db' ≢ ok tt)
revoke_outcome later owner id v unlock db db' s found mine current h =
    let after = revoke-found owner id db db' s found mine h in
    let sessions : db'.share_access ≡ db.share_access = revoke-share_access owner id db db' h in
    (
      after,
      λ x opened. closed later x db' (revoked s) after refl opened,
      not_admitted later v unlock (record (revoked s) { enabled = true }) db'
          (rw sessions
            (stale (record (revoked s) { enabled = true }) s.version db.share_access current refl)),
    )
  where
    closed :
        (now : ℕ) (x : Share) (db : Db) (r : Share)
        → share_of id db ≡ some r
        → r.enabled ≡ false
        → active_share now id db ≢ ok x
    closed now x db r there off opened = ground (arith, active_share-eq-ok now id db x opened)
