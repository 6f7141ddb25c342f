-- ===== src/Uploads/Recovery.antt =====
-- A completion that was cut off after the storage had completed the object can be repeated.
use astra_file_host.Base.{
  ℕ, ◌≡◌, refl, true, Option, some, arith, find, ◌==◌, Result, ok, err, Result-cases, inl, inr,
  find-update_where, find-holds,
}
use astra_file_host.Settings.{PlanPolicy}
use astra_file_host.Database.{Db, Upload, FileRow, User, audit, upload_completed}
use astra_file_host.Storage.{ObjectStore, Head}
use astra_file_host.Entitlements.{effective}
use astra_file_host.Shares.Capability.{Fresh, share_allowance, create_share_row}
use astra_file_host.Transaction.{World, settle, tx, then_run, modify, gets, pure, ◌>>=◌, ◌>>◌}
use astra_file_host.Uploads.{owned_upload, can_complete, touch, set_file_state, landing}
use astra_file_host.Uploads.Finalize.{
  Finalized, activate, ensure_object, enqueue_jobs, grant_share, offer_share, share_file, publish,
  finish, complete_upload, finalize_row, finalize,
}

module _ (os : ObjectStore) (fresh : Fresh) (u : Upload) (owner : ℕ) where
  open os use {Store}

  -- What the automatic share reads: the row of the file, the owner, and the owner's policy.
  pub record CanShare (db : Db) : Type 0 where
    pub file : FileRow
    pub user : User
    pub policy : PlanPolicy
    pub found : find (λ (r : FileRow). r.id == u.file_id) db.files ≡ some file
    pub there : db.users owner ≡ some user
    pub valid : effective owner db ≡ ok policy

  grant_share_succeeds :
      (w : World Store)
      → CanShare w.db
      → (x : Option ℕ) × ((grant_share os fresh u owner w).0 ≡ ok x)
  unfolding grant_share offer_share share_file share_allowance create_share_row
  grant_share_succeeds w c = elim (Result-cases (grant_share os fresh u owner w).0) [
    | inl success ↦ success
    | inr (e, q) ↦ absurd (ground (arith, c.found, c.there, c.valid))
  ]

  publish_succeeds :
      (w : World Store) → CanShare w.db → (r : Finalized) × ((publish os fresh owner u w).0 ≡ ok r)
  unfolding publish
  publish_succeeds w c = published (grant_share os fresh u owner w) (grant_share_succeeds w c)
    where
      published :
          (p : Result (Option ℕ) × World Store)
          → (x : Option ℕ) × (p.0 ≡ ok x)
          → (r : Finalized) × ((then_run p (λ s.
                modify (enqueue_jobs os fresh.now u)
                >> (modify (audit (some owner) upload_completed u.file_id)
                    >> (gets (λ db. ok (landing db.settings)) >>= λ state.
                        pure (record {
                          file_id = u.file_id;
                          share_secret = s;
                          state = some state;
                        }))))).0
              ≡ ok r)
      published (ok x, v) h = (_, refl)
      published (err e, v) h = absurd (ground arith)

  CanShare-activate :
      (h : Head) (mime : ℕ) (db : Db) → CanShare db → CanShare (activate fresh.now u h mime db)
  unfolding activate effective
  CanShare-activate h mime db c = record {
    file = touch (set_file_state (landing db.settings) c.file);
    user = c.user;
    policy = c.policy;
    found = ground (
      arith,
      find-update_where (λ (r : FileRow). r.id == u.file_id) (λ r. r.id == u.file_id)
          (λ r. touch (set_file_state (landing db.settings) r)) db.files (λ r. refl),
      c.found,
      find-holds (λ (r : FileRow). r.id == u.file_id) db.files c.file c.found,
    );
    there = c.there;
    valid = c.valid;
  }

  finish_succeeds :
      (w : World Store) (h : Head) (mime : ℕ)
      → h.size ≡ u.size
      → os.prefix_mime w.store u.object_key ≡ ok mime
      → CanShare w.db
      → (r : Finalized) × ((finish os fresh owner u h w).0 ≡ ok r)
  unfolding finish
  finish_succeeds w h mime whole detected c =
      let (r, e) =
        publish_succeeds (record w { db = activate fresh.now u h mime w.db })
          (CanShare-activate h mime w.db c) in
      (r, ground (arith, e))

  settle_succeeds :
      (before : Db) (p : Result Finalized × World Store) (r : Finalized)
      → p.0 ≡ ok r
      → (settle before p).0 ≡ ok r
  settle_succeeds before (ok x, w) r h = h
  settle_succeeds before (err e, w) r h = absurd (ground arith)

  -- A completion that finds the object of the upload at the storage, as after a crash of an earlier one,
  -- succeeds, whatever parts are recorded or listed: if the upload is the owner's and in a state that may
  -- complete, the object has the declared size, its first bytes can be read, the file and the owner are
  -- there, and the owner's policy is valid.
  pub finalize_recovers :
      (id : ℕ) (w : World Store) (h : Head) (mime : ℕ)
      → owned_upload id owner w.db ≡ ok u
      → can_complete u.state ≡ true
      → os.head w.store u.object_key ≡ ok h
      → h.size ≡ u.size
      → os.prefix_mime w.store u.object_key ≡ ok mime
      → CanShare w.db
      → (r : Finalized) × ((finalize os fresh id owner w).0 ≡ ok r)
  unfolding finalize tx finalize_row complete_upload ensure_object
  finalize_recovers id w h mime owned open_state seen whole detected c =
      let (r, e) = finish_succeeds w h mime whole detected c in
      (r, settle_succeeds w.db _ r (ground (arith, owned, open_state, seen, e)))
