-- ===== src/Uploads/Abandoned.antt =====
-- What `abortUpload` of apps/api/src/uploads.ts does to the storage and to each table.
use astra_file_host.Base.{
  ℕ, ◌≡◌, refl, sym, subst, true, false, ◌&&◌, ◌==◌, ◌⊎◌, inl, inr, Option, none, some, ◌∷◌, arith,
  find, find-update_where, find-update_other, find-holds, Bool-cases, Result-cases, Result, ok, err,
  api_error, request_failed,
}
use astra_file_host.Database.{Db, Upload, FileRow, FileObject, aborted, purged, upload_aborted}
use astra_file_host.Storage.{ObjectStore}
use astra_file_host.Transaction.{World, tx}
use astra_file_host.Uploads.{owned_upload, set_state, touch}
use astra_file_host.Uploads.Abort.{
  is_committed, is_over, purge_file, discard, drop_parts, abort_row, abort_upload,
}

-- The rows after an abort of `u`, found by their keys: those of the upload, and the others, which stay.
pub record Discarded (now id owner actor : ℕ) (u : Upload) (db db' : Db) : Type 0 where
  pub row : owned_upload id owner db' ≡ ok (record u { state = aborted; updated_at = now })
  pub file :
      (f : FileRow)
      → find (λ (x : FileRow). x.id == u.file_id) db.files ≡ some f
      → (g : FileRow) × (find (λ (x : FileRow). x.id == u.file_id) db'.files ≡ some g)
        × (g.state ≡ purged)
        × (g.deleted_at ≡ some now)
        × (g.object_id ≡ f.object_id)
  pub object :
      (o : FileObject)
      → db.objects u.object_id ≡ some o
      → db'.objects u.object_id ≡ some (record o { state = purged })
  pub other_uploads :
      (k : ℕ)
      → (k == u.id) ≡ false
      → find (λ (x : Upload). x.id == k) db'.uploads ≡ find (λ (x : Upload). x.id == k) db.uploads
  pub other_files :
      (k : ℕ)
      → (k == u.file_id) ≡ false
      → find (λ (x : FileRow). x.id == k) db'.files ≡ find (λ (x : FileRow). x.id == k) db.files
  pub other_objects : (k : ℕ) → (k == u.object_id) ≡ false → db'.objects k ≡ db.objects k
  pub logged :
      db'.audit_logs
      ≡ record { actor = some actor; action = upload_aborted; target = u.id } ∷ db.audit_logs

discard-Discarded :
    (now id owner actor : ℕ) (u : Upload) (db : Db)
    → owned_upload id owner db ≡ ok u
    → Discarded now id owner actor u db (discard now actor u db)
unfolding discard owned_upload
discard-Discarded now id owner actor u db found = record {
  row =
      rw
        (find-update_where (λ x. x.id == id && x.owner_id == owner) (λ x. x.id == u.id)
          (set_state now aborted) db.uploads (λ x. refl))
        (ground arith);
  file = λ f e. (
    touch (purge_file now f),
    rw
        (
          find-update_where (λ (x : FileRow). x.id == u.file_id) (λ x. x.id == u.file_id)
              (λ x. touch (purge_file now x)) db.files (λ x. refl),
          e,
        )
        (ground (arith, find-holds (λ (x : FileRow). x.id == u.file_id) db.files f e)),
    refl,
    refl,
    refl,
  );
  object = λ o e. ground (arith, e);
  other_uploads = λ k e.
      find-update_other (λ (x : Upload). x.id == k) (λ x. x.id == u.id) (set_state now aborted)
        db.uploads (λ x. refl) (λ x same. ground (arith, same, e));
  other_files = λ k e.
      find-update_other (λ (x : FileRow). x.id == k) (λ x. x.id == u.file_id)
        (λ x. touch (purge_file now x)) db.files (λ x. refl) (λ x same. ground (arith, same, e));
  other_objects = λ k e. ground (arith, e);
  logged = refl;
}

module _ (os : ObjectStore) where
  open os use {Store}

  -- The call of the storage for a session, if there is one: its answer and the storage after it.
  abbrev pub SessionCall : Option ℕ → Upload → Store → Result (Unit {0}) → Store → Type 0
  SessionCall none u before r after = (r ≡ ok tt) × (after ≡ before)
  SessionCall (some session) u before r after = os.abort before u.object_key session ≡ (r, after)

  drop_outcome :
      (u : Upload) (session : Option ℕ) (w : World Store)
      → (r : Result (Unit {0})) × (s : Store) × (drop_parts os u session w
          ≡ (r, record w { store = s }))
        × SessionCall session u w.store r s
  unfolding drop_parts
  drop_outcome u none w = (ok tt, w.store, refl, (refl, refl))
  drop_outcome u (some session) w = (
    (os.abort w.store u.object_key session).0,
    (os.abort w.store u.object_key session).1,
    refl,
    refl,
  )

  abbrev pub AbortEffects : ℕ → ℕ → ℕ → ℕ → World Store → Result (Unit {0}) × World Store → Type 0
  AbortEffects now id owner actor w (err e, w') =
      (w'.db ≡ w.db)
      × (((owned_upload id owner w.db ≡ err e) × (w' ≡ w))
          ⊎ ((u : Upload) × (owned_upload id owner w.db ≡ ok u)
              × (((is_committed u.state ≡ true) × (e ≡ api_error 409 request_failed) × (w' ≡ w))
                  ⊎ SessionCall u.storage_upload_id u w.store (err e) w'.store)))
  AbortEffects now id owner actor w (ok r, w') =
      (u : Upload) × (owned_upload id owner w.db ≡ ok u)
      × (((is_over u.state ≡ true) × (w' ≡ w))
          ⊎ ((is_committed u.state ≡ false)
              × SessionCall u.storage_upload_id u w.store (ok tt) w'.store
              × Discarded now id owner actor u w.db w'.db))

  module _ (now id owner actor : ℕ) (w : World Store) where
    ended :
        (p : Result (Unit {0}) × World Store)
        → abort_upload os now id owner actor w ≡ p
        → AbortEffects now id owner actor w p
        → AbortEffects now id owner actor w (abort_upload os now id owner actor w)
    ended p same h = subst (AbortEffects now id owner actor w) (sym same) h

    after_drop :
        (u : Upload) (r : Result (Unit {0})) (s : Store)
        → owned_upload id owner w.db ≡ ok u
        → is_committed u.state ≡ false
        → is_over u.state ≡ false
        → drop_parts os u u.storage_upload_id w ≡ (r, record w { store = s })
        → SessionCall u.storage_upload_id u w.store r s
        → AbortEffects now id owner actor w (abort_upload os now id owner actor w)
    unfolding abort_upload tx abort_row
    after_drop u (ok r) s found open_state ongoing dropped call =
        ended (ok tt, record { db = discard now actor u w.db; store = s })
          (rw (found, open_state, ongoing, dropped) refl)
          (u, found, inr (open_state, call, discard-Discarded now id owner actor u w.db found))
    after_drop u (err e) s found open_state ongoing dropped call =
        ended (err e, record { db = w.db; store = s })
          (rw (found, open_state, ongoing, dropped) refl) (refl, inr (u, found, inr call))

    -- However an abort ends. If it throws, the database is as before, and: there is no such upload of the
    -- owner; or it is available or being completed, the answer is 409 and the storage is not called; or
    -- the storage refused to end the session. If it returns, the upload was the owner's; and it was over
    -- already and nothing has changed, or the storage has answered the call that ends its session, if it
    -- had one, and is what that call left, the upload is aborted, its file and its object, if they are
    -- there, are purged, the file deleted now, the uploads, files and objects under other keys are as
    -- before, and the abort is logged.
    pub abort_upload_effects :
        AbortEffects now id owner actor w (abort_upload os now id owner actor w)
    unfolding abort_upload tx abort_row
    abort_upload_effects = elim (Result-cases (owned_upload id owner w.db)) [
      | inr (e, missing) ↦ ended (err e, w) (rw missing refl) (refl, inl (missing, refl))
      | inl (u, found) ↦ elim (Bool-cases (is_committed u.state)) [
        | inl committed ↦
            ended (err (api_error 409 request_failed), w) (rw (found, committed) refl)
              (refl, inr (u, found, inl (committed, refl, refl)))
        | inr open_state ↦ elim (Bool-cases (is_over u.state)) [
          | inl over ↦
              ended (ok tt, w) (rw (found, open_state, over) refl) (u, found, inl (over, refl))
          | inr ongoing ↦
              let (r, s, dropped, call) = drop_outcome u u.storage_upload_id w in
              after_drop u r s found open_state ongoing dropped call
        ]
      ]
    ]
