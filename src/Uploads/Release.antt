-- ===== src/Uploads/Release.antt =====
-- An aborted upload gives back what it had reserved, and can no longer be completed.
use mathlib.Core.Path.{fun_ext}
use astra_file_host.Base.{
  ℕ, ◌+◌, ◌≡◌, refl, true, false, ◌&&◌, ◌⊎◌, inl, inr, arith, find-update_where,
  sum_where-update_one, ◌==◌, if◌then◌else◌, Bool-cases, Result-cases, Result, ok, err, api_error,
  request_failed, ok-injective, sym, ◌∙◌, subst,
}
use astra_file_host.Database.{
  Db, Upload, aborted, reserves, charges, expected_size, used_bytes, reserved_bytes, is_incomplete,
}
use astra_file_host.Storage.{ObjectStore}
use astra_file_host.Transaction.{World, settle, tx, gets, ◌>>=◌}
use astra_file_host.Shares.Capability.{Fresh}
use astra_file_host.Uploads.{owned_upload, set_state, touch}
use astra_file_host.Uploads.Abort.{
  is_committed, is_over, purge_file, purge_object, discard, abort_row, abort_upload,
}
use astra_file_host.Uploads.Finalize.{complete_upload, finalize_row, finalize}
use astra_file_host.Uploads.Quota.{IsLinked, expected_size-activate}

-- An aborted upload holds nothing: its bytes leave the reservation, and its file is not charged.
module _ (now actor : ℕ) (u : Upload) (db : Db) (l : IsLinked db u) (owner : ℕ) where
  discard-used : used_bytes (discard now actor u db) owner ≡ used_bytes db owner
  unfolding used_bytes discard
  discard-used =
      let after = discard now actor u db in
      let same_sizes : (k : ℕ) → expected_size after k ≡ expected_size db k =
        λ k. expected_size-activate db after u.object_id k purge_object (λ o. refl) refl in
      rw (fun_ext {f = expected_size after} {g = expected_size db} same_sizes) (
        ground (
          arith,
          sum_where-update_one (charges owner) (λ f. f.id == u.file_id)
              (λ f. expected_size db f.object_id) (λ f. touch (purge_file now f)) db.files l.file
              l.file_found l.file_once,
        ))

  discard-reserved :
      is_incomplete u.state ≡ true
      → reserved_bytes (discard now actor u db) owner + (if u.owner_id == owner then u.size else 0)
        ≡ reserved_bytes db owner
  unfolding reserved_bytes discard
  discard-reserved open_state = ground (
    arith,
    sum_where-update_one (reserves owner) (λ x. x.id == u.id) (λ x. x.size) (set_state now aborted)
        db.uploads u l.row_found l.row_once,
  )

module _ (os : ObjectStore) where
  open os use {Store}

  -- What a successful abort has done.
  pub record Aborted (now actor : ℕ) (u : Upload) (w w' : World Store) : Type 0 where
    pub uncommitted : is_committed u.state ≡ false
    pub ongoing : is_over u.state ≡ false
    pub database : w'.db ≡ discard now actor u w.db

  abbrev pub AbortOutcome : ℕ → ℕ → ℕ → ℕ → World Store → Result (Unit {0}) × World Store → Type 0
  AbortOutcome now id owner actor w (err e, w') = w'.db ≡ w.db
  AbortOutcome now id owner actor w (ok r, w') =
      (u : Upload) × (owned_upload id owner w.db ≡ ok u)
      × (((is_over u.state ≡ true) × (w' ≡ w)) ⊎ Aborted now actor u w w')

  body_outcome :
      (now id owner actor : ℕ) (w w' : World Store)
      → (gets (owned_upload id owner) >>= abort_row os now actor) w ≡ (ok tt, w')
      → AbortOutcome now id owner actor w (ok tt, w')
  unfolding abort_row
  body_outcome now id owner actor w w' e = elim (Result-cases (owned_upload id owner w.db)) [
    | inr (f, q) ↦ absurd (ground arith)
    | inl (u, q) ↦ elim (Bool-cases (is_over u.state)) [
      | inl over ↦ (u, q, inl (over, ground arith))
      | inr ongoing ↦ (
        u,
        q,
        inr (record { uncommitted = ground arith; ongoing = ongoing; database = ground arith }),
      )
    ]
  ]

  settle_outcome :
      (now id owner actor : ℕ) (w : World Store) (p : Result (Unit {0}) × World Store)
      → ((w' : World Store) → p ≡ (ok tt, w') → AbortOutcome now id owner actor w (ok tt, w'))
      → AbortOutcome now id owner actor w (settle w.db p)
  settle_outcome now id owner actor w (ok r, w') h = h w' refl
  settle_outcome now id owner actor w (err e, w') h = refl

  -- However an abort ends: if it throws, the database is as before. If it returns, the upload was the
  -- owner's; and it was over already and nothing has changed, or it was neither available nor being
  -- completed and its rows are discarded.
  pub abort_upload_outcome :
      (now id owner actor : ℕ) (w : World Store)
      → AbortOutcome now id owner actor w (abort_upload os now id owner actor w)
  unfolding abort_upload tx
  abort_upload_outcome now id owner actor w =
      settle_outcome now id owner actor w _ (body_outcome now id owner actor w)

  abort_upload-Aborted :
      (now id owner actor : ℕ) (w w' : World Store) (u : Upload)
      → owned_upload id owner w.db ≡ ok u
      → is_over u.state ≡ false
      → abort_upload os now id owner actor w ≡ (ok tt, w')
      → Aborted now actor u w w'
  abort_upload-Aborted now id owner actor w w' u found ongoing e =
      let (v, same, result) =
        subst (AbortOutcome now id owner actor w) e (abort_upload_outcome now id owner actor w) in
      let v_u : v ≡ u = ok-injective (sym same ∙ found) in
      elim result [
        | inl (over, unchanged) ↦ cc (over, ongoing, v_u)
        | inr a ↦ subst (λ x. Aborted now actor x w w') v_u a
      ]

  -- Let an upload be incomplete and linked: the row of the upload and that of its file are the only ones
  -- with their keys, the file is the owner's and is processing, its object expects the declared size, and
  -- the upload did not fail at its start (`INIT_FAILED`), since such a one reserves nothing. If its abort
  -- succeeds, then for every account the used bytes stay, and the reserved bytes fall by the size of the
  -- upload if the account is its owner.
  pub abort_upload-balance :
      (now id owner actor : ℕ) (w w' : World Store) (u : Upload) (k : ℕ)
      → owned_upload id owner w.db ≡ ok u
      → is_incomplete u.state ≡ true
      → IsLinked w.db u
      → abort_upload os now id owner actor w ≡ (ok tt, w')
      → (used_bytes w'.db k ≡ used_bytes w.db k)
        × (reserved_bytes w'.db k + (if u.owner_id == k then u.size else 0) ≡ reserved_bytes w.db k)
  abort_upload-balance now id owner actor w w' u k found open_state l e =
      let a = abort_upload-Aborted now id owner actor w w' u found (ground arith) e in
      rw a.database
        (discard-used now actor u w.db l k, discard-reserved now actor u w.db l k open_state)

  owned_upload-discard :
      (now actor id owner : ℕ) (u : Upload) (db : Db)
      → owned_upload id owner db ≡ ok u
      → owned_upload id owner (discard now actor u db) ≡ ok (set_state now aborted u)
  unfolding owned_upload discard
  owned_upload-discard now actor id owner u db found =
      rw
        (find-update_where (λ x. x.id == id && x.owner_id == owner) (λ x. x.id == u.id)
          (set_state now aborted) db.uploads (λ x. refl))
        (ground arith)

  -- An upload that is over cannot be completed: `finalize` answers 409 and changes nothing.
  pub finalize_over :
      (fresh : Fresh) (id owner : ℕ) (w : World Store) (u : Upload)
      → owned_upload id owner w.db ≡ ok u
      → is_over u.state ≡ true
      → finalize os fresh id owner w ≡ (err (api_error 409 request_failed), w)
  unfolding finalize tx finalize_row complete_upload
  finalize_over fresh id owner w u found over = ground arith

  -- After a successful abort, whatever the storage still holds, `finalize` by the same owner answers
  -- 409 and changes neither the database nor the storage.
  pub finalize-abort_upload :
      (fresh : Fresh) (now id owner actor : ℕ) (w w' : World Store)
      → abort_upload os now id owner actor w ≡ (ok tt, w')
      → finalize os fresh id owner w' ≡ (err (api_error 409 request_failed), w')
  finalize-abort_upload fresh now id owner actor w w' e =
      let (u, found, result) =
        subst (AbortOutcome now id owner actor w) e (abort_upload_outcome now id owner actor w) in
      elim result [
        | inl (over, unchanged) ↦ finalize_over fresh id owner w' u (rw unchanged found) over
        | inr a ↦
            finalize_over fresh id owner w' (set_state now aborted u)
              (rw a.database (owned_upload-discard now actor id owner u w.db found)) refl
      ]
