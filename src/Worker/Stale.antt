-- ===== src/Worker/Stale.antt =====
-- The expiry of an upload that was never completed.
use mathlib.Core.Path.{fun_ext}
use astra_file_host.Base.{
  ℕ, ◌+◌, ◌≡◌, refl, true, false, ◌&&◌, ◌⊎◌, inl, inr, some, arith, find, ◌==◌, if◌then◌else◌,
  Bool-cases, Option-cases, Result, ok, err, find-update_where, sum_where-update_one, api_error,
  request_failed, subst,
}
use astra_file_host.Database.{
  Db, Upload, UploadState, purged, expected_size, used_bytes, reserved_bytes, charges, reserves,
  is_incomplete,
}
use astra_file_host.Storage.{ObjectStore}
use astra_file_host.Transaction.{World, settle, tx, gets, ◌>>=◌}
use astra_file_host.Shares.Capability.{Fresh}
use astra_file_host.Uploads.{set_state, is_available, touch, owned_upload}
use astra_file_host.Uploads.Abort.{purge_object}
use astra_file_host.Uploads.Finalize.{finalize}
use astra_file_host.Uploads.Quota.{IsLinked, expected_size-activate}
use astra_file_host.Uploads.Release.{finalize_over}
use astra_file_host.Worker.{expire_rows, expire_locked, expire_upload}

module _ (now : ℕ) (u : Upload) (db : Db) (l : IsLinked db u) (k : ℕ) where
  expire_rows-used : used_bytes (expire_rows now u db) k ≡ used_bytes db k
  unfolding used_bytes expire_rows
  expire_rows-used =
      let after = expire_rows now u db in
      let same_sizes : (j : ℕ) → expected_size after j ≡ expected_size db j =
        λ j. expected_size-activate db after u.object_id j purge_object (λ o. refl) refl in
      rw (fun_ext {f = expected_size after} {g = expected_size db} same_sizes) (
        ground (
          arith,
          sum_where-update_one (charges k) (λ f. f.id == u.file_id)
              (λ f. expected_size db f.object_id) (λ f. touch (record f { state = purged }))
              db.files l.file l.file_found l.file_once,
        ))

  expire_rows-reserved :
      is_incomplete u.state ≡ true
      → reserved_bytes (expire_rows now u db) k + (if u.owner_id == k then u.size else 0)
        ≡ reserved_bytes db k
  unfolding reserved_bytes expire_rows
  expire_rows-reserved open_state = ground (
    arith,
    sum_where-update_one (reserves k) (λ x. x.id == u.id) (λ x. x.size)
        (set_state now UploadState.expired) db.uploads u l.row_found l.row_once,
  )

owned_upload-expire_rows :
    (now : ℕ) (u : Upload) (db : Db)
    → owned_upload u.id u.owner_id db ≡ ok u
    → owned_upload u.id u.owner_id (expire_rows now u db) ≡ ok (set_state now UploadState.expired u)
unfolding owned_upload expire_rows
owned_upload-expire_rows now u db found =
    rw
      (find-update_where (λ x. x.id == u.id && x.owner_id == u.owner_id) (λ x. x.id == u.id)
        (set_state now UploadState.expired) db.uploads (λ x. refl))
      (ground arith)

module _ (os : ObjectStore) where
  open os use {Store}

  -- Nothing has changed, as the upload was gone or available; or its rows have been expired.
  abbrev pub ExpireOutcome : ℕ → Upload → World Store → Result (Unit {0}) × World Store → Type 0
  ExpireOutcome now u w (err e, w') = w'.db ≡ w.db
  ExpireOutcome now u w (ok r, w') =
      (w' ≡ w)
      ⊎ ((x : Upload) × (find (λ (y : Upload). y.id == u.id) w.db.uploads ≡ some x)
          × (is_available x.state ≡ false)
          × (w'.db ≡ expire_rows now u w.db))

  body_outcome :
      (now : ℕ) (u : Upload) (w w' : World Store)
      → (gets (λ db. ok (find (λ (x : Upload). x.id == u.id) db.uploads))
            >>= expire_locked os now u)
          w
        ≡ (ok tt, w')
      → ExpireOutcome now u w (ok tt, w')
  unfolding expire_locked
  body_outcome now u w w' e =
      elim (Option-cases (find (λ (x : Upload). x.id == u.id) w.db.uploads)) [
        | inl gone ↦ inl (ground arith)
        | inr (x, found) ↦ elim (Bool-cases (is_available x.state)) [
          | inl done ↦ inl (ground arith)
          | inr undone ↦ inr (x, found, undone, ground (arith, Option-cases u.storage_upload_id))
        ]
      ]

  settle_outcome :
      (now : ℕ) (u : Upload) (w : World Store) (p : Result (Unit {0}) × World Store)
      → ((w' : World Store) → p ≡ (ok tt, w') → ExpireOutcome now u w (ok tt, w'))
      → ExpireOutcome now u w (settle w.db p)
  settle_outcome now u w (ok r, w') h = h w' refl
  settle_outcome now u w (err e, w') h = refl

  pub expire_upload_outcome :
      (now : ℕ) (u : Upload) (w : World Store) → ExpireOutcome now u w (expire_upload os now u w)
  unfolding expire_upload tx
  expire_upload_outcome now u w = settle_outcome now u w _ (body_outcome now u w)

  -- An upload that has become available since it was selected is left alone: neither the database nor
  -- the storage changes.
  pub expire_upload_available :
      (now : ℕ) (u x : Upload) (w : World Store)
      → find (λ (y : Upload). y.id == u.id) w.db.uploads ≡ some x
      → is_available x.state ≡ true
      → expire_upload os now u w ≡ (ok tt, w)
  unfolding expire_upload tx expire_locked
  expire_upload_available now u x w found done = ground arith

  -- When the expiry of a linked, incomplete upload changes the database, then for every account the
  -- used bytes stay, the reserved bytes fall by the size of the upload if the account is its owner, and
  -- its owner can no longer complete it: `finalize` answers 409 and changes nothing.
  pub expire_upload-balance :
      (fresh : Fresh) (now k : ℕ) (u : Upload) (w w' : World Store)
      → IsLinked w.db u
      → is_incomplete u.state ≡ true
      → owned_upload u.id u.owner_id w.db ≡ ok u
      → expire_upload os now u w ≡ (ok tt, w')
      → (w' ≡ w)
        ⊎ ((used_bytes w'.db k ≡ used_bytes w.db k)
            × (reserved_bytes w'.db k + (if u.owner_id == k then u.size else 0)
                ≡ reserved_bytes w.db k)
            × (finalize os fresh u.id u.owner_id w' ≡ (err (api_error 409 request_failed), w')))
  expire_upload-balance fresh now k u w w' l open_state owned e =
      elim (subst (ExpireOutcome now u w) e (expire_upload_outcome now u w)) [
        | inl same ↦ inl same
        | inr (x, found, undone, db) ↦ inr (
          rw db (expire_rows-used now u w.db l k),
          rw db (expire_rows-reserved now u w.db l k open_state),
          finalize_over os fresh u.id u.owner_id w' (set_state now UploadState.expired u)
              (rw db (owned_upload-expire_rows now u w.db owned)) refl,
        )
      ]
