-- ===== src/Uploads/Steps.antt =====
-- The steps of a completion read backwards: what a successful call computed, and the world it left.
use astra_file_host.Base.{
  ℕ, ◌≡◌, List, map, ok, err, arith, sum_of, Option, some, Result-cases, Bool-cases, inl, inr, ◌⊎◌,
  err, not_found,
}
use astra_file_host.Validation.{StoragePart, assert_parts}
use astra_file_host.Database.{Db, Upload, PartRow, finalizing, audit, upload_completed}
use astra_file_host.Storage.{ObjectStore, Head}
use astra_file_host.Transaction.{World, modify, gets, pure, ◌>>=◌, ◌>>◌}
use astra_file_host.Transaction.Laws.{then_run-eq-ok}
use astra_file_host.Uploads.{
  update_upload, set_parts, confirm_parts, manifest_part, set_bytes_confirmed, set_state, is_absent,
  landing,
}
use astra_file_host.Uploads.Finalize.{
  reconcile_action, assemble, ensure_object, grant_share, Finalized, activate, finish, publish,
  enqueue_jobs,
}
use astra_file_host.Shares.Capability.{Fresh}

-- The database after `reconcile` with the confirmed rows.
abbrev pub reconciled : ℕ → Upload → List StoragePart → List PartRow → Db → Db
reconciled now u parts rows db =
    update_upload u.id (set_bytes_confirmed now (sum_of (λ p. p.size) parts))
      (set_parts u.id rows db)

module _ (os : ObjectStore) (now : ℕ) (u : Upload) where
  open os use {Store}

  pub reconcile_action-eq-ok :
      (w w' : World Store) (parts : List StoragePart)
      → reconcile_action os now u w ≡ (ok parts, w')
      → (rows : List PartRow) × (os.list_parts w.store u.object_key u.storage_upload_id ≡ ok parts)
        × (confirm_parts (w.db.parts u.id) parts (w.db.parts u.id) ≡ ok rows)
        × (w' ≡ record w { db = reconciled now u parts rows w.db })
  unfolding reconcile_action
  reconcile_action-eq-ok w w' parts h =
      elim (Result-cases (os.list_parts w.store u.object_key u.storage_upload_id)) [
        | inr (e, q) ↦ absurd (ground arith)
        | inl (listed, q) ↦
            elim (Result-cases (confirm_parts (w.db.parts u.id) listed (w.db.parts u.id))) [
              | inr (e, k) ↦ absurd (ground arith)
              | inl (rows, k) ↦ (rows, ground arith, ground arith, ground arith)
            ]
      ]

  -- What `assemble` has done when it returns: the parts that the storage listed and the rows of the
  -- upload were both complete, and the multipart upload was completed with the rows as its manifest.
  pub record Assembled (w w' : World Store) (h : Head) : Type 0 where
    pub parts : List StoragePart
    pub rows : List PartRow
    pub listed : os.list_parts w.store u.object_key u.storage_upload_id ≡ ok parts
    pub confirmed : confirm_parts (w.db.parts u.id) parts (w.db.parts u.id) ≡ ok rows
    pub checked : assert_parts u.size u.part_size parts ≡ ok tt
    pub recorded : assert_parts u.size u.part_size (map manifest_part rows) ≡ ok tt
    pub finished :
        os.complete w.store u.object_key u.storage_upload_id (map manifest_part rows)
        ≡ (ok tt, w'.store)
    pub database :
        w'.db ≡ update_upload u.id (set_state now finalizing) (reconciled now u parts rows w.db)
    pub seen : os.head w'.store u.object_key ≡ ok h

  pub assemble-eq-ok :
      (w w' : World Store) (h : Head) → assemble os now u w ≡ (ok h, w') → Assembled w w' h
  unfolding assemble
  assemble-eq-ok w w' h e =
      let (parts, v, r, rest) = then_run-eq-ok (reconcile_action os now u w) _ h w' e in
      let (rows, listed, confirmed, same) = reconcile_action-eq-ok w v parts r in
      record {
        parts = parts;
        rows = rows;
        listed = listed;
        confirmed = confirmed;
        checked = ground arith;
        recorded = ground arith;
        finished = ground arith;
        database = ground arith;
        seen = ground arith;
      }

  -- The object was there, or it was absent and has been assembled.
  pub ensure_object-eq-ok :
      (w w' : World Store) (h : Head)
      → ensure_object os now u w ≡ (ok h, w')
      → ((os.head w.store u.object_key ≡ ok h) × (w' ≡ w))
        ⊎ ((os.head w.store u.object_key ≡ err not_found) × Assembled w w' h)
  unfolding ensure_object
  ensure_object-eq-ok w w' h e = elim (Result-cases (os.head w.store u.object_key)) [
    | inl (g, q) ↦ inl (ground arith, ground arith)
    | inr (f, q) ↦ elim (Bool-cases (is_absent f)) [
      | inl absent ↦ inr (ground arith, assemble-eq-ok w w' h (ground arith))
      | inr other ↦ absurd (ground arith)
    ]
  ]

  pub ensure_object-head :
      (w w' : World Store) (h : Head)
      → ensure_object os now u w ≡ (ok h, w')
      → os.head w'.store u.object_key ≡ ok h
  ensure_object-head w w' h e = elim (ensure_object-eq-ok w w' h e) [
    | inl (there, same) ↦ rw same there
    | inr (absent, a) ↦ a.seen
  ]

-- What the automatic share of a completed upload leaves as it was.
pub record KeepsFiles {S : Type 0} (w w' : World S) : Type 0 where
  pub store : w'.store ≡ w.store
  pub settings : w'.db.settings ≡ w.db.settings
  pub users : w'.db.users ≡ w.db.users
  pub uploads : w'.db.uploads ≡ w.db.uploads
  pub files : w'.db.files ≡ w.db.files
  pub objects : w'.db.objects ≡ w.db.objects
  pub versions : w'.db.versions ≡ w.db.versions

module _ (os : ObjectStore) (fresh : Fresh) (u : Upload) (owner : ℕ) where
  open os use {Store}

  pub grant_share-KeepsFiles : (w : World Store) → KeepsFiles w (grant_share os fresh u owner w).1
  unfolding grant_share
  grant_share-KeepsFiles w = ground arith

  publish-KeepsFiles :
      (w w' : World Store) (r : Finalized)
      → publish os fresh owner u w ≡ (ok r, w')
      → KeepsFiles w w' × (r.file_id ≡ u.file_id) × (r.state ≡ some (landing w.db.settings))
  unfolding publish
  publish-KeepsFiles w w' r e =
      let k = grant_share-KeepsFiles w in
      let (s, v, granted, rest) = then_run-eq-ok (grant_share os fresh u owner w) _ r w' e in
      published s v (ground (arith, k)) rest
    where
      published :
          (s : Option ℕ) (v : World Store)
          → KeepsFiles w v
          → (modify (enqueue_jobs os fresh.now u)
                >> (modify (audit (some owner) upload_completed u.file_id)
                    >> (gets (λ db. ok (landing db.settings)) >>= λ state.
                        pure
                          (record { file_id = u.file_id; share_secret = s; state = some state }))))
              v
            ≡ (ok r, w')
          → KeepsFiles w w' × (r.file_id ≡ u.file_id) × (r.state ≡ some (landing w.db.settings))
      published s v k rest = ground arith

  -- What `finish` has done when it returns.
  pub record Finished (h : Head) (w : World Store) (r : Finalized) (w' : World Store) : Type 0 where
    pub mime : ℕ
    pub whole : h.size ≡ u.size
    pub named : r.file_id ≡ u.file_id
    pub landed : r.state ≡ some (landing w.db.settings)
    pub kept : KeepsFiles (record w { db = activate fresh.now u h mime w.db }) w'

  pub finish-Finished :
      (h : Head) (w w' : World Store) (r : Finalized)
      → finish os fresh owner u h w ≡ (ok r, w')
      → Finished h w r w'
  unfolding finish activate
  finish-Finished h w w' r e = elim (Result-cases (os.prefix_mime w.store u.object_key)) [
    | inr (f, q) ↦ absurd (ground arith)
    | inl (mime, q) ↦
        let whole : h.size ≡ u.size = ground arith in
        let (k, named, landed) =
          publish-KeepsFiles (record w { db = activate fresh.now u h mime w.db }) w' r
            (ground arith) in
        record { mime = mime; whole = whole; named = named; landed = landed; kept = k }
  ]
