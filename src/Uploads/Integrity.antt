-- ===== src/Uploads/Integrity.antt =====
-- What a call of `finalize` has established, on each of its outcomes.
use astra_file_host.Base.{
  ℕ, ◌≡◌, refl, Bool, true, ◌⊎◌, inl, inr, none, some, List, [], ◌∷◌, Result, ok, err, arith,
  update_where, ◌==◌, update_where-update_where, sym, ◌∙◌, Bool-cases, Result-cases,
}
use astra_file_host.Database.{Db, Upload, UploadState, PartRow, finalizing}
use astra_file_host.Storage.{ObjectStore, Head}
use astra_file_host.Transaction.{World, settle, tx, gets, ◌>>=◌}
use astra_file_host.Transaction.Laws.{then_run-eq-ok}
use astra_file_host.Shares.Capability.{Fresh}
use astra_file_host.Uploads.{
  update_upload, owned_upload, set_parts, set_bytes_confirmed, set_state, is_available,
  can_complete, landing, update_object, update_file, set_file_state,
}
use astra_file_host.Uploads.Finalize.{
  Finalized, activate_object, activate_upload, activate, ensure_object, finish, complete_upload,
  finalize_row, finalize,
}
use astra_file_host.Uploads.Steps.{
  ensure_object-eq-ok, ensure_object-head, finish-Finished, KeepsFiles,
}

-- The columns that no step of a completion changes.
pub record SameUpload (u v : Upload) : Type 0 where
  pub id : v.id ≡ u.id
  pub owner : v.owner_id ≡ u.owner_id
  pub file : v.file_id ≡ u.file_id
  pub object : v.object_id ≡ u.object_id
  pub size : v.size ≡ u.size

-- The row of the upload has changed in its progress alone; the files and the objects are as before.
pub record Progressed (u : Upload) (before after : Db) : Type 0 where
  pub change : Upload → Upload
  pub same : (x : Upload) → SameUpload x (change x)
  pub uploads : after.uploads ≡ update_where (λ x. x.id == u.id) change before.uploads
  pub files : after.files ≡ before.files
  pub objects : after.objects ≡ before.objects
  pub versions : after.versions ≡ before.versions
  pub settings : after.settings ≡ before.settings

SameUpload-trans : {u v w : Upload} → SameUpload u v → SameUpload v w → SameUpload u w
SameUpload-trans h k = ground arith

update_upload-Progressed :
    (f : Upload → Upload) (u : Upload) (before after : Db)
    → ((x : Upload) → SameUpload x (f x))
    → Progressed u before after
    → Progressed u before (update_upload u.id f after)
update_upload-Progressed f u before after same p = record {
  change = λ x. f (p.change x);
  same = λ x. SameUpload-trans (p.same x) (same (p.change x));
  uploads =
      rw
        (
          p.uploads,
          update_where-update_where (λ x. x.id == u.id) f p.change before.uploads
              (λ x. rw ((p.same x).id)),
        )
        refl;
  files = p.files;
  objects = p.objects;
  versions = p.versions;
  settings = p.settings;
}

set_parts-Progressed :
    (k : ℕ) (rows : List PartRow) (u : Upload) (before after : Db)
    → Progressed u before after
    → Progressed u before (set_parts k rows after)
set_parts-Progressed k rows u before after p = record {
  change = p.change;
  same = p.same;
  uploads = p.uploads;
  files = p.files;
  objects = p.objects;
  versions = p.versions;
  settings = p.settings;
}

update_where_id : (q : Upload → Bool) (xs : List Upload) → update_where q (λ x. x) xs ≡ xs
update_where_id q [] = refl
update_where_id q (x ∷ xs) = ground (arith, update_where_id q xs)

Progressed-refl : (u : Upload) (db : Db) → Progressed u db db
Progressed-refl u db = record {
  change = λ x. x;
  same = λ x. ground arith;
  uploads = sym (update_where_id (λ x. x.id == u.id) db.uploads);
  files = refl;
  objects = refl;
  versions = refl;
  settings = refl;
}

module _ (os : ObjectStore) where
  open os use {Store}

  -- What a successful completion of the upload u has established.
  pub record Completed (u : Upload) (w : World Store) (r : Finalized) (w' : World Store)
      : Type 0 where
    pub admitted : can_complete u.state ≡ true
    pub head : Head
    pub stored : os.head w'.store u.object_key ≡ ok head
    pub whole : head.size ≡ u.size
    pub change : Upload → Upload
    pub same : (x : Upload) → SameUpload x (change x)
    pub available :
        (x : Upload)
        → ((change x).state ≡ UploadState.available)
          × ((change x).bytes_confirmed ≡ x.size)
          × ((change x).error_code ≡ none)
    pub uploads : w'.db.uploads ≡ update_where (λ x. x.id == u.id) change w.db.uploads
    pub landed : r.state ≡ some (landing w.db.settings)
    pub files :
        w'.db.files ≡ (update_file u.file_id (set_file_state (landing w.db.settings)) w.db).files
    pub versions : w'.db.versions ≡ w.db.versions
    pub mime : ℕ
    pub objects :
        w'.db.objects
        ≡ (update_object u.object_id
            (activate_object (landing w.db.settings) head mime)
            w.db).objects

  ensure_object-Progressed :
      (now : ℕ) (u : Upload) (w w' : World Store) (h : Head)
      → ensure_object os now u w ≡ (ok h, w')
      → Progressed u w.db w'.db
  ensure_object-Progressed now u w w' h e = elim (ensure_object-eq-ok os now u w w' h e) [
    | inl (there, same) ↦ rw same (Progressed-refl u w.db)
    | inr (absent, a) ↦ rw a.database (
        update_upload-Progressed (set_state now finalizing) u w.db _ (λ x. ground arith)
          (update_upload-Progressed (set_bytes_confirmed now _) u w.db _ (λ x. ground arith)
            (set_parts-Progressed u.id a.rows u w.db w.db (Progressed-refl u w.db))))
  ]

  -- The activation of a row that has progressed, and what follows it, put together.
  activated-Completed :
      (now : ℕ) (u : Upload) (w v w' : World Store) (h : Head) (r : Finalized) (mime : ℕ)
      → can_complete u.state ≡ true
      → Progressed u w.db v.db
      → os.head v.store u.object_key ≡ ok h
      → h.size ≡ u.size
      → r.state ≡ some (landing v.db.settings)
      → KeepsFiles (record v { db = activate now u h mime v.db }) w'
      → Completed u w r w'
  unfolding activate update_upload-Progressed
  activated-Completed now u w v w' h r mime admitted p stored whole landed k =
      let q = update_upload-Progressed (activate_upload now) u w.db v.db (λ x. ground arith) p in
      record {
        admitted = admitted;
        head = h;
        stored = rw k.store stored;
        whole = whole;
        change = q.change;
        same = q.same;
        available = λ x. (refl, (p.same x).size, refl);
        uploads = k.uploads ∙ q.uploads;
        landed = ground (arith, p.settings);
        files = rw (k.files, p.settings, p.files) refl;
        versions = k.versions ∙ p.versions;
        mime = mime;
        objects = rw (k.objects, p.settings, p.objects) refl;
      }

  pub complete_upload-Completed :
      (fresh : Fresh) (owner : ℕ) (u : Upload) (w w' : World Store) (r : Finalized)
      → complete_upload os fresh owner u w ≡ (ok r, w')
      → Completed u w r w' × (r.file_id ≡ u.file_id)
  unfolding complete_upload
  complete_upload-Completed fresh owner u w w' r e = elim (Bool-cases (can_complete u.state)) [
    | inr closed ↦ absurd (ground arith)
    | inl admitted ↦
        let (h, v, ensured, rest) =
          then_run-eq-ok (ensure_object os fresh.now u w) (finish os fresh owner u) r w'
            (ground arith) in
        let p = ensure_object-Progressed fresh.now u w v h ensured in
        let f = finish-Finished os fresh u owner h v w' r rest in
        (
          activated-Completed fresh.now u w v w' h r f.mime admitted p
              (ensure_object-head os fresh.now u w v h ensured) f.whole f.landed f.kept,
          f.named,
        )
  ]

  -- The upload was available already, and nothing has changed; or it has been completed now.
  abbrev pub FinalizeOutcome : ℕ → ℕ → World Store → Result Finalized × World Store → Type 0
  FinalizeOutcome id owner w (err e, w') = w'.db ≡ w.db
  FinalizeOutcome id owner w (ok r, w') =
      (u : Upload) × (owned_upload id owner w.db ≡ ok u)
      × (r.file_id ≡ u.file_id)
      × (((is_available u.state ≡ true) × (r.share_secret ≡ none) × (w' ≡ w)) ⊎ Completed u w r w')

  body_outcome :
      (fresh : Fresh) (id owner : ℕ) (w : World Store) (r : Finalized) (w' : World Store)
      → (gets (owned_upload id owner) >>= finalize_row os fresh owner) w ≡ (ok r, w')
      → FinalizeOutcome id owner w (ok r, w')
  unfolding finalize_row
  body_outcome fresh id owner w r w' e = elim (Result-cases (owned_upload id owner w.db)) [
    | inr (f, q) ↦ absurd (ground arith)
    | inl (u, q) ↦ elim (Bool-cases (is_available u.state)) [
      | inl there ↦ (u, q, ground arith, inl (there, ground arith, ground arith))
      | inr not_yet ↦
          let (c, named) = complete_upload-Completed fresh owner u w w' r (ground arith) in
          (u, q, named, inr c)
    ]
  ]

  settle_outcome :
      (id owner : ℕ) (w : World Store) (p : Result Finalized × World Store)
      → ((r : Finalized) (w' : World Store)
          → p ≡ (ok r, w')
          → FinalizeOutcome id owner w (ok r, w'))
      → FinalizeOutcome id owner w (settle w.db p)
  settle_outcome id owner w (ok r, w') h = h r w' refl
  settle_outcome id owner w (err e, w') h = refl

  -- Whatever the storage answers: if `finalize` throws, the database is as before. If it returns, the
  -- upload was the owner's, and the answer names its file; and either it was available already,
  -- nothing has changed and no share secret is given again, or it was in a state that may complete and
  -- the storage now answers for its object with exactly the declared size, the row is available with
  -- all bytes confirmed and no error, its other identifying columns as they were, and its file and its
  -- object have taken the state that the scanning setting asks for, the object with the size that
  -- the storage answered.
  pub finalize_outcome :
      (fresh : Fresh) (id owner : ℕ) (w : World Store)
      → FinalizeOutcome id owner w (finalize os fresh id owner w)
  unfolding finalize tx
  finalize_outcome fresh id owner w = settle_outcome id owner w _ (body_outcome fresh id owner w)
