-- ===== src/Uploads/Quota.antt =====
-- The storage account of an owner across a completion: what an upload had reserved, its file is
-- charged.
use mathlib.Core.Path.{fun_ext}
use astra_file_host.Base.{
  ℕ, ◌+◌, ◌≡◌, refl, true, ◌⊎◌, inl, inr, Option, none, some, arith, find, count_where,
  sum_where-update_one, ◌==◌, if◌then◌else◌, Result, ok, err,
}
use astra_file_host.Database.{
  Db, Upload, FileRow, FileObject, processing, is_initialised, reserves, charges, size_expected,
  expected_size, used_bytes, reserved_bytes,
}
use astra_file_host.Storage.{ObjectStore}
use astra_file_host.Transaction.{World}
use astra_file_host.Shares.Capability.{Fresh}
use astra_file_host.Uploads.{
  owned_upload, is_available, landing, adjust, touch, set_file_state, update_object, can_complete,
}
use astra_file_host.Uploads.Finalize.{Finalized, finalize}
use astra_file_host.Uploads.Integrity.{Completed, FinalizeOutcome, finalize_outcome}

-- The tables of an upload that has not been completed, as `POST /api/uploads` writes them: its row and
-- that of its file are the only ones with their keys, the file is the owner's and is processing, and
-- its object expects the declared size.
pub record IsLinked (db : Db) (u : Upload) : Type 0 where
  pub file : FileRow
  pub object : FileObject
  pub row_found : find (λ x. x.id == u.id) db.uploads ≡ some u
  pub row_once : count_where (λ x. x.id == u.id) db.uploads ≡ 1
  pub file_found : find (λ f. f.id == u.file_id) db.files ≡ some file
  pub file_once : count_where (λ f. f.id == u.file_id) db.files ≡ 1
  pub file_owner : file.owner_id ≡ u.owner_id
  pub file_state : file.state ≡ processing
  pub file_object : file.object_id ≡ u.object_id
  pub object_found : db.objects u.object_id ≡ some object
  pub object_size : object.expected_size ≡ u.size
  pub initialised : is_initialised u.error_code ≡ true

-- The activation of an object leaves every expected size as it was.
pub expected_size-activate :
    (db db' : Db) (id k : ℕ) (f : FileObject → FileObject)
    → ((o : FileObject) → (f o).expected_size ≡ o.expected_size)
    → db'.objects ≡ (update_object id f db).objects
    → expected_size db' k ≡ expected_size db k
unfolding expected_size
expected_size-activate db db' id k f keep h = rw h (expected (db.objects k))
  where
    expected : (o : Option FileObject) → size_expected (adjust (k == id) f o) ≡ size_expected o
    expected none = refl
    expected (some o) = ground (arith, keep o)

IsLinked-expected_size :
    (db : Db) (u : Upload) (l : IsLinked db u) → expected_size db l.file.object_id ≡ u.size
unfolding expected_size
IsLinked-expected_size db u l = rw (l.file_object, l.object_found) l.object_size

can_complete-reserves :
    (owner : ℕ) (u : Upload)
    → can_complete u.state ≡ true
    → is_initialised u.error_code ≡ true
    → reserves owner u ≡ (u.owner_id == owner)
can_complete-reserves owner u h k = ground arith

module _ (os : ObjectStore) (u : Upload) (r : Finalized) where
  open os use {Store}

  -- The part of the owner's reservation that the upload held is released.
  Completed-reserved :
      (w w' : World Store) (owner : ℕ)
      → Completed os u w r w'
      → IsLinked w.db u
      → reserved_bytes w'.db owner + (if u.owner_id == owner then u.size else 0)
        ≡ reserved_bytes w.db owner
  unfolding reserved_bytes
  Completed-reserved w w' owner c l = ground (
    arith,
    c.uploads,
    c.available u,
    can_complete-reserves owner u c.admitted l.initialised,
    sum_where-update_one (reserves owner) (λ x. x.id == u.id) (λ x. x.size) c.change w.db.uploads u
        l.row_found l.row_once,
  )

  -- The file is charged to its owner.
  Completed-used :
      (w w' : World Store) (owner : ℕ)
      → Completed os u w r w'
      → IsLinked w.db u
      → used_bytes w'.db owner ≡ used_bytes w.db owner + (if u.owner_id == owner then u.size else 0)
  unfolding used_bytes
  Completed-used w w' owner c l =
      let same_sizes : (k : ℕ) → expected_size w'.db k ≡ expected_size w.db k =
        λ k. expected_size-activate w.db w'.db u.object_id k _ (λ o. refl) c.objects in
      rw
        (fun_ext {f = expected_size w'.db} {g = expected_size w.db} same_sizes, c.files, c.versions)
        (ground (
          arith,
          IsLinked-expected_size w.db u l,
          sum_where-update_one (charges owner) (λ f. f.id == u.file_id)
              (λ f. expected_size w.db f.object_id)
              (λ f. touch (set_file_state (landing w.db.settings) f)) w.db.files l.file l.file_found
              l.file_once,
        ))

  pub Completed-balance :
      (w w' : World Store) (owner : ℕ)
      → Completed os u w r w'
      → IsLinked w.db u
      → used_bytes w'.db owner + reserved_bytes w'.db owner
        ≡ used_bytes w.db owner + reserved_bytes w.db owner
  Completed-balance w w' owner c l =
      omega (arith, Completed-reserved w w' owner c l, Completed-used w w' owner c l)

can_complete-not_available :
    (u : Upload) → is_available u.state ≡ true → ¬ (can_complete u.state ≡ true)
can_complete-not_available u h k = ground arith

module _ (os : ObjectStore) where
  open os use {Store}

  Outcome-balance :
      (id owner k : ℕ) (w : World Store) (p : Result Finalized × World Store)
      → ((u : Upload)
          → owned_upload id owner w.db ≡ ok u
          → (is_available u.state ≡ true) ⊎ IsLinked w.db u)
      → FinalizeOutcome os id owner w p
      → used_bytes p.1.db k + reserved_bytes p.1.db k ≡ used_bytes w.db k + reserved_bytes w.db k
  Outcome-balance id owner k w (err e, w') linked same = rw same
  Outcome-balance id owner k w (ok r, w') linked (u, found, named, inl (there, silent, same)) =
      rw same
  Outcome-balance id owner k w (ok r, w') linked (u, found, named, inr c) = elim (linked u found) [
    | inl there ↦ absurd (can_complete-not_available u there c.admitted)
    | inr l ↦ Completed-balance os u r w w' k c l
  ]

  -- However `finalize` ends, and for every account: used and reserved bytes together stay what they
  -- were, if an upload that is not available yet is linked to its file and its object.
  pub finalize-balance :
      (fresh : Fresh) (id owner : ℕ) (w : World Store) (k : ℕ)
      → ((u : Upload)
          → owned_upload id owner w.db ≡ ok u
          → (is_available u.state ≡ true) ⊎ IsLinked w.db u)
      → let w' = (finalize os fresh id owner w).1 in
        used_bytes w'.db k + reserved_bytes w'.db k ≡ used_bytes w.db k + reserved_bytes w.db k
  finalize-balance fresh id owner w k linked =
      Outcome-balance id owner k w (finalize os fresh id owner w) linked
        (finalize_outcome os fresh id owner w)
