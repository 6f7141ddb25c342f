-- ===== src/Worker/Reconcile.antt =====
-- apps/worker/src/index.ts `reconcile`: what the object storage holds against what the database knows.
-- The listings of the storage are arguments; a key that has not the form of an object's is `none`.
use astra_file_host.Base.{
  ℕ, ◌+◌, Bool, true, false, Option, none, some, List, [], ◌∷◌, ◌==◌, ltb, select, if◌then◌else◌,
  Result, ok, err, find,
}
use astra_file_host.Database.{
  Db, FileObject, FileState, Upload, purged, blocked, audit, orphan_object_removed,
  orphan_multipart_aborted, storage_object_missing,
}
use astra_file_host.Storage.{ObjectStore}
use astra_file_host.Transaction.{Action, pure, ◌>>=◌, ◌>>◌, gets, modify, calls, asks}
use astra_file_host.Uploads.{update_object, is_absent}
use astra_file_host.Worker.{purge}

-- One object of the listing, and the row of `file_objects` with its key.
pub record Listed : Type 0 where
  pub key : Option ℕ
  pub modified_at : Option ℕ

-- One multipart session of the listing.
pub record Pending : Type 0 where
  pub key : Option ℕ
  pub upload_id : ℕ
  pub initiated_at : ℕ

-- `72*3600000` ms before now.
abbrev pub grace_ms : ℕ
grace_ms = 259200000

abbrev is_aged : ℕ → Option ℕ → Bool
is_aged now none = false
is_aged now (some t) = ltb (t + grace_ms) now

-- The id of the object with a key, among the ids of all objects.
abbrev pub with_key : ℕ → List ℕ → Db → Option ℕ
with_key key [] db = none
with_key key (id ∷ ids) db =
    let rest = with_key key ids db in
    elim (db.objects id) [ none ↦ rest | some o ↦ if o.object_key == key then some id else rest ]

abbrev is_purged : Option FileObject → Bool
is_purged none = false
is_purged (some o) = elim (o.state) [ purged ↦ true | _ ↦ false ]

abbrev is_session : ℕ → Upload → Bool
is_session session u = elim (u.storage_upload_id) [ none ↦ false | some s ↦ s == session ]

abbrev is_found {ℓ} : {A : Type ℓ} → Option A → Bool
is_found none = false
is_found (some a) = true

module _ (os : ObjectStore) where
  open os use {Store}

  abbrev skip : Action Store (Unit {0})
  skip = pure tt

  abbrev when : Bool → Action Store (Unit {0}) → Action Store (Unit {0})
  when true m = m
  when false m = skip

  -- One round over `storage.objects()`; `ids` are the ids of the table.
  abbrev orphan_object : ℕ → ℕ → Option ℕ → Action Store ℕ
  orphan_object now key modified_at =
      when (is_aged now modified_at)
        (calls (λ s. os.remove s key) >> modify (audit none orphan_object_removed key))
      >> pure 1

  abbrev known_object : ℕ → Action Store ℕ
  known_object id = do o ← gets (λ db. ok (db.objects id)); when (is_purged o) (purge os id); pure 0

  abbrev check_key : ℕ → List ℕ → Option ℕ → Option ℕ → Action Store ℕ
  check_key now ids modified_at none = pure 0
  check_key now ids modified_at (some key) = do
    known ← gets (λ db. ok (with_key key ids db))
    elim known [ none ↦ orphan_object now key modified_at | some id ↦ known_object id ]

  -- The objects that no row knows, counted, and removed if they are old enough.
  unfoldable pub orphan_objects : ℕ → List ℕ → List Listed → Action Store ℕ
  orphan_objects now ids [] = pure 0
  orphan_objects now ids (o ∷ os') = do
    here ← check_key now ids o.modified_at o.key
    rest ← orphan_objects now ids os'
    pure (here + rest)

  abbrev drop_orphan : Option ℕ → ℕ → Bool → Action Store ℕ
  drop_orphan none session known = pure 0
  drop_orphan (some key) session known =
      if known
      then pure 0
      else (calls (λ s. os.abort s key session)
          >> (modify (audit none orphan_multipart_aborted key) >> pure 1))

  abbrev check_session : ℕ → Pending → Action Store ℕ
  check_session now u = do
    known ← gets (λ db. ok (is_found (find (is_session u.upload_id) db.uploads)))
    if is_aged now (some u.initiated_at) then drop_orphan u.key u.upload_id known else pure 0

  -- The old multipart sessions that no upload has, aborted and counted.
  unfoldable pub orphan_uploads : ℕ → List Pending → Action Store ℕ
  orphan_uploads now [] = pure 0
  orphan_uploads now (u ∷ us) = do
    here ← check_session now u
    rest ← orphan_uploads now us
    pure (here + rest)

  abbrev block : ℕ → Db → Db
  block id db =
      audit none storage_object_missing id (update_object id (λ o. record o { state = blocked }) db)

  -- An object that is gone is blocked; any other failure of the storage ends the job.
  abbrev check_head : ℕ → Bool → Action Store ℕ
  check_head id true = pure 0
  check_head id false = modify (block id) >> pure 1

  abbrev is_present : {A : Type 0} → Result A → Result Bool
  is_present (ok a) = ok true
  is_present (err e) = if is_absent e then ok false else err e

  abbrev is_available_object : Option FileObject → Bool
  is_available_object none = false
  is_available_object (some o) = elim (o.state) [ FileState.available ↦ true | _ ↦ false ]

  abbrev check_object : ℕ → Option FileObject → Action Store ℕ
  check_object id none = pure 0
  check_object id (some o) = do
    present ← asks (λ s. is_present (os.head s o.object_key))
    check_head id present

  -- `for(const o of objects){…}`, over the ids of the available objects.
  unfoldable pub missing_objects : List ℕ → Action Store ℕ
  missing_objects [] = pure 0
  missing_objects (id ∷ ids) = do
    o ← gets (λ db. ok (db.objects id))
    here ← check_object id o
    rest ← missing_objects ids
    pure (here + rest)

  abbrev available_ids : List ℕ → Db → List ℕ
  available_ids ids db = select (λ id. is_available_object (db.objects id)) ids

  -- `reconcile`: what was found of each kind.
  unfoldable pub reconcile : ℕ → List ℕ → List Listed → List Pending → Action Store (ℕ × ℕ × ℕ)
  unfolding orphan_objects orphan_uploads missing_objects
  reconcile now ids objects sessions = do
    orphans ← orphan_objects now ids objects
    aborted ← orphan_uploads now sessions
    available ← gets (λ db. ok (available_ids ids db))
    missing ← missing_objects available
    pure (orphans, aborted, missing)
