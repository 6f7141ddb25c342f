-- ===== src/Uploads/Admission.antt =====
-- A new upload never takes its owner past a quota, and starts as a completion expects it.
use astra_file_host.Base.{
  ℕ, ◌+◌, ◌*◌, ◌≤◌, ◌≡◌, refl, min, Bool, true, false, List, [], ◌∷◌, arith, sum_where, count_where,
  ◌==◌, if◌then◌else◌, Result, ok, err, Failure, suc, update_where_none,
}
use astra_file_host.Settings.{Settings, PlanPolicy}
use astra_file_host.Database.{
  Db, Upload, FileRow, Version, User, reserves, charges, expected_size, used_bytes, reserved_bytes,
  incomplete_uploads,
}
use astra_file_host.Entitlements.{effective}
use astra_file_host.Storage.{ObjectStore}
use astra_file_host.Transaction.{World, then_run, tx, pure, ◌>>◌}
use astra_file_host.Limits.{gib, Surroundings, reserve}
use astra_file_host.Limits.Admission.{reserve_iff}
use astra_file_host.Uploads.{update_upload, can_complete}
use astra_file_host.Uploads.Create.{
  NewUpload, Ids, Created, new_object, new_file, new_upload, upload_expiry, insert_rows, fail_init,
  start_session, check_request, record_intent, created_answer, settle_session, open_session,
  create_upload,
}
use astra_file_host.Uploads.Quota.{IsLinked}

-- The identifiers drawn for a new upload are not in use.
pub record IsFresh (ids : Ids) (db : Db) : Type 0 where
  pub upload : count_where (λ u. u.id == ids.upload) db.uploads ≡ 0
  pub file : count_where (λ f. f.id == ids.file) db.files ≡ 0
  pub object : count_where (λ f. f.object_id == ids.object) db.files ≡ 0
  pub version : count_where (λ v. v.object_id == ids.object) db.versions ≡ 0

-- Versions that do not refer to an object are charged the same whatever that object becomes.
sum_where-other_version :
    (owner k : ℕ) (f g : ℕ → ℕ) (xs : List Version)
    → ((j : ℕ) → (j == k) ≡ false → f j ≡ g j)
    → count_where (λ r. r.object_id == k) xs ≡ 0
    → sum_where (λ v. v.owner_id == owner) (λ r. f r.object_id) xs
      ≡ sum_where (λ v. v.owner_id == owner) (λ r. g r.object_id) xs
sum_where-other_version owner k f g [] h c = refl
sum_where-other_version owner k f g (x ∷ xs) h c =
    ground (arith, h x.object_id, sum_where-other_version owner k f g xs h)

-- So are files.
sum_where-other :
    (owner k : ℕ) (f g : ℕ → ℕ) (xs : List FileRow)
    → ((j : ℕ) → (j == k) ≡ false → f j ≡ g j)
    → count_where (λ r. r.object_id == k) xs ≡ 0
    → sum_where (charges owner) (λ r. f r.object_id) xs
      ≡ sum_where (charges owner) (λ r. g r.object_id) xs
sum_where-other owner k f g [] h c = refl
sum_where-other owner k f g (x ∷ xs) h c =
    ground (arith, h x.object_id, sum_where-other owner k f g xs h)

module _ (os : ObjectStore) (at : Surroundings) (ids : Ids) (owner : ℕ) (user : User)
    (i : NewUpload) where
  open os use {Store}

  -- The rows that the first transaction inserts.
  abbrev pub intent : Settings → Db → Db
  intent s =
      insert_rows (new_upload at ids owner i.size s)
        (new_file ids owner i.folder_id (upload_expiry user s at.now i.expires_at))
        (new_object ids i.size)

  record_intent-eq-ok :
      (s : Settings) (w v : World Store)
      → record_intent os at ids owner user i s w ≡ (ok tt, v)
      → (reserve at owner i.size w.db ≡ ok tt) × (v ≡ record w { db = intent s w.db })
  unfolding record_intent tx
  record_intent-eq-ok s w v e = (ground arith, ground arith)

  record_intent-eq-err :
      (s : Settings) (w v : World Store) (f : Failure)
      → record_intent os at ids owner user i s w ≡ (err f, v)
      → v.db ≡ w.db
  unfolding record_intent tx
  record_intent-eq-err s w v f e = ground arith

  module _ (s : Settings) (db : Db) (fresh : IsFresh ids db) where
    abbrev row : Upload
    row = new_upload at ids owner i.size s

    intent-used : (k : ℕ) → used_bytes (intent s db) k ≡ used_bytes db k
    unfolding insert_rows used_bytes expected_size
    intent-used k = ground (
      arith,
      sum_where-other k ids.object (expected_size (intent s db)) (expected_size db) db.files
          (λ j ne. ground arith) fresh.object,
      sum_where-other_version k ids.object (expected_size (intent s db)) (expected_size db)
          db.versions (λ j ne. ground arith) fresh.version,
    )

    -- The two steps of a creation on the uploads: the row goes in, and then its session starts or fails.
    abbrev after : (Upload → Upload) → Db
    after f = update_upload ids.upload f (intent s db)

    sum_intent :
        (p : Upload → Bool) (m : Upload → ℕ) (f : Upload → Upload)
        → sum_where p m (after f).uploads
          ≡ (if p (f row) then m (f row) else 0) + sum_where p m db.uploads
    unfolding insert_rows
    sum_intent p m f =
        ground (arith, update_where_none p (λ u. u.id == ids.upload) m f db.uploads fresh.upload)

    reserved_started :
        (n : ℕ) → reserved_bytes (after (start_session n)) owner ≡ i.size + reserved_bytes db owner
    unfolding reserved_bytes
    reserved_started n = ground (arith, sum_intent (reserves owner) (λ u. u.size) (start_session n))

    reserved_failed : (k : ℕ) → reserved_bytes (after fail_init) k ≡ reserved_bytes db k
    unfolding reserved_bytes
    reserved_failed k = ground (arith, sum_intent (reserves k) (λ u. u.size) fail_init)

    incomplete_started :
        (n : ℕ)
        → incomplete_uploads (after (start_session n)) owner ≡ suc (incomplete_uploads db owner)
    unfolding incomplete_uploads
    incomplete_started n = ground (arith, sum_intent (reserves owner) (λ u. 1) (start_session n))

    after-used : (f : Upload → Upload) (k : ℕ) → used_bytes (after f) k ≡ used_bytes db k
    unfolding used_bytes expected_size
    after-used f k = intent-used k

    started-IsLinked : (n : ℕ) → IsLinked (after (start_session n)) (start_session n row)
    unfolding insert_rows
    started-IsLinked n = record {
      file = new_file ids owner i.folder_id (upload_expiry user s at.now i.expires_at);
      object = new_object ids i.size;
      row_found = ground arith;
      row_once = ground (
        arith,
        fresh.upload,
        update_where_none (λ u. u.id == ids.upload) (λ u. u.id == ids.upload) (λ u. 1)
            (start_session n) db.uploads fresh.upload,
      );
      file_found = ground arith;
      file_once = ground (arith, fresh.file);
      file_owner = refl;
      file_state = refl;
      file_object = refl;
      object_found = ground arith;
      object_size = refl;
      initialised = refl;
    }

  -- What an admitted upload leaves of the owner's limits, and its rows.
  pub record Admitted (w : World Store) (c : Created) (w' : World Store) : Type 0 where
    pub quota : PlanPolicy
    pub policy : effective owner w.db ≡ ok quota
    pub single : i.size ≤ quota.file_bytes
    pub stored : used_bytes w'.db owner + reserved_bytes w'.db owner ≤ quota.storage_bytes
    pub incomplete : reserved_bytes w'.db owner ≤ w.db.settings.incomplete_reserved_gib * gib
    pub concurrent :
        incomplete_uploads w'.db owner
        ≤ min quota.concurrent_uploads w.db.settings.incomplete_upload_limit
    pub row : Upload
    pub uploading : can_complete row.state ≡ true
    pub named : row.id ≡ c.id
    pub filed : row.file_id ≡ c.file_id
    pub whole : row.size ≡ i.size
    pub linked : IsLinked w'.db row

  abbrev pub CreateOutcome : World Store → Result Created × World Store → Type 0
  CreateOutcome w (err e, w') =
      (k : ℕ)
      → used_bytes w'.db k + reserved_bytes w'.db k ≡ used_bytes w.db k + reserved_bytes w.db k
  CreateOutcome w (ok c, w') = Admitted w c w'

  started-Admitted :
      (s : Settings) (w : World Store) (c : Created) (n : ℕ) (store : Store)
      → IsFresh ids w.db
      → reserve at owner i.size w.db ≡ ok tt
      → c ≡ created_answer os at ids user i s
      → Admitted w c (record {
        db = update_upload ids.upload (start_session n) (intent s w.db);
        store = store;
      })
  started-Admitted s w c n store fresh reserved answer =
      let (disk, (quota, policy, room)) = (reserve_iff at owner i.size w.db).0 reserved in
      record {
        quota = quota;
        policy = policy;
        single = room.single;
        stored = omega (
          arith,
          room.stored,
          after-used s w.db fresh (start_session n) owner,
          reserved_started s w.db fresh n,
        );
        incomplete = omega (arith, room.incomplete, reserved_started s w.db fresh n);
        concurrent = omega (arith, room.concurrent, incomplete_started s w.db fresh n);
        row = start_session n (new_upload at ids owner i.size s);
        uploading = refl;
        named = ground arith;
        filed = ground arith;
        whole = refl;
        linked = started-IsLinked s w.db fresh n;
      }

  session_outcome :
      (s : Settings) (w : World Store) (p : Result ℕ × Store)
      → IsFresh ids w.db
      → reserve at owner i.size w.db ≡ ok tt
      → CreateOutcome w (
          then_run
            (settle_session os ids p (intent s w.db))
            (λ _. pure (created_answer os at ids user i s)))
  unfolding settle_session
  session_outcome s w (ok n, store) fresh reserved =
      started-Admitted s w _ n store fresh reserved refl
  session_outcome s w (err e, store) fresh reserved =
      λ k. omega (arith, after-used s w.db fresh fail_init k, reserved_failed s w.db fresh k)

  -- The transaction of the intent has either failed and left the database alone, or reserved the bytes.
  intent_outcome :
      (s : Settings) (w : World Store) (p : Result (Unit {0}) × World Store)
      → IsFresh ids w.db
      → record_intent os at ids owner user i s w ≡ p
      → CreateOutcome w
          (then_run p (λ _. open_session os ids >> pure (created_answer os at ids user i s)))
  unfolding open_session
  intent_outcome s w (ok u, v) fresh e =
      let (reserved, same) = record_intent-eq-ok s w v e in
      rw same (session_outcome s w (os.create w.store ids.object) fresh reserved)
  intent_outcome s w (err f, v) fresh e = λ k. rw (record_intent-eq-err s w v f e) refl

  checked_outcome :
      (w : World Store) (r : Result Settings)
      → IsFresh ids w.db
      → CreateOutcome w (
          then_run
            (r, w)
            (λ s.
              record_intent os at ids owner user i s
              >> (open_session os ids >> pure (created_answer os at ids user i s))))
  checked_outcome w (ok s) fresh =
      intent_outcome s w (record_intent os at ids owner user i s w) fresh refl
  checked_outcome w (err f) fresh = λ k. refl

  -- If a creation succeeds, the account has a valid policy and afterwards is within it: its used and
  -- reserved bytes together within the storage quota, its incomplete uploads within their number and
  -- their bytes, the file within the single-file limit; and the new upload can be completed, belongs
  -- to the answer, has the requested size and is linked to its own file and object. If it fails, for
  -- whatever reason and at whatever step, the used and reserved bytes of every account are as before.
  pub create_upload_outcome :
      (rate : Result (Unit {0})) (w : World Store)
      → IsFresh ids w.db
      → CreateOutcome w (create_upload os at rate ids owner user i w)
  unfolding create_upload
  create_upload_outcome rate w fresh =
      checked_outcome w (check_request at rate owner user i w.db) fresh
