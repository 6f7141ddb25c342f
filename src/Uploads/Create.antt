-- ===== src/Uploads/Create.antt =====
-- apps/api/src/uploads.ts `POST /api/uploads`. The input is what `uploadSchema` parsed; the answer of
-- the rate limiter (`Limits.Rate`) and the fresh identifiers are arguments.
use astra_file_host.Base.{
  ℕ, ◌+◌, ◌-◌, ◌*◌, ◌/◌, ◌^◌, Bool, true, false, ◌&&◌, ◌||◌, not, Option, none, some, List, [], ◌∷◌,
  ◌==◌, ltb, leb, max, min, if◌then◌else◌, find, sum_where, Result, ok, err, throw_if,
  ◌>>=◌ as check, api_error, request_failed, upload_cooldown,
}
use astra_file_host.Validation.{part_size, ceil_div}
use astra_file_host.Settings.{Settings}
use astra_file_host.Database.{
  Db, Upload, UploadState, UploadError, init_failed, FileRow, FileObject, Folder, User, created,
  uploading, processing,
}
use astra_file_host.Storage.{ObjectStore}
use astra_file_host.Transaction.{World, Action, pure, ◌>>=◌, ◌>>◌, gets, modify, tx}
use astra_file_host.Limits.{Surroundings, writable, reserve}
use astra_file_host.Uploads.{update_upload}

-- The parsed body of the request; the extension is the last part of the name, in lower case.
pub record NewUpload : Type 0 where
  pub size : ℕ
  pub extension : ℕ
  pub folder_id : Option ℕ
  pub expires_at : Option ℕ

pub record Ids : Type 0 where
  pub upload : ℕ
  pub file : ℕ
  pub object : ℕ

pub record Created : Type 0 where
  pub id : ℕ
  pub file_id : ℕ
  pub part_size : ℕ
  pub part_count : ℕ
  pub concurrency : ℕ
  pub expires_at : Option ℕ

-- `owner_id=$1 AND error_code IS NOT NULL AND updated_at>now()-interval '24 hours'`
abbrev pub has_error : Option UploadError → Bool
has_error none = false
has_error (some e) = true

abbrev pub is_failure : ℕ → ℕ → Upload → Bool
is_failure owner now u =
    u.owner_id == owner && (has_error u.error_code && ltb now (u.updated_at + 86400000))

unfoldable pub failures : ℕ → ℕ → Db → ℕ
failures owner now db = sum_where (is_failure owner now) (λ u. max u.failure_count 1) db.uploads

latest_of : ℕ → ℕ → List Upload → ℕ
latest_of owner now [] = 0
latest_of owner now (u ∷ us) =
    max (if is_failure owner now u then u.updated_at else 0) (latest_of owner now us)

unfoldable pub cooldown_minutes : Settings → ℕ → ℕ
cooldown_minutes s n = s.upload_cooldown_minutes * min 16 (2 ^ (n / s.failed_upload_threshold - 1))

unfoldable pub is_cooling_down : Settings → ℕ → ℕ → Db → Bool
unfolding failures latest_of cooldown_minutes
is_cooling_down s owner now db =
    let n = failures owner now db in
    leb s.failed_upload_threshold n
    && ltb now (latest_of owner now db.uploads + cooldown_minutes s n * 60000)

member : ℕ → List ℕ → Bool
member x [] = false
member x (y ∷ ys) = x == y || member x ys

-- `i.expiresAt&&new Date(i.expiresAt)<=new Date()`
abbrev pub is_past : ℕ → Option ℕ → Bool
is_past now none = false
is_past now (some t) = leb t now

-- `guestExpiry&&(!i.expiresAt||new Date(i.expiresAt)>guestExpiry)?guestExpiry:i.expiresAt??null`
abbrev pub limit_expiry : Option ℕ → ℕ → Option ℕ
limit_expiry none guest = some guest
limit_expiry (some t) guest = if ltb guest t then some guest else some t

abbrev pub upload_expiry : User → Settings → ℕ → Option ℕ → Option ℕ
upload_expiry user s now asked =
    if user.anonymous
    then limit_expiry asked (now + s.anonymous_retention_days * 86400000)
    else asked

-- `deleted_at IS NULL`
abbrev pub is_live : Option ℕ → Bool
is_live none = true
is_live (some t) = false

-- `SELECT id FROM folders WHERE id=$1 AND owner_id=$2 AND deleted_at IS NULL`, if a folder is named.
unfoldable pub ensure_folder : Option ℕ → ℕ → Db → Result (Unit {0})
ensure_folder none owner db = ok tt
ensure_folder (some id) owner db =
    elim (find (λ (f : Folder). f.id == id && (f.owner_id == owner && is_live f.deleted_at))
      db.folders) [ none ↦ err (api_error 404 request_failed) | some f ↦ ok tt ]

-- The three rows of a new upload.
abbrev pub new_object : Ids → ℕ → FileObject
new_object ids size = record {
  object_key = ids.object;
  expected_size = size;
  size = none;
  etag = none;
  checksum_sha256 = none;
  mime = none;
  state = processing;
}

abbrev pub new_file : Ids → ℕ → Option ℕ → Option ℕ → FileRow
new_file ids owner folder expiry = record {
  id = ids.file;
  owner_id = owner;
  object_id = ids.object;
  folder_id = folder;
  state = processing;
  expires_at = expiry;
  deleted_at = none;
  revision = 1;
}

abbrev pub new_upload : Surroundings → Ids → ℕ → ℕ → Settings → Upload
new_upload at ids owner size s = record {
  id = ids.upload;
  owner_id = owner;
  file_id = ids.file;
  object_id = ids.object;
  object_key = ids.object;
  storage_upload_id = none;
  size = size;
  part_size = part_size size s.part_mib;
  state = created;
  bytes_confirmed = 0;
  failure_count = 0;
  error_code = none;
  created_at = at.now;
  updated_at = at.now;
  expires_at = at.now + s.upload_timeout_hours * 3600000;
}

unfoldable pub insert_rows : Upload → FileRow → FileObject → Db → Db
insert_rows u f o db = record db {
  uploads = u ∷ db.uploads;
  files = f ∷ db.files;
  objects = λ k. if k == u.object_id then some o else db.objects k;
}

-- `UPDATE uploads SET state='FAILED',error_code='INIT_FAILED',failure_count=failure_count+1`
abbrev pub fail_init : Upload → Upload
fail_init u = record u {
  state = UploadState.failed;
  error_code = some init_failed;
  failure_count = u.failure_count + 1;
}

-- The session of `multipart_sessions`, and `UPDATE uploads SET state='UPLOADING'`.
abbrev pub start_session : ℕ → Upload → Upload
start_session session u = record u { storage_upload_id = some session; state = uploading }

-- The checks of the handler, in its order, down to the transaction: they read the settings that the
-- rest of the handler goes by.
unfoldable pub check_request :
    Surroundings → Result (Unit {0}) → ℕ → User → NewUpload → Db → Result Settings
unfolding member
check_request at rate owner user i db = check (writable db) λ s.
    check (throw_if (user.anonymous && not s.anonymous_enabled) (api_error 403 request_failed)) λ _.
      check rate λ _.
        check (throw_if (is_cooling_down s owner at.now db) (api_error 429 upload_cooldown)) λ _.
          check (throw_if (member i.extension s.blocked_extensions) (api_error 415 request_failed))
            λ _.
              check (throw_if (is_past at.now i.expires_at) (api_error 400 request_failed))
                λ _. ok s

module _ (os : ObjectStore) where
  open os use {Store}

  -- The first transaction: the reservation and the rows.
  unfoldable pub record_intent :
      Surroundings → Ids → ℕ → User → NewUpload → Settings → Action Store (Unit {0})
  record_intent at ids owner user i s = tx do
    gets (reserve at owner i.size)
    gets (ensure_folder i.folder_id owner)
    modify (
        insert_rows (new_upload at ids owner i.size s)
          (new_file ids owner i.folder_id (upload_expiry user s at.now i.expires_at))
          (new_object ids i.size))

  abbrev pub created_answer : Surroundings → Ids → User → NewUpload → Settings → Created
  created_answer at ids user i s = record {
    id = ids.upload;
    file_id = ids.file;
    part_size = part_size i.size s.part_mib;
    part_count = ceil_div i.size (part_size i.size s.part_mib);
    concurrency = s.concurrency;
    expires_at = upload_expiry user s at.now i.expires_at;
  }

  -- `try { … } catch { … throw }`, on the answer of the storage.
  unfoldable pub settle_session : Ids → Result ℕ × Store → Db → Result (Unit {0}) × World Store
  settle_session ids (ok session, store) db =
      (ok tt, record { db = update_upload ids.upload (start_session session) db; store = store })
  settle_session ids (err e, store) db =
      (err e, record { db = update_upload ids.upload fail_init db; store = store })

  unfoldable pub open_session : Ids → Action Store (Unit {0})
  open_session ids w = settle_session ids (os.create w.store ids.object) w.db

  unfoldable pub create_upload :
      Surroundings → Result (Unit {0}) → Ids → ℕ → User → NewUpload → Action Store Created
  create_upload at rate ids owner user i = do
    s ← gets (check_request at rate owner user i)
    record_intent at ids owner user i s
    open_session ids
    pure (created_answer at ids user i s)
