-- ===== src/Database.antt =====
-- The tables of packages/database/migrations that the handlers read and write, and the queries of
-- packages/database/index.ts. Identifiers, texts and digests are numbers; times are milliseconds.
-- A table read by its primary key alone is a function of the key, one that is summed or scanned is a
-- list of rows.
use astra_file_host.Base.{
  ℕ, ◌+◌, Bool, true, false, ◌&&◌, Option, none, some, List, ◌∷◌, ◌==◌, sum_where, count_where,
  Code,
}
use astra_file_host.Settings.{Settings, PlanPolicy, PlanOverride}

pub data FileState : Type 0 where
  processing available quarantined blocked deleted expired purged : FileState

pub data UploadState : Type 0 where
  created uploading finalizing available failed aborted expired : UploadState

pub data UploadError : Type 0 where
  init_failed : UploadError
  rejected : Code → UploadError

-- A row of `uploads` with the object key and the multipart session that `ownedUpload` joins to it.
pub record Upload : Type 0 where
  pub id : ℕ
  pub owner_id : ℕ
  pub file_id : ℕ
  pub object_id : ℕ
  pub object_key : ℕ
  pub storage_upload_id : Option ℕ
  pub size : ℕ
  pub part_size : ℕ
  pub state : UploadState
  pub bytes_confirmed : ℕ
  pub failure_count : ℕ
  pub error_code : Option UploadError
  pub created_at : ℕ
  pub updated_at : ℕ
  pub expires_at : ℕ

-- A row of `upload_parts`.
pub record PartRow : Type 0 where
  pub number : ℕ
  pub expected_bytes : ℕ
  pub checksum : ℕ
  pub etag : Option ℕ

pub record FileRow : Type 0 where
  pub id : ℕ
  pub owner_id : ℕ
  pub object_id : ℕ
  pub folder_id : Option ℕ
  pub state : FileState
  pub expires_at : Option ℕ
  pub deleted_at : Option ℕ
  pub revision : ℕ

pub record FileObject : Type 0 where
  pub object_key : ℕ
  pub expected_size : ℕ
  pub size : Option ℕ
  pub etag : Option ℕ
  pub checksum_sha256 : Option ℕ
  pub mime : Option ℕ
  pub state : FileState

pub record Folder : Type 0 where
  pub id : ℕ
  pub owner_id : ℕ
  pub parent_id : Option ℕ
  pub deleted_at : Option ℕ

pub data Visibility : Type 0 where
  public private : Visibility

pub record Share : Type 0 where
  pub id : ℕ
  pub owner_id : ℕ
  pub capability_digest : ℕ
  pub visibility : Visibility
  pub password_hash : Option ℕ
  pub enabled : Bool
  pub expires_at : Option ℕ
  pub max_downloads : Option ℕ
  pub download_count : ℕ
  pub view_count : ℕ
  pub version : ℕ

-- A row of `share_items`, which names a file or a folder.
pub record ShareItem : Type 0 where
  pub share_id : ℕ
  pub file_id : Option ℕ
  pub folder_id : Option ℕ

-- A row of `file_versions`, with the owner of its file, which the queries join to it.
pub record Version : Type 0 where
  pub id : ℕ
  pub file_id : ℕ
  pub object_id : ℕ
  pub owner_id : ℕ
  pub revision : ℕ
  pub created_at : ℕ

-- A row of `share_access`: a session that a visitor of a share holds.
pub record ShareAccess : Type 0 where
  pub share_id : ℕ
  pub token_hash : ℕ
  pub version : ℕ
  pub password_verified : Bool
  pub expires_at : ℕ

-- A row of `downloads`: the grant of a download.
pub record Download : Type 0 where
  pub file_id : ℕ
  pub share_id : Option ℕ
  pub owner_id : ℕ
  pub bytes_authorized : ℕ
  pub created_at : ℕ

pub data JobKind : Type 0 where
  cleanup reconcile statistics hash purge scan backup : JobKind

pub data JobStatus : Type 0 where
  pending running completed failed : JobStatus

pub record Job : Type 0 where
  pub kind : JobKind
  pub target : ℕ
  pub status : JobStatus
  pub attempts : ℕ
  pub updated_at : ℕ

pub data AuditAction : Type 0 where
  upload_completed upload_aborted upload_expired share_created share_updated share_revoked :
      AuditAction
  file_expired trash_expired storage_purged malware_detected scan_clean file_version_restored
        file_version_replaced :
      AuditAction
  file_updated file_trashed file_restored file_moved file_copied file_purged folder_created
        folder_updated admin_file_updated :
      AuditAction
  owner_bootstrapped account_registered account_login password_was_reset password_changed
        session_renamed session_revoked sessions_others_revoked email_changed email_verified
        api_key_created api_key_revoked admin_user_updated admin_api_key_revoked job_requested
        job_retried abuse_reviewed ip_unblocked :
      AuditAction
  orphan_object_removed orphan_multipart_aborted storage_object_missing : AuditAction

-- A row of `audit_logs`: the actor, what was done, and to what.
pub record AuditEntry : Type 0 where
  pub actor : Option ℕ
  pub action : AuditAction
  pub target : ℕ

pub record User : Type 0 where
  pub anonymous : Bool
  pub active : Bool
  pub plan : PlanPolicy
  pub quota : PlanOverride

pub record Db : Type 0 where
  pub settings : Settings
  pub users : ℕ → Option User
  pub uploads : List Upload
  pub parts : ℕ → List PartRow
  pub files : List FileRow
  pub objects : ℕ → Option FileObject
  pub versions : List Version
  pub folders : List Folder
  pub shares : List Share
  pub share_items : List ShareItem
  pub share_access : List ShareAccess
  pub downloads : List Download
  pub jobs : List Job
  pub audit_logs : List AuditEntry

-- `state IN ('CREATED','UPLOADING','FINALIZING','FAILED')`
abbrev pub is_incomplete : UploadState → Bool
is_incomplete created = true
is_incomplete uploading = true
is_incomplete finalizing = true
is_incomplete UploadState.failed = true
is_incomplete UploadState.available = false
is_incomplete aborted = false
is_incomplete UploadState.expired = false

-- `error_code IS DISTINCT FROM 'INIT_FAILED'`
abbrev pub is_initialised : Option UploadError → Bool
is_initialised none = true
is_initialised (some init_failed) = false
is_initialised (some (rejected c)) = true

abbrev pub reserves : ℕ → Upload → Bool
reserves owner u = u.owner_id == owner && (is_incomplete u.state && is_initialised u.error_code)

-- `state NOT IN ('PROCESSING','PURGED','EXPIRED')`
abbrev pub is_charged : FileState → Bool
is_charged processing = false
is_charged FileState.expired = false
is_charged purged = false
is_charged FileState.available = true
is_charged quarantined = true
is_charged blocked = true
is_charged deleted = true

abbrev pub charges : ℕ → FileRow → Bool
charges owner f = f.owner_id == owner && is_charged f.state

-- The columns of the view `account_storage_usage`. `expected_size` is that of the object a file
-- refers to; a file without an object adds nothing, as in the view's join.
abbrev pub size_expected : Option FileObject → ℕ
size_expected none = 0
size_expected (some o) = o.expected_size

unfoldable pub expected_size : Db → ℕ → ℕ
expected_size db object = size_expected (db.objects object)

unfoldable pub used_bytes : Db → ℕ → ℕ
used_bytes db owner =
    sum_where (charges owner) (λ f. expected_size db f.object_id) db.files
    + sum_where (λ (v : Version). v.owner_id == owner) (λ v. expected_size db v.object_id)
        db.versions

unfoldable pub reserved_bytes : Db → ℕ → ℕ
reserved_bytes db owner = sum_where (reserves owner) (λ u. u.size) db.uploads

unfoldable pub incomplete_uploads : Db → ℕ → ℕ
incomplete_uploads db owner = count_where (reserves owner) db.uploads

-- `audit(actor, action, target)`
abbrev pub audit : Option ℕ → AuditAction → ℕ → Db → Db
audit actor action target db = record db {
  audit_logs = record { actor = actor; action = action; target = target } ∷ db.audit_logs;
}
