-- ===== src/Tests/Fixture.antt =====
-- An object storage that keeps one object, and a database with one account and one upload of 12 MiB in
-- two parts, for the tests.
use astra_file_host.Base.{
  ◌*◌, ◌==◌, true, false, Option, none, some, List, [], ◌∷◌, sum_of, if◌then◌else◌, Result, ok, err,
  not_found,
}
use astra_file_host.Validation.{mib, StoragePart}
use astra_file_host.Settings.{Settings, PlanPolicy, PlanOverride}
use astra_file_host.Database.{Db, Upload, uploading, PartRow, FileRow, FileObject, processing, User}
use astra_file_host.Storage.{ObjectStore, Head}
use astra_file_host.Transaction.{World}
use astra_file_host.Limits.{Surroundings, gib}
use astra_file_host.Shares.Capability.{Fresh}

-- The parts received, and the assembled object.
pub record Disk : Type 0 where
  pub received : List StoragePart
  pub object : Option Head

abbrev pub looked_up : Option Head → Result Head
looked_up none = err not_found
looked_up (some h) = ok h

abbrev pub assembled : List StoragePart → Head
assembled ps = record { size = sum_of (λ (p : StoragePart). p.size) ps; etag = 5; checksum = none }

abbrev pub disk_store : ObjectStore
disk_store = record {
  Store = Disk;
  create = λ s key. (ok 7, s);
  sign_part = λ s key session number size checksum. ok number;
  list_parts = λ s key session. ok s.received;
  complete = λ s key session parts. (ok tt, record s { object = some (assembled parts) });
  abort = λ s key session. (ok tt, record s { received = [] });
  remove = λ s key. (ok tt, record s { object = none });
  head = λ s key. looked_up s.object;
  prefix_mime = λ s key. ok 1;
}

abbrev pub settings : Settings
settings = record {
  share_passwords_enabled = true;
  anonymous_sharing_enabled = true;
  default_max_downloads = none;
  anonymous_enabled = true;
  maintenance = false;
  read_only = false;
  part_mib = 32;
  concurrency = 8;
  upload_timeout_hours = 24;
  anonymous_retention_days = 7;
  default_share_hours = 168;
  versioning_enabled = true;
  max_version_count = 10;
  max_version_days = 30;
  anonymous_concurrent_uploads = 2;
  incomplete_upload_limit = 10;
  incomplete_reserved_gib = 20;
  failed_upload_threshold = 5;
  upload_cooldown_minutes = 10;
  critical_free_gib = 5;
  minimum_free_gib = 10;
  blocked_extensions = 99 ∷ [];
  scanning_enabled = false;
  guest = record {
    file_bytes = gib;
    storage_bytes = 2 * gib;
    daily_bytes = 2 * gib;
    monthly_bytes = 8 * gib;
    bandwidth_bytes = 8 * gib;
  };
}

abbrev pub plan : PlanPolicy
plan = record {
  storage_bytes = 10 * gib;
  file_bytes = 5 * gib;
  daily_bytes = 10 * gib;
  monthly_bytes = 100 * gib;
  bandwidth_bytes = 100 * gib;
  concurrent_uploads = 4;
  concurrent_downloads = 4;
  share_count = 20;
  max_share_hours = 720;
  version_count = 10;
  version_days = 30;
  api_enabled = true;
}

abbrev pub no_override : PlanOverride
no_override = record {
  storage_bytes = none;
  file_bytes = none;
  daily_bytes = none;
  monthly_bytes = none;
  bandwidth_bytes = none;
  concurrent_uploads = none;
  concurrent_downloads = none;
  share_count = none;
  max_share_hours = none;
  version_count = none;
  version_days = none;
  api_enabled = none;
}

abbrev pub user : User
user = record { anonymous = false; active = true; plan = plan; quota = no_override }

abbrev pub upload : Upload
upload = record {
  id = 1;
  owner_id = 10;
  file_id = 2;
  object_id = 3;
  object_key = 3;
  storage_upload_id = some 7;
  size = 12 * mib;
  part_size = 8 * mib;
  state = uploading;
  bytes_confirmed = 0;
  failure_count = 0;
  error_code = none;
  created_at = 1000;
  updated_at = 1000;
  expires_at = 90000000;
}

abbrev pub file : FileRow
file = record {
  id = 2;
  owner_id = 10;
  object_id = 3;
  folder_id = none;
  state = processing;
  expires_at = none;
  deleted_at = none;
  revision = 1;
}

abbrev pub object : FileObject
object = record {
  object_key = 3;
  expected_size = 12 * mib;
  size = none;
  etag = none;
  checksum_sha256 = none;
  mime = none;
  state = processing;
}

abbrev pub signed_rows : List PartRow
signed_rows =
    record { number = 1; expected_bytes = 8 * mib; checksum = 41; etag = none }
    ∷ record { number = 2; expected_bytes = 4 * mib; checksum = 42; etag = none }
    ∷ []

abbrev pub received_parts : List StoragePart
received_parts =
    record { number = 1; size = 8 * mib; etag = 51; checksum = some 41 }
    ∷ record { number = 2; size = 4 * mib; etag = 52; checksum = none }
    ∷ []

abbrev pub empty_db : Db
empty_db = record {
  settings = settings;
  users = λ k. if k == 10 then some user else none;
  uploads = [];
  parts = λ k. [];
  files = [];
  objects = λ k. none;
  versions = [];
  folders = [];
  shares = [];
  share_items = [];
  share_access = [];
  downloads = [];
  jobs = [];
  audit_logs = [];
}

abbrev pub db : Db
db = record empty_db {
  uploads = upload ∷ [];
  parts = λ k. if k == 1 then signed_rows else [];
  files = file ∷ [];
  objects = λ k. if k == 3 then some object else none;
}

-- All parts have arrived.
abbrev pub ready : World Disk
ready = record { db = db; store = record { received = received_parts; object = none } }

-- The second part is missing.
abbrev pub partial : World Disk
partial = record {
  db = db;
  store = record {
    received = record { number = 1; size = 8 * mib; etag = 51; checksum = some 41 } ∷ [];
    object = none;
  };
}

abbrev pub empty_world : World Disk
empty_world = record { db = empty_db; store = record { received = []; object = none } }

abbrev pub fresh : Fresh
fresh = record { now = 2000; id = 77; secret = 88; digest = 89 }

abbrev pub at : Surroundings
at = record { now = 2000; day_start = 0; month_start = 0; free_bytes = 500 * gib }
