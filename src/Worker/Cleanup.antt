-- ===== src/Worker/Cleanup.antt =====
-- apps/worker/src/index.ts: the part of `cleanup` that ends files and shares, and when the loop
-- enqueues its jobs. The days that the trash is kept (`trashDays`) are an argument; the rows of other
-- tables that `cleanup` deletes by their age alone are left out.
use astra_file_host.Base.{
  ℕ, suc, ◌+◌, ◌*◌, Bool, true, false, ◌&&◌, ◌||◌, Option, none, some, List, [], ◌∷◌, ◌==◌, ltb,
  leb, length, select, update_where,
}
use astra_file_host.Database.{
  Db, FileRow, FileState, Share, Folder, Job, JobKind, processing, purged, purge, audit,
  file_expired, trash_expired, cleanup, statistics, reconcile, backup,
}
use astra_file_host.Jobs.{enqueue, enqueue_row}
use astra_file_host.Uploads.{touch, set_file_state}
use astra_file_host.Files.{is_deleted}
use astra_file_host.Files.Folders.{rounds}

-- `t<now()`, which null never fulfils.
abbrev pub is_before : ℕ → Option ℕ → Bool
is_before now none = false
is_before now (some t) = ltb t now

-- `state NOT IN ('PURGED','EXPIRED','PROCESSING')`
abbrev pub can_expire : FileState → Bool
can_expire purged = false
can_expire FileState.expired = false
can_expire processing = false
can_expire _ = true

abbrev pub is_overdue : ℕ → FileRow → Bool
is_overdue now f = is_before now f.expires_at && can_expire f.state

abbrev pub set_where : (FileRow → Bool) → FileState → Db → Db
set_where p state db = record db {
  files = update_where p (λ f. touch (set_file_state state f)) db.files;
}

-- `for(const f of expired)await tx(…)`
unfoldable pub expire_files : ℕ → List FileRow → Db → Db
expire_files now [] db = db
expire_files now (f ∷ fs) db = expire_files now fs (
    audit none file_expired f.id (
      enqueue now purge f.object_id
        (set_where (λ x. x.id == f.id && is_before now x.expires_at) FileState.expired db)))

abbrev pub end_share : Share → Share
end_share s = record s { enabled = false; version = suc s.version }

-- `UPDATE shares SET enabled=false,version=version+1 WHERE enabled AND expires_at<now()`
unfoldable pub end_shares : ℕ → Db → Db
end_shares now db = record db {
  shares = update_where (λ s. s.enabled && is_before now s.expires_at) end_share db.shares;
}

abbrev pub day_ms : ℕ
day_ms = 86400000

-- `deleted_at<now()-$1*interval '1 day'`
abbrev pub is_kept_past : ℕ → ℕ → Option ℕ → Bool
is_kept_past now days none = false
is_kept_past now days (some t) = ltb (t + days * day_ms) now

abbrev pub is_old_trash : ℕ → ℕ → FileRow → Bool
is_old_trash now days f = is_deleted f.state && is_kept_past now days f.deleted_at

-- `for(const f of trash)await tx(…)`
unfoldable pub empty_trash : ℕ → List FileRow → Db → Db
empty_trash now [] db = db
empty_trash now (f ∷ fs) db = empty_trash now fs (
    audit none trash_expired f.id (
      enqueue now purge f.object_id
        (set_where (λ x. x.id == f.id && is_deleted x.state) purged db)))

abbrev pub is_old_folder : ℕ → ℕ → List Folder → ℕ → Bool
is_old_folder now days [] id = false
is_old_folder now days (f ∷ fs) id =
    (f.id == id && is_kept_past now days f.deleted_at) || is_old_folder now days fs id

-- `WITH RECURSIVE tree AS (…)`: the folders deleted long ago, and all that lies under them.
unfoldable pub old_tree : ℕ → ℕ → List Folder → ℕ → Bool
old_tree now days folders = rounds folders (length folders) (is_old_folder now days folders)

abbrev pub in_tree : (ℕ → Bool) → Option ℕ → Bool
in_tree tree none = false
in_tree tree (some folder) = tree folder

-- `state NOT IN ('PURGED','PROCESSING')`
abbrev pub can_purge : FileState → Bool
can_purge purged = false
can_purge processing = false
can_purge _ = true

-- `for(const f of folders){…}`
unfoldable pub purge_files : ℕ → List FileRow → Db → Db
purge_files now [] db = db
purge_files now (f ∷ fs) db =
    purge_files now fs (enqueue now purge f.object_id (set_where (λ x. x.id == f.id) purged db))

unfoldable pub purge_folders : ℕ → ℕ → Db → Db
unfolding old_tree purge_files
purge_folders now days db =
    purge_files now
      (select
        (λ (f : FileRow). in_tree (old_tree now days db.folders) f.folder_id && can_purge f.state)
        db.files)
      db

-- The four in their order.
unfoldable pub clean_files : ℕ → ℕ → Db → Db
unfolding expire_files end_shares empty_trash purge_folders
clean_files now days db =
    let expired = expire_files now (select (is_overdue now) db.files) db in
    let ended = end_shares now expired in
    let emptied = empty_trash now (select (is_old_trash now days) ended.files) ended in
    purge_folders now days emptied

-- `nextCleanup`, `nextStats`, `nextReconcile` and `nextBackup`.
pub record Timetable : Type 0 where
  pub next_cleanup : ℕ
  pub next_stats : ℕ
  pub next_reconcile : ℕ
  pub next_backup : ℕ

abbrev enqueue_if : Bool → ℕ → JobKind → List Job → List Job
enqueue_if true now kind jobs = enqueue_row now kind 0 jobs
enqueue_if false now kind jobs = jobs

abbrev postpone : Bool → ℕ → ℕ → ℕ
postpone true later old = later
postpone false later old = old

-- A round of the loop, up to the claim; the target `scheduled` is 0.
unfoldable pub schedule : ℕ → Bool → Timetable × List Job → Timetable × List Job
unfolding enqueue_row
schedule now backups (t, jobs) =
    let clean = leb t.next_cleanup now in
    let stats = leb t.next_stats now in
    let recon = leb t.next_reconcile now in
    let back = leb t.next_backup now && backups in
    (
      record {
        next_cleanup = postpone clean (now + 60000) t.next_cleanup;
        next_stats = postpone stats (now + 60000) t.next_stats;
        next_reconcile = postpone recon (now + 21600000) t.next_reconcile;
        next_backup = postpone back (now + 86400000) t.next_backup;
      },
      enqueue_if back now backup (
          enqueue_if recon now reconcile
            (enqueue_if stats now statistics (enqueue_if clean now cleanup jobs))),
    )
