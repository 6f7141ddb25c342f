-- ===== src/Files/Charge.antt =====
-- What the actions on many files (apps/api/src/files.ts `POST /api/files/bulk`) add to the storage
-- account of their owner.
use astra_file_host.Base.{
  ℕ, ◌+◌, ◌≤◌, ◌≡◌, refl, ap, List, [], ◌∷◌, Option, some, arith, max, find, ltb, find-holds,
  if◌then◌else◌, ok, >>=-eq-ok, ◌&&◌, inl, inr, subst, ◌∙◌, Option-cases, none, not, Failure,
  api_error, request_failed, throw_if-eq-ok, ok-injective,
}
use astra_file_host.Settings.{PlanPolicy}
use astra_file_host.Database.{Db, FileRow, expected_size, used_bytes, reserved_bytes, purged, purge}
use astra_file_host.Entitlements.{effective}
use astra_file_host.Limits.{writable}
use astra_file_host.Uploads.{set_file_state}
use astra_file_host.Shares.Download.{object_state}
use astra_file_host.Files.{
  ensure_given, has_destination, is_purge, owned_file, action_name, BulkRequest, BulkAction,
  to_trash, restore, move, copy, to_purge, is_owned, trash, untrash, move_to, is_completed,
  is_deleted, is_listed, copy_row, bulk_change, bulk_one, bulk_loop, bulk, distinct,
}
use astra_file_host.Files.Account.{
  HasUniqueIds, Held, update-Held, copy-Held, Held-enqueue, Held-audit, Held-refl, Held-trans,
}

abbrev pub refused : Failure
refused = api_error 409 request_failed

-- The file of the user is found under its own id.
pub owned_file_lem :
    (id owner : ℕ) (db : Db) (f : FileRow)
    → owned_file id owner db ≡ ok f
    → find (is_owned f.id owner) db.files ≡ some f
owned_file_lem id owner db f h = elim (Option-cases (find (is_owned id owner) db.files)) [
  | inl absent ↦ ground (arith, absent)
  | inr (g, found) ↦
      let same : g ≡ f = ground (arith, found, h) in
      let key : id ≡ f.id = ground (arith, find-holds (is_owned id owner) db.files g found, same) in
      subst (λ k. find (is_owned k owner) db.files ≡ some f) key (found ∙ ap some same)
]

bulk_change-Held :
    (now : ℕ) (new_id : ℕ → ℕ) (owner : ℕ) (folder : Option ℕ) (action : BulkAction) (f : FileRow)
    (db db' : Db) (policy : PlanPolicy)
    → find (is_owned f.id owner) db.files ≡ some f
    → HasUniqueIds db.files
    → effective owner db ≡ ok policy
    → bulk_change now new_id owner folder action f db ≡ ok db'
    → Held owner policy.storage_bytes db db'
unfolding bulk_change
bulk_change-Held now new_id owner folder to_trash f db db' policy found unique p h =
    let (completed, done) = throw_if-eq-ok (not (is_completed f.state)) refused _ h in
    subst (Held owner policy.storage_bytes db) (ok-injective done) (
      update-Held owner f.id db f (trash now) policy.storage_bytes found unique (λ x. refl)
        (λ size. ground (arith, completed)))
bulk_change-Held now new_id owner folder restore f db db' policy found unique p h =
    let (in_trash, checked) = throw_if-eq-ok (not (is_deleted f.state)) refused _ h in
    let (usable, done) =
      throw_if-eq-ok (not (object_state (db.objects f.object_id))) refused _ checked in
    subst (Held owner policy.storage_bytes db) (ok-injective done) (
      update-Held owner f.id db f untrash policy.storage_bytes found unique (λ x. refl)
        (λ size. ground (arith, in_trash)))
bulk_change-Held now new_id owner folder move f db db' policy found unique p h =
    subst (Held owner policy.storage_bytes db) (ok-injective h) (
      update-Held owner f.id db f (move_to folder) policy.storage_bytes found unique (λ x. refl)
        (λ size. ground arith))
bulk_change-Held now new_id owner folder copy f db db' policy found unique p h =
    let (listed, checked) = throw_if-eq-ok (not (is_listed f.state)) refused _ h in
    let (quota, known, within) = >>=-eq-ok (effective owner db) _ checked in
    let (room, done) =
      throw_if-eq-ok
        (ltb quota.storage_bytes
          (used_bytes db owner + reserved_bytes db owner + expected_size db f.object_id))
        (api_error 413 request_failed) _ within in
    copy-Held owner policy.storage_bytes db db' (copy_row (new_id f.id) folder f)
      (ground (arith, room, known, p)) unique done
bulk_change-Held now new_id owner folder to_purge f db db' policy found unique p h =
    let (in_trash, done) = throw_if-eq-ok (not (is_deleted f.state)) refused _ h in
    subst (Held owner policy.storage_bytes db) (ok-injective done) (
      Held-enqueue now purge f.object_id owner policy.storage_bytes db _ (
        update-Held owner f.id db f (set_file_state purged) policy.storage_bytes found unique
          (λ x. refl) (λ size. ground (arith, in_trash))))

module _ (now : ℕ) (new_id : ℕ → ℕ) (owner : ℕ) (i : BulkRequest) (policy : PlanPolicy) where
  bulk_one-Held :
      (id : ℕ) (db db' : Db)
      → HasUniqueIds db.files
      → effective owner db ≡ ok policy
      → bulk_one now new_id owner i id db ≡ ok db'
      → Held owner policy.storage_bytes db db'
  unfolding bulk_one
  bulk_one-Held id db db' unique p h =
      let (f, owned, changing) = >>=-eq-ok (owned_file id owner db) _ h in
      let (changed, change, done) =
        >>=-eq-ok (bulk_change now new_id owner i.folder_id i.action f db) _ changing in
      subst (Held owner policy.storage_bytes db) (ok-injective done) (
        Held-audit (some owner) (action_name i.action) id owner policy.storage_bytes db changed (
          bulk_change-Held now new_id owner i.folder_id i.action f db changed policy
            (owned_file_lem id owner db f owned) unique p change))

  bulk_loop-Held :
      (ids : List ℕ) (db db' : Db)
      → HasUniqueIds db.files
      → effective owner db ≡ ok policy
      → bulk_loop now new_id owner i ids db ≡ ok db'
      → Held owner policy.storage_bytes db db'
  unfolding bulk_loop
  bulk_loop-Held [] db db' unique p h =
      subst (Held owner policy.storage_bytes db) (ok-injective h)
        (Held-refl owner policy.storage_bytes db unique)
  bulk_loop-Held (id ∷ ids) db db' unique p h =
      let (next, step, rest) = >>=-eq-ok (bulk_one now new_id owner i id db) _ h in
      let held = bulk_one-Held id db next unique p step in
      Held-trans owner policy.storage_bytes db next db' held
        (bulk_loop-Held ids next db' held.unique (held.same_policy ∙ p) rest)

  -- A bulk request that succeeds, whatever it does to however many files, leaves no id with two rows,
  -- and the used and reserved bytes of its owner exceed the storage of the owner's policy only if
  -- they did before, and by no more. It is required that no id had two rows.
  pub bulk-within_quota :
      (db db' : Db)
      → HasUniqueIds db.files
      → effective owner db ≡ ok policy
      → bulk now new_id owner i db ≡ ok db'
      → HasUniqueIds db'.files
        × (used_bytes db' owner + reserved_bytes db' owner
            ≤ max (used_bytes db owner + reserved_bytes db owner) policy.storage_bytes)
  unfolding bulk
  bulk-within_quota db db' unique p h =
      let (s, open_for_writing, checked) = >>=-eq-ok (writable db) _ h in
      let (confirmed, prepared) =
        throw_if-eq-ok (is_purge i.action && not i.confirmed) (api_error 400 request_failed) _
          checked in
      let (done, destination, loop) =
        >>=-eq-ok
          (ensure_given (if has_destination i.action then some i.folder_id else none) owner db) _
          prepared in
      let held = bulk_loop-Held (distinct [] i.ids) db db' unique p loop in
      (held.unique, held.bounded)
