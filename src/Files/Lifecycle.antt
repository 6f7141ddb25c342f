-- ===== src/Files/Lifecycle.antt =====
-- The states of files under the actions of their owner (apps/api/src/files.ts `POST /api/files/bulk`):
-- the trash comes before the end.
use astra_file_host.Base.{
  ℕ, ◌+◌, ◌≡◌, refl, ◌⊎◌, inl, inr, Bool, true, false, ◌&&◌, Option, some, none, List, [], ◌∷◌,
  ◌==◌, find, find-update_where, find-holds, arith, ok, api_error, >>=-eq-ok, throw_if-eq-ok,
  ok-injective, ==_iff, count_where-find, ap, not, ltb, count_where, Bool-cases, request_failed,
  none, if◌then◌else◌, ◌∙◌, sym, subst,
}
use astra_file_host.Database.{
  Db, used_bytes, reserved_bytes, expected_size, FileRow, FileState, deleted, purged, quarantined,
  blocked,
}
use astra_file_host.Limits.{writable}
use astra_file_host.Uploads.{update_file, touch}
use astra_file_host.Uploads.{set_file_state}
use astra_file_host.Entitlements.{effective}
use astra_file_host.Shares.Download.{object_state}
use astra_file_host.Files.Charge.{owned_file_lem, refused}
use astra_file_host.Files.{
  insert_file, bulk_change, bulk_one, is_completed, is_deleted, is_listed, is_purge,
  has_destination, trash, untrash, move_to, copy_row, ensure_given, owned_file, is_owned,
  BulkAction, BulkRequest, to_trash, restore, move, copy, to_purge, bulk_loop, bulk, distinct,
}

-- What each action of a bulk request may make of the state of a file.
unfoldable pub passes : BulkAction → FileState → FileState → Bool
passes to_trash FileState.available deleted = true
passes to_trash quarantined deleted = true
passes to_trash blocked deleted = true
passes restore deleted FileState.available = true
passes to_purge deleted purged = true
passes _ _ _ = false

-- The file is still there, and has its state or one that the action may give it.
abbrev pub Passed : ℕ → BulkAction → FileRow → ℕ → Db → Type 0
Passed owner action f k db =
    (g : FileRow) × (find (is_owned k owner) db.files ≡ some g)
    × ((g.state ≡ f.state) ⊎ (passes action f.state g.state ≡ true))

-- Two steps of one action are one at most, as no action continues another of its kind.
passes_once :
    (action : BulkAction) (a b c : FileState)
    → (b ≡ a) ⊎ (passes action a b ≡ true)
    → (c ≡ b) ⊎ (passes action b c ≡ true)
    → (c ≡ a) ⊎ (passes action a c ≡ true)
unfolding passes
passes_once action a b c (inl h) (inl k) = inl (k ∙ h)
passes_once action a b c (inl h) (inr k) = inr (subst (λ x. passes action x c ≡ true) h k)
passes_once action a b c (inr h) (inl k) = inr (subst (λ x. passes action a x ≡ true) (sym k) h)
passes_once action a b c (inr h) (inr k) = absurd (ground (arith, h, k))

can_trash : (a : FileState) → is_completed a ≡ true → passes to_trash a deleted ≡ true
unfolding passes
can_trash a h = ground (arith, h)

can_restore : (a : FileState) → is_deleted a ≡ true → passes restore a FileState.available ≡ true
unfolding passes
can_restore a h = ground (arith, h)

can_purge : (a : FileState) → is_deleted a ≡ true → passes to_purge a purged ≡ true
unfolding passes
can_purge a h = ground (arith, h)

Passed-update :
    (owner id k : ℕ) (action : BulkAction) (f x : FileRow) (g : FileRow → FileRow) (db : Db)
    → ((y : FileRow) → (g y).id ≡ y.id)
    → ((y : FileRow) → (g y).owner_id ≡ y.owner_id)
    → find (is_owned id owner) db.files ≡ some f
    → find (is_owned k owner) db.files ≡ some x
    → (((g f).state ≡ f.state) ⊎ (passes action f.state (g f).state ≡ true))
    → Passed owner action x k (update_file id g db)
Passed-update owner id k action f x g db same_id same_owner found known step =
    let moved : find (is_owned k owner) (update_file id g db).files
        ≡ some (if x.id == id then touch (g x) else x) =
      ground (
        arith,
        known,
        find-update_where (is_owned k owner) (λ r. r.id == id) (λ r. touch (g r)) db.files
            (λ y. ground (arith, same_id y, same_owner y)),
      ) in
    elim (Bool-cases (x.id == id)) [
      | inr other ↦ (x, ground (arith, moved, other), inl refl)
      | inl here ↦
          let key : id ≡ k = ground (arith, here, find-holds (is_owned k owner) db.files x known) in
          let same : f ≡ x =
            ground (arith, sym found ∙ ap (λ j. find (is_owned j owner) db.files) key ∙ known) in
          (
            touch (g x),
            ground (arith, moved, here),
            subst
                (λ (r : FileRow).
                  ((g r).state ≡ r.state) ⊎ (passes action r.state (g r).state ≡ true))
                same step,
          )
    ]

Passed-insert :
    (owner k : ℕ) (action : BulkAction) (x row : FileRow) (db db' : Db)
    → find (is_owned k owner) db.files ≡ some x
    → insert_file row db ≡ ok db'
    → Passed owner action x k db'
unfolding insert_file
Passed-insert owner k action x row db db' known h =
    elim (Bool-cases (count_where (λ (f : FileRow). f.id == row.id) db.files == 0)) [
      | inr taken ↦ absurd (ground (arith, taken, h))
      | inl free ↦ (
        x,
        ap (λ d. find (is_owned k owner) d.files) (sym (inserted free)) ∙ skipped free,
        inl refl,
      )
    ]
  where
    inserted :
        (count_where (λ (f : FileRow). f.id == row.id) db.files == 0) ≡ true
        → record db { files = row ∷ db.files } ≡ db'
    inserted free = ground (arith, free, h)

    skipped :
        (count_where (λ (f : FileRow). f.id == row.id) db.files == 0) ≡ true
        → find (is_owned k owner) (row ∷ db.files) ≡ some x
    skipped free = elim (Bool-cases (row.id == k)) [
      | inl taken ↦ absurd (
          ground (
            arith,
            free,
            ap (λ j. count_where (λ (f : FileRow). f.id == j) db.files) ((==_iff row.id k).0 taken),
            count_where-find (λ f. f.id == k) (λ f. f.owner_id == owner) db.files x known,
          ))
      | inr other ↦ ground (arith, other, known)
    ]

-- One file of the loop.
bulk_change-Passed :
    (now : ℕ) (new_id : ℕ → ℕ) (owner : ℕ) (folder : Option ℕ) (action : BulkAction) (f x : FileRow)
    (k : ℕ) (db db' : Db)
    → find (is_owned f.id owner) db.files ≡ some f
    → find (is_owned k owner) db.files ≡ some x
    → bulk_change now new_id owner folder action f db ≡ ok db'
    → Passed owner action x k db'
unfolding bulk_change
bulk_change-Passed now new_id owner folder to_trash f x k db db' found known h =
    let (completed, done) = throw_if-eq-ok (not (is_completed f.state)) refused _ h in
    subst (Passed owner to_trash x k) (ok-injective done) (
      Passed-update owner f.id k to_trash f x (trash now) db (λ y. refl) (λ y. refl) found known
        (inr (can_trash f.state (ground (arith, completed)))))
bulk_change-Passed now new_id owner folder restore f x k db db' found known h =
    let (in_trash, checked) = throw_if-eq-ok (not (is_deleted f.state)) refused _ h in
    let (usable, done) =
      throw_if-eq-ok (not (object_state (db.objects f.object_id))) refused _ checked in
    subst (Passed owner restore x k) (ok-injective done) (
      Passed-update owner f.id k restore f x untrash db (λ y. refl) (λ y. refl) found known
        (inr (can_restore f.state (ground (arith, in_trash)))))
bulk_change-Passed now new_id owner folder move f x k db db' found known h =
    subst (Passed owner move x k) (ok-injective h) (
      Passed-update owner f.id k move f x (move_to folder) db (λ y. refl) (λ y. refl) found known
        (inl refl))
bulk_change-Passed now new_id owner folder copy f x k db db' found known h =
    let (listed, checked) = throw_if-eq-ok (not (is_listed f.state)) refused _ h in
    let (quota, policy, within) = >>=-eq-ok (effective owner db) _ checked in
    let (room, done) =
      throw_if-eq-ok
        (ltb quota.storage_bytes
          (used_bytes db owner + reserved_bytes db owner + expected_size db f.object_id))
        (api_error 413 request_failed) _ within in
    Passed-insert owner k copy x (copy_row (new_id f.id) folder f) db db' known done
bulk_change-Passed now new_id owner folder to_purge f x k db db' found known h =
    let (in_trash, done) = throw_if-eq-ok (not (is_deleted f.state)) refused _ h in
    subst (Passed owner to_purge x k) (ok-injective done) (
      Passed-update owner f.id k to_purge f x (set_file_state purged) db (λ y. refl) (λ y. refl)
        found known (inr (can_purge f.state (ground (arith, in_trash)))))

module _ (now : ℕ) (new_id : ℕ → ℕ) (owner : ℕ) (i : BulkRequest) (k : ℕ) where
  bulk_loop-Passed :
      (ids : List ℕ) (x : FileRow) (db db' : Db)
      → find (is_owned k owner) db.files ≡ some x
      → bulk_loop now new_id owner i ids db ≡ ok db'
      → Passed owner i.action x k db'
  unfolding bulk_loop bulk_one
  bulk_loop-Passed [] x db db' known h =
      (x, ap (λ d. find (is_owned k owner) d.files) (sym (ok-injective h)) ∙ known, inl refl)
  bulk_loop-Passed (id ∷ ids) x db db' known h =
      let (next, step, rest) = >>=-eq-ok (bulk_one now new_id owner i id db) _ h in
      let (f, owned, changing) = >>=-eq-ok (owned_file id owner db) _ step in
      let (changed, change, done) =
        >>=-eq-ok (bulk_change now new_id owner i.folder_id i.action f db) _ changing in
      let (y, there, first) =
        bulk_change-Passed now new_id owner i.folder_id i.action f x k db changed
          (owned_file_lem id owner db f owned) known change in
      let (z, last, second) =
        bulk_loop-Passed ids y next db'
          (ap (λ d. find (is_owned k owner) d.files) (sym (ok-injective done)) ∙ there) rest in
      (z, last, passes_once i.action x.state y.state z.state first second)

  -- A bulk request that succeeds loses no row of its owner's files, and a file either keeps its state
  -- or takes one that the action may give it: from a completed state into the trash, from the trash
  -- back to available, or from the trash to its end. A move and a copy change no state.
  pub bulk-passes :
      (x : FileRow) (db db' : Db)
      → find (is_owned k owner) db.files ≡ some x
      → bulk now new_id owner i db ≡ ok db'
      → Passed owner i.action x k db'
  unfolding bulk
  bulk-passes x db db' known h =
      let (s, open_for_writing, checked) = >>=-eq-ok (writable db) _ h in
      let (confirmed, prepared) =
        throw_if-eq-ok (is_purge i.action && not i.confirmed) (api_error 400 request_failed) _
          checked in
      let (done, destination, loop) =
        >>=-eq-ok
          (ensure_given (if has_destination i.action then some i.folder_id else none) owner db) _
          prepared in
      bulk_loop-Passed (distinct [] i.ids) x db db' known loop
