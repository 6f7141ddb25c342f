-- ===== src/Worker/Purge.antt =====
-- The removal of objects never loses a file.
use mathlib.Core.Path.{fun_ext}
use astra_file_host.Base.{
  ℕ, ◌≡◌, refl, Bool, false, ◌⊎◌, inl, inr, some, List, [], ◌∷◌, arith, find, count_where,
  Bool-cases, Option-cases, Result, ok, err,
}
use astra_file_host.Database.{Db, FileObject, expected_size, used_bytes}
use astra_file_host.Storage.{ObjectStore}
use astra_file_host.Transaction.{World, settle, tx, gets, ◌>>=◌}
use astra_file_host.Uploads.Abort.{purge_object}
use astra_file_host.Uploads.Quota.{expected_size-activate}
use astra_file_host.Worker.{holds, retains, is_found, is_used, record_purge, purge_known, purge}

find-count :
    {A : Type 0} (p : A → Bool) (xs : List A) → is_found (find p xs) ≡ false → count_where p xs ≡ 0
find-count p [] h = refl
find-count p (x ∷ xs) h = ground (arith, find-count p xs)

module _ (os : ObjectStore) where
  open os use {Store}

  -- The object has been removed: no file that is alive and no version referred to it.
  pub record Purged (object : ℕ) (w w' : World Store) : Type 0 where
    pub row : FileObject
    pub known : w.db.objects object ≡ some row
    pub no_file : count_where (holds object) w.db.files ≡ 0
    pub no_version : count_where (retains object) w.db.versions ≡ 0
    pub removed : os.remove w.store row.object_key ≡ (ok tt, w'.store)
    pub database : w'.db ≡ record_purge object w.db

  abbrev pub PurgeOutcome : ℕ → World Store → Result (Unit {0}) × World Store → Type 0
  PurgeOutcome object w (err e, w') = w'.db ≡ w.db
  PurgeOutcome object w (ok r, w') = (w' ≡ w) ⊎ Purged object w w'

  body_outcome :
      (object : ℕ) (w w' : World Store)
      → (gets (λ db. ok (db.objects object)) >>= purge_known os object) w ≡ (ok tt, w')
      → PurgeOutcome object w (ok tt, w')
  unfolding purge_known is_used
  body_outcome object w w' e = elim (Option-cases (w.db.objects object)) [
    | inl absent ↦ inl (ground arith)
    | inr (o, known) ↦ elim (Bool-cases (is_used object w.db)) [
      | inl used ↦ inl (ground arith)
      | inr free ↦ inr (record {
        row = o;
        known = known;
        no_file = find-count (holds object) w.db.files (ground arith);
        no_version = find-count (retains object) w.db.versions (ground arith);
        removed = ground arith;
        database = ground arith;
      })
    ]
  ]

  settle_outcome :
      (object : ℕ) (w : World Store) (p : Result (Unit {0}) × World Store)
      → ((w' : World Store) → p ≡ (ok tt, w') → PurgeOutcome object w (ok tt, w'))
      → PurgeOutcome object w (settle w.db p)
  settle_outcome object w (ok r, w') h = h w' refl
  settle_outcome object w (err e, w') h = refl

  -- A purge that throws leaves the database as it was. One that returns has done nothing, or it has
  -- removed the object from the storage and recorded that, and then no file that is alive and no
  -- version refers to the object.
  pub purge_outcome : (object : ℕ) (w : World Store) → PurgeOutcome object w (purge os object w)
  unfolding purge tx
  purge_outcome object w = settle_outcome object w _ (body_outcome object w)

  record_purge-used :
      (object k : ℕ) (db : Db) → used_bytes (record_purge object db) k ≡ used_bytes db k
  unfolding used_bytes
  record_purge-used object k db =
      let after = record_purge object db in
      let same_sizes : (j : ℕ) → expected_size after j ≡ expected_size db j =
        λ j. expected_size-activate db after object j purge_object (λ o. refl) refl in
      rw (fun_ext {f = expected_size after} {g = expected_size db} same_sizes) refl

  balance :
      (object k : ℕ) (w : World Store) (p : Result (Unit {0}) × World Store)
      → PurgeOutcome object w p
      → used_bytes p.1.db k ≡ used_bytes w.db k
  balance object k w (err e, w') same = rw same refl
  balance object k w (ok r, w') (inl same) = rw same refl
  balance object k w (ok r, w') (inr d) = rw d.database (record_purge-used object k w.db)

  -- Purging moves no account's used bytes: what is purged was charged to nobody.
  pub purge-used :
      (object k : ℕ) (w : World Store) → used_bytes (purge os object w).1.db k ≡ used_bytes w.db k
  purge-used object k w = balance object k w (purge os object w) (purge_outcome object w)
