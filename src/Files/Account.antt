-- ===== src/Files/Account.antt =====
-- What a change of one row of `files` adds to the storage account of an owner.
use astra_file_host.Base.{
  ℕ, ◌+◌, ◌≤◌, ◌≡◌, refl, ap, true, List, [], ◌∷◌, Option, some, arith, ◌==◌, max, find,
  count_where, update_where, sum_where, sum_where-update_where, sum_where-update_one, find-only, ok,
  Bool-cases, inl, inr, subst, ◌∙◌, ==_iff,
}
use astra_file_host.Database.{
  Db, FileRow, Version, charges, expected_size, used_bytes, reserved_bytes, JobKind, AuditAction,
  audit,
}
use astra_file_host.Entitlements.{effective}
use astra_file_host.Jobs.{enqueue}
use astra_file_host.Uploads.{update_file, touch}
use astra_file_host.Files.{is_owned, insert_file}

-- The primary key of `files`: no id has two rows.
abbrev pub HasUniqueIds : List FileRow → Type 0
HasUniqueIds files = (id : ℕ) → count_where (λ (f : FileRow). f.id == id) files ≤ 1

abbrev pub charge : Db → ℕ → ℕ
charge db owner = used_bytes db owner + reserved_bytes db owner

-- What one file of the loop does to the account.
pub record Held (owner limit : ℕ) (db db' : Db) : Type 0 where
  pub same_policy : effective owner db' ≡ effective owner db
  pub unique : HasUniqueIds db'.files
  pub bounded : charge db' owner ≤ max (charge db owner) limit

HasUniqueIds-update :
    (files : List FileRow) (id : ℕ) (g : FileRow → FileRow)
    → ((f : FileRow) → (g f).id ≡ f.id)
    → HasUniqueIds files
    → HasUniqueIds (update_where (λ f. f.id == id) (λ f. touch (g f)) files)
HasUniqueIds-update files id g keep h k =
    let same =
      sum_where-update_where (λ (f : FileRow). f.id == k) (λ f. f.id == id) (λ f. 1)
        (λ f. touch (g f)) files (λ f. rw (keep f) refl) in
    omega (arith, same, h k)

add_le : {a b : ℕ} (c : ℕ) → a ≤ b → a + c ≤ b + c
add_le c h = omega arith

-- What the sizes of objects add up to, over the files and over the versions of an owner.
abbrev files_total : ℕ → (ℕ → ℕ) → List FileRow → ℕ
files_total owner size = sum_where (charges owner) (λ f. size f.object_id)

abbrev versions_total : ℕ → (ℕ → ℕ) → List Version → ℕ
versions_total owner size = sum_where (λ (v : Version). v.owner_id == owner) (λ v. size v.object_id)

-- A change that charges nothing more for the row.
abbrev Keeps : ℕ → (FileRow → FileRow) → FileRow → Type 0
Keeps owner g f =
    (size : ℕ → ℕ) → files_total owner size (touch (g f) ∷ []) ≤ files_total owner size (f ∷ [])

-- An update of the row that was found, under which nothing new is charged.
module _ (owner id : ℕ) (db : Db) (f : FileRow) (g : FileRow → FileRow) where
  update-total :
      find (is_owned id owner) db.files ≡ some f
      → HasUniqueIds db.files
      → Keeps owner g f
      → files_total owner (expected_size db) (update_file id g db).files
        ≤ files_total owner (expected_size db) db.files
  update-total found unique keeps =
      let only =
        find-only (λ (x : FileRow). x.id == id) (λ x. x.owner_id == owner) db.files f found
          (unique id) in
      let moved =
        sum_where-update_one (charges owner) (λ x. x.id == id) (λ x. expected_size db x.object_id)
          (λ x. touch (g x)) db.files f only.0 only.1 in
      omega (arith, moved, keeps (expected_size db))

  update-used :
      find (is_owned id owner) db.files ≡ some f
      → HasUniqueIds db.files
      → Keeps owner g f
      → used_bytes (update_file id g db) owner ≤ used_bytes db owner
  unfolding used_bytes expected_size
  update-used found unique keeps = add_le _ (update-total found unique keeps)

  pub update-Held :
      (limit : ℕ)
      → find (is_owned id owner) db.files ≡ some f
      → HasUniqueIds db.files
      → ((x : FileRow) → (g x).id ≡ x.id)
      → Keeps owner g f
      → Held owner limit db (update_file id g db)
  unfolding reserved_bytes effective
  update-Held limit found unique key keeps = record {
    same_policy = refl;
    unique = HasUniqueIds-update db.files id g key unique;
    bounded = omega (arith, update-used found unique keeps);
  }

insert-used :
    (owner : ℕ) (db : Db) (row : FileRow)
    → used_bytes (record db { files = row ∷ db.files }) owner
      ≤ used_bytes db owner + expected_size db row.object_id
unfolding used_bytes expected_size
insert-used owner db row = ground arith

insert-HasUniqueIds :
    (files : List FileRow) (row : FileRow)
    → (count_where (λ (f : FileRow). f.id == row.id) files == 0) ≡ true
    → HasUniqueIds files
    → HasUniqueIds (row ∷ files)
insert-HasUniqueIds files row free unique id = elim (Bool-cases (row.id == id)) [
  | inl here ↦ ground (
    arith,
    here,
    free,
    ap (λ k. count_where (λ (f : FileRow). f.id == k) files) ((==_iff row.id id).0 here),
  )
  | inr other ↦ ground (arith, other, unique id)
]

insert-Held :
    (owner limit : ℕ) (db : Db) (row : FileRow)
    → used_bytes db owner + reserved_bytes db owner + expected_size db row.object_id ≤ limit
    → HasUniqueIds db.files
    → (count_where (λ (f : FileRow). f.id == row.id) db.files == 0) ≡ true
    → Held owner limit db (record db { files = row ∷ db.files })
unfolding reserved_bytes effective
insert-Held owner limit db row room unique free = record {
  same_policy = refl;
  unique = insert-HasUniqueIds db.files row free unique;
  bounded = omega (arith, insert-used owner db row, room);
}

pub copy-Held :
    (owner limit : ℕ) (db db' : Db) (row : FileRow)
    → used_bytes db owner + reserved_bytes db owner + expected_size db row.object_id ≤ limit
    → HasUniqueIds db.files
    → insert_file row db ≡ ok db'
    → Held owner limit db db'
unfolding insert_file
copy-Held owner limit db db' row room unique h =
    elim (Bool-cases (count_where (λ (f : FileRow). f.id == row.id) db.files == 0)) [
      | inr taken ↦ ground (arith, taken)
      | inl free ↦
          subst (Held owner limit db) (inserted free)
            (insert-Held owner limit db row room unique free)
    ]
  where
    inserted :
        (count_where (λ (f : FileRow). f.id == row.id) db.files == 0) ≡ true
        → record db { files = row ∷ db.files } ≡ db'
    inserted free = ground (arith, free, h)

-- Neither the queue nor the log is part of the account.
pub Held-enqueue :
    (now : ℕ) (kind : JobKind) (target owner limit : ℕ) (db db' : Db)
    → Held owner limit db db'
    → Held owner limit db (enqueue now kind target db')
unfolding used_bytes expected_size reserved_bytes effective
Held-enqueue now kind target owner limit db db' h = record {
  same_policy = h.same_policy;
  unique = h.unique;
  bounded = h.bounded;
}

pub Held-audit :
    (actor : Option ℕ) (action : AuditAction) (target owner limit : ℕ) (db db' : Db)
    → Held owner limit db db'
    → Held owner limit db (audit actor action target db')
unfolding used_bytes expected_size reserved_bytes effective
Held-audit actor action target owner limit db db' h = record {
  same_policy = h.same_policy;
  unique = h.unique;
  bounded = h.bounded;
}

pub Held-refl : (owner limit : ℕ) (db : Db) → HasUniqueIds db.files → Held owner limit db db
Held-refl owner limit db unique = record {
  same_policy = refl;
  unique = unique;
  bounded = omega arith;
}

pub Held-trans :
    (owner limit : ℕ) (a b c : Db)
    → Held owner limit a b
    → Held owner limit b c
    → Held owner limit a c
Held-trans owner limit a b c h k = record {
  same_policy = k.same_policy ∙ h.same_policy;
  unique = k.unique;
  bounded = omega (arith, h.bounded, k.bounded);
}
