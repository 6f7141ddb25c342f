-- ===== src/Files/Folders/Acyclic.antt =====
-- The tree of folders: why the query of `PATCH /api/folders/:id` (apps/api/src/files.ts) keeps a folder
-- out of itself.
use mathlib.Core.Bool.{true≢false}
use astra_file_host.Base.{
  ◌∙◌, ℕ, ◌≡◌, ◌⊎◌, inl, inr, ap, sym, subst, Bool, true, false, ◌&&◌, Option, none, some, List, [],
  ◌∷◌, ◌==◌, ==_iff, update_where, arith, Bool-cases, ok, >>=-eq-ok, ok-injective, require_value,
  find,
}
use astra_file_host.Database.{Db, Folder}
use astra_file_host.Limits.{writable}
use astra_file_host.Uploads.Create.{ensure_folder}
use astra_file_host.Files.Folders.{children, FolderPatch, apply_folder, check_parent, patch_folder}
use astra_file_host.Files.Folders.Closure.{IsClosed, children-IsClosed, children_self}
use astra_file_host.Files.Folders.Descendants.{links, links-is_child_of}

-- A way up of at least one link.
pub data IsBelow (folders : List Folder) (low : ℕ) : ℕ → Type 0 where
  link : {parent : ℕ} → links folders low parent ≡ true → IsBelow folders low parent
  climb :
      {middle parent : ℕ}
      → IsBelow folders low middle
      → links folders middle parent ≡ true
      → IsBelow folders low parent

-- No folder lies in itself.
abbrev pub IsAcyclic : List Folder → Type 0
IsAcyclic folders = (k : ℕ) → ¬ IsBelow folders k k

-- A table whose links are those of another, and at most one more, from `id` up to `top`.
AddsLink : List Folder → List Folder → ℕ → ℕ → Type 0
AddsLink old new id top =
    (x y : ℕ) → links new x y ≡ true → (links old x y ≡ true) ⊎ ((x ≡ id) × (y ≡ top))

-- A set that is closed under children, holds `id` and not `top`.
module _ (old new : List Folder) (id top : ℕ) (found : ℕ → Bool) (closed : IsClosed old found)
    (here : found id ≡ true) (outside : found top ≡ false) (adds : AddsLink old new id top) where
  stays_outside : {x y : ℕ} → links old x y ≡ true → found x ≡ false → found y ≡ false
  stays_outside {x} {y} before away = elim (Bool-cases (found y)) [
    | inl member ↦
        absurd (true≢false (sym (closed x (links-is_child_of found old x y before member)) ∙ away))
    | inr outer ↦ outer
  ]

  -- A way that ends in the set was there before, and lies in it.
  old_inside : {x y : ℕ} → IsBelow new x y → found y ≡ true → IsBelow old x y × (found x ≡ true)
  unfolding AddsLink
  old_inside (link up) member = elim (adds _ _ up) [
    | inl before ↦ (link before, closed _ (links-is_child_of found old _ _ before member))
    | inr (e, k) ↦ absurd (true≢false (sym member ∙ ap found k ∙ outside))
  ]
  old_inside (climb below up) member = elim (adds _ _ up) [
    | inl before ↦
        let (way, low) =
          old_inside below (closed _ (links-is_child_of found old _ _ before member)) in
        (climb way before, low)
    | inr (e, k) ↦ absurd (true≢false (sym member ∙ ap found k ∙ outside))
  ]

  -- A way that starts outside the set was there before, and stays outside.
  old_outside : {x y : ℕ} → IsBelow new x y → found x ≡ false → IsBelow old x y × (found y ≡ false)
  unfolding AddsLink
  old_outside (link up) away = elim (adds _ _ up) [
    | inl before ↦ (link before, stays_outside before away)
    | inr (e, k) ↦ absurd (true≢false (sym here ∙ ap found (sym e) ∙ away))
  ]
  old_outside (climb below up) away =
      let (way, high) = old_outside below away in
      elim (adds _ _ up) [
        | inl before ↦ (climb way before, stays_outside before high)
        | inr (e, k) ↦ absurd (true≢false (sym here ∙ ap found (sym e) ∙ high))
      ]

  AddsLink-IsAcyclic : IsAcyclic old → IsAcyclic new
  AddsLink-IsAcyclic acyclic k loop = elim (Bool-cases (found k)) [
    | inl member ↦ acyclic k (old_inside loop member).0
    | inr away ↦ acyclic k (old_outside loop away).0
  ]

&&-eq-true : (a b : Bool) → (a && b) ≡ true → (a ≡ true) × (b ≡ true)
&&-eq-true a b h = ground (arith, h)

-- A patch adds a link to the parent that it names, and no other.
links-patch :
    (now id : ℕ) (wish : Option (Option ℕ)) (deleted : Option Bool) (fs : List Folder) (x y : ℕ)
    → links
        (update_where
          (λ f. f.id == id)
          (apply_folder now (record { parent_id = wish; deleted = deleted }))
          fs)
        x
        y
      ≡ true
    → (links fs x y ≡ true) ⊎ ((x ≡ id) × (wish ≡ some (some y)))
unfolding links
links-patch now id wish deleted [] x y h = cc
links-patch now id none deleted (f ∷ fs) x y h =
    ground (arith, h, links-patch now id none deleted fs x y)
links-patch now id (some none) deleted (f ∷ fs) x y h =
    ground (arith, h, links-patch now id (some none) deleted fs x y)
links-patch now id (some (some p)) deleted (f ∷ fs) x y h = elim (Bool-cases (f.id == id)) [
  | inl here ↦ elim (Bool-cases (f.id == x && p == y)) [
    | inl named ↦ inr (
      sym ((==_iff f.id x).0 (&&-eq-true (f.id == x) (p == y) named).0) ∙ (==_iff f.id id).0 here,
      ap (λ k. some (some k)) ((==_iff p y).0 (&&-eq-true (f.id == x) (p == y) named).1),
    )
    | inr before ↦
        ground (arith, here, before, h, links-patch now id (some (some p)) deleted fs x y)
  ]
  | inr other ↦ ground (arith, other, h, links-patch now id (some (some p)) deleted fs x y)
]

-- Without a new parent, every way was there before.
fewer-IsAcyclic :
    (old new : List Folder)
    → ((x y : ℕ) → links new x y ≡ true → links old x y ≡ true)
    → IsAcyclic old
    → IsAcyclic new
fewer-IsAcyclic old new fewer acyclic k loop = acyclic k (before loop)
  where
    before : {x y : ℕ} → IsBelow new x y → IsBelow old x y
    before (link up) = link (fewer _ _ up)
    before (climb below up) = climb (before below) (fewer _ _ up)

either-left {ℓ} : {A B : Type ℓ} → A ⊎ B → ¬ B → A
either-left (inl a) h = a
either-left (inr b) h = absurd (h b)

adds_parent :
    (now id parent : ℕ) (deleted : Option Bool) (fs : List Folder)
    → AddsLink fs
        (update_where
          (λ f. f.id == id)
          (apply_folder now (record { parent_id = some (some parent); deleted = deleted }))
          fs)
        id
        parent
unfolding AddsLink
adds_parent now id parent deleted fs x y h =
    elim (links-patch now id (some (some parent)) deleted fs x y h) [
      | inl before ↦ inl before
      | inr (e, named) ↦ inr (e, cc)
    ]

patched-IsAcyclic :
    (now owner id : ℕ) (wish : Option (Option ℕ)) (deleted : Option Bool) (db : Db)
    → check_parent owner id wish db ≡ ok tt
    → IsAcyclic db.folders
    → IsAcyclic (
        update_where
          (λ f. f.id == id)
          (apply_folder now (record { parent_id = wish; deleted = deleted }))
          db.folders)
unfolding check_parent
patched-IsAcyclic now owner id none deleted db checked acyclic =
    fewer-IsAcyclic db.folders _
      (λ x y h. either-left (links-patch now id none deleted db.folders x y h) (λ e. cc)) acyclic
patched-IsAcyclic now owner id (some none) deleted db checked acyclic =
    fewer-IsAcyclic db.folders _
      (λ x y h. either-left (links-patch now id (some none) deleted db.folders x y h) (λ e. cc))
      acyclic
patched-IsAcyclic now owner id (some (some parent)) deleted db checked acyclic =
    let (done, live, apart) = >>=-eq-ok (ensure_folder (some parent) owner db) _ checked in
    AddsLink-IsAcyclic db.folders _ id parent (children db.folders id)
      (children-IsClosed db.folders id) (children_self db.folders id) (ground (arith, apart))
      (adds_parent now id parent deleted db.folders) acyclic

-- A successful change of a folder, a move under another parent or out of every folder included, keeps
-- every folder out of itself at any depth, if that held before.
pub patch_folder-IsAcyclic :
    (now owner id : ℕ) (i : FolderPatch) (db db' : Db)
    → IsAcyclic db.folders
    → patch_folder now owner id i db ≡ ok db'
    → IsAcyclic db'.folders
unfolding patch_folder
patch_folder-IsAcyclic now owner id i db db' acyclic h =
    let (s, open_for_writing, owned) = >>=-eq-ok (writable db) _ h in
    let (f, found, checking) =
      >>=-eq-ok
        (require_value (find (λ (x : Folder). x.id == id && x.owner_id == owner) db.folders)) _
        owned in
    let (done, checked, answer) = >>=-eq-ok (check_parent owner id i.parent_id db) _ checking in
    subst (λ (d : Db). IsAcyclic d.folders) (ok-injective answer)
      (patched-IsAcyclic now owner id i.parent_id i.deleted db checked acyclic)
