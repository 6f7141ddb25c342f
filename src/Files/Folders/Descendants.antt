-- ===== src/Files/Folders/Descendants.antt =====
-- What the recursive query of `PATCH /api/folders/:id` (apps/api/src/files.ts) finds: the folder and
-- all that lies under it.
use astra_file_host.Base.{
  ◌∙◌, ℕ, zero, suc, ◌≡◌, ◌↔◌, inl, inr, ap, subst, Bool, true, false, ◌&&◌, ◌||◌, Option, none,
  some, List, [], ◌∷◌, length, ◌==◌, ==_iff, arith, Bool-cases,
}
use astra_file_host.Database.{Folder}
use astra_file_host.Files.Folders.{is_child_of, is_some_id, rounds, children, in_set}
use astra_file_host.Files.Folders.Closure.{children-IsClosed, children_self}

-- A row makes `parent` the parent of `child`.
unfoldable pub links : List Folder → ℕ → ℕ → Bool
links [] child parent = false
links (f ∷ fs) child parent =
    (f.id == child && is_some_id f.parent_id parent) || links fs child parent

-- The folder `top`, and what lies under it at any depth.
pub data IsUnder (folders : List Folder) (top : ℕ) : ℕ → Type 0 where
  itself : IsUnder folders top top
  inside :
      {parent : ℕ} (child : ℕ)
      → IsUnder folders top parent
      → links folders child parent ≡ true
      → IsUnder folders top child

is_child_of-links :
    (found : ℕ → Bool) (fs : List Folder) (k : ℕ)
    → is_child_of found fs k ≡ true
    → (parent : ℕ) × (links fs k parent ≡ true) × (found parent ≡ true)
unfolding links
is_child_of-links found [] k h = cc
is_child_of-links found (f ∷ fs) k h = elim (Bool-cases (f.id == k && in_set found f.parent_id)) [
  | inl here ↦ parent_of f.parent_id here
  | inr there ↦
      let (parent, up, member) = is_child_of-links found fs k (ground (arith, h, there)) in
      (parent, ground (arith, up), member)
]
  where
    parent_of :
        (o : Option ℕ)
        → (f.id == k && in_set found o) ≡ true
        → (parent : ℕ) × (((f.id == k && is_some_id o parent) || links fs k parent) ≡ true)
          × (found parent ≡ true)
    parent_of none here = ground arith
    parent_of (some p) here = (p, ground arith, ground arith)

pub links-is_child_of :
    (found : ℕ → Bool) (fs : List Folder) (k parent : ℕ)
    → links fs k parent ≡ true
    → found parent ≡ true
    → is_child_of found fs k ≡ true
unfolding links
links-is_child_of found [] k parent up member = cc
links-is_child_of found (f ∷ fs) k parent up member =
    ground (arith, parent_in f.parent_id, links-is_child_of found fs k parent)
  where
    parent_in : (o : Option ℕ) → is_some_id o parent ≡ true → in_set found o ≡ true
    parent_in none h = cc
    parent_in (some p) h = ap found ((==_iff p parent).0 h) ∙ member

rounds-IsUnder :
    (folders : List Folder) (id n k : ℕ)
    → rounds folders n (λ x. id == x) k ≡ true
    → IsUnder folders id k
unfolding rounds
rounds-IsUnder folders id zero k h = subst (IsUnder folders id) ((==_iff id k).0 h) itself
rounds-IsUnder folders id (suc n) k h = elim (Bool-cases (rounds folders n (λ x. id == x) k)) [
  | inl earlier ↦ rounds-IsUnder folders id n k earlier
  | inr later ↦
      let (parent, up, member) =
        is_child_of-links (rounds folders n (λ x. id == x)) folders k (ground (arith, later, h)) in
      inside k (rounds-IsUnder folders id n parent member) up
]

IsUnder-children :
    (folders : List Folder) (id : ℕ) {k : ℕ} → IsUnder folders id k → children folders id k ≡ true
IsUnder-children folders id itself = children_self folders id
IsUnder-children folders id (inside child under up) =
    children-IsClosed folders id child (
      links-is_child_of (children folders id) folders child _ up
        (IsUnder-children folders id under))

-- The query of a move, whose rounds are bounded by the number of folders, returns exactly the folder
-- and what lies under it at any depth, in every table of folders, one with a cycle included.
pub children_iff :
    (folders : List Folder) (id k : ℕ) → (children folders id k ≡ true) ↔ IsUnder folders id k
unfolding children
children_iff folders id k =
    (rounds-IsUnder folders id (length folders) k, IsUnder-children folders id)
