-- ===== src/Files/Folders/Closure.antt =====
-- The rounds of the recursive query that collects the descendants of a folder: they are enough.
use mathlib.Core.Path.{fun_ext}
use astra_file_host.Base.{
  ap, ==_iff, subst, sym, ℕ, zero, suc, ◌≤◌, ◌≡◌, ◌⊎◌, inl, inr, Bool, true, List, [], ◌∷◌, length,
  ◌==◌, count_where, arith, Bool-cases,
}
use astra_file_host.Database.{Folder}
use astra_file_host.Files.Folders.{is_child_of, grow, rounds, children}

-- Every child of a member is a member.
abbrev pub IsClosed : List Folder → (ℕ → Bool) → Type 0
IsClosed folders found = (k : ℕ) → is_child_of found folders k ≡ true → found k ≡ true

abbrev members : (ℕ → Bool) → List Folder → ℕ
members found = count_where (λ (f : Folder). found f.id)

members-bound : (found : ℕ → Bool) (fs : List Folder) → members found fs ≤ length fs
members-bound found [] = omega arith
members-bound found (f ∷ fs) = ground (arith, members-bound found fs)

members-grow :
    (all : List Folder) (found : ℕ → Bool) (fs : List Folder)
    → members found fs ≤ members (grow all found) fs
members-grow all found [] = omega arith
members-grow all found (f ∷ fs) = ground (arith, members-grow all found fs)

-- If a round adds no folder, it changes nothing at the ids of folders.
grow-same :
    (all : List Folder) (found any : ℕ → Bool) (fs : List Folder) (k : ℕ)
    → members (grow all found) fs ≡ members found fs
    → is_child_of any fs k ≡ true
    → grow all found k ≡ true
    → found k ≡ true
grow-same all found any [] k same child grown = cc
grow-same all found any (f ∷ fs) k same child grown = elim (Bool-cases (f.id == k)) [
  | inl here ↦ ground (
    arith,
    ap found ((==_iff f.id k).0 here),
    ap (grow all found) ((==_iff f.id k).0 here),
    members-grow all found fs,
  )
  | inr other ↦ ground (arith, other, members-grow all found fs, grow-same all found any fs k)
]

still-IsClosed :
    (all : List Folder) (found : ℕ → Bool)
    → members (grow all found) all ≡ members found all
    → IsClosed all found
still-IsClosed all found same k child =
    grow-same all found found all k same child (ground (arith, child))

full-IsClosed :
    (found any : ℕ → Bool) (fs : List Folder) (k : ℕ)
    → length fs ≤ members found fs
    → is_child_of any fs k ≡ true
    → found k ≡ true
full-IsClosed found any [] k full child = cc
full-IsClosed found any (f ∷ fs) k full child = elim (Bool-cases (f.id == k)) [
  | inl here ↦ ground (arith, ap found ((==_iff f.id k).0 here), members-bound found fs)
  | inr other ↦ ground (arith, other, members-bound found fs, full-IsClosed found any fs k)
]

-- A closed set stays as it is.
grow-closed : (all : List Folder) (found : ℕ → Bool) → IsClosed all found → grow all found ≡ found
grow-closed all found closed = fun_ext λ k. elim (Bool-cases (is_child_of found all k)) [
  | inl child ↦ ground (arith, child, closed k child)
  | inr none ↦ ground (arith, none)
]

next-IsClosed :
    (all : List Folder) (found : ℕ → Bool) → IsClosed all found → IsClosed all (grow all found)
next-IsClosed all found closed = subst (IsClosed all) (sym (grow-closed all found closed)) closed

round-progress :
    (all : List Folder) (found : ℕ → Bool) (n : ℕ)
    → n ≤ members found all
    → IsClosed all (grow all found) ⊎ (suc n ≤ members (grow all found) all)
round-progress all found n enough =
    elim (Bool-cases (members (grow all found) all == members found all)) [
      | inl same ↦ inl (next-IsClosed all found (still-IsClosed all found ((==_iff _ _).0 same)))
      | inr more ↦ inr (ground (arith, enough, more, members-grow all found all))
    ]

-- After each round the set is closed, or has a member for every round.
rounds-progress :
    (all : List Folder) (start : ℕ → Bool) (n : ℕ)
    → IsClosed all (rounds all n start) ⊎ (n ≤ members (rounds all n start) all)
unfolding rounds
rounds-progress all start zero = inr (omega arith)
rounds-progress all start (suc n) = elim (rounds-progress all start n) [
  | inl closed ↦ inl (next-IsClosed all (rounds all n start) closed)
  | inr enough ↦ round-progress all (rounds all n start) n enough
]

-- The rounds are enough: every child of a folder that the query returns is returned too.
pub children-IsClosed : (folders : List Folder) (id : ℕ) → IsClosed folders (children folders id)
unfolding children
children-IsClosed folders id = elim (rounds-progress folders (λ k. id == k) (length folders)) [
  | inl closed ↦ closed
  | inr full ↦ λ k child. full-IsClosed _ _ folders k full child
]

rounds_start :
    (all : List Folder) (start : ℕ → Bool) (n k : ℕ) → start k ≡ true → rounds all n start k ≡ true
unfolding rounds
rounds_start all start zero k h = h
rounds_start all start (suc n) k h = ground (arith, rounds_start all start n k h)

pub children_self : (folders : List Folder) (id : ℕ) → children folders id id ≡ true
unfolding children
children_self folders id = rounds_start folders (λ k. id == k) (length folders) id (ground arith)
