-- ===== src/Base/Tables.antt =====
-- Tables as lists of rows: SELECT, UPDATE and sums under a WHERE clause.
use Prim.Native.Nat.{ℕ, ◌+◌, ◌≤◌}
use mathlib.Core.Path.{◌≡◌, refl}
use mathlib.Core.Bool.{Bool, true, false, ◌&&◌}
use mathlib.Core.Logic.{inl, inr}
use mathlib.Core.Option.{Option, none, some}
use mathlib.Core.List.{List, [], ◌∷◌}
use native.Mathlib.Omega.{arith}
use astra_file_host.Base.Tests.{if◌then◌else◌, Bool-cases}

module _ {ℓ} {A : Type ℓ} where
  -- `one('SELECT … WHERE p')`: the first row that fits.
  abbrev pub find : (A → Bool) → List A → Option A
  find p [] = none
  find p (x ∷ xs) = if p x then some x else find p xs

  -- `query('SELECT … WHERE p')`
  abbrev pub select : (A → Bool) → List A → List A
  select p [] = []
  select p (x ∷ xs) = let rest = select p xs in if p x then x ∷ rest else rest

  -- `UPDATE … SET f WHERE p`
  abbrev pub update_where : (A → Bool) → (A → A) → List A → List A
  update_where p f [] = []
  update_where p f (x ∷ xs) = (if p x then f x else x) ∷ update_where p f xs

  -- `SELECT sum(f) … WHERE p`
  abbrev pub sum_where : (A → Bool) → (A → ℕ) → List A → ℕ
  sum_where p f [] = 0
  sum_where p f (x ∷ xs) = (if p x then f x else 0) + sum_where p f xs

  -- `SELECT count(*) … WHERE p`
  abbrev pub count_where : (A → Bool) → List A → ℕ
  count_where p = sum_where p (λ x. 1)

module _ {ℓ} {A : Type ℓ} where
  abbrev pub map_found : (A → A) → Option A → Option A
  map_found f none = none
  map_found f (some x) = some (f x)

  -- An update that keeps the key of every row is seen at the row that is found.
  pub find-update_where :
      (p q : A → Bool) (f : A → A) (xs : List A)
      → ((x : A) → p (f x) ≡ p x)
      → find p (update_where q f xs) ≡ map_found (λ x. if q x then f x else x) (find p xs)
  find-update_where p q f [] keep = refl
  find-update_where p q f (x ∷ xs) keep = ground (arith, keep x, find-update_where p q f xs keep)

  -- An update of other rows.
  pub find-update_other :
      (p q : A → Bool) (f : A → A) (xs : List A)
      → ((x : A) → p (f x) ≡ p x)
      → ((x : A) → p x ≡ true → q x ≡ false)
      → find p (update_where q f xs) ≡ find p xs
  find-update_other p q f [] keep apart = refl
  find-update_other p q f (x ∷ xs) keep apart = elim (Bool-cases (p x)) [
    | inl hit ↦ ground (arith, hit, apart x hit)
    | inr miss ↦ ground (arith, miss, keep x, find-update_other p q f xs keep apart)
  ]

  -- An update that keeps a measure keeps its sum.
  pub sum_where-update_where :
      (p q : A → Bool) (m : A → ℕ) (f : A → A) (xs : List A)
      → ((x : A) → (if p (f x) then m (f x) else 0) ≡ (if p x then m x else 0))
      → sum_where p m (update_where q f xs) ≡ sum_where p m xs
  sum_where-update_where p q m f [] keep = refl
  sum_where-update_where p q m f (x ∷ xs) keep =
      ground (arith, keep x, sum_where-update_where p q m f xs keep)

  pub find-holds : (p : A → Bool) (xs : List A) (x : A) → find p xs ≡ some x → p x ≡ true
  find-holds p [] x h = cc
  find-holds p (y ∷ ys) x h = ground (arith, find-holds p ys x)

  -- Two updates under one key that the first keeps are one.
  pub update_where-update_where :
      (q : A → Bool) (f g : A → A) (xs : List A)
      → ((x : A) → q (g x) ≡ q x)
      → update_where q f (update_where q g xs) ≡ update_where q (λ x. f (g x)) xs
  update_where-update_where q f g [] keep = refl
  update_where-update_where q f g (x ∷ xs) keep =
      ground (arith, keep x, update_where-update_where q f g xs keep)

  pub update_where_none :
      (p q : A → Bool) (m : A → ℕ) (f : A → A) (xs : List A)
      → count_where q xs ≡ 0
      → sum_where p m (update_where q f xs) ≡ sum_where p m xs
  update_where_none p q m f [] h = refl
  update_where_none p q m f (x ∷ xs) h = ground (arith, update_where_none p q m f xs)

  -- An update of the one row that has a key moves a sum by what that row adds to it.
  pub sum_where-update_one :
      (p q : A → Bool) (m : A → ℕ) (f : A → A) (xs : List A) (x : A)
      → find q xs ≡ some x
      → count_where q xs ≡ 1
      → sum_where p m (update_where q f xs) + (if p x then m x else 0)
        ≡ sum_where p m xs + (if p (f x) then m (f x) else 0)
  sum_where-update_one p q m f [] x h k = cc
  sum_where-update_one p q m f (y ∷ ys) x h k = elim (Bool-cases (q y)) [
    | inl here ↦ ground (arith, here, update_where_none p q m f ys)
    | inr there ↦ ground (arith, there, sum_where-update_one p q m f ys x)
  ]

  pub count_where-find :
      (p r : A → Bool) (xs : List A) (x : A)
      → find (λ y. p y && r y) xs ≡ some x
      → 1 ≤ count_where p xs
  count_where-find p r [] x h = cc
  count_where-find p r (y ∷ ys) x h = ground (arith, count_where-find p r ys x)

  -- The row found under a key and a further condition is the one row that has the key.
  pub find-only :
      (p r : A → Bool) (xs : List A) (x : A)
      → find (λ y. p y && r y) xs ≡ some x
      → count_where p xs ≤ 1
      → (find p xs ≡ some x) × (count_where p xs ≡ 1)
  find-only p r [] x h k = cc
  find-only p r (y ∷ ys) x h k = elim (Bool-cases (p y)) [
    | inl here ↦ ground (arith, here, count_where-find p r ys x)
    | inr there ↦ ground (arith, there, find-only p r ys x)
  ]
