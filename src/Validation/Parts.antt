-- ===== src/Validation/Parts.antt =====
-- The part plan covers the file exactly, within the protocol's limit of 10,000 parts.
use astra_file_host.Base.{
  ℕ, suc, ◌+◌, ◌-◌, ◌*◌, ◌%◌, ◌≤◌, ◌<◌, ◌≡◌, ◌≢◌, ◌↔◌, refl, List, [], ◌∷◌, arith, ok, length,
  sum_of, >>=-eq-ok, ==_iff, min, max,
}
use astra_file_host.Validation.{
  ceil_div, mib, StoragePart, part_size, assert_each, assert_parts, assert_part,
}

pub ceil_div-le : (a b n : ℕ) → 0 < b → a ≤ n * b → ceil_div a b ≤ n
ceil_div-le a b n h k = grind arith

pub ceil_div_covers : (a b : ℕ) → 0 < b → a ≤ ceil_div a b * b
ceil_div_covers a b h = grind arith

pub ceil_div_last : (a b : ℕ) → 0 < b → 0 < a → (ceil_div a b - 1) * b < a
ceil_div_last a b h k = grind arith

max_range : (a b c : ℕ) → a ≤ c → b ≤ c → (a ≤ max a b) × (b ≤ max a b) × (max a b ≤ c)
max_range a b c h k = omega arith

max_mod : (a b : ℕ) → max (a * mib) (b * mib) % mib ≡ 0
max_mod a b = omega arith

-- For every size that `uploadSchema` admits (1 byte to 5 TiB) and every configured part size of 5 to
-- 256 MiB, the chosen part size is a whole number of MiB, at least the configured one, between the
-- 5 MiB and 5 GiB that S3 allows for a part, and splits the file into at most 10,000 parts.
pub part_size_bounds :
    (size configured : ℕ)
    → size ≤ 5 * (mib * mib)
    → 5 ≤ configured
    → configured ≤ 256
    → (part_size size configured % mib ≡ 0)
      × (configured * mib ≤ part_size size configured)
      × (5 * mib ≤ part_size size configured)
      × (part_size size configured ≤ 5120 * mib)
      × (ceil_div size (part_size size configured) ≤ 10000)
unfolding part_size
part_size_bounds size configured h k l = (
  max_mod configured (ceil_div size (10000 * mib)),
  omega arith,
  omega arith,
  omega arith,
  ceil_div-le size _ 10000 (omega arith)
      (grind (arith, ceil_div_covers size (10000 * mib) (omega arith))),
)

-- Entry i of the manifest of a file, counted from 0, by its closed form.
pub record IsPart (size chunk i : ℕ) (p : StoragePart) : Type 0 where
  pub numbered : p.number ≡ suc i
  pub sized : p.size ≡ min chunk (size - i * chunk)
  pub tagged : p.etag ≢ 0

-- The entries from i on are those of the plan.
abbrev pub Follows : ℕ → ℕ → ℕ → List StoragePart → Type 0
Follows size chunk i [] = Unit
Follows size chunk i (p ∷ ps) = IsPart size chunk i p × Follows size chunk (suc i) ps

-- The manifest of the whole file: as many entries as parts, each as planned.
abbrev pub IsManifest : ℕ → ℕ → List StoragePart → Type 0
IsManifest size chunk parts = (length parts ≡ ceil_div size chunk) × Follows size chunk 0 parts

assert_part-IsPart :
    (size chunk i : ℕ) (p : StoragePart)
    → assert_part size chunk i p ≡ ok tt
    → IsPart size chunk i p
unfolding assert_part
assert_part-IsPart size chunk i p h = ground arith

IsPart-assert_part :
    (size chunk i : ℕ) (p : StoragePart)
    → suc i ≤ ceil_div size chunk
    → IsPart size chunk i p
    → assert_part size chunk i p ≡ ok tt
unfolding assert_part
IsPart-assert_part size chunk i p k h = ground arith

assert_each-Follows :
    (size chunk i : ℕ) (ps : List StoragePart)
    → assert_each size chunk i ps ≡ ok tt
    → Follows size chunk i ps
unfolding assert_each
assert_each-Follows size chunk i [] h = tt
assert_each-Follows size chunk i (p ∷ ps) h =
    let (u, first, rest) = >>=-eq-ok (assert_part size chunk i p) _ h in
    (assert_part-IsPart size chunk i p first, assert_each-Follows size chunk (suc i) ps rest)

Follows-assert_each :
    (size chunk i : ℕ) (ps : List StoragePart)
    → i + length ps ≤ ceil_div size chunk
    → Follows size chunk i ps
    → assert_each size chunk i ps ≡ ok tt
unfolding assert_each
Follows-assert_each size chunk i [] k h = refl
Follows-assert_each size chunk i (p ∷ ps) k h =
    rw (IsPart-assert_part size chunk i p (omega arith) h.0)
      (Follows-assert_each size chunk (suc i) ps (omega arith) h.1)

-- `assert_parts` returns normally exactly for the manifest of the file: as many parts as the plan has,
-- numbered from 1 in order, each of its planned size and with an etag; else it throws.
pub assert_parts_iff :
    (size chunk : ℕ) (parts : List StoragePart)
    → (assert_parts size chunk parts ≡ ok tt) ↔ IsManifest size chunk parts
unfolding assert_parts
assert_parts_iff size chunk parts = (
  λ h. (ground arith, assert_each-Follows size chunk 0 parts (ground arith)),
  λ h.
      rw (h.0, (==_iff (ceil_div size chunk) (ceil_div size chunk)).1 refl)
        (Follows-assert_each size chunk 0 parts (omega (arith, h.0)) h.1),
)

Follows-sum :
    (size chunk i : ℕ) (ps : List StoragePart)
    → Follows size chunk i ps
    → size ≤ (i + length ps) * chunk
    → sum_of (λ p. p.size) ps ≡ size - i * chunk
Follows-sum size chunk i [] h k = omega arith
Follows-sum size chunk i (p ∷ ps) h k =
    omega (arith, Follows-sum size chunk (suc i) ps h.1 (omega arith), h.0.sized)

-- The parts of a manifest add up to the file, to the byte.
pub assert_parts-sum :
    (size chunk : ℕ) (parts : List StoragePart)
    → 0 < chunk
    → assert_parts size chunk parts ≡ ok tt
    → sum_of (λ p. p.size) parts ≡ size
assert_parts-sum size chunk parts pos h =
    let (count, follows) = (assert_parts_iff size chunk parts).0 h in
    omega (
      arith,
      count,
      Follows-sum size chunk 0 parts follows
          (rw count (omega (arith, ceil_div_covers size chunk pos))),
    )
