-- ===== src/Validation.antt =====
-- packages/validation/index.ts: the plan of a multipart upload. Sizes are whole numbers of bytes
-- below 2^53 (`uploadSchema` admits at most 5 TiB), where the source's floating point is exact. The
-- child Endpoints is about packages/validation/endpoints.ts.
pub mod Parts
pub mod Endpoints
use astra_file_host.Base.{
  ℕ, zero, suc, ◌+◌, ◌-◌, ◌*◌, ◌/◌, ◌^◌, max, min, List, [], ◌∷◌, Option, none, some, Bool, true,
  false, ◌||◌, not, ltb, ◌==◌, if◌then◌else◌, length, Result, ok, err, plain_error, ◌>>=◌, ◌>>◌,
  throw_if,
}

-- `Math.ceil(a / b)` for a whole number a and b > 0
abbrev pub ceil_div : ℕ → ℕ → ℕ
ceil_div a b = (a + (b - 1)) / b

abbrev pub mib : ℕ
mib = 1048576

-- `StoragePart` of packages/storage/index.ts; an etag or a checksum is a number, and the empty etag,
-- which is falsy, is 0.
pub record StoragePart : Type 0 where
  pub number : ℕ
  pub size : ℕ
  pub etag : ℕ
  pub checksum : Option ℕ

unfoldable pub part_size : ℕ → ℕ → ℕ
part_size size configured_mib = max (configured_mib * mib) (ceil_div size (10000 * mib) * mib)

unfoldable pub expected_part_bytes : ℕ → ℕ → ℕ → Result ℕ
expected_part_bytes size chunk n =
    if ltb n 1 || ltb (ceil_div size chunk) n
    then err plain_error
    else ok (min chunk (size - (n - 1) * chunk))

-- One round of the `forEach` of `assertParts`, at index i.
unfoldable pub assert_part : ℕ → ℕ → ℕ → StoragePart → Result (Unit {0})
unfolding expected_part_bytes
assert_part size chunk i p = do
  throw_if (not (p.number == suc i)) plain_error
  expected ← expected_part_bytes size chunk p.number
  throw_if (not (p.size == expected) || p.etag == 0) plain_error

unfoldable pub assert_each : ℕ → ℕ → ℕ → List StoragePart → Result (Unit {0})
unfolding assert_part
assert_each size chunk i [] = ok tt
assert_each size chunk i (p ∷ ps) = assert_part size chunk i p >> assert_each size chunk (suc i) ps

unfoldable pub assert_parts : ℕ → ℕ → List StoragePart → Result (Unit {0})
unfolding assert_each
assert_parts size chunk parts = do
  throw_if (not (length parts == ceil_div size chunk)) plain_error
  assert_each size chunk 0 parts
