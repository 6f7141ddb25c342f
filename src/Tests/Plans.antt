-- ===== src/Tests/Plans.antt =====
-- The plan of a file of 12 MiB in parts of 8 MiB.
use astra_file_host.Base.{◌≡◌, ◌↔◌, ◌≤◌, ◌*◌, ◌%◌, refl, ok, arith, sum_of}
use astra_file_host.Validation.{
  mib, StoragePart, part_size, ceil_div, assert_parts, assert_each, assert_part,
  expected_part_bytes,
}
use astra_file_host.Validation.Parts.{
  part_size_bounds, IsManifest, assert_parts_iff, assert_parts-sum,
}
use astra_file_host.Tests.Fixture.{received_parts}

part_size_bounds_example :
    (part_size (12 * mib) 8 % mib ≡ 0)
    × (8 * mib ≤ part_size (12 * mib) 8)
    × (5 * mib ≤ part_size (12 * mib) 8)
    × (part_size (12 * mib) 8 ≤ 5120 * mib)
    × (ceil_div (12 * mib) (part_size (12 * mib) 8) ≤ 10000)
part_size_bounds_example = part_size_bounds (12 * mib) 8 (omega arith) (omega arith) (omega arith)

assert_parts_iff_example :
    (assert_parts (12 * mib) (8 * mib) received_parts ≡ ok tt)
    ↔ IsManifest (12 * mib) (8 * mib) received_parts
assert_parts_iff_example = assert_parts_iff (12 * mib) (8 * mib) received_parts

received_pass : assert_parts (12 * mib) (8 * mib) received_parts ≡ ok tt
unfolding assert_parts assert_each assert_part expected_part_bytes
received_pass = refl

received_sum : sum_of (λ (p : StoragePart). p.size) received_parts ≡ 12 * mib
received_sum = assert_parts-sum (12 * mib) (8 * mib) received_parts (omega arith) received_pass
