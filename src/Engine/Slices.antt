-- ===== src/Engine/Slices.antt =====
-- `UploadEngine.part`: `r.file.slice((n-1)*t.partSize,Math.min(t.size,n*t.partSize))`.
use astra_file_host.Base.{ℕ, zero, ◌-◌, ◌*◌, ◌≤◌, ◌<◌, ◌≡◌, min, suc, arith, ok}
use astra_file_host.Validation.{ceil_div, expected_part_bytes}

abbrev pub slice_start : ℕ → ℕ → ℕ
slice_start chunk n = (n - 1) * chunk

unfoldable pub slice_end : ℕ → ℕ → ℕ → ℕ
slice_end size chunk n = min size (n * chunk)

-- `blob.size`
unfoldable pub slice_bytes : ℕ → ℕ → ℕ → ℕ
unfolding slice_end
slice_bytes size chunk n = slice_end size chunk n - slice_start chunk n

-- For every part of the plan the browser cuts exactly the bytes that the server signs for it, and the
-- next part starts where it ends, or the file does.
pub slice_bytes-expected :
    (size chunk n : ℕ)
    → 0 < chunk
    → 0 < n
    → n ≤ ceil_div size chunk
    → (expected_part_bytes size chunk n ≡ ok (slice_bytes size chunk n))
      × (slice_end size chunk n ≡ min size (slice_start chunk (suc n)))
unfolding expected_part_bytes slice_bytes slice_end
slice_bytes-expected size chunk zero h k l = absurd (omega (arith, k))
slice_bytes-expected size chunk (suc m) h k l = (ground arith, ground arith)
