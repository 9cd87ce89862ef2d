-- ===== src/Resources/Memory.antt =====
-- The memory of a guest and the size of the tmpfs that backs it with virtiofs.
use urunc.Prelude.{ℕ, ◌+◌, ◌*◌, ◌/◌, ◌%◌, ◌^◌, ◌≤◌, ◌<◌, ◌<>◌, ◌≡◌, ap, ◌∙◌, arith}
use urunc.Prelude.Strconv.{format_uint}
use urunc.Hypervisors.Process.{bytes_to_string_mb, bytes_to_mb}
use urunc.Resources.Builders.{choose_tmpfs_size}

bytes_to_string_mb_large :
    (mem : ℕ) → 1000000 ≤ mem → bytes_to_string_mb mem ≡ format_uint (mem / 1000000)
unfolding bytes_to_string_mb bytes_to_mb
bytes_to_string_mb_large mem h = ground arith

-- For a guest memory from 1000000 bytes to below 2^63: the number of megabytes that
-- chooseTmpfsSize gives the tmpfs of a virtiofs guest is greater than the number that
-- BytesToStringMB gives the guest, and as many mebibytes hold the memory.
pub choose_tmpfs_size_covers :
    (mem : ℕ)
    → 1000000 ≤ mem
    → mem < 2 ^ 63
    → (guest tmpfs : ℕ) × (bytes_to_string_mb mem ≡ format_uint guest)
      × (choose_tmpfs_size "virtiofs" mem ≡ format_uint tmpfs <> "m")
      × (guest < tmpfs)
      × (mem ≤ tmpfs * 1024 * 1024)
unfolding choose_tmpfs_size
choose_tmpfs_size_covers mem low high =
    let whole : (mem + 1024 * 1024) % 2 ^ 64 ≡ mem + 1024 * 1024 = omega (arith, high) in
    (
      mem / 1000000,
      (mem + 1024 * 1024) / 1000000,
      bytes_to_string_mb_large mem low,
      ap (λ m. bytes_to_string_mb m <> "m") whole
          ∙ ap (λ s. s <> "m") (bytes_to_string_mb_large (mem + 1024 * 1024) (omega (arith, low))),
      omega (arith, low),
      omega (arith, low),
    )
