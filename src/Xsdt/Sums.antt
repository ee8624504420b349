-- ===== src/Xsdt/Sums.antt =====
-- src/xsdt.rs: the checksums, as sums of bytes.
use ferr_os.Base.{
  ℕ, zero, suc, ◌+◌, ◌-◌, ◌%◌, ◌^◌, ◌≤◌, ◌<◌, ◌≡◌, ap, ◌∙◌, List, [], ◌∷◌, arith, ◌==◌,
  if◌then◌else◌, u8, u32, err,
}
use ferr_os.Xsdt.{
  Bytes, bytes_from, fold_sum, wrapping_sum, header_length, get_bytes_sum, data_length, madt_loop,
  handle_madt,
}

unfoldable pub total : List ℕ → ℕ
total [] = 0
total (b ∷ bs) = b + total bs

pub fold_sum_lem :
    (sum : ℕ) (bs : List ℕ) → sum < 2 ^ 8 → fold_sum sum bs ≡ (sum + total bs) % 2 ^ 8
unfolding fold_sum total
fold_sum_lem sum [] small = omega arith
fold_sum_lem sum (b ∷ bs) small = omega (arith, fold_sum_lem (u8 (sum + b)) bs (omega arith))

wrapping_sum_lem : (bs : List ℕ) → wrapping_sum bs ≡ total bs % 2 ^ 8
unfolding wrapping_sum
wrapping_sum_lem bs = fold_sum_lem 0 bs (omega arith) ∙ ap (λ t. t % 2 ^ 8) (omega arith)

total-bytes_from :
    (bytes : Bytes) (addr n k : ℕ)
    → total (bytes_from bytes addr (n + k))
      ≡ total (bytes_from bytes addr n) + total (bytes_from bytes (addr + n) k)
unfolding total bytes_from
total-bytes_from bytes addr zero k =
    let count : total (bytes_from bytes addr (0 + k)) ≡ total (bytes_from bytes addr k) =
      ap (λ c. total (bytes_from bytes addr c)) (omega arith) in
    let at : total (bytes_from bytes addr k) ≡ total (bytes_from bytes (addr + 0) k) =
      ap (λ a. total (bytes_from bytes a k)) (omega arith) in
    omega (arith, count, at)
total-bytes_from bytes addr (suc n) k =
    let shift : suc n + k ≡ suc (n + k) = omega arith in
    let at : total (bytes_from bytes (addr + 1 + n) k) ≡ total (bytes_from bytes (addr + suc n) k) =
      ap (λ a. total (bytes_from bytes a k)) (omega arith) in
    ap (λ c. total (bytes_from bytes addr c)) shift
    ∙ omega (arith, total-bytes_from bytes (addr + 1) n k, at)

-- The part of a header from byte `from` on.
unfoldable part : Bytes → ℕ → ℕ → ℕ → ℕ
part bytes header from n = total (bytes_from bytes (header + from) n)

part-cut :
    (bytes : Bytes) (header from n k : ℕ)
    → part bytes header from (n + k) ≡ part bytes header from n + part bytes header (from + n) k
unfolding part
part-cut bytes header from n k =
    let at : total (bytes_from bytes (header + from + n) k)
        ≡ total (bytes_from bytes (header + (from + n)) k) =
      ap (λ a. total (bytes_from bytes a k)) (omega arith) in
    total-bytes_from bytes (header + from) n k
    ∙ ap (λ t. total (bytes_from bytes (header + from) n) + t) at

part_lem :
    (bytes : Bytes) (header from n : ℕ)
    → wrapping_sum (bytes_from bytes (header + from) n) ≡ part bytes header from n % 2 ^ 8
unfolding part
part_lem bytes header from n = wrapping_sum_lem (bytes_from bytes (header + from) n)

part-byte : (bytes : Bytes) (header from : ℕ) → part bytes header from 1 ≡ bytes (header + from)
unfolding part total bytes_from
part-byte bytes header from = omega arith

part-start :
    (bytes : Bytes) (header n : ℕ) → part bytes header 0 n ≡ total (bytes_from bytes header n)
unfolding part
part-start bytes header n = ap (λ a. total (bytes_from bytes a n)) (omega arith)

-- A header of 36 bytes is its nine fields.
fields :
    (bytes : Bytes) (header : ℕ)
    → total (bytes_from bytes header 36)
      ≡ total (bytes_from bytes header 4)
        + part bytes header 4 4
        + bytes (header + 8)
        + bytes (header + 9)
        + part bytes header 10 6
        + part bytes header 16 8
        + part bytes header 24 4
        + part bytes header 28 4
        + part bytes header 32 4
fields bytes header = omega (
  arith,
  part-start bytes header 36,
  part-start bytes header 4,
  part-cut bytes header 0 4 32,
  part-cut bytes header 4 4 28,
  part-cut bytes header 8 1 27,
  part-cut bytes header 9 1 26,
  part-cut bytes header 10 6 20,
  part-cut bytes header 16 8 12,
  part-cut bytes header 24 4 8,
  part-cut bytes header 28 4 4,
  part-byte bytes header 8,
  part-byte bytes header 9,
)

-- The sum of a table's header is that of its 36 bytes.
pub get_bytes_sum_lem :
    (bytes : Bytes) (header : ℕ)
    → get_bytes_sum bytes header ≡ total (bytes_from bytes header 36) % 2 ^ 8
unfolding get_bytes_sum
get_bytes_sum_lem bytes header = omega (
  arith,
  fields bytes header,
  wrapping_sum_lem (bytes_from bytes header 4),
  part_lem bytes header 28 4,
  part_lem bytes header 4 4,
  part_lem bytes header 10 6,
  part_lem bytes header 32 4,
  part_lem bytes header 24 4,
  part_lem bytes header 16 8,
)

-- A MADT of at least 36 bytes is read exactly if all its bytes add up to 0 modulo 256, by the
-- walk over its records; otherwise it is an error.
pub handle_madt_lem :
    (fuel : ℕ) (bytes : Bytes) (header : ℕ)
    → 36 ≤ header_length bytes header
    → header_length bytes header < 2 ^ 32
    → handle_madt fuel bytes header (header + 36) ≡ (
        if total (bytes_from bytes header (header_length bytes header)) % 2 ^ 8 == 0
        then madt_loop bytes
            (header + 36)
            (header_length bytes header - 36)
            fuel
            8
            (err "Invalid MADT")
        else err "MADT checksum failed")
unfolding handle_madt data_length
handle_madt_lem fuel bytes header long short =
    let size : u32 (header_length bytes header + 2 ^ 32 - 36) ≡ header_length bytes header - 36 =
      omega arith in
    let head : get_bytes_sum bytes header < 2 ^ 8 = omega (arith, get_bytes_sum_lem bytes header) in
    let cut : total (bytes_from bytes header (36 + (header_length bytes header - 36)))
        ≡ total (bytes_from bytes header (header_length bytes header)) =
      ap (λ n. total (bytes_from bytes header n)) (omega arith) in
    let sum : fold_sum (get_bytes_sum bytes header)
          (bytes_from bytes (header + 36) (header_length bytes header - 36))
        ≡ total (bytes_from bytes header (header_length bytes header)) % 2 ^ 8 =
      fold_sum_lem (get_bytes_sum bytes header)
        (bytes_from bytes (header + 36) (header_length bytes header - 36)) head
      ∙ omega (
        arith,
        cut,
        get_bytes_sum_lem bytes header,
        total-bytes_from bytes header 36 (header_length bytes header - 36),
      ) in
    rw (size, sum) (ground arith)
