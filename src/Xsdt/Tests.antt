-- ===== src/Xsdt/Tests.antt =====
-- Tests of the ACPI tables (src/xsdt.rs).
use ferr_os.Xsdt.{data_length}
use ferr_os.Xsdt.{number_at}
use ferr_os.Xsdt.{fold_sum}
use ferr_os.Base.{failed}
use ferr_os.Xsdt.{wrapping_sum}
use ferr_os.Base.{Ends}
use ferr_os.Xsdt.{get_bytes_sum}
use ferr_os.Base.{
  ℕ, ◌-◌, ◌%◌, ◌^◌, ◌≡◌, refl, List, [], ◌∷◌, arith, ◌==◌, if◌then◌else◌, get_or, ok, err, hang,
}
use ferr_os.Xsdt.{Bytes, handle_madt, header_length, bytes_from, madt_loop}
use ferr_os.Xsdt.Sums.{total, handle_madt_lem}
use ferr_os.Xsdt.Records.{past, next, empty, madt_loop-Ends, madt_loop-hang}

-- A MADT of 56 bytes with one record, of an I/O APIC at 0xFEC00000.
abbrev madt : List ℕ
madt =
    65 ∷ 80 ∷ 73 ∷ 67 ∷ 56 ∷ 0 ∷ 0 ∷ 0 ∷ 0 ∷ 1 ∷ 0 ∷ 0 ∷ 0 ∷ 0 ∷ 0 ∷ 0 ∷ 0 ∷ 0 ∷ 0 ∷ 0 ∷ 0 ∷ 0 ∷ 0
    ∷ 0 ∷ 0 ∷ 0 ∷ 0 ∷ 0 ∷ 0 ∷ 0 ∷ 0 ∷ 0 ∷ 0 ∷ 0 ∷ 0 ∷ 0 ∷ 0 ∷ 0 ∷ 224 ∷ 254 ∷ 1 ∷ 0 ∷ 0 ∷ 0 ∷ 1 ∷ 12
    ∷ 0 ∷ 0 ∷ 0 ∷ 0 ∷ 192 ∷ 254 ∷ 0 ∷ 0 ∷ 0 ∷ 0 ∷ []

abbrev madt_bytes : Bytes
madt_bytes addr = get_or madt addr 0

handle_madt_example : handle_madt 20 madt_bytes 0 36 ≡ (
    if total (bytes_from madt_bytes 0 (header_length madt_bytes 0)) % 2 ^ 8 == 0
    then madt_loop madt_bytes 36 (header_length madt_bytes 0 - 36) 20 8 (err "Invalid MADT")
    else err "MADT checksum failed")
unfolding header_length
handle_madt_example = handle_madt_lem 20 madt_bytes 0 (omega arith) (omega arith)

found :
    handle_madt 20 madt_bytes 0 36
    ≡ ok (record { local_apic_addr = 4276092928; io_apic_addr = 65216 })
unfolding handle_madt get_bytes_sum wrapping_sum fold_sum madt_loop bytes_from header_length
    number_at data_length
found = refl

madt_loop-Ends_example : Ends (madt_loop madt_bytes 36 20 13 8 (err "Invalid MADT"))
madt_loop-Ends_example =
    madt_loop-Ends madt_bytes 36 20 12 8 (err "Invalid MADT") (omega arith)
      (next 8 (λ e. omega (arith, e)) (past 20 (omega arith))) (failed "Invalid MADT")

madt_loop-hang_test : madt_loop (λ _. 0) 36 20 13 8 (err "Invalid MADT") ≡ hang
madt_loop-hang_test =
    madt_loop-hang (λ _. 0) 36 20 13 8 (err "Invalid MADT") (empty 8 (omega arith) refl)
