-- ===== src/Apic/Tests.antt =====
-- Tests of src/apic.rs.
use ferr_os.Base.{ℕ, ◌/◌, ◌≡◌, refl, ◌≢◌, arith, ok, panic}
use ferr_os.Base.Bits.{digit}
use ferr_os.Apic.Setup.{redirection}
use ferr_os.Apic.Clock.{calc_apic_timer_ref}
use ferr_os.Apic.Frequency.{nanoseconds, elapsed, calc_apic_timer_ref_lem}
use ferr_os.Apic.Entry.{entry_bit, redirection_lem}

redirection_example : digit (redirection 0x1_0000) 5 ≡ entry_bit 5 (digit 0x1_0000 5)
redirection_example = redirection_lem 0x1_0000 5 (omega arith)

abbrev first_count : ℕ
first_count = 5

abbrev last_count : ℕ
last_count = 3579550

calc_apic_timer_ref_example :
    (first_count ≡ last_count → calc_apic_timer_ref 2000000000000000 first_count last_count ≡ panic)
    × (first_count ≢ last_count
        → calc_apic_timer_ref 2000000000000000 first_count last_count
          ≡ ok (2000000000000000 / nanoseconds (elapsed first_count last_count)))
calc_apic_timer_ref_example =
    calc_apic_timer_ref_lem 2000000000000000 first_count last_count (omega arith) (omega arith)
      (omega arith)

two_million : calc_apic_timer_ref 2000000000000000 5 3579550 ≡ ok 2000000
unfolding calc_apic_timer_ref
two_million = refl
