-- ===== src/Addr/Tests.antt =====
-- The unit tests of shared_lib/src/addr.rs, and the theorems at concrete addresses.
use ferr_os.Base.{◌+◌, ◌-◌, ◌*◌, ◌%◌, ◌^◌, ◌≡◌, refl, ◌||◌, arith, ltb, leb, if◌then◌else◌, ok, err}
use ferr_os.Addr.{new, new_checked, p4_index, p3_index, p2_index, p1_index, get_page_offset}
use ferr_os.Addr.{offset}
use ferr_os.Addr.Laws.{IsCanonical, new_checked_lem, indices_roundtrip, new-IsCanonical, offset_lem}

check_sign_extension :
    (new 0xf000_0000_0000_0023 ≡ 0x23) × (new 0xffff_800f_0000_0023 ≡ 0xffff_800f_0000_0023)
unfolding new
check_sign_extension = (refl, refl)

check_ctr_new_checked :
    (new_checked 0x0000_8000_0700_0000 ≡ ok 0xffff_8000_0700_0000)
    × (new_checked 0x1020_0000_0000_0002 ≡ err "Virt addr not valid")
unfolding new_checked new
check_ctr_new_checked = (refl, refl)

new_checked_test : new_checked 0x8000_0700_0000 ≡ (
    if ltb 0x8000_0700_0000 (2 ^ 48) || leb (2 ^ 64 - 2 ^ 47) 0x8000_0700_0000
    then ok (new 0x8000_0700_0000)
    else err "Virt addr not valid")
new_checked_test = new_checked_lem 0x8000_0700_0000 (omega arith)

indices_roundtrip_example :
    new (
      p4_index 0x7777_7777_1234 * 2 ^ 39
      + p3_index 0x7777_7777_1234 * 2 ^ 30
      + p2_index 0x7777_7777_1234 * 2 ^ 21
      + p1_index 0x7777_7777_1234 * 2 ^ 12
      + get_page_offset 0x7777_7777_1234)
    ≡ 0x7777_7777_1234
indices_roundtrip_example = indices_roundtrip 0x7777_7777_1234 (omega arith)

new-IsCanonical_test :
    IsCanonical (new 0xf000_0000_0000_0023)
    × (new 0xf000_0000_0000_0023 % 2 ^ 48 ≡ 0xf000_0000_0000_0023 % 2 ^ 48)
    × (IsCanonical 0xf000_0000_0000_0023 → new 0xf000_0000_0000_0023 ≡ 0xf000_0000_0000_0023)
new-IsCanonical_test = new-IsCanonical 0xf000_0000_0000_0023

offset_test : offset 0x7fff_ffff_f000 0x1000 ≡ (
    if ltb (0x7fff_ffff_f000 + 0x1000) (2 ^ 64)
    then ok (new (0x7fff_ffff_f000 + 0x1000))
    else err "Virt addr overflow")
offset_test = offset_lem 0x7fff_ffff_f000 0x1000
