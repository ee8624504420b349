-- ===== src/Addr/Laws.antt =====
-- Canonical form, checked construction, and the fields that a page walk reads.
use ferr_os.Base.{
  ℕ, ◌+◌, ◌-◌, ◌*◌, ◌/◌, ◌%◌, ◌^◌, ◌≤◌, ◌<◌, bit_and, ◌≡◌, ◌⊎◌, ◌||◌, arith, ltb, leb,
  if◌then◌else◌, ok, err,
}
use ferr_os.Base.Bits.{and_low, and_field}
use ferr_os.Addr.{
  VirtAddr, new, new_checked, offset, p4_index, p3_index, p2_index, p1_index, get_page_offset,
}

-- Bits 47 to 63 are copies of each other.
abbrev pub IsCanonical : VirtAddr → Type 0
IsCanonical a = (a < 2 ^ 64) × ((a < 2 ^ 47) ⊎ (2 ^ 64 - 2 ^ 47 ≤ a))

-- `new` gives a canonical address with the low 48 bits of its argument, and returns a canonical
-- address as it is.
pub new-IsCanonical :
    (a : ℕ) → IsCanonical (new a) × (new a % 2 ^ 48 ≡ a % 2 ^ 48) × (IsCanonical a → new a ≡ a)
unfolding new
new-IsCanonical a = ground arith

high_bits : (a : ℕ) → a < 2 ^ 64 → bit_and a 0xffff_8000_0000_0000 ≡ a / 2 ^ 47 * 2 ^ 47
high_bits a h = omega (arith, and_field 17 47 a)

-- Of the 64-bit numbers, new_checked accepts exactly those whose bits 48 to 63 are all clear, or
-- whose bits 47 to 63 are all set, and makes an address of them as new does; the others are an
-- error.
pub new_checked_lem :
    (a : ℕ)
    → a < 2 ^ 64
    → new_checked a ≡ (
        if ltb a (2 ^ 48) || leb (2 ^ 64 - 2 ^ 47) a then ok (new a) else err "Virt addr not valid")
unfolding new_checked new
new_checked_lem a h = ground (arith, high_bits a h)

-- `offset` fails exactly on a carry out of 64 bits, and otherwise gives the canonical form of the sum.
pub offset_lem :
    (a by : ℕ)
    → offset a by ≡ (if ltb (a + by) (2 ^ 64) then ok (new (a + by)) else err "Virt addr overflow")
unfolding offset
offset_lem a by = ground arith

pub indices_lt :
    (a : ℕ) → (p4_index a < 512) × (p3_index a < 512) × (p2_index a < 512) × (p1_index a < 512)
unfolding p4_index p3_index p2_index p1_index
indices_lt a = omega arith

-- The four indices and the page offset of a canonical address determine it.
pub indices_roundtrip :
    (a : ℕ)
    → IsCanonical a
    → new (
        p4_index a * 2 ^ 39
        + p3_index a * 2 ^ 30
        + p2_index a * 2 ^ 21
        + p1_index a * 2 ^ 12
        + get_page_offset a)
      ≡ a
unfolding p4_index p3_index p2_index p1_index get_page_offset new
indices_roundtrip a h = ground (arith, and_low 12 a)

-- Two canonical addresses of whole pages with the same four indices are equal.
pub same_indices :
    (a b : ℕ)
    → IsCanonical a
    → IsCanonical b
    → a % 4096 ≡ 0
    → b % 4096 ≡ 0
    → p4_index a ≡ p4_index b
    → p3_index a ≡ p3_index b
    → p2_index a ≡ p2_index b
    → p1_index a ≡ p1_index b
    → a ≡ b
unfolding p4_index p3_index p2_index p1_index
same_indices a b ha hb pa pb e4 e3 e2 e1 = ground arith
