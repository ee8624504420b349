-- ===== src/Addr.antt =====
-- shared_lib/src/addr.rs: canonical virtual addresses and the fields of a page walk. An address
-- is the `u64` in the struct; arithmetic wraps, as in a release build.
pub mod Laws
mod Tests
use ferr_os.Base.{
  ℕ, ◌+◌, ◌-◌, ◌%◌, ◌^◌, bit_and, not, ◌||◌, ltb, leb, ◌==◌, if◌then◌else◌, u16, u64, ◌<<◌, ◌>>◌,
  Outcome, ok, err,
}

abbrev pub PhysAddr : Type 0
PhysAddr = ℕ

abbrev pub VirtAddr : Type 0
VirtAddr = ℕ

-- `>>` on an `i64`: the sign bit fills from the left.
pub sar64 : ℕ → ℕ → ℕ
sar64 x k = if ltb x (2 ^ 63) then x >> k else (x >> k) + (2 ^ 64 - 2 ^ (64 - k))

unfoldable pub new : ℕ → VirtAddr
unfolding sar64
new addr = sar64 (u64 (addr << 16)) 16

unfoldable pub new_checked : ℕ → Outcome VirtAddr
new_checked addr =
    let high = bit_and addr 0xffff_8000_0000_0000 in
    if high == 0 || high == 0xffff_8000_0000_0000
    then ok addr
    else if high == 0x0000_8000_0000_0000
    then ok (new addr)
    else err "Virt addr not valid"

unfoldable pub offset : VirtAddr → ℕ → Outcome VirtAddr
offset self by = if leb (2 ^ 64) (self + by) then err "Virt addr overflow" else ok (new (self + by))

pub from_ptr : ℕ → VirtAddr
from_ptr ptr = new ptr

abbrev pub entry_count : ℕ
entry_count = 512

unfoldable pub p4_index : VirtAddr → ℕ
p4_index self = u16 (self >> 12 >> 9 >> 9 >> 9) % entry_count

unfoldable pub p3_index : VirtAddr → ℕ
p3_index self = u16 (self >> 12 >> 9 >> 9) % entry_count

unfoldable pub p2_index : VirtAddr → ℕ
p2_index self = u16 (self >> 12 >> 9) % entry_count

unfoldable pub p1_index : VirtAddr → ℕ
p1_index self = u16 (self >> 12) % entry_count

unfoldable pub get_page_offset : VirtAddr → ℕ
get_page_offset self = u16 (bit_and self 0xfff)

unfoldable pub bitand : VirtAddr → VirtAddr → VirtAddr
bitand self rhs = new (bit_and self rhs)

unfoldable pub add : VirtAddr → VirtAddr → VirtAddr
add self rhs = new (u64 (self + rhs))
