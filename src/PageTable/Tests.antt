-- ===== src/PageTable/Tests.antt =====
-- The entries, the roundings and the walk at concrete inputs.
use ferr_os.Base.{◌+◌, ◌%◌, ◌≤◌, ◌<◌, bit_or, ◌≡◌, true, arith}
use ferr_os.Addr.Laws.{IsCanonical}
use ferr_os.PageTable.{
  Tables, present, writable, set_addr, is_present, addr, get_physical_address, align_down,
  align_down_u64,
}
use ferr_os.PageTable.Entry.{set_addr_roundtrip, align_down_u64_lem, align_down_lem}
use ferr_os.PageTable.Translate.{page_frame}
use ferr_os.PageTable.Pages.{get_physical_address-eq}

set_addr_roundtrip_test :
    (addr (set_addr 0x5000 (bit_or present writable)) ≡ 0x5000)
    × (is_present (set_addr 0x5000 (bit_or present writable)) ≡ true)
set_addr_roundtrip_test = set_addr_roundtrip 0x5000 (omega arith)

align_down_u64_test :
    (align_down_u64 0x5abc % 4096 ≡ 0)
    × (align_down_u64 0x5abc ≤ 0x5abc)
    × (0x5abc < align_down_u64 0x5abc + 4096)
align_down_u64_test = align_down_u64_lem 0x5abc (omega arith)

align_down_test : (align_down 0x5abc ≡ align_down_u64 0x5abc) × IsCanonical (align_down 0x5abc)
align_down_test = align_down_lem 0x5abc (omega arith)

abbrev chain : Tables
chain table index = table + 4096 + 3

get_physical_address_test :
    get_physical_address chain 0x1000 0x7777_7777_1000 ≡ page_frame chain 0 0x1000 0x7777_7777_1000
get_physical_address_test = get_physical_address-eq chain 0x1000 0x7777_7777_1000
