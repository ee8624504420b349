-- ===== src/Idt/Tests.antt =====
-- An entry at work.
use ferr_os.Base.{◌≡◌, arith}
use ferr_os.Base.Bits.{digit}
use ferr_os.Idt.{missing, set_handler_addr, handler_addr}
use ferr_os.Idt.Handlers.{set_handler_addr_roundtrip}

set_handler_addr_test :
    (handler_addr (set_handler_addr 8 0xffff_8000_1234_5678 missing) ≡ 0xffff_8000_1234_5678)
    × ((set_handler_addr 8 0xffff_8000_1234_5678 missing).gdt_selector ≡ 8)
    × (digit (set_handler_addr 8 0xffff_8000_1234_5678 missing).options 15 ≡ 1)
set_handler_addr_test = set_handler_addr_roundtrip 8 0xffff_8000_1234_5678 missing (omega arith)
