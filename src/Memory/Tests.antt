-- ===== src/Memory/Tests.antt =====
-- The theorems on the translation, at tables with one page.
use ferr_os.Base.{◌+◌, ◌-◌, ◌%◌, ◌≡◌, refl, none, some}
use ferr_os.Addr.{get_page_offset}
use ferr_os.PageTable.{Tables, is_present, addr}
use ferr_os.PageTable.Translate.{page_frame}
use ferr_os.Memory.{
  virt_mapping_offset, active_level_4_table, walk_indices, translate_addr_inner, translate_addr,
}
use ferr_os.Memory.Laws.{translate_addr-eq}

-- Each table's entries all lead to the frame after its own.
abbrev chain : Tables
chain table index = table - virt_mapping_offset + 4096 + 3

translated : translate_addr chain 0x1000 0x7777_7777_1234 ≡ some 0x5234
unfolding translate_addr translate_addr_inner walk_indices is_present addr get_page_offset
translated = refl

translate_addr_example :
    translate_addr chain 0x1000 0x7777_7777_1234
    ≡ elim (page_frame chain virt_mapping_offset (active_level_4_table 0x1000) 0x7777_7777_1234) [
      | none ↦ none
      | some frame ↦ some (frame + 0x7777_7777_1234 % 4096)
    ]
translate_addr_example = translate_addr-eq chain 0x1000 0x7777_7777_1234
