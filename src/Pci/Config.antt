-- ===== src/Pci/Config.antt =====
-- Configuration addresses.
use ferr_os.Base.{
  ℕ, ◌+◌, ◌*◌, ◌/◌, ◌%◌, ◌^◌, ◌<◌, bit_and, bit_or, ◌≡◌, ap, ap₂, ◌∙◌, arith, u32, ◌<<◌,
}
use ferr_os.Base.Bits.{or_fields, or_high, and_field}
use ferr_os.Pci.{config_address}

-- Of a bus, a device, a function and an offset of 8, 5, 3 and 8 bits, the configuration address
-- is the sum of its fields, and so determines the bus, the device, the function and the double
-- word.
pub config_address_lem :
    (bus device func offset : ℕ)
    → bus < 2 ^ 8
    → device < 2 ^ 5
    → func < 2 ^ 3
    → offset < 2 ^ 8
    → (config_address bus device func offset
        ≡ 2 ^ 31 + bus * 2 ^ 16 + device * 2 ^ 11 + func * 2 ^ 8 + offset / 4 * 4)
      × (config_address bus device func offset / 2 ^ 16 % 2 ^ 8 ≡ bus)
      × (config_address bus device func offset / 2 ^ 11 % 2 ^ 5 ≡ device)
      × (config_address bus device func offset / 2 ^ 8 % 2 ^ 3 ≡ func)
      × (config_address bus device func offset % 2 ^ 8 ≡ offset / 4 * 4)
config_address_lem bus device func offset hb hd hf ho =
    (sum, omega (arith, sum), omega (arith, sum), omega (arith, sum), omega (arith, sum))
  where
    sum :
        config_address bus device func offset
        ≡ 2 ^ 31 + bus * 2 ^ 16 + device * 2 ^ 11 + func * 2 ^ 8 + offset / 4 * 4
    sum =
        let b : u32 (bus << 16) ≡ bus * 2 ^ 16 = omega arith in
        let e : u32 (device << 11) ≡ device * 2 ^ 11 = omega arith in
        let g : u32 (func << 8) ≡ func * 2 ^ 8 = omega arith in
        let o : bit_and offset 0xfc ≡ offset / 4 * 4 = omega (arith, and_field 6 2 offset) in
        let one : bit_or (u32 (bus << 16)) (u32 (device << 11)) ≡ (bus * 2 ^ 5 + device) * 2 ^ 11 =
          ap₂ bit_or b e ∙ or_fields 16 bus (device * 2 ^ 11) (omega arith) ∙ omega arith in
        let two : bit_or (bit_or (u32 (bus << 16)) (u32 (device << 11))) (u32 (func << 8))
            ≡ (bus * 2 ^ 8 + device * 2 ^ 3 + func) * 2 ^ 8 =
          ap₂ bit_or one g
          ∙ or_fields 11 (bus * 2 ^ 5 + device) (func * 2 ^ 8) (omega arith)
          ∙ omega arith in
        ap (λ t. bit_or t 0x8000_0000)
          (ap₂ bit_or two o
            ∙ or_fields 8 (bus * 2 ^ 8 + device * 2 ^ 3 + func) (offset / 4 * 4) (omega arith))
        ∙ or_high 31 ((bus * 2 ^ 8 + device * 2 ^ 3 + func) * 2 ^ 8 + offset / 4 * 4) 1
            (omega arith) (omega arith)
        ∙ omega arith
