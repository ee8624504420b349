-- ===== src/Pci/Tests.antt =====
-- The scan of a bus with one device at place 2.
use ferr_os.Base.{
  ℕ, ◌+◌, ◌*◌, ◌/◌, ◌%◌, ◌^◌, ◌<◌, ◌≡◌, refl, ◌≢◌, false, List, [], arith, ◌==◌, if◌then◌else◌, All,
  ok,
}
use mathlib.Core.List.{Mem}
use ferr_os.Pci.{
  Space, config_address, pci_config_read_word, PciDevice, generic, init_pci, check_device,
  is_multifunction, get_device_type,
}
use ferr_os.Pci.Config.{config_address_lem}
use ferr_os.Pci.Scan.{IsUpper, function_zero, check_device-IsUpper, init_pci_lem}

display_controller : get_device_type 0x3 0x0 0x0 ≡ "VGA Controller"
unfolding get_device_type
display_controller = refl

-- Vendor 0x8086, a display controller.
abbrev one_device : Space
one_device address =
    if address == config_address 0 2 0 0
    then 0x1237_8086
    else if address == config_address 0 2 0 8
    then 0x0300_0000
    else if address == config_address 0 2 0 0xc
    then 0
    else if address == config_address 0 0 0 0xc
    then 0
    else 0xffff_ffff

abbrev no_drives : ℕ → List ℕ
no_drives prog_if = []

init_pci_example :
    (devices : List (PciDevice ℕ)) × (init_pci no_drives one_device ≡ ok devices)
    × ((d : ℕ)
        → d < 32
        → pci_config_read_word one_device 0 d 0 0 ≢ 0xffff
        → is_multifunction no_drives one_device 0 d ≡ false
        → (function_zero no_drives one_device d).class_code ≢ 1
        → Mem (generic (function_zero no_drives one_device d)) devices)
unfolding pci_config_read_word
init_pci_example = init_pci_lem no_drives one_device refl

check_device_test : All IsUpper (check_device no_drives (λ address. 0x0080_0000) 0 3)
unfolding pci_config_read_word
check_device_test = check_device-IsUpper no_drives (λ address. 0x0080_0000) 0 3 refl

config_address_test :
    (config_address 0 31 7 0xff ≡ 2 ^ 31 + 0 * 2 ^ 16 + 31 * 2 ^ 11 + 7 * 2 ^ 8 + 0xff / 4 * 4)
    × (config_address 0 31 7 0xff / 2 ^ 16 % 2 ^ 8 ≡ 0)
    × (config_address 0 31 7 0xff / 2 ^ 11 % 2 ^ 5 ≡ 31)
    × (config_address 0 31 7 0xff / 2 ^ 8 % 2 ^ 3 ≡ 7)
    × (config_address 0 31 7 0xff % 2 ^ 8 ≡ 0xff / 4 * 4)
config_address_test =
    config_address_lem 0 31 7 0xff (omega arith) (omega arith) (omega arith) (omega arith)
