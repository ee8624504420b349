-- ===== src/Pci.antt =====
-- src/pci.rs: reading the configuration space of PCI devices, and finding them on bus 0. The
-- double word at a configuration address, which the ports 0xCF8 and 0xCFC give, is an argument,
-- and so is `ide_initialize` with the drives that it finds.
pub mod Config
pub mod Scan
mod Tests
use ferr_os.Base.{
  ℕ, zero, suc, ◌+◌, ◌*◌, ◌/◌, ◌%◌, bit_and, bit_or, String, Bool, ◌&&◌, List, [], ◌∷◌, ◌++◌, map,
  ◌==◌, ◌!=◌, if◌then◌else◌, u32, ◌<<◌, ◌>>◌, Outcome, ok, panic,
}

abbrev pub config_address : ℕ → ℕ → ℕ → ℕ → ℕ
config_address bus device func offset =
    bit_or
      (bit_or (bit_or (bit_or (u32 (bus << 16)) (u32 (device << 11))) (u32 (func << 8)))
        (bit_and offset 0xfc))
      0x8000_0000

abbrev pub Space : Type 0
Space = ℕ → ℕ

unfoldable pub pci_config_read_word : Space → ℕ → ℕ → ℕ → ℕ → ℕ
pci_config_read_word space bus device func offset =
    let word = space (config_address bus device func offset) in
    bit_and (word >> (bit_and offset 2 * 8)) 0xffff

-- `to_be_bytes`
abbrev pub to_be_bytes : ℕ → ℕ × ℕ
to_be_bytes word = (word / 256, word % 256)

unfoldable pub get_device_type : ℕ → ℕ → ℕ → String
get_device_type class_code subclass prog_if =
    if (class_code == 0x6) && (subclass == 0x0)
    then "Host Bridge"
    else if (class_code == 0x6) && (subclass == 0x1)
    then "ISA Bridge"
    else if (class_code == 0x3) && (subclass == 0x0)
    then if prog_if == 0
      then "VGA Controller"
      else if prog_if == 1
      then "VGA 8514-Compatible Controller"
      else "VGA Compatible Controller"
    else if (class_code == 0x2) && (subclass == 0x0)
    then "Ethernet Controller"
    else if (class_code == 0x1) && (subclass == 0x1)
    then if prog_if == 0x0
      then "IDE ISA Compatibility mode-only controller"
      else if prog_if == 0x5
      then "IDE PCI native mode-only controller"
      else if prog_if == 0xa
      then "IDE ISA Compatibility mode controller, supports both channels switched to PCI native mode"
      else if prog_if == 0xf
      then "IDE PCI native mode controller, supports both channels switched to ISA compatibility mode"
      else if prog_if == 0x80
      then "IDE ISA Compatibility mode-only controller, supports bus mastering"
      else if prog_if == 0x85
      then "IDE PCI native mode-only controller, supports bus mastering"
      else if prog_if == 0x8a
      then "IDE ISA Compatibility mode controller, supports both channels switched to PCI native mode, supports bus mastering"
      else if prog_if == 0x8f
      then "IDE PCI native mode controller, supports both channels switched to ISA compatibility mode, supports bus mastering"
      else "Some IDE Controller"
    else if (class_code == 0x6) && (subclass == 0x80)
    then "Other bridge"
    else ""

pub record GenericPciDevice : Type 0 where
  pub bus : ℕ
  pub device : ℕ
  pub function : ℕ
  pub class_code : ℕ
  pub subclass : ℕ
  pub prog_if : ℕ
  pub vendor_id : ℕ

pub data PciDevice (D : Type 0) : Type 0 where
  drive : D → PciDevice D
  generic : GenericPciDevice → PciDevice D

module _ {D : Type 0} (ide_initialize : ℕ → List D) (space : Space) where
  unfoldable pub check_function : ℕ → ℕ → ℕ → ℕ → List (PciDevice D)
  check_function bus device func vendor_id =
      let (class_code, subclass) = to_be_bytes (pci_config_read_word space bus device func 0xa) in
      let (prog_if, _) = to_be_bytes (pci_config_read_word space bus device func 0x8) in
      if (class_code == 0x1) && (subclass == 0x1)
      then map drive (ide_initialize prog_if)
      else generic (record {
        bus = bus;
        device = device;
        function = func;
        class_code = class_code;
        subclass = subclass;
        prog_if = prog_if;
        vendor_id = vendor_id;
      })
        ∷ []

  -- The loop over the functions from one on, with the rounds left.
  unfoldable pub check_functions : ℕ → ℕ → ℕ → ℕ → List (PciDevice D)
  unfolding check_function
  check_functions bus device zero func = []
  check_functions bus device (suc rounds) func =
      let vendor_id = pci_config_read_word space bus device func 0 in
      let rest = check_functions bus device rounds (func + 1) in
      if vendor_id != 0xffff then check_function bus device func vendor_id ++ rest else rest

  abbrev pub is_multifunction : ℕ → ℕ → Bool
  is_multifunction bus device =
      bit_and (to_be_bytes (pci_config_read_word space bus device 0 0xe)).1 0x80 != 0

  unfoldable pub check_device : ℕ → ℕ → List (PciDevice D)
  unfolding check_functions
  check_device bus device =
      let vendor_id = pci_config_read_word space bus device 0 0 in
      if vendor_id == 0xffff
      then []
      else if is_multifunction bus device
      then check_functions bus device 7 1
      else check_function bus device 0 vendor_id

  -- The loop over the devices of bus 0 from one on, with the rounds left.
  unfoldable pub check_devices : ℕ → ℕ → List (PciDevice D)
  unfolding check_device
  check_devices zero device = []
  check_devices (suc rounds) device = check_device 0 device ++ check_devices rounds (device + 1)

  unfoldable pub init_pci : Outcome (List (PciDevice D))
  unfolding check_devices
  init_pci = if is_multifunction 0 0 then panic else ok (check_devices 32 0)
