-- ===== src/Pci/Scan.antt =====
-- Which devices are found.
use ferr_os.Base.{
  ℕ, zero, suc, ◌+◌, ◌≤◌, ◌<◌, ◌≡◌, refl, sym, ◌≢◌, inl, inr, true, false, ◌&&◌, List, [], ◌∷◌,
  ◌++◌, map, arith, ◌==◌, ◌!=◌, ==_iff, ne→not_==, Bool-cases, All, ok,
}
use mathlib.Core.List.{Mem, mem-cons_self, mem-append_left, mem-append_right}
use mathlib.Core.Path.{subst}
use ferr_os.Pci.{
  Space, pci_config_read_word, to_be_bytes, PciDevice, drive, generic, GenericPciDevice,
  check_function, check_functions, check_device, check_devices, is_multifunction, init_pci,
}

-- A device that is not function 0.
abbrev pub IsUpper : {D : Type 0} → PciDevice D → Type 0
IsUpper (drive d) = Unit
IsUpper (generic g) = 1 ≤ g.function

All-append : {A : Type 0} (P : A → Type 0) (xs ys : List A) → All P xs → All P ys → All P (xs ++ ys)
All-append P [] ys h k = k
All-append P (x ∷ xs) ys (hx, h) k = (hx, All-append P xs ys h k)

All-drives : {D : Type 0} (ds : List D) → All IsUpper (map drive ds)
All-drives [] = tt
All-drives (d ∷ ds) = (tt, All-drives ds)

module _ {D : Type 0} (ide_initialize : ℕ → List D) (space : Space) where
  check_function-IsUpper :
      (bus device func vendor_id : ℕ)
      → 1 ≤ func
      → All IsUpper (check_function ide_initialize space bus device func vendor_id)
  unfolding check_function
  check_function-IsUpper bus device func vendor_id h =
      elim (Bool-cases (
        ((to_be_bytes (pci_config_read_word space bus device func 0xa)).0 == 0x1)
        && ((to_be_bytes (pci_config_read_word space bus device func 0xa)).1 == 0x1))) [
          | inl ide ↦ rw (ide, check_function) (All-drives (ide_initialize _))
          | inr other ↦ rw (other, check_function) (h, tt)
        ]

  check_functions-IsUpper :
      (bus device rounds func : ℕ)
      → 1 ≤ func
      → All IsUpper (check_functions ide_initialize space bus device rounds func)
  unfolding check_functions
  check_functions-IsUpper bus device zero func h = tt
  check_functions-IsUpper bus device (suc rounds) func h =
      let rest = check_functions-IsUpper bus device rounds (func + 1) (omega arith) in
      elim (Bool-cases (pci_config_read_word space bus device func 0 != 0xffff)) [
        | inl there ↦
            rw (there, check_functions)
              (All-append IsUpper
                (check_function ide_initialize space bus device func
                  (pci_config_read_word space bus device func 0))
                (check_functions ide_initialize space bus device rounds (func + 1))
                (check_function-IsUpper bus device func
                  (pci_config_read_word space bus device func 0) h)
                rest)
        | inr absent ↦ rw (absent, check_functions) rest
      ]

  -- Of a device with several functions, function 0 is never reported.
  pub check_device-IsUpper :
      (bus device : ℕ)
      → is_multifunction ide_initialize space bus device ≡ true
      → All IsUpper (check_device ide_initialize space bus device)
  unfolding check_device
  check_device-IsUpper bus device several =
      elim (Bool-cases (pci_config_read_word space bus device 0 0 == 0xffff)) [
        | inl absent ↦ rw (absent, check_device) tt
        | inr there ↦
            rw (there, several, check_device) (check_functions-IsUpper bus device 7 1 (omega arith))
      ]

  found :
      (x : PciDevice D) (rounds device d : ℕ)
      → device ≤ d
      → d < device + rounds
      → Mem x (check_device ide_initialize space 0 d)
      → Mem x (check_devices ide_initialize space rounds device)
  unfolding check_devices
  found x zero device d low high m = absurd (omega arith)
  found x (suc rounds) device d low high m = elim (Bool-cases (device == d)) [
    | inl same ↦ mem-append_left (check_devices ide_initialize space rounds (device + 1)) (
        subst (λ k. Mem x (check_device ide_initialize space 0 k)) (sym ((==_iff device d).0 same))
          m)
    | inr different ↦
        mem-append_right (check_device ide_initialize space 0 device)
          (found x rounds (device + 1) d (ground (arith, different)) (omega arith) m)
  ]

  -- Function 0 of a device of bus 0, as its configuration space tells it.
  abbrev pub function_zero : ℕ → GenericPciDevice
  function_zero d = record {
    bus = 0;
    device = d;
    function = 0;
    class_code = (to_be_bytes (pci_config_read_word space 0 d 0 0xa)).0;
    subclass = (to_be_bytes (pci_config_read_word space 0 d 0 0xa)).1;
    prog_if = (to_be_bytes (pci_config_read_word space 0 d 0 0x8)).0;
    vendor_id = pci_config_read_word space 0 d 0 0;
  }

  single_function :
      (d : ℕ)
      → pci_config_read_word space 0 d 0 0 ≢ 0xffff
      → is_multifunction ide_initialize space 0 d ≡ false
      → (function_zero d).class_code ≢ 1
      → check_device ide_initialize space 0 d ≡ generic (function_zero d) ∷ []
  unfolding check_device check_function
  single_function d there single other =
      let t = ne→not_== (pci_config_read_word space 0 d 0 0) 0xffff there in
      let o = ne→not_== (function_zero d).class_code 1 other in ground (arith, t, single, o)

  -- With a single host controller the scan succeeds, and it finds each of the 32 devices of bus 0
  -- that is there, has one function, and is not of the class of mass storage.
  pub init_pci_lem :
      is_multifunction ide_initialize space 0 0 ≡ false
      → (devices : List (PciDevice D)) × (init_pci ide_initialize space ≡ ok devices)
        × ((d : ℕ)
            → d < 32
            → pci_config_read_word space 0 d 0 0 ≢ 0xffff
            → is_multifunction ide_initialize space 0 d ≡ false
            → (function_zero d).class_code ≢ 1
            → Mem (generic (function_zero d)) devices)
  unfolding init_pci
  init_pci_lem single = (
    check_devices ide_initialize space 32 0,
    rw (single, init_pci) refl,
    λ d below there one other. found (generic (function_zero d)) 32 0 d (omega arith) below (
        subst (Mem (generic (function_zero d))) (sym (single_function d there one other))
          mem-cons_self),
  )
