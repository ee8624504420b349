-- ===== src/Ide/Command.antt =====
-- src/ide.rs: what a drive is told by io_prepare.
use ferr_os.Base.{
  ℕ, ◌+◌, ◌/◌, ◌%◌, ◌^◌, ◌≤◌, ◌<◌, bit_and, bit_or, ◌≡◌, refl, ap, ◌∙◌, ◌≢◌, ◌⊎◌, Bool, true, false,
  some, List, [], arith,
}
use ferr_os.Base.Bits.{or_fields}
use ferr_os.Base.Io.{Gives, gives, Gives-bind, Gives-map}
use ferr_os.Ide.{
  Bus, AtaChannel, primary, secondary, DriveType, master, slave, drive_bit, IdeDevice,
  control_and_alt_status, command_number, Machine,
}
use ferr_os.Ide.Channel.{registers, set_registers, ide_write}
use ferr_os.Ide.Drive.{TaskFile, chosen, lba28_of, lba48_of, run, start, IsDrive, IsPatient}
use ferr_os.Ide.Transfer.{
  LbaMode, lba48, lba28, chs, lba_mode_of, head_of, slavebit, command_of, set_no_interrupt,
  prepare_in, prepare_by, io_prepare,
}
use ferr_os.Ide.Access.{At, ide_write-control}
use ferr_os.Ide.Prepare.{bytes_lem, head_lem, addressed, selected, prepare_in-Has}

-- So many blocks are to be transferred, and none is open yet.
abbrev pub Transfers : ℕ → TaskFile → Type 0
Transfers numsects told = (told.block ≡ 0) × (told.pending ≡ numsects)

-- What the drive is told to store.
abbrev pub Storing : IdeDevice → ℕ → ℕ → TaskFile → Type 0
Storing self lba numsects told =
    (told.store ≡ some (drive_bit self.drive, lba, numsects)) × (told.written ≡ [])

-- The command is to store, or to have ready to read.
abbrev pub Told : (ℕ → ℕ → List ℕ) → IdeDevice → ℕ → ℕ → Bool → TaskFile → Type 0
Told sector self lba numsects true told = Storing self lba numsects told × Transfers numsects told
Told sector self lba numsects false told =
    (told.to_read ≡ run (sector (drive_bit self.drive)) lba numsects) × Transfers numsects told

-- The device register: the drive, and in LBA28 the four high bits of the address.
device_lem :
    (d : DriveType) (h : ℕ)
    → h < 2 ^ 4
    → (bit_or (bit_or 0xe0 (slavebit d)) h / 2 ^ 4 % 2 ≡ drive_bit d)
      × (bit_or (bit_or 0xe0 (slavebit d)) h % 2 ^ 4 ≡ h)
device_lem master h small =
    (omega (arith, or_fields 4 14 h small), omega (arith, or_fields 4 14 h small))
device_lem slave h small =
    (omega (arith, or_fields 4 15 h small), omega (arith, or_fields 4 15 h small))

module _ (self : IdeDevice) (lba numsects : ℕ) (t : TaskFile) where
  narrow : TaskFile
  narrow = addressed lba28 self lba numsects (selected lba28 self lba t)

  narrow_lem :
      lba < 2 ^ 28
      → (chosen narrow ≡ drive_bit self.drive)
        × (lba28_of narrow ≡ lba)
        × (narrow.current 2 ≡ numsects)
  unfolding narrow
  narrow_lem small =
      let (b0, b1, b2, b3) = bytes_lem lba in
      let (d, h) = device_lem self.drive (head_of lba28 lba) (omega (arith, head_lem lba)) in
      (d, omega (arith, b0, b1, b2, h, head_lem lba), refl)

  wide : TaskFile
  wide = addressed lba48 self lba numsects (selected lba48 self lba t)

  wide_lem :
      lba < 2 ^ 32
      → (chosen wide ≡ drive_bit self.drive)
        × (lba48_of wide ≡ lba)
        × (wide.current 2 ≡ numsects)
        × (wide.previous 2 ≡ 0)
  unfolding wide
  wide_lem small =
      let (b0, b1, b2, b3) = bytes_lem lba in
      let (d, h) = device_lem self.drive 0 (omega arith) in
      (d, omega (arith, b0, b1, b2, b3), refl, refl)

-- The sectors can be addressed, by LBA48 or by LBA28.
abbrev pub IsAddressable : IdeDevice → ℕ → Type 0
IsAddressable self lba = (lba < 2 ^ 32) × ((2 ^ 28 ≤ lba) ⊎ (bit_and self.capabilities 0x200 ≢ 0))

module _ (sector : ℕ → ℕ → List ℕ) (self : IdeDevice) (lba numsects : ℕ) (t : TaskFile)
    (some_sectors : 0 < numsects) (few : numsects < 2 ^ 8) where
  narrow_read :
      lba < 2 ^ 28
      → Told sector self lba numsects false (start sector 0x20 (narrow self lba numsects t))
  unfolding start
  narrow_read small =
      let (d, l, n) = narrow_lem self lba numsects t small in
      (
        rw (d, l, n) (ap (run (sector (drive_bit self.drive)) lba) (ground arith)),
        (refl, rw n (ground arith)),
      )

  wide_read :
      lba < 2 ^ 32
      → Told sector self lba numsects false (start sector 0x24 (wide self lba numsects t))
  unfolding start
  wide_read small =
      let (d, l, n, p) = wide_lem self lba numsects t small in
      (
        rw (d, l, n, p) (ap (run (sector (drive_bit self.drive)) lba) (ground arith)),
        (refl, rw (n, p) (ground arith)),
      )

  narrow_write :
      lba < 2 ^ 28
      → Told sector self lba numsects true (start sector 0x30 (narrow self lba numsects t))
  unfolding start
  narrow_write small =
      let (d, l, n) = narrow_lem self lba numsects t small in
      (
        (rw (d, l, n) (ap (λ c. some (drive_bit self.drive, lba, c)) (ground arith)), refl),
        (refl, rw n (ground arith)),
      )

  wide_write :
      lba < 2 ^ 32
      → Told sector self lba numsects true (start sector 0x34 (wide self lba numsects t))
  unfolding start
  wide_write small =
      let (d, l, n, p) = wide_lem self lba numsects t small in
      (
        (rw (d, l, n, p) (ap (λ c. some (drive_bit self.drive, lba, c)) (ground arith)), refl),
        (refl, rw (n, p) (ground arith)),
      )

  abbrev programmed : LbaMode → Bool → TaskFile
  programmed mode is_write =
      start sector (command_number (command_of mode false is_write))
        (addressed mode self lba numsects (selected mode self lba t))

  programmed_lem :
      (mode : LbaMode) (is_write : Bool)
      → mode ≡ lba_mode_of self.capabilities lba
      → lba < 2 ^ 32
      → mode ≢ chs
      → Told sector self lba numsects is_write (programmed mode is_write)
  unfolding narrow wide
  programmed_lem chs is_write e small h = absurd (h refl)
  programmed_lem lba28 true e small h = narrow_write (ground arith)
  programmed_lem lba28 false e small h = narrow_read (ground arith)
  programmed_lem lba48 true e small h = wide_write small
  programmed_lem lba48 false e small h = wide_read small

-- An address of LBA48, or a drive that takes LBA28.
IsAddressable-mode :
    (self : IdeDevice) (lba : ℕ) → IsAddressable self lba → lba_mode_of self.capabilities lba ≢ chs
IsAddressable-mode self lba (small, h) = ground arith

quieted :
    {D : Type 0} (c : AtaChannel) (m : Machine D)
    → (registers c (set_registers c (record (registers c m) { no_interrupt = 0x02 }) m)
        ≡ record (registers c m) { no_interrupt = 0x02 })
      × ((set_registers c (record (registers c m) { no_interrupt = 0x02 }) m).device ≡ m.device)
quieted primary m = (refl, refl)
quieted secondary m = (refl, refl)

module _ (bus : Bus) (base control : ℕ) (sector : ℕ → ℕ → List ℕ)
    (drive : IsDrive bus base control sector) (self : IdeDevice)
    (small : (base + 8 < 2 ^ 16) × (control + 4 < 2 ^ 16)) (fuel : ℕ)
    (patient : IsPatient drive fuel) where
  set_no_interrupt-Has :
      (t : TaskFile) (m : Machine bus.Device)
      → At bus base control sector drive self.channel small t m
      → Gives
          (λ _. At bus base control sector drive self.channel small t)
          (set_no_interrupt bus fuel self.channel m)
  set_no_interrupt-Has t m (b, c, e) =
      let (r, d) = quieted self.channel m in
      gives (
        ap (λ x. x.io_base) r ∙ b,
        (ap (λ x. x.ctrl) r ∙ c.0, omega (arith, ap (λ x. x.no_interrupt) r)),
        ap drive.view d ∙ e,
      )

  abbrev pub Programmed : ℕ → ℕ → Bool → Machine bus.Device → Type 0
  Programmed lba numsects is_write m' =
      (told : TaskFile) × At bus base control sector drive self.channel small told m'
      × Told sector self lba numsects is_write told

  module _ (lba numsects : ℕ) (positive : 0 < numsects) (few : numsects < 2 ^ 8) where
    in_mode :
        (mode : LbaMode) (is_write : Bool) (t : TaskFile) (m : Machine bus.Device)
        → mode ≡ lba_mode_of self.capabilities lba
        → lba < 2 ^ 32
        → mode ≢ chs
        → t.block ≡ 0
        → t.pending ≡ 0
        → At bus base control sector drive self.channel small t m
        → Gives
            (λ got m'. (got ≡ mode) × Programmed lba numsects is_write m')
            (prepare_in bus fuel mode self lba numsects false is_write m)
    in_mode mode is_write t m e short h nothing none_left at =
        Gives-map
          (prepare_in-Has bus base control sector drive self small fuel patient mode lba numsects
            false is_write t m h nothing none_left at)
          λ got m' (g, (t', there)).
            let told =
              programmed_lem sector self lba numsects t' positive few mode is_write e short h in
            (g, (_, there, told))

    by_mode :
        (mode : LbaMode) (is_write : Bool) (t : TaskFile) (m : Machine bus.Device)
        → mode ≡ lba_mode_of self.capabilities lba
        → lba < 2 ^ 32
        → mode ≢ chs
        → t.block ≡ 0
        → t.pending ≡ 0
        → At bus base control sector drive self.channel small t m
        → Gives
            (λ got m'. (got ≡ mode) × Programmed lba numsects is_write m')
            (prepare_by bus fuel mode self lba numsects false is_write m)
    by_mode chs is_write t m e short h nothing none_left at = absurd (h refl)
    by_mode lba48 is_write t m e short h nothing none_left at =
        in_mode lba48 is_write t m e short h nothing none_left at
    by_mode lba28 is_write t m e short h nothing none_left at =
        in_mode lba28 is_write t m e short h nothing none_left at

    pub io_prepare_lem :
        (is_write : Bool) (t : TaskFile) (m : Machine bus.Device)
        → IsAddressable self lba
        → t.block ≡ 0
        → t.pending ≡ 0
        → At bus base control sector drive self.channel small t m
        → Gives
            (λ mode m'.
              (mode ≡ lba_mode_of self.capabilities lba) × Programmed lba numsects is_write m')
            (io_prepare bus fuel self lba numsects false is_write m)
    unfolding io_prepare
    io_prepare_lem is_write t m addressable nothing none_left at =
        Gives-bind (set_no_interrupt bus fuel self.channel) _ m (set_no_interrupt-Has t m at)
          λ _ m1 at1.
            Gives-bind (ide_write bus self.channel control_and_alt_status 0x02) _ m1
              (ide_write-control bus base control sector drive self.channel small 0x02 t m1 refl
                at1)
              λ _ m2 at2.
                by_mode (lba_mode_of self.capabilities lba) is_write t m2 refl addressable.0
                  (IsAddressable-mode self lba addressable) nothing none_left at2
