-- ===== src/Ide/Prepare.antt =====
-- src/ide.rs: the registers that io_prepare sets, as what they tell the drive.
use ferr_os.Base.{true}
use ferr_os.Base.{
  ℕ, zero, suc, ◌+◌, ◌/◌, ◌%◌, ◌^◌, ◌<◌, bit_and, bit_or, ◌≡◌, refl, sym, ap, ◌∙◌, ◌≢◌, inl, inr,
  Bool, false, List, arith, ◌==◌, if◌then◌else◌, ==_iff, Bool-cases, get_or,
}
use ferr_os.Base.Io.{pure}
use ferr_os.Base.Bits.{and_field}
use ferr_os.Base.Io.{Gives, gives, Gives-bind}
use ferr_os.Ide.{
  Bus, IdeDevice, AtaRegister, sec_count0, lba0, lba1, lba2, hdd_ev_sel, command_and_status,
  sec_count1, lba3, lba4, lba5, register_number, command_number, busy, Machine,
}
use ferr_os.Ide.Channel.{ide_write, ide_read}
use mathlib.Core.Path.{subst}
use ferr_os.Ide.Drive.{
  TaskFile, IsIdle, latch, start, looked, looked-IsIdle, looked-busy, IsDrive, IsPatient,
}
use ferr_os.Ide.Transfer.{
  LbaMode, lba48, lba28, chs, lba_byte, lba_io, head_of, slavebit, command_of, wait_while_busy,
  select_drive, prepare_in,
}
use ferr_os.Ide.Access.{
  At, ide_write-plain, ide_write-command, ide_write-high, Looked, ide_read-status,
}

pub bytes_lem :
    (lba : ℕ)
    → (lba_byte 0 lba ≡ lba % 2 ^ 8)
      × (lba_byte 8 lba ≡ lba / 2 ^ 8 % 2 ^ 8)
      × (lba_byte 16 lba ≡ lba / 2 ^ 16 % 2 ^ 8)
      × (lba_byte 24 lba ≡ lba / 2 ^ 24 % 2 ^ 8)
bytes_lem lba = (
  omega (arith, and_field 8 0 lba),
  omega (arith, and_field 8 8 lba),
  omega (arith, and_field 8 16 lba),
  omega (arith, and_field 8 24 lba),
)

pub head_lem : (lba : ℕ) → head_of lba28 lba ≡ lba / 2 ^ 24 % 2 ^ 4
head_lem lba = omega (arith, and_field 4 24 lba)

-- The task file before the command.
abbrev pub addressed : LbaMode → IdeDevice → ℕ → ℕ → TaskFile → TaskFile
addressed mode self lba numsects t = latch 5 (get_or (lba_io mode lba) 2 0) (
    latch 4 (get_or (lba_io mode lba) 1 0)
      (latch 3 (get_or (lba_io mode lba) 0 0) (latch 2 numsects t)))

abbrev pub selected : LbaMode → IdeDevice → ℕ → TaskFile → TaskFile
selected lba48 self lba t = latch 5 (get_or (lba_io lba48 lba) 5 0) (
    latch 4 (get_or (lba_io lba48 lba) 4 0) (
      latch 3 (get_or (lba_io lba48 lba) 3 0)
        (latch 2 0 (latch 6 (bit_or (bit_or 0xe0 (slavebit self.drive)) (head_of lba48 lba)) t))))
selected mode self lba t = latch 6 (bit_or (bit_or 0xe0 (slavebit self.drive)) (head_of mode lba)) t

module _ (bus : Bus) (base control : ℕ) (sector : ℕ → ℕ → List ℕ)
    (drive : IsDrive bus base control sector) (self : IdeDevice)
    (small : (base + 8 < 2 ^ 16) × (control + 4 < 2 ^ 16)) (fuel : ℕ)
    (patient : IsPatient drive fuel) where
  abbrev pub Has : TaskFile → Machine bus.Device → Type 0
  Has = At bus base control sector drive self.channel small

  idle_status :
      (t : TaskFile) (m m1 : Machine bus.Device) (status : ℕ)
      → Looked bus base control sector drive self.channel small t m status m1
      → (bit_and status busy == 0) ≡ true
      → bit_and (bus.read m.device (base + 7)).0 0x80 ≡ 0
  idle_status t m m1 status (_, value, device) done =
      ap (λ x. bit_and x 0x80) (sym value) ∙ (==_iff (bit_and status busy) 0).0 done

  busy_status :
      (t : TaskFile) (m m1 : Machine bus.Device) (status : ℕ)
      → Looked bus base control sector drive self.channel small t m status m1
      → (bit_and status busy == 0) ≡ false
      → (bit_and (bus.read m.device (base + 7)).0 0x80 == 0) ≡ false
  busy_status t m m1 status (_, value, device) more =
      ap (λ x. bit_and x 0x80 == 0) (sym value) ∙ more

  closer :
      (rounds : ℕ) (t : TaskFile) (m m1 : Machine bus.Device) (status : ℕ)
      → drive.patience m.device < suc rounds
      → Looked bus base control sector drive self.channel small t m status m1
      → (bit_and status busy == 0) ≡ false
      → drive.patience m1.device < rounds
  closer rounds t m m1 status short (_, value, device) more =
      let still : bit_and (bus.read m.device (base + 7)).0 0x80 ≢ 0 = λ none_.
        absurd (
          cc ((==_iff (bit_and status busy) 0).1 (ap (λ x. bit_and x busy) value ∙ none_), more)) in
      omega (arith, drive.busy_looks m.device still, ap drive.patience device)

  -- The last look at a drive that had this task file showed that it is not busy.
  abbrev pub Seen : TaskFile → Machine bus.Device → Type 0
  Seen t m' =
      (d : bus.Device) × (bit_and (bus.read d (base + 7)).0 0x80 ≡ 0)
      × Has (looked (bus.read d (base + 7)).0 t) m'

  pub wait-Has :
      (rounds : ℕ) (t : TaskFile) (m : Machine bus.Device)
      → drive.patience m.device < rounds
      → Has t m
      → Gives (λ _. Seen t) (wait_while_busy bus fuel rounds self.channel m)
  unfolding wait_while_busy
  wait-Has zero t m short at = elim short [ ]
  wait-Has (suc rounds) t m short at =
      Gives-bind (ide_read bus self.channel command_and_status)
        (λ status.
          if bit_and status busy == 0
          then pure tt
          else wait_while_busy bus fuel rounds self.channel)
        m (ide_read-status bus base control sector drive self.channel small t m at)
        λ status m1 seen. elim (Bool-cases (bit_and status busy == 0)) [
          | inl done ↦ rw done (gives (m.device, idle_status t m m1 status seen done, seen.0))
          | inr more ↦ rw more (
              wait-Has rounds t m1 (closer rounds t m m1 status short seen more) (
                subst (λ x. Has x m1) (looked-busy _ t (busy_status t m m1 status seen more))
                  seen.0))
        ]

  plain :
      (reg : AtaRegister) (v : ℕ) (t : TaskFile) (m : Machine bus.Device)
      → register_number reg < 7
      → IsIdle t
      → Has t m
      → Gives (λ _. Has (latch (register_number reg) v t)) (ide_write bus self.channel reg v m)
  plain reg v t m h idle at =
      ide_write-plain bus base control sector drive self.channel small reg v t m h idle at

  high :
      (reg : AtaRegister) (n v : ℕ) (t : TaskFile) (m : Machine bus.Device)
      → register_number reg ≡ 8 + n
      → n < 4
      → IsIdle t
      → Has t m
      → Gives (λ _. Has (latch (2 + n) v t)) (ide_write bus self.channel reg v m)
  high reg n v t m e h idle at =
      ide_write-high bus base control sector drive self.channel small reg n v t m e h idle at

  select_drive-Has :
      (mode : LbaMode) (lba : ℕ) (t : TaskFile) (m : Machine bus.Device)
      → mode ≢ chs
      → IsIdle t
      → Has t m
      → Gives (λ _. Has (selected mode self lba t)) (select_drive bus fuel self mode lba m)
  select_drive-Has chs lba t m h idle at = absurd (h refl)
  select_drive-Has lba28 lba t m h idle at = plain hdd_ev_sel _ t m (omega arith) idle at
  select_drive-Has lba48 lba t m h idle at =
      Gives-bind (ide_write bus self.channel hdd_ev_sel _) _ m
        (plain hdd_ev_sel _ t m (omega arith) idle at)
        λ _ m1 at1.
          Gives-bind (ide_write bus self.channel sec_count1 0) _ m1
            (high sec_count1 0 _ _ m1 refl (omega arith) idle at1)
            λ _ m2 at2.
              Gives-bind (ide_write bus self.channel lba3 _) _ m2
                (high lba3 1 _ _ m2 refl (omega arith) idle at2)
                λ _ m3 at3.
                  Gives-bind (ide_write bus self.channel lba4 _) _ m3
                    (high lba4 2 _ _ m3 refl (omega arith) idle at3)
                    λ _ m4 at4. high lba5 3 _ _ m4 refl (omega arith) idle at4

  IsIdle-selected :
      (mode : LbaMode) (lba : ℕ) (t : TaskFile) → IsIdle t → IsIdle (selected mode self lba t)
  IsIdle-selected lba48 lba t idle = idle
  IsIdle-selected lba28 lba t idle = idle
  IsIdle-selected chs lba t idle = idle

  pub prepare_in-Has :
      (mode : LbaMode) (lba numsects : ℕ) (dma is_write : Bool) (t : TaskFile)
      (m : Machine bus.Device)
      → mode ≢ chs
      → t.block ≡ 0
      → t.pending ≡ 0
      → Has t m
      → Gives
          (λ got m'.
            (got ≡ mode)
            × ((t' : TaskFile) × Has
                  (start sector
                    (command_number (command_of mode dma is_write))
                    (addressed mode self lba numsects (selected mode self lba t')))
                  m'))
          (prepare_in bus fuel mode self lba numsects dma is_write m)
  prepare_in-Has mode lba numsects dma is_write t m h nothing none_left at =
      Gives-bind (wait_while_busy bus fuel fuel self.channel) _ m
        (wait-Has fuel t m (patient m.device) at)
        λ _ m1 (d, calm, at1).
          let idle = looked-IsIdle (bus.read d (base + 7)).0 t nothing none_left calm in
          Gives-bind (select_drive bus fuel self mode lba) _ m1
            (select_drive-Has mode lba _ m1 h idle at1)
            λ _ m2 at2.
              Gives-bind (ide_write bus self.channel sec_count0 numsects) _ m2
                (plain sec_count0 _ _ m2 (omega arith) (IsIdle-selected mode lba _ idle) at2)
                λ _ m3 at3.
                  Gives-bind (ide_write bus self.channel lba0 _) _ m3
                    (plain lba0 _ _ m3 (omega arith) (IsIdle-selected mode lba _ idle) at3)
                    λ _ m4 at4.
                      Gives-bind (ide_write bus self.channel lba1 _) _ m4
                        (plain lba1 _ _ m4 (omega arith) (IsIdle-selected mode lba _ idle) at4)
                        λ _ m5 at5.
                          Gives-bind (ide_write bus self.channel lba2 _) _ m5
                            (plain lba2 _ _ m5 (omega arith) (IsIdle-selected mode lba _ idle) at5)
                            λ _ m6 at6.
                              Gives-bind (ide_write bus self.channel command_and_status _) _ m6
                                (ide_write-command bus base control sector drive self.channel small
                                  _ _ m6 (IsIdle-selected mode lba _ idle) at6)
                                λ _ m7 at7. gives (refl, (_, at7))
