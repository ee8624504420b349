-- ===== src/Ide/Access.antt =====
-- src/ide.rs: the accesses of registers, as what they do to a drive.
use ferr_os.Base.{
  ℕ, ◌+◌, ◌^◌, ◌<◌, bit_and, bit_or, ◌≡◌, refl, sym, ap, ◌⊎◌, ◌∙◌, true, false, ◌&&◌, some, List,
  arith, ltb,
}
use ferr_os.Base.Bits.{and_field, or_fields}
use ferr_os.Base.Io.{Gives, gives, Gives-bind}
use ferr_os.Ide.{
  Bus, IdeChannelRegister, AtaChannel, primary, secondary, AtaRegister, error_and_features,
  command_and_status, control_and_alt_status, register_number, Machine,
}
use ferr_os.Ide.Channel.{
  registers, port_of, is_high, write_port, read_port, write_low, select_high, select_low, ide_write,
  read_low, ide_read,
}
use mathlib.Core.Path.{subst}
use ferr_os.Ide.Drive.{TaskFile, IsIdle, latch, busy_with, looked, start, IsDrive}

registers-device :
    {D : Type 0} (channel : AtaChannel) (m : Machine D) (d : D)
    → registers channel (record m { device = d }) ≡ registers channel m
registers-device primary m d = refl
registers-device secondary m d = refl

module _ (r : IdeChannelRegister) (base control : ℕ) (h : r.io_base ≡ base) (k : r.ctrl ≡ control)
    (small : (base + 8 < 2 ^ 16) × (control + 4 < 2 ^ 16)) where
  port_of-plain : (n : ℕ) → n < 8 → port_of r n ≡ some (base + n)
  port_of-plain n below = ground arith

  port_of-high : (n : ℕ) → n < 4 → port_of r (8 + n) ≡ some (base + (2 + n))
  port_of-high n below = ground arith

  port_of-control : port_of r 12 ≡ some (control + 2)
  port_of-control = ground arith

low_register : (n : ℕ) → n < 7 → (ltb 0x07 n && ltb n 0x0c) ≡ false
low_register n h = ground arith

high_register :
    (reg : AtaRegister) (n : ℕ) → register_number reg ≡ 8 + n → n < 4 → is_high reg ≡ true
high_register reg n e h = rw e (ground arith)

no_reset_low : (n : ℕ) → n < 4 → bit_and n 0x04 ≡ 0
no_reset_low n h = omega (arith, and_field 1 2 n)

no_reset_high : (n : ℕ) → n < 4 → bit_and (bit_or 0x80 n) 0x04 ≡ 0
no_reset_high n h = omega (arith, and_field 1 2 (bit_or 0x80 n), or_fields 7 1 n (omega (arith, h)))

module _ (bus : Bus) (base control : ℕ) (sector : ℕ → ℕ → List ℕ)
    (drive : IsDrive bus base control sector) (channel : AtaChannel)
    (small : (base + 8 < 2 ^ 16) × (control + 4 < 2 ^ 16)) where
  -- The channel's registers have these ports, what it writes to the control register does not reset
  -- the drives, and the drive has this task file.
  abbrev pub At : TaskFile → Machine bus.Device → Type 0
  At t m =
      ((registers channel m).io_base ≡ base)
      × (((registers channel m).ctrl ≡ control) × ((registers channel m).no_interrupt < 4))
      × (drive.view m.device ≡ t)

  pub At-device :
      (t t' : TaskFile) (m : Machine bus.Device) (d : bus.Device)
      → At t m
      → drive.view d ≡ t'
      → At t' (record m { device = d })
  At-device t t' m d (b, c, _) e =
      (rw (registers-device channel m d) b, rw (registers-device channel m d) c, e)

  write_low-port :
      (reg : AtaRegister) (v port : ℕ) (m : Machine bus.Device)
      → port_of (registers channel m) (register_number reg) ≡ some port
      → write_low bus channel reg v m ≡ write_port bus port v m
  write_low-port reg v port m e = rw (e, write_low)

  read_low-port :
      (reg : AtaRegister) (port : ℕ) (m : Machine bus.Device)
      → port_of (registers channel m) (register_number reg) ≡ some port
      → read_low bus channel reg m ≡ read_port bus port m
  read_low-port reg port m e = rw (e, read_low)

  write_low-plain :
      (reg : AtaRegister) (v : ℕ) (t : TaskFile) (m : Machine bus.Device)
      → register_number reg < 7
      → IsIdle t
      → At t m
      → Gives (λ _. At (latch (register_number reg) v t)) (write_low bus channel reg v m)
  write_low-plain reg v t m plain idle (b, c, e) =
      rw
        (write_low-port reg v (base + register_number reg) m (
          port_of-plain (registers channel m) base control b c.0 small (register_number reg)
            (omega arith)))
        (gives (
          At-device t _ m _ (b, c, e)
            (drive.write_register m.device (register_number reg) v plain (subst IsIdle (sym e) idle)
              ∙ ap (latch (register_number reg) v) e)))

  write_low-control :
      (v : ℕ) (t : TaskFile) (m : Machine bus.Device)
      → bit_and v 0x04 ≡ 0
      → At t m
      → Gives (λ _. At t) (write_low bus channel control_and_alt_status v m)
  write_low-control v t m no_reset (b, c, e) =
      rw
        (write_low-port control_and_alt_status v (control + 2) m
          (port_of-control (registers channel m) base control b c.0 small))
        (gives (At-device t _ m _ (b, c, e) (drive.write_control m.device v no_reset ∙ e)))

  write_low-high :
      (reg : AtaRegister) (n v : ℕ) (t : TaskFile) (m : Machine bus.Device)
      → register_number reg ≡ 8 + n
      → n < 4
      → IsIdle t
      → At t m
      → Gives (λ _. At (latch (2 + n) v t)) (write_low bus channel reg v m)
  write_low-high reg n v t m number below idle (b, c, e) =
      rw
        (write_low-port reg v (base + (2 + n)) m
          (rw number (port_of-high (registers channel m) base control b c.0 small n below)))
        (gives (
          At-device t _ m _ (b, c, e)
            (drive.write_register m.device (2 + n) v (omega arith) (subst IsIdle (sym e) idle)
              ∙ ap (latch (2 + n) v) e)))

  pub ide_write-plain :
      (reg : AtaRegister) (v : ℕ) (t : TaskFile) (m : Machine bus.Device)
      → register_number reg < 7
      → IsIdle t
      → At t m
      → Gives (λ _. At (latch (register_number reg) v t)) (ide_write bus channel reg v m)
  unfolding ide_write
  ide_write-plain reg v t m plain idle at =
      rw (low_register (register_number reg) plain) (write_low-plain reg v t m plain idle at)

  pub ide_write-control :
      (v : ℕ) (t : TaskFile) (m : Machine bus.Device)
      → bit_and v 0x04 ≡ 0
      → At t m
      → Gives (λ _. At t) (ide_write bus channel control_and_alt_status v m)
  unfolding ide_write
  ide_write-control v t m no_reset at = write_low-control v t m no_reset at

  pub ide_write-command :
      (c : ℕ) (t : TaskFile) (m : Machine bus.Device)
      → IsIdle t
      → At t m
      → Gives (λ _. At (start sector c t)) (ide_write bus channel command_and_status c m)
  unfolding ide_write
  ide_write-command c t m idle (b, c', e) =
      rw
        (write_low-port command_and_status c (base + 7) m
          (port_of-plain (registers channel m) base control b c'.0 small 7 (omega arith)))
        (gives (
          At-device t _ m _ (b, c', e)
            (drive.write_command m.device c (subst IsIdle (sym e) idle) ∙ ap (start sector c) e)))

  -- A flush of the cache, at any time.
  pub ide_write-flush :
      (c : ℕ) (t : TaskFile) (m : Machine bus.Device)
      → (c ≡ 0xe7) ⊎ (c ≡ 0xea)
      → At t m
      → Gives (λ _. At (busy_with 0 t)) (ide_write bus channel command_and_status c m)
  unfolding ide_write
  ide_write-flush c t m flush (b, c', e) =
      rw
        (write_low-port command_and_status c (base + 7) m
          (port_of-plain (registers channel m) base control b c'.0 small 7 (omega arith)))
        (gives
          (At-device t _ m _ (b, c', e) (drive.write_flush m.device c flush ∙ ap (busy_with 0) e)))

  -- A high register, between the two writes to the control register.
  pub ide_write-high :
      (reg : AtaRegister) (n v : ℕ) (t : TaskFile) (m : Machine bus.Device)
      → register_number reg ≡ 8 + n
      → n < 4
      → IsIdle t
      → At t m
      → Gives (λ _. At (latch (2 + n) v t)) (ide_write bus channel reg v m)
  unfolding ide_write
  ide_write-high reg n v t m number below idle at = rw (high_register reg n number below) (
      Gives-bind (select_high bus channel) _ m (write_low-control _ t m (no_reset_high _ at.1.1) at)
        λ _ m1 at1.
          Gives-bind (write_low bus channel reg v) _ m1
            (write_low-high reg n v t m1 number below idle at1)
            λ _ m2 at2.
              Gives-bind (select_low bus channel) _ m2
                (write_low-control _ _ m2 (no_reset_low _ at2.1.1) at2) λ _ m3 at3. gives at3)

  pub ide_read-alternate :
      (t : TaskFile) (m : Machine bus.Device)
      → At t m
      → Gives (λ _. At t) (ide_read bus channel control_and_alt_status m)
  unfolding ide_read
  ide_read-alternate t m (b, c, e) =
      rw
        (read_low-port control_and_alt_status (control + 2) m
          (port_of-control (registers channel m) base control b c.0 small))
        (gives (At-device t _ m _ (b, c, e) (drive.read_alternate m.device ∙ e)))

  -- A look at the status.
  abbrev pub Looked : TaskFile → Machine bus.Device → ℕ → Machine bus.Device → Type 0
  Looked t m value m' =
      At (looked (bus.read m.device (base + 7)).0 t) m'
      × (value ≡ (bus.read m.device (base + 7)).0)
      × (m'.device ≡ (bus.read m.device (base + 7)).1)

  pub ide_read-status :
      (t : TaskFile) (m : Machine bus.Device)
      → At t m
      → Gives (Looked t m) (ide_read bus channel command_and_status m)
  unfolding ide_read
  ide_read-status t m (b, c, e) =
      rw
        (read_low-port command_and_status (base + 7) m
          (port_of-plain (registers channel m) base control b c.0 small 7 (omega arith)))
        (gives (
          At-device t _ m _ (b, c, e)
              (drive.read_status m.device ∙ ap (looked (bus.read m.device (base + 7)).0) e),
          refl,
          refl,
        ))

  pub ide_read-errors :
      (t : TaskFile) (m : Machine bus.Device)
      → At t m
      → Gives
          (λ value m'. At t m' × (value ≡ (bus.read m.device (base + 1)).0))
          (ide_read bus channel error_and_features m)
  unfolding ide_read
  ide_read-errors t m (b, c, e) =
      rw
        (read_low-port error_and_features (base + 1) m
          (port_of-plain (registers channel m) base control b c.0 small 1 (omega arith)))
        (gives
          (At-device t _ m _ (b, c, e) (drive.read_register m.device 1 (omega arith) ∙ e), refl))
