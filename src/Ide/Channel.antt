-- ===== src/Ide/Channel.antt =====
-- src/ide.rs: the registers of a channel by their ports.
use ferr_os.Base.{
  ℕ, zero, suc, ◌+◌, ◌-◌, ◌^◌, bit_or, Bool, ◌&&◌, Option, none, some, List, ltb, if◌then◌else◌,
  length, set, u16, ok, panic,
}
use ferr_os.Base.Io.{◌>>=◌, ◌>>◌, pure, modify}
use ferr_os.Ide.{
  Bus, IdeChannelRegister, AtaChannel, primary, secondary, AtaRegister, register_number,
  control_and_alt_status, Machine, Run,
}

-- `CHANNELS[channel as usize]`
abbrev pub registers : {D : Type 0} → AtaChannel → Machine D → IdeChannelRegister
registers primary m = m.primary_registers
registers secondary m = m.secondary_registers

abbrev pub set_registers : {D : Type 0} → AtaChannel → IdeChannelRegister → Machine D → Machine D
set_registers primary r m = record m { primary_registers = r }
set_registers secondary r m = record m { secondary_registers = r }

-- `base + reg as u16 - less`, on 16 bits.
abbrev port_at : ℕ → ℕ → ℕ → ℕ
port_at base reg less = u16 (u16 (base + reg) + 2 ^ 16 - less)

-- The port of a register, by the chain of tests on its number.
abbrev pub port_of : IdeChannelRegister → ℕ → Option ℕ
port_of r reg =
    if ltb reg 0x08
    then some (port_at r.io_base reg 0x00)
    else if ltb reg 0x0c
    then some (port_at r.io_base reg 0x06)
    else if ltb reg 0x0e
    then some (port_at r.ctrl reg 0x0a)
    else if ltb reg 0x16
    then some (port_at r.bm_ide reg 0x0e)
    else none

-- The registers that share their ports with others.
abbrev pub is_high : AtaRegister → Bool
is_high reg = ltb 0x07 (register_number reg) && ltb (register_number reg) 0x0c

module _ (bus : Bus) where
  abbrev pub write_port : ℕ → ℕ → Run bus (Unit {0})
  write_port port value = modify λ m. record m { device = bus.write m.device port value }

  abbrev pub read_port : ℕ → Run bus ℕ
  read_port port m =
      let (value, device) = bus.read m.device port in ok (value, record m { device = device })

  abbrev pub read_port_u16 : ℕ → Run bus ℕ
  read_port_u16 port m =
      let (value, device) = bus.read_u16 m.device port in ok (value, record m { device = device })

  -- `ide_write` at a register that is not a high one, such as the control register.
  abbrev pub write_low : AtaChannel → AtaRegister → ℕ → Run bus (Unit {0})
  write_low channel reg value m = elim (port_of (registers channel m) (register_number reg)) [
    | none ↦ ok (tt, m)
    | some port ↦ write_port port value m
  ]

  -- `0x80 | no_interrupt`, and `no_interrupt`
  abbrev pub select_high : AtaChannel → Run bus (Unit {0})
  select_high channel m =
      write_low channel control_and_alt_status (bit_or 0x80 (registers channel m).no_interrupt) m

  abbrev pub select_low : AtaChannel → Run bus (Unit {0})
  select_low channel m =
      write_low channel control_and_alt_status (registers channel m).no_interrupt m

  abbrev pub with_high : {A : Type 0} → AtaChannel → AtaRegister → Run bus A → Run bus A
  with_high channel reg access =
      if is_high reg
      then (do select_high channel; a ← access; select_low channel; pure a)
      else access

  unfoldable pub ide_write : AtaChannel → AtaRegister → ℕ → Run bus (Unit {0})
  ide_write channel reg value = with_high channel reg (write_low channel reg value)

  -- The middle of `ide_read`.
  abbrev pub read_low : AtaChannel → AtaRegister → Run bus ℕ
  read_low channel reg m = elim (port_of (registers channel m) (register_number reg)) [
    | none ↦ ok (0, m)
    | some port ↦ read_port port m
  ]

  unfoldable pub ide_read : AtaChannel → AtaRegister → Run bus ℕ
  ide_read channel reg = with_high channel reg (read_low channel reg)

  -- The port of `ide_read_buffer`; its third and fourth test are the same.
  abbrev buffer_port : IdeChannelRegister → ℕ → Option ℕ
  buffer_port r reg =
      if ltb reg 0x08
      then some (port_at r.io_base reg 0x00)
      else if ltb reg 0x0c
      then some (port_at r.io_base reg 0x06)
      else if ltb reg 0x0e
      then some (port_at r.ctrl reg 0x0a)
      else if ltb reg 0x0e
      then some (port_at r.bm_ide reg 0x0e)
      else none

  -- The loop, with `words` left and the word `i` next.
  unfoldable pub read_words : Option ℕ → ℕ → ℕ → List ℕ → Run bus (List ℕ)
  read_words port zero i buffer = pure buffer
  read_words none (suc words) i buffer = λ m. panic
  read_words (some port) (suc words) i buffer = do
    word ← read_port_u16 port
    if ltb i (length buffer) then read_words (some port) words (i + 1) (set buffer i word) else λ m.
        panic

  unfoldable pub ide_read_buffer : AtaChannel → AtaRegister → ℕ → List ℕ → Run bus (List ℕ)
  unfolding read_words
  ide_read_buffer channel reg words buffer =
      with_high channel reg
        λ m. read_words (buffer_port (registers channel m) (register_number reg)) words 0 buffer m
