-- ===== src/Serial.antt =====
-- shared_lib/src/serial.rs: the serial port. The device behind the ports is a parameter; the waits
-- for it run on fuel. The lock and `_print` around the port are not modelled.

pub mod Uart
pub mod Sending
mod Tests
use ferr_os.Base.{
  ℕ, zero, suc, ◌+◌, bit_and, bit_or, ◌||◌, List, [], ◌∷◌, ◌==◌, if◌then◌else◌, u16, ◌<<◌, ok, hang,
}
use ferr_os.Base.Io.{Io, ◌>>=◌, ◌>>◌, pure, modify}

-- `outb` and `inb`
pub record Ports : Type 1 where
  pub Device : Type 0
  pub outb : Device → ℕ → ℕ → Device
  pub inb : Device → ℕ → ℕ × Device

-- `LineStsFlags`, of which `from_bits_truncate` keeps no other bits.
abbrev pub input_full : ℕ
input_full = 1

abbrev pub output_empty : ℕ
output_empty = 1 << 5

abbrev pub all_line_flags : ℕ
all_line_flags = bit_or input_full output_empty

module _ (ports : Ports) (base : ℕ) where
  abbrev pub Port : Type 0 → Type 0
  Port = Io (ports.Device)

  abbrev pub outb : ℕ → ℕ → Port (Unit {0})
  outb offset value = modify λ d. ports.outb d (u16 (base + offset)) value

  unfoldable pub init : Port (Unit {0})
  init = do
    outb 1 0x00
    outb 3 0x80
    outb 0 0x03
    outb 1 0x00
    outb 3 0x03
    outb 2 0xc7
    outb 4 0x0b
    outb 1 0x01

  abbrev pub line_sts : Port ℕ
  line_sts d =
      let (status, d') = ports.inb d (u16 (base + 5)) in ok (bit_and status all_line_flags, d')

  -- `wait_for!(self.line_sts().contains(LineStsFlags::OUTPUT_EMPTY))`
  unfoldable pub wait_output_empty : ℕ → Port (Unit {0})
  wait_output_empty zero d = hang
  wait_output_empty (suc rounds) d =
      let again = wait_output_empty rounds in
      (do flags ← line_sts; if bit_and flags output_empty == output_empty then pure tt else again) d

  abbrev pub send_raw : ℕ → ℕ → Port (Unit {0})
  send_raw fuel data_ = do wait_output_empty fuel; outb 0 data_

  -- A backspace and a delete clear the character before them.
  unfoldable pub send : ℕ → ℕ → Port (Unit {0})
  unfolding wait_output_empty
  send fuel byte =
      if (byte == 8) || (byte == 0x7f)
      then (do send_raw fuel 8; send_raw fuel 32; send_raw fuel 8)
      else send_raw fuel byte

  unfoldable pub write_str : ℕ → List ℕ → Port (Unit {0})
  unfolding send
  write_str fuel [] = pure tt
  write_str fuel (byte ∷ bytes) = do send fuel byte; write_str fuel bytes
