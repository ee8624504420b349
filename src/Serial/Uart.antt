-- ===== src/Serial/Uart.antt =====
-- What shared_lib/src/serial.rs relies on of a 16550 UART: its registers, that it takes a byte when
-- its transmitter is empty, and that it is done with a byte after some looks at its status.
use ferr_os.Base.{
  ℕ, ◌+◌, ◌<◌, bit_and, ◌≡◌, Bool, true, List, [], ◌∷◌, ◌++◌, leb, ◌==◌, if◌then◌else◌,
}
use ferr_os.Serial.{Ports}

-- The registers that are written, and the bytes that the transmitter has taken.
pub record Registers : Type 0 where
  pub interrupts : ℕ
  pub fifo : ℕ
  pub line : ℕ
  pub modem : ℕ
  pub divisor_low : ℕ
  pub divisor_high : ℕ
  pub sent : List ℕ

-- Bit 7 of the line register gives the first two ports to the divisor.
unfoldable pub is_divisor_open : Registers → Bool
is_divisor_open r = leb 0x80 r.line

unfoldable pub put : ℕ → ℕ → Registers → Registers
unfolding is_divisor_open
put offset v r =
    if offset == 0
    then if is_divisor_open r
      then record r { divisor_low = v }
      else record r { sent = r.sent ++ v ∷ [] }
    else if offset == 1
    then if is_divisor_open r then record r { divisor_high = v } else record r { interrupts = v }
    else if offset == 2
    then record r { fifo = v }
    else if offset == 3
    then record r { line = v }
    else if offset == 4
    then record r { modem = v }
    else r

-- The transmitter takes a byte where it is empty; an empty transmitter is what a look at the status
-- shows, and it stays empty until a byte is written. All other writes are taken at any time.
pub record IsUart (ports : Ports) (base : ℕ) : Type 0 where
  pub view : ports.Device → Registers
  pub is_empty : ports.Device → Bool
  pub patience : ports.Device → ℕ
  pub write_register :
      (d : ports.Device) (offset v : ℕ)
      → offset < 8
      → (offset ≡ 0 → (view d).line < 0x80 → is_empty d ≡ true)
      → view (ports.outb d (base + offset) v) ≡ put offset v (view d)
  pub read_status : (d : ports.Device) → view (ports.inb d (base + 5)).1 ≡ view d
  pub empty_look :
      (d : ports.Device)
      → bit_and (ports.inb d (base + 5)).0 32 ≡ 32
      → is_empty (ports.inb d (base + 5)).1 ≡ true
  pub busy_looks :
      (d : ports.Device)
      → bit_and (ports.inb d (base + 5)).0 32 ≡ 0
      → patience (ports.inb d (base + 5)).1 < patience d
