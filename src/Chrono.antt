-- ===== src/Chrono.antt =====
-- src/chrono.rs: reading the real-time clock. What a read of the registers gives is an argument;
-- the calendar of the `chrono` crate is a parameter.
pub mod Decimal
mod Tests
use ferr_os.Base.{
  ℕ, ◌+◌, ◌*◌, ◌/◌, ◌%◌, bit_and, bit_or, Bool, false, ◌&&◌, Option, List, [], ◌∷◌, ◌==◌,
  if◌then◌else◌, u8, Outcome, ok, hang, ◌>>=◌, expect_some,
}

pub record Registers : Type 0 where
  pub second : ℕ
  pub minute : ℕ
  pub hour : ℕ
  pub day : ℕ
  pub month : ℕ
  pub year : ℕ
  pub century : ℕ

abbrev pub same_registers : Registers → Registers → Bool
same_registers a b =
    if a.second == b.second
    then if a.minute == b.minute
      then if a.hour == b.hour
        then if a.day == b.day
          then if a.month == b.month
            then if a.year == b.year then a.century == b.century else false
            else false
          else false
        else false
      else false
    else false

-- The loop: the registers that were read last, and the reads to come. Reads that never agree
-- are a loop without end.
unfoldable pub settle : Registers → List Registers → Outcome Registers
settle last [] = hang
settle last (next ∷ reads) =
    let rest = settle next reads in if same_registers next last then ok next else rest

-- The sum wraps at a byte.
abbrev pub from_bcd : ℕ → ℕ
from_bcd v = u8 (bit_and v 0x0f + v / 16 * 10)

unfoldable pub convert_bcd : ℕ → Registers → Registers
convert_bcd register_b r =
    if bit_and register_b 0x04 == 0
    then record {
      second = from_bcd r.second;
      minute = from_bcd r.minute;
      hour =
          bit_or (u8 (bit_and r.hour 0x0f + bit_and r.hour 0x70 / 16 * 10)) (bit_and r.hour 0x80);
      day = from_bcd r.day;
      month = from_bcd r.month;
      year = from_bcd r.year;
      century = from_bcd r.century;
    }
    else r

unfoldable pub convert_12_hour : ℕ → Registers → Registers
convert_12_hour register_b r =
    if (bit_and register_b 0x02 == 0) && (bit_and r.hour 0x80 == 1)
    then record r { hour = (bit_and r.hour 0x7f + 12) % 24 }
    else r

-- `calendar` is `with_ymd_and_hms`, of the year, the month, the day and the time.
unfoldable pub read_rtc :
    {D : Type 0} → (ℕ → ℕ → ℕ → ℕ → ℕ → ℕ → Option D) → Registers → List Registers → ℕ → Outcome D
read_rtc calendar first reads register_b = do
  settled ← settle first reads
  let r = convert_12_hour register_b (convert_bcd register_b settled)
  expect_some (calendar (r.century * 100 + r.year) r.month r.day r.hour r.minute r.second)
