-- ===== src/Chrono/Decimal.antt =====
-- The conversions of the clock's registers.
use ferr_os.Base.{
  ℕ, ◌+◌, ◌*◌, ◌/◌, ◌%◌, ◌<◌, bit_and, bit_or, ◌≡◌, refl, ◌∙◌, true, false, arith, ◌==◌, ==_iff,
  ne→not_==, all_below, all_below_sound, u8,
}
use ferr_os.Base.Bits.{and_low, and_field}
use ferr_os.Chrono.{Registers, from_bcd, convert_bcd, convert_12_hour}

-- Two decimal digits, each in four bits.
abbrev pub bcd : ℕ → ℕ
bcd n = n / 10 * 16 + n % 10

abbrev pub bcd_registers : Registers → Registers
bcd_registers r = record {
  second = bcd r.second;
  minute = bcd r.minute;
  hour = bcd r.hour;
  day = bcd r.day;
  month = bcd r.month;
  year = bcd r.year;
  century = bcd r.century;
}

from_bcd-bcd : (n : ℕ) → n < 100 → from_bcd (bcd n) ≡ n
from_bcd-bcd n h = omega (arith, and_low 4 (bcd n))

hour_digits :
    (n : ℕ)
    → n < 80
    → (bit_or (u8 (bit_and (bcd n) 0x0f + bit_and (bcd n) 0x70 / 16 * 10)) (bit_and (bcd n) 0x80)
        == n)
      ≡ true
unfolding all_below
hour_digits n h =
    all_below_sound 80
      (λ n.
        bit_or (u8 (bit_and (bcd n) 0x0f + bit_and (bcd n) 0x70 / 16 * 10)) (bit_and (bcd n) 0x80)
        == n)
      n refl h

-- The conversion of the 12-hour clock never happens: no register's bit 7, taken alone, is 1.
pub convert_12_hour-never : (register_b : ℕ) (r : Registers) → convert_12_hour register_b r ≡ r
unfolding convert_12_hour
convert_12_hour-never register_b r =
    let n : (bit_and r.hour 0x80 == 1) ≡ false =
      ne→not_== _ _ (λ e. absurd (omega (arith, e, and_field 1 7 r.hour))) in
    ground (arith, n)

decoded :
    (r : Registers)
    → r.second < 60
    → r.minute < 60
    → r.hour < 24
    → r.day < 32
    → r.month < 13
    → r.year < 100
    → r.century < 100
    → (register_b : ℕ) → bit_and register_b 0x04 ≡ 0
    → convert_bcd register_b (bcd_registers r) ≡ r
unfolding convert_bcd
decoded r hs hm hh hd hmo hy hc register_b mode =
    let h = (==_iff _ _).0 (hour_digits r.hour (omega arith)) in
    rw
      (
        mode,
        from_bcd-bcd r.second (omega arith),
        from_bcd-bcd r.minute (omega arith),
        h,
        from_bcd-bcd r.day (omega arith),
        from_bcd-bcd r.month (omega arith),
        from_bcd-bcd r.year hy,
        from_bcd-bcd r.century hc,
      )
      refl

-- In the decimal mode, registers that hold a time of the 24-hour clock in decimal digits are
-- converted to that time.
pub convert_bcd_lem :
    (register_b : ℕ) (r : Registers)
    → bit_and register_b 0x04 ≡ 0
    → r.second < 60
    → r.minute < 60
    → r.hour < 24
    → r.day < 32
    → r.month < 13
    → r.year < 100
    → r.century < 100
    → convert_12_hour register_b (convert_bcd register_b (bcd_registers r)) ≡ r
convert_bcd_lem register_b r mode hs hm hh hd hmo hy hc =
    convert_12_hour-never register_b (convert_bcd register_b (bcd_registers r))
    ∙ decoded r hs hm hh hd hmo hy hc register_b mode
