-- ===== src/Chrono/Tests.antt =====
-- A time, read and converted.
use ferr_os.Base.{◌≡◌, refl, some, [], ◌∷◌, arith, ok}
use ferr_os.Chrono.{Registers, settle, convert_bcd, convert_12_hour, read_rtc}
use ferr_os.Chrono.Decimal.{bcd_registers, convert_bcd_lem, convert_12_hour-never}

abbrev evening : Registers
evening = record {
  second = 59;
  minute = 30;
  hour = 21;
  day = 24;
  month = 12;
  year = 23;
  century = 20;
}

-- The first read is torn.
evening_read :
    read_rtc
      (λ y mo d h mi s. some (y ∷ mo ∷ d ∷ h ∷ mi ∷ s ∷ []))
      (record (bcd_registers evening) { second = 0x58 })
      (bcd_registers evening ∷ bcd_registers evening ∷ [])
      0x02
    ≡ ok (2023 ∷ 12 ∷ 24 ∷ 21 ∷ 30 ∷ 59 ∷ [])
unfolding read_rtc settle convert_bcd convert_12_hour
evening_read = refl

convert_bcd_example : convert_12_hour 0x02 (convert_bcd 0x02 (bcd_registers evening)) ≡ evening
convert_bcd_example =
    convert_bcd_lem 0x02 evening refl (omega arith) (omega arith) (omega arith) (omega arith)
      (omega arith) (omega arith) (omega arith)

-- Nine in the evening on the 12-hour clock.
convert_12_hour-never_test :
    convert_12_hour 0x04 (record evening { hour = 0x89 }) ≡ record evening { hour = 0x89 }
convert_12_hour-never_test = convert_12_hour-never 0x04 (record evening { hour = 0x89 })
