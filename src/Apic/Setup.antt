-- ===== src/Apic/Setup.antt =====
-- src/apic.rs: initialize_apic. The real-time clock's reads are a parameter, as is the equality of
-- the times that it gives.
use ferr_os.Base.{
  ℕ, zero, suc, ◌+◌, ◌-◌, ◌/◌, bit_or, Bool, true, false, not, Option, none, some, ◌==◌,
  if◌then◌else◌, u32, hang,
}
use ferr_os.Base.Io.{◌>>=◌, ◌>>◌, pure, modify}
use ferr_os.Bits.{set_bit, set_bits}
use ferr_os.Apic.{
  apicid, spurious, lvt_tmr, tmr_init_count, tmr_curr_count, tmr_div, disable, sw_enable,
  tmr_periodic, Hardware, Run, read_u32_ptr, write_u32_ptr, initialize, read_io_apic, write_io_apic,
}
use ferr_os.Interrupts.{timer_index, keyboard_index}
use ferr_os.Task.Timer.{timer_frequency}

-- The low half of the keyboard's redirection entry.
unfoldable pub redirection : ℕ → ℕ
unfolding set_bits
redirection low =
    let vector = set_bits (set_bits low keyboard_index 0) 0 8 in
    set_bit (set_bit (set_bit (set_bit vector 11 false) 13 false) 15 false) 16 false

-- What the loop over the seconds has measured.
pub record Measures : Type 0 where
  pub full_second_passing : Bool
  pub first : ℕ
  pub second : ℕ
  pub third : ℕ

abbrev pub no_measures : Measures
no_measures = record { full_second_passing = false; first = 0; second = 0; third = 0 }

-- A new second: its ticks go to the first measure that is 0, and none is the end of the loop.
unfoldable pub measure : ℕ → Measures → Option Measures
measure ticks ms =
    if not ms.full_second_passing
    then some (record ms { full_second_passing = true })
    else if ms.first == 0
    then some (record ms { first = ticks })
    else if ms.second == 0
    then some (record ms { second = ticks })
    else if ms.third == 0
    then some (record ms { third = ticks })
    else none

abbrev pub average : Measures → ℕ
average ms = (ms.first + ms.second + ms.third) / 3

module _ (hw : Hardware) {Time : Type 0} (same_time : Time → Time → Bool) (read_rtc : Run hw Time)
    (fuel : ℕ) (base : ℕ) where
  -- One-shot mode from the largest count.
  abbrev pub restart_timer : Run hw (Unit {0})
  restart_timer = do
    write_u32_ptr hw base lvt_tmr timer_index
    write_u32_ptr hw base tmr_init_count 0xffff_ffff

  -- A second is over: the ticks since the last one.
  abbrev pub ticks_in_1s : Run hw ℕ
  ticks_in_1s = do
    write_u32_ptr hw base lvt_tmr disable
    left ← read_u32_ptr hw base tmr_curr_count
    pure (0xffff_ffff - left)

  unfoldable pub measure_loop : ℕ → Time → Measures → Run hw Measures
  unfolding measure
  measure_loop zero date_time ms d = hang
  measure_loop (suc rounds) date_time ms d =
      let again = λ (now : Time) (ms' : Measures). measure_loop rounds now ms' in
      (do
        new_date_time ← read_rtc
        if same_time date_time new_date_time then again date_time ms else (do
          ticks ← ticks_in_1s
          elim (measure ticks ms) [
            | none ↦ pure ms
            | some ms' ↦ restart_timer >> again new_date_time ms'
          ]))
        d

  unfoldable pub initialize_apic : ℕ → Run hw (Unit {0})
  unfolding initialize measure_loop read_io_apic write_io_apic redirection
  initialize_apic io_apic_base = do
    initialize hw base
    modify hw.enable_apic
    modify hw.cli
    date_time ← read_rtc
    write_u32_ptr hw base tmr_div 0x03
    old ← read_u32_ptr hw base spurious
    write_u32_ptr hw base spurious (bit_or old sw_enable)
    ms ← measure_loop fuel date_time no_measures
    write_u32_ptr hw base tmr_init_count (u32 (average ms / timer_frequency))
    write_u32_ptr hw base lvt_tmr (bit_or timer_index tmr_periodic)
    local_apic_id ← read_u32_ptr hw base apicid
    read_io_apic hw io_apic_base 0x1
    low ← read_io_apic hw io_apic_base 0x12
    write_io_apic hw io_apic_base 0x12 (u32 (redirection low))
    write_io_apic hw io_apic_base 0x13 local_apic_id
    modify hw.sti
