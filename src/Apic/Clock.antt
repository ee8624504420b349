-- ===== src/Apic/Clock.antt =====
-- src/apic.rs: the calibration of the time stamp counter. Loops that wait for a device run on fuel.
use ferr_os.Base.{
  ℕ, zero, suc, ◌+◌, ◌-◌, ◌*◌, ◌/◌, ◌^◌, min, max, bit_and, bit_or, Bool, ◌&&◌, ◌||◌, ltb, leb,
  ◌==◌, if◌then◌else◌, u8, u16, u64, ◌<<◌, Outcome, ok, err, panic, hang,
}
use ferr_os.Base.Io.{◌>>=◌, ◌>>◌, pure}
use ferr_os.Apic.{Hardware, Run, tmr_curr_count, get_tsc, read_port, write_port, read_u32_ptr}

abbrev pub no_frequency : ℕ
no_frequency = 0xffff_ffff_ffff_ffff

-- A division by 0 is a panic.
abbrev pub divide : ℕ → ℕ → Outcome ℕ
divide a b = if b == 0 then panic else ok (a / b)

-- The counter of the ACPI timer has 24 bits.
unfoldable pub calc_apic_timer_ref : ℕ → ℕ → ℕ → Outcome ℕ
calc_apic_timer_ref deltatsc pm1 pm2 =
    if (pm1 == 0) && (pm2 == 0)
    then ok no_frequency
    else let later = if ltb pm2 pm1 then u64 (pm2 + u64 (1 << 24)) else pm2 in
      divide deltatsc (u64 (u64 (later + 2 ^ 64 - pm1) * 1000000000) / 3579545)

-- What the loop over the PIT's gate has seen: the last count, the last, the least and the largest
-- difference, and how many looks there were.
pub record Looks : Type 0 where
  pub tsc : ℕ
  pub tsc_min : ℕ
  pub tsc_max : ℕ
  pub pitcnt : ℕ

unfoldable pub look : ℕ → Looks → Looks
look t2 l =
    let delta = u64 (t2 + 2 ^ 64 - l.tsc) in
    record {
      tsc = t2;
      tsc_min = min l.tsc_min delta;
      tsc_max = max l.tsc_max delta;
      pitcnt = u16 (l.pitcnt + 1);
    }

-- The checks behind the loop, and the frequency.
unfoldable pub judge : ℕ → ℕ → ℕ → Looks → Outcome ℕ
judge loop_min ms t1 l =
    if ltb l.pitcnt loop_min || ltb (u64 (10 * l.tsc_min)) l.tsc_max
    then ok no_frequency
    else divide (u64 (l.tsc + 2 ^ 64 - t1)) ms

module _ (hw : Hardware) (fuel : ℕ) where
  unfoldable pub watch_gate : ℕ → Looks → Run hw Looks
  unfolding look
  watch_gate zero l d = hang
  watch_gate (suc rounds) l d =
      let again = λ (l' : Looks). watch_gate rounds l' in
      (do
        gate ← read_port hw 0x61
        if bit_and gate 0x20 == 0 then (do t2 ← get_tsc hw; again (look t2 l)) else pure l)
        d

  abbrev pub judged : ℕ → ℕ → ℕ → Looks → Run hw ℕ
  judged loop_min ms t1 l d = elim (judge loop_min ms t1 l) [
    | ok khz ↦ ok (khz, d)
    | err message ↦ err message
    | panic ↦ panic
    | hang ↦ hang
  ]

  unfoldable pub pit_calibrate_tsc : ℕ → ℕ → ℕ → Run hw ℕ
  unfolding watch_gate judge
  pit_calibrate_tsc latch ms loop_min = do
    v ← read_port hw 0x61
    write_port hw 0x61 (bit_or (bit_and v 0xfd) 0x1)
    write_port hw 0x43 0xb0
    write_port hw 0x42 (u8 (bit_and latch 0xff))
    write_port hw 0x42 (u8 (latch / 2 ^ 8))
    t1 ← get_tsc hw
    l ←
        watch_gate fuel
          (record { tsc = t1; tsc_min = 0xffff_ffff_ffff_ffff; tsc_max = 0; pitcnt = 0 })
    judged loop_min ms t1 l

  -- The retries that are left, and the count that was read last.
  unfoldable pub read_apic_ref : ℕ → ℕ → ℕ → Run hw (ℕ × ℕ)
  read_apic_ref zero local_apic apic_tmr d = ok ((0xffff_ffff_ffff_ffff, apic_tmr), d)
  read_apic_ref (suc retries) local_apic apic_tmr d =
      let again = λ (tmr : ℕ). read_apic_ref retries local_apic tmr in
      (do
        t1 ← get_tsc hw
        tmr ← read_u32_ptr hw local_apic tmr_curr_count
        t2 ← get_tsc hw
        if ltb (u64 (t2 + 2 ^ 64 - t1)) 0x2_0000 then pure (t2, tmr) else again tmr)
        d

  unfoldable pub tsc_read_apic_ref : ℕ → Run hw (ℕ × ℕ)
  unfolding read_apic_ref
  tsc_read_apic_ref local_apic = read_apic_ref 5 local_apic 0

-- The parameters of a calibration, and the least frequencies so far.
pub record Calibration : Type 0 where
  pub latch : ℕ
  pub ms : ℕ
  pub loopmin : ℕ
  pub tsc_pit_min : ℕ
  pub tsc_ref_min : ℕ

abbrev pub first_calibration : Calibration
first_calibration = record {
  latch = 1193182 / (1000 / 10);
  ms = 10;
  loopmin = 1000;
  tsc_pit_min = 0xffff_ffff_ffff_ffff;
  tsc_ref_min = 0xffff_ffff_ffff_ffff;
}

-- After the second round without a frequency the next ones are longer.
abbrev pub adjust : ℕ → Calibration → Calibration
adjust i c =
    if (i == 1) && (c.tsc_pit_min == 0xffff_ffff_ffff_ffff)
    then record c { latch = 1193182 / (1000 / 50); ms = 50; loopmin = 5000 }
    else c

-- The result of the loop without a match.
unfoldable pub settle_calibration : Calibration → Outcome ℕ
settle_calibration c =
    if c.tsc_pit_min == 0xffff_ffff_ffff_ffff
    then if c.tsc_ref_min == 0xffff_ffff_ffff_ffff then panic else ok c.tsc_ref_min
    else ok c.tsc_pit_min

module _ (hw : Hardware) (fuel : ℕ) where
  abbrev pub lift : {A : Type 0} → Outcome A → Run hw A
  lift (ok a) d = ok (a, d)
  lift (err message) d = err message
  lift panic d = panic
  lift hang d = hang

  -- What the reference says: whether the calibration matches, and the frequency.
  unfoldable pub compare_reference : Calibration → ℕ → ℕ → ℕ → ℕ → Run hw (Bool × ℕ)
  unfolding calc_apic_timer_ref
  compare_reference c tsc1 ref1 tsc2 ref2 = do
    khz ← lift (calc_apic_timer_ref (u64 (u64 (tsc2 + 2 ^ 64 - tsc1) * 1000000)) ref1 ref2)
    let ref_min = min c.tsc_ref_min khz
    delta ← lift (divide (u64 (c.tsc_pit_min * 100)) ref_min)
    pure (leb 90 delta && leb delta 110, ref_min)

  -- The loop, with the rounds that are left and the round's number.
  unfoldable pub calibrate : ℕ → ℕ → ℕ → Calibration → Run hw ℕ
  unfolding tsc_read_apic_ref pit_calibrate_tsc compare_reference settle_calibration
  calibrate zero i local_apic c d = lift (settle_calibration c) d
  calibrate (suc rounds) i local_apic c d =
      let again = λ (c' : Calibration). calibrate rounds (i + 1) local_apic c' in
      (do
        (tsc1, ref1) ← tsc_read_apic_ref hw fuel local_apic
        khz ← pit_calibrate_tsc hw fuel c.latch c.ms c.loopmin
        (tsc2, ref2) ← tsc_read_apic_ref hw fuel local_apic
        let c1 = record c { tsc_pit_min = min c.tsc_pit_min khz }
        if (tsc1 == 0xffff_ffff_ffff_ffff) || (tsc2 == 0xffff_ffff_ffff_ffff) then again c1 else (do
          (matches, ref_min) ← compare_reference c1 tsc1 ref1 tsc2 ref2
          if matches then pure ref_min else again (adjust i (record c1 { tsc_ref_min = ref_min }))))
        d

  unfoldable pub pit_hpet_ptimer_calibrate_cpu : ℕ → Run hw ℕ
  unfolding calibrate
  pit_hpet_ptimer_calibrate_cpu local_apic = calibrate 3 0 local_apic first_calibration
