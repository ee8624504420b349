-- ===== src/Apic/Frequency.antt =====
-- src/apic.rs: the frequency by the reference counter.
use ferr_os.Base.{
  ℕ, ◌+◌, ◌-◌, ◌*◌, ◌/◌, ◌%◌, ◌^◌, ◌≤◌, ◌<◌, ◌≡◌, refl, ◌≢◌, inl, inr, false, ◌&&◌, arith, ltb,
  ◌==◌, if◌then◌else◌, ltb→lt, ne→not_==, Bool-cases, u64, ◌<<◌, ok, panic,
}
use ferr_os.Apic.Clock.{calc_apic_timer_ref}

-- The counts between two reads of a counter of 24 bits, and the nanoseconds that they take.
abbrev pub elapsed : ℕ → ℕ → ℕ
elapsed pm1 pm2 = (pm2 + 2 ^ 24 - pm1) % 2 ^ 24

abbrev pub nanoseconds : ℕ → ℕ
nanoseconds counts = counts * 1000000000 / 3579545

later_lem :
    (pm1 pm2 : ℕ)
    → pm1 < 2 ^ 24
    → pm2 < 2 ^ 24
    → u64 ((if ltb pm2 pm1 then u64 (pm2 + u64 (1 << 24)) else pm2) + 2 ^ 64 - pm1)
      ≡ elapsed pm1 pm2
later_lem pm1 pm2 h1 h2 = elim (Bool-cases (ltb pm2 pm1)) [
  | inl wraps ↦ let less : pm2 < pm1 = ltb→lt pm2 pm1 wraps in rw wraps (omega arith)
  | inr more ↦ let at_least : pm1 ≤ pm2 = ground (arith, more) in rw more (omega arith)
]

-- For two reads of a counter of 24 bits that are not both 0: where they are equal it is a panic,
-- and otherwise the result is the difference of the time stamps divided by the nanoseconds that
-- the counter took, modulo its wrap.
pub calc_apic_timer_ref_lem :
    (deltatsc pm1 pm2 : ℕ)
    → pm1 < 2 ^ 24
    → pm2 < 2 ^ 24
    → 0 < pm1 + pm2
    → (pm1 ≡ pm2 → calc_apic_timer_ref deltatsc pm1 pm2 ≡ panic)
      × (pm1 ≢ pm2
          → calc_apic_timer_ref deltatsc pm1 pm2 ≡ ok (deltatsc / nanoseconds (elapsed pm1 pm2)))
unfolding calc_apic_timer_ref
calc_apic_timer_ref_lem deltatsc pm1 pm2 h1 h2 some_ =
    let counted : (pm1 == 0) && (pm2 == 0) ≡ false = ground arith in
    let bounded : elapsed pm1 pm2 < 2 ^ 24 = omega arith in
    let fits : u64 (elapsed pm1 pm2 * 1000000000) ≡ elapsed pm1 pm2 * 1000000000 = omega arith in
    rw (counted, later_lem pm1 pm2 h1 h2, fits)
      ((
        λ same. let none_ : elapsed pm1 pm2 ≡ 0 = omega arith in rw none_ refl,
        λ differ.
            let some_time : (nanoseconds (elapsed pm1 pm2) == 0) ≡ false =
              ne→not_== (nanoseconds (elapsed pm1 pm2)) 0
                (λ e. let one : 0 < elapsed pm1 pm2 = omega arith in omega (arith, one, e)) in
            rw some_time refl,
      ))
