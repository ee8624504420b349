-- ===== src/Xsdt/Records.antt =====
-- src/xsdt.rs: the walk over the records of the MADT.
use ferr_os.Base.{
  ℕ, zero, suc, ◌+◌, ◌≤◌, ◌<◌, ◌≡◌, refl, ◌≢◌, Bool, true, false, arith, ltb, ◌==◌, if◌then◌else◌,
  lt→ltb, Outcome, ok, hang,
}
use ferr_os.Base.{Ends, gave}
use ferr_os.Xsdt.{Bytes, number_at, ApicPhysAddrs, madt_loop}

module _ (bytes : Bytes) (data_addr len : ℕ) where
  -- From offset `o` on, each record that the walk reaches has a length other than 0.
  pub data IsChain : ℕ → Type 0 where
    past : (o : ℕ) → len ≤ o → IsChain o
    next :
        (o : ℕ)
        → bytes (data_addr + o + 1) ≢ 0
        → IsChain (o + bytes (data_addr + o + 1))
        → IsChain o

  -- From offset `o` on, the walk reaches a record of length 0.
  pub data IsStuck : ℕ → Type 0 where
    empty : (o : ℕ) → o < len → bytes (data_addr + o + 1) ≡ 0 → IsStuck o
    later : (o : ℕ) → o < len → IsStuck (o + bytes (data_addr + o + 1)) → IsStuck o

  if-Ends :
      (t : Bool) (x y : Outcome ApicPhysAddrs)
      → (t ≡ true → Ends x)
      → (t ≡ false → Ends y)
      → Ends (if t then x else y)
  if-Ends true x y f g = f refl
  if-Ends false x y f g = g refl

  -- The walk over a MADT's records ends, with one round more than there are bytes left, if every
  -- record that it reaches has a length other than 0.
  pub madt_loop-Ends :
      (fuel o : ℕ) (result : Outcome ApicPhysAddrs)
      → len ≤ o + fuel
      → IsChain o
      → Ends result
      → Ends (madt_loop bytes data_addr len (suc fuel) o result)
  unfolding madt_loop
  madt_loop-Ends zero o result enough chain ends =
      if-Ends (ltb o len) _ result (λ t. ground (arith, t)) (λ _. ends)
  madt_loop-Ends (suc fuel) o result enough (past _ beyond) ends =
      if-Ends (ltb o len) _ result (λ t. ground (arith, t)) (λ _. ends)
  madt_loop-Ends (suc fuel) o result enough (next _ positive rest) ends =
      let found : Outcome ApicPhysAddrs = ok (record {
        local_apic_addr = number_at bytes data_addr 4;
        io_apic_addr = number_at bytes (data_addr + o + 2 + 4) 4;
      }) in
      let now : Outcome ApicPhysAddrs = if bytes (data_addr + o) == 1 then found else result in
      let after = o + bytes (data_addr + o + 1) in
      if-Ends (ltb o len) (madt_loop bytes data_addr len (suc fuel) after now) result
        (λ _.
          madt_loop-Ends fuel after now (omega arith) rest
            (if-Ends (bytes (data_addr + o) == 1) found result (λ _. gave _) (λ _. ends)))
        (λ _. ends)

  -- The walk never ends once it reaches a record of length 0: with no fuel it returns.
  pub madt_loop-hang :
      (fuel o : ℕ) (result : Outcome ApicPhysAddrs)
      → IsStuck o
      → madt_loop bytes data_addr len fuel o result ≡ hang
  unfolding madt_loop
  madt_loop-hang zero o result stuck = refl
  madt_loop-hang (suc fuel) o result (empty _ below no_length) =
      let stay : o + bytes (data_addr + o + 1) ≡ o = omega arith in
      rw (lt→ltb o len below)
        (madt_loop-hang fuel (o + bytes (data_addr + o + 1)) _ (rw stay (empty o below no_length)))
  madt_loop-hang (suc fuel) o result (later _ below rest) =
      rw (lt→ltb o len below) (madt_loop-hang fuel (o + bytes (data_addr + o + 1)) _ rest)
