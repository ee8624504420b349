-- ===== src/Ide/Polling.antt =====
-- src/ide.rs: the polling of a drive.
use ferr_os.Base.{arith}
use ferr_os.Base.{
  ℕ, suc, ◌≢◌, ◌+◌, ◌^◌, ◌<◌, bit_and, ◌≡◌, refl, sym, ap, ◌∙◌, inl, inr, Bool, true, false, List,
  ◌!=◌, if◌then◌else◌, Bool-cases,
}
use ferr_os.Base.Io.{◌>>=◌, pure}
use ferr_os.Base.Io.{Gives, gives, Gives-bind, Gives-map}
use mathlib.Core.Path.{subst}
use ferr_os.Ide.{
  Bus, IdeDevice, error_and_features, command_and_status, control_and_alt_status, drive_write_fault,
  error_bit, AtaError, no_error, device_fault, Machine,
}
use ferr_os.Ide.Channel.{ide_read}
use ferr_os.Ide.Drive.{
  TaskFile, opened, is_fine, looked-opened, looked-again, looked-settled, IsHealthy, IsDrive,
  IsPatient,
}
use ferr_os.Ide.Transfer.{decode_error, wait_while_busy, check_status, ide_polling}
use ferr_os.Ide.Access.{At, ide_read-alternate, ide_read-status, ide_read-errors}
use ferr_os.Ide.Prepare.{Seen, wait-Has}

-- What the status and the error register say, by the bits of the two.
abbrev pub verdict : ℕ → ℕ → AtaError
verdict status errors =
    if bit_and status 0x01 != 0
    then decode_error errors
    else if bit_and status 0x20 != 0
    then device_fault
    else no_error

verdict-error :
    (status errors : ℕ)
    → (bit_and status 0x01 != 0) ≡ true
    → verdict status errors ≡ decode_error errors
verdict-error status errors e = rw e

verdict-ok :
    (status errors : ℕ)
    → (bit_and status 0x01 != 0) ≡ false
    → verdict status errors ≡ (if bit_and status 0x20 != 0 then device_fault else no_error)
verdict-ok status errors e = rw e

-- The error register never says that there is no error.
decode_error-fails : (e : ℕ) → decode_error e ≢ no_error
unfolding decode_error
decode_error-fails e = ground arith

is_fine_lem :
    (status : ℕ)
    → (bit_and status 0x01 != 0) ≡ false
    → (bit_and status 0x20 != 0) ≡ false
    → is_fine status ≡ true
is_fine_lem status fine none_ = ground arith

module _ (bus : Bus) (base control : ℕ) (sector : ℕ → ℕ → List ℕ)
    (drive : IsDrive bus base control sector) (self : IdeDevice)
    (small : (base + 8 < 2 ^ 16) × (control + 4 < 2 ^ 16)) (fuel : ℕ)
    (patient : IsPatient drive fuel) where
  abbrev Holds : TaskFile → Machine bus.Device → Type 0
  Holds = At bus base control sector drive self.channel small

  look :
      (t : TaskFile) (m : Machine bus.Device)
      → Holds t m
      → Gives (λ _. Holds t) (ide_read bus self.channel control_and_alt_status m)
  look t m at = ide_read-alternate bus base control sector drive self.channel small t m at

  -- The looks and the wait, before what is looked at next.
  polling_then :
      (advanced_check : Bool) (t : TaskFile) (m : Machine bus.Device)
      (Q : AtaError → Machine bus.Device → Type 0)
      → Holds t m
      → ((m' : Machine bus.Device)
          → Seen bus base control sector drive self small fuel patient t m'
          → Gives Q
              ((if advanced_check then check_status bus fuel self.channel else pure no_error) m'))
      → Gives Q (ide_polling bus fuel self.channel advanced_check m)
  unfolding ide_polling
  polling_then advanced_check t m Q at next =
      Gives-bind (ide_read bus self.channel control_and_alt_status) _ m (look t m at) λ _ m1 at1.
        Gives-bind (ide_read bus self.channel control_and_alt_status) _ m1 (look t m1 at1)
          λ _ m2 at2.
            Gives-bind (ide_read bus self.channel control_and_alt_status) _ m2 (look t m2 at2)
              λ _ m3 at3.
                Gives-bind (ide_read bus self.channel control_and_alt_status) _ m3 (look t m3 at3)
                  λ _ m4 at4.
                    Gives-bind (wait_while_busy bus fuel fuel self.channel) _ m4
                      (wait-Has bus base control sector drive self small fuel patient fuel t m4
                        (patient m4.device) at4)
                      λ _ m5 at5. next m5 at5

  -- Without the check there is never an error.
  pub polling_unchecked :
      (t : TaskFile) (m : Machine bus.Device)
      → Holds t m
      → Gives
          (λ e m'. (e ≡ no_error) × Seen bus base control sector drive self small fuel patient t m')
          (ide_polling bus fuel self.channel false m)
  polling_unchecked t m at = polling_then false t m _ at λ m' seen. gives (refl, seen)

  -- Where the drive shows no error, the next block is open after it.
  pub polling_opened :
      (left : ℕ) (t : TaskFile) (m : Machine bus.Device)
      → IsHealthy bus base
      → t.block ≡ 0
      → t.pending ≡ suc left
      → Holds t m
      → Gives (λ e m'. Holds (opened left t) m') (ide_polling bus fuel self.channel false m)
  polling_opened left t m healthy b p at =
      Gives-map (polling_unchecked t m at) λ e m' (_, (d, calm, at')).
        let fine : is_fine (bus.read d (base + 7)).0 ≡ true =
          rw ((healthy d).0, (healthy d).1) refl in
        subst (λ x. Holds x m') (looked-opened _ left t b p calm fine) at'

  -- What the status at some moment, and the error register after it, say of a command. Where this
  -- is no error, the next block is open.
  pub data Shows (left : ℕ) (t : TaskFile) : AtaError → Machine bus.Device → Type 0 where
    shown :
        {e : AtaError} {m' : Machine bus.Device} (d : bus.Device)
        → (e ≡ no_error → Holds (opened left t) m')
        → e ≡ verdict (bus.read d (base + 7)).0 (bus.read (bus.read d (base + 7)).1 (base + 1)).0
        → Shows left t e m'

  checked :
      (left : ℕ) (t : TaskFile) (m : Machine bus.Device)
      → t.block ≡ 0
      → t.pending ≡ suc left
      → Seen bus base control sector drive self small fuel patient t m
      → Gives (Shows left t) (check_status bus fuel self.channel m)
  checked left t m b p (d, calm, at) =
      Gives-bind (ide_read bus self.channel command_and_status)
        (λ status.
          if bit_and status error_bit != 0
          then (do e ← ide_read bus self.channel error_and_features; pure (decode_error e))
          else if bit_and status drive_write_fault != 0
          then pure device_fault
          else pure no_error)
        m (ide_read-status bus base control sector drive self.channel small _ m at)
        λ status m1 (at1, value, device).
          let calm' =
            drive.settled_look m.device (ap (λ x. x.settled) (at.2) ∙ looked-settled _ t calm) in
          let seen = λ (b : Bool) (q : (bit_and status 0x01 != 0) ≡ b).
            ap (λ x. bit_and x 0x01 != 0) (sym value) ∙ q in
          elim (Bool-cases (bit_and status error_bit != 0)) [
            | inl bad ↦ rw bad (
                Gives-bind (ide_read bus self.channel error_and_features)
                  (λ e. pure (decode_error e)) m1
                  (ide_read-errors bus base control sector drive self.channel small _ m1 at1)
                  λ e m2 (at2, ev). gives (
                    shown m.device (λ q. absurd (decode_error-fails e q))
                      (ap decode_error (ev ∙ ap (λ d. (bus.read d (base + 1)).0) device)
                        ∙ sym (verdict-error _ _ (seen true bad)))))
            | inr fine ↦ rw fine (elim (Bool-cases (bit_and status drive_write_fault != 0)) [
              | inl fault ↦ rw fault (
                  gives (
                    shown m.device (λ q. absurd (cc q))
                      (rw (← value, fault) refl ∙ sym (verdict-ok _ _ (seen false fine)))))
              | inr none_ ↦ rw none_ (
                  gives (
                    shown m.device
                      (λ _.
                        subst (λ x. Holds x m1)
                          (looked-again _ _ left t b p calm calm'
                            (subst (λ x. is_fine x ≡ true) value (is_fine_lem status fine none_)))
                          at1)
                      (rw (← value, none_) refl ∙ sym (verdict-ok _ _ (seen false fine)))))
            ])
          ]

  pub polling_checked :
      (left : ℕ) (t : TaskFile) (m : Machine bus.Device)
      → t.block ≡ 0
      → t.pending ≡ suc left
      → Holds t m
      → Gives (Shows left t) (ide_polling bus fuel self.channel true m)
  polling_checked left t m b p at = polling_then true t m _ at λ m' seen. checked left t m' b p seen
