-- ===== src/Ide/Reads.antt =====
-- src/ide.rs: reading, as what it gives of the drive's sectors.
use ferr_os.Base.{
  ℕ, Bool, zero, suc, ◌+◌, ◌^◌, ◌≤◌, ◌<◌, ◌≡◌, refl, sym, ap, ap₂, ◌∙◌, ◌≢◌, ◌⊎◌, inl, inr, true,
  false, List, [], ◌∷◌, ◌++◌, arith, le→not_ltb, length, u32,
}
use mathlib.Core.List.{append_assoc, append-nil}
use mathlib.Core.Path.{subst}
use ferr_os.Base.Io.{Gives, gives, Gives-bind, Gives-map}
use ferr_os.Ide.{Bus, drive_bit, IdeDevice, AtaError, no_error, Reply, success, failure, Machine}
use ferr_os.Ide.Drive.{TaskFile, opened, transferred, run, IsDrive, IsPatient}
use ferr_os.Ide.Transfer.{
  ide_polling, io_prepare, read_sector, after_poll, read_sectors, read_impl, read,
}
use ferr_os.Ide.Access.{At, At-device}
use ferr_os.Ide.Command.{IsAddressable, io_prepare_lem}
use ferr_os.Ide.Polling.{verdict, Shows, shown, polling_checked}

abbrev pub sectors_of : (ℕ → List ℕ) → ℕ → ℕ → List (List ℕ)
sectors_of sector lba zero = []
sectors_of sector lba (suc count) = sector lba ∷ sectors_of sector (lba + 1) count

abbrev to_read_of : TaskFile → List ℕ → TaskFile
to_read_of t ws = record t { to_read = ws }

module _ (bus : Bus) (base control : ℕ) (sector : ℕ → ℕ → List ℕ)
    (drive : IsDrive bus base control sector) (self : IdeDevice)
    (small : (base + 8 < 2 ^ 16) × (control + 4 < 2 ^ 16)) (fuel : ℕ)
    (patient : IsPatient drive fuel) where
  abbrev Holds : TaskFile → Machine bus.Device → Type 0
  Holds = At bus base control sector drive self.channel small

  -- The open block's words were read: the drive may be busy, and these words are left.
  abbrev Left : TaskFile → List ℕ → Machine bus.Device → Type 0
  Left t rest m' = (b : Bool) × Holds (record t { to_read = rest; settled = b; block = 0 }) m'

  read_sector_lem :
      (ws rest : List ℕ) (t : TaskFile) (m : Machine bus.Device)
      → t.to_read ≡ ws ++ rest
      → t.block ≡ length ws
      → Holds t m
      → Gives (λ got m'. (got ≡ ws) × Left t rest m') (read_sector bus fuel (length ws) base m)
  unfolding read_sector
  read_sector_lem [] rest t m e n (b, c, v) =
      gives (refl, (t.settled, (b, c, v ∙ ap₂ (λ x y. record t { to_read = x; block = y }) e n)))
  read_sector_lem (w ∷ ws) rest t m e n (b, c, v) =
      let left : (drive.view m.device).block ≡ suc (length ws) = ap (λ x. x.block) v ∙ n in
      let (word, after) =
        drive.read_data m.device (length ws) w (ws ++ rest) left (ap (λ x. x.to_read) v ∙ e) in
      let t1 : TaskFile = record (transferred (length ws) t) { to_read = ws ++ rest } in
      let m1 : Machine bus.Device = record m { device = (bus.read_u16 m.device base).1 } in
      let at1 : Holds t1 m1 =
        At-device bus base control sector drive self.channel small t t1 m _ (b, c, v)
          (after ∙ ap (λ x. record (transferred (length ws) x) { to_read = ws ++ rest }) v) in
      Gives-bind (read_sector bus fuel (length ws) base) _ m1
        (read_sector_lem ws rest t1 m1 refl refl at1) λ got m2 (g, at2). gives (ap₂ ◌∷◌ word g, at2)

  -- A read ends in the sectors, or in an error that a device has shown.
  abbrev pub Replies : ℕ → ℕ → Reply (List (List ℕ)) → Type 0
  Replies lba count reply =
      (reply ≡ success (sectors_of (sector (drive_bit self.drive)) lba count))
      ⊎ ((d : bus.Device) × (e : AtaError) × (reply ≡ failure e)
          × (e ≢ no_error)
          × (e
              ≡ verdict (bus.read d (base + 7)).0
                  (bus.read (bus.read d (base + 7)).1 (base + 1)).0))

  abbrev Results : List (List ℕ) → ℕ → ℕ → Reply (List (List ℕ)) → Type 0
  Results result lba count reply =
      (reply ≡ success (result ++ sectors_of (sector (drive_bit self.drive)) lba count))
      ⊎ ((d : bus.Device) × (e : AtaError) × (reply ≡ failure e)
          × (e ≢ no_error)
          × (e
              ≡ verdict (bus.read d (base + 7)).0
                  (bus.read (bus.read d (base + 7)).1 (base + 1)).0))

  module _ (count lba : ℕ) (result : List (List ℕ)) (t : TaskFile)
      (ready : t.to_read ≡ run (sector (drive_bit self.drive)) lba (suc count))
      (none_open : t.block ≡ 0) (left : t.pending ≡ suc count)
      (continues : (t' : TaskFile) (m' : Machine bus.Device)
        → t'.to_read ≡ run (sector (drive_bit self.drive)) (lba + 1) count
        → t'.block ≡ 0
        → t'.pending ≡ count
        → Holds t' m'
        → Gives
            (λ reply m''.
              Results (result ++ sector (drive_bit self.drive) lba ∷ []) (lba + 1) count reply)
            (read_sectors bus fuel count self.channel base
              (result ++ sector (drive_bit self.drive) lba ∷ [])
              m')) where
    abbrev wanted : List ℕ
    wanted = sector (drive_bit self.drive) lba

    abbrev Got : List ℕ → Machine bus.Device → Type 0
    Got got m' =
        (got ≡ sector (drive_bit self.drive) lba)
        × Left (opened count t) (run (sector (drive_bit self.drive)) (lba + 1) count) m'

    regroup :
        (reply : Reply (List (List ℕ)))
        → Results (result ++ sector (drive_bit self.drive) lba ∷ []) (lba + 1) count reply
        → Results result lba (suc count) reply
    regroup reply (inl e) = inl (e ∙ ap success (append_assoc result _ _))
    regroup reply (inr shows) = inr shows

    after :
        (e : AtaError) (m : Machine bus.Device)
        → Shows bus base control sector drive self small fuel patient count t e m
        → Gives
            (λ reply m'. Results result lba (suc count) reply)
            (after_poll bus fuel base
              (λ (s : List ℕ). read_sectors bus fuel count self.channel base (result ++ s ∷ []))
              e
              m)
    unfolding run
    after no_error m (shown d at e) =
        Gives-bind (read_sector bus fuel 256 base) _ m
          (subst (λ n. Gives Got (read_sector bus fuel n base m))
            (drive.sector_words (drive_bit self.drive) lba)
            (read_sector_lem wanted (run (sector (drive_bit self.drive)) (lba + 1) count)
              (opened count t) m ready (sym (drive.sector_words (drive_bit self.drive) lba))
              (at refl)))
          λ got m1 (g, (_, at1)).
            Gives-map
              (subst
                (λ s.
                  Gives (λ reply m''. Results (result ++ wanted ∷ []) (lba + 1) count reply)
                    (read_sectors bus fuel count self.channel base (result ++ s ∷ []) m1))
                (sym g) (continues _ m1 refl refl refl at1))
              λ reply m2 ends. regroup reply ends
    after e m (shown d at q) = gives (inr (d, e, refl, (λ p. cc p), q))

  read_sectors_lem :
      (count lba : ℕ) (result : List (List ℕ)) (t : TaskFile) (m : Machine bus.Device)
      → t.to_read ≡ run (sector (drive_bit self.drive)) lba count
      → t.block ≡ 0
      → t.pending ≡ count
      → Holds t m
      → Gives
          (λ reply m'. Results result lba count reply)
          (read_sectors bus fuel count self.channel base result m)
  unfolding read_sectors run
  read_sectors_lem zero lba result t m e b p at = gives (inl (ap success (sym (append-nil result))))
  read_sectors_lem (suc count) lba result t m e b p at =
      let wanted = sector (drive_bit self.drive) lba in
      let next : (e' : AtaError) (m1 : Machine bus.Device)
          → Shows bus base control sector drive self small fuel patient count t e' m1
          → Gives (λ reply m'. Results result lba (suc count) reply)
              (after_poll bus fuel base
                (λ (s : List ℕ). read_sectors bus fuel count self.channel base (result ++ s ∷ []))
                e' m1) =
        λ e' m1 shows.
          after count lba result t e b p
            (λ t' m' e2 b2 p2 at2. read_sectors_lem count (lba + 1) _ t' m' e2 b2 p2 at2) e' m1
            shows in
      Gives-bind (ide_polling bus fuel self.channel true) _ m
        (polling_checked bus base control sector drive self small fuel patient count t m b p at)
        next

  -- Reading at least one sector and fewer than 256, that the drive has and the driver can
  -- address, from a drive that keeps to the protocol, has no transfer open, is not reset by the
  -- channel's control value, and is not busy for longer than the fuel, ends. It gives exactly
  -- the drive's sectors in their order, or an error that a look at the drive has shown.
  pub read_lem :
      (lba num : ℕ) (t : TaskFile) (m : Machine bus.Device)
      → 0 < num
      → num < 2 ^ 8
      → lba + num ≤ self.size
      → self.size < 2 ^ 32
      → IsAddressable self lba
      → t.block ≡ 0
      → t.pending ≡ 0
      → Holds t m
      → Gives (λ reply m'. Replies lba num reply) (read bus fuel self lba num m)
  unfolding read read_impl
  read_lem lba num t m positive few inside wide addressable b p at =
      rw (le→not_ltb self.size (u32 (lba + num)) (omega arith)) (
        Gives-bind (io_prepare bus fuel self lba num false false) _ m
          (io_prepare_lem bus base control sector drive self small fuel patient lba num positive few
            false t m addressable b p at)
          λ mode m1 (_, (told, at1, (ready, (b1, p1)))).
            let looped = read_sectors_lem num lba [] told m1 ready b1 p1 at1 in
            subst
              (λ p.
                Gives (λ reply m'. Replies lba num reply)
                  (read_sectors bus fuel num self.channel p [] m1))
              (sym at1.0) (Gives-map looped λ reply m2 ends. ends))
