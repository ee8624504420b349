-- ===== src/Ide/Writes.antt =====
-- src/ide.rs: writing, as what the drive is told and given.
use ferr_os.Base.{ℕ, ◌+◌, ◌^◌, ◌<◌, ◌≡◌, Bool, some, List, [], ◌∷◌, ◌++◌, length}
use ferr_os.Ide.{Bus, drive_bit, IdeDevice, Reply, success, Machine}
use ferr_os.Ide.Drive.{TaskFile, IsDrive, IsPatient}
use ferr_os.Ide.Access.{At}

abbrev pub words_of : List (List ℕ) → List ℕ
words_of [] = []
words_of (sector ∷ sectors) = sector ++ words_of sectors

-- The drive has got these words, and may be busy; so many blocks are left.
abbrev stored : TaskFile → List ℕ → Bool → ℕ → ℕ → TaskFile
stored t ws settled block pending = record t {
  written = ws;
  settled = settled;
  block = block;
  pending = pending;
}

module _ (bus : Bus) (base control : ℕ) (sector : ℕ → ℕ → List ℕ)
    (drive : IsDrive bus base control sector) (self : IdeDevice)
    (small : (base + 8 < 2 ^ 16) × (control + 4 < 2 ^ 16)) (fuel : ℕ)
    (patient : IsPatient drive fuel) where
  abbrev Holds : TaskFile → Machine bus.Device → Type 0
  Holds = At bus base control sector drive self.channel small

  abbrev pub Done : ℕ → List (List ℕ) → Reply (Unit {0}) → Machine bus.Device → Type 0
  Done lba sectors reply m' =
      (reply ≡ success tt)
      × ((told : TaskFile) × Holds told m'
          × (told.store ≡ some (drive_bit self.drive, lba, length sectors))
          × (told.written ≡ words_of sectors))
