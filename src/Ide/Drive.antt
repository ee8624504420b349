-- ===== src/Ide/Drive.antt =====
-- src/ide.rs: what the driver relies on of the drives of a channel, by the ATA registers.
use ferr_os.Base.{ap, ◌∙◌}
use ferr_os.Base.{
  ℕ, zero, suc, ◌+◌, ◌*◌, ◌/◌, ◌%◌, ◌^◌, ◌<◌, bit_and, ◌≡◌, refl, ◌≢◌, ◌⊎◌, inl, inr, Bool, true,
  false, ◌&&◌, Option, some, List, [], ◌∷◌, ◌++◌, ltb, ◌==◌, if◌then◌else◌, Bool-cases, length,
}
use ferr_os.Ide.{Bus}

-- The registers that a command reads: what was written to each last, and before that. Then the
-- words that are to be read, and what the drive was told to store and has got so far. It is settled
-- where a look at the status showed that it is not busy, and it was given nothing to do since. A
-- transfer goes in blocks of 256 words: how many words of the block are left that the drive asks
-- for now, and how many blocks of the command are left behind it.
pub record TaskFile : Type 0 where
  pub current : ℕ → ℕ
  pub previous : ℕ → ℕ
  pub to_read : List ℕ
  pub store : Option (ℕ × ℕ × ℕ)
  pub written : List ℕ
  pub settled : Bool
  pub block : ℕ
  pub pending : ℕ

-- What the drive asks for registers and commands in.
abbrev pub IsIdle : TaskFile → Type 0
IsIdle t = (t.settled ≡ true) × (t.block ≡ 0)

abbrev pub latch : ℕ → ℕ → TaskFile → TaskFile
latch r v t = record t {
  current = λ k. if k == r then v else t.current k;
  previous = λ k. if k == r then t.current k else t.previous k;
}

abbrev pub chosen : TaskFile → ℕ
chosen t = t.current 6 / 2 ^ 4 % 2

abbrev pub low_lba : TaskFile → ℕ
low_lba t = t.current 3 + t.current 4 * 2 ^ 8 + t.current 5 * 2 ^ 16

abbrev pub lba28_of : TaskFile → ℕ
lba28_of t = low_lba t + t.current 6 % 2 ^ 4 * 2 ^ 24

abbrev pub lba48_of : TaskFile → ℕ
lba48_of t = low_lba t + t.previous 3 * 2 ^ 24 + t.previous 4 * 2 ^ 32 + t.previous 5 * 2 ^ 40

-- No sectors stands for as many as do not fit the register.
abbrev pub count28_of : TaskFile → ℕ
count28_of t = if t.current 2 == 0 then 2 ^ 8 else t.current 2

abbrev pub count48_of : TaskFile → ℕ
count48_of t =
    let count = t.previous 2 * 2 ^ 8 + t.current 2 in if count == 0 then 2 ^ 16 else count

-- The words of a run of sectors.
unfoldable pub run : (ℕ → List ℕ) → ℕ → ℕ → List ℕ
run sector lba zero = []
run sector lba (suc count) = sector lba ++ run sector (lba + 1) count

-- A command with this many blocks keeps the drive busy at first.
abbrev pub busy_with : ℕ → TaskFile → TaskFile
busy_with count t = record t { settled = false; block = 0; pending = count }

-- The commands to read, and to write, by LBA28 and by LBA48.
unfoldable pub start : (ℕ → ℕ → List ℕ) → ℕ → TaskFile → TaskFile
unfolding run
start sector command t =
    if command == 0x20
    then busy_with (count28_of t)
        (record t { to_read = run (sector (chosen t)) (lba28_of t) (count28_of t) })
    else if command == 0x24
    then busy_with (count48_of t)
        (record t { to_read = run (sector (chosen t)) (lba48_of t) (count48_of t) })
    else if command == 0x30
    then busy_with (count28_of t)
        (record t { store = some (chosen t, lba28_of t, count28_of t); written = [] })
    else if command == 0x34
    then busy_with (count48_of t)
        (record t { store = some (chosen t, lba48_of t, count48_of t); written = [] })
    else busy_with 0 t

-- A block is asked for, and this many are left behind it.
abbrev pub opened : ℕ → TaskFile → TaskFile
opened left t = record t { settled = true; block = 256; pending = left }

-- The next block is asked for where none is open and one is left.
abbrev pub next_block : TaskFile → ℕ → ℕ → TaskFile
next_block t zero zero = record t { settled = true }
next_block t zero (suc left) = opened left t
next_block t (suc block) pending = record t { settled = true }

-- A status without an error and a write fault.
abbrev pub is_fine : ℕ → Bool
is_fine status = (bit_and status 0x01 == 0) && (bit_and status 0x20 == 0)

-- A look at the status. While the busy bit is set, the other bits say nothing; after it, the next
-- block can be transferred, unless there is an error.
unfoldable pub looked : ℕ → TaskFile → TaskFile
looked status t =
    if bit_and status 0x80 == 0
    then if is_fine status then next_block t t.block t.pending else record t { settled = true }
    else t

-- A word was transferred. After a block's last one, the drive can be busy again.
abbrev pub transferred : ℕ → TaskFile → TaskFile
transferred left t = record t { settled = ltb 0 left; block = left }

-- The drives of a channel at a base port and a control port, with their sectors. Registers and
-- commands are for an idle drive, and words for one that asks for them; a flush of the cache takes
-- no sector away, whenever it is written. Looks at the alternate status and at the registers are
-- allowed at any time, as are writes to the control register that do not reset the drives. A settled drive does not become busy, and a look at the status of a busy
-- drive brings it nearer to its end.
pub record IsDrive (bus : Bus) (base control : ℕ) (sector : ℕ → ℕ → List ℕ) : Type 0 where
  pub view : bus.Device → TaskFile
  pub patience : bus.Device → ℕ
  pub write_register :
      (d : bus.Device) (r v : ℕ)
      → r < 7
      → IsIdle (view d)
      → view (bus.write d (base + r) v) ≡ latch r v (view d)
  pub write_command :
      (d : bus.Device) (c : ℕ)
      → IsIdle (view d)
      → view (bus.write d (base + 7) c) ≡ start sector c (view d)
  pub write_flush :
      (d : bus.Device) (c : ℕ)
      → (c ≡ 0xe7) ⊎ (c ≡ 0xea)
      → view (bus.write d (base + 7) c) ≡ busy_with 0 (view d)
  pub write_control :
      (d : bus.Device) (v : ℕ) → bit_and v 0x04 ≡ 0 → view (bus.write d (control + 2) v) ≡ view d
  pub read_register : (d : bus.Device) (r : ℕ) → r < 7 → view (bus.read d (base + r)).1 ≡ view d
  pub read_alternate : (d : bus.Device) → view (bus.read d (control + 2)).1 ≡ view d
  pub read_status :
      (d : bus.Device) → view (bus.read d (base + 7)).1 ≡ looked (bus.read d (base + 7)).0 (view d)
  pub settled_look :
      (d : bus.Device) → (view d).settled ≡ true → bit_and (bus.read d (base + 7)).0 0x80 ≡ 0
  pub busy_looks :
      (d : bus.Device)
      → bit_and (bus.read d (base + 7)).0 0x80 ≢ 0
      → patience (bus.read d (base + 7)).1 < patience d
  pub read_data :
      (d : bus.Device) (left w : ℕ) (ws : List ℕ)
      → (view d).block ≡ suc left
      → (view d).to_read ≡ w ∷ ws
      → ((bus.read_u16 d base).0 ≡ w)
        × (view (bus.read_u16 d base).1 ≡ record (transferred left (view d)) { to_read = ws })
  pub write_data :
      (d : bus.Device) (left w : ℕ)
      → (view d).block ≡ suc left
      → view (bus.write_u16 d base w)
        ≡ record (transferred left (view d)) { written = (view d).written ++ w ∷ [] }
  pub sector_words : (drive lba : ℕ) → length (sector drive lba) ≡ 256

-- Where the drive's transfer is at an end, a look leaves an idle drive.
pub looked-IsIdle :
    (status : ℕ) (t : TaskFile)
    → t.block ≡ 0
    → t.pending ≡ 0
    → bit_and status 0x80 ≡ 0
    → IsIdle (looked status t)
unfolding looked
looked-IsIdle status t b p e = elim (Bool-cases (is_fine status)) [
  | inl fine ↦ rw (e, fine, b, p) (refl, refl)
  | inr bad ↦ rw (e, bad) (refl, b)
]

-- A look without an error opens the next block.
pub looked-opened :
    (status left : ℕ) (t : TaskFile)
    → t.block ≡ 0
    → t.pending ≡ suc left
    → bit_and status 0x80 ≡ 0
    → is_fine status ≡ true
    → looked status t ≡ opened left t
unfolding looked
looked-opened status left t b p e fine = rw (e, fine, b, p) refl

looked-bad :
    (status : ℕ) (t : TaskFile)
    → bit_and status 0x80 ≡ 0
    → is_fine status ≡ false
    → looked status t ≡ record t { settled = true }
unfolding looked
looked-bad status t e bad = rw (e, bad) refl

looked-open :
    (status left : ℕ) (t : TaskFile)
    → bit_and status 0x80 ≡ 0
    → is_fine status ≡ true
    → looked status (opened left t) ≡ opened left t
unfolding looked
looked-open status left t e fine = rw (e, fine) refl

-- The second of two looks is without an error.
pub looked-again :
    (first status left : ℕ) (t : TaskFile)
    → t.block ≡ 0
    → t.pending ≡ suc left
    → bit_and first 0x80 ≡ 0
    → bit_and status 0x80 ≡ 0
    → is_fine status ≡ true
    → looked status (looked first t) ≡ opened left t
looked-again first status left t b p e e' fine = elim (Bool-cases (is_fine first)) [
  | inl also ↦
      ap (looked status) (looked-opened first left t b p e also) ∙ looked-open status left t e' fine
  | inr bad ↦
      ap (looked status) (looked-bad first t e bad)
      ∙ looked-opened status left (record t { settled = true }) b p e' fine
]

pub looked-settled :
    (status : ℕ) (t : TaskFile) → bit_and status 0x80 ≡ 0 → (looked status t).settled ≡ true
unfolding looked
looked-settled status t e = rw e (cases (is_fine status) t.block t.pending)
  where
    cases :
        (fine : Bool) (block pending : ℕ)
        → (if fine then next_block t block pending else record t { settled = true }).settled ≡ true
    cases false block pending = refl
    cases true zero zero = refl
    cases true zero (suc left) = refl
    cases true (suc block) pending = refl

-- A busy drive is as it was.
pub looked-busy :
    (status : ℕ) (t : TaskFile) → (bit_and status 0x80 == 0) ≡ false → looked status t ≡ t
unfolding looked
looked-busy status t e = rw e refl

-- No look at the status shows an error or a fault.
abbrev pub IsHealthy : Bus → ℕ → Type 0
IsHealthy bus base =
    (d : bus.Device)
    → (bit_and (bus.read d (base + 7)).0 0x01 ≡ 0) × (bit_and (bus.read d (base + 7)).0 0x20 ≡ 0)

-- Every drive is busy for fewer looks than this.
abbrev pub IsPatient :
    {bus : Bus} {base control : ℕ} {sector : ℕ → ℕ → List ℕ}
    → IsDrive bus base control sector
    → ℕ
    → Type 0
IsPatient {bus} drive fuel = (d : bus.Device) → drive.patience d < fuel
