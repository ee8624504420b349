-- ===== src/Ide/Tests.antt =====
-- src/ide.rs: a drive in memory, and runs of the driver on it.
use ferr_os.Base.{
  ℕ, zero, suc, ◌+◌, ◌-◌, ◌<◌, bit_and, ◌≡◌, refl, ap, ◌≢◌, ◌⊎◌, inl, inr, Bool, true, false, not,
  ◌&&◌, ◌||◌, none, List, [], ◌∷◌, ◌++◌, arith, ltb, leb, ◌==◌, if◌then◌else◌, ne→not_==,
  Bool-cases, replicate, length-replicate, u16,
}
use ferr_os.Base.Io.{Gives}
use ferr_os.Ide.{Bus, IdeChannelRegister, primary, ata, slave, IdeDevice, Machine}
use ferr_os.Ide.Drive.{
  TaskFile, IsIdle, busy_with, looked, transferred, latch, start, IsDrive, IsPatient,
}
use ferr_os.Ide.Transfer.{read, write}
use ferr_os.Ide.Probe.{primary_base, secondary_base}
use ferr_os.Ide.Reads.{Replies, read_lem}

-- The drive is busy for one look after each command and each block. It ignores registers, commands
-- and words that it does not ask for.
record Memory : Type 0 where
  file : TaskFile
  waits : Bool

abbrev sector : ℕ → ℕ → List ℕ
sector drive lba = replicate 256 (u16 (lba + drive))

abbrev base : ℕ
base = 0x1f0

abbrev control : ℕ
control = 0x3f4

abbrev is_idle : TaskFile → Bool
is_idle t = t.settled && (t.block == 0)

abbrev is_flush : ℕ → Bool
is_flush c = (c == 0xe7) || (c == 0xea)

abbrev told : ℕ → TaskFile → TaskFile
told c t = if is_idle t then start sector c t else if is_flush c then busy_with 0 t else t

abbrev write_memory : Memory → ℕ → ℕ → Memory
write_memory d port v =
    if port == base + 7
    then record { file = told v d.file; waits = true }
    else if leb base port && ltb port (base + 7)
    then record d { file = if is_idle d.file then latch (port - base) v d.file else d.file }
    else d

abbrev status_of : Bool → Bool → ℕ
status_of true waits = 0x50
status_of false true = 0xd0
status_of false false = 0x50

abbrev look_at : Memory → ℕ × Memory
look_at d = (
  status_of d.file.settled d.waits,
  record { file = looked (status_of d.file.settled d.waits) d.file; waits = not d.waits },
)

abbrev read_memory : Memory → ℕ → ℕ × Memory
read_memory d port = if port == base + 7 then look_at d else (0, d)

abbrev take_word : TaskFile → ℕ → List ℕ → ℕ × TaskFile
take_word t zero words = (0, t)
take_word t (suc left) [] = (0, t)
take_word t (suc left) (w ∷ ws) = (w, record (transferred left t) { to_read = ws })

abbrev give_word : TaskFile → ℕ → ℕ → TaskFile
give_word t zero w = t
give_word t (suc left) w = record (transferred left t) { written = t.written ++ w ∷ [] }

abbrev memory : Bus
memory = record {
  Device = Memory;
  write = write_memory;
  write_u16 = λ d _ w. record d { file = give_word d.file d.file.block w };
  read = read_memory;
  read_u16 = λ d _.
      let (w, file) = take_word d.file d.file.block d.file.to_read in (w, record d { file = file });
  sleep = λ d. d;
}

abbrev busy_for : Bool → Bool → ℕ
busy_for settled false = 0
busy_for settled true = if settled then 0 else 1

idle_lem : (t : TaskFile) → IsIdle t → is_idle t ≡ true
idle_lem t (settled, none_) = rw (settled, none_) refl

memory-write :
    (d : Memory) (r v : ℕ)
    → r < 7
    → IsIdle d.file
    → (write_memory d (base + r) v).file ≡ latch r v d.file
memory-write d r v h idle =
    rw (ne→not_== (base + r) (base + 7) (λ e. absurd (omega (arith, e))))
      (rw (inside r h, idle_lem d.file idle) (ap (λ k. latch k v d.file) (omega arith)))
  where
    inside : (r : ℕ) → r < 7 → (leb base (base + r) && ltb (base + r) (base + 7)) ≡ true
    inside r h = ground arith

memory-command :
    (d : Memory) (c : ℕ)
    → IsIdle d.file
    → (write_memory d (base + 7) c).file ≡ start sector c d.file
memory-command d c idle = rw (idle_lem d.file idle) refl

memory-flush :
    (d : Memory) (c : ℕ)
    → (c ≡ 0xe7) ⊎ (c ≡ 0xea)
    → (write_memory d (base + 7) c).file ≡ busy_with 0 d.file
unfolding start
memory-flush d c (inl e) = elim (Bool-cases (is_idle d.file)) [
  | inl idle ↦ rw (e, idle) refl
  | inr busy ↦ rw (e, busy) refl
]
memory-flush d c (inr e) = elim (Bool-cases (is_idle d.file)) [
  | inl idle ↦ rw (e, idle) refl
  | inr busy ↦ rw (e, busy) refl
]

memory-read : (d : Memory) (r : ℕ) → r < 7 → (read_memory d (base + r)).1.file ≡ d.file
memory-read d r h = rw (ne→not_== (base + r) (base + 7) (λ e. absurd (omega (arith, e)))) refl

memory-busy :
    (d : Memory)
    → bit_and (read_memory d (base + 7)).0 0x80 ≢ 0
    → busy_for (read_memory d (base + 7)).1.file.settled (read_memory d (base + 7)).1.waits
      < busy_for d.file.settled d.waits
memory-busy d h = looks d.file d.waits d.file.settled refl h
  where
    looks :
        (t : TaskFile) (waits settled : Bool)
        → t.settled ≡ settled
        → bit_and (status_of t.settled waits) 0x80 ≢ 0
        → busy_for (looked (status_of t.settled waits) t).settled (not waits)
          < busy_for t.settled waits
    looks t waits true e h = absurd (h (rw e refl))
    looks t true false e h = rw e (omega arith)
    looks t false false e h = absurd (h (rw e refl))

memory-calm : (d : Memory) → d.file.settled ≡ true → bit_and (read_memory d (base + 7)).0 0x80 ≡ 0
memory-calm d e = rw e refl

memory-pop :
    (d : Memory) (left w : ℕ) (ws : List ℕ)
    → d.file.block ≡ suc left
    → d.file.to_read ≡ w ∷ ws
    → ((memory.read_u16 d base).0 ≡ w)
      × ((memory.read_u16 d base).1.file ≡ record (transferred left d.file) { to_read = ws })
memory-pop d left w ws b e = (rw (b, e) refl, rw (b, e) refl)

abbrev memory-IsDrive : IsDrive memory base control sector
memory-IsDrive = record {
  view = λ d. d.file;
  patience = λ d. busy_for d.file.settled d.waits;
  write_register = memory-write;
  write_command = memory-command;
  write_flush = memory-flush;
  write_control = λ d v no_reset. refl;
  read_register = memory-read;
  read_alternate = λ d. refl;
  read_status = λ d. refl;
  settled_look = memory-calm;
  busy_looks = memory-busy;
  read_data = memory-pop;
  write_data = λ d left w b. rw b refl;
  sector_words = λ drive lba. length-replicate 256 (u16 (lba + drive));
}

memory-IsPatient : IsPatient memory-IsDrive 2
memory-IsPatient d = below d.file.settled d.waits
  where
    below : (settled waits : Bool) → busy_for settled waits < 2
    below true true = omega arith
    below false true = omega arith
    below settled false = omega arith

abbrev no_file : TaskFile
no_file = record {
  current = λ _. 0;
  previous = λ _. 0;
  to_read = [];
  store = none;
  written = [];
  settled = false;
  block = 0;
  pending = 0;
}

abbrev no_channel : IdeChannelRegister
no_channel = record { io_base = 0; ctrl = 0; bm_ide = 0; no_interrupt = 0 }

abbrev machine : Machine Memory
machine = record {
  primary_registers = primary_base no_channel;
  secondary_registers = secondary_base no_channel;
  device = record { file = no_file; waits = true };
}

abbrev disk : IdeDevice
disk = record {
  channel = primary;
  drive = slave;
  interface_type = ata;
  signature = 0;
  capabilities = 0x200;
  command_sets = 0;
  size = 1000;
  model = [];
  enabled_48bit = false;
}

read_example :
    Gives
      (λ reply m'.
        Replies memory base control sector memory-IsDrive disk
          (omega arith, omega arith)
          2
          memory-IsPatient
          700
          2
          reply)
      (read memory 2 disk 700 2 machine)
read_example =
    read_lem memory base control sector memory-IsDrive disk (omega arith, omega arith) 2
      memory-IsPatient 700 2 no_file machine (omega arith) (omega arith) (omega arith) (omega arith)
      (omega arith, inr (λ e. absurd (omega (arith, e)))) refl refl
      (refl, (refl, omega arith), refl)

-- A sector.
abbrev sevens : List ℕ
sevens = replicate 256 7
