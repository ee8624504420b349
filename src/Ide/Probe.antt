-- ===== src/Ide/Probe.antt =====
-- src/ide.rs: finding the drives. Whether the bytes of a model are text is a parameter, since the
-- list of the drives is printed.
use ferr_os.Base.{
  ℕ, zero, suc, ◌+◌, ◌/◌, ◌^◌, bit_and, bit_or, Bool, true, false, ◌&&◌, Option, none, some, List,
  [], ◌∷◌, ◌==◌, ◌!=◌, if◌then◌else◌, get_or, set, replicate, u8, u32, ◌<<◌, hang,
}
use ferr_os.Base.Io.{◌>>=◌, ◌>>◌, pure, modify, abort}
use ferr_os.Ide.{
  Bus, IdeChannelRegister, AtaChannel, primary, secondary, ata, DriveType, master, slave, drive_bit,
  IdeDevice, data_register, hdd_ev_sel, command_and_status, control_and_alt_status, identify,
  command_number, busy, data_request_ready, error_bit, Run,
}
use ferr_os.Ide.Channel.{ide_write, ide_read, ide_read_buffer}

unfoldable pub construct_u32 : ℕ → ℕ → ℕ
construct_u32 low high = bit_or (u32 (high << 16)) low

abbrev pub capabilities_offset : ℕ
capabilities_offset = 49

abbrev pub model_offset : ℕ
model_offset = 27

abbrev pub max_lba_offset : ℕ
max_lba_offset = 60

abbrev pub command_sets_offset : ℕ
command_sets_offset = 82

abbrev pub max_lba_ext_offset : ℕ
max_lba_ext_offset = 100

unfoldable pub get_u16_from_buffer : List ℕ → ℕ → ℕ
get_u16_from_buffer buffer offset = get_or buffer offset 0

unfoldable pub get_u32_from_buffer : List ℕ → ℕ → ℕ
unfolding construct_u32
get_u32_from_buffer buffer offset =
    construct_u32 (get_or buffer offset 0) (get_or buffer (offset + 1) 0)

-- The loop, with the number of words left and the byte `i` next.
unfoldable pub model_loop : List ℕ → ℕ → ℕ → List ℕ → List ℕ
model_loop ide_buf zero i model = model
model_loop ide_buf (suc words) i model =
    let word = get_or ide_buf (model_offset + i / 2) 0 in
    model_loop ide_buf words (i + 2) (set (set model i (word / 2 ^ 8)) (i + 1) (u8 word))

unfoldable pub model_of : List ℕ → List ℕ
unfolding model_loop
model_of ide_buf = set (model_loop ide_buf 20 0 (replicate 41 0)) 40 0

unfoldable pub describe : AtaChannel → DriveType → List ℕ → IdeDevice
unfolding get_u16_from_buffer get_u32_from_buffer model_of
describe channel drive ide_buf =
    let command_sets = get_u32_from_buffer ide_buf command_sets_offset in
    let wide = bit_and command_sets (1 << 26) != 0 in
    record {
      channel = channel;
      drive = drive;
      interface_type = ata;
      signature = get_u16_from_buffer ide_buf 0;
      capabilities = get_u16_from_buffer ide_buf capabilities_offset;
      command_sets = command_sets;
      size = get_u32_from_buffer ide_buf (if wide then max_lba_ext_offset else max_lba_offset);
      model = model_of ide_buf;
      enabled_48bit = wide;
    }

abbrev pub primary_base : IdeChannelRegister → IdeChannelRegister
primary_base r = record r {
  io_base = bit_and 0x1f0 0xffff_fffc;
  ctrl = bit_and 0x3f6 0xffff_fffc;
  bm_ide = 0;
}

abbrev pub secondary_base : IdeChannelRegister → IdeChannelRegister
secondary_base r = record r {
  io_base = bit_and 0x170 0xffff_fffc;
  ctrl = bit_and 0x376 0xffff_fffc;
  bm_ide = 8;
}

module _ (bus : Bus) (is_utf8 : List ℕ → Bool) (fuel : ℕ) where
  abbrev sleep : Run bus (Unit {0})
  sleep = modify λ m. record m { device = bus.sleep m.device }

  -- The loop that waits for the answer to Identify: whether it is an error.
  unfoldable pub await_identify : ℕ → AtaChannel → Run bus Bool
  unfolding ide_read
  await_identify zero channel m = hang
  await_identify (suc rounds) channel m =
      let again = await_identify rounds channel in
      (do
        status ← ide_read bus channel command_and_status
        if bit_and status error_bit != 0
            then pure true
            else if (bit_and status busy == 0) && (bit_and status data_request_ready != 0)
            then pure false
            else again)
        m

  -- One drive of one channel.
  unfoldable pub probe : AtaChannel → DriveType → Run bus (Option IdeDevice)
  unfolding ide_write ide_read await_identify ide_read_buffer describe
  probe channel drive = do
    ide_write bus channel hdd_ev_sel (bit_or 0xa0 (drive_bit drive << 4))
    sleep
    ide_write bus channel command_and_status (command_number identify)
    sleep
    status ← ide_read bus channel command_and_status
    if status == 0 then pure none else (do
      failed ← await_identify fuel channel
      if failed then pure none else (do
        ide_buf ← ide_read_buffer bus channel data_register 256 (replicate 1024 0)
        pure (some (describe channel drive ide_buf))))

  unfoldable pub probe_all : List (AtaChannel × DriveType) → Run bus (List IdeDevice)
  unfolding probe
  probe_all [] = pure []
  probe_all ((channel, drive) ∷ rest) = do
    found ← probe channel drive
    drives ← probe_all rest
    pure (elim found [ none ↦ drives | some d ↦ d ∷ drives ])

  unfoldable pub print_drives : List IdeDevice → Run bus (Unit {0})
  print_drives [] = pure tt
  print_drives (d ∷ ds) = if is_utf8 d.model then print_drives ds else abort

  unfoldable pub ide_initialize : Run bus (List IdeDevice)
  unfolding ide_write probe_all print_drives
  ide_initialize = do
    modify λ m. record m {
      primary_registers = primary_base m.primary_registers;
      secondary_registers = secondary_base m.secondary_registers;
    }
    ide_write bus primary control_and_alt_status 2
    ide_write bus secondary control_and_alt_status 2
    drives ←
        probe_all
          ((primary, master) ∷ (primary, slave) ∷ (secondary, master) ∷ (secondary, slave) ∷ [])
    print_drives drives
    pure drives
