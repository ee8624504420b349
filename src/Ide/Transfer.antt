-- ===== src/Ide/Transfer.antt =====
-- src/ide.rs: waiting for a drive, and reading and writing its sectors.
use ferr_os.Base.{
  ℕ, zero, suc, ◌+◌, ◌/◌, ◌^◌, bit_and, bit_or, Bool, true, false, List, [], ◌∷◌, ◌++◌, ltb, leb,
  ◌==◌, ◌!=◌, if◌then◌else◌, length, get_or, replicate, u8, u32, ◌<<◌, ok, hang,
}
use ferr_os.Base.Io.{◌>>=◌, ◌>>◌, pure, modify, abort}
use ferr_os.Ide.{
  Bus, AtaChannel, DriveType, master, slave, IdeDevice, error_and_features, sec_count0, lba0, lba1,
  lba2, hdd_ev_sel, command_and_status, sec_count1, lba3, lba4, lba5, control_and_alt_status,
  AtaCommand, read_pio, read_pio_ext, read_dma, read_dma_ext, write_pio, write_pio_ext, write_dma,
  write_dma_ext, cache_flush, cache_flush_ext, command_number, busy, drive_write_fault, error_bit,
  AtaError, no_error, device_fault, no_address_mark_found, no_media_or_media_error, command_aborted,
  id_mark_not_found, uncorrectable_data_error, bad_sectors, out_of_range, Reply, success, failure,
  Run,
}
use ferr_os.Ide.Channel.{registers, set_registers, read_port_u16, ide_write, ide_read}

-- Which error the error register shows.
unfoldable pub decode_error : ℕ → AtaError
decode_error e =
    if bit_and e 0x01 != 0
    then no_address_mark_found
    else if bit_and e 0x02 != 0
    then no_media_or_media_error
    else if bit_and e 0x04 != 0
    then command_aborted
    else if bit_and e 0x08 != 0
    then no_media_or_media_error
    else if bit_and e 0x10 != 0
    then id_mark_not_found
    else if bit_and e 0x20 != 0
    then no_media_or_media_error
    else if bit_and e 0x40 != 0
    then uncorrectable_data_error
    else if bit_and e 0x80 != 0
    then bad_sectors
    else device_fault

pub data LbaMode : Type 0 where
  lba48 lba28 chs : LbaMode

abbrev pub lba_mode_of : ℕ → ℕ → LbaMode
lba_mode_of capabilities lba =
    if leb 0x1000_0000 lba then lba48 else if bit_and capabilities 0x200 != 0 then lba28 else chs

-- `((lba & (0xFF << k)) >> k) as u8`
abbrev pub lba_byte : ℕ → ℕ → ℕ
lba_byte k lba = u8 (bit_and lba (0xff << k) / 2 ^ k)

abbrev pub lba_io : LbaMode → ℕ → List ℕ
lba_io lba48 lba = lba_byte 0 lba ∷ lba_byte 8 lba ∷ lba_byte 16 lba ∷ lba_byte 24 lba ∷ 0 ∷ 0 ∷ []
lba_io lba28 lba = lba_byte 0 lba ∷ lba_byte 8 lba ∷ lba_byte 16 lba ∷ 0 ∷ 0 ∷ 0 ∷ []
lba_io chs lba = replicate 6 0

abbrev pub head_of : LbaMode → ℕ → ℕ
head_of lba28 lba = u8 (bit_and lba 0xf00_0000 / 2 ^ 24)
head_of _ lba = 0

abbrev pub slavebit : DriveType → ℕ
slavebit master = 0b0000
slavebit slave = 0b1_0000

abbrev pub command_of : LbaMode → Bool → Bool → AtaCommand
command_of lba48 dma is_write =
    if dma
    then if is_write then write_dma_ext else read_dma_ext
    else if is_write
    then write_pio_ext
    else read_pio_ext
command_of _ dma is_write =
    if dma
    then if is_write then write_dma else read_dma
    else if is_write
    then write_pio
    else read_pio

module _ (bus : Bus) (fuel : ℕ) where
  -- `while (… & AtaStatus::Busy as u8) != 0 {}`
  unfoldable pub wait_while_busy : ℕ → AtaChannel → Run bus (Unit {0})
  unfolding ide_read
  wait_while_busy zero channel m = hang
  wait_while_busy (suc rounds) channel m =
      let again = wait_while_busy rounds channel in
      (do
        status ← ide_read bus channel command_and_status
        if bit_and status busy == 0 then pure tt else again)
        m

  abbrev pub check_status : AtaChannel → Run bus AtaError
  check_status channel = do
    status ← ide_read bus channel command_and_status
    if bit_and status error_bit != 0
        then (do e ← ide_read bus channel error_and_features; pure (decode_error e))
        else if bit_and status drive_write_fault != 0
        then pure device_fault
        else pure no_error

  unfoldable pub ide_polling : AtaChannel → Bool → Run bus AtaError
  unfolding wait_while_busy ide_read
  ide_polling channel advanced_check = do
    ide_read bus channel control_and_alt_status
    ide_read bus channel control_and_alt_status
    ide_read bus channel control_and_alt_status
    ide_read bus channel control_and_alt_status
    wait_while_busy fuel channel
    if advanced_check then check_status channel else pure no_error

  -- The registers that LBA48 sets first, and the choice of the drive.
  abbrev pub select_drive : IdeDevice → LbaMode → ℕ → Run bus (Unit {0})
  select_drive self chs lba = abort
  select_drive self lba28 lba =
      ide_write bus self.channel hdd_ev_sel
        (bit_or (bit_or 0xe0 (slavebit self.drive)) (head_of lba28 lba))
  select_drive self lba48 lba = do
    ide_write bus self.channel hdd_ev_sel
        (bit_or (bit_or 0xe0 (slavebit self.drive)) (head_of lba48 lba))
    ide_write bus self.channel sec_count1 0
    ide_write bus self.channel lba3 (get_or (lba_io lba48 lba) 3 0)
    ide_write bus self.channel lba4 (get_or (lba_io lba48 lba) 4 0)
    ide_write bus self.channel lba5 (get_or (lba_io lba48 lba) 5 0)

  abbrev pub set_no_interrupt : AtaChannel → Run bus (Unit {0})
  set_no_interrupt channel =
      modify λ m. set_registers channel (record (registers channel m) { no_interrupt = 0x02 }) m

  abbrev pub prepare_in : LbaMode → IdeDevice → ℕ → ℕ → Bool → Bool → Run bus LbaMode
  prepare_in lba_mode self lba numsects dma is_write = do
    wait_while_busy fuel self.channel
    select_drive self lba_mode lba
    ide_write bus self.channel sec_count0 numsects
    ide_write bus self.channel lba0 (get_or (lba_io lba_mode lba) 0 0)
    ide_write bus self.channel lba1 (get_or (lba_io lba_mode lba) 1 0)
    ide_write bus self.channel lba2 (get_or (lba_io lba_mode lba) 2 0)
    ide_write bus self.channel command_and_status
        (command_number (command_of lba_mode dma is_write))
    pure lba_mode

  -- CHS is not implemented.
  abbrev pub prepare_by : LbaMode → IdeDevice → ℕ → ℕ → Bool → Bool → Run bus LbaMode
  prepare_by chs self lba numsects dma is_write = abort
  prepare_by mode self lba numsects dma is_write = prepare_in mode self lba numsects dma is_write

  unfoldable pub io_prepare : IdeDevice → ℕ → ℕ → Bool → Bool → Run bus LbaMode
  unfolding ide_write wait_while_busy
  io_prepare self lba numsects dma is_write = do
    set_no_interrupt self.channel
    ide_write bus self.channel control_and_alt_status 0x02
    prepare_by (lba_mode_of self.capabilities lba) self lba numsects dma is_write

  unfoldable pub write_words : ℕ → List ℕ → Run bus (Unit {0})
  write_words port [] = pure tt
  write_words port (word ∷ words) = do
    modify λ m. record m { device = bus.write_u16 m.device port word }
    write_words port words

  unfoldable pub write_sectors : AtaChannel → ℕ → List (List ℕ) → Run bus (Unit {0})
  unfolding write_words ide_polling
  write_sectors channel port [] = pure tt
  write_sectors channel port (sector ∷ sectors) = do
    ide_polling channel false
    write_words port sector
    write_sectors channel port sectors

  abbrev pub flush_of : LbaMode → AtaCommand
  flush_of lba48 = cache_flush_ext
  flush_of _ = cache_flush

  abbrev pub reply_of : AtaError → Reply (Unit {0})
  reply_of no_error = success tt
  reply_of e = failure e

  -- The sectors, the flush and the last poll of a write.
  abbrev pub write_all : IdeDevice → List (List ℕ) → LbaMode → ℕ → Run bus (Reply (Unit {0}))
  write_all self sectors lba_mode port = do
    write_sectors self.channel port sectors
    ide_write bus self.channel command_and_status (command_number (flush_of lba_mode))
    e ← ide_polling self.channel false
    pure (reply_of e)

  unfoldable pub write_impl : IdeDevice → ℕ → List (List ℕ) → Run bus (Reply (Unit {0}))
  unfolding write_sectors ide_polling io_prepare ide_write
  write_impl self lba sectors = do
    lba_mode ← io_prepare self lba (u8 (length sectors)) false true
    port ← λ m. ok ((registers self.channel m).io_base, m)
    write_all self sectors lba_mode port

  -- The words of a sector in their order.
  unfoldable pub read_sector : ℕ → ℕ → Run bus (List ℕ)
  read_sector zero port = pure []
  read_sector (suc words) port = do
    word ← read_port_u16 bus port
    rest ← read_sector words port
    pure (word ∷ rest)

  -- What follows a poll: a sector and the rest of the loop, or an early return.
  abbrev pub after_poll :
      ℕ → (List ℕ → Run bus (Reply (List (List ℕ)))) → AtaError → Run bus (Reply (List (List ℕ)))
  after_poll port rest no_error = do sector ← read_sector 256 port; rest sector
  after_poll port rest e = pure (failure e)

  -- The loop, with what it has read so far.
  unfoldable pub read_sectors : ℕ → AtaChannel → ℕ → List (List ℕ) → Run bus (Reply (List (List ℕ)))
  unfolding read_sector ide_polling
  read_sectors zero channel port result = pure (success result)
  read_sectors (suc numsects) channel port result =
      let rest = λ (sector : List ℕ). read_sectors numsects channel port (result ++ sector ∷ []) in
      ide_polling channel true >>= after_poll port rest

  unfoldable pub read_impl : IdeDevice → ℕ → ℕ → Run bus (Reply (List (List ℕ)))
  unfolding read_sectors io_prepare
  read_impl self lba numsects = do
    io_prepare self lba numsects false false
    port ← λ m. ok ((registers self.channel m).io_base, m)
    read_sectors numsects self.channel port []

  unfoldable pub read : IdeDevice → ℕ → ℕ → Run bus (Reply (List (List ℕ)))
  unfolding read_impl
  read self lba num =
      if ltb self.size (u32 (lba + num))
      then pure (failure out_of_range)
      else read_impl self lba num

  unfoldable pub write : IdeDevice → ℕ → List (List ℕ) → Run bus (Reply (Unit {0}))
  unfolding write_impl
  write self lba sectors =
      if ltb self.size (u32 (lba + u32 (length sectors)))
      then pure (failure out_of_range)
      else write_impl self lba sectors
