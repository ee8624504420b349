-- ===== src/Ide.antt =====
-- src/ide.rs: the driver of ATA drives, over the ports of the two IDE channels.
--
-- The ports, and the time that passes in a sleep, are the parameter Bus. A loop that waits for the
-- drive runs on fuel, and hang is more looks at the status than that.
pub mod Channel
pub mod Transfer
pub mod Probe
pub mod Drive
pub mod Access
pub mod Prepare
pub mod Command
pub mod Polling
pub mod Reads
pub mod Writes
mod Tests
use ferr_os.Base.{ℕ, Bool, List, []}
use ferr_os.Base.Io.{Io}

-- What stands behind the ports.
pub record Bus : Type 1 where
  pub Device : Type 0
  pub write : Device → ℕ → ℕ → Device
  pub write_u16 : Device → ℕ → ℕ → Device
  pub read : Device → ℕ → ℕ × Device
  pub read_u16 : Device → ℕ → ℕ × Device
  pub sleep : Device → Device

pub record IdeChannelRegister : Type 0 where
  pub io_base : ℕ
  pub ctrl : ℕ
  pub bm_ide : ℕ
  pub no_interrupt : ℕ

pub data AtaChannel : Type 0 where
  primary secondary : AtaChannel

pub data IdeInterfaceType : Type 0 where
  ata atapi : IdeInterfaceType

pub data DriveType : Type 0 where
  master slave : DriveType

abbrev pub drive_bit : DriveType → ℕ
drive_bit master = 0
drive_bit slave = 1

pub record IdeDevice : Type 0 where
  pub channel : AtaChannel
  pub drive : DriveType
  pub interface_type : IdeInterfaceType
  pub signature : ℕ
  pub capabilities : ℕ
  pub command_sets : ℕ
  pub size : ℕ
  pub model : List ℕ
  pub enabled_48bit : Bool

pub data AtaRegister : Type 0 where
  data_register error_and_features sec_count0 lba0 lba1 lba2 hdd_ev_sel command_and_status :
      AtaRegister
  sec_count1 lba3 lba4 lba5 control_and_alt_status dev_address : AtaRegister

-- `reg as u8`
abbrev pub register_number : AtaRegister → ℕ
register_number data_register = 0x0
register_number error_and_features = 0x01
register_number sec_count0 = 0x02
register_number lba0 = 0x03
register_number lba1 = 0x04
register_number lba2 = 0x05
register_number hdd_ev_sel = 0x06
register_number command_and_status = 0x07
register_number sec_count1 = 0x08
register_number lba3 = 0x09
register_number lba4 = 0x0a
register_number lba5 = 0x0b
register_number control_and_alt_status = 0x0c
register_number dev_address = 0x0d

pub data AtaCommand : Type 0 where
  read_pio read_pio_ext read_dma read_dma_ext write_pio write_pio_ext write_dma : AtaCommand
  write_dma_ext cache_flush cache_flush_ext packet identify_packet identify : AtaCommand

abbrev pub command_number : AtaCommand → ℕ
command_number read_pio = 0x20
command_number read_pio_ext = 0x24
command_number read_dma = 0xc8
command_number read_dma_ext = 0x25
command_number write_pio = 0x30
command_number write_pio_ext = 0x34
command_number write_dma = 0xca
command_number write_dma_ext = 0x35
command_number cache_flush = 0xe7
command_number cache_flush_ext = 0xea
command_number packet = 0xa0
command_number identify_packet = 0xa1
command_number identify = 0xec

-- The bits of `AtaStatus` that the driver looks at.
abbrev pub busy : ℕ
busy = 0x80

abbrev pub drive_write_fault : ℕ
drive_write_fault = 0x20

abbrev pub data_request_ready : ℕ
data_request_ready = 0x08

abbrev pub error_bit : ℕ
error_bit = 0x01

pub data AtaError : Type 0 where
  no_error device_fault no_address_mark_found no_media_or_media_error command_aborted : AtaError
  id_mark_not_found uncorrectable_data_error bad_sectors reads_nothing : AtaError
  write_protected out_of_range : AtaError

-- A `Result` with an `AtaError`.
pub data Reply (A : Type 0) : Type 0 where
  success : A → Reply A
  failure : AtaError → Reply A

-- The static CHANNELS, and the device.
pub record Machine (D : Type 0) : Type 0 where
  pub primary_registers : IdeChannelRegister
  pub secondary_registers : IdeChannelRegister
  pub device : D

abbrev pub Run : Bus → Type 0 → Type 0
Run bus = Io (Machine bus.Device)
