-- ===== src/Hdr/Lba.antt =====
-- What a target reads from the ATA header.
use aoe.Prelude.{ℕ, ◌+◌, ◌*◌, ◌%◌, ◌^◌, ◌<◌, ◌≡◌, Bool, true, false, if◌then◌else◌, arith}
use aoe.Types.{AtaHdr}
use aoe.Hdr.{ata_header}

-- The address that a target decodes: six bytes in an lba48 command, and 28 bits else.
abbrev pub lba_of : AtaHdr → ℕ
lba_of ah =
    let low = ah.lba0 + ah.lba1 * 2 ^ 8 + ah.lba2 * 2 ^ 16 in
    if ah.ext
    then low + ah.lba3 * 2 ^ 24 + ah.lba4 * 2 ^ 32 + ah.lba5 * 2 ^ 40
    else low + ah.lba3 % 16 * 2 ^ 24

-- A target decodes from the header the sector that was asked for, where it fits the command's
-- address (2 ^ 48 sectors with DEVFL_EXT, 2 ^ 28 without), and the number of sectors, where fewer
-- than 256 are asked for; the command byte is one of the four for its direction and width.
pub ata_header_decodes :
    (ext write : Bool) (sector n : ℕ)
    → sector < (if ext then 2 ^ 48 else 2 ^ 28)
    → n < 256
    → let ah = ata_header ext write (record { sector = sector; size = n * 512 }) in
      (lba_of ah ≡ sector)
      × (ah.scnt ≡ n)
      × (ah.lba3 < 2 ^ 8)
      × (ah.cmdstat
          ≡ (if write then (if ext then 0x34 else 0x30) else (if ext then 0x24 else 0x20)))
unfolding ata_header
ata_header_decodes true true sector n h k = omega arith
ata_header_decodes true false sector n h k = omega arith
ata_header_decodes false true sector n h k = omega arith
ata_header_decodes false false sector n h k = omega arith
