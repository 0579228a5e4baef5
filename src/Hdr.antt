-- ===== src/Hdr.antt =====
-- The headers of a command, aoecmd.c: `put_lba`, `aoehdr_atainit`, and the ATA header that
-- `ata_rw_frameinit` builds.
pub mod Lba
use aoe.Prelude.{ℕ, ◌+◌, ◌/◌, ◌%◌, ◌^◌, Bool, if◌then◌else◌}
use aoe.Types.{AoeHdr, AtaHdr, Iter, zero_ata, zero_hdr}

abbrev pub aoe_hver : ℕ
aoe_hver = 0x10

abbrev pub ata_cmd_pio_read : ℕ
ata_cmd_pio_read = 0x20

abbrev pub ata_cmd_id_ata : ℕ
ata_cmd_id_ata = 0xec

-- Each byte of the address is the low byte of what `>>= 8` leaves.
unfoldable pub put_lba : AtaHdr → ℕ → AtaHdr
put_lba ah lba = record ah {
  lba0 = lba % 2 ^ 8;
  lba1 = lba / 2 ^ 8 % 2 ^ 8;
  lba2 = lba / 2 ^ 16 % 2 ^ 8;
  lba3 = lba / 2 ^ 24 % 2 ^ 8;
  lba4 = lba / 2 ^ 32 % 2 ^ 8;
  lba5 = lba / 2 ^ 40 % 2 ^ 8;
}

-- `aoehdr_atainit`, given the tag, the addresses of both ends and the device's; 16 bits of the
-- shelf and 8 of the slot fit the header.
unfoldable pub aoehdr_atainit : ℕ → ℕ → ℕ → ℕ → ℕ → AoeHdr
aoehdr_atainit tag src dst major minor = record zero_hdr {
  src = src;
  dst = dst;
  verfl = aoe_hver;
  major = major % 2 ^ 16;
  minor = minor % 2 ^ 8;
  tag = tag;
}

-- The ATA header of a read or a write at `iter`; `ext` is DEVFL_EXT. Without it the top byte keeps
-- four bits of the address, under the LBA bit and the obsolete 0xa0. `scnt` is a byte. The bits
-- of the command, 0x20 for a read, 0x10 for a write and 0x4 for lba48, are disjoint.
unfoldable pub ata_header : Bool → Bool → Iter → AtaHdr
unfolding put_lba
ata_header ext write iter =
    let ah = put_lba (record zero_ata { scnt = iter.size / 2 ^ 9 % 2 ^ 8 }) iter.sector in
    let lba3 : ℕ = if ext then ah.lba3 else ah.lba3 % 16 + 0xe0 in
    record ah {
      ext = ext;
      write = write;
      lba3 = lba3;
      cmdstat = ata_cmd_pio_read + (if write then 0x10 else 0) + (if ext then 0x4 else 0);
    }
