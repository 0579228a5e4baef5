-- ===== src/Ident.antt =====
-- What a device learns of its disk, aoecmd.c: `ata_ident_fixstring`, `ataid_complete`; the second
-- half of `aoecmd_sleepwork`. The identification is a list of 512 bytes; a byte behind its end reads
-- as 0. `struct hd_geometry`, which is the kernel's, keeps 16 bits of cylinders and 8 of the others.
pub mod Words
pub mod Strings
pub mod Due
use aoe.Prelude.{
  ℕ, zero, suc, ◌+◌, ◌*◌, ◌/◌, ◌%◌, ◌^◌, Bool, true, false, Option, none, some, List, [], ◌∷◌, ◌==◌,
  ◌||◌, not, if◌then◌else◌, get_or,
}
use aoe.Types.{AoeDev, Geometry, State, Kern}

-- `get_unaligned` little-endian words.
unfoldable pub le16 : List ℕ → ℕ → ℕ
le16 id i = get_or id i 0 + get_or id (i + 1) 0 * 2 ^ 8

unfoldable pub le32 : List ℕ → ℕ → ℕ
unfolding le16
le32 id i = le16 id i + le16 id (i + 2) * 2 ^ 16

unfoldable pub le64 : List ℕ → ℕ → ℕ
unfolding le32
le64 id i = le32 id i + le32 id (i + 4) * 2 ^ 32

-- `ata_ident_fixstring` of `ns` words at the list's front: the bytes of each change places.
unfoldable pub ata_ident_fixstring : List ℕ → ℕ → List ℕ
ata_ident_fixstring (a ∷ b ∷ id) (suc ns) = b ∷ a ∷ ata_ident_fixstring id ns
ata_ident_fixstring id ns = id

-- The same of the words behind the first `skip` bytes.
unfoldable pub fix_from : List ℕ → ℕ → ℕ → List ℕ
unfolding ata_ident_fixstring
fix_from id zero ns = ata_ident_fixstring id ns
fix_from [] (suc skip) ns = []
fix_from (a ∷ id) (suc skip) ns = a ∷ fix_from id skip ns

-- Serial number, firmware and model.
unfoldable pub fix_strings : List ℕ → List ℕ
unfolding fix_from
fix_strings id = fix_from (fix_from (fix_from id 20 10) 46 4) 54 20

-- Bit 10 of word 83 or 86: the commands with 48-bit addresses.
abbrev pub has_lba48 : List ℕ → Bool
has_lba48 id = not (le16 id 166 / 2 ^ 10 % 2 == 0) || not (le16 id 172 / 2 ^ 10 % 2 == 0)

abbrev pub sectors_of : List ℕ → ℕ
sectors_of id = if has_lba48 id then le64 id 200 else le32 id 120

-- The number of sectors is cut to 16 bits before it is divided.
abbrev pub geometry_of : List ℕ → Geometry
geometry_of id =
    let wide : Geometry = record {
      cylinders = le64 id 200 % 2 ^ 16 / (255 * 63);
      heads = 255;
      sectors = 63;
    } in
    let narrow : Geometry = record {
      cylinders = le16 id 108;
      heads = le16 id 110 % 2 ^ 8;
      sectors = le16 id 112 % 2 ^ 8;
    } in
    if has_lba48 id then wide else narrow

-- What the identification says is kept.
abbrev pub identified : List ℕ → AoeDev → AoeDev
identified id d = record d {
  flags = record d.flags { ext = has_lba48 id };
  geo = geometry_of id;
  ident = fix_strings id;
  ssize = sectors_of id;
}

-- A disk's size is set, a missing disk is asked for.
abbrev pub resized : Option ℕ → ℕ → AoeDev → AoeDev
resized none n d = record d { flags = record d.flags { gdalloc = true } }
resized (some c) n d = record d { capacity = some n; flags = record d.flags { newsize = true } }

abbrev pub schedule_work : Kern → Kern
schedule_work k = record k { work_scheduled = true }

-- `ataid_complete`.
unfoldable pub ataid_complete : List ℕ → State → State
unfolding le16 le32 le64 fix_strings
ataid_complete id s =
    let d = identified id s.dev in
    if d.flags.gdalloc || d.flags.newsize
    then record s { dev = d }
    else record s { dev = resized d.capacity d.ssize d; kern = schedule_work s.kern }

-- The second half of `aoecmd_sleepwork`: the device comes up with its new size.
unfoldable pub sleepwork_newsize : AoeDev → AoeDev
sleepwork_newsize d =
    if d.flags.newsize
    then record d { flags = record d.flags { up = true; newsize = false } }
    else d
