-- ===== src/Tools/San.antt =====
-- What aoe-sancheck.c learns of the network: `inserttarg`, `findlun`, `discover`, `jprobe`, `jinput`;
-- `jcheck` is in Check. A hardware address is a number, which compares as `memcmp` compares its
-- bytes. `id` and `targlist`, which all threads share, go along with the luns of one interface.
pub mod Targs
pub mod Luns
pub mod Probes
pub mod Check
pub mod Learned
use aoe.Prelude.{
  ℕ, zero, suc, ◌+◌, ◌-◌, ◌*◌, ◌/◌, ◌%◌, ◌^◌, Bool, true, false, Option, none, some, List, [], ◌∷◌,
  ltb, leb, ◌==◌, ◌&&◌, ◌||◌, not, if◌then◌else◌, get_elem?, modify,
}
use aoe.Types.{AoeHdr, zero_hdr}
use aoe.Tools.{broadcast, hnputl, byte, nhgetl}

pub record Targ : Type 0 where
  pub major : ℕ
  pub minor : ℕ

abbrev pub is_same : Targ → Targ → Bool
is_same s t = s.major == t.major && s.minor == t.minor

abbrev pub is_less : Targ → Targ → Bool
is_less s t = ltb s.major t.major || (s.major == t.major && ltb s.minor t.minor)

-- The loop of `inserttarg`, behind a target that comes first.
unfoldable pub insert_behind : Targ → List Targ → List Targ
insert_behind nt [] = nt ∷ []
insert_behind nt (t ∷ ts) =
    let rest = insert_behind nt ts in
    if is_same nt t then t ∷ ts else if is_less nt t then nt ∷ t ∷ ts else t ∷ rest

unfoldable pub inserttarg : Targ → List Targ → List Targ
unfolding insert_behind
inserttarg nt [] = nt ∷ []
inserttarg nt (t ∷ ts) =
    if is_less nt t then nt ∷ t ∷ ts else if is_same nt t then t ∷ ts else t ∷ insert_behind nt ts

-- A lun; it is probed, or new.
pub record Lun : Type 0 where
  pub probed : Bool
  pub ea : ℕ
  pub major : ℕ
  pub minor : ℕ
  pub nsect : ℕ
  pub maxsect : ℕ
  pub id : ℕ

-- The luns of an interface, the next `id`, and `targlist`.
pub record San : Type 0 where
  pub luns : List Lun
  pub id : ℕ
  pub targlist : List Targ

-- The lun comes before the packet's place, and the loop of `findlun` goes on.
unfoldable pub goes_on : ℕ → ℕ → ℕ → Lun → Bool
goes_on maj min src p =
    if ltb maj p.major
    then true
    else if ltb p.major maj
    then false
    else if ltb min p.minor
    then true
    else if ltb p.minor min
    then false
    else ltb p.ea src

abbrev pub is_it : ℕ → ℕ → ℕ → Lun → Bool
is_it maj min src p = p.major == maj && p.minor == min && p.ea == src

abbrev pub further : ℕ × Bool → ℕ × Bool
further (i, found) = (suc i, found)

-- The loop of `findlun`: where it ends, and whether the lun is there.
unfoldable pub walk : ℕ → ℕ → ℕ → List Lun → ℕ × Bool
unfolding goes_on
walk maj min src [] = (0, false)
walk maj min src (p ∷ ps) =
    let rest = walk maj min src ps in
    if goes_on maj min src p then further rest else (0, is_it maj min src p)

abbrev pub insert_at : List Lun → ℕ → Lun → List Lun
insert_at ps zero p = p ∷ ps
insert_at [] (suc i) p = p ∷ []
insert_at (q ∷ ps) (suc i) p = q ∷ insert_at ps i p

-- `0x8000 | id`.
abbrev pub lun_id : ℕ → ℕ
lun_id id = if id / 2 ^ 15 % 2 == 0 then id + 2 ^ 15 else id

abbrev pub new_lun : ℕ → ℕ → ℕ → ℕ → Lun
new_lun maj min src id = record {
  probed = false;
  ea = src;
  major = maj;
  minor = min;
  nsect = 0;
  maxsect = 0;
  id = lun_id id;
}

abbrev pub found_or_new : AoeHdr → San → ℕ × Bool → Option ℕ × San
found_or_new a e (i, true) = (some i, e)
found_or_new a e (i, false) =
    let grown : San = record {
      luns = insert_at e.luns i (new_lun a.major a.minor a.src e.id);
      id = e.id + 1;
      targlist = inserttarg (record { major = a.major; minor = a.minor }) e.targlist;
    } in
    if a.cmd == 0 then (none, e) else (some i, grown)

-- `findlun`: the place of the packet's lun, which is new unless the packet is an ATA response.
unfoldable pub findlun : San → AoeHdr → Option ℕ × San
unfolding walk inserttarg
findlun e a = found_or_new a e (walk a.major a.minor a.src e.luns)

-- A packet that is sent, with its length.
pub record Sent : Type 0 where
  pub hdr : AoeHdr
  pub cmdstat : ℕ
  pub scnt : ℕ
  pub len : ℕ

-- `discover`: a config query to everybody; `mintu` of its 32 bytes.
unfoldable pub discover : ℕ → Sent
discover ea = record {
  hdr = record zero_hdr {
    dst = broadcast;
    src = ea;
    verfl = 0x10;
    major = 0xffff;
    minor = 0xff;
    cmd = 1;
    tag = 2 ^ 31;
  };
  cmdstat = 0;
  scnt = 0;
  len = 60;
}

-- The tag of a probe with a payload of `n` bytes: the last byte of the id's is replaced.
unfoldable pub probe_tag : ℕ → ℕ → ℕ
unfolding hnputl nhgetl
probe_tag id n =
    let b = hnputl (id * 2 ^ 16) in nhgetl (byte b 0 ∷ byte b 1 ∷ byte b 2 ∷ n / 512 % 2 ^ 8 ∷ [])

unfoldable pub probe : ℕ → Lun → ℕ → Sent
unfolding probe_tag
probe ea lun n = record {
  hdr = record zero_hdr {
    dst = lun.ea;
    src = ea;
    verfl = 0x10;
    major = lun.major % 2 ^ 16;
    minor = lun.minor;
    tag = probe_tag lun.id n;
  };
  cmdstat = 0xec;
  scnt = 1;
  len = 36 + n;
}

-- The loop of `jprobe`, for payloads of so many sectors and fewer.
unfoldable pub probes_down : ℕ → Lun → ℕ → List Sent
unfolding probe
probes_down ea lun zero = []
probes_down ea lun (suc k) = probe ea lun (suc k * 512) ∷ probes_down ea lun k

-- `jprobe` of an interface with the address and the MTU.
unfoldable pub jprobe : ℕ → ℕ → Lun → List Sent
unfolding probes_down
jprobe ea mtu lun = probes_down ea lun ((mtu - 36) / 512)

abbrev pub at_lun : (Lun → Lun) → ℕ → San → San
at_lun g i e = record e { luns = modify g e.luns i }

-- What `jinput` answers: whether the packet was useful, what is sent, and the state.
abbrev pub Input : Type 0
Input = Bool × List Sent × San

-- A config response, `scnt` of which is the target's; its lun is probed once.
abbrev pub config_at : ℕ → ℕ → ℕ → San → ℕ → Option Lun → Input
config_at ea mtu scnt e i none = (false, [], e)
config_at ea mtu scnt e i (some lun) =
    let l = record lun { nsect = scnt } in
    let probed = at_lun (λ p. record p { nsect = scnt; probed = true }) i e in
    if lun.probed then (false, [], e) else (true, jprobe ea mtu l, probed)

unfoldable pub config_input : ℕ → ℕ → ℕ → Option ℕ × San → Input
unfolding jprobe
config_input ea mtu scnt (none, e) = (false, [], e)
config_input ea mtu scnt (some i, e) = config_at ea mtu scnt e i (get_elem? e.luns i)

-- The answer to a probe tells a payload that gets through.
abbrev pub answered : ℕ → Lun → Lun
answered n lun = record lun { maxsect = if ltb lun.maxsect n then n else lun.maxsect }

abbrev pub ata_at : ℕ → San → ℕ → Option Lun → Input
ata_at tag e i none = (false, [], e)
ata_at tag e i (some lun) =
    if lun.id == tag / 2 ^ 16
    then (true, [], at_lun (answered (tag % 2 ^ 8)) i e)
    else (false, [], e)

unfoldable pub ata_input : ℕ → Option ℕ × San → Input
ata_input tag (none, e) = (false, [], e)
ata_input tag (some i, e) = ata_at tag e i (get_elem? e.luns i)

-- `jinput`: a response without an error whose tag has the highest bit.
unfoldable pub jinput : ℕ → ℕ → San → AoeHdr → ℕ → Input
unfolding findlun config_input ata_input
jinput ea mtu e a scnt =
    if a.verfl / 2 ^ 3 % 2 == 0 || not (a.verfl / 2 ^ 2 % 2 == 0)
    then (false, [], e)
    else if a.tag / 2 ^ 31 % 2 == 0
    then (false, [], e)
    else if a.cmd == 1
    then config_input ea mtu scnt (findlun e a)
    else if a.cmd == 0
    then ata_input a.tag (findlun e a)
    else (false, [], e)
