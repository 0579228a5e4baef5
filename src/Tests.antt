-- ===== src/Tests.antt =====
-- Runs of the driver at concrete states, and each property at one of them.
pub mod Devices
pub mod Module
pub mod Files
pub mod Tools
use aoe.Prelude.{
  get_or-replicate, ℕ, zero, suc, ◌+◌, ◌*◌, ◌^◌, ◌-◌, ◌/◌, ◌≡◌, ◌≢◌, ◌%◌, ◌↔◌, ◌<◌, refl, Bool,
  true, false, none, some, List, [], ◌∷◌, arith, replicate, length, inr, All, ◌==◌, ◌&&◌, not,
  if◌then◌else◌, get_or, ◌≤◌,
}
use aoe.Prelude.Int.{pos}
use aoe.Types.{
  Skb, Frame, AoeIf, AoeTgt, Request, AoeDev, State, Env, zero_hdr, zero_ata, zero_if, nothing,
  nfactive,
}
use aoe.Clock.{newtag, tsince_ticks, elapsed, rtt_update, rto}
use aoe.Clock.Tag.{newtag_bits, lasttag_after, newtag-ne, tsince-newtag}
use aoe.Clock.Elapsed.{elapsed_short, elapsed_long}
use aoe.Clock.Rtt.{rtt_update_bounds, rto_bounds}
use aoe.Hdr.{ata_header}
use aoe.Hdr.Lba.{lba_of, ata_header_decodes}
use aoe.Ifs.{same, ifrotate, ejectif, place}
use aoe.Ifs.Packed.{in_use, occurs, IsUnused, IsPacked}
use aoe.Ifs.Place.{is_failed, table_of, least_of, least_in_use, place_lem}
use aoe.Ifs.Eject.{ejectif_lem}
use aoe.Ifs.Rotate.{ifrotate-in_use}
use aoe.Tgt.{aoecmd_wreset, scorn, grow_window, note_loss, less_tainted, set_nframes, new_target}
use aoe.Tgt.Window.{
  IsBounded, responses, window_ops-IsBounded, slow_start, scorn_grows, new_target_window,
}
use aoe.Targets.{Slots, gettgt, addtgt, setdbcnt, first_null}
use aoe.Targets.Shape.{Answer, AddResult, HasMemory, Tells, gettgt_lem, addtgt_lem}
use aoe.Targets.Bytes.{Every, Attained, setdbcnt_lem}
use aoe.Frames.{getframe, fhash, out_of_fuel, search_from, start_hunt}
use aoe.Frames.Hash.{
  Buckets, IsHashed, IsHashedFrom, Got, active, getframe_lem, fhash_lem, getframe-fhash,
}
use aoe.Frames.Newframe.{newframe_ends}
use aoe.Types.{Response}
use aoe.Fail.Downdev.{aoedev_downdev-Balanced}
use aoe.Timer.{rexmit_timer}
use aoe.Timer.Account.{rexmit_timer-Balanced}
use aoe.Minors.{FirstZero, minor_get, minor_get_dyn, minor_free}
use aoe.Minors.Grants.{Granted, Outcome, minor_get_lem, minor_get_dyn_full, minor_free-Granted}
use aoe.Chr.{Ring, nmsg, aoechr_error, aoechr_read}
use aoe.Chr.Fifo.{IsRing, offered, reading, aoechr_error_lem, aoechr_read_lem}
use aoe.Rsp.{aoecmd_ata_rsp}
use aoe.Rsp.Account.{aoecmd_ata_rsp-Balanced}
use aoe.Send.{aoecmd_ata_rw}
use aoe.Send.Account.{IsBalanced, nout_in, is_of}
use aoe.Frames.View.{view}
use aoe.Send.Parts.{ata_rw-Balanced}
use aoe.Rexmit.{rexmit_deferred}
use aoe.Rexmit.Account.{rexmit_deferred-Balanced}
use aoe.Work.{aoeblk_request}
use aoe.Work.Account.{aoeblk_request-Balanced}

-- Two interfaces in use of eight.
abbrev two_ifs : List AoeIf
two_ifs =
    record { nd = some 1; lost = 0; bcnt = 1024 }
    ∷ record { nd = some 2; lost = 3; bcnt = 8192 }
    ∷ replicate 6 zero_if

-- A target with one command outstanding in a window of four, and a tainted one.
abbrev pub near : AoeTgt
near = record {
  addr = 0x0030489a0001;
  nframes = 16;
  ffree = [];
  ifs = two_ifs;
  ifp = 0;
  nout = 1;
  maxout = 4;
  next_cwnd = 16;
  ssthresh = 8;
  falloc = 1;
  lost = 0;
  taint = 0;
  minbcnt = 1024;
  wpkts = 0;
  rpkts = 1;
  nout_probes = pos 0;
}

abbrev far : AoeTgt
far = record near { addr = 0x0030489a0002; nout = 0; maxout = 1; taint = 3; falloc = 1 }

abbrev pub slots : Slots
slots = some near ∷ some far ∷ none ∷ none ∷ []

abbrev pub an_skb : Skb
an_skb = record {
  id = 7;
  hdr = zero_hdr;
  ata = zero_ata;
  data_len = 0;
  payload = nothing;
  dev = some 1;
}

-- The outstanding command of `near`.
abbrev pub active_frame : Frame
active_frame = record {
  tag = 0x20010;
  sent = 900000;
  sent_jiffs = 16;
  waited = 0;
  waited_total = 0;
  t = 0;
  skb = some an_skb;
  r_skb = none;
  buf = none;
  iter = record { sector = 8; size = 1024 };
  nout = 1;
  probe = false;
}

-- A deferred command of the tainted target.
abbrev deferred_frame : Frame
deferred_frame = record active_frame { tag = 0x10010; t = 1; skb = some (record an_skb { id = 8 }) }

abbrev no_frames : Buckets
no_frames = replicate nfactive []

abbrev pub one_active : Buckets
one_active = fhash active_frame no_frames

-- Two bios, one to write and one to read.
abbrev a_request : Request
a_request = record {
  id = 100;
  bios =
      record { write = true; iter = record { sector = 64; size = 4096 }; error = false }
      ∷ record { write = false; iter = record { sector = 72; size = 512 }; error = false }
      ∷ [];
  special = 0;
}

abbrev pub a_dev : AoeDev
a_dev = record {
  sysminor = 0;
  aoemajor = 1;
  aoeminor = 2;
  rttavg = 64000000;
  rttdev = 16000000;
  flags = record {
    up = true;
    tkill = false;
    ext = true;
    gdalloc = false;
    gd_now = false;
    kickme = false;
    newsize = false;
    freeing = false;
    freed = false;
  };
  nopen = 1;
  fw_ver = 0x400a;
  lasttag = 2;
  ref = 0;
  capacity = some 2000;
  geo = record { cylinders = 1; heads = 255; sectors = 63 };
  ssize = 2000;
  ident = [];
  skbpool = [];
  nskbpool = 0;
  blkq = some (a_request ∷ []);
  started = [];
  bufs = [];
  ip = record { buf = none; nxbio = 0; rq = none };
  maxbcnt = 1024;
  factive = one_active;
  rexmitq = deferred_frame ∷ [];
  targets = slots;
  tgt = 0;
  kicked = 0;
}

abbrev pub a_state : State
a_state = record {
  dev = a_dev;
  kern = record {
    allocs = replicate 20 true;
    fresh = 1000;
    tx = [];
    messages = [];
    completions = [];
    ended = [];
    copied = [];
    work_scheduled = false;
  };
}

-- A first clear bit, found bit by bit.
abbrev pub first_zero : List Bool → ℕ
first_zero [] = 0
first_zero (true ∷ us) = suc (first_zero us)
first_zero (false ∷ us) = 0

-- The kernel steps a position in a bio by whole bytes of its one segment.
abbrev pub an_env : Env
an_env = record {
  hz = 250;
  jiffies = 25;
  now = 1000000;
  busy = λ id. false;
  dev_addr = λ nd. 0x001b21000000 + nd;
  mtu = λ nd. 1500;
  bio_advance_iter = λ it n. record { sector = it.sector + n / 512; size = it.size - n };
  page_size = 4096;
  jiffies_to_usecs = λ n. n * 4000;
  aoe_deadsecs = 180;
  aoe_maxout = 64;
  aoe_dyndevs = true;
  aoe_partitions = 16;
  find_first_zero_bit = first_zero;
  work_pending = λ n. true;
}

no_frames-IsHashedFrom : (n k : ℕ) → IsHashedFrom n (replicate k [])
no_frames-IsHashedFrom n zero = tt
no_frames-IsHashedFrom n (suc k) = (tt, no_frames-IsHashedFrom (suc n) k)

no_frames-IsHashed : IsHashed no_frames
no_frames-IsHashed = (refl, no_frames-IsHashedFrom 0 61)

one_active-IsHashed : IsHashed one_active
one_active-IsHashed = (fhash_lem active_frame no_frames no_frames-IsHashed).0

-- How many commands each target has outstanding.
counts :
    (i : ℕ)
    → i < first_null (view a_state).0
    → nout_in (view a_state).0 i ≡ (active (is_of i) (view a_state).1 + 0) % 2 ^ 16
unfolding fhash
counts zero l = refl
counts (suc zero) l = refl
counts (suc (suc i)) l = absurd (omega arith)

pub a_state-IsBalanced : IsBalanced a_state
unfolding fhash
a_state-IsBalanced = record {
  hashed = one_active-IsHashed;
  wired = (refl, (refl, tt));
  nouts = counts;
}

rexmit_timer-Balanced_example : IsBalanced (rexmit_timer an_env a_state)
rexmit_timer-Balanced_example = rexmit_timer-Balanced an_env a_state a_state-IsBalanced

-- The response to the active frame.
abbrev pub a_response : Response
a_response = record {
  hdr = record zero_hdr { major = 1; minor = 2; tag = 0x20010; src = 0x0030489a0001 };
  ata = zero_ata;
  len = 1024;
  bytes = replicate 1024 7;
  dev = some 1;
}

aoecmd_ata_rsp-Balanced_example : IsBalanced (aoecmd_ata_rsp an_env a_response a_state).1
aoecmd_ata_rsp-Balanced_example =
    aoecmd_ata_rsp-Balanced an_env a_response a_state a_state-IsBalanced

aoeblk_request-Balanced_example : IsBalanced (aoeblk_request an_env a_state)
aoeblk_request-Balanced_example = aoeblk_request-Balanced an_env a_state a_state-IsBalanced

rexmit_deferred-Balanced_example : IsBalanced (rexmit_deferred an_env a_state)
rexmit_deferred-Balanced_example = rexmit_deferred-Balanced an_env a_state a_state-IsBalanced

ata_rw-Balanced_example : IsBalanced (aoecmd_ata_rw an_env a_state).1
ata_rw-Balanced_example = ata_rw-Balanced an_env a_state a_state-IsBalanced

newframe_ends_example : (search_from 8 an_env (start_hunt a_state)).0 ≢ out_of_fuel
newframe_ends_example = newframe_ends an_env a_state (refl, tt) (omega arith)

getframe_lem_example :
    Got 0x20010 one_active (getframe 0x20010 one_active).0 (getframe 0x20010 one_active).1
    × IsHashed (getframe 0x20010 one_active).1
getframe_lem_example = getframe_lem 0x20010 one_active one_active-IsHashed

addtgt_lem_example :
    AddResult slots 5 (addtgt slots 5 16 (true ∷ [])).0 (addtgt slots 5 16 (true ∷ [])).1
    × Tells (HasMemory slots (true ∷ [])) (addtgt slots 5 16 (true ∷ [])).0
addtgt_lem_example = addtgt_lem slots 5 16 (true ∷ []) (refl, tt) (omega arith)

IsUnused-tail : (n : ℕ) → All IsUnused (replicate n zero_if)
IsUnused-tail zero = tt
IsUnused-tail (suc n) = (refl, IsUnused-tail n)

unused-IsPacked : (n : ℕ) → IsPacked (replicate n zero_if)
unused-IsPacked zero = tt
unused-IsPacked (suc n) = (λ u. IsUnused-tail n, unused-IsPacked n)

two_ifs-IsPacked : IsPacked two_ifs
two_ifs-IsPacked = (λ u. cc u, (λ u. cc u, unused-IsPacked 6))

place_lem_example :
    (is_failed (place two_ifs (some 3) 4096 4096)
      ≡ ((in_use two_ifs == length two_ifs) && (occurs 3 two_ifs == 0)))
    × (length (table_of two_ifs (place two_ifs (some 3) 4096 4096)) ≡ length two_ifs)
    × IsPacked (table_of two_ifs (place two_ifs (some 3) 4096 4096))
    × (occurs 2 (table_of two_ifs (place two_ifs (some 3) 4096 4096)) ≡ (
        if same (some 2) (some 3)
          && (occurs 2 two_ifs == 0)
          && not (is_failed (place two_ifs (some 3) 4096 4096))
        then 1
        else occurs 2 two_ifs))
    × (least_of 4096 (place two_ifs (some 3) 4096 4096)
        ≡ least_in_use 4096 (table_of [] (place two_ifs (some 3) 4096 4096)))
place_lem_example = place_lem two_ifs 3 4096 2 two_ifs-IsPacked

near-IsBounded : IsBounded near
near-IsBounded = record { window = inr (omega arith); taint = omega arith }

window_ops-IsBounded_example :
    IsBounded (aoecmd_wreset near)
    × IsBounded (scorn near)
    × IsBounded (grow_window near)
    × IsBounded (note_loss near)
    × IsBounded (less_tainted near)
    × IsBounded (set_nframes near 2)
    × IsBounded (new_target 5 2)
window_ops-IsBounded_example = window_ops-IsBounded near 2 5 near-IsBounded

ata_header_decodes_example :
    (lba_of (ata_header true true (record { sector = 0x123456789a; size = 2 * 512 }))
      ≡ 0x123456789a)
    × ((ata_header true true (record { sector = 0x123456789a; size = 2 * 512 })).scnt ≡ 2)
    × ((ata_header true true (record { sector = 0x123456789a; size = 2 * 512 })).lba3 < 2 ^ 8)
    × ((ata_header true true (record { sector = 0x123456789a; size = 2 * 512 })).cmdstat ≡ 0x34)
ata_header_decodes_example = ata_header_decodes true true 0x123456789a 2 (omega arith) (omega arith)

first_zero-bound : (us : List Bool) → first_zero us ≤ length us
first_zero-bound [] = omega arith
first_zero-bound (true ∷ us) = omega (arith, first_zero-bound us)
first_zero-bound (false ∷ us) = omega arith

first_zero-below : (us : List Bool) (i : ℕ) → i < first_zero us → get_or us i true ≡ true
first_zero-below [] i l = absurd (omega arith)
first_zero-below (true ∷ us) zero l = refl
first_zero-below (true ∷ us) (suc i) l = first_zero-below us i (omega arith)
first_zero-below (false ∷ us) i l = absurd (omega arith)

first_zero-clear :
    (us : List Bool) → first_zero us < length us → get_or us (first_zero us) true ≡ false
first_zero-clear [] l = absurd (omega arith)
first_zero-clear (true ∷ us) l = first_zero-clear us (omega arith)
first_zero-clear (false ∷ us) l = refl

pub first_zero-FirstZero : FirstZero first_zero
first_zero-FirstZero = record {
  bound = first_zero-bound;
  below = first_zero-below;
  clear = first_zero-clear;
}

abbrev three_minors : List Bool
three_minors = true ∷ false ∷ true ∷ []

minor_get_lem_example : Outcome 16 three_minors (minor_get first_zero true 16 three_minors 0 1 2)
minor_get_lem_example =
    minor_get_lem first_zero true 16 three_minors 0 1 2 first_zero-FirstZero (omega arith)

second-Granted : Granted 16 three_minors 16 (true ∷ true ∷ true ∷ [])
second-Granted = record { inside = omega arith; free = refl; taken = refl; aligned = refl }

-- An empty ring at its last entry.
abbrev a_ring : Ring
a_ring = record { emsgs = replicate nmsg none; head = 99; tail = 99 }

a_ring-IsRing : IsRing a_ring []
a_ring-IsRing = record {
  size = refl;
  start = omega arith;
  stop = refl;
  room = omega arith;
  slots = λ i k. get_or-replicate nmsg none ((99 + i) % nmsg);
}

aoechr_error_lem_example :
    IsRing (aoechr_error true (104 ∷ 105 ∷ []) a_ring) (offered true (104 ∷ 105 ∷ []) [])
aoechr_error_lem_example = aoechr_error_lem true (104 ∷ 105 ∷ []) a_ring [] a_ring-IsRing

one_message-IsRing : IsRing (aoechr_error true (104 ∷ 105 ∷ []) a_ring) ((104 ∷ 105 ∷ []) ∷ [])
one_message-IsRing = aoechr_error_lem true (104 ∷ 105 ∷ []) a_ring [] a_ring-IsRing
