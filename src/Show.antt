-- ===== src/Show.antt =====
-- What a disk's files in sysfs and debugfs say, aoeblk.c: `aoedisk_show_state`, `aoedisk_show_mac`,
-- `aoedisk_show_netif`, `aoedisk_show_fwver`, `aoedisk_show_payload`, `aoedisk_debugfs_show`. A file
-- is a list of what it prints; an interface is its pointer.
pub mod Netif
pub mod Whole
use aoe.Prelude.{
  ℕ, zero, suc, ◌+◌, ◌/◌, ◌^◌, Bool, true, false, Option, none, some, List, [], ◌∷◌, ◌++◌, ltb,
  ◌==◌, ◌&&◌, ◌||◌, not, if◌then◌else◌, length, map,
}
use aoe.Types.{AoeDev, AoeTgt, AoeIf, Frame, naoeifs}

-- The words of the file `state`.
pub data StateWord : Type 0 where
  up : StateWord
  down : StateWord
  kickme : StateWord
  closewait : StateWord

unfoldable pub aoedisk_show_state : AoeDev → List StateWord
aoedisk_show_state d =
    (if d.flags.up then up else down)
    ∷ (if d.flags.kickme
        then kickme ∷ []
        else if not (d.nopen == 0) && not d.flags.up
        then closewait ∷ []
        else [])

-- `targets[0]`'s address, or "none".
abbrev pub first_addr : List (Option AoeTgt) → Option ℕ
first_addr [] = none
first_addr (none ∷ ts) = none
first_addr (some t ∷ ts) = some t.addr

unfoldable pub aoedisk_show_mac : AoeDev → Option ℕ
aoedisk_show_mac d = first_addr d.targets

-- The entries of `nds` that are in use; a new one is put behind them where one of the 8 is left.
abbrev pub is_in : ℕ → List ℕ → Bool
is_in nd [] = false
is_in nd (n ∷ nds) = n == nd || is_in nd nds

abbrev pub noted : ℕ → List ℕ → List ℕ
noted nd nds = if is_in nd nds then nds else if length nds == 8 then nds else nds ++ nd ∷ []

-- The loop over a target's interfaces, up to the first that is not set.
unfoldable pub note_ifs : List AoeIf → List ℕ → List ℕ
note_ifs [] nds = nds
note_ifs (i ∷ ifs) nds = elim i.nd [ none ↦ nds | some nd ↦ note_ifs ifs (noted nd nds) ]

-- The loop over the targets, up to the first that is not set.
unfoldable pub note_targets : List (Option AoeTgt) → List ℕ → List ℕ
unfolding note_ifs
note_targets [] nds = nds
note_targets (none ∷ ts) nds = nds
note_targets (some t ∷ ts) nds = note_targets ts (note_ifs t.ifs nds)

-- The interfaces whose names are printed; none of them is "none".
unfoldable pub aoedisk_show_netif : AoeDev → List ℕ
unfolding note_targets
aoedisk_show_netif d = note_targets d.targets []

abbrev pub aoedisk_show_fwver : AoeDev → ℕ
aoedisk_show_fwver d = d.fw_ver

abbrev pub aoedisk_show_payload : AoeDev → ℕ
aoedisk_show_payload d = d.maxbcnt

-- A target's lines in debugfs.
pub record TgtLines : Type 0 where
  pub falloc : ℕ
  pub has_ffree : Bool
  pub addr : ℕ
  pub nout : ℕ
  pub maxout : ℕ
  pub nframes : ℕ
  pub ssthresh : ℕ
  pub lost : ℕ
  pub taint : ℕ
  pub rpkts : ℕ
  pub wpkts : ℕ
  pub names : List ℕ

pub record DevLines : Type 0 where
  pub rttavg : ℕ
  pub rttdev : ℕ
  pub nskbpool : ℕ
  pub kicked : ℕ
  pub maxbcnt : ℕ
  pub ref : ℕ
  pub targets : List TgtLines

abbrev pub is_empty : List Frame → Bool
is_empty [] = true
is_empty (f ∷ fs) = false

-- The interfaces of a target, and how many entries of `ifs` the loop looks at: it reads an entry's
-- `nd` before it compares the place with the array's end.
abbrev pub one_more : List ℕ × ℕ → ℕ → List ℕ × ℕ
one_more (nds, looks) nd = (nd ∷ nds, suc looks)

unfoldable pub shown_ifs : List AoeIf → List ℕ × ℕ
shown_ifs [] = ([], 1)
shown_ifs (i ∷ ifs) = elim i.nd [ none ↦ ([], 1) | some nd ↦ one_more (shown_ifs ifs) nd ]

unfoldable pub tgt_lines : AoeTgt → TgtLines
unfolding shown_ifs
tgt_lines t = record {
  falloc = t.falloc;
  has_ffree = not (is_empty t.ffree);
  addr = t.addr;
  nout = t.nout;
  maxout = t.maxout;
  nframes = t.nframes;
  ssthresh = t.ssthresh;
  lost = t.lost;
  taint = t.taint;
  rpkts = t.rpkts;
  wpkts = t.wpkts;
  names = (shown_ifs t.ifs).0;
}

unfoldable pub all_lines : List (Option AoeTgt) → List TgtLines
all_lines [] = []
all_lines (none ∷ ts) = []
all_lines (some t ∷ ts) = tgt_lines t ∷ all_lines ts

-- RTTSCALE is 8 and RTTDSCALE 3.
unfoldable pub aoedisk_debugfs_show : AoeDev → DevLines
unfolding all_lines
aoedisk_debugfs_show d = record {
  rttavg = d.rttavg / 2 ^ 8;
  rttdev = d.rttdev / 2 ^ 3;
  nskbpool = d.nskbpool;
  kicked = d.kicked;
  maxbcnt = d.maxbcnt;
  ref = d.ref;
  targets = all_lines d.targets;
}
