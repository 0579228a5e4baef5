-- ===== src/Net.antt =====
-- The network side, aoenet.c: `aoe_strcspn`, `is_aoe_netif`, `set_aoe_iflist`, and what `aoenet_rcv`
-- does with a packet. Text is a list of bytes, up to its NUL.
pub mod Words
pub mod Listed
pub mod Received
pub mod Transmit
use aoe.Prelude.{
  ℕ, zero, suc, ◌+◌, ◌/◌, ◌%◌, ◌^◌, Bool, true, false, Option, none, some, List, [], ◌∷◌, ltb, leb,
  ◌==◌, ◌&&◌, ◌||◌, not, if◌then◌else◌, length,
}
use aoe.Types.{AoeHdr}
use aoe.Flush.{is_same}

-- WHITESPACE.
abbrev pub whitespace : List ℕ
whitespace = 32 ∷ 9 ∷ 11 ∷ 12 ∷ 10 ∷ 44 ∷ []

unfoldable pub is_among : List ℕ → ℕ → Bool
is_among [] c = false
is_among (r ∷ rs) c = let rest = is_among rs c in c == r || rest

-- `aoe_strcspn`: how many characters come before one of `reject`.
unfoldable pub aoe_strcspn : List ℕ → List ℕ → ℕ
aoe_strcspn [] reject = 0
aoe_strcspn (c ∷ cs) reject =
    let rest = aoe_strcspn cs reject in if is_among reject c then 0 else suc rest

-- `s + strspn(s, WHITESPACE)`.
unfoldable pub skip_white : List ℕ → List ℕ
skip_white [] = []
skip_white (c ∷ cs) = let rest = skip_white cs in if is_among whitespace c then rest else c ∷ cs

abbrev pub dropped : ℕ → List ℕ → List ℕ
dropped zero s = s
dropped (suc n) [] = []
dropped (suc n) (c ∷ cs) = dropped n cs

-- The loop of `is_aoe_netif` over the words at `p`.
unfoldable pub netif_loop : ℕ → List ℕ → List ℕ → Bool
unfolding is_among aoe_strcspn skip_white
netif_loop zero p name = false
netif_loop (suc fuel) [] name = false
netif_loop (suc fuel) (c ∷ cs) name =
    let p = c ∷ cs in
    let n = aoe_strcspn p whitespace in
    let len = if n == 0 then length p else n in
    let rest = netif_loop fuel (skip_white (dropped n p)) name in
    if length name == len && is_same len name p then true else if n == 0 then false else rest

-- `is_aoe_netif`: whether the interface's name stands in the list, or the list is empty. Each round
-- consumes a character at least, so the length of the list is fuel enough.
unfoldable pub is_aoe_netif : List ℕ → List ℕ → Bool
unfolding netif_loop
is_aoe_netif [] name = true
is_aoe_netif (c ∷ cs) name = netif_loop (length (c ∷ cs)) (skip_white (c ∷ cs)) name

-- What `set_aoe_iflist` answers, and the list: -EINVAL for a text that does not fit, -EFAULT where
-- the user's memory cannot be read.
pub data IflistAnswer : Type 0 where
  einval : IflistAnswer
  efault : IflistAnswer
  stored : IflistAnswer

abbrev pub iflistsz : ℕ
iflistsz = 1024

-- A text ends with its first NUL.
abbrev pub upto_nul : List ℕ → List ℕ
upto_nul [] = []
upto_nul (c ∷ cs) = if c == 0 then [] else c ∷ upto_nul cs

-- `torn` is what `copy_from_user` makes of the list in place where it fails.
unfoldable pub set_aoe_iflist : Bool → (List ℕ → List ℕ) → List ℕ → List ℕ → IflistAnswer × List ℕ
set_aoe_iflist readable torn text aoe_iflist =
    if leb iflistsz (length text)
    then (einval, aoe_iflist)
    else if not readable
    then (efault, upto_nul (torn aoe_iflist))
    else (stored, upto_nul text)

-- What becomes of a packet.
pub data Verdict : Type 0 where
  ignored : Verdict
  error_packet : ℕ → Verdict
  to_ata_rsp : Verdict
  to_cfg_rsp : Verdict
  vendor : Verdict
  unknown : Verdict

-- The error code that is looked up.
abbrev pub necodes : ℕ
necodes = 5

abbrev pub aoecmd_vend_min : ℕ
aoecmd_vend_min = 0xf0

-- `aoenet_rcv` from where the headers are in one place.
unfoldable pub rcv_hdr : AoeHdr → Verdict
rcv_hdr h =
    let n = if ltb necodes h.err then 0 else h.err in
    if h.verfl / 2 ^ 3 % 2 == 0 || not (h.tag / 2 ^ 31 % 2 == 0)
    then ignored
    else if not (h.verfl / 2 ^ 2 % 2 == 0)
    then error_packet n
    else if h.cmd == 0
    then to_ata_rsp
    else if h.cmd == 1
    then to_cfg_rsp
    else if leb aoecmd_vend_min h.cmd
    then vendor
    else unknown

-- What the kernel says of a packet: it belongs to the network that the driver serves, it could be
-- had for the driver alone, and its headers could be put into one place.
pub record Arrival : Type 0 where
  pub init_net : Bool
  pub unshared : Bool
  pub pulled : Bool
  pub len : ℕ
  pub name : List ℕ
  pub hdr : AoeHdr

-- `aoenet_rcv`; a packet that is shorter than the headers is not put into one place, but goes on.
unfoldable pub aoenet_rcv : List ℕ → Arrival → Verdict
unfolding is_aoe_netif rcv_hdr
aoenet_rcv aoe_iflist a =
    if not a.init_net || not a.unshared
    then ignored
    else if not (is_aoe_netif aoe_iflist a.name)
    then ignored
    else if leb 36 a.len && not a.pulled
    then ignored
    else rcv_hdr a.hdr
