-- ===== src/Tools/Ping/Run.antt =====
-- `main` of aoeping.c behind `dial` and `getea`, which give the socket and the interface's address.
use aoe.Prelude.{
  ℕ, ◌+◌, ◌%◌, ◌^◌, Bool, true, false, Option, none, some, List, ◌||◌, if◌then◌else◌, inl, inr, ◌⊎◌,
}
use aoe.Tools.{with_top}
use aoe.Tools.Socket.{Packet, Exit, failure, Socket, Ran, stopped, ran, and_then}
use aoe.Tools.Ping.{Progopts, Item, init_opts, find_blade, disk_identify}
use aoe.Tools.Smart.{smart}

abbrev pub one_more : Progopts → Progopts
one_more o = record o { tag = (o.tag + 1) % 2 ^ 32 }

-- What the process has from its surroundings: `strtol`, the standard input, the address.
pub record Surroundings : Type 0 where
  pub strtol : List ℕ → ℕ
  pub stdin : Option (List ℕ)
  pub mac : ℕ

-- The SMART command, where the disk supports it.
abbrev pub smart_step :
    Surroundings → Packet → Progopts → Option (List ℕ) → Bool → Socket → Ran Unit
smart_step w c o none smartable k = ran tt k
smart_step w c o (some nam) false k = stopped failure k
smart_step w c o (some nam) true k =
    and_then (smart w.strtol w.stdin w.mac c o.tag nam k) (λ r k'. ran tt k')

abbrev pub has_smart : Option (List ℕ) → Bool
has_smart none = false
has_smart (some nam) = true

-- What follows once the device is found.
abbrev pub with_blade : Surroundings → Packet → Progopts → Socket → Ran Unit
with_blade w c o k =
    if o.ata_ident || has_smart o.smart
    then and_then (disk_identify w.mac c o k) (smart_step w c (one_more o) o.smart)
    else ran tt k

unfoldable pub pinged : Surroundings → Progopts → Socket → Ran Unit
pinged w o k = and_then (find_blade w.mac o k) (λ c k'. with_blade w c (one_more o) k')

abbrev pub with_opts : Surroundings → Socket → Exit ⊎ Progopts → Ran Unit
with_opts w k (inl e) = stopped e k
with_opts w k (inr o) = pinged w (record o { tag = with_top o.tag }) k

unfoldable pub aoeping : Surroundings → List Item → Option (ℕ × ℕ) → Socket → Ran Unit
aoeping w is args k = with_opts w k (init_opts is args)
